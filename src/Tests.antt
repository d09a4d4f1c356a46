-- ===== src/Tests.antt =====
-- The theorems at concrete inputs.
mod World
mod Texts
mod Servers
mod Ghosts
mod Parts
mod Modems
mod Holders
mod Links
