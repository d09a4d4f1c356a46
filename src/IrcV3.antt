-- ===== src/IrcV3.antt =====
-- src/irc_s2c_v3.rs: the IRCv3 capabilities that the server has.
use sms_irc.Base.{String, Option, none, some, if◌then◌else◌, ◌==◌, String_Eq}

abbrev pub supported_caps : String
supported_caps = "away-notify"

pub data IrcCap : Type 0 where
  away_notify : IrcCap

abbrev pub cap_name : IrcCap → String
cap_name IrcCap.away_notify = "away-notify"

abbrev pub from_cap_name : String → Option IrcCap
from_cap_name cn = if cn == "away-notify" then some IrcCap.away_notify else none
