-- ===== src/Store/Tables.antt =====
-- src/store.rs, migrations/: the tables as lists of rows in the order of their insertion.
use sms_irc.Base.{ℕ, String, Bool, true, false, List, [], ◌∷◌, Option, ok, err, M}
use sms_irc.Models.{Recipient, Message, Group}

-- `faults` says of the coming statements whether the pool and the server refuse them; none is
-- refused beyond its end.
pub record Store : Type 0 where
  pub recipients : List Recipient
  pub messages : List Message
  pub groups : List Group
  pub wa_persistence : Option ℕ
  pub wa_msgids : List String
  pub next_recipient : ℕ
  pub next_message : ℕ
  pub next_group : ℕ
  pub faults : List Bool

abbrev pub connect_by : List Bool → M Store (Unit {0})
connect_by [] st = (ok tt, st)
connect_by (true ∷ rest) st = (err "database error", record st { faults = rest })
connect_by (false ∷ rest) st = (ok tt, record st { faults = rest })

-- `self.inner.get()?`, with the server's answer to the one statement that follows.
unfoldable pub connect : M Store (Unit {0})
connect st = connect_by st.faults st
