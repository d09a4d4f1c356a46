-- ===== src/Insp/Consistent/Writes.antt =====
-- src/insp_s2s.rs: the writes of the handlers leave the maps of the link consistent.
use text.Mathlib.Text.{starts_with}
use sms_irc.Base.{
  ℕ, ◌≡◌, refl, String, false, not, arith, String_Eq, lookup, lookup-keep_keys, Keeps,
}
use sms_irc.Extern.{PduAddress_Eq}
use sms_irc.Insp.{InspLink, Env}
use sms_irc.Insp.Users.{uuid_of}
use sms_irc.Insp.Remote.{handle_squit}
use sms_irc.Insp.Keeps.{KeepsQuiet}
use sms_irc.Insp.Keeps.Writes.{KeepsContacts}
use sms_irc.Insp.Keeps.Remote.{KeepsUsers}
use sms_irc.Insp.Consistent.{
  IsConsistent, adjust-IsConsistent, adjust_user-IsConsistent, insert_user-IsConsistent,
  mint-IsConsistent,
}
use sms_irc.Insp.Consistent.Added.{added-IsConsistent}
use sms_irc.Insp.Consistent.Dropped.{dropped-IsConsistent, removed-IsConsistent}

module _ {Message : Type 0} (sid : String) where
  -- The link of a given server.
  abbrev pub OurMaps : InspLink Message → Type 0
  OurMaps s = IsConsistent s × (s.cfg.sid ≡ sid)

  pub quiet : KeepsQuiet OurMaps
  quiet = record {
    outbox = λ o s p. p;
    stored = λ st s p. p;
    channels = λ c s p. p;
    topics = λ t s p. p;
    contact = λ a f same s p. (adjust-IsConsistent s p.0 a f same, p.1);
  }

  pub contacts : KeepsContacts OurMaps
  contacts = record {
    quiet = quiet;
    wa = λ c s p. p;
    m = λ c s p. p;
    cb = λ c s p. p;
    user = λ uuid f s p. (adjust_user-IsConsistent s p.0 uuid f, p.1);
    minted = λ user s small p. (mint-IsConsistent s p.0 user, p.1);
    added = λ user a wa o s small new p. (added-IsConsistent s p.0 user a wa o new, p.1);
    dropped =
        λ uuid s p. (dropped-IsConsistent s p.0 uuid (lookup uuid s.contacts_uuid_pdua) refl, p.1);
    removed = λ a s p. (removed-IsConsistent s p.0 a, p.1);
  }

  pub users : KeepsUsers OurMaps
  users = record {
    contacts = contacts;
    cf = λ c s p. p;
    met = λ uuid user s p. (insert_user-IsConsistent s p.0 uuid user, p.1);
  }

  pub handle_squit-Keeps :
      (e : Env Message) (server : String)
      → ((n : ℕ) → starts_with (uuid_of sid n) server ≡ false)
      → Keeps OurMaps (handle_squit e server)
  unfolding handle_squit
  handle_squit-Keeps e server spared s (p, ours) = (
    record {
      forward = p.forward;
      backward = p.backward;
      known = λ a ct h.
          let (n, lt, is_n) = p.given ct.uuid a (p.forward a ct h) in
          let stays : starts_with ct.uuid server ≡ false = rw (is_n, ours) (spared n) in
          ground (
            arith,
            p.known a ct h,
            lookup-keep_keys (λ k. not (starts_with k server)) ct.uuid s.users,
          );
      given = p.given;
      once = p.once;
    },
    ours,
  )
