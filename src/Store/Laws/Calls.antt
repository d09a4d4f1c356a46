-- ===== src/Store/Laws/Calls.antt =====
-- src/store.rs: any history of calls that write to the database.
use sms_irc.Base.{ℕ, String, Bool, List, [], ◌∷◌, Option, ℤ}
use sms_irc.Extern.{PduAddress, Jid, Libs}
use sms_irc.Store.Tables.{Store}
use sms_irc.Store.Recipients.{
  store_recipient, store_wa_recipient, update_recipient_notify, update_recipient_nick,
  update_recipient_wa, delete_recipient_with_addr,
}
use sms_irc.Store.Messages.{store_sms_message, store_wa_message, delete_message}
use sms_irc.Store.Groups.{
  store_group, update_group, delete_group_with_id, store_wa_persistence, store_wa_msgid,
}

-- A call of one of the methods that write.
pub data Call : Type 0 where
  new_sms_recipient : PduAddress → String → Call
  new_wa_recipient : PduAddress → String → Option String → ℤ → Call
  set_notify : PduAddress → Option String → Call
  set_nick : PduAddress → String → ℤ → Call
  set_wa : PduAddress → Bool → Call
  drop_recipient : PduAddress → Call
  new_sms : ℕ → PduAddress → List ℕ → Option ℤ → Call
  new_wa_message : PduAddress → String → Option ℕ → ℕ → Call
  drop_message : ℕ → Call
  new_group : Jid → String → List ℕ → List ℕ → String → Call
  set_group : Jid → List ℕ → List ℕ → String → Call
  drop_group : ℕ → Call
  set_persistence : ℕ → Call
  new_msgid : String → Call

module _ (l : Libs) where
  -- The database after a call, whether it succeeds or not.
  unfoldable pub after : Store → Call → Store
  after st (new_sms_recipient a nick) = (store_recipient l a nick st).1
  after st (new_wa_recipient a nick notify src) = (store_wa_recipient l a nick notify src st).1
  after st (set_notify a n) = (update_recipient_notify l a n st).1
  after st (set_nick a n src) = (update_recipient_nick l a n src st).1
  after st (set_wa a wa) = (update_recipient_wa l a wa st).1
  after st (drop_recipient a) = (delete_recipient_with_addr l a st).1
  after st (new_sms now a pdu csms) = (store_sms_message l now a pdu csms st).1
  after st (new_wa_message a text group ts) = (store_wa_message l a text group ts st).1
  after st (drop_message mid) = (delete_message mid st).1
  after st (new_group j chan parts adms topic) = (store_group l j chan parts adms topic st).1
  after st (set_group j parts adms topic) = (update_group l j parts adms topic st).1
  after st (drop_group i) = (delete_group_with_id i st).1
  after st (set_persistence p) = (store_wa_persistence p st).1
  after st (new_msgid id) = (store_wa_msgid id st).1

  unfoldable pub run : Store → List Call → Store
  run st [] = st
  run st (c ∷ cs) = run (after st c) cs
