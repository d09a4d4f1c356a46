-- ===== src/Store/Laws/Recipients.antt =====
-- src/store.rs: what is known of a recipient after any history of calls that write to the database.
use sms_irc.Base.{
  ◌≡◌, refl, Bool, true, false, List, [], ◌∷◌, Option, none, some, Result, ok, err, panic,
  if◌then◌else◌, ◌==◌, String_Eq, M, ◌>>◌, continue, if_intro, ap, sym, ◌∙◌,
}
use sms_irc.Extern.{PduAddress, Libs}
use sms_irc.Models.{Recipient, NewRecipient, Group, nicksrc_auto}
use sms_irc.Util.{normalize_address}
use sms_irc.Store.Tables.{Store, connect, connect_by}
use sms_irc.Store.Recipients.{
  store_recipient, store_wa_recipient, update_recipient_notify, update_recipient_nick,
  update_recipient_wa, delete_recipient_with_addr, get_recipient_by_addr_opt, insert_recipient,
  delete_recipients,
}
use sms_irc.Store.Messages.{
  store_sms_message, store_wa_message, delete_message, insert_sms, insert_plain, delete_messages,
}
use sms_irc.Store.Groups.{
  store_group, update_group, delete_group_with_id, store_wa_persistence, store_wa_msgid, written,
  insert_group, delete_groups,
}
use sms_irc.Store.Laws.Calls.{Call, after, run}
use sms_irc.Store.Laws.Rows.{
  known, with_number, if_absent, changed, has_number, with_number-insert, with_number-refused,
  with_number-update, with_number-delete, with_number-missing,
}

abbrev answer : Result (Option Recipient) → Result (Option NewRecipient)
answer (ok found) = ok (known found)
answer (err e) = err e
answer panic = panic

ok_inj : {m n : Option NewRecipient} → ok m ≡ ok n → m ≡ n
ok_inj h = cc

module _ (l : Libs) (a : PduAddress) where
  -- What get_recipient_by_addr_opt answers of an address when it is not refused, but for the row's id.
  abbrev pub recipient_of : Store → Result (Option NewRecipient)
  recipient_of st = answer (get_recipient_by_addr_opt l a (record st { faults = [] })).0

  abbrev if_same : PduAddress → Option NewRecipient → Option NewRecipient → Option NewRecipient
  if_same b k' k = if normalize_address l b == normalize_address l a then k' else k

  -- What a call that is not refused makes of what is known of the recipient.
  abbrev pub tells : Call → Option NewRecipient → Option NewRecipient
  tells (Call.new_sms_recipient b name) k =
      if_same b
        (if_absent
          (record {
            phone_number = normalize_address l b;
            nick = name;
            whatsapp = false;
            avatar_url = none;
            notify = none;
            nicksrc = nicksrc_auto;
          })
          k)
        k
  tells (Call.new_wa_recipient b name n src) k =
      if_same b
        (if_absent
          (record {
            phone_number = normalize_address l b;
            nick = name;
            whatsapp = true;
            avatar_url = none;
            notify = n;
            nicksrc = src;
          })
          k)
        k
  tells (Call.set_notify b n) k = if_same b (changed (λ r. record r { notify = n }) k) k
  tells (Call.set_nick b name src) k =
      if_same b (changed (λ r. record r { nick = name; nicksrc = src }) k) k
  tells (Call.set_wa b wa) k = if_same b (changed (λ r. record r { whatsapp = wa }) k) k
  tells (Call.drop_recipient b) k = if_same b none k
  tells _ k = k

  -- The history without the database: a call whose one statement is refused tells nothing.
  abbrev pub replay : List Bool → List Call → Option NewRecipient → Option NewRecipient
  replay faults [] k = k
  replay [] (c ∷ cs) k = replay [] cs (tells c k)
  replay (true ∷ faults) (c ∷ cs) k = replay faults cs k
  replay (false ∷ faults) (c ∷ cs) k = replay faults cs (tells c k)

  abbrev pub seen : Store → Option NewRecipient
  seen st = with_number (normalize_address l a) st.recipients

  -- What a call does to the schedule and to what is known, where `k` was known.
  abbrev Steps : List Bool → Call → Option NewRecipient → Store → Type 0
  Steps [] c k st = (st.faults ≡ []) × (seen st ≡ tells c k)
  Steps (true ∷ faults) c k st = (st.faults ≡ faults) × (seen st ≡ k)
  Steps (false ∷ faults) c k st = (st.faults ≡ faults) × (seen st ≡ tells c k)

  -- The statement alone, after connect.
  abbrev Tells : {A : Type 0} → Call → Store → Result A × Store → Type 0
  Tells c s r = (r.1.faults ≡ s.faults) × (seen r.1 ≡ tells c (seen s))

  connect-Steps :
      {A : Type 0} (c : Call) (m : M Store A) (st : Store)
      → ((s : Store) → Tells c s (m s))
      → Steps st.faults c (seen st) ((connect >> m) st).1
  unfolding connect
  connect-Steps c m st h = by_faults st.faults refl
    where
      by_faults :
          (faults : List Bool)
          → st.faults ≡ faults
          → Steps faults c (seen st) (continue (λ _. m) (connect_by faults st)).1
      by_faults [] e = ((h st).0 ∙ e, (h st).1)
      by_faults (true ∷ rest) e = (refl, refl)
      by_faults (false ∷ rest) e = h (record st { faults = rest })

  insert-Tells :
      (c : Call) (new : NewRecipient) (s : Store)
      → tells c (seen s)
        ≡ (if new.phone_number == normalize_address l a then if_absent new (seen s) else seen s)
      → Tells c s (insert_recipient new s)
  unfolding insert_recipient
  insert-Tells c new s e =
      if_intro (Tells c s) (has_number new.phone_number s.recipients) _ _
        (λ t. (refl, with_number-refused (normalize_address l a) new s.recipients t ∙ sym e))
        (λ f. (
          refl,
          with_number-insert (normalize_address l a) s.next_recipient new s.recipients f ∙ sym e,
        ))

  delete-Tells :
      (b : PduAddress) (s : Store)
      → Tells (Call.drop_recipient b) s (delete_recipients (normalize_address l b) s)
  unfolding delete_recipients
  delete-Tells b s =
      let n = normalize_address l a in
      let num = normalize_address l b in
      if_intro (Tells (Call.drop_recipient b) s) (has_number num s.recipients) _ _
        (λ t. (refl, with_number-delete n num s.recipients))
        (λ f. (refl, with_number-missing n num s.recipients f))

  -- The statements on the other tables.
  abbrev Leaves : {A : Type 0} → Store → Result A × Store → Type 0
  Leaves s r = (r.1.faults ≡ s.faults) × (seen r.1 ≡ seen s)

  written-Leaves :
      (found : Option Group) (s s' : Store)
      → Leaves {A = Unit {0}} s (ok tt, s')
      → Leaves s (written found s')
  written-Leaves none s s' h = h
  written-Leaves (some g) s s' h = h

  after-Steps : (st : Store) (c : Call) → Steps st.faults c (seen st) (after l st c)
  unfolding after store_recipient store_wa_recipient update_recipient_notify update_recipient_nick
      update_recipient_wa delete_recipient_with_addr store_sms_message store_wa_message
      delete_message store_group update_group delete_group_with_id store_wa_persistence
      store_wa_msgid insert_sms insert_plain delete_messages insert_group delete_groups
  after-Steps st (Call.new_sms_recipient b name) =
      connect-Steps _ _ st λ s. insert-Tells (Call.new_sms_recipient b name) _ s refl
  after-Steps st (Call.new_wa_recipient b name n src) =
      connect-Steps _ _ st λ s. insert-Tells (Call.new_wa_recipient b name n src) _ s refl
  after-Steps st (Call.set_notify b n) =
      connect-Steps _ _ st
        λ s. (refl, with_number-update _ _ (λ r. refl) (λ r. refl) _ _ s.recipients)
  after-Steps st (Call.set_nick b name src) =
      connect-Steps _ _ st
        λ s. (refl, with_number-update _ _ (λ r. refl) (λ r. refl) _ _ s.recipients)
  after-Steps st (Call.set_wa b wa) =
      connect-Steps _ _ st
        λ s. (refl, with_number-update _ _ (λ r. refl) (λ r. refl) _ _ s.recipients)
  after-Steps st (Call.drop_recipient b) = connect-Steps _ _ st λ s. delete-Tells b s
  after-Steps st (Call.new_sms now b pdu csms) = connect-Steps _ _ st λ s. (refl, refl)
  after-Steps st (Call.new_wa_message b text group ts) =
      connect-Steps _ _ st λ s. if_intro (Leaves s) _ _ _ (λ t. (refl, refl)) (λ f. (refl, refl))
  after-Steps st (Call.drop_message mid) =
      connect-Steps _ _ st λ s. if_intro (Leaves s) _ _ _ (λ t. (refl, refl)) (λ f. (refl, refl))
  after-Steps st (Call.new_group j chan parts adms topic) =
      connect-Steps _ _ st λ s. if_intro (Leaves s) _ _ _ (λ t. (refl, refl)) (λ f. (refl, refl))
  after-Steps st (Call.set_group j parts adms topic) =
      connect-Steps _ _ st λ s. written-Leaves _ s _ (refl, refl)
  after-Steps st (Call.drop_group i) =
      connect-Steps _ _ st λ s. if_intro (Leaves s) _ _ _ (λ t. (refl, refl)) (λ f. (refl, refl))
  after-Steps st (Call.set_persistence p) = connect-Steps _ _ st λ s. (refl, refl)
  after-Steps st (Call.new_msgid id) = connect-Steps _ _ st λ s. (refl, refl)

  replay_step :
      (faults : List Bool) (c : Call) (cs : List Call) (k o : Option NewRecipient) (st : Store)
      → Steps faults c k st
      → o ≡ replay st.faults cs (seen st)
      → o ≡ replay faults (c ∷ cs) k
  replay_step [] c cs k o st h e = rw (h.0, h.1) at e
  replay_step (true ∷ faults) c cs k o st h e = rw (h.0, h.1) at e
  replay_step (false ∷ faults) c cs k o st h e = rw (h.0, h.1) at e

  run-replay-seen :
      (st : Store) (cs : List Call) → seen (run l st cs) ≡ replay st.faults cs (seen st)
  unfolding run
  run-replay-seen st [] = refl
  run-replay-seen st (c ∷ cs) =
      replay_step st.faults c cs (seen st) _ (after l st c) (after-Steps st c)
        (run-replay-seen (after l st c) cs)

  -- What get_recipient_by_addr_opt finds for an address after any history of writing calls is what
  -- the calls for addresses of the same normal form, in their order, make of what it found before,
  -- but for the row's id: one that stores a recipient makes one with the values that the code gives
  -- it, where there is none; one that updates the nick and its source, the name or the use of
  -- WhatsApp changes those columns of this recipient alone; and one that deletes it forgets it. All
  -- other calls, and those that the database refuses, leave it.
  pub run-recipient_of :
      (st : Store) (cs : List Call) (k : Option NewRecipient)
      → recipient_of st ≡ ok k
      → recipient_of (run l st cs) ≡ ok (replay st.faults cs k)
  unfolding get_recipient_by_addr_opt connect
  run-recipient_of st cs k h = ap ok (run-replay-seen st cs ∙ ap (replay st.faults cs) (ok_inj h))
