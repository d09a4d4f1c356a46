-- ===== src/Modem/Incoming.antt =====
-- src/modem.rs: the messages that the modem lists, on their way to the database.
use sms_irc.Base.{
  ℕ, ◌≡◌, refl, ◌∙◌, ap, String, Bool, true, false, List, [], ◌∷◌, ◌++◌, Option, none, some, Result,
  ok, err, panic, M, continue, ◌>>◌, done, map, if◌then◌else◌, sym, ℤ, is_panic, arith,
}
use mathlib.Core.List.{append-nil, append_assoc}
use sms_irc.Extern.{Libs, SmsMessage, DecodedMessage, DeliverPdu}
use sms_irc.Util.{normalize_address}
use sms_irc.Models.{Message}
use sms_irc.Store.{Store, connect, connect_by, insert_sms, store_sms_message}
use sms_irc.Comm.{ContactFactoryCommand}
use sms_irc.Modem.{
  ModemManager, Job, csms_data, reference_of, store_unread, store_all, cmgl_complete, get_modem,
  if_running, spawn,
}

-- What the database keeps of an SMS message, and what it should keep of one that the modem lists.
abbrev pub Content : Type 0
Content = String × Option (List ℕ) × Option ℤ

abbrev pub content : Message → Content
content m = (m.phone_number, m.pdu, m.csms_data)

-- The reference that the message has, if it can be decoded and is a part of a longer one.
abbrev pub known_reference : Result DecodedMessage → Option ℤ
known_reference (ok m) = reference_of m.concatenated
known_reference _ = none

abbrev pub expected : Libs → SmsMessage → Content
expected l msg = (
  normalize_address l msg.pdu.originating_address,
  some msg.raw_pdu,
  known_reference (l.decode_message msg.pdu),
)

abbrev pub contents : Store → List Content
contents st = map content st.messages

-- A success has added the contents `cs`; there is no panic.
abbrev pub Adds : {A : Type 0} → List Content → Store → Result A × Store → Type 0
Adds cs st (ok a, st') = contents st' ≡ contents st ++ cs
Adds cs st (err e, st') = Unit
Adds cs st (panic, st') = ⊥

map-concat :
    (ms : List Message) (m : Message)
    → map content (ms ++ m ∷ []) ≡ map content ms ++ content m ∷ []
map-concat [] m = refl
map-concat (x ∷ ms) m = ap (λ cs. content x ∷ cs) (map-concat ms m)

-- The contents of the unread ones among the messages.
abbrev pub expected_all : Libs → List SmsMessage → List Content
expected_all l [] = []
expected_all l (msg ∷ msgs) =
    if msg.unread then expected l msg ∷ expected_all l msgs else expected_all l msgs

abbrev deletion : {Device : Type 0} → Option Device → List Job
deletion none = []
deletion (some modem) = Job.del_sms_pdu ∷ []

-- What a completed listing does, by its result, when the modem is `d`.
abbrev pub Completes :
    {Device : Type 0}
    → Libs
    → List SmsMessage
    → Option Device
    → ModemManager Device
    → Result (Unit {0}) × ModemManager Device
    → Type 0
Completes l msgs d s (ok u, s') =
    (contents s'.store ≡ contents s.store ++ expected_all l msgs)
    × (s'.cf ≡ s.cf ++ ContactFactoryCommand.process_messages ∷ [])
    × (s'.jobs ≡ s.jobs ++ deletion d)
Completes l msgs d s (err e, s') = (s'.cf ≡ s.cf) × (s'.jobs ≡ s.jobs)
Completes l msgs d s (panic, s') = ⊥

-- The decoder of the crate gives a message or an error for each PDU.
abbrev pub Decodes : Libs → Type 0
Decodes l = (pdu : DeliverPdu) → is_panic (l.decode_message pdu) ≡ false

module _ (l : Libs) (clock : ℕ → ℕ) (decodes : Decodes l) where
  abbrev stored_content : SmsMessage → Option ℤ → Content
  stored_content msg csms =
      (normalize_address l msg.pdu.originating_address, some msg.raw_pdu, csms)

  store_sms-Adds :
      (msg : SmsMessage) (csms : Option ℤ) (st : Store)
      → Adds (stored_content msg csms ∷ []) st (
          store_sms_message l
            (clock st.next_message)
            msg.pdu.originating_address
            msg.raw_pdu
            csms
            st)
  unfolding store_sms_message connect insert_sms
  store_sms-Adds msg csms st = answered st.faults
    where
      answered :
          (fs : List Bool)
          → Adds (stored_content msg csms ∷ []) st (
              continue
                (λ _. insert_sms (clock st.next_message) (record {
                  phone_number = normalize_address l msg.pdu.originating_address;
                  pdu = msg.raw_pdu;
                  csms_data = csms;
                  source = sms_irc.Models.source_sms;
                }))
                (connect_by fs st))
      answered [] = map-concat st.messages _
      answered (true ∷ rest) = tt
      answered (false ∷ rest) = map-concat st.messages _

  store_unread-Adds :
      (msg : SmsMessage) (st : Store) → Adds (expected l msg ∷ []) st (store_unread l clock msg st)
  store_unread-Adds msg st = decoded (l.decode_message msg.pdu) (decodes msg.pdu)
    where
      decoded :
          (r : Result DecodedMessage)
          → is_panic r ≡ false
          → Adds (stored_content msg (known_reference r) ∷ []) st (
              continue
                (λ csms s.
                  store_sms_message l
                    (clock s.next_message)
                    msg.pdu.originating_address
                    msg.raw_pdu
                    csms
                    s)
                (csms_data r, st))
      decoded (ok m) h = store_sms-Adds msg (reference_of m.concatenated) st
      decoded (err e) h = store_sms-Adds msg none st
      decoded panic h = ground (arith, h)

  continue-Adds :
      {A B : Type 0} (cs ds : List Content) (st : Store) (r : Result A × Store) (m : M Store B)
      → Adds cs st r
      → ((s : Store) → Adds ds s (m s))
      → Adds (cs ++ ds) st (continue (λ _. m) r)
  continue-Adds cs ds st (ok a, s) m h k = next (m s) (k s)
    where
      next : {B : Type 0} (x : Result B × Store) → Adds ds s x → Adds (cs ++ ds) st x
      next (ok b, s') e = e ∙ ap (λ xs. xs ++ ds) h ∙ append_assoc (contents st) cs ds
      next (err e, s') u = tt
      next (panic, s') b = b
  continue-Adds cs ds st (err e, s) m h k = tt
  continue-Adds cs ds st (panic, s) m h k = h

  done-Adds :
      (cs : List Content) (st : Store) {A : Type 0} (r : Result A × Store)
      → Adds cs st r
      → Adds cs st (continue (λ _. done) r)
  done-Adds cs st (ok a, s) h = h
  done-Adds cs st (err e, s) h = tt
  done-Adds cs st (panic, s) h = h

  store_one-Adds :
      (msg : SmsMessage) (rest : List Content) (m : M Store (Unit {0}))
      → ((s : Store) → Adds rest s (m s))
      → (b : Bool) (st : Store)
      → Adds
          (if b then expected l msg ∷ rest else rest)
          st
          (((if b then (store_unread l clock msg >> done) else done) >> m) st)
  store_one-Adds msg rest m k true st =
      continue-Adds (expected l msg ∷ []) rest st
        (continue (λ _. done) (store_unread l clock msg st)) m
        (done-Adds (expected l msg ∷ []) st (store_unread l clock msg st)
          (store_unread-Adds msg st))
        k
  store_one-Adds msg rest m k false st = k st

  store_all-Adds :
      (msgs : List SmsMessage) (st : Store)
      → Adds (expected_all l msgs) st (store_all l clock msgs st)
  unfolding store_all
  store_all-Adds [] st = sym (append-nil (contents st))
  store_all-Adds (msg ∷ msgs) st =
      store_one-Adds msg (expected_all l msgs) (store_all l clock msgs) (store_all-Adds msgs)
        msg.unread st

  module _ {Device : Type 0} where
    told : Store → ModemManager Device → ModemManager Device
    told st s = record s { store = st; cf = s.cf ++ ContactFactoryCommand.process_messages ∷ [] }

    told-Completes :
        (msgs : List SmsMessage) (s : ModemManager Device) (st : Store) (d : Option Device)
        → contents st ≡ contents s.store ++ expected_all l msgs
        → Completes l msgs d s (if_running d (spawn Job.del_sms_pdu) done (told st s))
    unfolding told
    told-Completes msgs s st none h = (h, refl, sym (append-nil s.jobs))
    told-Completes msgs s st (some modem) h = (h, refl, refl)

    stored-Completes :
        (msgs : List SmsMessage) (s : ModemManager Device) (r : Result (Unit {0})) (st : Store)
        → Adds (expected_all l msgs) s.store (r, st)
        → Completes l msgs (get_modem s.inner) s (
            continue
              (λ _ s'.
                if_running (get_modem s'.inner) (spawn Job.del_sms_pdu) done (told s'.store s'))
              (r, record s { store = st }))
    unfolding told
    stored-Completes msgs s (ok u) st h = told-Completes msgs s st (get_modem s.inner) h
    stored-Completes msgs s (err e) st h = (refl, refl)
    stored-Completes msgs s panic st h = h

    -- Completing a listing does not panic, if the decoder does not. When it succeeds, the database
    -- has gained exactly the unread messages of the listing, in order and with their contents, the
    -- contact factory has been told, and the deletion from the modem is started, if the modem is
    -- running; when a statement is refused, nothing is deleted and nobody is told.
    pub cmgl_complete-Completes :
        (msgs : List SmsMessage) (s : ModemManager Device)
        → Completes l msgs (get_modem s.inner) s (cmgl_complete l clock msgs s)
    unfolding cmgl_complete told
    cmgl_complete-Completes msgs s =
        let stored = store_all l clock msgs s.store in
        stored-Completes msgs s stored.0 stored.1 (store_all-Adds msgs s.store)
