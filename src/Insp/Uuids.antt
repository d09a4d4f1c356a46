-- ===== src/Insp/Uuids.antt =====
-- src/insp_s2s.rs, get_uuid: the ids that the link gives its users.
use text.Mathlib.TextLemmas.{append_cancel_left, append-nil, nil-append, append_assoc}
use sms_irc.Base.{
  ℕ, zero, suc, ◌+◌, ◌-◌, ◌≤◌, ◌<◌, ◌≡◌, refl, sym, ap, ◌∙◌, String, len, ok, ◌<>◌, arith, show,
  parse_digits, parse_digits-show, parse_digits-nil, parse_digits-zero, len-show, ltb, err,
  Bool-cases, inl, inr, List, [], ◌∷◌, length, false, taken, Distinct, All, M, ◌>>=◌, pure,
  continue, eq_iff, ◌==◌, String_Eq,
}
use text.Mathlib.TextPositions.{len-append}
use sms_irc.Insp.{InspLink}
use sms_irc.Insp.Users.{zeros, pad5, uuid_of, max_user_id, get_uuid}

parse_digits-zeros :
    (k limit : ℕ) (s : String) → parse_digits limit 0 (zeros k <> s) ≡ parse_digits limit 0 s
unfolding zeros
parse_digits-zeros zero limit s = rw (nil-append s) refl
parse_digits-zeros (suc k) limit s =
    ap (parse_digits limit 0) (append_assoc "0" (zeros k) s)
    ∙ parse_digits-zero limit (zeros k <> s)
    ∙ parse_digits-zeros k limit s

parse_digits-pad5 : (n limit : ℕ) → n ≤ limit → parse_digits limit 0 (pad5 n) ≡ ok n
unfolding pad5
parse_digits-pad5 n limit h =
    parse_digits-zeros (5 - len (show n)) limit (show n)
    ∙ ap (parse_digits limit 0) (sym (append-nil (show n)))
    ∙ parse_digits-show n limit "" h
    ∙ parse_digits-nil limit n

ok_inj : {m n : ℕ} → ok m ≡ ok n → m ≡ n
ok_inj h = cc

-- Two ids of one server are the same only if their numbers are.
pub uuid_of_inj : (sid : String) (m n : ℕ) → uuid_of sid m ≡ uuid_of sid n → m ≡ n
unfolding uuid_of
uuid_of_inj sid m n h =
    let padded : pad5 m ≡ pad5 n =
      append_cancel_left "Z" (pad5 m) (pad5 n)
        (append_cancel_left sid ("Z" <> pad5 m) ("Z" <> pad5 n) h) in
    ok_inj (
      sym (parse_digits-pad5 m (m + n) (omega arith))
      ∙ ap (parse_digits (m + n) 0) padded
      ∙ parse_digits-pad5 n (m + n) (omega arith))

len-zeros : (k : ℕ) → len (zeros k) ≡ k
unfolding zeros
len-zeros zero = refl
len-zeros (suc k) = omega (arith, len-append "0" (zeros k), len-zeros k)

len-pad5 : (n : ℕ) → n ≤ max_user_id → len (pad5 n) ≡ 5
unfolding pad5
len-pad5 n h = omega (
  arith,
  len-append (zeros (5 - len (show n))) (show n),
  len-zeros (5 - len (show n)),
  len-show n (omega arith),
)

len-uuid_of : (sid : String) (n : ℕ) → n ≤ max_user_id → len (uuid_of sid n) ≡ len sid + 6
unfolding uuid_of
len-uuid_of sid n h =
    omega (arith, len-append sid ("Z" <> pad5 n), len-append "Z" (pad5 n), len-pad5 n h)

-- The ids whose numbers are the `n` from `k` on.
abbrev ids_from : String → ℕ → ℕ → List String
ids_from sid k zero = []
ids_from sid k (suc n) = uuid_of sid k ∷ ids_from sid (k + 1) n

length-ids_from : (sid : String) (k n : ℕ) → length (ids_from sid k n) ≡ n
length-ids_from sid k zero = refl
length-ids_from sid k (suc n) = omega (arith, length-ids_from sid (k + 1) n)

ids_from-fresh :
    (sid : String) (j k n : ℕ)
    → j < k
    → taken (λ (u : String). u) (uuid_of sid j) (ids_from sid k n) ≡ false
ids_from-fresh sid j k zero h = refl
ids_from-fresh sid j k (suc n) h =
    let rest = ids_from-fresh sid j (k + 1) n (omega (arith, h)) in
    elim (Bool-cases (uuid_of sid k == uuid_of sid j)) [
      | inl t ↦
          absurd
            (omega (arith, h, uuid_of_inj sid k j ((eq_iff (uuid_of sid k) (uuid_of sid j)).0 t)))
      | inr f ↦ ground (arith, f, rest)
    ]

ids_from-Distinct : (sid : String) (k n : ℕ) → Distinct (λ (u : String). u) (ids_from sid k n)
ids_from-Distinct sid k zero = tt
ids_from-Distinct sid k (suc n) =
    (ids_from-fresh sid k (k + 1) n (omega arith), ids_from-Distinct sid (k + 1) n)

ids_from-width :
    (sid : String) (k n : ℕ)
    → k + n ≤ suc max_user_id
    → All (λ u. len u ≡ len sid + 6) (ids_from sid k n)
ids_from-width sid k zero h = tt
ids_from-width sid k (suc n) h =
    (len-uuid_of sid k (omega (arith, h)), ids_from-width sid (k + 1) n (omega (arith, h)))

module _ {Message : Type 0} where
  -- Asking for `n` ids, one after the other.
  abbrev pub ask : ℕ → M (InspLink Message) (List String)
  ask zero s = (ok [], s)
  ask (suc n) s = (get_uuid >>= λ u. ask n >>= λ us. pure (u ∷ us)) s

  get_uuid-next :
      (s : InspLink Message)
      → s.next_user_id ≤ max_user_id
      → get_uuid s
        ≡ (ok (uuid_of s.cfg.sid s.next_user_id), record s { next_user_id = s.next_user_id + 1 })
  unfolding get_uuid
  get_uuid-next s h =
      let given : ltb max_user_id s.next_user_id ≡ false = ground (arith, h) in rw given refl

  ask-ids_from :
      (n m : ℕ) (s : InspLink Message)
      → s.next_user_id + n ≡ m
      → m ≤ suc max_user_id
      → ask n s ≡ (ok (ids_from s.cfg.sid s.next_user_id n), record s { next_user_id = m })
  ask-ids_from zero m s e h =
      let all : s.next_user_id ≡ m = omega (arith, e) in
      ap (λ k. (ok [], record s { next_user_id = k })) all
  ask-ids_from (suc n) m s e h =
      ap (continue (λ u. ask n >>= λ us. pure (u ∷ us))) (get_uuid-next s (omega (arith, e, h)))
      ∙ ap (continue (λ us. pure (uuid_of s.cfg.sid s.next_user_id ∷ us)))
          (ask-ids_from n m (record s { next_user_id = s.next_user_id + 1 }) (omega (arith, e)) h)

  -- A link whose next number is 100000 less n (one that has given no id yet: 99999 of them) gives
  -- exactly n ids, if it is asked for so many: no two are the same, and each is six bytes longer
  -- than the id of the server. From then on asking for one is an error that changes nothing.
  pub ask-Distinct :
      (n : ℕ) (s : InspLink Message)
      → s.next_user_id + n ≡ 100000
      → let t = record s { next_user_id = 100000 } in
        (ids : List String) × (ask n s ≡ (ok ids, t))
        × (length ids ≡ n)
        × Distinct (λ (u : String). u) ids
        × All (λ u. len u ≡ len s.cfg.sid + 6) ids
        × (get_uuid t ≡ (err "UUIDs exhausted", t))
  unfolding get_uuid
  ask-Distinct n s h = (
    ids_from s.cfg.sid s.next_user_id n,
    ask-ids_from n 100000 s h (omega arith),
    length-ids_from s.cfg.sid s.next_user_id n,
    ids_from-Distinct s.cfg.sid s.next_user_id n,
    ids_from-width s.cfg.sid s.next_user_id n (omega (arith, h)),
    refl,
  )
