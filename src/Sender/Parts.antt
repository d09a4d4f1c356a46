-- ===== src/Sender/Parts.antt =====
-- src/sender_common.rs, process_msg_pdu: the order of the parts of a concatenated message.
use Prim.Native.Nat.{ℕ}
use Prim.Native.String.{String}
use mathlib.Core.Path.{◌≡◌, refl, ◌∙◌, ap}
use mathlib.Core.Logic.{◌≢◌, ∥∥₁_elim}
use mathlib.Core.List.{List, [], ◌∷◌, map, Nodup, Perm, Permᴰ, Pairwise, mem-cons_self}
use mathlib.Core.List.Perm
use native.Mathlib.Omega.{arith}
use sms_irc.Base.{String-set}
use sms_irc.Sender.{insert_part, sort_parts, concat_texts}

insert_part_comm :
    (p q : ℕ × String) (xs : List (ℕ × String))
    → p.0 ≢ q.0
    → insert_part p (insert_part q xs) ≡ insert_part q (insert_part p xs)
unfolding insert_part
insert_part_comm p q [] h = ground arith
insert_part_comm p q (x ∷ xs) h = ground (arith, insert_part_comm p q xs h)

abbrev pub sequences : List (ℕ × String) → List ℕ
sequences ps = map (λ p. p.0) ps

Nodup-tail : {n : ℕ} {ns : List ℕ} → Nodup (n ∷ ns) → Nodup ns
Nodup-tail (Pairwise.cons h d) = d

Nodup-head : {m n : ℕ} {ns : List ℕ} → Nodup (m ∷ n ∷ ns) → m ≢ n
Nodup-head {n} (Pairwise.cons h d) = h n mem-cons_self

sort_parts-Permᴰ :
    {ps qs : List (ℕ × String)} → Permᴰ ps qs → Nodup (sequences ps) → sort_parts ps ≡ sort_parts qs
unfolding sort_parts
sort_parts-Permᴰ Permᴰ.nil d = refl
sort_parts-Permᴰ (Permᴰ.cons e p) d = λ i. insert_part (e i) (sort_parts-Permᴰ p (Nodup-tail d) i)
sort_parts-Permᴰ (Permᴰ.swap {a} {b} {l = l} e f) d =
    insert_part_comm a b (sort_parts l) (Nodup-head d) ∙ λ i.
    insert_part (f i) (insert_part (e i) (sort_parts l))
sort_parts-Permᴰ (Permᴰ.trans p q) d =
    sort_parts-Permᴰ p d ∙ sort_parts-Permᴰ q (Perm.nodup (Perm.map (λ r. r.0) ∣ p ∣₁) d)

-- When no two parts carry the same sequence number, any two orders of the same rows give the same
-- text.
pub concat_texts-Perm :
    (ps qs : List (ℕ × String))
    → Perm ps qs
    → Nodup (sequences ps)
    → concat_texts (sort_parts ps) ≡ concat_texts (sort_parts qs)
concat_texts-Perm ps qs p d =
    ∥∥₁_elim {P = concat_texts (sort_parts ps) ≡ concat_texts (sort_parts qs)} p
      (String-set (concat_texts (sort_parts ps)) (concat_texts (sort_parts qs)))
      (λ q. ap concat_texts (sort_parts-Permᴰ q d))
