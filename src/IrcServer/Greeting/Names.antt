-- ===== src/IrcServer/Greeting/Names.antt =====
-- src/irc_s2c.rs, chunks(5): which recipients stand in the lines of names.
use mathlib.Core.List.{append_assoc, append-nil}
use sms_irc.Base.{
  ◌≡◌, refl, sym, ap, ◌∙◌, ℕ, zero, suc, ◌+◌, ◌≤◌, List, [], ◌∷◌, ◌++◌, arith, length,
  length-append, All, Option, some, String, ok, for_each, map, continue, M,
}
use sms_irc.Models.{Recipient}
use sms_irc.Registration.{server_name}
use sms_irc.IrcServer.{IrcConnection, Env, push, reply_s2c}
use sms_irc.IrcServer.Greeting.{chunks_from, chunks, concat, name_lines}

module _ {ℓ} {A : Type ℓ} where
  abbrev pub flatten : List (List A) → List A
  flatten [] = []
  flatten (c ∷ cs) = c ++ flatten cs

  abbrev pub IsChunk : List A → Type 0
  IsChunk c = (1 ≤ length c) × (length c ≤ 5)

  flatten-chunks_from : (room : ℕ) (cur xs : List A) → flatten (chunks_from room cur xs) ≡ cur ++ xs
  unfolding chunks_from
  flatten-chunks_from room [] [] = refl
  flatten-chunks_from room (c ∷ cur) [] = refl
  flatten-chunks_from zero cur (x ∷ xs) = ap (λ ys. cur ++ ys) (flatten-chunks_from 4 (x ∷ []) xs)
  flatten-chunks_from (suc room) cur (x ∷ xs) =
      flatten-chunks_from room (cur ++ x ∷ []) xs ∙ append_assoc cur (x ∷ []) xs

  chunks_from-IsChunk :
      (room : ℕ) (cur xs : List A) → length cur + room ≡ 5 → All IsChunk (chunks_from room cur xs)
  unfolding chunks_from
  chunks_from-IsChunk room [] [] h = tt
  chunks_from-IsChunk room (c ∷ cur) [] h = ((omega arith, omega (arith, h)), tt)
  chunks_from-IsChunk zero cur (x ∷ xs) h =
      ((omega (arith, h), omega (arith, h)), chunks_from-IsChunk 4 (x ∷ []) xs refl)
  chunks_from-IsChunk (suc room) cur (x ∷ xs) h =
      chunks_from-IsChunk room (cur ++ x ∷ []) xs (omega (arith, h, length-append cur (x ∷ [])))

  flatten-chunks : (xs : List A) → (flatten (chunks xs) ≡ xs) × All IsChunk (chunks xs)
  unfolding chunks
  flatten-chunks xs = (flatten-chunks_from 5 [] xs, chunks_from-IsChunk 5 [] xs refl)

-- The messages that `mk` makes, where making them does not fail.
abbrev pub Makes :
    {Message : Type 0}
    → (Option String → String → List String → Option String → Message)
    → Env Message
    → Type 0
Makes mk e =
    (prefix : Option String) (cmd : String) (args : List String) (suffix : Option String)
    → e.new_message prefix cmd args suffix ≡ ok (mk prefix cmd args suffix)

module _ {Message : Type 0} (mk : Option String → String → List String → Option String → Message)
    (chan : String) (nick : Recipient → String) where
  abbrev pub line_of : String → List Recipient → Message
  line_of own recips =
      mk (some server_name) "353" (own ∷ "@" ∷ chan ∷ []) (some (concat (map nick recips)))

module _ {Message : Type 0} (e : Env Message)
    (mk : Option String → String → List String → Option String → Message) (makes : Makes mk e)
    (chan : String) (nick : Recipient → String) where
  abbrev reply_names : List Recipient → M (IrcConnection Message) (Unit {0})
  reply_names recips = reply_s2c e "353" ("@" ∷ chan ∷ []) (some (concat (map nick recips)))

  reply_names-line_of :
      (recips : List Recipient) (c : IrcConnection Message)
      → reply_names recips c
        ≡ (ok tt, record c { outbox = c.outbox ++ line_of mk chan nick c.reginfo.nick recips ∷ [] })
  unfolding reply_s2c push
  reply_names-line_of recips c = ap (λ r. push r c) (makes _ _ _ _)

  reply_each :
      (cs : List (List Recipient)) (c : IrcConnection Message)
      → for_each cs reply_names c
        ≡ (ok tt, record c { outbox = c.outbox ++ map (line_of mk chan nick c.reginfo.nick) cs })
  reply_each [] c = ap (λ out. (ok tt, record c { outbox = out })) (sym (append-nil c.outbox))
  reply_each (recips ∷ cs) c =
      let line = line_of mk chan nick c.reginfo.nick recips in
      ap (continue (λ _. for_each cs reply_names)) (reply_names-line_of recips c)
      ∙ reply_each cs (record c { outbox = c.outbox ++ line ∷ [] })
      ∙ ap (λ out. (ok tt, record c { outbox = out }))
          (append_assoc c.outbox (line ∷ []) (map (line_of mk chan nick c.reginfo.nick) cs))

  -- Where messages can be made, a list of recipients is told in lines of at least one and at most five
  -- of them, which have all of them, in their order and each once, and nothing else happens.
  pub name_lines-flatten :
      (recips : List Recipient) (c : IrcConnection Message)
      → (name_lines e chan nick recips c ≡ (
        ok tt,
        record c { outbox = c.outbox ++ map (line_of mk chan nick c.reginfo.nick) (chunks recips) },
      ))
        × (flatten (chunks recips) ≡ recips)
        × All IsChunk (chunks recips)
  unfolding name_lines
  name_lines-flatten recips c =
      let split = flatten-chunks recips in (reply_each (chunks recips) c, split.0, split.1)
