-- ===== src/Admin/Laws/Raw.antt =====
-- src/admin.rs: INSP RAW, and panics of the parser.
use sms_irc.Base.{
  ◌≡◌, refl, ◌↔◌, String, List, [], ◌∷◌, Option, none, Result, ok, err, panic, arith, ◌==◌,
  String_Eq, to_lowercase, eq_iff, if_intro,
}
use sms_irc.Extern.{Libs}
use sms_irc.Admin.{
  InspCommand, AdminCommand, map_insp, parse, admin_command, parse_insp, insp_command,
}

-- The words are INSP RAW, in any case, and nothing else.
abbrev pub IsBareRaw : List String → Type 0
IsBareRaw (a ∷ b ∷ []) = (to_lowercase a ≡ "insp") × (to_lowercase b ≡ "raw")
IsBareRaw _ = ⊥

insp_command-panic :
    (cmd : String) (rest : List String)
    → (insp_command cmd rest ≡ panic) ↔ ((cmd ≡ "raw") × (rest ≡ []))
unfolding insp_command
insp_command-panic cmd [] = ground (arith, eq_iff cmd "raw")
insp_command-panic cmd (x ∷ xs) = ground arith

parse_insp-panic :
    (rest : List String)
    → (parse_insp rest ≡ panic)
    → (b : String) × (rest ≡ b ∷ []) × (to_lowercase b ≡ "raw")
unfolding parse_insp
parse_insp-panic [] h = cc
parse_insp-panic (b ∷ []) h = (b, refl, ((insp_command-panic (to_lowercase b) []).0 h).0)
parse_insp-panic (b ∷ c ∷ rest) h = cc (((insp_command-panic (to_lowercase b) (c ∷ rest)).0 h).1)

map_insp-panic : (r : Result (Option InspCommand)) → (map_insp r ≡ panic) ↔ (r ≡ panic)
map_insp-panic (ok c) = ground arith
map_insp-panic (err e) = ground arith
map_insp-panic panic = ground arith

module _ (l : Libs) (cmd : String) (rest : List String) where
  -- An answer that panics does so for INSP.
  abbrev PanicsForInsp : Result (Option AdminCommand) → Type 0
  PanicsForInsp r = r ≡ panic → (cmd ≡ "insp") × (parse_insp rest ≡ panic)

  admin_command-PanicsForInsp : PanicsForInsp (admin_command l cmd rest)
  unfolding admin_command
  admin_command-PanicsForInsp =
      if_intro PanicsForInsp (cmd == "contact") (ok _) _ (λ _ h. cc)
        λ _.
          if_intro PanicsForInsp (cmd == "whatsapp") (ok _) _ (λ _ h. cc)
            λ _.
              if_intro PanicsForInsp (cmd == "group") (ok _) _ (λ _ h. cc)
                λ _.
                  if_intro PanicsForInsp (cmd == "modem") (ok _) _ (λ _ h. cc)
                    λ _.
                      if_intro PanicsForInsp (cmd == "insp") (map_insp (parse_insp rest)) _
                        (λ t h. ((eq_iff cmd "insp").0 t, (map_insp-panic (parse_insp rest)).0 h))
                        λ _.
                          if_intro PanicsForInsp (cmd == "ghost") (ok _) _ (λ _ h. cc)
                            λ _.
                              if_intro PanicsForInsp (cmd == "help") (ok _) (ok none) (λ _ h. cc)
                                (λ _ h. cc)

-- The parser of an administrator's command panics on INSP RAW with no further word, and on nothing
-- else.
pub parse-panic_iff : (l : Libs) (words : List String) → (parse l words ≡ panic) ↔ IsBareRaw words
unfolding parse admin_command parse_insp insp_command
parse-panic_iff l [] = ground arith
parse-panic_iff l (a ∷ []) = (
  λ h. cc (parse_insp-panic [] (admin_command-PanicsForInsp l (to_lowercase a) [] h).1).1,
  λ h. absurd h,
)
parse-panic_iff l (a ∷ b ∷ []) = (
  λ h.
      let (e, p) = admin_command-PanicsForInsp l (to_lowercase a) (b ∷ []) h in
      let (c, same, lower) = parse_insp-panic (b ∷ []) p in (e, ground arith),
  λ h. rw (h.0, h.1),
)
parse-panic_iff l (a ∷ b ∷ c ∷ rest) = (
  λ h. cc (
      (parse_insp-panic (b ∷ c ∷ rest)
        (admin_command-PanicsForInsp l (to_lowercase a) (b ∷ c ∷ rest) h).1).1),
  λ h. absurd h,
)
