-- ===== src/Util/Names.antt =====
-- src/util.rs: what the names made for IRC consist of.
use text.Mathlib.TextLemmas.{cons-append, nil-append}
use sms_irc.Base.{
  ◌≡◌, refl, Char, String, true, ◌||◌, arith, ◌<>◌, char_eq, is_ascii_alphabetic,
  is_ascii_alphanumeric, is_small, lower_char-small, AllChars, if_intro, or_right,
}
use sms_irc.Extern.{Libs}
use sms_irc.Util.{
  is_nick_symbol, nick_char, nick_chars, drop_prefix, chan_char, chan_chars, string_to_irc_nick,
  string_to_irc_chan,
}

abbrev pub IsNickChar : Char → Type 0
IsNickChar c = (is_ascii_alphanumeric c || is_nick_symbol c) ≡ true

-- A nickname starts with a letter and goes on with letters, digits and the symbols of RFC 2812.
abbrev pub IsNick : String → Type 0
IsNick String.[] = ⊥
IsNick (String.◌∷◌ c s) = (is_ascii_alphabetic c ≡ true) × AllChars IsNickChar s

nick_char-IsNickChar : (c : Char) → IsNickChar (nick_char c)
unfolding nick_char
nick_char-IsNickChar c =
    if_intro IsNickChar (char_eq c "+") "I" _ (λ _. refl)
      λ _.
        if_intro IsNickChar (is_nick_symbol c) c _ (or_right _ _)
          λ _. if_intro IsNickChar (is_ascii_alphanumeric c) c "_" (λ h. rw h) (λ _. refl)

nick_chars-All : (s : String) → AllChars IsNickChar (nick_chars s)
unfolding nick_chars
nick_chars-All String.[] = tt
nick_chars-All (String.◌∷◌ c s) = (nick_char-IsNickChar c, nick_chars-All s)

drop_prefix-IsNick : (s : String) → AllChars IsNickChar s → IsNick (drop_prefix (String.◌∷◌ "S" s))
unfolding drop_prefix
drop_prefix-IsNick String.[] h = (refl, tt)
drop_prefix-IsNick (String.◌∷◌ c s) h = ground arith

-- Whatever text a nickname is made from, the result is not empty, starts with an ASCII letter, and
-- goes on with nothing but ASCII letters, digits and the symbols _ - \ [ ] { } ^ ` |.
pub string_to_irc_nick-IsNick : (l : Libs) (inp : String) → IsNick (string_to_irc_nick l inp)
unfolding string_to_irc_nick
string_to_irc_nick-IsNick l inp =
    drop_prefix-IsNick (nick_chars (l.unidecode inp)) (nick_chars-All (l.unidecode inp))

-- A character of a channel name: a small letter, a digit, or one of - _ #.
abbrev pub IsChanChar : Char → Type 0
IsChanChar c = (is_small c || char_eq c "_" || char_eq c "-" || char_eq c "#") ≡ true

chan_char-IsChanChar : (c : Char) → AllChars IsChanChar (chan_char c)
unfolding chan_char
chan_char-IsChanChar c =
    if_intro (AllChars IsChanChar) (char_eq c "_") "_" _ (λ _. (refl, tt))
      λ _.
        if_intro (AllChars IsChanChar) (char_eq c "-") "-" _ (λ _. (refl, tt))
          λ _.
            if_intro (AllChars IsChanChar) (char_eq c "#") "#" _ (λ _. (refl, tt))
              λ _.
                if_intro (AllChars IsChanChar) (char_eq c " ") "-" _ (λ _. (refl, tt))
                  λ _.
                    if_intro (AllChars IsChanChar) (is_ascii_alphanumeric c) _ ""
                      (λ h. (rw (lower_char-small c h), tt)) λ _. tt

AllChars-append :
    (P : Char → Type 0) (s t : String) → AllChars P s → AllChars P t → AllChars P (s <> t)
AllChars-append P String.[] t h k = rw (nil-append t) k
AllChars-append P (String.◌∷◌ c s) t h k = rw (cons-append c s t) (h.0, AllChars-append P s t h.1 k)

chan_chars-All : (s : String) → AllChars IsChanChar (chan_chars s)
unfolding chan_chars
chan_chars-All String.[] = tt
chan_chars-All (String.◌∷◌ c s) =
    AllChars-append IsChanChar (chan_char c) (chan_chars s) (chan_char-IsChanChar c)
      (chan_chars-All s)

-- Whatever the subject of a group is, the channel name made from it has nothing but small ASCII
-- letters, digits and - _ #: no space, comma or control character, which IRC would not allow.
pub string_to_irc_chan-All :
    (l : Libs) (inp : String) → AllChars IsChanChar (string_to_irc_chan l inp)
unfolding string_to_irc_chan
string_to_irc_chan-All l inp = chan_chars-All (l.unidecode inp)
