-- ===== src/Wireguard/Key.antt =====
-- pkg/network/wireguard/key.go: keys as texts. A key is represented by its base64 text.
use macvz.Prelude.{
  ltb, leb, nat_beq, if◌then◌else◌, is_none, keep, Text, codes_key, text_key, number_key, ℕ, zero,
  suc, ◌+◌, ◌-◌, ◌*◌, ◌/◌, not, ◌&&◌, ◌||◌, Option, none, some, [], ◌∷◌,
}
use macvz.Prelude.Strings.{trim_space, is_digit}

-- The value of a character of the standard alphabet.
abbrev pub base64_value : ℕ → Option ℕ
base64_value c =
    if leb b'A' c && leb c b'Z'
    then some (c - b'A')
    else if leb b'a' c && leb c b'z'
    then some (c - b'a' + 26)
    else if is_digit c
    then some (c - b'0' + 52)
    else if nat_beq c b'+'
    then some 62
    else if nat_beq c b'/'
    then some 63
    else none

abbrev pub base64_char : ℕ → ℕ
base64_char v =
    if ltb v 26
    then b'A' + v
    else if ltb v 52
    then b'a' + (v - 26)
    else if ltb v 62
    then b'0' + (v - 52)
    else if nat_beq v 62
    then b'+'
    else b'/'

-- The last characters of the text of 32 bytes: the bits beyond the last byte are dropped.
abbrev pub key_end : Text → Option Text
key_end (c ∷ d ∷ []) =
    if nat_beq d b'='
    then elim (base64_value c) [ none ↦ none | some v ↦ some (base64_char (v / 4 * 4) ∷ b'=' ∷ []) ]
    else none
key_end _ = none

-- A text of so many characters of the alphabet, and the last two.
unfoldable pub decode_key : ℕ → Text → Option Text
decode_key zero s = key_end s
decode_key (suc n) [] = none
decode_key (suc n) (c ∷ s) =
    let rest = decode_key n s in
    if is_none (base64_value c) then none else elim rest [ none ↦ none | some t ↦ some (c ∷ t) ]

-- ParseKey: the key's canonical text. A decoder skips line breaks.
unfoldable pub parse_key : Text → Option Text
unfolding decode_key
parse_key s = decode_key 42 (keep (λ c. not (nat_beq c 10 || nat_beq c 13)) (trim_space s))
