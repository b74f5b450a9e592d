-- ===== src/Prelude/Strings.antt =====
-- What the program uses of Go's package strings, on texts as lists of codes, and strconv.Atoi.
use macvz.Prelude.Tests.{ltb, leb, nat_beq, if◌then◌else◌}
use macvz.Prelude.Lists.{is_empty}
use macvz.Prelude.Codes.{Text, has_prefix}
use Prim.Native.Nat.{ℕ, ◌+◌, ◌-◌, ◌*◌, ◌/◌, ◌%◌, ◌^◌, suc, zero}
use mathlib.Core.Bool.{Bool, false, not, ◌&&◌, ◌||◌}
use mathlib.Core.Option.{Option, none, some}
use mathlib.Core.List.{List, [], ◌∷◌, ◌++◌}

-- unicode.IsSpace
unfoldable pub is_space : ℕ → Bool
is_space c =
    (leb 9 c && leb c 13)
    || nat_beq c 32
    || nat_beq c 0x85
    || nat_beq c 0xa0
    || nat_beq c 0x1680
    || (leb 0x2000 c && leb c 0x200a)
    || nat_beq c 0x2028
    || nat_beq c 0x2029
    || nat_beq c 0x202f
    || nat_beq c 0x205f
    || nat_beq c 0x3000

-- A code in front of the first text of a list.
abbrev pub cons_head : ℕ → List Text → List Text
cons_head c [] = (c ∷ []) ∷ []
cons_head c (w ∷ ws) = (c ∷ w) ∷ ws

-- strings.Split(s, sep), of a separator of one code
unfoldable pub split : ℕ → Text → List Text
split sep [] = [] ∷ []
split sep (c ∷ s) = let rest = split sep s in if nat_beq c sep then [] ∷ rest else cons_head c rest

unfoldable pub trim_left : Text → Text
trim_left [] = []
trim_left (c ∷ s) = let rest = trim_left s in if is_space c then rest else c ∷ s

unfoldable pub trim_right : Text → Text
trim_right [] = []
trim_right (c ∷ s) = let rest = trim_right s in if is_space c && is_empty rest then [] else c ∷ rest

-- strings.TrimSpace
abbrev pub trim_space : Text → Text
trim_space s = trim_right (trim_left s)

-- Whether a text starts inside a word.
unfoldable pub starts_word : Text → Bool
starts_word [] = false
starts_word (c ∷ s) = not (is_space c)

-- strings.Fields
unfoldable pub fields : Text → List Text
fields [] = []
fields (c ∷ s) =
    let rest = fields s in
    if is_space c then rest else if starts_word s then cons_head c rest else (c ∷ []) ∷ rest

-- strings.Cut(s, sep), of a separator of one code
unfoldable pub cut : ℕ → Text → Option (Text × Text)
cut sep [] = none
cut sep (c ∷ s) =
    let rest = cut sep s in
    if nat_beq c sep
    then some ([], s)
    else elim rest [ none ↦ none | some (a, b) ↦ some (c ∷ a, b) ]

-- strings.TrimPrefix
unfoldable pub trim_prefix : Text → Text → Text
trim_prefix s [] = s
trim_prefix [] (d ∷ p) = []
trim_prefix (c ∷ s) (d ∷ p) =
    let rest = trim_prefix s p in if has_prefix (c ∷ s) (d ∷ p) then rest else c ∷ s

-- strings.TrimSuffix(s, suffix), of a suffix of one code
unfoldable pub trim_suffix : Text → ℕ → Text
trim_suffix [] d = []
trim_suffix (c ∷ s) d =
    let rest = trim_suffix s d in if is_empty s && nat_beq c d then [] else c ∷ rest

-- strings.Join
unfoldable pub join : Text → List Text → Text
join sep [] = []
join sep (w ∷ []) = w
join sep (w ∷ v ∷ ws) = w ++ (sep ++ join sep (v ∷ ws))

abbrev pub is_digit : ℕ → Bool
is_digit c = leb b'0' c && leb c b'9'

-- The value of a text of decimal digits, read from the left.
unfoldable pub digits_value : ℕ → Text → Option ℕ
digits_value acc [] = some acc
digits_value acc (c ∷ s) =
    let rest = digits_value (acc * 10 + (c - b'0')) s in if is_digit c then rest else none

abbrev pub decimal : Text → Option ℕ
decimal [] = none
decimal (c ∷ s) = digits_value 0 (c ∷ s)

pub data ℤ : Type 0 where
  pos negsuc : ℕ → ℤ

abbrev pub negated : ℕ → ℤ
negated zero = pos 0
negated (suc n) = negsuc n

-- strconv.Atoi on a 64-bit int; an error is none
unfoldable pub atoi : Text → Option ℤ
unfolding digits_value
atoi [] = none
atoi (c ∷ s) =
    if nat_beq c b'-'
    then elim (decimal s) [
      | none ↦ none
      | some n ↦ if leb n (2 ^ 63) then some (negated n) else none
    ]
    else elim (decimal (if nat_beq c b'+' then s else c ∷ s)) [
      | none ↦ none
      | some n ↦ if ltb n (2 ^ 63) then some (pos n) else none
    ]

-- The decimal digits of a number, in front of a text.
unfoldable pub digits_onto : ℕ → ℕ → Text → Text
digits_onto zero n s = s
digits_onto (suc fuel) n s =
    let rest = digits_onto fuel (n / 10) ((b'0' + n % 10) ∷ s) in
    if ltb n 10 then (b'0' + n) ∷ s else rest

-- strconv.Itoa, of a number that is not negative; a number has no more digits than it counts, and one
unfoldable pub itoa : ℕ → Text
unfolding digits_onto
itoa n = digits_onto (suc n) n []
