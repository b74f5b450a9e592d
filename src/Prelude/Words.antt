-- ===== src/Prelude/Words.antt =====
-- Laws of Go's package strings: what a text that is put together reads back as.
use macvz.Prelude.Tests.{if◌then◌else◌, Bool-cases}
use macvz.Prelude.Lists.{is_empty, contains, List-cases}
use macvz.Prelude.Codes.{Text, codes, codes_key, has_prefix, has_prefix-append}
use macvz.Prelude.Strings.{
  is_space, cons_head, split, trim_left, trim_right, trim_space, starts_word, fields, trim_prefix,
}
use macvz.Prelude.Equality.{text_key, number_key}
use Prim.Native.Nat.{ℕ}
use mathlib.Core.Path.{◌≡◌, refl, ◌∙◌}
use mathlib.Core.Logic.{inl, inr}
use mathlib.Core.Bool.{Bool, true, false, false≢true, not, ◌&&◌}
use mathlib.Core.List.{List, [], ◌∷◌, ◌++◌}
use native.Mathlib.Omega.{arith}

pub trim_prefix-append : (p s : Text) → trim_prefix (p ++ s) p ≡ s
unfolding trim_prefix
trim_prefix-append [] s = ground arith
trim_prefix-append (c ∷ p) s = ground (arith, trim_prefix-append p s, has_prefix-append (c ∷ p) s)

starts_word-space : (a b : Text) → starts_word (a ++ 32 ∷ b) ≡ starts_word a
unfolding starts_word is_space
starts_word-space [] b = refl
starts_word-space (c ∷ a) b = refl

cons_head-cases :
    (c : ℕ) (ws : List Text) → (w : Text) × (vs : List Text) × (cons_head c ws ≡ w ∷ vs)
cons_head-cases c [] = (c ∷ [], [], refl)
cons_head-cases c (w ∷ ws) = (c ∷ w, ws, refl)

-- A text that starts inside a word has a first word.
fields_head :
    (a : Text) → starts_word a ≡ true → (w : Text) × (ws : List Text) × (fields a ≡ w ∷ ws)
unfolding fields starts_word is_space
fields_head [] h = absurd (false≢true h)
fields_head (c ∷ a) h = elim (Bool-cases (starts_word a)) [
  | inl t ↦ let (w, vs, e) = cons_head-cases c (fields a) in (w, vs, ground (arith, e))
  | inr f ↦ (c ∷ [], fields a, ground arith)
]

blank_is_space : is_space 32 ≡ true
unfolding is_space
blank_is_space = refl

-- Words parted by a blank are read apart.
pub fields-space : (a b : Text) → fields (a ++ 32 ∷ b) ≡ fields a ++ fields b
unfolding fields
fields-space [] b = ground (arith, blank_is_space)
fields-space (c ∷ a) b = elim (Bool-cases (starts_word a)) [
  | inl t ↦
      let (w, ws, e) = fields_head a t in ground (arith, e, starts_word-space a b, fields-space a b)
  | inr f ↦ ground (arith, starts_word-space a b, fields-space a b)
]

-- A text that is one word.
abbrev pub no_space : Text → Bool
no_space [] = true
no_space (c ∷ s) = let rest = no_space s in not (is_space c) && rest

unfoldable pub is_word : Text → Bool
is_word s = not (is_empty s) && no_space s

starts_word-no_space : (s : Text) → no_space s ≡ true → is_empty s ≡ not (starts_word s)
unfolding starts_word
starts_word-no_space [] h = refl
starts_word-no_space (c ∷ s) h = ground arith

pub fields_word : (s : Text) → is_word s ≡ true → fields s ≡ s ∷ []
unfolding is_word fields
fields_word [] h = absurd (false≢true h)
fields_word (c ∷ []) h = ground arith
fields_word (c ∷ d ∷ s) h = ground (arith, fields_word (d ∷ s), starts_word-no_space (d ∷ s))

pub fields-blank : (a b : Text) → fields (a ++ ((32 ∷ []) ++ b)) ≡ fields a ++ fields b
fields-blank a b = fields-space a b

abbrev pub all_words : List Text → Bool
all_words [] = true
all_words (w ∷ ws) = let rest = all_words ws in is_word w && rest

starts_word-trim_right : (s : Text) → starts_word (trim_right s) ≡ starts_word s
unfolding trim_right starts_word
starts_word-trim_right [] = refl
starts_word-trim_right (c ∷ s) = ground arith

fields-cons :
    (c : ℕ) (s : Text)
    → fields (c ∷ s) ≡ (
        if is_space c
        then fields s
        else if starts_word s
        then cons_head c (fields s)
        else (c ∷ []) ∷ fields s)
unfolding fields
fields-cons c s = refl

no_words : (fields [] ≡ []) × (starts_word [] ≡ false)
unfolding fields starts_word
no_words = (refl, refl)

fields-trim_right : (s : Text) → fields (trim_right s) ≡ fields s
unfolding trim_right
fields-trim_right [] = refl
fields-trim_right (c ∷ s) = elim (List-cases (trim_right s)) [
  | inl e ↦ ground (
    arith,
    fields-cons c s,
    fields-cons c [],
    fields-trim_right s,
    starts_word-trim_right s,
    no_words,
    e,
  )
  | inr (d, t, e) ↦ ground (
    arith,
    fields-cons c s,
    fields-cons c (trim_right s),
    fields-trim_right s,
    starts_word-trim_right s,
    e,
  )
]

fields-trim_left : (s : Text) → fields (trim_left s) ≡ fields s
unfolding trim_left fields
fields-trim_left [] = refl
fields-trim_left (c ∷ s) = ground (arith, fields-trim_left s)

-- The white space around a line does not matter to its words.
pub fields-trim_space : (s : Text) → fields (trim_space s) ≡ fields s
fields-trim_space s = fields-trim_right (trim_left s) ∙ fields-trim_left s

-- A comment is still one without the white space around it.
pub comment-trim_space : (s : Text) → has_prefix (trim_space (b'#' ∷ s)) (codes "#") ≡ true
unfolding trim_left trim_right has_prefix is_space
comment-trim_space s = refl

-- The first line of a text.
pub split_line :
    (sep : ℕ) (a b : Text) → contains a sep ≡ false → split sep (a ++ sep ∷ b) ≡ a ∷ split sep b
unfolding split contains
split_line sep [] b h = ground arith
split_line sep (c ∷ a) b h = ground (arith, split_line sep a b)
