-- ===== src/Prelude/Lines.antt =====
-- Lines that are put together of words: what a reader of lines and words finds in them.
use macvz.Prelude.Tests.{nat_beq_iff}
use macvz.Prelude.Equality.{text_key, number_key}
use macvz.Prelude.Lists.{contains, contains-append}
use macvz.Prelude.Codes.{Text, codes, codes_key}
use macvz.Prelude.Strings.{is_space, fields, join}
use macvz.Prelude.Words.{fields-space, no_space, is_word, fields_word, fields-blank, all_words}
use mathlib.Core.Path.{◌≡◌, refl, ap, sym, ◌∙◌}
use mathlib.Core.Bool.{Bool, true, false, not, ◌&&◌}
use mathlib.Core.List.{List, [], ◌∷◌, ◌++◌}
use native.Mathlib.Omega.{arith}

pub append_assoc {ℓ} : {A : Type ℓ} (xs ys zs : List A) → (xs ++ ys) ++ zs ≡ xs ++ (ys ++ zs)
append_assoc [] ys zs = refl
append_assoc (x ∷ xs) ys zs = ap (λ l. x ∷ l) (append_assoc xs ys zs)

pub append_nil {ℓ} : {A : Type ℓ} (xs : List A) → xs ++ [] ≡ xs
append_nil [] = refl
append_nil (x ∷ xs) = ap (λ l. x ∷ l) (append_nil xs)

-- The words of each text, in order.
abbrev pub words_of : List Text → List Text
words_of [] = []
words_of (w ∷ ws) = fields w ++ words_of ws

pub fields-join_words : (ws : List Text) → fields (join (32 ∷ []) ws) ≡ words_of ws
unfolding join fields
fields-join_words [] = refl
fields-join_words (w ∷ []) = sym (append_nil (fields w))
fields-join_words (w ∷ v ∷ ws) =
    fields-blank w (join (32 ∷ []) (v ∷ ws)) ∙ ap (λ l. fields w ++ l) (fields-join_words (v ∷ ws))

-- strings.Join(ts, ", "): each text but the last has the comma.
abbrev pub pool_words : List Text → List Text
pool_words [] = []
pool_words (t ∷ []) = t ∷ []
pool_words (t ∷ u ∷ ts) = (t ++ b',' ∷ []) ∷ pool_words (u ∷ ts)

no_space-append : (a b : Text) → no_space (a ++ b) ≡ (no_space a && no_space b)
no_space-append [] b = refl
no_space-append (c ∷ a) b = ground (arith, no_space-append a b)

is_word-comma : (t : Text) → is_word t ≡ true → is_word (t ++ b',' ∷ []) ≡ true
unfolding is_word is_space
is_word-comma [] h = absurd (cc)
is_word-comma (c ∷ t) h = ground (arith, no_space-append t (b',' ∷ []))

pub fields-join_pool :
    (ts : List Text) → all_words ts ≡ true → fields (join (codes ", ") ts) ≡ pool_words ts
unfolding join fields
fields-join_pool [] h = refl
fields-join_pool (t ∷ []) h = fields_word t (ground (arith, h))
fields-join_pool (t ∷ u ∷ ts) h =
    let j = join (codes ", ") (u ∷ ts) in
    let comma = t ++ b',' ∷ [] in
    ap fields (sym (append_assoc t (b',' ∷ []) (32 ∷ j)))
    ∙ ground (
      arith,
      fields-space comma j,
      fields_word comma,
      is_word-comma t,
      fields-join_pool (u ∷ ts),
      h,
    )

break_is_space : is_space 10 ≡ true
unfolding is_space
break_is_space = refl

no_break-no_space : (s : Text) → no_space s ≡ true → contains s 10 ≡ false
unfolding contains
no_break-no_space [] h = refl
no_break-no_space (c ∷ s) h =
    ground (arith, break_is_space, nat_beq_iff c 10, no_break-no_space s, h)

pub no_break-is_word : (s : Text) → is_word s ≡ true → contains s 10 ≡ false
unfolding is_word
no_break-is_word s h = no_break-no_space s (ground (arith, h))

-- Texts without a line break.
abbrev pub no_breaks : List Text → Bool
no_breaks [] = true
no_breaks (w ∷ ws) = let rest = no_breaks ws in not (contains w 10) && rest

module _ (sep : Text) where
  pub no_break-join :
      (ws : List Text)
      → contains sep 10 ≡ false
      → no_breaks ws ≡ true
      → contains (join sep ws) 10 ≡ false
  unfolding join contains
  no_break-join [] s h = refl
  no_break-join (w ∷ []) s h = ground (arith, h)
  no_break-join (w ∷ v ∷ ws) s h = ground (
    arith,
    contains-append w (sep ++ join sep (v ∷ ws)) 10,
    contains-append sep (join sep (v ∷ ws)) 10,
    no_break-join (v ∷ ws),
    s,
    h,
  )

pub no_breaks-all_words : (ws : List Text) → all_words ws ≡ true → no_breaks ws ≡ true
no_breaks-all_words [] h = refl
no_breaks-all_words (w ∷ ws) h = ground (arith, no_break-is_word w, no_breaks-all_words ws, h)
