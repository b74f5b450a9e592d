-- ===== src/Prelude/Trim.antt =====
-- What strings.TrimSpace and strings.Split leave of texts that are put together.
use macvz.Prelude.Equality.{text_key, number_key}
use macvz.Prelude.Lists.{All, is_empty, contains}
use macvz.Prelude.Codes.{Text, codes, codes_key}
use macvz.Prelude.Strings.{is_space, cons_head, split, trim_left, trim_right, trim_space, join}
use macvz.Prelude.Words.{no_space, is_word, all_words, split_line}
use macvz.Prelude.Lines.{append_assoc, append_nil}
use mathlib.Core.Path.{◌≡◌, refl, ap, sym, ◌∙◌}
use mathlib.Core.Bool.{true, false}
use mathlib.Core.List.{List, [], ◌∷◌, ◌++◌, map}
use native.Mathlib.Omega.{arith}

trim_right-no_space : (s : Text) → no_space s ≡ true → trim_right s ≡ s
unfolding trim_right
trim_right-no_space [] h = refl
trim_right-no_space (c ∷ s) h = ground (arith, trim_right-no_space s, h)

-- A text that ends in a word keeps its end.
pub trim_right-word : (a w : Text) → is_word w ≡ true → trim_right (a ++ w) ≡ a ++ w
unfolding trim_right is_word
trim_right-word [] w h = trim_right-no_space w (ground (arith, h))
trim_right-word (c ∷ a) w h =
    ground (arith, trim_right-word a w h, not_empty a w (ground (arith, h)))
  where
    not_empty : (a w : Text) → is_empty w ≡ false → is_empty (a ++ w) ≡ false
    not_empty [] w e = e
    not_empty (c ∷ a) w e = refl

trim_left_word : (w s : Text) → is_word w ≡ true → trim_left (w ++ s) ≡ w ++ s
unfolding trim_left is_word
trim_left_word [] s h = absurd (cc)
trim_left_word (c ∷ w) s h = ground (arith, h)

pub trim_space-word : (w : Text) → is_word w ≡ true → trim_space w ≡ w
trim_space-word w h =
    ap trim_right (ap trim_left (sym (append_nil w)) ∙ trim_left_word w [] h ∙ append_nil w)
    ∙ trim_right-word [] w h

pub trim_space-blank : (w : Text) → is_word w ≡ true → trim_space (32 ∷ w) ≡ w
unfolding trim_left is_space
trim_space-blank w h = trim_space-word w h

-- The pieces between commas, each with its blank.
abbrev pub comma_pieces : List Text → List Text
comma_pieces [] = [] ∷ []
comma_pieces (w ∷ ws) = w ∷ map (λ v. 32 ∷ v) ws

split-no_sep : (s : Text) → contains s b',' ≡ false → split b',' s ≡ s ∷ []
unfolding split contains
split-no_sep [] h = refl
split-no_sep (c ∷ s) h = ground (arith, split-no_sep s, h)

split-blank : (s : Text) → split b',' (32 ∷ s) ≡ cons_head 32 (split b',' s)
unfolding split
split-blank s = refl

split_nil : split b',' [] ≡ [] ∷ []
unfolding split
split_nil = refl

pub split-join :
    (ws : List Text)
    → All (λ w. contains w b',' ≡ false) ws
    → split b',' (join (codes ", ") ws) ≡ comma_pieces ws
unfolding join
split-join [] h = split_nil
split-join (w ∷ []) h = split-no_sep w h.0
split-join (w ∷ v ∷ ws) h =
    split_line b',' w (32 ∷ join (codes ", ") (v ∷ ws)) h.0
    ∙ ap (λ l. w ∷ l)
        (split-blank (join (codes ", ") (v ∷ ws)) ∙ ap (cons_head 32) (split-join (v ∷ ws) h.1))

-- A joined list of words begins and ends in a word.
join_end :
    (w : Text) (ws : List Text)
    → all_words (w ∷ ws) ≡ true
    → (a : Text) × (v : Text) × (join (codes ", ") (w ∷ ws) ≡ a ++ v) × (is_word v ≡ true)
unfolding join
join_end w [] h = ([], w, refl, ground (arith, h))
join_end w (v ∷ ws) h =
    let (a, u, e, k) = join_end v ws (ground (arith, h)) in
    (
      w ++ (codes ", " ++ a),
      u,
      ap (λ l. w ++ (codes ", " ++ l)) e ∙ sym (append_assoc w (codes ", " ++ a) u),
      k,
    )

pub trim_right-join :
    (k w : Text) (ws : List Text)
    → all_words (w ∷ ws) ≡ true
    → trim_right (k ++ join (codes ", ") (w ∷ ws)) ≡ k ++ join (codes ", ") (w ∷ ws)
trim_right-join k w ws h =
    let (a, u, e, i) = join_end w ws h in
    let same = ap (λ l. k ++ l) e ∙ sym (append_assoc k a u) in
    ap trim_right same ∙ trim_right-word (k ++ a) u i ∙ sym same

join_start : (w : Text) (ws : List Text) → (s : Text) × (join (codes ", ") (w ∷ ws) ≡ w ++ s)
unfolding join
join_start w [] = ([], sym (append_nil w))
join_start w (v ∷ ws) = (codes ", " ++ join (codes ", ") (v ∷ ws), refl)

pub trim_space-join :
    (w : Text) (ws : List Text)
    → all_words (w ∷ ws) ≡ true
    → trim_space (join (codes ", ") (w ∷ ws)) ≡ join (codes ", ") (w ∷ ws)
trim_space-join w ws h =
    let (s, e) = join_start w ws in
    let left = ap trim_left e ∙ trim_left_word w s (ground (arith, h)) ∙ sym e in
    ap trim_right left ∙ trim_right-join [] w ws h
