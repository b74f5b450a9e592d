-- ===== src/Prelude/Sort.antt =====
-- sort.Slice by a strict test, as an insertion sort: what it keeps.
use macvz.Prelude.Tests.{if◌then◌else◌, Bool-cases}
use macvz.Prelude.Equality.{Key, text_key, number_key, ◌==◌}
use macvz.Prelude.Lists.{All, length, contains}
use Prim.Native.Nat.{suc}
use mathlib.Core.Path.{◌≡◌, refl, ◌∙◌, ap}
use mathlib.Core.Bool.{Bool, true}
use mathlib.Core.Logic.{inl, inr}
use mathlib.Core.List.{List, [], ◌∷◌, map}
use native.Mathlib.Omega.{arith}

module _ {ℓ} {A : Type ℓ} (less : A → A → Bool) where
  unfoldable pub insert_sorted : A → List A → List A
  insert_sorted a [] = a ∷ []
  insert_sorted a (x ∷ xs) =
      let rest = insert_sorted a xs in if less a x then a ∷ x ∷ xs else x ∷ rest

  unfoldable pub sort : List A → List A
  unfolding insert_sorted
  sort [] = []
  sort (x ∷ xs) = insert_sorted x (sort xs)

  length-insert_sorted : (a : A) (xs : List A) → length (insert_sorted a xs) ≡ suc (length xs)
  unfolding insert_sorted
  length-insert_sorted a [] = refl
  length-insert_sorted a (x ∷ xs) = ground (arith, length-insert_sorted a xs)

  pub length-sort : (xs : List A) → length (sort xs) ≡ length xs
  unfolding sort
  length-sort [] = refl
  length-sort (x ∷ xs) = length-insert_sorted x (sort xs) ∙ ap suc (length-sort xs)

  All-insert_sorted {κ} :
      (P : A → Type κ) (a : A) (xs : List A) → P a → All P xs → All P (insert_sorted a xs)
  unfolding insert_sorted
  All-insert_sorted P a [] p h = (p, h)
  All-insert_sorted P a (x ∷ xs) p h = elim (Bool-cases (less a x)) [
    | inl t ↦ rw t (p, h)
    | inr f ↦ rw f (h.0, All-insert_sorted P a xs p h.1)
  ]

  -- What holds of all elements holds of them in order.
  pub All-sort {κ} : (P : A → Type κ) (xs : List A) → All P xs → All P (sort xs)
  unfolding sort
  All-sort P [] h = h
  All-sort P (x ∷ xs) h = All-insert_sorted P x (sort xs) h.0 (All-sort P xs h.1)

  module _ {K : Type 0} ⦃key : Key K⦄ (f : A → K) where
    contains-insert_sorted :
        (a : A) (xs : List A) (k : K)
        → contains (map f (insert_sorted a xs)) k
          ≡ (if f a == k then true else contains (map f xs) k)
    unfolding insert_sorted contains
    contains-insert_sorted a [] k = refl
    contains-insert_sorted a (x ∷ xs) k = ground (arith, contains-insert_sorted a xs k)

    -- Sorting keeps the members.
    pub contains-sort : (xs : List A) (k : K) → contains (map f (sort xs)) k ≡ contains (map f xs) k
    unfolding sort contains
    contains-sort [] k = refl
    contains-sort (x ∷ xs) k =
        ground (arith, contains-insert_sorted x (sort xs) k, contains-sort xs k)
