-- ===== src/Prelude/Lists.antt =====
-- Lists measured by native numbers, Boolean searches, and predicates by recursion.
use macvz.Prelude.Tests.{if◌then◌else◌}
use macvz.Prelude.Equality.{Key, text_key, number_key, ◌==◌, same_self}
use Prim.Native.Nat.{ℕ, zero, suc, ◌+◌, ◌≤◌}
use mathlib.Core.Path.{◌≡◌, refl, ap}
use mathlib.Core.Logic.{◌⊎◌, inl, inr}
use mathlib.Core.Bool.{Bool, true, false}
use mathlib.Core.List.{map, List, [], ◌∷◌, ◌++◌}
use native.Mathlib.Omega.{arith}

abbrev pub All {ℓ κ} : {A : Type ℓ} → (A → Type κ) → List A → Type κ
All P [] = Unit
All P (x ∷ xs) = P x × All P xs

module _ {ℓ} {A : Type ℓ} where
  abbrev pub length : List A → ℕ
  length [] = 0
  length (x ∷ xs) = suc (length xs)

  abbrev pub is_empty : List A → Bool
  is_empty [] = true
  is_empty (x ∷ xs) = false

  pub length-append : (xs ys : List A) → length (xs ++ ys) ≡ length xs + length ys
  length-append [] ys = omega arith
  length-append (x ∷ xs) ys = omega (arith, length-append xs ys)

  -- The elements that pass a test, in order.
  abbrev pub keep : (A → Bool) → List A → List A
  keep p [] = []
  keep p (x ∷ xs) = let rest = keep p xs in if p x then x ∷ rest else rest

-- Membership as a computed test.
module _ {ℓ} {A : Type ℓ} ⦃e : Key A⦄ where
  unfoldable pub contains : List A → A → Bool
  contains [] a = false
  contains (x ∷ xs) a = let rest = contains xs a in if x == a then true else rest

  pub contains-cons :
      (x : A) (xs : List A) (a : A) → contains (x ∷ xs) a ≡ (if x == a then true else contains xs a)
  unfolding contains
  contains-cons x xs a = refl

  pub contains-append :
      (xs ys : List A) (a : A)
      → contains (xs ++ ys) a ≡ (if contains xs a then true else contains ys a)
  unfolding contains
  contains-append [] ys a = refl
  contains-append (x ∷ xs) ys a = ground (arith, contains-append xs ys a)

  pub contains-keep :
      (p : A → Bool) (xs : List A) (a : A)
      → contains (keep p xs) a ≡ (if p a then contains xs a else false)
  unfolding contains
  contains-keep p [] a = ground arith
  contains-keep p (x ∷ xs) a = ground (arith, contains-keep p xs a, e.same_iff x a)

  -- What holds of all elements holds of each member.
  pub All-contains {κ} :
      (P : A → Type κ) (xs : List A) (a : A) → All P xs → contains xs a ≡ true → P a
  unfolding contains
  All-contains P [] a h m = absurd (cc)
  All-contains P (x ∷ xs) a h m = ground (arith, e.same_iff x a, All-contains P xs a)

  -- What holds of each member holds of all elements, under a projection.
  pub All-of_contains {ι κ} :
      {B : Type ι} (f : B → A) (P : A → Type κ) (xs : List B)
      → ((a : A) → contains (map f xs) a ≡ true → P a)
      → All (λ (x : B). P (f x)) xs
  unfolding contains
  All-of_contains f P [] h = tt
  All-of_contains f P (x ∷ xs) h = (
    h (f x) (ground (arith, same_self (f x))),
    All-of_contains f P xs (λ a m. h a (ground (arith, m))),
  )

module _ {ℓ κ} {A : Type ℓ} ⦃e : Key A⦄ where
  pub All-members :
      (P : A → Type κ) (xs : List A) → ((a : A) → contains xs a ≡ true → P a) → All P xs
  unfolding contains
  All-members P [] h = tt
  All-members P (x ∷ xs) h =
      (h x (ground (arith, same_self x)), All-members P xs (λ a m. h a (ground (arith, m))))

pub All-zip {ℓ κ ι} :
    {A : Type ℓ} (P : A → Type κ) (Q : A → Type ι) (xs : List A)
    → All P xs
    → All Q xs
    → All (λ x. P x × Q x) xs
All-zip P Q [] h k = tt
All-zip P Q (x ∷ xs) h k = ((h.0, k.0), All-zip P Q xs h.1 k.1)

pub All-imp {ℓ κ ι} :
    {A : Type ℓ} {P : A → Type κ} {Q : A → Type ι} (xs : List A)
    → ((x : A) → P x → Q x)
    → All P xs
    → All Q xs
All-imp [] f h = tt
All-imp (x ∷ xs) f h = (f x h.0, All-imp xs f h.1)

module _ {ℓ} {A : Type ℓ} where
  -- xs[:n], of a slice that is long enough
  abbrev pub take : ℕ → List A → List A
  take zero xs = []
  take (suc n) [] = []
  take (suc n) (x ∷ xs) = x ∷ take n xs

  -- xs[n:], of a slice that is long enough
  abbrev pub drop : ℕ → List A → List A
  drop zero xs = xs
  drop (suc n) [] = []
  drop (suc n) (x ∷ xs) = drop n xs

  pub length-take : (n : ℕ) (xs : List A) → length (take n xs) ≤ n
  length-take zero xs = omega arith
  length-take (suc n) [] = omega arith
  length-take (suc n) (x ∷ xs) = omega (arith, length-take n xs)

  pub All-take {κ} : (P : A → Type κ) (n : ℕ) (xs : List A) → All P xs → All P (take n xs)
  All-take P zero xs h = tt
  All-take P (suc n) [] h = tt
  All-take P (suc n) (x ∷ xs) h = (h.0, All-take P n xs h.1)

  pub All-append {κ} : (P : A → Type κ) (xs ys : List A) → All P xs → All P ys → All P (xs ++ ys)
  All-append P [] ys h k = k
  All-append P (x ∷ xs) ys h k = (h.0, All-append P xs ys h.1 k)

pub List-cases {ℓ} :
    {A : Type ℓ} (xs : List A) → (xs ≡ []) ⊎ ((x : A) × (ys : List A) × (xs ≡ x ∷ ys))
List-cases [] = inl refl
List-cases (x ∷ ys) = inr (x, ys, refl)

pub map_self {ℓ} : {A : Type ℓ} (xs : List A) → map (λ (x : A). x) xs ≡ xs
map_self [] = refl
map_self (x ∷ xs) = ap (λ ys. x ∷ ys) (map_self xs)
