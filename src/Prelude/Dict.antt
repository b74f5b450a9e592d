-- ===== src/Prelude/Dict.antt =====
-- Go's `map[K]V` as an association list. A write drops the old entry of its key, and a loop over a
-- map is a pass over its entries. Clients reason by the laws of `get`.
use macvz.Prelude.Tests.{if◌then◌else◌}
use macvz.Prelude.Lists.{All}
use macvz.Prelude.Equality.{Key, text_key, number_key, ◌==◌, same_self}
use mathlib.Core.Path.{◌≡◌, refl}
use mathlib.Core.Bool.{Bool}
use mathlib.Core.Option.{Option, none, some}
use mathlib.Core.List.{List, [], ◌∷◌}
use native.Mathlib.Omega.{arith}

pub record Dict {ℓ κ} (K : Type ℓ) (V : Type κ) : Type (ℓ ⊔ κ) where
  pub entries : List (K × V)

module _ {ℓ κ} {K : Type ℓ} {V : Type κ} where
  unfoldable pub empty : Dict K V
  empty = record { entries = [] }

  -- the entries whose key passes a test
  keys_where : (K → Bool) → List (K × V) → List (K × V)
  keys_where p [] = []
  keys_where p ((j, v) ∷ m) = let rest = keys_where p m in if p j then (j, v) ∷ rest else rest

module _ {ℓ κ} {K : Type ℓ} {V : Type κ} ⦃e : Key K⦄ where
  at_key : List (K × V) → K → Option V
  at_key [] k = none
  at_key ((j, v) ∷ m) k = let rest = at_key m k in if j == k then some v else rest

  others : List (K × V) → K → List (K × V)
  others [] k = []
  others ((j, v) ∷ m) k = let rest = others m k in if j == k then rest else (j, v) ∷ rest

  at_key-others :
      (m : List (K × V)) (k j : K) → at_key (others m k) j ≡ (if k == j then none else at_key m j)
  unfolding at_key others
  at_key-others [] k j = ground arith
  at_key-others ((i, v) ∷ m) k j =
      ground (arith, at_key-others m k j, e.same_iff k j, e.same_iff i k, e.same_iff i j)

  at_key-keys_where :
      (m : List (K × V)) (p : K → Bool) (j : K)
      → at_key (keys_where p m) j ≡ (if p j then at_key m j else none)
  unfolding at_key keys_where
  at_key-keys_where [] p j = ground arith
  at_key-keys_where ((i, v) ∷ m) p j = ground (arith, at_key-keys_where m p j, e.same_iff i j)

  -- v, ok := m[k]
  unfoldable pub get : Dict K V → K → Option V
  unfolding at_key
  get d = at_key d.entries

  -- m[k] = v
  unfoldable pub put : Dict K V → K → V → Dict K V
  unfolding others
  put d k v = record { entries = (k, v) ∷ others d.entries k }

  -- delete(m, k)
  unfoldable pub remove : Dict K V → K → Dict K V
  unfolding others
  remove d k = record { entries = others d.entries k }

  -- for k := range m { if !p(k) { delete(m, k) } }
  unfoldable pub retain : (K → Bool) → Dict K V → Dict K V
  unfolding keys_where
  retain p d = record { entries = keys_where p d.entries }

  pub get-empty : (k : K) → get (empty {V = V}) k ≡ none
  unfolding get empty
  get-empty k = refl

  pub get-put :
      (d : Dict K V) (k j : K) (v : V) → get (put d k v) j ≡ (if k == j then some v else get d j)
  unfolding get put
  get-put d k j v = ground (arith, at_key-others d.entries k j)

  pub get-put_self : (d : Dict K V) (k : K) (v : V) → get (put d k v) k ≡ some v
  get-put_self d k v = ground (arith, get-put d k k v, same_self k)

  pub get-remove :
      (d : Dict K V) (k j : K) → get (remove d k) j ≡ (if k == j then none else get d j)
  unfolding get remove
  get-remove d k j = at_key-others d.entries k j

  pub get-remove_self : (d : Dict K V) (k : K) → get (remove d k) k ≡ none
  get-remove_self d k = ground (arith, get-remove d k k, same_self k)

  pub get-retain :
      (p : K → Bool) (d : Dict K V) (j : K) → get (retain p d) j ≡ (if p j then get d j else none)
  unfolding get retain
  get-retain p d j = at_key-keys_where d.entries p j

  -- What holds of all entries holds of them after a deletion, and after a write of a good one.
  All-others {ι} : (P : K × V → Type ι) (m : List (K × V)) (k : K) → All P m → All P (others m k)
  unfolding others
  All-others P [] k h = h
  All-others P ((j, v) ∷ m) k h = ground (arith, h.0, All-others P m k h.1)

  pub All-remove {ι} :
      (P : K × V → Type ι) (d : Dict K V) (k : K) → All P d.entries → All P (remove d k).entries
  unfolding remove
  All-remove P d k h = All-others P d.entries k h

  pub All-put {ι} :
      (P : K × V → Type ι) (d : Dict K V) (k : K) (v : V)
      → P (k, v)
      → All P d.entries
      → All P (put d k v).entries
  unfolding put
  All-put P d k v q h = (q, All-others P d.entries k h)

pub ruleset dict_laws = (get-empty, get-put, get-remove, get-retain)
