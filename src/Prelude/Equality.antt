-- ===== src/Prelude/Equality.antt =====
-- Types whose values can be map keys: a computed equality that decides the paths.
use Prim.Native.Nat.{ℕ}
use Prim.Native.String.{String}
use mathlib.Core.Path.{◌≡◌, refl}
use mathlib.Core.Logic.{◌↔◌}
use mathlib.Core.Bool.{Bool, true}
use text.Mathlib.Text.{◌==◌ as text_beq}
use text.Mathlib.TextEquality.{eq_iff}
use macvz.Prelude.Tests.{nat_beq, nat_beq_iff}

pub record Key {ℓ} (K : Type ℓ) : Type ℓ where
  pub same : K → K → Bool
  pub same_iff : (k j : K) → (same k j ≡ true) ↔ (k ≡ j)

instance abbrev pub text_key : Key String
text_key = record { same = text_beq; same_iff = eq_iff }

instance abbrev pub number_key : Key ℕ
number_key = record { same = nat_beq; same_iff = nat_beq_iff }

module _ {ℓ} {K : Type ℓ} ⦃key : Key K⦄ where
  infix 50 ◌==◌
  abbrev pub ◌==◌ : K → K → Bool
  k == j = key.same k j

  pub same_self : (k : K) → (k == k) ≡ true
  same_self k = (key.same_iff k k).1 refl
