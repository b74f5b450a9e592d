-- ===== src/Prelude/Digits.antt =====
-- Decimal numbers: what strconv.Itoa writes, strconv.Atoi reads.
use macvz.Prelude.Tests.{ltb, leb, lt→ltb, Bool-cases}
use macvz.Prelude.Codes.{Text, codes_key}
use macvz.Prelude.Strings.{is_space, is_digit, digits_value, pos, atoi, digits_onto, itoa}
use macvz.Prelude.Words.{no_space, is_word}
use Prim.Native.Nat.{ℕ, zero, suc, ◌+◌, ◌-◌, ◌*◌, ◌/◌, ◌%◌, ◌^◌, ◌<◌}
use mathlib.Core.Path.{◌≡◌, ap, sym, ◌∙◌}
use mathlib.Core.Logic.{inl, inr}
use mathlib.Core.Bool.{true, false}
use mathlib.Core.Option.{some}
use mathlib.Core.List.{[], ◌∷◌}
use native.Mathlib.Omega.{arith}

plus_minus : (d : ℕ) → b'0' + d - b'0' ≡ d
plus_minus d = omega arith

tenth : (n : ℕ) → n / 10 * 10 + n % 10 ≡ n
tenth n = omega arith

digits_value-step :
    (acc d : ℕ) (s : Text)
    → d < 10
    → digits_value acc ((b'0' + d) ∷ s) ≡ digits_value (acc * 10 + d) s
unfolding digits_value
digits_value-step acc d s h =
    ground (arith, h, ap (λ k. digits_value (acc * 10 + k) s) (plus_minus d))

digits_value-onto :
    (fuel n : ℕ) (s : Text) → n < fuel → digits_value 0 (digits_onto fuel n s) ≡ digits_value n s
unfolding digits_onto
digits_value-onto zero n s h = absurd (omega (arith, h))
digits_value-onto (suc fuel) n s h = elim (Bool-cases (ltb n 10)) [
  | inl t ↦ ground (arith, t, digits_value-step 0 n s)
  | inr f ↦ ground (
    arith,
    f,
    h,
    digits_value-onto fuel (n / 10) ((b'0' + n % 10) ∷ s),
    digits_value-step (n / 10) (n % 10) s,
    ap (λ k. digits_value k s) (tenth n),
  )
]

digits_onto_head :
    (fuel n : ℕ) (s : Text)
    → n < fuel
    → (c : ℕ) × (t : Text) × (digits_onto fuel n s ≡ c ∷ t) × (is_digit c ≡ true)
unfolding digits_onto
digits_onto_head zero n s h = absurd (omega (arith, h))
digits_onto_head (suc fuel) n s h = elim (Bool-cases (ltb n 10)) [
  | inl t ↦ (b'0' + n, s, ground (arith, t), ground (arith, t))
  | inr f ↦
      let (c, t, e, d) =
        digits_onto_head fuel (n / 10) ((b'0' + n % 10) ∷ s) (ground (arith, f, h)) in
      (c, t, ground (arith, f, e), d)
]

digit_no_space : (c : ℕ) → leb b'0' c ≡ true → leb c b'9' ≡ true → is_space c ≡ false
unfolding is_space
digit_no_space c h k = ground arith

no_space-onto : (fuel n : ℕ) (s : Text) → no_space s ≡ true → no_space (digits_onto fuel n s) ≡ true
unfolding digits_onto
no_space-onto zero n s h = h
no_space-onto (suc fuel) n s h = elim (Bool-cases (ltb n 10)) [
  | inl t ↦ ground (arith, t, h, digit_no_space (b'0' + n))
  | inr f ↦ ground (
    arith,
    f,
    h,
    no_space-onto fuel (n / 10) ((b'0' + n % 10) ∷ s),
    digit_no_space (b'0' + n % 10),
  )
]

pub is_word-itoa : (n : ℕ) → is_word (itoa n) ≡ true
unfolding itoa is_word
is_word-itoa n =
    let (c, t, e, d) = digits_onto_head (suc n) n [] (omega arith) in
    ground (arith, e, no_space-onto (suc n) n [])

atoi_digits :
    (c : ℕ) (t : Text) (n : ℕ)
    → is_digit c ≡ true
    → digits_value 0 (c ∷ t) ≡ some n
    → n < 2 ^ 63
    → atoi (c ∷ t) ≡ some (pos n)
unfolding atoi
atoi_digits c t n d e h = ground (arith, d, e, h, lt→ltb n (2 ^ 63) h)

-- What Itoa writes of an int, Atoi reads.
pub atoi-itoa : (n : ℕ) → n < 2 ^ 63 → atoi (itoa n) ≡ some (pos n)
unfolding itoa digits_value
atoi-itoa n h =
    let (c, t, e, d) = digits_onto_head (suc n) n [] (omega arith) in
    let v = digits_value-onto (suc n) n [] (omega arith) in
    ap atoi e ∙ atoi_digits c t n d (sym (ap (digits_value 0) e) ∙ v) h
