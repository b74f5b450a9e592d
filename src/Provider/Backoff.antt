-- ===== src/Provider/Backoff.antt =====
-- The restart backoff in closed form.
use macvz.Prelude.{
  leb, if◌then◌else◌, leb→le, le→leb, Bool-cases, codes_key, text_key, number_key, ℕ, zero, suc,
  ◌*◌, ◌%◌, ◌^◌, ◌≤◌, ◌≡◌, refl, sym, ap, ◌∙◌, inl, inr, true, arith,
}
use macvz.Provider.Restart.{restart_backoff_max, restart_backoff}

-- d * 2^count, but at most the cap
abbrev pub capped : ℕ → ℕ → ℕ
capped d count =
    let full = d * 2 ^ count in if leb restart_backoff_max full then restart_backoff_max else full

pow_suc : (n : ℕ) → 2 ^ suc n ≡ 2 * 2 ^ n
pow_suc n = omega arith

pow_pos : (n : ℕ) → 1 ≤ 2 ^ n
pow_pos zero = omega arith
pow_pos (suc n) = omega (arith, pow_suc n, pow_pos n)

scale_le : (a b n : ℕ) → a ≤ b → 1 ≤ n → a ≤ b * n
scale_le a b zero h k = absurd (omega (arith, k))
scale_le a b (suc n) h k = grind arith

double_scale : (d n : ℕ) → d * 2 ^ suc n ≡ d * 2 * 2 ^ n
double_scale d n = grind (arith, pow_suc n)

no_wrap : (d : ℕ) → d ≤ restart_backoff_max → d * 2 % 2 ^ 64 ≡ d * 2
no_wrap d h = omega (arith, h)

-- From a base that is at most five minutes, the delay before the next restart doubles with every
-- restart so far, up to five minutes; the doubling does not overflow.
pub restart_backoff-capped :
    (base count : ℕ) → base ≤ restart_backoff_max → restart_backoff base count ≡ capped base count
unfolding restart_backoff
restart_backoff-capped base zero h = ground arith
restart_backoff-capped base (suc count) h = elim (Bool-cases (leb restart_backoff_max (base * 2))) [
  | inl reached ↦
      let top : leb restart_backoff_max (base * 2 ^ suc count) ≡ true =
        rw (double_scale base count) (
          le→leb _ _ (
            scale_le restart_backoff_max (base * 2) (2 ^ count) (leb→le _ _ reached)
              (pow_pos count))) in
      rw (no_wrap base h, restart_backoff) (rw (reached, top) refl)
  | inr below ↦
      let less : base * 2 ≤ restart_backoff_max = ground (arith, below) in
      rw (no_wrap base h, restart_backoff)
        (rw below (
          restart_backoff-capped (base * 2) count less
          ∙ ap (λ d. if leb restart_backoff_max d then restart_backoff_max else d)
              (sym (double_scale base count))))
]

-- So the delay is at most five minutes, and does not shrink as restarts accumulate.
pub restart_backoff_bounds :
    (base count : ℕ)
    → base ≤ restart_backoff_max
    → (restart_backoff base count ≤ restart_backoff_max)
      × (restart_backoff base count ≤ restart_backoff base (suc count))
restart_backoff_bounds base count h = rw (restart_backoff-capped base count h) (
    rw (restart_backoff-capped base (suc count) h) (
      ground arith,
      ground (arith, double_scale base count, scale_le (base * 2 ^ count) (base * 2 ^ count) 2),
    ))
