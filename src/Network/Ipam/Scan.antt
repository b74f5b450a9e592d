-- ===== src/Network/Ipam/Scan.antt =====
-- The wrap-around loop of Allocate returns a free usable offset, and visits every usable offset.
use macvz.Prelude.{
  leb, if◌then◌else◌, Bool-cases, text_key, number_key, ℕ, zero, suc, ◌+◌, ◌-◌, ◌≤◌, ◌<◌, ◌≡◌, ◌≢◌,
  inl, inr, true, false, none, some, arith, ℕ_discrete,
}
use macvz.Network.Ipam.{PodIpam, taken, wrap, scan}

-- What a hit of the loop is.
abbrev pub IsFree : PodIpam → ℕ → Type 0
IsFree a off = (a.first ≤ off) × (off ≤ a.last) × (taken a off ≡ false)

module _ (a : PodIpam) where
  wrap_range :
      (off : ℕ) → a.first ≤ a.last → a.first ≤ off → (a.first ≤ wrap a off) × (wrap a off ≤ a.last)
  wrap_range off h p = ground arith

  pub scan-IsFree :
      (rounds off : ℕ) {x : ℕ}
      → a.first ≤ a.last
      → a.first ≤ off
      → scan a rounds off ≡ some x
      → IsFree a x
  unfolding scan
  scan-IsFree zero off h p e = absurd (cc)
  scan-IsFree (suc r) off {x} h p e = elim (Bool-cases (taken a (wrap a off))) [
    | inl t ↦ scan-IsFree r (wrap a off + 1) h (omega (arith, wrap_range off h p)) (rw t at e)
    | inr f ↦
        let e' : some (wrap a off) ≡ some x = rw f at e in ground (arith, wrap_range off h p, e', f)
  ]

  -- The round at which the loop that starts at `off` visits `x`.
  abbrev round_of : ℕ → ℕ → ℕ
  round_of off x = if leb off x then x - off else a.last + 1 - off + (x - a.first)

  round-step :
      (off x : ℕ)
      → a.first ≤ off
      → off ≤ a.last + 1
      → a.first ≤ x
      → x ≤ a.last
      → x ≢ wrap a off
      → round_of off x ≡ suc (round_of (wrap a off + 1) x)
  round-step off x p q fx lx ne = ground arith

  pub scan-none :
      (rounds off x : ℕ)
      → a.first ≤ off
      → off ≤ a.last + 1
      → a.first ≤ x
      → x ≤ a.last
      → round_of off x < rounds
      → scan a rounds off ≡ none
      → taken a x ≡ true
  unfolding scan
  scan-none zero off x p q fx lx h e = elim h [ ]
  scan-none (suc r) off x p q fx lx h e = elim (Bool-cases (taken a (wrap a off))) [
    | inr f ↦ absurd (ground (arith, f))
    | inl t ↦ elim (ℕ_discrete x (wrap a off)) [
      | yes same ↦ rw same t
      | no ne ↦
          scan-none r (wrap a off + 1) x (ground (arith, p, q)) (ground (arith, p, q)) fx lx
            (omega (arith, round-step off x p q fx lx ne)) (rw t at e)
    ]
  ]

  -- A full turn misses no usable offset.
  pub scan_complete :
      (off x : ℕ)
      → a.first ≤ off
      → off ≤ a.last + 1
      → a.first ≤ x
      → x ≤ a.last
      → scan a (a.last - a.first + 1) off ≡ none
      → taken a x ≡ true
  scan_complete off x p q fx lx e =
      scan-none (a.last - a.first + 1) off x p q fx lx (ground arith) e
