-- ===== src/Network/Ipam/Start.antt =====
-- The allocator that NewPodIPAM builds from a node's Pod CIDR, and what every later state has.
use macvz.Prelude.{
  nat_beq, nat_beq_iff, text_key, number_key, ℕ, zero, suc, ◌+◌, ◌-◌, ◌*◌, ◌/◌, ◌%◌, ◌^◌, ◌≤◌, ◌<◌,
  String, ◌≡◌, refl, ◌⊎◌, inl, inr, Bool, true, ◌&&◌, none, arith, ℕ_discrete,
}
use macvz.Prelude.Dict.{get-empty}
use macvz.Network.Addr.{v6, IpText, to4, Cidr, mask_off, parse_cidr}
use macvz.Network.Ipam.{PodIpam, ip_to_big, new_pod_ipam, ip_of}
use macvz.Network.Ipam.Invariant.{IsValid}
use macvz.Network.Ipam.Usable.{HasWidth, IsNetwork}
use macvz.Network.Ipam.Recover.{HeldBy}
use native.Mathlib.Nat.{add-zero, div-mul-le_self, pow-suc}

-- A CIDR that net.ParseCIDR reads from a dotted quad.
pub record IsCidr4 (c : Cidr) : Type 0 where
  pub bits : c.bits ≡ 32
  pub mask : c.ones ≤ 32
  pub mapped : c.addr / 2 ^ 32 ≡ 0xffff

-- A CIDR that it reads from IPv6 text, no address of which is IPv4-mapped.
pub record IsCidr6 (c : Cidr) : Type 0 where
  pub bits : c.bits ≡ 128
  pub mask : c.ones ≤ 128
  pub small : c.addr < 2 ^ 128
  pub plain :
      (off : ℕ) → off < 2 ^ (128 - c.ones) → to4 (v6 (mask_off (128 - c.ones) c.addr + off)) ≡ none

abbrev pub IsNodeCidr : Cidr → Type 0
IsNodeCidr c = IsCidr4 c ⊎ IsCidr6 c

-- Every number up to `n` passes the test.
up_to : (ℕ → Bool) → ℕ → Bool
up_to p zero = p zero
up_to p (suc n) = let rest = up_to p n in p (suc n) && rest

up_to-at : (p : ℕ → Bool) (n x : ℕ) → up_to p n ≡ true → x ≤ n → p x ≡ true
unfolding up_to
up_to-at p zero x h l = let e : x ≡ 0 = omega arith in rw e h
up_to-at p (suc n) x h l = elim (ℕ_discrete x (suc n)) [
  | yes e ↦ ground (arith, e, h)
  | no ne ↦ up_to-at p n x (ground (arith, h)) (omega arith)
]

powers : (w : ℕ) → ℕ → Bool
powers w h = nat_beq (2 ^ h * 2 ^ (w - h)) (2 ^ w)

powers_32 : up_to (powers 32) 32 ≡ true
unfolding up_to powers
powers_32 = refl

powers_128 : up_to (powers 128) 128 ≡ true
unfolding up_to powers
powers_128 = refl

split_32 : (h : ℕ) → h ≤ 32 → 2 ^ h * 2 ^ (32 - h) ≡ 2 ^ 32
split_32 h l = (nat_beq_iff _ _).0 (unfold powers in up_to-at (powers 32) 32 h powers_32 l)

split_128 : (h : ℕ) → h ≤ 128 → 2 ^ h * 2 ^ (128 - h) ≡ 2 ^ 128
split_128 h l = (nat_beq_iff _ _).0 (unfold powers in up_to-at (powers 128) 128 h powers_128 l)

lt_of_mul-lt : (q s t : ℕ) → q * s < s * t → q < t
lt_of_mul-lt q s t h = grind arith

next_block : (q s t : ℕ) → q < t → q * s + s ≤ s * t
next_block q s t h = grind arith

-- A block that starts inside the address space ends inside it.
block_end : (x s t w : ℕ) → 0 < s → s * t ≡ w → x < w → x / s * s + s ≤ w
block_end x s t w p e h =
    rw (← e)
      (next_block (x / s) s t (lt_of_mul-lt (x / s) s t (omega (arith, div-mul-le_self x s, e))))

two_pow-pos : (h : ℕ) → 0 < 2 ^ h
two_pow-pos zero = omega arith
two_pow-pos (suc h) = omega (arith, two_pow-pos h, pow-suc 2 h)

module _ (c : Cidr) where
  new_pod_ipam-IsNetwork_v4 :
      IsCidr4 c → IsNetwork (new_pod_ipam c) (32 - c.ones) (c.addr % 2 ^ 32 / 2 ^ (32 - c.ones))
  unfolding new_pod_ipam
  new_pod_ipam-IsNetwork_v4 k =
      let p = two_pow-pos (32 - c.ones) in
      let e =
        block_end (c.addr % 2 ^ 32) (2 ^ (32 - c.ones)) (2 ^ (32 - (32 - c.ones))) (2 ^ 32) p
          (split_32 (32 - c.ones) (omega arith)) (omega arith) in
      record {
        first = omega arith;
        aligned = ground (arith, k.bits);
        room = ground (arith, k.bits, k.mapped, p);
        shape = inl (
          record { bytes = ground (arith, k.bits); bits = k.bits; ip = ground (arith, k.bits) },
          refl,
          ground (arith, k.bits, k.mapped, p, e),
        );
      }

  new_pod_ipam-IsNetwork_v6 :
      IsCidr6 c → IsNetwork (new_pod_ipam c) (128 - c.ones) (c.addr / 2 ^ (128 - c.ones))
  unfolding new_pod_ipam
  new_pod_ipam-IsNetwork_v6 k =
      let p = two_pow-pos (128 - c.ones) in
      let e =
        block_end c.addr (2 ^ (128 - c.ones)) (2 ^ (128 - (128 - c.ones))) (2 ^ 128) p
          (split_128 (128 - c.ones) (omega arith)) k.small in
      let plain : to4 (v6 (mask_off (128 - c.ones) c.addr)) ≡ none = rw add-zero at (k.plain 0 p) in
      let base : ip_to_big (parse_cidr c).ip ≡ mask_off (128 - c.ones) c.addr =
        ground (arith, k.bits, plain) in
      record {
        first = omega arith;
        aligned = base;
        room = ground (arith, k.bits, p);
        shape = inr (
          record {
            bytes = ground (arith, k.bits);
            bits = k.bits;
            ip = ground (arith, k.bits, plain);
            plain = rw base plain;
          },
          refl,
          ground (arith, k.bits, p, e, plain),
          λ off l. rw base (k.plain off (ground (arith, k.bits, p))),
        );
      }

  pub new_pod_ipam-IsValid : IsNodeCidr c → IsValid (new_pod_ipam c)
  unfolding new_pod_ipam
  new_pod_ipam-IsValid k = record {
    forward = λ key ip e. absurd (ground (arith, get-empty {V = IpText} key, e));
    backward = λ ip key e. absurd (ground (arith, get-empty {V = String} ip, e));
    in_range = λ key ip e. absurd (ground (arith, get-empty {V = IpText} key, e));
    cursor_low = omega arith;
    cursor_high = λ h. omega arith;
  }

pub new_pod_ipam-IsNetwork :
    (c : Cidr) → IsNodeCidr c → (host : ℕ) × (q : ℕ) × IsNetwork (new_pod_ipam c) host q
new_pod_ipam-IsNetwork c (inl k) = (_, _, new_pod_ipam-IsNetwork_v4 c k)
new_pod_ipam-IsNetwork c (inr k) = (_, _, new_pod_ipam-IsNetwork_v6 c k)

pub IsNetwork-HasWidth : {a : PodIpam} {host q : ℕ} → IsNetwork a host q → HasWidth a
IsNetwork-HasWidth net = elim net.shape [
  | inl (w, _, _) ↦ (net.first, inl w)
  | inr (w, _, _, _) ↦ (net.first, inr w)
]

-- A new allocator holds nothing.
pub new-HeldBy : (c : Cidr) (a : PodIpam) → HeldBy (new_pod_ipam c) a
unfolding new_pod_ipam ip_of
new-HeldBy c a k ip e = absurd (ground (arith, get-empty {V = IpText} k, e))
