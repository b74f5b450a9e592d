-- ===== src/Network/Ipam/Usable.antt =====
-- The usable range as Reserve tests it, and as Allocate counts it.
use macvz.Prelude.{
  text_key, number_key, ℕ, ◌+◌, ◌-◌, ◌*◌, ◌/◌, ◌^◌, ◌≤◌, ◌<◌, ◌≡◌, ◌⊎◌, inl, inr, true, none, some,
  arith,
}
use macvz.Network.Addr.{v4, v6, IpText, to4}
use macvz.Network.Ipam.{PodIpam, ip_to_big, canon_ip, offset_ip, usable}
use macvz.Network.Ipam.Invariant.{InRange}
use native.Mathlib.Nat.{add-zero}

-- The address arithmetic of an IPv4 network.
pub record IsV4 (a : PodIpam) : Type 0 where
  pub bytes : a.bytes ≡ 4
  pub bits : a.ipnet.bits ≡ 32
  pub ip : a.ipnet.ip ≡ v4 a.base

-- The same of an IPv6 network outside the IPv4-mapped block.
pub record IsV6 (a : PodIpam) : Type 0 where
  pub bytes : a.bytes ≡ 16
  pub bits : a.ipnet.bits ≡ 128
  pub ip : a.ipnet.ip ≡ v6 a.base
  pub plain : to4 (v6 a.base) ≡ none

abbrev pub HasWidth : PodIpam → Type 0
HasWidth a = (0 < a.first) × (IsV4 a ⊎ IsV6 a)

module _ (a : PodIpam) (n : ℕ) (n128 : n < 2 ^ 128) {c : IpText} (f : 0 < a.first)
    (canon : canon_ip (v6 n) a.bytes ≡ some c) (u : usable a (v6 n) ≡ true) where
  usable-InRange_v4 : IsV4 a → InRange a c
  unfolding canon_ip usable offset_ip
  usable-InRange_v4 w = (ip_to_big (v6 n) - a.base, ground arith, ground arith, ground arith)

  usable-InRange_v6 : IsV6 a → InRange a c
  unfolding canon_ip usable offset_ip
  usable-InRange_v6 w = (ip_to_big (v6 n) - a.base, ground arith, ground arith, ground arith)

pub usable-InRange :
    (a : PodIpam) (n : ℕ) {c : IpText}
    → HasWidth a
    → n < 2 ^ 128
    → canon_ip (v6 n) a.bytes ≡ some c
    → usable a (v6 n) ≡ true
    → InRange a c
usable-InRange a n (f, inl w) n128 canon u = usable-InRange_v4 a n n128 f canon u w
usable-InRange a n (f, inr w) n128 canon u = usable-InRange_v6 a n n128 f canon u w

-- An aligned network with room for its range, none of it IPv4-mapped at 16 bytes.
pub record IsNetwork (a : PodIpam) (host q : ℕ) : Type 0 where
  pub first : 0 < a.first
  pub aligned : a.base ≡ q * 2 ^ host
  pub room : a.last < 2 ^ host
  pub shape :
      IsV4 a × (host ≡ 32 - a.ipnet.ones) × (a.base + a.last < 2 ^ 32)
      ⊎ IsV6 a
        × (host ≡ 128 - a.ipnet.ones)
        × (a.base + a.last < 2 ^ 128)
        × ((off : ℕ) → off ≤ a.last → to4 (v6 (a.base + off)) ≡ none)

div_block : (q s off : ℕ) → off < s → (q * s + off) / s ≡ q
div_block q s off h = grind arith

canon_v4 :
    (a : PodIpam) (m : ℕ)
    → a.bytes ≡ 4
    → m < 2 ^ 32
    → canon_ip (v6 (0xffff * 2 ^ 32 + m)) a.bytes ≡ some (0xffff * 2 ^ 32 + m)
unfolding canon_ip
canon_v4 a m w h = ground arith

canon_v6 : (a : PodIpam) (n : ℕ) → a.bytes ≡ 16 → canon_ip (v6 n) a.bytes ≡ some n
unfolding canon_ip
canon_v6 a n w = ground arith

usable_v4 :
    (a : PodIpam) (host q off : ℕ)
    → IsV4 a
    → host ≡ 32 - a.ipnet.ones
    → a.first ≤ off
    → off ≤ a.last
    → a.base + a.last < 2 ^ 32
    → (a.base + off) / 2 ^ host ≡ q
    → a.base / 2 ^ host ≡ q
    → usable a (v6 (0xffff * 2 ^ 32 + (a.base + off))) ≡ true
unfolding usable
usable_v4 a host q off w e f l r p p' = ground (arith, p, p', e)

usable_v6 :
    (a : PodIpam) (host q off : ℕ)
    → IsV6 a
    → host ≡ 128 - a.ipnet.ones
    → a.first ≤ off
    → off ≤ a.last
    → a.base + a.last < 2 ^ 128
    → to4 (v6 (a.base + off)) ≡ none
    → (a.base + off) / 2 ^ host ≡ q
    → a.base / 2 ^ host ≡ q
    → usable a (v6 (a.base + off)) ≡ true
unfolding usable
usable_v6 a host q off w e f l r n p p' = ground (arith, p, p', e)

-- The text of a usable offset is one that Reserve reads back and accepts.
abbrev pub IsReservable : PodIpam → IpText → Type 0
IsReservable a ip = (canon_ip (v6 ip) a.bytes ≡ some ip) × (usable a (v6 ip) ≡ true)

module _ (a : PodIpam) (host q off : ℕ) (net : IsNetwork a host q) (low : a.first ≤ off)
    (high : off ≤ a.last) where
  same_block : ((a.base + off) / 2 ^ host ≡ q) × (a.base / 2 ^ host ≡ q)
  same_block =
      let here = div_block q (2 ^ host) off (omega (arith, net.room)) in
      let start = div_block q (2 ^ host) 0 (omega (arith, net.room)) in
      (rw net.aligned here, rw net.aligned (rw add-zero at start))

  pub offset-IsReservable : IsReservable a (offset_ip a off)
  unfolding offset_ip
  offset-IsReservable = elim net.shape [
    | inl (w, h, r) ↦
        let e : offset_ip a off ≡ 0xffff * 2 ^ 32 + (a.base + off) = ground (arith, w.bytes) in
        rw (e, offset_ip)
          (
            canon_v4 a (a.base + off) w.bytes (omega arith),
            usable_v4 a host q off w h low high r same_block.0 same_block.1,
          )
    | inr (w, h, r, plain) ↦
        let e : offset_ip a off ≡ a.base + off = ground (arith, w.bytes) in
        rw (e, offset_ip)
          (
            canon_v6 a (a.base + off) w.bytes,
            usable_v6 a host q off w h low high r (plain off high) same_block.0 same_block.1,
          )
  ]
