-- ===== src/Network/Ipam/Allocate.antt =====
-- Allocate: idempotence, freshness, and exhaustion only of a full range.
use macvz.Network.Ipam.Scan.{IsFree, scan-IsFree, scan_complete}
use macvz.Network.Ipam.Invariant.{IsValid}
use macvz.Prelude.{
  ltb, Bool-cases, Option-cases, text_key, number_key, ℕ, ◌+◌, ◌-◌, ◌≤◌, String, ◌≡◌, ap, ◌≢◌, ◌↔◌,
  inl, inr, true, false, none, some, arith, eq_iff,
}
use macvz.Prelude.Dict.{get-put, get-put_self}
use macvz.Network.Addr.{IpText}
use macvz.Network.Ipam.{
  exhausted, Result, ok, err, PodIpam, offset_ip, taken, scan, take_offset, allocate, ip_of,
}

allocate_known :
    (a : PodIpam) (key : String) {ip : IpText} → ip_of a key ≡ some ip → allocate a key ≡ (a, ok ip)
unfolding allocate ip_of
allocate_known a key e = ground arith

-- Every usable address is taken.
abbrev pub IsFull : PodIpam → Type 0
IsFull a = (off : ℕ) → a.first ≤ off → off ≤ a.last → taken a off ≡ true

-- The three outcomes of Allocate, with the state and the result of each.
pub data Outcome (a : PodIpam) (key : String) : Type 0 where
  known : (ip : IpText) → ip_of a key ≡ some ip → allocate a key ≡ (a, ok ip) → Outcome a key
  full : ip_of a key ≡ none → IsFull a → allocate a key ≡ (a, err exhausted) → Outcome a key
  fresh :
      (off : ℕ)
      → ip_of a key ≡ none
      → IsFree a off
      → allocate a key ≡ (take_offset a key off, ok (offset_ip a off))
      → Outcome a key

module _ (a : PodIpam) (key : String) (e : ip_of a key ≡ none) where
  allocate_empty : ltb a.last a.first ≡ true → allocate a key ≡ (a, err exhausted)
  unfolding allocate ip_of
  allocate_empty t = ground (arith, e)

  allocate-none :
      ltb a.last a.first ≡ false
      → scan a (a.last - a.first + 1) a.cursor ≡ none
      → allocate a key ≡ (a, err exhausted)
  unfolding allocate ip_of
  allocate-none f s = ground (arith, e, f, s)

  allocate-some :
      (off : ℕ)
      → ltb a.last a.first ≡ false
      → scan a (a.last - a.first + 1) a.cursor ≡ some off
      → allocate a key ≡ (take_offset a key off, ok (offset_ip a off))
  unfolding allocate ip_of
  allocate-some off f s = ground (arith, e, f, s)

-- Allocate returns the address that the key holds; or it has no address left and changes nothing;
-- or it takes a free one.
pub allocate-Outcome : (a : PodIpam) (key : String) → IsValid a → Outcome a key
allocate-Outcome a key v = elim (Option-cases (ip_of a key)) [
  | inr (ip, e) ↦ known ip e (allocate_known a key e)
  | inl e ↦ elim (Bool-cases (ltb a.last a.first)) [
    | inl t ↦ full e (λ off l h. absurd (ground arith)) (allocate_empty a key e t)
    | inr f ↦ elim (Option-cases (scan a (a.last - a.first + 1) a.cursor)) [
      | inl s ↦
          full e
            (λ off l h.
              scan_complete a a.cursor off v.cursor_low (v.cursor_high (ground arith)) l h s)
            (allocate-none a key e f s)
      | inr (off, s) ↦
          fresh off e (scan-IsFree a _ a.cursor (ground arith) v.cursor_low s)
            (allocate-some a key e off f s)
    ]
  ]
]

take_offset-holds :
    (a : PodIpam) (key : String) (off : ℕ)
    → ip_of (take_offset a key off) key ≡ some (offset_ip a off)
unfolding take_offset ip_of
take_offset-holds a key off = get-put_self a.by_key key (offset_ip a off)

pub allocate-holds :
    (a : PodIpam) (key : String) {ip : IpText}
    → IsValid a
    → (allocate a key).1 ≡ ok ip
    → ip_of (allocate a key).0 key ≡ some ip
allocate-holds a key {ip} v e = elim (allocate-Outcome a key v) [
  | known j h p ↦ rw p (ground (arith, h, e, p))
  | full h f p ↦ absurd (ground (arith, e, p))
  | fresh off h f p ↦ rw p (ground (arith, take_offset-holds a key off, e, p))
]

-- Allocating a key again returns the same address and changes nothing.
pub allocate_idempotent :
    (a : PodIpam) (key : String) {ip : IpText}
    → IsValid a
    → (allocate a key).1 ≡ ok ip
    → allocate (allocate a key).0 key ≡ ((allocate a key).0, ok ip)
allocate_idempotent a key v e = allocate_known (allocate a key).0 key (allocate-holds a key v e)

-- Allocate reports exhaustion exactly if the key is new and every usable address is taken.
pub allocate-exhausted_iff :
    (a : PodIpam) (key : String)
    → IsValid a
    → ((allocate a key).1 ≡ err exhausted) ↔ ((ip_of a key ≡ none) × IsFull a)
allocate-exhausted_iff a key v = elim (allocate-Outcome a key v) [
  | known j h p ↦ (λ e. absurd (ground (arith, e, p)), λ r. absurd (ground (arith, r.0, h)))
  | full h f p ↦ (λ e. (h, f), λ r. ap (λ (x : PodIpam × Result). x.1) p)
  | fresh off h f p ↦
      (λ e. absurd (ground (arith, e, p)), λ r. absurd (ground (arith, r.1 off f.0 f.1, f.2)))
]

take_offset-others :
    (a : PodIpam) (key : String) (off : ℕ) (j : String)
    → key ≢ j
    → ip_of (take_offset a key off) j ≡ ip_of a j
unfolding take_offset ip_of
take_offset-others a key off j ne =
    ground (arith, get-put a.by_key key j (offset_ip a off), eq_iff key j)

-- The addresses of the other keys stay.
pub allocate-others :
    (a : PodIpam) (key j : String) → IsValid a → key ≢ j → ip_of (allocate a key).0 j ≡ ip_of a j
allocate-others a key j v ne = elim (allocate-Outcome a key v) [
  | known i h p ↦ rw p
  | full h f p ↦ rw p
  | fresh off h f p ↦ rw p (take_offset-others a key off j ne)
]
