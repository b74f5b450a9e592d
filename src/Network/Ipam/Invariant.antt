-- ===== src/Network/Ipam/Invariant.antt =====
-- The allocator's invariant, and that every operation keeps it.
use macvz.Prelude.{
  ltb, nat_beq_iff, Bool-cases, Option-cases, some_inj, text_key, number_key, ◌==◌, ℕ, ◌+◌, ◌-◌,
  ◌≤◌, String, ◌≡◌, refl, inl, inr, false, none, some, arith, eq_iff,
}
use macvz.Prelude.Dict.{Dict, get, put, remove, get-put, get-remove}
use macvz.Network.Ipam.Scan.{IsFree, scan-IsFree}
use macvz.Network.Addr.{IpText}
use macvz.Network.Ipam.{
  PodIpam, offset_ip, taken, scan, take_offset, allocate_fresh, allocate, release,
}
use mathlib.Core.Path.{subst}
use macvz.Prelude.Dict

-- An address that the allocator may hand out: one of a usable offset.
abbrev pub InRange : PodIpam → IpText → Type 0
InRange a ip = (off : ℕ) × (a.first ≤ off) × (off ≤ a.last) × (ip ≡ offset_ip a off)

pub record IsValid (a : PodIpam) : Type 0 where
  pub forward :
      (k : String) (ip : IpText) → Dict.get a.by_key k ≡ some ip → Dict.get a.by_ip ip ≡ some k
  pub backward :
      (ip : IpText) (k : String) → Dict.get a.by_ip ip ≡ some k → Dict.get a.by_key k ≡ some ip
  pub in_range : (k : String) (ip : IpText) → Dict.get a.by_key k ≡ some ip → InRange a ip
  pub cursor_low : a.first ≤ a.cursor
  pub cursor_high : a.first ≤ a.last → a.cursor ≤ a.last + 1

-- Adding a pair of which neither part is in use.
module _ (a : PodIpam) (key : String) (ip : IpText) (v : IsValid a)
    (new_key : Dict.get a.by_key key ≡ none) (new_ip : Dict.get a.by_ip ip ≡ none) where
  put-forward :
      (k : String) (j : IpText)
      → Dict.get (Dict.put a.by_key key ip) k ≡ some j
      → Dict.get (Dict.put a.by_ip ip key) j ≡ some k
  put-forward k j e = ground (
    arith,
    get-put a.by_key key k ip,
    get-put a.by_ip ip j key,
    v.forward k j,
    eq_iff key k,
    nat_beq_iff ip j,
  )

  put-backward :
      (j : IpText) (k : String)
      → Dict.get (Dict.put a.by_ip ip key) j ≡ some k
      → Dict.get (Dict.put a.by_key key ip) k ≡ some j
  put-backward j k e = ground (
    arith,
    get-put a.by_key key k ip,
    get-put a.by_ip ip j key,
    v.backward j k,
    eq_iff key k,
    nat_beq_iff ip j,
  )

  put-InRange :
      InRange a ip
      → (k : String) (j : IpText) → Dict.get (Dict.put a.by_key key ip) k ≡ some j
      → InRange a j
  put-InRange here k j e = elim (Bool-cases (key == k)) [
    | inl same ↦
        let p : some ip ≡ some j = rw (get-put, same) at e in subst (InRange a) (some_inj p) here
    | inr other ↦ v.in_range k j (rw (get-put, other) at e)
  ]

  pub bound-IsValid :
      (next : ℕ)
      → InRange a ip
      → a.first ≤ next
      → (a.first ≤ a.last → next ≤ a.last + 1)
      → IsValid (record a {
        by_key = Dict.put a.by_key key ip;
        by_ip = Dict.put a.by_ip ip key;
        cursor = next;
      })
  unfolding offset_ip
  bound-IsValid next here low high = record {
    forward = put-forward;
    backward = put-backward;
    in_range = put-InRange here;
    cursor_low = low;
    cursor_high = high;
  }

-- Taking a pair out.
module _ (a : PodIpam) (key : String) (ip : IpText) (v : IsValid a)
    (held : Dict.get a.by_key key ≡ some ip) where
  remove-forward :
      (k : String) (j : IpText)
      → Dict.get (Dict.remove a.by_key key) k ≡ some j
      → Dict.get (Dict.remove a.by_ip ip) j ≡ some k
  remove-forward k j e = ground (
    arith,
    get-remove a.by_key key k,
    get-remove a.by_ip ip j,
    v.forward k j,
    v.forward key ip,
    eq_iff key k,
    nat_beq_iff ip j,
  )

  remove-backward :
      (j : IpText) (k : String)
      → Dict.get (Dict.remove a.by_ip ip) j ≡ some k
      → Dict.get (Dict.remove a.by_key key) k ≡ some j
  remove-backward j k e = ground (
    arith,
    get-remove a.by_key key k,
    get-remove a.by_ip ip j,
    v.backward j k,
    v.forward key ip,
    eq_iff key k,
    nat_beq_iff ip j,
  )

  remove-InRange :
      (k : String) (j : IpText) → Dict.get (Dict.remove a.by_key key) k ≡ some j → InRange a j
  remove-InRange k j e = v.in_range k j (ground (arith, get-remove a.by_key key k))

  pub removed-IsValid :
      IsValid (record a { by_key = Dict.remove a.by_key key; by_ip = Dict.remove a.by_ip ip })
  unfolding offset_ip
  removed-IsValid = record {
    forward = remove-forward;
    backward = remove-backward;
    in_range = remove-InRange;
    cursor_low = v.cursor_low;
    cursor_high = v.cursor_high;
  }

pub not_taken :
    (a : PodIpam) (off : ℕ) → taken a off ≡ false → Dict.get a.by_ip (offset_ip a off) ≡ none
unfolding taken
not_taken a off h = ground arith

-- Release keeps the invariant.
pub release-IsValid : (a : PodIpam) (key : String) → IsValid a → IsValid (release a key)
unfolding release
release-IsValid a key v = elim (Option-cases (Dict.get a.by_key key)) [
  | inl e ↦ rw (e, release) v
  | inr (ip, e) ↦ rw (e, release) (removed-IsValid a key ip v e)
]

take_offset-IsValid :
    (a : PodIpam) (key : String) (off : ℕ)
    → IsValid a
    → Dict.get a.by_key key ≡ none
    → IsFree a off
    → IsValid (take_offset a key off)
unfolding take_offset
take_offset-IsValid a key off v e free =
    bound-IsValid a key (offset_ip a off) v e (not_taken a off free.2) (off + 1)
      (off, free.0, free.1, refl) (omega arith) (λ h. omega arith)

-- Allocate keeps the invariant, whether it succeeds or not.
pub allocate-IsValid : (a : PodIpam) (key : String) → IsValid a → IsValid (allocate a key).0
unfolding allocate
allocate-IsValid a key v = elim (Option-cases (Dict.get a.by_key key)) [
  | inr (ip, e) ↦ rw (e, allocate) v
  | inl e ↦
      rw (e, allocate)
        (elim (Bool-cases (ltb a.last a.first)) [
          | inl t ↦ rw (t, allocate_fresh) v
          | inr f ↦
              rw (f, allocate_fresh)
                (elim (Option-cases (scan a (a.last - a.first + 1) a.cursor)) [
                  | inl s ↦ rw (s, allocate_fresh) v
                  | inr (off, s) ↦
                      rw (s, allocate_fresh)
                        (take_offset-IsValid a key off v e
                          (scan-IsFree a _ a.cursor (ground arith) v.cursor_low s))
                ])
        ])
]
