-- ===== src/Network/Ipam.antt =====
-- pkg/network/ipam.go: the allocator of Pod IPs, and the methods that pkg/provider/ipam.go builds
-- on it. The mutex makes each method one step: a method returns the new allocator.
pub mod Scan
pub mod Invariant
pub mod Usable
pub mod Reserve
pub mod Allocate
pub mod Recover
pub mod Run
pub mod Start
pub mod Safety
mod Tests
use macvz.Prelude.{
  ltb, leb, nat_beq, if◌then◌else◌, is_some, text_key, number_key, ◌==◌, ℕ, zero, suc, ◌+◌, ◌-◌,
  ◌/◌, ◌%◌, ◌^◌, String, Bool, false, ◌&&◌, Option, none, some, List, [], ◌∷◌,
}
use macvz.Prelude.Dict.{Dict, empty, get, put, remove}
use macvz.Network.Addr.{
  Ip, v4, v6, IpText, to4, ip_text, parse_ip, IpNet, Cidr, parse_cidr, contains_ip,
}
use macvz.Prelude.Dict

pub data Error : Type 0 where
  exhausted : Error
  invalid_ip : Error
  out_of_range : Error
  held_by : String → Error
  key_holds : IpText → Error

pub data Result : Type 0 where
  ok : IpText → Result
  err : Error → Result

pub record PodIpam : Type 0 where
  pub ipnet : IpNet
  pub bytes : ℕ
  pub base : ℕ
  pub first : ℕ
  pub last : ℕ
  pub by_key : Dict String IpText
  pub by_ip : Dict IpText String
  pub cursor : ℕ

-- ipToBig
unfoldable pub ip_to_big : Ip → ℕ
unfolding to4
ip_to_big (v4 n) = n
ip_to_big (v6 n) = elim (to4 (v6 n)) [ none ↦ n | some m ↦ m ]

-- bigToIP: the low `width` bytes
unfoldable pub big_to_ip : ℕ → ℕ → Ip
big_to_ip n width = if nat_beq width 4 then v4 (n % 2 ^ 32) else v6 (n % 2 ^ 128)

-- canonIP: `none` is the empty text.
unfoldable pub canon_ip : Ip → ℕ → Option IpText
unfolding to4 ip_text
canon_ip ip width =
    if nat_beq width 4
    then elim (to4 ip) [ none ↦ none | some n ↦ some (ip_text (v4 n)) ]
    else some (ip_text ip)

-- NewPodIPAM, of a CIDR that parses. The big.Int size - 2 of a one-address range is -1, and 0
-- here: both are below `first`, which is all that `last` is compared with.
unfoldable pub new_pod_ipam : Cidr → PodIpam
unfolding ip_to_big parse_cidr to4
new_pod_ipam c =
    let net = parse_cidr c in
    let width = c.bits / 8 in
    let is_ipv4 = is_some (to4 (v6 c.addr)) && nat_beq width 4 in
    let size = 2 ^ (c.bits - c.ones) in
    record {
      ipnet = net;
      bytes = width;
      base = ip_to_big net.ip;
      first = 2;
      last = if is_ipv4 then size - 1 - 1 else size - 1;
      by_key = Dict.empty;
      by_ip = Dict.empty;
      cursor = 2;
    }

-- offsetIP
unfoldable pub offset_ip : PodIpam → ℕ → IpText
unfolding big_to_ip ip_text
offset_ip a off = ip_text (big_to_ip (a.base + off) a.bytes)

-- usable: a big.Int difference below 0 is 0 here, and both are below `first`.
unfoldable pub usable : PodIpam → Ip → Bool
unfolding contains_ip ip_to_big
usable a ip =
    if contains_ip a.ipnet ip
    then leb a.first (ip_to_big ip - a.base) && leb (ip_to_big ip - a.base) a.last
    else false

-- `_, taken := a.byIP[ip]`
unfoldable pub taken : PodIpam → ℕ → Bool
taken a off = is_some (Dict.get a.by_ip (offset_ip a off))

-- `if off > last { off = first }`
abbrev pub wrap : PodIpam → ℕ → ℕ
wrap a off = if ltb a.last off then a.first else off

-- The loop of Allocate, on the rounds left: the first free offset from `off` on.
unfoldable pub scan : PodIpam → ℕ → ℕ → Option ℕ
scan a zero off = none
scan a (suc rounds) off =
    let rest = scan a rounds (wrap a off + 1) in
    if taken a (wrap a off) then rest else some (wrap a off)

-- the assignments under `!taken`
unfoldable pub take_offset : PodIpam → String → ℕ → PodIpam
take_offset a key off = record a {
  by_key = Dict.put a.by_key key (offset_ip a off);
  by_ip = Dict.put a.by_ip (offset_ip a off) key;
  cursor = off + 1;
}

unfoldable pub allocate_fresh : PodIpam → String → PodIpam × Result
unfolding take_offset
allocate_fresh a key =
    if ltb a.last a.first
    then (a, err exhausted)
    else elim (scan a (a.last - a.first + 1) a.cursor) [
      | none ↦ (a, err exhausted)
      | some off ↦ (take_offset a key off, ok (offset_ip a off))
    ]

-- Allocate
unfoldable pub allocate : PodIpam → String → PodIpam × Result
unfolding allocate_fresh
allocate a key = elim (Dict.get a.by_key key) [ some ip ↦ (a, ok ip) | none ↦ allocate_fresh a key ]

-- The part of Reserve under the lock.
unfoldable pub bind_ip : PodIpam → String → IpText → PodIpam × Option Error
bind_ip a key canon = elim (Dict.get a.by_ip canon) [
  | some owner ↦ (a, if owner == key then none else some (held_by owner))
  | none ↦
      let bound = record a {
        by_key = Dict.put a.by_key key canon;
        by_ip = Dict.put a.by_ip canon key;
      } in
      elim (Dict.get a.by_key key) [
        | none ↦ (bound, none)
        | some existing ↦
            if existing == canon then (bound, none) else (a, some (key_holds existing))
      ]
]

-- Reserve; `none` is the nil error.
unfoldable pub reserve : PodIpam → String → Option IpText → PodIpam × Option Error
unfolding parse_ip
reserve a key ip = elim (parse_ip ip) [
  | none ↦ (a, some invalid_ip)
  | some parsed ↦ elim (canon_ip parsed a.bytes) [
    | none ↦ (a, some out_of_range)
    | some canon ↦ if usable a parsed then bind_ip a key canon else (a, some out_of_range)
  ]
]

-- Release
unfoldable pub release : PodIpam → String → PodIpam
release a key = elim (Dict.get a.by_key key) [
  | none ↦ a
  | some ip ↦ record a { by_key = Dict.remove a.by_key key; by_ip = Dict.remove a.by_ip ip }
]

-- IP: `none` is the empty text.
unfoldable pub ip_of : PodIpam → String → Option IpText
ip_of a key = Dict.get a.by_key key

-- RecoverAllocations of pkg/provider/ipam.go: a Pod with no IP is passed over, and so is one whose
-- reservation fails.
unfoldable pub recover_allocations : PodIpam → List (String × Option (Option IpText)) → PodIpam
recover_allocations a [] = a
recover_allocations a ((key, none) ∷ pods) = recover_allocations a pods
recover_allocations a ((key, some ip) ∷ pods) = recover_allocations (reserve a key ip).0 pods
