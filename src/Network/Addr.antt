-- ===== src/Network/Addr.antt =====
-- What pkg/network/ipam.go uses of Go's package net. A net.IP is its 4 or 16 bytes, read as a
-- number. The canonical text of an address (IP.String, equal for an IPv4 address and its
-- IPv4-mapped form) is represented by the 16-byte number that it parses to; a text that
-- net.ParseIP rejects is `none`.
use macvz.Prelude.{
  nat_beq, if◌then◌else◌, text_key, number_key, ℕ, ◌+◌, ◌-◌, ◌*◌, ◌/◌, ◌%◌, ◌^◌, Bool, false,
  Option, none, some,
}

pub data Ip : Type 0 where
  v4 v6 : ℕ → Ip

abbrev pub IpText : Type 0
IpText = ℕ

-- IP.To4
unfoldable pub to4 : Ip → Option ℕ
to4 (v4 n) = some n
to4 (v6 n) = if nat_beq (n / 2 ^ 32) 0xffff then some (n % 2 ^ 32) else none

-- IP.String
unfoldable pub ip_text : Ip → IpText
ip_text (v4 n) = 0xffff * 2 ^ 32 + n
ip_text (v6 n) = n

-- net.ParseIP: a 16-byte address.
unfoldable pub parse_ip : Option IpText → Option Ip
parse_ip none = none
parse_ip (some n) = some (v6 n)

-- IPNet: the masked address, the length of the mask in bits, and its leading ones.
pub record IpNet : Type 0 where
  pub ip : Ip
  pub bits : ℕ
  pub ones : ℕ

-- The text of a CIDR that net.ParseCIDR accepts: the 16-byte address, and the mask.
pub record Cidr : Type 0 where
  pub addr : ℕ
  pub bits : ℕ
  pub ones : ℕ

-- IP.Mask with CIDRMask(ones, bits)
abbrev pub mask_off : ℕ → ℕ → ℕ
mask_off host n = n / 2 ^ host * 2 ^ host

unfoldable pub masked : Cidr → Ip
masked c =
    if nat_beq c.bits 32
    then v4 (mask_off (32 - c.ones) (c.addr % 2 ^ 32))
    else v6 (mask_off (128 - c.ones) c.addr)

-- net.ParseCIDR: the address as written, and the network.
unfoldable pub parse_cidr : Cidr → IpNet
unfolding masked
parse_cidr c = record { ip = masked c; bits = c.bits; ones = c.ones }

-- The length that Contains compares at: 4 bytes where To4 answers.
unfoldable pub narrow : Ip → Ip
unfolding to4
narrow ip = elim (to4 ip) [ none ↦ ip | some n ↦ v4 n ]

-- The leading ones of networkNumberAndMask's mask for a 4-byte address: m[12:] of a long mask.
abbrev pub ones4 : IpNet → ℕ
ones4 net = if nat_beq net.bits 32 then net.ones else net.ones - 96

abbrev pub same_prefix : ℕ → ℕ → ℕ → Bool
same_prefix host a b = nat_beq (a / 2 ^ host) (b / 2 ^ host)

-- the byte loop of Contains, on addresses of equal length
unfoldable pub same_network : IpNet → Ip → Ip → Bool
same_network net (v4 n) (v4 m) = same_prefix (32 - ones4 net) n m
same_network net (v6 n) (v6 m) =
    if nat_beq net.bits 32 then false else same_prefix (128 - net.ones) n m
same_network net _ _ = false

-- IPNet.Contains
unfoldable pub contains_ip : IpNet → Ip → Bool
unfolding narrow same_network
contains_ip net ip = same_network net (narrow net.ip) (narrow ip)
