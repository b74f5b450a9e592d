-- ===== src/Network/Parse.antt =====
-- net.ParseIP and net.ParseCIDR on texts, as the standard library reads them, and the canonical
-- form of a CIDR.
use macvz.Prelude.{
  ltb, leb, nat_beq, if◌then◌else◌, is_some, is_none, length, is_empty, take, drop, Text, codes_key,
  Key, text_key, number_key, ℕ, zero, suc, ◌+◌, ◌-◌, ◌*◌, ◌/◌, ◌%◌, ◌^◌, ◌≡◌, ◌↔◌, Bool, true, not,
  ◌&&◌, ◌||◌, Option, none, some, List, [], ◌∷◌, arith,
}
use macvz.Prelude.Strings.{split, cut, is_digit, decimal}
use macvz.Network.Addr.{Ip, v6, IpText, to4, ip_text, IpNet, parse_cidr, ones4}

-- An octet: up to 255, without a leading zero.
unfoldable pub parse_octet : Text → Option ℕ
parse_octet [] = none
parse_octet (c ∷ s) =
    if nat_beq c b'0' && not (is_empty s)
    then none
    else elim (decimal (c ∷ s)) [ none ↦ none | some n ↦ if leb n 255 then some n else none ]

unfoldable pub parse_octets : List Text → Option ℕ
unfolding parse_octet
parse_octets (a ∷ b ∷ c ∷ d ∷ []) = elim (parse_octet a) [
  | none ↦ none
  | some na ↦ elim (parse_octet b) [
    | none ↦ none
    | some nb ↦ elim (parse_octet c) [
      | none ↦ none
      | some nc ↦ elim (parse_octet d) [
        | none ↦ none
        | some nd ↦ some (((na * 256 + nb) * 256 + nc) * 256 + nd)
      ]
    ]
  ]
]
parse_octets _ = none

-- parseIPv4
abbrev pub parse_ipv4 : Text → Option ℕ
parse_ipv4 s = parse_octets (split b'.' s)

abbrev pub hex_value : ℕ → Option ℕ
hex_value c =
    if is_digit c
    then some (c - b'0')
    else if leb b'a' c && leb c b'f'
    then some (c - b'a' + 10)
    else if leb b'A' c && leb c b'F'
    then some (c - b'A' + 10)
    else none

-- The digits of one group, at most four: its value, and how many there are, with the rest.
unfoldable pub parse_group : ℕ → ℕ → Text → Option (ℕ × ℕ × Text)
parse_group acc off [] = some (acc, off, [])
parse_group acc off (c ∷ s) = elim (hex_value c) [
  | none ↦ some (acc, off, c ∷ s)
  | some v ↦ let rest = parse_group (acc * 16 + v) (off + 1) s in if ltb 3 off then none else rest
]

-- The groups read so far, the latest first, and where the ellipsis is, by the groups before it.
abbrev pub Groups : Type 0
Groups = List ℕ × Option ℕ

-- parseIPv6's loop, on fuel for its 8 groups; it ends with the text that is left.
unfoldable pub parse_groups : ℕ → Groups → Text → Option (Groups × Text)
unfolding parse_group
parse_groups zero gs s = some (gs, s)
parse_groups (suc fuel) (gs, ellipsis) s = elim (parse_group 0 0 s) [
  | none ↦ none
  | some (acc, off, t) ↦
      let after : Text → Option (Groups × Text) = λ u. parse_groups fuel (acc ∷ gs, ellipsis) u in
      let closed : Text → Option (Groups × Text) =
        λ u. parse_groups fuel (acc ∷ gs, some (length gs + 1)) u in
      if nat_beq off 0 then none else elim t [
        | [] ↦ some ((acc ∷ gs, ellipsis), [])
        | d ∷ u ↦
            if nat_beq d b'.'
            then if is_none ellipsis && not (nat_beq (length gs) 6)
              then none
              else if ltb 6 (length gs)
              then none
              else elim (parse_ipv4 s) [
                | none ↦ none
                | some n ↦ some ((n % 2 ^ 16 ∷ n / 2 ^ 16 ∷ gs, ellipsis), [])
              ]
            else if not (nat_beq d b':')
            then none
            else elim u [
              | [] ↦ none
              | e ∷ v ↦
                  if nat_beq e b':'
                  then if is_some ellipsis
                    then none
                    else if is_empty v
                    then some ((acc ∷ gs, some (length gs + 1)), [])
                    else closed v
                  else after (e ∷ v)
            ]
      ]
]

-- The groups as one number, the first group highest.
unfoldable pub group_number : List ℕ → ℕ
group_number [] = 0
group_number (g ∷ gs) = group_number gs * 2 ^ 16 + g

-- The end of parseIPv6: a full address has no ellipsis, a shorter one expands it.
abbrev pub expand_groups : Groups → Option ℕ
expand_groups (gs, none) = if nat_beq (length gs) 8 then some (group_number gs) else none
expand_groups (gs, some before) =
    if ltb (length gs) 8
    then some (
        group_number (drop (length gs - before) gs) * 2 ^ (16 * (8 - before))
        + group_number (take (length gs - before) gs))
    else none

-- A leading ellipsis.
abbrev pub leading_groups : Text → Groups × Text
leading_groups (c ∷ d ∷ t) =
    if nat_beq c b':' && nat_beq d b':' then (([], some 0), t) else (([], none), c ∷ d ∷ t)
leading_groups s = (([], none), s)

unfoldable pub parse_ipv6 : Text → Option ℕ
unfolding parse_groups group_number
parse_ipv6 s =
    let (gs, t) = leading_groups s in
    if is_some gs.1 && is_empty t then some 0 else elim (parse_groups 8 gs t) [
      | none ↦ none
      | some (hs, rest) ↦ if is_empty rest then expand_groups hs else none
    ]

-- Which of '.', ':' and '%' comes first.
unfoldable pub first_mark : Text → Option ℕ
first_mark [] = none
first_mark (c ∷ s) =
    let rest = first_mark s in
    if nat_beq c b'.' || nat_beq c b':' || nat_beq c b'%' then some c else rest

-- netip.ParseAddr without a zone: the address, and its length in bits
unfoldable pub parse_addr : Text → Option (ℕ × ℕ)
unfolding parse_octets parse_ipv6 first_mark
parse_addr s = elim (first_mark s) [
  | none ↦ none
  | some c ↦
      if nat_beq c b'.'
      then elim (parse_ipv4 s) [ none ↦ none | some n ↦ some (0xffff * 2 ^ 32 + n, 32) ]
      else if nat_beq c b':'
      then elim (parse_ipv6 s) [ none ↦ none | some n ↦ some (n, 128) ]
      else none
]

-- net.ParseIP
unfoldable pub parse_ip_text : Text → Option Ip
unfolding parse_addr
parse_ip_text s = elim (parse_addr s) [ none ↦ none | some (n, bits) ↦ some (v6 n) ]

-- net.ParseCIDR
unfoldable pub parse_cidr_text : Text → Option IpNet
unfolding parse_addr parse_cidr
parse_cidr_text s = elim (cut b'/' s) [
  | none ↦ none
  | some (addr, mask) ↦ elim (parse_addr addr) [
    | none ↦ none
    | some (n, bits) ↦ elim (decimal mask) [
      | none ↦ none
      | some ones ↦
          if leb ones bits
          then some (parse_cidr (record { addr = n; bits = bits; ones = ones }))
          else none
    ]
  ]
]

-- The canonical text of a network (IPNet.String), by what it names: the address and the mask.
pub record NetText : Type 0 where
  pub addr : IpText
  pub ones : ℕ

abbrev pub same_net : NetText → NetText → Bool
same_net a b = nat_beq a.addr b.addr && nat_beq a.ones b.ones

pub same_net_iff : (a b : NetText) → (same_net a b ≡ true) ↔ (a ≡ b)
same_net_iff a b = ground arith

instance abbrev pub net_key : Key NetText
net_key = record { same = same_net; same_iff = same_net_iff }

-- IPNet.String
unfoldable pub net_text : IpNet → NetText
net_text net = record {
  addr = ip_text net.ip;
  ones = elim (to4 net.ip) [ none ↦ net.ones | some n ↦ ones4 net ];
}

-- net.ParseCIDR of a canonical text
unfoldable pub net_of_text : NetText → IpNet
net_of_text t =
    let short = nat_beq (t.addr / 2 ^ 32) 0xffff in
    parse_cidr (record { addr = t.addr; bits = if short then 32 else 128; ones = t.ones })
