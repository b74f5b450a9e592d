-- ===== src/Network/Print.antt =====
-- net.IP.String, as the standard library writes an address.
use macvz.Prelude.{
  ltb, nat_beq, if◌then◌else◌, drop, Text, codes_key, text_key, number_key, ℕ, suc, ◌+◌, ◌-◌, ◌/◌,
  ◌%◌, ◌^◌, none, some, List, [], ◌∷◌, ◌++◌, map,
}
use macvz.Prelude.Strings.{join, itoa}
use macvz.Network.Addr.{Ip, v4, v6, to4}

abbrev octet : ℕ → ℕ → Text
octet n shift = itoa (n / 2 ^ shift % 256)

-- An IPv4 address: four octets.
unfoldable pub ipv4_string : ℕ → Text
ipv4_string n = join (b'.' ∷ []) (octet n 24 ∷ octet n 16 ∷ octet n 8 ∷ octet n 0 ∷ [])

abbrev hex_digit : ℕ → ℕ
hex_digit d = if ltb d 10 then b'0' + d else b'a' + (d - 10)

-- The hexadecimal digits of a group, without leading zeros.
abbrev group_string : ℕ → Text
group_string g =
    if ltb g 16
    then hex_digit g ∷ []
    else if ltb g 256
    then hex_digit (g / 16) ∷ hex_digit (g % 16) ∷ []
    else if ltb g 4096
    then hex_digit (g / 256) ∷ hex_digit (g / 16 % 16) ∷ hex_digit (g % 16) ∷ []
    else hex_digit (g / 4096)
      ∷ hex_digit (g / 256 % 16)
      ∷ hex_digit (g / 16 % 16)
      ∷ hex_digit (g % 16)
      ∷ []

abbrev groups : ℕ → List ℕ
groups n =
    n / 2 ^ 112 % 2 ^ 16
    ∷ n / 2 ^ 96 % 2 ^ 16
    ∷ n / 2 ^ 80 % 2 ^ 16
    ∷ n / 2 ^ 64 % 2 ^ 16
    ∷ n / 2 ^ 48 % 2 ^ 16
    ∷ n / 2 ^ 32 % 2 ^ 16
    ∷ n / 2 ^ 16 % 2 ^ 16
    ∷ n % 2 ^ 16
    ∷ []

-- How many zero groups a list begins with.
unfoldable zero_run : List ℕ → ℕ
zero_run [] = 0
zero_run (g ∷ gs) = let rest = zero_run gs in if nat_beq g 0 then suc rest else 0

-- The longest run of zero groups.
unfoldable longest_run : List ℕ → ℕ
unfolding zero_run
longest_run [] = 0
longest_run (g ∷ gs) =
    let rest = longest_run gs in
    let here = zero_run (g ∷ gs) in if ltb here rest then rest else here

-- The groups before the first run of the length, and those from it on.
unfoldable split_run : ℕ → List ℕ → List ℕ × List ℕ
unfolding zero_run
split_run len [] = ([], [])
split_run len (g ∷ gs) =
    let (before, after) = split_run len gs in
    if nat_beq (zero_run (g ∷ gs)) len then ([], g ∷ gs) else (g ∷ before, after)

-- An IPv6 address: the longest run of two or more zero groups is written `::`.
unfoldable pub ipv6_string : ℕ → Text
unfolding longest_run split_run
ipv6_string n =
    let len = longest_run (groups n) in
    let (before, after) = split_run len (groups n) in
    if ltb len 2
    then join (b':' ∷ []) (map group_string (groups n))
    else join (b':' ∷ []) (map group_string before)
      ++ (b':' ∷ b':' ∷ join (b':' ∷ []) (map group_string (drop len after)))

-- IP.String
unfoldable pub ip_string : Ip → Text
unfolding to4 ipv4_string ipv6_string
ip_string ip = elim (to4 ip) [
  | some n ↦ ipv4_string n
  | none ↦ elim ip [ v4 n ↦ ipv4_string n | v6 n ↦ ipv6_string n ]
]
