-- ===== src/Privhelper/Checks.antt =====
-- pkg/network/privhelper/policy.go: the policy, and its checks of one interface, anchor, address or
-- network.
use macvz.Prelude.{
  nat_beq, if◌then◌else◌, is_none, length, is_empty, contains, drop, Text, codes, codes_key,
  has_prefix, text_key, number_key, ◌==◌, ℕ, Bool, true, false, not, ◌&&◌, ◌||◌, Option, none, some,
  List, [], ◌∷◌,
}
use macvz.Prelude.Strings.{is_digit}
use macvz.Network.Addr.{Ip, ip_text, contains_ip}
use macvz.Network.Parse.{parse_ip_text, parse_cidr_text, NetText, net_key, net_text, net_of_text}

pub record Policy : Type 0 where
  pub mesh_interface : Text
  pub vmnet_interface : Text
  pub anchor : Text
  pub mesh_address_ip : Text
  pub mtu : ℕ
  pub route_cidrs : List NetText
  pub pod_cidrs : List NetText
  pub vmnet_cidrs : List NetText
  pub peer_public_keys : List Text

pub record Request : Type 0 where
  pub name : Text
  pub args : List Text
  pub stdin : Text

pub data Refusal : Type 0 where
  no_grammar takes_no_stdin args_not_permitted requires_interface : Refusal
  no_anchor anchor_not_managed : Refusal
  no_mesh_interface mesh_interface_not_managed : Refusal
  no_vmnet_interface vmnet_interface_not_managed interface_not_managed : Refusal
  not_a_rule not_a_binat_rule not_an_rdr_rule : Refusal
  outside_cidrs not_an_ip not_a_port no_target_port trailing_tokens : Refusal
  no_target malformed_target target_outside_cidrs : Refusal
  op_not_permitted family_not_permitted scope_not_permitted : Refusal
  not_a_cidr cidr_not_configured : Refusal
  address_not_configured mtu_not_positive mtu_not_configured : Refusal
  malformed_line peer_not_configured pattern_not_managed : Refusal

-- `if err := a; err != nil { return err }; return b`
infixr 2 ◌>>◌
abbrev pub ◌>>◌ : Option Refusal → Option Refusal → Option Refusal
none >> b = b
some e >> b = some e

-- argsEqual
unfoldable pub args_equal : List Text → List Text → Bool
args_equal [] [] = true
args_equal (a ∷ args) (b ∷ want) = let rest = args_equal args want in a == b && rest
args_equal _ _ = false

-- The arguments that toggle IPv4 forwarding.
unfoldable pub is_forwarding : List Text → Bool
is_forwarding (w ∷ setting ∷ []) =
    w == codes "-w"
    && (setting == codes "net.inet.ip.forwarding=1" || setting == codes "net.inet.ip.forwarding=0")
is_forwarding _ = false

-- checkAnchor
unfoldable pub check_anchor : Policy → Text → Option Refusal
check_anchor p anchor =
    if is_empty p.anchor
    then some no_anchor
    else if not (anchor == p.anchor)
    then some anchor_not_managed
    else none

-- checkMeshInterface
unfoldable pub check_mesh_interface : Policy → Text → Option Refusal
check_mesh_interface p iface =
    if is_empty p.mesh_interface
    then some no_mesh_interface
    else if not (iface == p.mesh_interface)
    then some mesh_interface_not_managed
    else none

abbrev pub all_digits : Text → Bool
all_digits [] = true
all_digits (c ∷ s) = let rest = all_digits s in is_digit c && rest

-- isBridgeInterface
unfoldable pub is_bridge_interface : Text → Bool
is_bridge_interface iface =
    if not (has_prefix iface (codes "bridge")) || nat_beq (length iface) (length (codes "bridge"))
    then false
    else all_digits (drop (length (codes "bridge")) iface)

-- checkVMNetInterface
unfoldable pub check_vmnet_interface : Policy → Text → Option Refusal
unfolding is_bridge_interface
check_vmnet_interface p iface =
    if is_empty p.vmnet_interface
    then some no_vmnet_interface
    else if iface == p.vmnet_interface || is_bridge_interface iface
    then none
    else some vmnet_interface_not_managed

-- checkPodNATInterface
unfoldable pub check_pod_nat_interface : Policy → Text → Option Refusal
unfolding check_vmnet_interface
check_pod_nat_interface p iface =
    if is_none (check_vmnet_interface p iface)
    then none
    else if not (is_empty p.mesh_interface) && iface == p.mesh_interface
    then none
    else some interface_not_managed

-- The loop of ipInSet.
unfoldable pub any_contains : List NetText → Ip → Bool
any_contains [] ip = false
any_contains (cidr ∷ cidrs) ip =
    let rest = any_contains cidrs ip in if contains_ip (net_of_text cidr) ip then true else rest

-- ipInSet
unfoldable pub ip_in_set : Text → List NetText → Bool
unfolding any_contains
ip_in_set raw cidrs = elim (parse_ip_text raw) [ none ↦ false | some ip ↦ any_contains cidrs ip ]

-- checkIPInSet
abbrev pub check_ip_in_set : Text → List NetText → Option Refusal
check_ip_in_set ip cidrs = if ip_in_set ip cidrs then none else some outside_cidrs

-- ipEqual; net.IP's Equal compares an IPv4 address with its IPv4-mapped form as equal
unfoldable pub ip_equal : Text → Text → Bool
ip_equal a b = if is_empty a || is_empty b then false else elim (parse_ip_text a) [
  | none ↦ false
  | some ia ↦ elim (parse_ip_text b) [ none ↦ false | some ib ↦ nat_beq (ip_text ia) (ip_text ib) ]
]

-- normalizeCIDR
unfoldable pub normalize_cidr : Text → Option NetText
normalize_cidr cidr = elim (parse_cidr_text cidr) [
  | none ↦ none
  | some ipnet ↦ some (net_text ipnet)
]

-- NormalizeCIDRSet
unfoldable pub normalize_cidr_set : List Text → List NetText
unfolding normalize_cidr
normalize_cidr_set [] = []
normalize_cidr_set (c ∷ cidrs) =
    let rest = normalize_cidr_set cidrs in
    elim (normalize_cidr c) [
      | none ↦ rest
      | some norm ↦ if contains rest norm then rest else norm ∷ rest
    ]

-- isReadOnlyProbe
unfoldable pub is_read_only_probe : Request → Bool
unfolding args_equal
is_read_only_probe req =
    req.name == codes "sysctl" && args_equal req.args (codes "-n" ∷ codes "kern.ostype" ∷ [])
