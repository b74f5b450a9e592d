-- ===== src/Privhelper.antt =====
-- pkg/network/privhelper/policy.go: which requests the privileged helper runs. This file has the
-- policy, its checks of one name, and Validate; the lints of the two payloads are children. A set of
-- CIDRs is the list of its canonical members. An error is its message, without the values that it
-- quotes.
pub mod Checks
pub mod Anchor
pub mod WgConfig
pub mod Grammar
pub mod Routes
pub mod Permits
pub mod Server
pub mod Limit
pub mod Client
pub mod Audit
pub mod ServerTests
pub mod Tests
pub mod Closed
pub mod Rules
pub mod Redirects
pub mod Ruleset
pub mod Peers
use macvz.Prelude.{
  ltb, nat_beq, if◌then◌else◌, is_empty, contains, Text, codes, codes_key, text_key, number_key,
  ◌==◌, not, ◌&&◌, ◌||◌, Option, none, some, List, [], ◌∷◌, ◌++◌,
}
use macvz.Prelude.Strings.{trim_prefix, ℤ, pos, atoi}
use macvz.Network.Parse.{net_key}
use macvz.Privhelper.Checks.{
  Policy, Request, Refusal, no_grammar, takes_no_stdin, args_not_permitted, requires_interface,
  no_vmnet_interface, op_not_permitted, family_not_permitted, scope_not_permitted, not_a_cidr,
  cidr_not_configured, address_not_configured, mtu_not_positive, mtu_not_configured,
  pattern_not_managed, ◌>>◌, args_equal, is_forwarding, check_anchor, check_mesh_interface,
  check_vmnet_interface, check_ip_in_set, ip_equal, normalize_cidr,
}
use macvz.Privhelper.Anchor.{lint_anchor_ruleset}
use macvz.Privhelper.WgConfig.{lint_wireguard_config}

-- validateSysctl
unfoldable pub validate_sysctl : Policy → Request → Option Refusal
validate_sysctl p req =
    if not (is_empty req.stdin)
    then some takes_no_stdin
    else if args_equal req.args (codes "-n" ∷ codes "kern.ostype" ∷ [])
    then none
    else if is_forwarding req.args
    then if is_empty p.vmnet_interface then some no_vmnet_interface else none
    else some args_not_permitted

-- validatePfctl
unfoldable pub validate_pfctl : Policy → Request → Option Refusal
validate_pfctl p req =
    if args_equal req.args (codes "-e" ∷ [])
    then if is_empty req.stdin then none else some takes_no_stdin
    else elim req.args [
      | a ∷ anchor ∷ op ∷ last ∷ [] ↦
          if a == codes "-a" && op == codes "-F" && last == codes "all"
          then (check_anchor p anchor) >> (if is_empty req.stdin then none else some takes_no_stdin)
          else if a == codes "-a" && op == codes "-f" && last == codes "-"
          then (check_anchor p anchor) >> (lint_anchor_ruleset p req.stdin)
          else some args_not_permitted
      | _ ↦ some args_not_permitted
    ]

-- checkRouteCIDR
unfoldable pub check_route_cidr : Policy → Text → Option Refusal
check_route_cidr p target = elim (normalize_cidr target) [
  | none ↦ some not_a_cidr
  | some norm ↦ if contains p.route_cidrs norm then none else some cidr_not_configured
]

-- The grammar of the route changes, from `route -q -n`.
unfoldable pub validate_route_change : Policy → List Text → Option Refusal
unfolding check_route_cidr
validate_route_change p (q ∷ n ∷ op ∷ family ∷ target ∷ scope ∷ iface ∷ []) =
    if not (q == codes "-q") || not (n == codes "-n")
    then some args_not_permitted
    else if not (op == codes "add") && not (op == codes "delete")
    then some op_not_permitted
    else if not (family == codes "-inet") && not (family == codes "-inet6")
    then some family_not_permitted
    else if op == codes "delete" && family == codes "-inet" && target == codes "default"
    then if not (scope == codes "-ifscope")
      then some scope_not_permitted
      else check_vmnet_interface p iface
    else if not (scope == codes "-interface")
    then some scope_not_permitted
    else (check_mesh_interface p iface) >> (check_route_cidr p target)
validate_route_change p _ = some args_not_permitted

-- validateRoute
unfoldable pub validate_route : Policy → Request → Option Refusal
unfolding validate_route_change
validate_route p req = if not (is_empty req.stdin) then some takes_no_stdin else elim req.args [
  | n ∷ get ∷ ip ∷ [] ↦
      if n == codes "-n" && get == codes "get"
      then check_ip_in_set ip p.vmnet_cidrs
      else some args_not_permitted
  | args ↦ validate_route_change p args
]

-- The test of `n, err := strconv.Atoi(rest[1])`.
unfoldable pub check_mtu : Policy → Option ℤ → Option Refusal
check_mtu p (some (pos n)) =
    if nat_beq n 0
    then some mtu_not_positive
    else if ltb 0 p.mtu && not (nat_beq n p.mtu)
    then some mtu_not_configured
    else none
check_mtu p _ = some mtu_not_positive

-- The grammar after the interface.
unfoldable pub validate_link : Policy → List Text → Option Refusal
unfolding check_mtu
validate_link p (inet ∷ local ∷ remote ∷ alias ∷ []) =
    if inet == codes "inet" && alias == codes "alias"
    then if not (ip_equal local p.mesh_address_ip) || not (ip_equal remote p.mesh_address_ip)
      then some address_not_configured
      else none
    else some args_not_permitted
validate_link p (mtu ∷ size ∷ []) =
    if mtu == codes "mtu" then check_mtu p (atoi size) else some args_not_permitted
validate_link p (state ∷ []) =
    if state == codes "up" || state == codes "down" || state == codes "destroy"
    then none
    else some args_not_permitted
validate_link p _ = some args_not_permitted

-- validateIfconfig
unfoldable pub validate_ifconfig : Policy → Request → Option Refusal
unfolding validate_link
validate_ifconfig p req = if not (is_empty req.stdin) then some takes_no_stdin else elim req.args [
  | [] ↦ some requires_interface
  | iface ∷ rest ↦ (check_mesh_interface p iface) >> (validate_link p rest)
]

-- validateWG
unfoldable pub validate_wg : Policy → Request → Option Refusal
validate_wg p req = elim req.args [
  | op ∷ iface ∷ file ∷ [] ↦
      if (not (op == codes "setconf") && not (op == codes "syncconf"))
        || not (file == codes "/dev/stdin")
      then some args_not_permitted
      else (check_mesh_interface p iface) >> (lint_wireguard_config p req.stdin)
  | _ ↦ some args_not_permitted
]

-- validateWireGuardGo
unfoldable pub validate_wireguard_go : Policy → Request → Option Refusal
validate_wireguard_go p req =
    if not (is_empty req.stdin)
    then some takes_no_stdin
    else elim req.args [ iface ∷ [] ↦ check_mesh_interface p iface | _ ↦ some args_not_permitted ]

-- validatePkill
unfoldable pub validate_pkill : Policy → Request → Option Refusal
validate_pkill p req = if not (is_empty req.stdin) then some takes_no_stdin else elim req.args [
  | f ∷ pattern ∷ [] ↦
      if not (f == codes "-f")
      then some args_not_permitted
      else if not (pattern == codes "wireguard-go " ++ p.mesh_interface)
      then some pattern_not_managed
      else check_mesh_interface p (trim_prefix pattern (codes "wireguard-go "))
  | _ ↦ some args_not_permitted
]

-- Validate
unfoldable pub validate : Policy → Request → Option Refusal
unfolding validate_sysctl validate_pfctl validate_route validate_ifconfig validate_wg
    validate_wireguard_go validate_pkill
validate p req =
    if req.name == codes "sysctl"
    then validate_sysctl p req
    else if req.name == codes "pfctl"
    then validate_pfctl p req
    else if req.name == codes "route"
    then validate_route p req
    else if req.name == codes "ifconfig"
    then validate_ifconfig p req
    else if req.name == codes "wg"
    then validate_wg p req
    else if req.name == codes "wireguard-go"
    then validate_wireguard_go p req
    else if req.name == codes "pkill"
    then validate_pkill p req
    else some no_grammar
