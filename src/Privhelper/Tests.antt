-- ===== src/Privhelper/Tests.antt =====
-- pkg/network/privhelper/policy.go: a node's policy, the requests that it permits and refuses, and
-- the theorems there.
use macvz.Network.Addr.{contains_ip, ip_text, masked, narrow, parse_cidr, same_network, to4}
use macvz.Prelude.{
  All, contains, Text, codes, same_text, codes_key, text_key, number_key, ◌≡◌, refl, ◌≢◌, ◌↔◌, ◌⊎◌,
  true, none, some, [], ◌∷◌, has_prefix,
}
use macvz.Prelude.Strings.{
  split, cut, digits_value, atoi, fields, trim_suffix, trim_right, starts_word, is_space, trim_left,
}
use macvz.Network.Parse.{
  parse_ip_text, parse_cidr_text, net_key, parse_ipv6, parse_octet, first_mark, parse_octets,
  net_text, group_number, parse_groups, net_of_text, parse_group, parse_addr,
}
use macvz.Privhelper.{check_route_cidr, validate_route, validate}
use macvz.Privhelper.Checks.{
  Policy, Request, cidr_not_configured, check_mesh_interface, normalize_cidr, normalize_cidr_set,
  is_read_only_probe, check_pod_nat_interface, is_bridge_interface, check_vmnet_interface,
  any_contains, ip_in_set,
}
use macvz.Privhelper.Anchor.{
  lint_anchor_ruleset, cut_port, parse_rdr_targets, lint_rule, lint_lines, lint_rdr_targets,
  lint_binat_tail, check_targets, parse_pool, lint_rdr_rule,
}
use macvz.Privhelper.WgConfig.{lint_wireguard_config}
use macvz.Privhelper.Permits.{Permitted, validate_iff}
use macvz.Privhelper.Closed.{zero_policy, fail_closed}
use macvz.Privhelper.Ruleset.{AnchorLine, anchor_sound}
use macvz.Privhelper.Peers.{ConfigLine, lint_wireguard_config_iff}

abbrev policy : Policy
policy = record {
  mesh_interface = codes "utun7";
  vmnet_interface = codes "bridge100";
  anchor = codes "macvz/pods";
  mesh_address_ip = codes "10.99.0.1";
  mtu = 1420;
  route_cidrs = normalize_cidr_set (codes "10.244.1.0/24" ∷ []);
  pod_cidrs = normalize_cidr_set (codes "10.244.0.0/24" ∷ codes "10.244.1.0/24" ∷ []);
  vmnet_cidrs = normalize_cidr_set (codes "192.168.64.0/22" ∷ []);
  peer_public_keys = codes "cHVibGlj" ∷ [];
}

abbrev add_route : Text → Request
add_route target = record {
  name = codes "route";
  args =
      codes "-q"
      ∷ codes "-n"
      ∷ codes "add"
      ∷ codes "-inet"
      ∷ target
      ∷ codes "-interface"
      ∷ codes "utun7"
      ∷ [];
  stdin = [];
}

own_route : validate policy (add_route (codes "10.244.1.0/24")) ≡ none
unfolding validate validate_route check_route_cidr normalize_cidr normalize_cidr_set parse_cidr_text
    parse_ip_text split cut digits_value contains same_text check_mesh_interface net_text ip_text
    to4
own_route = refl

other_route : validate policy (add_route (codes "10.0.0.0/8")) ≡ some cidr_not_configured
unfolding validate validate_route check_route_cidr normalize_cidr normalize_cidr_set parse_cidr_text
    parse_ip_text split cut digits_value contains same_text check_mesh_interface net_text ip_text
other_route = refl

validate_iff_example :
    (validate policy (add_route (codes "10.244.1.0/24")) ≡ none)
    ↔ Permitted policy (add_route (codes "10.244.1.0/24"))
validate_iff_example = validate_iff policy (add_route (codes "10.244.1.0/24"))

abbrev enable_pf : Request
enable_pf = record { name = codes "pfctl"; args = codes "-e" ∷ []; stdin = [] }

fail_closed_example : (validate zero_policy enable_pf ≡ none) ↔ (
    ((is_read_only_probe enable_pf ≡ true) × (enable_pf.stdin ≡ []))
    ⊎ ((enable_pf.name ≡ codes "pfctl")
        × (enable_pf.args ≡ codes "-e" ∷ [])
        × (enable_pf.stdin ≡ [])))
fail_closed_example = fail_closed enable_pf

abbrev rules : Text
rules =
    codes
      "# default/web\nbinat on bridge100 inet from 192.168.64.5 to any -> 10.244.0.7\nrdr on bridge100 inet proto tcp from any to 10.96.0.1 port 80 -> 10.244.1.2 port 8080\n"

rules_accepted : lint_anchor_ruleset policy rules ≡ none
unfolding lint_anchor_ruleset split trim_right trim_left is_space has_prefix fields starts_word
    same_text check_pod_nat_interface ip_in_set parse_ip_text digits_value normalize_cidr_set
    parse_cidr_text cut contains contains_ip ip_text masked narrow parse_cidr same_network to4
    first_mark group_number net_of_text net_text parse_addr parse_group parse_groups parse_ipv6
    parse_octet parse_octets atoi trim_suffix check_targets cut_port lint_binat_tail lint_lines
    lint_rdr_rule lint_rdr_targets lint_rule parse_pool parse_rdr_targets any_contains
    check_vmnet_interface is_bridge_interface normalize_cidr
rules_accepted = refl

anchor_sound_example : (policy.vmnet_interface ≢ []) × All (AnchorLine policy) (split 10 rules)
anchor_sound_example = anchor_sound policy rules rules_accepted

abbrev wg_config : Text
wg_config = codes "[Peer]\nPublicKey = cHVibGlj\nAllowedIPs = 10.244.1.0/24\n"

wg_accepted : lint_wireguard_config policy wg_config ≡ none
unfolding lint_wireguard_config split trim_right trim_left is_space has_prefix cut same_text
    contains normalize_cidr parse_cidr_text digits_value normalize_cidr_set net_text ip_text to4
wg_accepted = refl

lint_wireguard_config_iff_example :
    (lint_wireguard_config policy wg_config ≡ none) ↔ All (ConfigLine policy) (split 10 wg_config)
lint_wireguard_config_iff_example = lint_wireguard_config_iff policy wg_config
