-- ===== src/Podnet/Tests.antt =====
-- pkg/network/podnet: a router that starts and attaches an endpoint, and the theorems there.
use macvz.Prelude.{
  if◌then◌else◌, All, contains, codes, same_text, codes_key, has_prefix, text_ltb, text_key,
  number_key, ◌≡◌, refl, ◌⊎◌, inl, inr, true, none, some, [], ◌∷◌, map,
}
use macvz.Prelude.Strings.{
  is_space, split, trim_left, trim_right, cut, trim_prefix, join, digits_value, digits_onto, itoa,
}
use macvz.Prelude.Words.{is_word}
use macvz.Network.Parse.{
  parse_octet, parse_octets, parse_group, parse_groups, group_number, parse_ipv6, first_mark,
  parse_addr, parse_ip_text, parse_cidr_text, net_key, net_text, net_of_text,
}
use macvz.Privhelper.Checks.{
  Policy, args_equal, any_contains, ip_in_set, normalize_cidr, normalize_cidr_set,
}
use macvz.Privhelper.Grammar.{VmnetInterface}
use macvz.Privhelper.Rules.{NatInterface}
use macvz.Wireguard.{command_error, contains_text}
use macvz.Podnet.{
  run_tolerating, Router, Commands, CommandRunner, new_router, validate_endpoint,
  remove_default_route, interface_of, resolve_interface, note_interfaces, vmnet_interfaces,
  note_vm_ips, anchor_rules,
}
use macvz.Podnet.Rule.{check_backends, validate_rule}
use macvz.Podnet.Render.{
  Endpoint, endpoint_binat_interfaces, binat_lines, endpoint_lines, render_anchor, rdr_lines,
  rule_lines, service_lines, render_service_rules,
}
use macvz.Podnet.Steps.{
  Outcome, load_anchor, start_filter, start, attach_on, place, attach, detach, kept_rules,
  attach_service, detach_service, stop,
}
use macvz.Podnet.Loaded.{op_stop, anchor_load, loaded, InSync, op_start, op_attach, apply}
use macvz.Podnet.Accepted.{Plain}
use macvz.Podnet.Ready.{Vmnet, Nat, ReadyConfig, ReadyEndpoint, Ready}
use macvz.Podnet.Commands.{Permits, ReadyOp}
use macvz.Podnet.Permitted.{apply-Kept}
use macvz.Network.Addr.{to4, ip_text, contains_ip}
use macvz.Prelude.Sort.{insert_sorted, sort}
use macvz.Prelude.Dict

-- A host on which every command succeeds and prints nothing.
abbrev quiet : CommandRunner
quiet done c = ([], none)

abbrev policy : Policy
policy = record {
  mesh_interface = codes "utun7";
  vmnet_interface = codes "bridge100";
  anchor = codes "macvz/pods";
  mesh_address_ip = codes "10.99.0.1";
  mtu = 1420;
  route_cidrs = [];
  pod_cidrs = normalize_cidr_set (codes "10.244.0.0/24" ∷ []);
  vmnet_cidrs = normalize_cidr_set (codes "192.168.64.0/22" ∷ []);
  peer_public_keys = [];
}

abbrev router : Router
router = new_router (record {
  interface = codes "bridge100";
  mesh_interface = codes "utun7";
  anchor = [];
  enable_forwarding = true;
})

abbrev web : Endpoint
web = record {
  pod_key = codes "default/web";
  pod_ip = codes "10.244.0.7";
  vm_ip = codes "192.168.64.5";
  interface = [];
}

abbrev started : Outcome
started = apply quiet op_start router []

abbrev attached : Outcome
attached = apply quiet (op_attach web) started.1 started.2

-- The binat rule of the endpoint, on the vmnet's interface and on the mesh's.
attach_loads :
    loaded quiet (codes "macvz/pods") attached.2
    ≡ some (
        codes
          "# Managed by macvz (issue #22). Do not edit by hand.\n# default/web\nbinat on bridge100 from 192.168.64.5 to any -> 10.244.0.7\nbinat on utun7 from 192.168.64.5 to any -> 10.244.0.7\n")
unfolding loaded apply attach validate_endpoint parse_ip_text split digits_value start new_router
    start_filter run_tolerating remove_default_route load_anchor attach_on same_text args_equal
    anchor_rules render_anchor first_mark group_number parse_addr parse_group parse_groups
    parse_ipv6 parse_octet parse_octets anchor_load binat_lines endpoint_binat_interfaces
    endpoint_lines rdr_lines render_service_rules rule_lines service_lines check_backends
    validate_rule attach_service detach detach_service kept_rules place stop interface_of
    note_interfaces note_vm_ips resolve_interface vmnet_interfaces has_prefix text_ltb Dict.empty
    Dict.get Dict.put Dict.remove contains insert_sorted sort digits_onto is_space itoa join
    trim_left trim_prefix trim_right contains_text
attach_loads = refl

abbrev stopped : Outcome
stopped = apply quiet op_stop started.1 started.2

-- The anchor is empty after a Stop.
stop_flushes : loaded quiet (codes "macvz/pods") stopped.2 ≡ some []
unfolding loaded apply stop start start_filter new_router run_tolerating remove_default_route
    load_anchor same_text args_equal
stop_flushes = refl

router-Ready : Ready policy router
unfolding Ready ReadyConfig Vmnet Nat NatInterface VmnetInterface new_router is_word is_space
    Dict.empty
router-Ready =
    (((refl, (λ e. cc, inl refl)), λ e. cc, refl, inr (refl, inr (λ e. cc, refl))), tt, tt)

web-ReadyEndpoint : ReadyEndpoint policy web
unfolding ReadyEndpoint Plain contains is_word is_space parse_ip_text ip_in_set split digits_value
    normalize_cidr_set normalize_cidr parse_cidr_text cut net_text ip_text to4 any_contains
    contains_ip net_of_text
web-ReadyEndpoint = (refl, (refl, refl, refl), (refl, refl, refl), refl, refl, inl refl)

unresolved :
    (done : Commands)
    → (resolve_interface quiet web.vm_ip done ≡ [])
      ⊎ Vmnet policy (resolve_interface quiet web.vm_ip done)
unfolding resolve_interface interface_of split trim_left trim_right has_prefix
unresolved done = inl refl

web-ReadyOp : ReadyOp policy quiet (op_attach web)
unfolding ReadyOp
web-ReadyOp = (web-ReadyEndpoint, unresolved)

apply-Kept_example :
    Ready policy (apply quiet (op_attach web) router []).1
    × All (Permits policy) (apply quiet (op_attach web) router []).2
apply-Kept_example = apply-Kept policy quiet (op_attach web) router [] router-Ready web-ReadyOp tt

-- A host that refuses every ruleset.
abbrev full : CommandRunner
full done c =
    if args_equal c.args (codes "-a" ∷ codes "macvz/pods" ∷ codes "-f" ∷ codes "-" ∷ [])
    then ([], some (command_error (codes "pfctl: rules not loaded")))
    else ([], none)

abbrev refused : Outcome
refused = attach full (record router { started = true }) web []

-- The Attach fails, and the endpoint is in the router.
refused_keeps : map (λ kv. kv.0) refused.1.endpoints.entries ≡ codes "default/web" ∷ []
unfolding attach validate_endpoint parse_ip_text split digits_value remove_default_route
    run_tolerating args_equal same_text attach_on load_anchor Dict.put place new_router Dict.empty
refused_keeps = refl
