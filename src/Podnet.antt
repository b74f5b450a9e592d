-- ===== src/Podnet.antt =====
-- pkg/network/podnet: the router of the Pod network path. A command is the request that the helper's
-- client sends of it, with the default names of the tools. The runner of commands is a parameter, by
-- the commands run so far, the latest first. What is only logged is left out.
pub mod Rule
pub mod Render
pub mod Steps
pub mod Helper
pub mod Attached
pub mod HelperTests
pub mod Loaded
pub mod InSync
pub mod Accepted
pub mod Redirected
pub mod Pool
pub mod Redirect
pub mod Ready
pub mod Targets
pub mod Rendered
pub mod Commands
pub mod Permitted
pub mod Tests
use macvz.Prelude.{
  if◌then◌else◌, is_none, is_empty, Text, codes, codes_key, has_prefix, text_ltb, text_key,
  number_key, ◌==◌, Bool, false, not, ◌&&◌, Option, none, some, List, [], ◌∷◌, ◌++◌, map,
}
use macvz.Prelude.Strings.{split, trim_space, trim_prefix}
use macvz.Prelude.Sort.{sort}
use macvz.Prelude.Dict.{Dict, empty, put}
use macvz.Network.Parse.{parse_ip_text, net_key}
use macvz.Workload.{to_lower}
use macvz.Wireguard.{RunError, command_error, other_run_error, is_benign}
use macvz.Privhelper.Checks.{Request}
use macvz.Podnet.Rule.{
  ServiceRule, PodnetError, no_pod_key, invalid_pod_ip, invalid_vm_ip, invalid_interface,
  command_failed,
}
use macvz.Podnet.Render.{Endpoint, note_interface, render_anchor, render_service_rules}
use macvz.Prelude.Dict

pub record RouterConfig : Type 0 where
  pub interface : Text
  pub mesh_interface : Text
  pub anchor : Text
  pub enable_forwarding : Bool

pub record Router : Type 0 where
  pub cfg : RouterConfig
  pub started : Bool
  pub endpoints : Dict Text Endpoint
  pub services : Dict Text (List ServiceRule)

abbrev pub Commands : Type 0
Commands = List Request

abbrev pub CommandRunner : Type 0
CommandRunner = Commands → Request → Text × Option RunError

abbrev pub default_anchor : Text
default_anchor = codes "macvz/pods"

-- New
unfoldable pub new_router : RouterConfig → Router
new_router cfg = record {
  cfg = if is_empty cfg.anchor then record cfg { anchor = default_anchor } else cfg;
  started = false;
  endpoints = Dict.empty;
  services = Dict.empty;
}

-- Endpoint.validate
unfoldable pub validate_endpoint : Endpoint → Option PodnetError
validate_endpoint e =
    if is_empty e.pod_key
    then some no_pod_key
    else if is_none (parse_ip_text e.pod_ip)
    then some invalid_pod_ip
    else if is_none (parse_ip_text e.vm_ip)
    then some invalid_vm_ip
    else if not (is_empty e.interface) && not (trim_space e.interface == e.interface)
    then some invalid_interface
    else none

abbrev pub command : Text → List Text → Text → Request
command name args stdin = record { name = name; args = args; stdin = stdin }

abbrev pub forwarding_command : Request
forwarding_command =
    command (codes "sysctl") (codes "-w" ∷ codes "net.inet.ip.forwarding=1" ∷ []) []

abbrev pub enable_command : Request
enable_command = command (codes "pfctl") (codes "-e" ∷ []) []

abbrev pub drop_default_command : Text → Request
drop_default_command iface =
    command (codes "route")
      (codes "-q"
        ∷ codes "-n"
        ∷ codes "delete"
        ∷ codes "-inet"
        ∷ codes "default"
        ∷ codes "-ifscope"
        ∷ iface
        ∷ [])
      []

abbrev pub get_route_command : Text → Request
get_route_command ip = command (codes "route") (codes "-n" ∷ codes "get" ∷ ip ∷ []) []

abbrev pub load_command : Text → Text → Request
load_command anchor rules =
    command (codes "pfctl") (codes "-a" ∷ anchor ∷ codes "-f" ∷ codes "-" ∷ []) rules

abbrev pub flush_command : Text → Request
flush_command anchor =
    command (codes "pfctl") (codes "-a" ∷ anchor ∷ codes "-F" ∷ codes "all" ∷ []) []

-- runTolerating: whether the command failed, as far as the caller hears
unfoldable pub run_tolerating : CommandRunner → List Text → Request → Commands → Option RunError
run_tolerating run benign c done = elim (run done c).1 [
  | none ↦ none
  | some (command_error stderr) ↦
      if is_benign (map to_lower stderr) benign then none else some (command_error stderr)
  | some other_run_error ↦ some other_run_error
]

abbrev pub benign_default_route : List Text
benign_default_route =
    codes "not in table" ∷ codes "not found" ∷ codes "bad address" ∷ codes "bad interface name" ∷ []

-- removeVMNetDefaultRouteOnInterfaceLocked
unfoldable pub remove_default_route :
    CommandRunner → Text → Commands → Option PodnetError × Commands
remove_default_route run iface done =
    let c = drop_default_command iface in
    (
      elim (run_tolerating run benign_default_route c done) [
        | none ↦ none
        | some e ↦ some (command_failed (codes "remove vmnet default route"))
      ],
      c ∷ done,
    )

-- The line that resolveVMNetInterface looks for.
unfoldable pub interface_of : List Text → Text
interface_of [] = []
interface_of (raw ∷ lines) =
    let rest = interface_of lines in
    let line = trim_space raw in
    if has_prefix line (codes "interface:")
    then trim_space (trim_prefix line (codes "interface:"))
    else rest

-- resolveVMNetInterface, and what Attach makes of its answer: an error is only logged
unfoldable pub resolve_interface : CommandRunner → Text → Commands → Text
unfolding interface_of
resolve_interface run vm_ip done =
    let (out, err) = run done (get_route_command vm_ip) in
    elim err [ none ↦ interface_of (split 10 out) | some e ↦ [] ]

-- endpointsSortedLocked
abbrev pub endpoints_sorted : Router → List Endpoint
endpoints_sorted rt =
    sort (λ a b. text_ltb a.pod_key b.pod_key) (map (λ kv. kv.1) rt.endpoints.entries)

unfoldable pub note_interfaces : List (Text × Endpoint) → List Text → List Text
note_interfaces [] seen = seen
note_interfaces ((key, ep) ∷ eps) seen = note_interfaces eps (note_interface ep.interface seen)

-- vmnetInterfacesLocked
unfoldable pub vmnet_interfaces : Router → List Text
unfolding note_interfaces
vmnet_interfaces rt =
    sort text_ltb (note_interfaces rt.endpoints.entries (note_interface rt.cfg.interface []))

unfoldable pub note_vm_ips : List (Text × Endpoint) → Dict Text Text → Dict Text Text
note_vm_ips [] vmips = vmips
note_vm_ips ((key, ep) ∷ eps) vmips = note_vm_ips eps (Dict.put vmips ep.pod_ip ep.vm_ip)

-- vmipByPodIPLocked
abbrev pub vmip_by_pod_ip : Router → Dict Text Text
vmip_by_pod_ip rt = note_vm_ips rt.endpoints.entries Dict.empty

-- The ruleset that loadAnchorLocked renders.
unfoldable pub anchor_rules : Router → Text
anchor_rules rt =
    render_anchor rt.cfg.interface rt.cfg.mesh_interface (endpoints_sorted rt)
    ++ render_service_rules (vmnet_interfaces rt) rt.services (vmip_by_pod_ip rt)
