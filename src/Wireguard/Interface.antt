-- ===== src/Wireguard/Interface.antt =====
-- pkg/network/wireguard/mesh.go: Up and Sync, and the requests that the commands are sent as, with
-- the default names of the tools.
use macvz.Prelude.{
  if◌then◌else◌, is_some, Text, codes, codes_key, text_key, number_key, true, not, Option, none,
  some, List, [], ◌∷◌, ◌++◌,
}
use macvz.Prelude.Strings.{cut}
use macvz.Network.Addr.{Ip, to4}
use macvz.Network.Parse.{parse_ip_text, parse_cidr_text, net_key}
use macvz.Network.Print.{ip_string}
use macvz.Privhelper.Checks.{Request}
use macvz.Wireguard.{
  MeshCommand, route_add, route_delete, create_interface, link_up, link_down, kill_wireguard_go,
  link_destroy, set_conf, sync_conf, assign_address, set_mtu, RunError, Runner, Mesh,
  run_tolerating, reconcile_routes, route_targets,
}
use macvz.Wireguard.Config.{
  Peer, InterfaceConfig, ConfigError, is_positive, validate_config, itoa_int, sync_config,
}

pub data MeshError : Type 0 where
  invalid_config : ConfigError → MeshError
  command_failed : RunError → MeshError
  bad_address not_up : MeshError

-- A command, with the texts of stderr that are no failure.
abbrev pub MeshStep : Type 0
MeshStep = MeshCommand × List Text

-- Commands one after another, up to the first failure.
unfoldable pub run_steps :
    Runner → List MeshStep → List MeshCommand → Option RunError × List MeshCommand
run_steps run [] done = (none, done)
run_steps run ((c, benign) ∷ steps) done =
    let rest = run_steps run steps (c ∷ done) in
    elim (run_tolerating run benign c done) [ some e ↦ (some e, c ∷ done) | none ↦ rest ]

-- The address of net.ParseCIDR, as written.
unfoldable pub cidr_ip : Text → Option Ip
cidr_ip cidr = elim (parse_cidr_text cidr) [
  | none ↦ none
  | some net ↦ elim (cut b'/' cidr) [ none ↦ none | some (addr, mask) ↦ parse_ip_text addr ]
]

-- addressIP
unfoldable pub address_ip : Text → Option Text
address_ip cidr = elim (cidr_ip cidr) [ none ↦ none | some ip ↦ some (ip_string ip) ]

-- The commands of Up before the routes.
unfoldable pub up_steps : InterfaceConfig → Text → List MeshStep
up_steps cfg ip =
    (create_interface, codes "already exists" ∷ [])
    ∷ (set_conf (sync_config cfg), [])
    ∷ (assign_address ip, codes "already in list" ∷ [])
    ∷ (if is_positive cfg.mtu
        then (set_mtu cfg.mtu, []) ∷ (link_up, []) ∷ []
        else (link_up, []) ∷ [])

abbrev pub MeshOutcome : Type 0
MeshOutcome = Option MeshError × Mesh × List MeshCommand

-- reconcileRoutesLocked, as the last step of Up and of Sync
unfoldable pub reconcile_mesh : Runner → Mesh → List MeshCommand → MeshOutcome
reconcile_mesh run m done =
    let (err, routes, done') = reconcile_routes run (route_targets m.cfg.peers) m.routes done in
    (
      elim err [ none ↦ none | some e ↦ some (command_failed e) ],
      record m { routes = routes },
      done',
    )

unfoldable pub bring_up : Runner → Mesh → Text → List MeshCommand → MeshOutcome
bring_up run m ip done =
    let (err, done') = run_steps run (up_steps m.cfg ip) done in
    let reconciled = reconcile_mesh run (record m { up = true }) done' in
    elim err [ some e ↦ (some (command_failed e), m, done') | none ↦ reconciled ]

-- Up
unfoldable pub up : Runner → Mesh → List MeshCommand → MeshOutcome
up run m done = elim (validate_config m.cfg) [
  | some e ↦ (some (invalid_config e), m, done)
  | none ↦ elim (address_ip m.cfg.address) [
    | none ↦ (some bad_address, m, done)
    | some ip ↦ bring_up run m ip done
  ]
]

-- Sync
unfoldable pub sync : Runner → Mesh → List Peer → List MeshCommand → MeshOutcome
sync run m peers done =
    let next = record m.cfg { peers = peers } in
    let (err, done') = run_steps run ((sync_conf (sync_config next), []) ∷ []) done in
    let reconciled = reconcile_mesh run (record m { cfg = next }) done' in
    elim (validate_config next) [
      | some e ↦ (some (invalid_config e), m, done)
      | none ↦
          if not m.up
          then (some not_up, m, done)
          else elim err [ some e ↦ (some (command_failed e), m, done') | none ↦ reconciled ]
    ]

-- routeFamily
unfoldable pub route_family : Text → Text
route_family target = elim (cidr_ip target) [
  | none ↦ codes "-inet"
  | some ip ↦ if is_some (to4 ip) then codes "-inet" else codes "-inet6"
]

abbrev pub mesh_command : Text → List Text → Text → Request
mesh_command name args stdin = record { name = name; args = args; stdin = stdin }

-- routeCmd
unfoldable pub route_command : Text → Text → Text → Request
route_command iface op target =
    mesh_command (codes "route")
      (codes "-q"
        ∷ codes "-n"
        ∷ op
        ∷ route_family target
        ∷ target
        ∷ codes "-interface"
        ∷ iface
        ∷ [])
      []

-- The commands of a mesh on an interface, as requests.
unfoldable pub mesh_request : Text → MeshCommand → Request
mesh_request iface (route_add target) = route_command iface (codes "add") target
mesh_request iface (route_delete target) = route_command iface (codes "delete") target
mesh_request iface create_interface = mesh_command (codes "wireguard-go") (iface ∷ []) []
mesh_request iface link_up = mesh_command (codes "ifconfig") (iface ∷ codes "up" ∷ []) []
mesh_request iface link_down = mesh_command (codes "ifconfig") (iface ∷ codes "down" ∷ []) []
mesh_request iface kill_wireguard_go =
    mesh_command (codes "pkill") (codes "-f" ∷ (codes "wireguard-go " ++ iface) ∷ []) []
mesh_request iface link_destroy = mesh_command (codes "ifconfig") (iface ∷ codes "destroy" ∷ []) []
mesh_request iface (set_conf cfg) =
    mesh_command (codes "wg") (codes "setconf" ∷ iface ∷ codes "/dev/stdin" ∷ []) cfg
mesh_request iface (sync_conf cfg) =
    mesh_command (codes "wg") (codes "syncconf" ∷ iface ∷ codes "/dev/stdin" ∷ []) cfg
mesh_request iface (assign_address ip) =
    mesh_command (codes "ifconfig") (iface ∷ codes "inet" ∷ ip ∷ ip ∷ codes "alias" ∷ []) []
mesh_request iface (set_mtu mtu) =
    mesh_command (codes "ifconfig") (iface ∷ codes "mtu" ∷ itoa_int mtu ∷ []) []
