-- ===== src/Wireguard.antt =====
-- pkg/network/wireguard/mesh.go: the routes of the mesh, their reconciliation and the teardown; Up and
-- Sync are in a child. The
-- runner of commands is a parameter, by the commands run so far. The tracked set of routes is the
-- list of its members, in whatever order Go's map walks them.
pub mod Key
pub mod Config
pub mod Accepted
pub mod Rendered
pub mod Routes
pub mod Interface
pub mod Permitted
pub mod Sent
pub mod Confined
mod Tests
use macvz.Prelude.Sort.{sort}
use macvz.Prelude.{
  if◌then◌else◌, is_empty, keep, contains, Text, codes, codes_key, has_prefix, text_ltb, text_key,
  number_key, ◌==◌, Bool, true, false, not, ◌&&◌, Option, none, some, List, [], ◌∷◌, ◌++◌, map,
}
use macvz.Workload.{to_lower}
use macvz.Wireguard.Config.{Peer, InterfaceConfig}
use macvz.Prelude.Strings.{ℤ}

pub data MeshCommand : Type 0 where
  route_add route_delete : Text → MeshCommand
  create_interface link_up link_down kill_wireguard_go link_destroy : MeshCommand
  set_conf sync_conf assign_address : Text → MeshCommand
  set_mtu : ℤ → MeshCommand

-- A CommandError has a text from stderr.
pub data RunError : Type 0 where
  command_error : Text → RunError
  other_run_error : RunError

abbrev pub Runner : Type 0
Runner = List MeshCommand → MeshCommand → Option RunError

pub record Mesh : Type 0 where
  pub cfg : InterfaceConfig
  pub routes : List Text
  pub up : Bool

-- strings.Contains
unfoldable pub contains_text : Text → Text → Bool
contains_text [] b = has_prefix [] b
contains_text (c ∷ s) b =
    let rest = contains_text s b in if has_prefix (c ∷ s) b then true else rest

abbrev pub is_benign : Text → List Text → Bool
is_benign msg [] = false
is_benign msg (b ∷ benign) =
    let rest = is_benign msg benign in
    if not (is_empty b) && contains_text msg b then true else rest

-- runTolerating: whether the command failed, as far as the caller hears
unfoldable pub run_tolerating :
    Runner → List Text → MeshCommand → List MeshCommand → Option RunError
run_tolerating run benign c done = elim (run done c) [
  | none ↦ none
  | some (command_error stderr) ↦
      if is_benign (map to_lower stderr) benign then none else some (command_error stderr)
  | some other_run_error ↦ some other_run_error
]

abbrev pub err_route_exists : Text
err_route_exists = codes "file exists"

abbrev pub err_route_missing : Text
err_route_missing = codes "not in table"

abbrev pub drop_route : Text → List Text → List Text
drop_route target routes = keep (λ r. not (r == target)) routes

-- The loop that deletes stale routes, over the walk of the map.
unfoldable pub delete_stale :
    Runner
    → (Text → Bool)
    → List Text
    → List Text
    → List MeshCommand
    → Option RunError × List Text × List MeshCommand
delete_stale run want [] routes done = (none, routes, done)
delete_stale run want (target ∷ walk) routes done =
    let skipped = delete_stale run want walk routes done in
    let deleted =
      delete_stale run want walk (drop_route target routes) (route_delete target ∷ done) in
    if want target
    then skipped
    else elim (run_tolerating run (err_route_missing ∷ []) (route_delete target) done) [
      | some e ↦ (some e, routes, route_delete target ∷ done)
      | none ↦ deleted
    ]

-- The loop that adds missing routes.
unfoldable pub add_missing :
    Runner
    → List Text
    → List Text
    → List MeshCommand
    → Option RunError × List Text × List MeshCommand
add_missing run [] routes done = (none, routes, done)
add_missing run (target ∷ desired) routes done =
    let skipped = add_missing run desired routes done in
    let added = add_missing run desired (target ∷ routes) (route_add target ∷ done) in
    if contains routes target
    then skipped
    else elim (run_tolerating run (err_route_exists ∷ []) (route_add target) done) [
      | some e ↦ (some e, routes, route_add target ∷ done)
      | none ↦ added
    ]

-- reconcileRoutesLocked
unfoldable pub reconcile_routes :
    Runner
    → List Text
    → List Text
    → List MeshCommand
    → Option RunError × List Text × List MeshCommand
reconcile_routes run desired routes done =
    let (err, kept, deleted) = delete_stale run (contains desired) routes routes done in
    elim err [ some e ↦ (some e, kept, deleted) | none ↦ add_missing run desired kept deleted ]

-- The loop of RouteTargets over one peer's CIDRs, then over the peers.
unfoldable pub collect : List Text → List Text → List Text
collect out [] = out
collect out (cidr ∷ cidrs) = collect (if contains out cidr then out else out ++ cidr ∷ []) cidrs

unfoldable pub collect_peers : List Text → List Peer → List Text
collect_peers out [] = out
collect_peers out (p ∷ peers) = collect_peers (collect out p.allowed_ips) peers

-- RouteTargets
unfoldable pub route_targets : List Peer → List Text
route_targets peers = sort text_ltb (collect_peers [] peers)

-- `m.routes[target] = true` for each target
unfoldable pub seed : List Text → List Text → List Text
seed [] routes = routes
seed (target ∷ targets) routes =
    seed targets (if contains routes target then routes else target ∷ routes)

-- The loop of teardownLocked; errors are only logged.
unfoldable pub delete_all : List Text → List MeshCommand → List MeshCommand
delete_all [] done = done
delete_all (target ∷ walk) done = delete_all walk (route_delete target ∷ done)

-- teardownLocked
unfoldable pub teardown : Mesh → List MeshCommand → Mesh × List MeshCommand
teardown m done = (
  record m { routes = []; up = false },
  link_destroy ∷ kill_wireguard_go ∷ link_down ∷ delete_all m.routes done,
)

-- Remove
unfoldable pub remove_mesh : Mesh → List MeshCommand → Mesh × List MeshCommand
remove_mesh m done = teardown (record m { routes = seed (route_targets m.cfg.peers) m.routes }) done
