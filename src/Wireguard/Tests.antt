-- ===== src/Wireguard/Tests.antt =====
-- A peer that moved its Pod CIDR, and the theorems there.
use macvz.Prelude.{
  contains, Text, codes, same_text, codes_key, has_prefix, text_key, number_key, ◌≡◌, refl, true,
  false, ◌&&◌, ◌||◌, none, some, List, [], ◌∷◌,
}
use macvz.Wireguard.{
  MeshCommand, route_add, route_delete, command_error, Runner, Mesh, contains_text, run_tolerating,
  delete_stale, add_missing, reconcile_routes, remove_mesh,
}
use macvz.Wireguard.Routes.{
  installed, reconcile_routes-tracked, deletes, is_allowed, remove_mesh-deletes, effect,
}
use macvz.Wireguard.Config.{InterfaceConfig}
use macvz.Prelude.Strings.{pos}

-- A host where the route to delete is already gone.
abbrev runner : Runner
runner done c = elim c [
  | route_delete target ↦ some (command_error (codes "route: Not in table"))
  | _ ↦ none
]

abbrev old_cidr : Text
old_cidr = codes "10.244.1.0/24"

abbrev new_cidr : Text
new_cidr = codes "10.244.2.0/24"

reconciled :
    reconcile_routes runner (new_cidr ∷ []) (old_cidr ∷ []) []
    ≡ (none, new_cidr ∷ [], route_add new_cidr ∷ route_delete old_cidr ∷ [])
unfolding reconcile_routes delete_stale add_missing run_tolerating contains same_text contains_text
    has_prefix
reconciled = refl

-- The old route was installed by a command.
abbrev before : List MeshCommand
before = route_add old_cidr ∷ []

before-installed : contains (old_cidr ∷ []) old_cidr ≡ installed runner old_cidr before
unfolding installed contains effect same_text run_tolerating
before-installed = refl

reconcile_routes-tracked_example :
    let (err, tracked, done') = reconcile_routes runner (new_cidr ∷ []) (old_cidr ∷ []) before in
    (contains tracked old_cidr ≡ installed runner old_cidr done')
    × ((contains (old_cidr ∷ []) old_cidr && contains (new_cidr ∷ []) old_cidr) ≡ true
        → contains tracked old_cidr ≡ true)
    × (contains tracked old_cidr ≡ true
        → (contains (old_cidr ∷ []) old_cidr || contains (new_cidr ∷ []) old_cidr) ≡ true)
    × (err ≡ none → contains tracked old_cidr ≡ contains (new_cidr ∷ []) old_cidr)
reconcile_routes-tracked_example =
    reconcile_routes-tracked runner (new_cidr ∷ []) (old_cidr ∷ []) before old_cidr before-installed

abbrev config : InterfaceConfig
config = record {
  name = codes "utun7";
  private_key = codes "cHJpdmF0ZQ==";
  address = codes "10.99.0.1/32";
  listen_port = pos 51820;
  mtu = pos 0;
  peers =
      record {
        name = codes "mac-2";
        public_key = codes "cHVibGlj";
        endpoint = codes "192.168.1.2:51820";
        allowed_ips = new_cidr ∷ [];
        persistent_keepalive = pos 25;
      }
      ∷ [];
}

abbrev mesh : Mesh
mesh = record { cfg = config; routes = old_cidr ∷ []; up = true }

remove_mesh-deletes_example :
    let (m', done') = remove_mesh mesh [] in
    (contains (deletes done') new_cidr ≡ (
      is_allowed mesh.cfg.peers new_cidr || contains mesh.routes new_cidr || contains [] new_cidr))
    × (m'.routes ≡ [])
    × (m'.up ≡ false)
remove_mesh-deletes_example = remove_mesh-deletes mesh [] new_cidr
