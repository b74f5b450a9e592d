-- ===== src/Wireguard/Confined.antt =====
-- pkg/network: a mesh within the policy stays there, and its operations send only commands that the
-- privileged helper permits.
use macvz.Prelude.{
  if◌then◌else◌, Bool-cases, Option-cases, All, Text, codes_key, text_key, number_key, ◌≡◌, refl,
  sym, ◌∙◌, inl, inr, Bool, true, false, not, Option, none, some, List, [], ◌∷◌, arith,
}
use macvz.Network.Parse.{net_key}
use macvz.Privhelper.Checks.{Policy}
use macvz.Privhelper.Grammar.{MeshInterface}
use macvz.Privhelper.Routes.{RoutedCidr}
use macvz.Wireguard.{
  MeshCommand, sync_conf, Runner, Mesh, route_targets, seed, teardown, remove_mesh,
}
use macvz.Wireguard.Config.{
  Peer, InterfaceConfig, is_positive, is_port, validate_config, sync_config,
}
use macvz.Wireguard.Interface.{
  MeshError, invalid_config, command_failed, bad_address, not_up, run_steps, address_ip, up_steps,
  MeshOutcome, reconcile_mesh, bring_up, up, sync,
}
use macvz.Wireguard.Rendered.{KnownPeer}
use macvz.Wireguard.Permitted.{
  KnownConfig, Sent, link-Sent, assign_address-Sent, set_mtu-Sent, create_interface-Sent, kill-Sent,
  conf-Sent,
}
use macvz.Wireguard.Sent.{
  route_targets-routed, reconcile_routes-Fine, run_steps-Sent, delete_all-Sent, seed-routed,
}

pub data MeshOp : Type 0 where
  op_up op_down op_remove : MeshOp
  op_sync : List Peer → MeshOp

-- The methods of a Mesh that run commands; Down and Remove give no error.
unfoldable pub mesh_apply : Runner → MeshOp → Mesh → List MeshCommand → MeshOutcome
mesh_apply run op_up m done = up run m done
mesh_apply run (op_sync peers) m done = sync run m peers done
mesh_apply run op_down m done = let (after, cmds) = teardown m done in (none, after, cmds)
mesh_apply run op_remove m done = let (after, cmds) = remove_mesh m done in (none, after, cmds)

module _ (p : Policy) where
  -- A mesh whose configuration and tracked routes are within the policy.
  unfoldable pub KnownMesh : Mesh → Type 0
  KnownMesh m = KnownConfig p m.cfg × All (RoutedCidr p) m.routes

  unfoldable pub KnownOp : MeshOp → Type 0
  KnownOp (op_sync peers) = All (KnownPeer p) peers
  KnownOp _ = Unit

  module _ (run : Runner) (iface : Text) where
    Confined : MeshOutcome → Type 0
    Confined o = KnownMesh o.1 × (o.1.cfg.name ≡ iface) × All (Sent p iface) o.2

    valid_port :
        (cfg : InterfaceConfig) → validate_config cfg ≡ none → is_port cfg.listen_port ≡ true
    unfolding validate_config
    valid_port cfg h = ground (arith, h)

    interface_of :
        (cfg : InterfaceConfig) → KnownConfig p cfg → cfg.name ≡ iface → MeshInterface p iface
    unfolding KnownConfig MeshInterface
    interface_of cfg k e = (k.0.0, sym e ∙ k.0.1)

    up_steps-Sent :
        (cfg : InterfaceConfig) (ip : Text)
        → KnownConfig p cfg
        → cfg.name ≡ iface
        → validate_config cfg ≡ none
        → address_ip cfg.address ≡ some ip
        → All (λ s. Sent p iface s.0) (up_steps cfg ip)
    unfolding up_steps KnownConfig
    up_steps-Sent cfg ip (m, k, mtu, a, peers) e v f =
        let i = interface_of cfg (m, k, mtu, a, peers) e in
        let up_sent = (link-Sent p iface i).0 in
        (
          create_interface-Sent p iface i,
          (
            (conf-Sent p iface i cfg k (valid_port cfg v) peers).0,
            (
              assign_address-Sent p iface i ip (a ip f),
              elim (Bool-cases (is_positive cfg.mtu)) [
                | inl t ↦ rw t (set_mtu-Sent p iface i cfg.mtu t mtu, (up_sent, tt))
                | inr n ↦ rw n (up_sent, tt)
              ],
            ),
          ),
        )

    reconcile_mesh-Confined :
        (m : Mesh) (done : List MeshCommand)
        → KnownMesh m
        → m.cfg.name ≡ iface
        → All (Sent p iface) done
        → Confined (reconcile_mesh run m done)
    unfolding reconcile_mesh KnownMesh KnownConfig Confined
    reconcile_mesh-Confined m done k e d =
        let i = interface_of m.cfg k.0 e in
        let (r, s) =
          reconcile_routes-Fine p run iface i (route_targets m.cfg.peers) m.routes done
            (route_targets-routed p run m.cfg.peers k.0.4) k.1 d in
        ((k.0, r), e, s)

    if-Confined :
        (b : Bool) (o x : MeshOutcome) → Confined o → Confined x → Confined (if b then o else x)
    if-Confined true o x h k = h
    if-Confined false o x h k = k

    kept :
        (e : Option MeshError) (m : Mesh) (done : List MeshCommand)
        → KnownMesh m
        → m.cfg.name ≡ iface
        → All (Sent p iface) done
        → Confined (e, m, done)
    unfolding Confined
    kept e m done k n d = (k, n, d)

    known : (m : Mesh) → KnownMesh m → KnownConfig p m.cfg
    unfolding KnownMesh
    known m k = k.0

    set_up : (m : Mesh) → KnownMesh m → KnownMesh (record m { up = true })
    unfolding KnownMesh
    set_up m k = k

    up-Confined :
        (m : Mesh) (done : List MeshCommand)
        → KnownMesh m
        → m.cfg.name ≡ iface
        → All (Sent p iface) done
        → Confined (up run m done)
    unfolding up bring_up
    up-Confined m done k n d = elim (Option-cases (validate_config m.cfg)) [
      | inr (x, e) ↦ rw (e, up) (kept (some (invalid_config x)) m done k n d)
      | inl e ↦ elim (Option-cases (address_ip m.cfg.address)) [
        | inl f ↦ rw (e, up, f) (kept (some bad_address) m done k n d)
        | inr (ip, f) ↦
            let i = interface_of m.cfg (known m k) n in
            let ran = run_steps run (up_steps m.cfg ip) done in
            let s =
              run_steps-Sent p run iface i (up_steps m.cfg ip) done
                (up_steps-Sent m.cfg ip (known m k) n e f) d in
            rw (e, up, f)
              (elim (Option-cases ran.0) [
                | inr (x, g) ↦ rw (g, bring_up) (kept (some (command_failed x)) m ran.1 k n s)
                | inl g ↦
                    rw (g, bring_up)
                      (reconcile_mesh-Confined (record m { up = true }) ran.1 (set_up m k) n s)
              ])
      ]
    ]

    with_peers :
        (m : Mesh) (peers : List Peer)
        → KnownMesh m
        → All (KnownPeer p) peers
        → KnownMesh (record m { cfg = record m.cfg { peers = peers } })
    unfolding KnownMesh KnownConfig
    with_peers m peers ((i, k, u, a, old), r) h = ((i, k, u, a, h), r)

    sync-Confined :
        (m : Mesh) (peers : List Peer) (done : List MeshCommand)
        → KnownMesh m
        → All (KnownPeer p) peers
        → m.cfg.name ≡ iface
        → All (Sent p iface) done
        → Confined (sync run m peers done)
    unfolding sync KnownConfig
    sync-Confined m peers done k h n d =
        let next = record m.cfg { peers = peers } in
        let i = interface_of m.cfg (known m k) n in
        let ran = run_steps run ((sync_conf (sync_config next), []) ∷ []) done in
        elim (Option-cases (validate_config next)) [
          | inr (x, e) ↦ rw (e, sync) (kept (some (invalid_config x)) m done k n d)
          | inl e ↦
              let key = (known m k).1 in
              let s =
                run_steps-Sent p run iface i _ done
                  ((conf-Sent p iface i next key (valid_port next e) h).1, tt) d in
              rw (e, sync)
                (if-Confined (not m.up) _ _ (kept (some not_up) m done k n d)
                  (elim (Option-cases ran.0) [
                    | inr (x, g) ↦ rw g (kept (some (command_failed x)) m ran.1 k n s)
                    | inl g ↦ rw g (
                        reconcile_mesh-Confined (record m { cfg = next }) ran.1
                          (with_peers m peers k h) n s)
                  ]))
        ]

    torn_down : (m : Mesh) → KnownMesh m → KnownMesh (record m { routes = []; up = false })
    unfolding KnownMesh
    torn_down m k = (k.0, tt)

    teardown-Confined :
        (m : Mesh) (done : List MeshCommand)
        → KnownMesh m
        → m.cfg.name ≡ iface
        → All (Sent p iface) done
        → Confined (none, (teardown m done).0, (teardown m done).1)
    unfolding teardown KnownMesh
    teardown-Confined m done k n d =
        let i = interface_of m.cfg (known m k) n in
        let links = link-Sent p iface i in
        kept none _ _ (torn_down m k) n (
          links.2,
          (kill-Sent p iface i, (links.1, delete_all-Sent p run iface i m.routes done k.1 d)),
        )

    seeded :
        (m : Mesh)
        → KnownMesh m
        → KnownMesh (record m { routes = seed (route_targets m.cfg.peers) m.routes })
    unfolding KnownMesh KnownConfig
    seeded m k = (
      k.0,
      seed-routed p run (route_targets m.cfg.peers) m.routes
          (route_targets-routed p run m.cfg.peers k.0.4) k.1,
    )

    remove_mesh-Confined :
        (m : Mesh) (done : List MeshCommand)
        → KnownMesh m
        → m.cfg.name ≡ iface
        → All (Sent p iface) done
        → Confined (none, (remove_mesh m done).0, (remove_mesh m done).1)
    unfolding remove_mesh
    remove_mesh-Confined m done k n d =
        teardown-Confined (record m { routes = seed (route_targets m.cfg.peers) m.routes }) done
          (seeded m k) n d

  -- Up, Down, Remove, and a Sync to peers of the policy keep a mesh that is within the policy there,
  -- and send permitted commands only.
  pub mesh_apply-Confined :
      (run : Runner) (op : MeshOp) (m : Mesh) (done : List MeshCommand)
      → KnownMesh m
      → KnownOp op
      → All (Sent p m.cfg.name) done
      → KnownMesh (mesh_apply run op m done).1
        × ((mesh_apply run op m done).1.cfg.name ≡ m.cfg.name)
        × All (Sent p m.cfg.name) (mesh_apply run op m done).2
  unfolding mesh_apply KnownOp Confined
  mesh_apply-Confined run op_up m done k o d = up-Confined run m.cfg.name m done k refl d
  mesh_apply-Confined run (op_sync peers) m done k o d =
      sync-Confined run m.cfg.name m peers done k o refl d
  mesh_apply-Confined run op_down m done k o d = teardown-Confined run m.cfg.name m done k refl d
  mesh_apply-Confined run op_remove m done k o d =
      remove_mesh-Confined run m.cfg.name m done k refl d
