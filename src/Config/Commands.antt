-- ===== src/Config/Commands.antt =====
-- pkg/config and pkg/network: the helper of a node and the mesh of the same node.
use macvz.Prelude.{
  All, Text, codes_key, text_key, number_key, ◌≡◌, refl, sym, ◌∙◌, true, false, Option, some, List,
  [], ◌∷◌, arith,
}
use macvz.Privhelper.Checks.{Policy}
use macvz.Wireguard.{MeshCommand, Runner, Mesh}
use macvz.Wireguard.Config.{InterfaceConfig}
use macvz.Wireguard.Permitted.{KnownConfig, Sent}
use macvz.Wireguard.Confined.{MeshOp, mesh_apply, KnownMesh, KnownOp, mesh_apply-Confined}
use macvz.Config.{MeshConfig, Config, mesh_interface_config}
use macvz.Config.Helper.{pod_policy, with_mesh, privileged_helper_policy}
use macvz.Config.Covers.{TidyConfig, with_mesh-KnownConfig}
use mathlib.Core.Path.{subst}

-- A mesh before Up.
abbrev pub new_mesh : InterfaceConfig → Mesh
new_mesh ifc = record { cfg = ifc; routes = []; up = false }

-- Operations in a sequence.
unfoldable pub run_ops : Runner → List MeshOp → Mesh → List MeshCommand → Mesh × List MeshCommand
run_ops run [] m done = (m, done)
run_ops run (op ∷ ops) m done =
    let (err, after, cmds) = mesh_apply run op m done in run_ops run ops after cmds

run_ops-Sent :
    (p : Policy) (run : Runner) (iface : Text) (ops : List MeshOp) (m : Mesh)
    (done : List MeshCommand)
    → KnownMesh p m
    → All (KnownOp p) ops
    → m.cfg.name ≡ iface
    → All (Sent p iface) done
    → All (Sent p iface) (run_ops run ops m done).1
unfolding run_ops
run_ops-Sent p run iface [] m done k o n d = d
run_ops-Sent p run iface (op ∷ ops) m done k o n d =
    let here = subst (λ i. All (Sent p i) done) (sym n) d in
    let (j, e, s) = mesh_apply-Confined p run op m done k o.0 here in
    run_ops-Sent p run iface ops (mesh_apply run op m done).1 (mesh_apply run op m done).2 j o.1
      (e ∙ n) (subst (λ i. All (Sent p i) (mesh_apply run op m done).2) n s)

policy_of :
    (key : Option Text) (c : Config) (ifc : InterfaceConfig) (p : Policy)
    → c.mesh.enabled ≡ true
    → mesh_interface_config key c.mesh ≡ some ifc
    → privileged_helper_policy key c ≡ some p
    → p ≡ with_mesh c.mesh ifc (pod_policy c)
unfolding privileged_helper_policy
policy_of key c ifc p e f h = ground (arith, e, f, h)

known_new :
    (p : Policy) (m : MeshConfig) (ifc : InterfaceConfig) (q : Policy)
    → TidyConfig ifc
    → p ≡ with_mesh m ifc q
    → KnownMesh p (new_mesh ifc)
unfolding KnownMesh
known_new p m ifc q t e =
    (subst (λ r. KnownConfig r ifc) (sym e) (with_mesh-KnownConfig m ifc q t), tt)

-- The commands that a mesh sends over any operations, whatever the host answers, are permitted by
-- the helper's policy of the same configuration, if the mesh is enabled, its texts are words, and
-- each Sync is to peers of the policy.
pub helper_permits_mesh :
    (key : Option Text) (c : Config) (ifc : InterfaceConfig) (p : Policy) (run : Runner)
    (ops : List MeshOp)
    → c.mesh.enabled ≡ true
    → mesh_interface_config key c.mesh ≡ some ifc
    → privileged_helper_policy key c ≡ some p
    → TidyConfig ifc
    → All (KnownOp p) ops
    → All (Sent p ifc.name) (run_ops run ops (new_mesh ifc) []).1
helper_permits_mesh key c ifc p run ops e f h t o =
    run_ops-Sent p run ifc.name ops (new_mesh ifc) []
      (known_new p c.mesh ifc (pod_policy c) t (policy_of key c ifc p e f h)) o refl tt
