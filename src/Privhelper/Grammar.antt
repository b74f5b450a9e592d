-- ===== src/Privhelper/Grammar.antt =====
-- pkg/network/privhelper/policy.go: the fixed grammar of the requests, independent of the code, and
-- that each handler accepts its own part of it.
use macvz.Prelude.{
  is_empty, Text, codes, same_text_iff, codes_key, text_key, number_key, ◌≡◌, ◌≢◌, ◌↔◌, ◌⊎◌, true,
  none, List, [], ◌∷◌, arith,
}
use macvz.Network.Parse.{net_key}
use macvz.Privhelper.{validate_sysctl, validate_pfctl}
use macvz.Privhelper.Checks.{
  Policy, Request, args_equal, is_forwarding, check_anchor, check_mesh_interface,
  is_bridge_interface, check_vmnet_interface,
}
use macvz.Privhelper.Anchor.{lint_anchor_ruleset}

pub empty_iff : (s : Text) → (is_empty s ≡ true) ↔ (s ≡ [])
empty_iff [] = ground arith
empty_iff (c ∷ s) = ground arith

pub args_equal_iff : (a b : List Text) → (args_equal a b ≡ true) ↔ (a ≡ b)
unfolding args_equal
args_equal_iff [] [] = ground arith
args_equal_iff [] (y ∷ b) = ground arith
args_equal_iff (x ∷ a) [] = ground arith
args_equal_iff (x ∷ a) (y ∷ b) = ground (arith, same_text_iff x y, args_equal_iff a b)

-- A configured interface: the mesh's, and one that the rules may stand on.
unfoldable pub MeshInterface : Policy → Text → Type 0
MeshInterface p iface = (p.mesh_interface ≢ []) × (iface ≡ p.mesh_interface)

unfoldable pub VmnetInterface : Policy → Text → Type 0
VmnetInterface p iface =
    (p.vmnet_interface ≢ []) × ((iface ≡ p.vmnet_interface) ⊎ (is_bridge_interface iface ≡ true))

unfoldable pub PodAnchor : Policy → Text → Type 0
PodAnchor p anchor = (p.anchor ≢ []) × (anchor ≡ p.anchor)

pub check_mesh_interface_iff :
    (p : Policy) (iface : Text) → (check_mesh_interface p iface ≡ none) ↔ MeshInterface p iface
unfolding check_mesh_interface MeshInterface
check_mesh_interface_iff p iface =
    ground (arith, empty_iff p.mesh_interface, same_text_iff iface p.mesh_interface)

pub check_vmnet_interface_iff :
    (p : Policy) (iface : Text) → (check_vmnet_interface p iface ≡ none) ↔ VmnetInterface p iface
unfolding check_vmnet_interface VmnetInterface
check_vmnet_interface_iff p iface =
    ground (arith, empty_iff p.vmnet_interface, same_text_iff iface p.vmnet_interface)

check_anchor_iff :
    (p : Policy) (anchor : Text) → (check_anchor p anchor ≡ none) ↔ PodAnchor p anchor
unfolding check_anchor PodAnchor
check_anchor_iff p anchor = ground (arith, empty_iff p.anchor, same_text_iff anchor p.anchor)

-- The requests of each command that the policy admits.
unfoldable pub Sysctl : Policy → Request → Type 0
Sysctl p req =
    (req.stdin ≡ [])
    × ((req.args ≡ codes "-n" ∷ codes "kern.ostype" ∷ [])
        ⊎ ((p.vmnet_interface ≢ [])
            × ((req.args ≡ codes "-w" ∷ codes "net.inet.ip.forwarding=1" ∷ [])
                ⊎ (req.args ≡ codes "-w" ∷ codes "net.inet.ip.forwarding=0" ∷ []))))

is_forwarding_iff :
    (args : List Text)
    → (is_forwarding args ≡ true) ↔ (
        (args ≡ codes "-w" ∷ codes "net.inet.ip.forwarding=1" ∷ [])
        ⊎ (args ≡ codes "-w" ∷ codes "net.inet.ip.forwarding=0" ∷ []))
unfolding is_forwarding
is_forwarding_iff [] = ground arith
is_forwarding_iff (a ∷ []) = ground arith
is_forwarding_iff (a ∷ b ∷ []) = ground (
  arith,
  same_text_iff a (codes "-w"),
  same_text_iff b (codes "net.inet.ip.forwarding=1"),
  same_text_iff b (codes "net.inet.ip.forwarding=0"),
)
is_forwarding_iff (a ∷ b ∷ c ∷ args) = ground arith

pub Sysctl-iff : (p : Policy) (req : Request) → (validate_sysctl p req ≡ none) ↔ Sysctl p req
unfolding validate_sysctl Sysctl
Sysctl-iff p req = ground (
  arith,
  empty_iff req.stdin,
  empty_iff p.vmnet_interface,
  args_equal_iff req.args (codes "-n" ∷ codes "kern.ostype" ∷ []),
  is_forwarding_iff req.args,
)

unfoldable pub Pfctl : Policy → Request → Type 0
Pfctl p req =
    ((req.args ≡ codes "-e" ∷ []) × (req.stdin ≡ []))
    ⊎ ((p.anchor ≢ [])
        × (((req.args ≡ codes "-a" ∷ p.anchor ∷ codes "-F" ∷ codes "all" ∷ []) × (req.stdin ≡ []))
            ⊎ ((req.args ≡ codes "-a" ∷ p.anchor ∷ codes "-f" ∷ codes "-" ∷ [])
                × (lint_anchor_ruleset p req.stdin ≡ none))))

pub Pfctl-iff :
    (p : Policy) (name : Text) (args : List Text) (stdin : Text)
    → let req : Request = record { name = name; args = args; stdin = stdin } in
      (validate_pfctl p req ≡ none) ↔ Pfctl p req
unfolding validate_pfctl Pfctl PodAnchor args_equal
Pfctl-iff p name [] stdin = ground arith
Pfctl-iff p name (a ∷ []) stdin = ground (arith, same_text_iff a (codes "-e"), empty_iff stdin)
Pfctl-iff p name (a ∷ b ∷ []) stdin = ground arith
Pfctl-iff p name (a ∷ b ∷ c ∷ []) stdin = ground arith
Pfctl-iff p name (a ∷ anchor ∷ op ∷ last ∷ []) stdin = ground (
  arith,
  same_text_iff a (codes "-a"),
  same_text_iff op (codes "-F"),
  same_text_iff last (codes "all"),
  same_text_iff op (codes "-f"),
  same_text_iff last (codes "-"),
  check_anchor_iff p anchor,
  empty_iff stdin,
)
Pfctl-iff p name (a ∷ b ∷ c ∷ d ∷ e ∷ args) stdin = ground arith
