-- ===== src/Privhelper/Permits.antt =====
-- pkg/network/privhelper/policy.go: Validate as a whole accepts the grammar and nothing else.
use macvz.Prelude.{
  Text, codes, same_text_iff, codes_key, text_key, number_key, ◌≡◌, ◌≢◌, ◌↔◌, ◌⊎◌, none, List, [],
  ◌∷◌, ◌++◌, arith,
}
use macvz.Prelude.Strings.{trim_prefix}
use macvz.Privhelper.{validate_wg, validate_wireguard_go, validate_pkill, validate}
use macvz.Privhelper.Checks.{Policy, Request}
use macvz.Privhelper.Grammar.{
  empty_iff, MeshInterface, check_mesh_interface_iff, Sysctl, Sysctl-iff, Pfctl, Pfctl-iff,
}
use macvz.Privhelper.Routes.{Route, Route-iff, Ifconfig, Ifconfig-iff}
use macvz.Privhelper.WgConfig.{lint_wireguard_config}
use macvz.Prelude.Words.{trim_prefix-append}

-- The requests on the WireGuard interface.
unfoldable pub WgArgs : Policy → List Text → Type 0
WgArgs p (op ∷ iface ∷ file ∷ []) =
    ((op ≡ codes "setconf") ⊎ (op ≡ codes "syncconf"))
    × (file ≡ codes "/dev/stdin")
    × MeshInterface p iface
WgArgs p _ = ⊥

unfoldable pub Wg : Policy → Request → Type 0
Wg p req = WgArgs p req.args × (lint_wireguard_config p req.stdin ≡ none)

Wg-iff :
    (p : Policy) (name : Text) (args : List Text) (stdin : Text)
    → let req : Request = record { name = name; args = args; stdin = stdin } in
      (validate_wg p req ≡ none) ↔ Wg p req
unfolding validate_wg Wg WgArgs
Wg-iff p name [] stdin = ground arith
Wg-iff p name (a ∷ []) stdin = ground arith
Wg-iff p name (a ∷ b ∷ []) stdin = ground arith
Wg-iff p name (op ∷ iface ∷ file ∷ []) stdin = ground (
  arith,
  same_text_iff op (codes "setconf"),
  same_text_iff op (codes "syncconf"),
  same_text_iff file (codes "/dev/stdin"),
  check_mesh_interface_iff p iface,
)
Wg-iff p name (a ∷ b ∷ c ∷ d ∷ args) stdin = ground arith

unfoldable pub WireguardGo : Policy → Request → Type 0
WireguardGo p req = (req.stdin ≡ []) × (p.mesh_interface ≢ []) × (req.args ≡ p.mesh_interface ∷ [])

WireguardGo-iff :
    (p : Policy) (name : Text) (args : List Text) (stdin : Text)
    → let req : Request = record { name = name; args = args; stdin = stdin } in
      (validate_wireguard_go p req ≡ none) ↔ WireguardGo p req
unfolding validate_wireguard_go WireguardGo MeshInterface
WireguardGo-iff p name [] stdin = ground (arith, empty_iff stdin)
WireguardGo-iff p name (iface ∷ []) stdin =
    ground (arith, empty_iff stdin, check_mesh_interface_iff p iface)
WireguardGo-iff p name (a ∷ b ∷ args) stdin = ground (arith, empty_iff stdin)

-- The process of the mesh interface, and no other.
unfoldable pub Pkill : Policy → Request → Type 0
Pkill p req =
    (req.stdin ≡ [])
    × (p.mesh_interface ≢ [])
    × (req.args ≡ codes "-f" ∷ (codes "wireguard-go " ++ p.mesh_interface) ∷ [])

Pkill-iff :
    (p : Policy) (name : Text) (args : List Text) (stdin : Text)
    → let req : Request = record { name = name; args = args; stdin = stdin } in
      (validate_pkill p req ≡ none) ↔ Pkill p req
unfolding validate_pkill Pkill MeshInterface
Pkill-iff p name [] stdin = ground (arith, empty_iff stdin)
Pkill-iff p name (a ∷ []) stdin = ground (arith, empty_iff stdin)
Pkill-iff p name (f ∷ pattern ∷ []) stdin = ground (
  arith,
  empty_iff stdin,
  same_text_iff f (codes "-f"),
  same_text_iff pattern (codes "wireguard-go " ++ p.mesh_interface),
  check_mesh_interface_iff p (trim_prefix pattern (codes "wireguard-go ")),
  trim_prefix-append (codes "wireguard-go ") p.mesh_interface,
)
Pkill-iff p name (a ∷ b ∷ c ∷ args) stdin = ground (arith, empty_iff stdin)

-- What the policy permits, by the command.
unfoldable pub Permitted : Policy → Request → Type 0
Permitted p req =
    ((req.name ≡ codes "sysctl") × Sysctl p req)
    ⊎ ((req.name ≡ codes "pfctl") × Pfctl p req)
    ⊎ ((req.name ≡ codes "route") × Route p req)
    ⊎ ((req.name ≡ codes "ifconfig") × Ifconfig p req)
    ⊎ ((req.name ≡ codes "wg") × Wg p req)
    ⊎ ((req.name ≡ codes "wireguard-go") × WireguardGo p req)
    ⊎ ((req.name ≡ codes "pkill") × Pkill p req)

-- The helper permits exactly the requests of the grammar, for any policy.
pub validate_iff : (p : Policy) (req : Request) → (validate p req ≡ none) ↔ Permitted p req
unfolding validate Permitted
validate_iff p req = ground (
  arith,
  same_text_iff req.name (codes "sysctl"),
  same_text_iff req.name (codes "pfctl"),
  same_text_iff req.name (codes "route"),
  same_text_iff req.name (codes "ifconfig"),
  same_text_iff req.name (codes "wg"),
  same_text_iff req.name (codes "wireguard-go"),
  same_text_iff req.name (codes "pkill"),
  Sysctl-iff p req,
  Pfctl-iff p req.name req.args req.stdin,
  Route-iff p req.name req.args req.stdin,
  Ifconfig-iff p req.name req.args req.stdin,
  Wg-iff p req.name req.args req.stdin,
  WireguardGo-iff p req.name req.args req.stdin,
  Pkill-iff p req.name req.args req.stdin,
)
