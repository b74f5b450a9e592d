-- ===== src/Privhelper/Closed.antt =====
-- pkg/network/privhelper/policy.go: what the zero policy permits.
use macvz.Prelude.{
  Option-cases, Text, codes, same_text_iff, codes_key, text_key, number_key, ◌≡◌, refl, ◌↔◌, ◌⊎◌,
  inl, inr, true, false, none, List, [], ◌∷◌, arith,
}
use macvz.Privhelper.{validate}
use macvz.Privhelper.Checks.{Policy, Request, any_contains, ip_in_set, is_read_only_probe}
use macvz.Privhelper.Grammar.{args_equal_iff, MeshInterface, VmnetInterface, Sysctl, Pfctl}
use macvz.Privhelper.Routes.{RouteArgs, Route, IfconfigArgs, Ifconfig}
use macvz.Privhelper.Permits.{WgArgs, Wg, WireguardGo, Pkill, Permitted, validate_iff}
use macvz.Network.Parse.{parse_ip_text, net_key}

-- The zero value of a Policy.
abbrev pub zero_policy : Policy
zero_policy = record {
  mesh_interface = [];
  vmnet_interface = [];
  anchor = [];
  mesh_address_ip = [];
  mtu = 0;
  route_cidrs = [];
  pod_cidrs = [];
  vmnet_cidrs = [];
  peer_public_keys = [];
}

no_cidrs : (raw : Text) → ip_in_set raw [] ≡ false
unfolding ip_in_set any_contains
no_cidrs raw = elim (Option-cases (parse_ip_text raw)) [
  | inl e ↦ rw (e, ip_in_set) refl
  | inr (ip, e) ↦ rw (e, ip_in_set) refl
]

no_route : (args : List Text) → RouteArgs zero_policy args → ⊥
unfolding RouteArgs MeshInterface VmnetInterface
no_route [] h = h
no_route (a ∷ []) h = h
no_route (a ∷ b ∷ []) h = h
no_route (a ∷ b ∷ c ∷ []) (e, f, h) = ground (arith, no_cidrs c, h)
no_route (a ∷ b ∷ c ∷ d ∷ []) h = h
no_route (a ∷ b ∷ c ∷ d ∷ e ∷ []) h = h
no_route (a ∷ b ∷ c ∷ d ∷ e ∷ f ∷ []) h = h
no_route (a ∷ b ∷ c ∷ d ∷ e ∷ f ∷ g ∷ []) (i, j, inl (k, l, m, n, v)) = v.0 refl
no_route (a ∷ b ∷ c ∷ d ∷ e ∷ f ∷ g ∷ []) (i, j, inr (k, l, m, v, r)) = v.0 refl
no_route (a ∷ b ∷ c ∷ d ∷ e ∷ f ∷ g ∷ h ∷ args) k = k

no_link : (args : List Text) → IfconfigArgs zero_policy args → ⊥
unfolding IfconfigArgs MeshInterface
no_link [] h = h
no_link (iface ∷ rest) h = h.0.0 refl

no_wg : (args : List Text) → WgArgs zero_policy args → ⊥
unfolding WgArgs MeshInterface
no_wg [] h = h
no_wg (a ∷ []) h = h
no_wg (a ∷ b ∷ []) h = h
no_wg (a ∷ b ∷ c ∷ []) (e, f, m) = m.0 refl
no_wg (a ∷ b ∷ c ∷ d ∷ args) h = h

-- Under the zero policy the helper permits the read-only probe and the enabling of pf, each without
-- an input, and nothing else.
pub fail_closed :
    (req : Request)
    → (validate zero_policy req ≡ none) ↔ (
        ((is_read_only_probe req ≡ true) × (req.stdin ≡ []))
        ⊎ ((req.name ≡ codes "pfctl") × (req.args ≡ codes "-e" ∷ []) × (req.stdin ≡ [])))
unfolding Permitted Sysctl Pfctl Route Ifconfig Wg WireguardGo Pkill is_read_only_probe
fail_closed req = ground (
  arith,
  validate_iff zero_policy req,
  no_route req.args,
  no_link req.args,
  no_wg req.args,
  args_equal_iff req.args (codes "-n" ∷ codes "kern.ostype" ∷ []),
  same_text_iff req.name (codes "sysctl"),
)
