-- ===== src/Podnet/Ready.antt =====
-- pkg/network: a router whose state stays within the policy renders a ruleset that the privileged
-- helper accepts.
use macvz.Prelude.{
  if◌then◌else◌, All, is_empty, contains, contains-cons, Text, codes, codes_key, text_ltb, text_key,
  number_key, ◌≡◌, ◌≢◌, ◌⊎◌, inl, inr, Bool, true, false, List, [], ◌∷◌, ◌++◌, arith,
}
use macvz.Prelude.Sort.{All-sort}
use macvz.Prelude.Words.{is_word}
use macvz.Network.Parse.{net_key}
use macvz.Privhelper.Checks.{Policy, ip_in_set}
use macvz.Privhelper.Grammar.{VmnetInterface}
use macvz.Privhelper.Rules.{NatInterface}
use macvz.Podnet.{RouterConfig, Router}
use macvz.Podnet.Rule.{ServiceRule}
use macvz.Podnet.Render.{
  Endpoint, note_interface, endpoint_binat_interfaces, binat_line, binat_lines, endpoint_lines,
}
use macvz.Podnet.Accepted.{
  Passed, nil-Passed, append-Passed, comment-Passed, Plain, binat_line-Passed,
}
use macvz.Podnet.Redirected.{Target}
use macvz.Podnet.Redirect.{Redirectable}

module _ (p : Policy) where
  -- An interface of rules, or none.
  unfoldable pub Vmnet : Text → Type 0
  Vmnet iface = (is_word iface ≡ true) × VmnetInterface p iface

  unfoldable pub Nat : Text → Type 0
  Nat iface = (is_word iface ≡ true) × NatInterface p iface

  unfoldable pub ReadyConfig : RouterConfig → Type 0
  ReadyConfig cfg =
      Vmnet cfg.interface
      × (p.anchor ≢ [])
      × (cfg.anchor ≡ p.anchor)
      × ((cfg.mesh_interface ≡ []) ⊎ Nat cfg.mesh_interface)

  unfoldable pub ReadyEndpoint : Endpoint → Type 0
  ReadyEndpoint ep =
      (contains ep.pod_key 10 ≡ false)
      × Plain ep.vm_ip
      × Plain ep.pod_ip
      × (ip_in_set ep.vm_ip p.vmnet_cidrs ≡ true)
      × (ip_in_set ep.pod_ip p.pod_cidrs ≡ true)
      × ((ep.interface ≡ []) ⊎ Vmnet ep.interface)

  unfoldable pub ReadyRule : ServiceRule → Type 0
  ReadyRule r = Redirectable r × (r.backends ≢ []) × All (Target p) r.backends

  -- A state within the policy.
  unfoldable pub Ready : Router → Type 0
  Ready rt =
      ReadyConfig rt.cfg
      × All (λ kv. ReadyEndpoint kv.1) rt.endpoints.entries
      × All (λ kv. All ReadyRule kv.1) rt.services.entries

  Vmnet-Nat : (iface : Text) → Vmnet iface → Nat iface
  unfolding Vmnet Nat NatInterface
  Vmnet-Nat iface (w, v) = (w, inl v)

  pub noted {κ} :
      (P : Text → Type κ) (iface : Text) (seen : List Text)
      → (iface ≡ []) ⊎ P iface
      → All P seen
      → All P (note_interface iface seen)
  noted P iface seen (inl e) h = rw e h
  noted P iface seen (inr q) h = ground (arith, q, h)

  own_or : {iface : Text} → (iface ≡ []) ⊎ Vmnet iface → (iface ≡ []) ⊎ Nat iface
  own_or (inl e) = inl e
  own_or {iface} (inr v) = inr (Vmnet-Nat iface v)

  if_All {κ} :
      (P : Text → Type κ) (b : Bool) (xs ys : List Text)
      → All P xs
      → All P ys
      → All P (if b then xs else ys)
  if_All P true xs ys h k = h
  if_All P false xs ys h k = k

  key_break : (ep : Endpoint) → ReadyEndpoint ep → contains (32 ∷ ep.pod_key) 10 ≡ false
  unfolding ReadyEndpoint
  key_break ep e = ground (arith, contains-cons 32 ep.pod_key 10, e.0)

  binat_interfaces-Nat :
      (cfg : RouterConfig) (ep : Endpoint)
      → ReadyConfig cfg
      → ReadyEndpoint ep
      → All Nat (endpoint_binat_interfaces cfg.interface cfg.mesh_interface ep)
  unfolding endpoint_binat_interfaces ReadyConfig ReadyEndpoint
  binat_interfaces-Nat cfg ep c e =
      let own = noted Nat ep.interface [] (own_or e.5) tt in
      All-sort text_ltb Nat _ (
        noted Nat cfg.mesh_interface _ c.3 (
          if_All Nat (is_empty ep.interface) _ _
            (noted Nat cfg.interface _ (inr (Vmnet-Nat cfg.interface c.0)) own) own))

  binat_lines-Passed :
      (ep : Endpoint) (ifaces : List Text)
      → ReadyEndpoint ep
      → All Nat ifaces
      → Passed p (binat_lines ep ifaces)
  unfolding binat_lines ReadyEndpoint Nat
  binat_lines-Passed ep [] e h = nil-Passed p
  binat_lines-Passed ep (iface ∷ ifaces) e h =
      append-Passed p (binat_line ep iface) (binat_lines ep ifaces)
        (binat_line-Passed p ep iface h.0.0 h.0.1 e.1 e.2 e.3 e.4)
        (binat_lines-Passed ep ifaces e h.1)

  pub endpoint_lines-Passed :
      (cfg : RouterConfig) (eps : List Endpoint)
      → ReadyConfig cfg
      → All ReadyEndpoint eps
      → Passed p (endpoint_lines cfg.interface cfg.mesh_interface eps)
  unfolding endpoint_lines
  endpoint_lines-Passed cfg [] c h = nil-Passed p
  endpoint_lines-Passed cfg (ep ∷ eps) c h =
      append-Passed p (codes "# " ++ ep.pod_key ++ 10 ∷ [])
        (binat_lines ep (endpoint_binat_interfaces cfg.interface cfg.mesh_interface ep)
          ++ endpoint_lines cfg.interface cfg.mesh_interface eps)
        (comment-Passed p (32 ∷ ep.pod_key) (key_break ep h.0))
        (append-Passed p
          (binat_lines ep (endpoint_binat_interfaces cfg.interface cfg.mesh_interface ep))
          (endpoint_lines cfg.interface cfg.mesh_interface eps)
          (binat_lines-Passed ep (endpoint_binat_interfaces cfg.interface cfg.mesh_interface ep) h.0
            (binat_interfaces-Nat cfg ep c h.0))
          (endpoint_lines-Passed cfg eps c h.1))
