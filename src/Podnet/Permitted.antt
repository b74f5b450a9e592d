-- ===== src/Podnet/Permitted.antt =====
-- pkg/network: every command of the router's operations is one that the privileged helper permits,
-- and the router's state stays within the policy.
use macvz.Prelude.{
  if◌then◌else◌, Option-cases, All, is_empty, Text, codes_key, text_key, number_key, ◌≡◌, refl, ◌⊎◌,
  inl, inr, Bool, true, false, not, none, some, List, [], ◌∷◌, arith,
}
use macvz.Prelude.Dict.{Dict, get, put, remove}
use macvz.Network.Parse.{net_key}
use macvz.Privhelper.Checks.{Policy, ip_in_set}
use macvz.Privhelper.Grammar.{empty_iff}
use macvz.Podnet.{
  Router, Commands, CommandRunner, validate_endpoint, remove_default_route, resolve_interface,
}
use macvz.Podnet.Rule.{ServiceRule, no_service_key, not_started, validate_rule}
use macvz.Podnet.Render.{Endpoint}
use macvz.Podnet.Steps.{
  or_else, place, attach, detach, kept_rules, attach_service, detach_service, stop,
}
use macvz.Podnet.Ready.{Vmnet, ReadyConfig, ReadyEndpoint, ReadyRule, Ready}
use macvz.Podnet.Commands.{
  Permits, Kept, ReadyOp, kept, get_route-permitted, if-Kept, load_anchor-Kept, remove_default-All,
  Ready-interface, start-Kept, Ready-remove, Ready-remove_service, Ready-services, Ready-cleared,
  Ready-stopped, Ready-flush, attach_on-Kept,
}
use macvz.Podnet.Loaded.{
  Op, op_start, op_stop, op_attach, op_detach, op_attach_service, op_detach_service, apply,
}
use macvz.Prelude.Dict

module _ (p : Policy) where
  or_else-Vmnet : (a b : Text) → (a ≡ []) ⊎ Vmnet p a → Vmnet p b → Vmnet p (or_else a b)
  or_else-Vmnet [] b h v = v
  or_else-Vmnet (c ∷ a) b (inl e) v = absurd (cc)
  or_else-Vmnet (c ∷ a) b (inr w) v = w

  -- The endpoint with an interface, and the commands run to find it.
  Placed : Endpoint × Commands → Type 0
  Placed o = ReadyEndpoint p o.0 × Vmnet p o.0.interface × All (Permits p) o.1

  if_Placed :
      (b : Bool) (o x : Endpoint × Commands)
      → (b ≡ true → Placed o)
      → (b ≡ false → Placed x)
      → Placed (if b then o else x)
  if_Placed true o x h k = h refl
  if_Placed false o x h k = k refl

  ready_on :
      (ep : Endpoint) (iface : Text)
      → ReadyEndpoint p ep
      → Vmnet p iface
      → ReadyEndpoint p (record ep { interface = iface })
  unfolding ReadyEndpoint
  ready_on ep iface e v = (e.0, e.1, e.2, e.3, e.4, inr v)

  ready_vm : (ep : Endpoint) → ReadyEndpoint p ep → ip_in_set ep.vm_ip p.vmnet_cidrs ≡ true
  unfolding ReadyEndpoint
  ready_vm ep e = e.3

  own_interface :
      (ep : Endpoint) → ReadyEndpoint p ep → is_empty ep.interface ≡ false → Vmnet p ep.interface
  unfolding ReadyEndpoint
  own_interface ep e f = elim e.5 [
    | inl n ↦ absurd (ground (arith, empty_iff ep.interface, n, f))
    | inr v ↦ v
  ]

  Ready-config : (rt : Router) → Ready p rt → Vmnet p rt.cfg.interface
  unfolding Ready ReadyConfig
  Ready-config rt h = h.0.0

  place-Placed :
      (run : CommandRunner) (rt : Router) (ep : Endpoint) (done : Commands)
      → Ready p rt
      → ReadyOp p run (op_attach ep)
      → All (Permits p) done
      → Placed (place run rt ep done)
  unfolding place ReadyOp Placed
  place-Placed run rt ep done h (e, res) d =
      let iface = or_else (resolve_interface run ep.vm_ip done) rt.cfg.interface in
      let v =
        or_else-Vmnet (resolve_interface run ep.vm_ip done) rt.cfg.interface (res done)
          (Ready-config rt h) in
      if_Placed (is_empty ep.interface) _ _
        (λ t. (ready_on ep iface e v, v, (get_route-permitted p ep.vm_ip (ready_vm ep e), d)))
        (λ f. (e, own_interface ep e f, d))

  attach-Kept :
      (run : CommandRunner) (rt : Router) (ep : Endpoint) (done : Commands)
      → Ready p rt
      → ReadyOp p run (op_attach ep)
      → All (Permits p) done
      → Kept p (attach run rt ep done)
  unfolding attach Placed
  attach-Kept run rt ep done h o d =
      let removed = remove_default_route run rt.cfg.interface done in
      let r = remove_default-All p run rt.cfg.interface done (Ready-interface p rt h) d in
      let placed = place run rt ep removed.1 in
      let (e, v, c) = place-Placed run rt ep removed.1 h o r in
      elim (Option-cases (validate_endpoint ep)) [
        | inr (x, f) ↦ rw (f, attach) (kept p (some x) rt done h d)
        | inl f ↦
            rw (f, attach)
              (if-Kept p (not rt.started) _ _ (kept p (some not_started) rt done h d)
                (elim (Option-cases removed.0) [
                  | inr (x, g) ↦ rw g (kept p (some x) rt removed.1 h r)
                  | inl g ↦ rw g (attach_on-Kept p run rt placed.0 placed.1 h e v c)
                ]))
      ]

  detach-Kept :
      (run : CommandRunner) (rt : Router) (key : Text) (done : Commands)
      → Ready p rt
      → All (Permits p) done
      → Kept p (detach run rt key done)
  unfolding detach
  detach-Kept run rt key done h d =
      let dropped = record rt { endpoints = Dict.remove rt.endpoints key } in
      let k = Ready-remove p rt key h in
      elim (Option-cases (Dict.get rt.endpoints key)) [
        | inl e ↦ rw (e, detach) (kept p none rt done h d)
        | inr (ep, e) ↦
            rw (e, detach)
              (if-Kept p (not rt.started) _ _ (kept p none dropped done k d)
                (load_anchor-Kept p run dropped done k d))
      ]

  detach_service-Kept :
      (run : CommandRunner) (rt : Router) (key : Text) (done : Commands)
      → Ready p rt
      → All (Permits p) done
      → Kept p (detach_service run rt key done)
  unfolding detach_service
  detach_service-Kept run rt key done h d =
      let dropped = record rt { services = Dict.remove rt.services key } in
      let k = Ready-remove_service p rt key h in
      elim (Option-cases (Dict.get rt.services key)) [
        | inl e ↦ rw (e, detach_service) (kept p none rt done h d)
        | inr (ep, e) ↦
            rw (e, detach_service)
              (if-Kept p (not rt.started) _ _ (kept p none dropped done k d)
                (load_anchor-Kept p run dropped done k d))
      ]

  kept_rules-Ready :
      (rules : List ServiceRule) → All (ReadyRule p) rules → All (ReadyRule p) (kept_rules rules).1
  unfolding kept_rules
  kept_rules-Ready [] h = tt
  kept_rules-Ready (r ∷ rules) h = elim (Option-cases (validate_rule r)) [
    | inl e ↦ rw (e, kept_rules) (ground (arith, h.0, kept_rules-Ready rules h.1))
    | inr (x, e) ↦ rw (e, kept_rules) tt
  ]

  attach_service-Kept :
      (run : CommandRunner) (rt : Router) (key : Text) (rules : List ServiceRule) (done : Commands)
      → Ready p rt
      → All (ReadyRule p) rules
      → All (Permits p) done
      → Kept p (attach_service run rt key rules done)
  unfolding attach_service
  attach_service-Kept run rt key rules done h g d =
      let (err, ks) = kept_rules rules in
      let services =
        if is_empty ks then Dict.remove rt.services key else Dict.put rt.services key ks in
      let k = Ready-services p rt key ks h (kept_rules-Ready rules g) in
      if-Kept p (is_empty key) _ _ (kept p (some no_service_key) rt done h d)
        (elim (Option-cases err) [
          | inr (x, e) ↦ rw e (kept p (some x) rt done h d)
          | inl e ↦ rw e (
              if-Kept p (not rt.started) _ _ (kept p (some not_started) rt done h d)
                (load_anchor-Kept p run (record rt { services = services }) done k d))
        ])

  stop-Kept :
      (rt : Router) (done : Commands) → Ready p rt → All (Permits p) done → Kept p (stop rt done)
  unfolding stop
  stop-Kept rt done h d =
      if-Kept p (not rt.started) _ _ (kept p none _ done (Ready-cleared p rt h) d)
        (kept p none _ _ (Ready-stopped p rt h) (Ready-flush p rt h, d))

  -- An operation keeps the router's state within the policy, and runs permitted commands only, if the
  -- endpoint or the rules that it is given are within the policy, and if the interface that the host
  -- names for the endpoint's VM address, when it names one, is one that the policy permits.
  pub apply-Kept :
      (run : CommandRunner) (op : Op) (rt : Router) (done : Commands)
      → Ready p rt
      → ReadyOp p run op
      → All (Permits p) done
      → Ready p (apply run op rt done).1 × All (Permits p) (apply run op rt done).2
  unfolding apply ReadyOp Kept
  apply-Kept run op_start rt done h o d = start-Kept p run rt done h d
  apply-Kept run op_stop rt done h o d = stop-Kept rt done h d
  apply-Kept run (op_attach ep) rt done h o d = attach-Kept run rt ep done h o d
  apply-Kept run (op_detach key) rt done h o d = detach-Kept run rt key done h d
  apply-Kept run (op_attach_service key rules) rt done h o d =
      attach_service-Kept run rt key rules done h o d
  apply-Kept run (op_detach_service key) rt done h o d = detach_service-Kept run rt key done h d
