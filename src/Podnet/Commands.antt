-- ===== src/Podnet/Commands.antt =====
-- pkg/network: the commands of the router that the privileged helper permits, and the start.
use macvz.Prelude.{
  if◌then◌else◌, Option-cases, All, is_empty, Text, codes, codes_key, text_key, number_key, ◌≡◌,
  refl, ◌≢◌, ◌⊎◌, inl, inr, Bool, true, false, Option, none, some, List, [], ◌∷◌,
}
use macvz.Prelude.Dict.{Dict, empty, put, remove, All-remove, All-put}
use macvz.Network.Parse.{net_key}
use macvz.Privhelper.{validate}
use macvz.Privhelper.Checks.{Policy, Request, ip_in_set}
use macvz.Privhelper.Grammar.{VmnetInterface, Sysctl, Pfctl}
use macvz.Privhelper.Routes.{RouteArgs, Route}
use macvz.Privhelper.Permits.{Permitted, validate_iff}
use macvz.Podnet.{
  Router, Commands, CommandRunner, forwarding_command, enable_command, drop_default_command,
  get_route_command, flush_command, run_tolerating, remove_default_route, resolve_interface,
}
use macvz.Podnet.Rule.{ServiceRule, PodnetError, interface_required, command_failed}
use macvz.Podnet.Render.{Endpoint}
use macvz.Podnet.Steps.{Outcome, load_anchor, start_filter, start, attach_on}
use macvz.Podnet.Ready.{Vmnet, ReadyConfig, ReadyEndpoint, ReadyRule, Ready}
use macvz.Podnet.Rendered.{load-permitted}
use macvz.Podnet.Loaded.{Op, op_attach, op_attach_service}
use macvz.Prelude.Dict

module _ (p : Policy) where
  abbrev pub Permits : Request → Type 0
  Permits c = validate p c ≡ none

  -- The state stays within the policy, and so do the commands.
  unfoldable pub Kept : Outcome → Type 0
  Kept o = Ready p o.1 × All Permits o.2

  unfoldable pub ReadyOp : CommandRunner → Op → Type 0
  ReadyOp run (op_attach ep) =
      ReadyEndpoint p ep
      × ((done : Commands)
          → (resolve_interface run ep.vm_ip done ≡ [])
            ⊎ Vmnet p (resolve_interface run ep.vm_ip done))
  ReadyOp run (op_attach_service key rules) = All (ReadyRule p) rules
  ReadyOp run _ = Unit

  pub kept :
      (e : Option PodnetError) (rt : Router) (done : Commands)
      → Ready p rt
      → All Permits done
      → Kept (e, rt, done)
  unfolding Kept
  kept e rt done h d = (h, d)

  pub forwarding-permitted : p.vmnet_interface ≢ [] → Permits forwarding_command
  unfolding Permitted Sysctl
  forwarding-permitted v =
      (validate_iff p forwarding_command).1 (inl (refl, (refl, inr (v, inl refl))))

  pub enable-permitted : Permits enable_command
  unfolding Permitted Pfctl
  enable-permitted = (validate_iff p enable_command).1 (inr (inl (refl, inl (refl, refl))))

  pub flush-permitted : p.anchor ≢ [] → Permits (flush_command p.anchor)
  unfolding Permitted Pfctl
  flush-permitted a =
      (validate_iff p (flush_command p.anchor)).1 (inr (inl (refl, inr (a, inl (refl, refl)))))

  pub drop_default-permitted :
      (iface : Text) → VmnetInterface p iface → Permits (drop_default_command iface)
  unfolding Permitted Route RouteArgs
  drop_default-permitted iface v =
      (validate_iff p (drop_default_command iface)).1
        (inr (inr (inl (refl, (refl, (refl, refl, inl (refl, refl, refl, refl, v)))))))

  pub get_route-permitted :
      (ip : Text) → ip_in_set ip p.vmnet_cidrs ≡ true → Permits (get_route_command ip)
  unfolding Permitted Route RouteArgs
  get_route-permitted ip i =
      (validate_iff p (get_route_command ip)).1 (inr (inr (inl (refl, (refl, (refl, refl, i))))))

  pub if-Kept : (b : Bool) (o x : Outcome) → Kept o → Kept x → Kept (if b then o else x)
  if-Kept true o x h k = h
  if-Kept false o x h k = k

  pub load_anchor-Kept :
      (run : CommandRunner) (rt : Router) (done : Commands)
      → Ready p rt
      → All Permits done
      → Kept (load_anchor run rt done)
  unfolding load_anchor Kept
  load_anchor-Kept run rt done h d = (h, (load-permitted p rt h, d))

  pub remove_default-All :
      (run : CommandRunner) (iface : Text) (done : Commands)
      → VmnetInterface p iface
      → All Permits done
      → All Permits (remove_default_route run iface done).1
  unfolding remove_default_route
  remove_default-All run iface done v d = (drop_default-permitted iface v, d)

  pub Ready-started : (rt : Router) → Ready p rt → Ready p (record rt { started = true })
  unfolding Ready
  Ready-started rt h = h

  pub Ready-interface : (rt : Router) → Ready p rt → VmnetInterface p rt.cfg.interface
  unfolding Ready ReadyConfig Vmnet
  Ready-interface rt h = h.0.0.1

  pub Ready-vmnet : (rt : Router) → Ready p rt → p.vmnet_interface ≢ []
  unfolding VmnetInterface
  Ready-vmnet rt h = (Ready-interface rt h).0

  pub start_filter-Kept :
      (run : CommandRunner) (rt : Router) (done : Commands)
      → Ready p rt
      → All Permits done
      → Kept (start_filter run rt done)
  unfolding start_filter
  start_filter-Kept run rt done h d =
      let enabled = enable_command ∷ done in
      let removed = remove_default_route run rt.cfg.interface enabled in
      let e : All Permits enabled = (enable-permitted, d) in
      let r = remove_default-All run rt.cfg.interface enabled (Ready-interface rt h) e in
      elim (Option-cases
        (run_tolerating run (codes "pf already enabled" ∷ []) enable_command done)) [
          | inr (x, f) ↦
              rw (f, start_filter) (kept (some (command_failed (codes "enable pf"))) rt enabled h e)
          | inl f ↦
              rw (f, start_filter)
                (elim (Option-cases removed.0) [
                  | inr (x, g) ↦ rw g (kept (some x) rt removed.1 h r)
                  | inl g ↦ rw g (
                      load_anchor-Kept run (record rt { started = true }) removed.1
                        (Ready-started rt h) r)
                ])
        ]

  pub start-Kept :
      (run : CommandRunner) (rt : Router) (done : Commands)
      → Ready p rt
      → All Permits done
      → Kept (start run rt done)
  unfolding start
  start-Kept run rt done h d =
      let toggled = forwarding_command ∷ done in
      let t : All Permits toggled = (forwarding-permitted (Ready-vmnet rt h), d) in
      if-Kept (is_empty rt.cfg.interface) _ _ (kept (some interface_required) rt done h d) (
        if-Kept rt.cfg.enable_forwarding _ _
          (elim (Option-cases (run done forwarding_command).1) [
            | inr (x, e) ↦
                rw e (kept (some (command_failed (codes "enable ip forwarding"))) rt toggled h t)
            | inl e ↦ rw e (start_filter-Kept run rt toggled h t)
          ])
          (start_filter-Kept run rt done h d))

  pub Ready-put :
      (rt : Router) (ep : Endpoint)
      → Ready p rt
      → ReadyEndpoint p ep
      → Ready p (record rt { endpoints = Dict.put rt.endpoints ep.pod_key ep })
  unfolding Ready
  Ready-put rt ep h e =
      (h.0, Dict.All-put (λ kv. ReadyEndpoint p kv.1) rt.endpoints ep.pod_key ep e h.1, h.2)

  pub Ready-remove :
      (rt : Router) (key : Text)
      → Ready p rt
      → Ready p (record rt { endpoints = Dict.remove rt.endpoints key })
  unfolding Ready
  Ready-remove rt key h =
      (h.0, Dict.All-remove (λ kv. ReadyEndpoint p kv.1) rt.endpoints key h.1, h.2)

  pub Ready-remove_service :
      (rt : Router) (key : Text)
      → Ready p rt
      → Ready p (record rt { services = Dict.remove rt.services key })
  unfolding Ready
  Ready-remove_service rt key h =
      (h.0, h.1, Dict.All-remove (λ kv. All (ReadyRule p) kv.1) rt.services key h.2)

  pub Ready-put_service :
      (rt : Router) (key : Text) (rules : List ServiceRule)
      → Ready p rt
      → All (ReadyRule p) rules
      → Ready p (record rt { services = Dict.put rt.services key rules })
  unfolding Ready
  Ready-put_service rt key rules h g =
      (h.0, h.1, Dict.All-put (λ kv. All (ReadyRule p) kv.1) rt.services key rules g h.2)

  pub Ready-services :
      (rt : Router) (key : Text) (rules : List ServiceRule)
      → Ready p rt
      → All (ReadyRule p) rules
      → Ready p (record rt {
        services =
            if is_empty rules then Dict.remove rt.services key else Dict.put rt.services key rules;
      })
  Ready-services rt key [] h g = Ready-remove_service rt key h
  Ready-services rt key (r ∷ rules) h g = Ready-put_service rt key (r ∷ rules) h g

  pub Ready-cleared :
      (rt : Router)
      → Ready p rt
      → Ready p (record rt { endpoints = Dict.empty; services = Dict.empty })
  unfolding Ready Dict.empty
  Ready-cleared rt h = (h.0, tt, tt)

  pub Ready-stopped :
      (rt : Router)
      → Ready p rt
      → Ready p (record rt { endpoints = Dict.empty; services = Dict.empty; started = false })
  unfolding Ready Dict.empty
  Ready-stopped rt h = (h.0, tt, tt)

  pub Ready-flush : (rt : Router) → Ready p rt → Permits (flush_command rt.cfg.anchor)
  unfolding Ready ReadyConfig
  Ready-flush rt h = rw h.0.2 (flush-permitted h.0.1)

  pub attach_on-Kept :
      (run : CommandRunner) (rt : Router) (ep : Endpoint) (done : Commands)
      → Ready p rt
      → ReadyEndpoint p ep
      → Vmnet p ep.interface
      → All Permits done
      → Kept (attach_on run rt ep done)
  unfolding attach_on Vmnet
  attach_on-Kept run rt ep done h e v d =
      let removed = remove_default_route run ep.interface done in
      let r = remove_default-All run ep.interface done v.1 d in
      elim (Option-cases removed.0) [
        | inr (x, g) ↦ rw (g, attach_on) (kept (some x) rt removed.1 h r)
        | inl g ↦
            rw (g, attach_on)
              (load_anchor-Kept run (record rt { endpoints = Dict.put rt.endpoints ep.pod_key ep })
                removed.1 (Ready-put rt ep h e) r)
      ]
