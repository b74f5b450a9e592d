-- ===== src/Podnet/Rendered.antt =====
-- pkg/network: the whole ruleset of a router whose state stays within the policy is accepted.
use macvz.Prelude.{
  Bool-cases, All, is_empty, contains, Text, codes, codes_key, text_ltb, text_key, number_key, ◌≡◌,
  refl, ap, inl, inr, true, none, List, [], ◌∷◌, ◌++◌, map, arith,
}
use macvz.Prelude.Sort.{sort, All-sort}
use macvz.Prelude.Dict.{Dict, empty}
use macvz.Prelude.Strings.{join, itoa}
use macvz.Prelude.Lines.{no_break-is_word, no_breaks, no_break-join}
use macvz.Prelude.Digits.{is_word-itoa}
use macvz.Network.Parse.{net_key}
use macvz.Privhelper.{validate}
use macvz.Privhelper.Checks.{Policy}
use macvz.Privhelper.Grammar.{VmnetInterface, Pfctl}
use macvz.Podnet.{
  Router, load_command, endpoints_sorted, note_interfaces, vmnet_interfaces, vmip_by_pod_ip,
  anchor_rules,
}
use macvz.Podnet.Rule.{ServiceRule}
use macvz.Podnet.Render.{
  Endpoint, note_interface, endpoint_lines, render_anchor, rule_less, targets_of, rdr_lines,
  comment_parts, rule_comment, rule_lines, key_less, service_lines, render_service_rules,
}
use macvz.Podnet.Accepted.{
  Passed, nil-Passed, append-Passed, comment-Passed, accepted-Passed, Plain-break,
}
use macvz.Podnet.Redirect.{Redirectable}
use macvz.Podnet.Ready.{
  Vmnet, ReadyConfig, ReadyEndpoint, ReadyRule, Ready, noted, endpoint_lines-Passed,
}
use macvz.Privhelper.Permits.{Permitted, validate_iff}
use macvz.Podnet.Targets.{
  nil_no_break, ReadyMap, empty-ReadyMap, note_vm_ips-ReadyMap, targets-Target, targets_some,
  rdr_lines-Passed,
}
use macvz.Prelude.Dict

module _ (p : Policy) where
  comment_break : (r : ServiceRule) → Redirectable r → no_breaks (comment_parts r) ≡ true
  unfolding Redirectable contains
  comment_break r g = ground (
    arith,
    g.0,
    Plain-break r.cluster_ip g.1,
    no_break-is_word (itoa r.port) (is_word-itoa r.port),
    no_break-is_word (itoa r.target_port) (is_word-itoa r.target_port),
  )

  rule_lines-Passed :
      (ifaces : List Text) (vmips : Dict Text Text) (rules : List ServiceRule)
      → All (Vmnet p) ifaces
      → ReadyMap p vmips
      → All (ReadyRule p) rules
      → Passed p (rule_lines ifaces vmips rules)
  unfolding rule_lines ReadyRule
  rule_lines-Passed ifaces vmips [] i m h = nil-Passed p
  rule_lines-Passed ifaces vmips (r ∷ rules) i m h =
      let ts = targets_of vmips r in
      append-Passed p (rule_comment r) (rdr_lines r ts ifaces ++ rule_lines ifaces vmips rules)
        (comment-Passed p (join [] (comment_parts r))
          (no_break-join [] (comment_parts r) nil_no_break (comment_break r h.0.0)))
        (append-Passed p (rdr_lines r ts ifaces) (rule_lines ifaces vmips rules)
          (rdr_lines-Passed p r ts ifaces h.0.0 (targets_some p vmips r h.0)
            (targets-Target p vmips r m h.0) i)
          (rule_lines-Passed ifaces vmips rules i m h.1))

  service_lines-Passed :
      (ifaces : List Text) (vmips : Dict Text Text) (services : List (Text × List ServiceRule))
      → All (Vmnet p) ifaces
      → ReadyMap p vmips
      → All (λ kv. All (ReadyRule p) kv.1) services
      → Passed p (service_lines ifaces vmips services)
  unfolding service_lines
  service_lines-Passed ifaces vmips [] i m h = nil-Passed p
  service_lines-Passed ifaces vmips ((key, rules) ∷ services) i m h =
      append-Passed p (rule_lines ifaces vmips (sort rule_less rules))
        (service_lines ifaces vmips services)
        (rule_lines-Passed ifaces vmips (sort rule_less rules) i m
          (All-sort rule_less (ReadyRule p) rules h.0))
        (service_lines-Passed ifaces vmips services i m h.1)

  note_interfaces-Vmnet :
      (eps : List (Text × Endpoint)) (seen : List Text)
      → All (λ kv. ReadyEndpoint p kv.1) eps
      → All (Vmnet p) seen
      → All (Vmnet p) (note_interfaces eps seen)
  unfolding note_interfaces ReadyEndpoint
  note_interfaces-Vmnet [] seen h s = s
  note_interfaces-Vmnet ((key, ep) ∷ eps) seen h s =
      note_interfaces-Vmnet eps (note_interface ep.interface seen) h.1
        (noted p (Vmnet p) ep.interface seen h.0.5 s)

  interfaces-Vmnet : (rt : Router) → Ready p rt → All (Vmnet p) (vmnet_interfaces rt)
  unfolding vmnet_interfaces Ready ReadyConfig
  interfaces-Vmnet rt h = All-sort text_ltb (Vmnet p) _ (
      note_interfaces-Vmnet rt.endpoints.entries _ h.1
        (noted p (Vmnet p) rt.cfg.interface [] (inr h.0.0) tt))

  services-Passed :
      (rt : Router)
      → Ready p rt
      → Passed p (render_service_rules (vmnet_interfaces rt) rt.services (vmip_by_pod_ip rt))
  unfolding render_service_rules Ready
  services-Passed rt h = elim (Bool-cases (is_empty (vmnet_interfaces rt))) [
    | inl t ↦ rw t (nil-Passed p)
    | inr f ↦ rw f (
        service_lines-Passed (vmnet_interfaces rt) (vmip_by_pod_ip rt)
          (sort key_less rt.services.entries) (interfaces-Vmnet rt h)
          (note_vm_ips-ReadyMap p rt.endpoints.entries Dict.empty h.1 (empty-ReadyMap p))
          (All-sort key_less (λ kv. All (ReadyRule p) kv.1) rt.services.entries h.2))
  ]

  -- The header of the ruleset.
  header-Passed : Passed p (codes "# Managed by macvz (issue #22). Do not edit by hand." ++ 10 ∷ [])
  unfolding contains
  header-Passed =
      comment-Passed p (codes " Managed by macvz (issue #22). Do not edit by hand.") refl

  values :
      (eps : List (Text × Endpoint))
      → All (λ kv. ReadyEndpoint p kv.1) eps
      → All (ReadyEndpoint p) (map (λ kv. kv.1) eps)
  values [] h = tt
  values (kv ∷ eps) h = (h.0, values eps h.1)

  rules-Passed : (rt : Router) → Ready p rt → Passed p (anchor_rules rt)
  unfolding anchor_rules render_anchor Ready
  rules-Passed rt h =
      append-Passed p (render_anchor rt.cfg.interface rt.cfg.mesh_interface (endpoints_sorted rt))
        (render_service_rules (vmnet_interfaces rt) rt.services (vmip_by_pod_ip rt))
        (append-Passed p (codes "# Managed by macvz (issue #22). Do not edit by hand." ++ 10 ∷ [])
          (endpoint_lines rt.cfg.interface rt.cfg.mesh_interface (endpoints_sorted rt))
          header-Passed
          (endpoint_lines-Passed p rt.cfg (endpoints_sorted rt) h.0 (
            All-sort (λ a b. text_ltb a.pod_key b.pod_key) (ReadyEndpoint p) _
              (values rt.endpoints.entries h.1))))
        (services-Passed rt h)

  -- The privileged helper permits the load of a router's ruleset, if the router's configuration,
  -- endpoints and redirects stay within the policy.
  pub load-permitted :
      (rt : Router) → Ready p rt → validate p (load_command rt.cfg.anchor (anchor_rules rt)) ≡ none
  unfolding Ready ReadyConfig Vmnet VmnetInterface Permitted Pfctl
  load-permitted rt h =
      let accepted = accepted-Passed p (anchor_rules rt) h.0.0.1.0 (rules-Passed rt h) in
      let args = ap (λ a. codes "-a" ∷ a ∷ codes "-f" ∷ codes "-" ∷ []) h.0.2 in
      (validate_iff p (load_command rt.cfg.anchor (anchor_rules rt))).1
        (inr (inl (refl, inr (h.0.1, inr (args, accepted)))))
