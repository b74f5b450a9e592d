-- ===== src/Svcroute/Backends.antt =====
-- Where a Service's traffic may go.
use macvz.Prelude.{
  Bool-cases, Option-cases, All, is_empty, keep, contains, contains-cons, contains-keep, map_self,
  Text, codes, same_text_iff, codes_key, text_ltb, text_key, number_key, ◌==◌, ℕ, String, ◌≡◌, refl,
  ◌∙◌, inl, inr, Bool, true, false, not, ◌&&◌, ◌||◌, Option, none, some, List, [], ◌∷◌, map, arith,
}
use macvz.Prelude.Sort.{sort, contains-sort}
use macvz.Prelude.Dict.{Dict, empty, get}
use macvz.Svcroute.{
  Endpoint, EndpointSlice, ServicePort, Service, service_key, is_target, is_ipv4, note_addresses,
  note_endpoints, note_slices, ready_endpoint_ips, target_by_name, is_supported, port_rules,
  build_service_rules, keep_routable, RouteAction, detach_service, attach_service,
  slices_not_listed, reconcile_service,
}
use macvz.Workload.{to_lower}
use macvz.Podnet.Rule.{ServiceRule}
use macvz.Prelude.Dict

-- Some endpoint that takes traffic has the address.
abbrev pub has_address : List Endpoint → Text → Bool
has_address [] k = false
has_address (ep ∷ eps) k =
    let rest = has_address eps k in is_target ep && contains ep.addresses k || rest

-- Some IPv4 slice has such an endpoint.
abbrev pub is_ready_address : List EndpointSlice → Text → Bool
is_ready_address [] k = false
is_ready_address (sl ∷ slices) k =
    let rest = is_ready_address slices k in
    is_ipv4 sl.address_type && has_address sl.endpoints k || rest

note_addresses-contains :
    (addrs seen : List Text) (k : Text)
    → contains (note_addresses addrs seen) k ≡ (contains addrs k || contains seen k)
unfolding note_addresses contains
note_addresses-contains [] seen k = refl
note_addresses-contains (addr ∷ addrs) seen k = ground (
  arith,
  note_addresses-contains addrs seen k,
  note_addresses-contains addrs (addr ∷ seen) k,
  contains-cons addr seen k,
  same_text_iff addr k,
)

note_endpoints-contains :
    (eps : List Endpoint) (seen : List Text) (k : Text)
    → contains (note_endpoints eps seen) k ≡ (has_address eps k || contains seen k)
unfolding note_endpoints
note_endpoints-contains [] seen k = refl
note_endpoints-contains (ep ∷ eps) seen k = ground (
  arith,
  note_endpoints-contains eps seen k,
  note_endpoints-contains eps (note_addresses ep.addresses seen) k,
  note_addresses-contains ep.addresses seen k,
)

note_slices-contains :
    (slices : List EndpointSlice) (seen : List Text) (k : Text)
    → contains (note_slices slices seen) k ≡ (is_ready_address slices k || contains seen k)
unfolding note_slices
note_slices-contains [] seen k = refl
note_slices-contains (sl ∷ slices) seen k = ground (
  arith,
  note_slices-contains slices seen k,
  note_slices-contains slices (note_endpoints sl.endpoints seen) k,
  note_endpoints-contains sl.endpoints seen k,
)

contains-ready_endpoint_ips :
    (slices : List EndpointSlice) (k : Text)
    → contains (ready_endpoint_ips slices) k ≡ is_ready_address slices k
unfolding ready_endpoint_ips contains
contains-ready_endpoint_ips slices k =
    let sorted = contains-sort text_ltb (λ x. x) (note_slices slices []) k in
    let all = note_slices slices [] in
    (rw (map_self (sort text_ltb all), map_self all) at sorted)
    ∙ (ground (arith, note_slices-contains slices [] k))

-- A backend that the filter lets pass.
abbrev pub is_routable : Option (Text → Bool) → Text → Bool
is_routable none k = true
is_routable (some routable) k = routable k

-- The Service has a virtual IP to route.
abbrev pub is_programmable : Service → Bool
is_programmable svc =
    not svc.is_external_name && not (is_empty svc.cluster_ip || svc.cluster_ip == codes "None")

-- A rule of the Service before the filter.
abbrev pub IsRuleOf : Service → List Text → ServiceRule → Type 0
IsRuleOf svc ready_ips r =
    (r.service_key ≡ service_key svc.namespace svc.name)
    × (r.cluster_ip ≡ svc.cluster_ip)
    × (is_supported r.protocol ≡ true)
    × (r.backends ≡ ready_ips)

port_rules-IsRuleOf :
    (svc : Service) (targets : Dict String ℕ) (ready_ips : List Text) (ports : List ServicePort)
    → All (IsRuleOf svc ready_ips) (port_rules svc targets ready_ips ports)
unfolding port_rules
port_rules-IsRuleOf svc targets ready_ips [] = tt
port_rules-IsRuleOf svc targets ready_ips (sp ∷ ports) =
    let rest = port_rules-IsRuleOf svc targets ready_ips ports in
    elim (Bool-cases (is_supported (map to_lower sp.protocol))) [
      | inr b ↦ rw (b, port_rules) rest
      | inl b ↦ elim (Option-cases (Dict.get targets sp.name)) [
        | inl e ↦ rw (b, port_rules) (rw e rest)
        | inr (target, e) ↦ rw (b, port_rules) (rw e ((refl, refl, b, refl), rest))
      ]
    ]

-- The rule sends the Service's virtual IP to exactly the ready and routable addresses, of which
-- there is one at least.
abbrev pub Routes : Option (Text → Bool) → Service → List EndpointSlice → ServiceRule → Type 0
Routes routable svc slices r =
    (r.service_key ≡ service_key svc.namespace svc.name)
    × (r.cluster_ip ≡ svc.cluster_ip)
    × (is_supported r.protocol ≡ true)
    × (is_empty r.backends ≡ false)
    × ((k : Text) → contains r.backends k ≡ (is_routable routable k && is_ready_address slices k))

keep_routable-Routes :
    (routable : Text → Bool) (svc : Service) (slices : List EndpointSlice)
    (rules : List ServiceRule)
    → All (IsRuleOf svc (ready_endpoint_ips slices)) rules
    → All (Routes (some routable) svc slices) (keep_routable routable rules)
unfolding keep_routable
keep_routable-Routes routable svc slices [] a = tt
keep_routable-Routes routable svc slices (r ∷ rules) ((key, ip, proto, ready), a) =
    let rest = keep_routable-Routes routable svc slices rules a in
    elim (Bool-cases (is_empty (keep routable r.backends))) [
      | inl e ↦ rw (e, keep_routable) rest
      | inr e ↦
          rw (e, keep_routable)
            (
              (
                key,
                ip,
                proto,
                e,
                λ k. rw ready (
                    ground (
                      arith,
                      contains-keep routable (ready_endpoint_ips slices) k,
                      contains-ready_endpoint_ips slices k,
                    )),
              ),
              rest,
            )
    ]

build-Routes :
    (svc : Service) (slices : List EndpointSlice) (rules : List ServiceRule)
    → is_empty (ready_endpoint_ips slices) ≡ false
    → All (IsRuleOf svc (ready_endpoint_ips slices)) rules
    → All (Routes none svc slices) rules
build-Routes svc slices [] e a = tt
build-Routes svc slices (r ∷ rules) e ((key, ip, proto, ready), a) = (
  (key, ip, proto, rw ready e, λ k. rw ready (contains-ready_endpoint_ips slices k)),
  build-Routes svc slices rules e a,
)

build_service_rules-IsRuleOf :
    (svc : Service) (slices : List EndpointSlice)
    → All (IsRuleOf svc (ready_endpoint_ips slices)) (build_service_rules svc slices)
unfolding build_service_rules
build_service_rules-IsRuleOf svc slices = ground (
  arith,
  port_rules-IsRuleOf svc (target_by_name slices Dict.empty) (ready_endpoint_ips slices) svc.ports,
)

build_service_rules-programmable :
    (svc : Service) (slices : List EndpointSlice)
    → is_empty (build_service_rules svc slices) ≡ false
    → (is_programmable svc ≡ true) × (is_empty (ready_endpoint_ips slices) ≡ false)
unfolding build_service_rules
build_service_rules-programmable svc slices e = ground (arith, e)

build_service_rules-Routes :
    (svc : Service) (slices : List EndpointSlice)
    → is_empty (build_service_rules svc slices) ≡ false
    → All (Routes none svc slices) (build_service_rules svc slices)
build_service_rules-Routes svc slices e =
    build-Routes svc slices _ (build_service_rules-programmable svc slices e).1
      (build_service_rules-IsRuleOf svc slices)

-- What a reconciliation asks for a Service. Rules are attached only for a Service with a virtual
-- IP, at least one of them, and each routes it to exactly the ready and routable addresses.
abbrev pub Asks : Option (Text → Bool) → Service → List EndpointSlice → RouteAction → Type 0
Asks routable svc slices (attach_service rules) =
    (is_programmable svc ≡ true) × (is_empty rules ≡ false) × All (Routes routable svc slices) rules
Asks routable svc slices detach_service = Unit
Asks routable svc slices slices_not_listed = ⊥

keep_routable-empty :
    (routable : Text → Bool) (rules : List ServiceRule)
    → is_empty (keep_routable routable rules) ≡ false
    → is_empty rules ≡ false
unfolding keep_routable
keep_routable-empty routable [] e = e
keep_routable-empty routable (r ∷ rules) e = refl

-- Reconciling a Service whose slices are listed attaches rules only for a Service with a virtual IP
-- that is no ExternalName, at least one rule, and each sends the virtual IP to exactly the addresses
-- of ready, not terminating IPv4 endpoints that pass the filter, of which there is one at least.
pub reconcile_service-Asks :
    (routable : Option (Text → Bool)) (svc : Service) (slices : List EndpointSlice)
    → Asks routable svc slices (reconcile_service routable (some svc) (some slices))
unfolding reconcile_service
reconcile_service-Asks none svc slices =
    elim (Bool-cases (is_empty (build_service_rules svc slices))) [
      | inl e ↦ rw (e, reconcile_service) tt
      | inr e ↦
          rw (e, reconcile_service)
            (
              (build_service_rules-programmable svc slices e).0,
              e,
              build_service_rules-Routes svc slices e,
            )
    ]
reconcile_service-Asks (some routable) svc slices =
    let rules = build_service_rules svc slices in
    elim (Bool-cases (is_empty (keep_routable routable rules))) [
      | inl e ↦ rw (e, reconcile_service) tt
      | inr e ↦
          let some_rule = keep_routable-empty routable rules e in
          rw (e, reconcile_service)
            (
              (build_service_rules-programmable svc slices some_rule).0,
              e,
              keep_routable-Routes routable svc slices rules
                  (build_service_rules-IsRuleOf svc slices),
            )
    ]
