-- ===== src/Svcroute.antt =====
-- pkg/network/svcroute/controller.go: the routing rules of a ClusterIP Service. The informer caches
-- and the test of a routable backend are parameters.
pub mod Backends
mod Tests
use macvz.Prelude.{
  if◌then◌else◌, is_empty, keep, contains, Text, codes, codes_key, text_ltb, text_key, number_key,
  ◌==◌, ℕ, String, Bool, true, false, not, ◌&&◌, ◌||◌, Option, none, some, List, [], ◌∷◌, ◌++◌, map,
}
use macvz.Prelude.Sort.{sort}
use macvz.Prelude.Dict.{Dict, empty, get, put}
use macvz.Workload.{to_lower}
use macvz.Podnet.Rule.{ServiceRule}
use macvz.Prelude.Dict

pub data AddressType : Type 0 where
  ipv4 ipv6 fqdn : AddressType

-- A nil condition is none.
pub record Endpoint : Type 0 where
  pub addresses : List Text
  pub ready : Option Bool
  pub terminating : Option Bool

pub record SlicePort : Type 0 where
  pub name : Option String
  pub port : Option ℕ

pub record EndpointSlice : Type 0 where
  pub address_type : AddressType
  pub endpoints : List Endpoint
  pub ports : List SlicePort

pub record ServicePort : Type 0 where
  pub name : String
  pub protocol : Text
  pub port : ℕ

pub record Service : Type 0 where
  pub namespace : Text
  pub name : Text
  pub is_external_name : Bool
  pub cluster_ip : Text
  pub ports : List ServicePort

-- serviceKey
abbrev pub service_key : Text → Text → Text
service_key ns name = ns ++ b'/' ∷ name

-- The tests that readyEndpointIPs skips an endpoint by.
abbrev pub is_target : Endpoint → Bool
is_target ep =
    (elim ep.ready [ none ↦ true | some b ↦ b ])
    && (elim ep.terminating [ none ↦ true | some b ↦ not b ])

abbrev pub is_ipv4 : AddressType → Bool
is_ipv4 a = elim a [ ipv4 ↦ true | _ ↦ false ]

-- `seen[addr] = struct{}{}` for each address
unfoldable pub note_addresses : List Text → List Text → List Text
note_addresses [] seen = seen
note_addresses (addr ∷ addrs) seen =
    note_addresses addrs (if contains seen addr then seen else addr ∷ seen)

unfoldable pub note_endpoints : List Endpoint → List Text → List Text
note_endpoints [] seen = seen
note_endpoints (ep ∷ eps) seen =
    note_endpoints eps (if is_target ep then note_addresses ep.addresses seen else seen)

unfoldable pub note_slices : List EndpointSlice → List Text → List Text
note_slices [] seen = seen
note_slices (sl ∷ slices) seen =
    note_slices slices (if is_ipv4 sl.address_type then note_endpoints sl.endpoints seen else seen)

-- readyEndpointIPs
unfoldable pub ready_endpoint_ips : List EndpointSlice → List Text
ready_endpoint_ips slices = sort text_ltb (note_slices slices [])

-- `targetByName[name] = *p.Port`, if the name is not seen yet
abbrev pub note_port : Dict String ℕ → SlicePort → Dict String ℕ
note_port targets p = elim p.port [
  | none ↦ targets
  | some port ↦
      let name : String = elim p.name [ none ↦ "" | some s ↦ s ] in
      elim (Dict.get targets name) [ some seen ↦ targets | none ↦ Dict.put targets name port ]
]

unfoldable pub note_ports : List SlicePort → Dict String ℕ → Dict String ℕ
note_ports [] targets = targets
note_ports (p ∷ ports) targets = note_ports ports (note_port targets p)

unfoldable pub target_by_name : List EndpointSlice → Dict String ℕ → Dict String ℕ
target_by_name [] targets = targets
target_by_name (sl ∷ slices) targets = target_by_name slices (note_ports sl.ports targets)

-- The test of the protocol.
abbrev pub is_supported : Text → Bool
is_supported proto = proto == codes "tcp" || proto == codes "udp"

-- The loop of BuildServiceRules over the Service's ports.
unfoldable pub port_rules :
    Service → Dict String ℕ → List Text → List ServicePort → List ServiceRule
port_rules svc targets ready_ips [] = []
port_rules svc targets ready_ips (sp ∷ ports) =
    let rest = port_rules svc targets ready_ips ports in
    let proto = map to_lower sp.protocol in
    if not (is_supported proto) then rest else elim (Dict.get targets sp.name) [
      | none ↦ rest
      | some target ↦
          record {
            service_key = service_key svc.namespace svc.name;
            cluster_ip = svc.cluster_ip;
            protocol = proto;
            port = sp.port;
            target_port = target;
            backends = ready_ips;
          }
          ∷ rest
    ]

-- BuildServiceRules; a nil result is empty.
unfoldable pub build_service_rules : Service → List EndpointSlice → List ServiceRule
build_service_rules svc slices =
    if svc.is_external_name
    then []
    else if is_empty svc.cluster_ip || svc.cluster_ip == codes "None"
    then []
    else let ready_ips = ready_endpoint_ips slices in
      if is_empty ready_ips
      then []
      else port_rules svc (target_by_name slices Dict.empty) ready_ips svc.ports

-- The loop of filterRoutable.
unfoldable pub keep_routable : (Text → Bool) → List ServiceRule → List ServiceRule
keep_routable routable [] = []
keep_routable routable (r ∷ rules) =
    let rest = keep_routable routable rules in
    let kept = keep routable r.backends in
    if is_empty kept then rest else record r { backends = kept } ∷ rest

-- filterRoutable; without a filter the test is none
abbrev pub filter_routable : Option (Text → Bool) → List ServiceRule → List ServiceRule
filter_routable none rules = rules
filter_routable (some routable) rules = keep_routable routable rules

-- What reconcile asks of the router, or that the slices could not be listed.
pub data RouteAction : Type 0 where
  detach_service : RouteAction
  attach_service : List ServiceRule → RouteAction
  slices_not_listed : RouteAction

-- reconcile, by what the caches answer
unfoldable pub reconcile_service :
    Option (Text → Bool) → Option Service → Option (List EndpointSlice) → RouteAction
reconcile_service routable none slices = detach_service
reconcile_service routable (some svc) none = slices_not_listed
reconcile_service routable (some svc) (some slices) =
    let rules = filter_routable routable (build_service_rules svc slices) in
    if is_empty rules then detach_service else attach_service rules
