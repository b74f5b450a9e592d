-- ===== src/Svcroute/Tests.antt =====
-- A web Service with a ready backend, a terminating one and one off the mesh.
use macvz.Prelude.{
  contains, Text, codes, same_text, codes_key, text_ltb, text_key, number_key, ◌==◌, ◌≡◌, refl,
  Bool, true, false, ◌||◌, none, some, List, [], ◌∷◌,
}
use macvz.Prelude.Sort.{insert_sorted, sort}
use macvz.Prelude.Dict.{Dict, empty, get, put}
use macvz.Svcroute.{
  ipv4, EndpointSlice, Service, note_addresses, note_endpoints, note_slices, ready_endpoint_ips,
  note_ports, target_by_name, port_rules, build_service_rules, keep_routable, attach_service,
  reconcile_service,
}
use macvz.Svcroute.Backends.{Asks, reconcile_service-Asks}
use macvz.Prelude.Dict

abbrev slices : List EndpointSlice
slices =
    record {
      address_type = ipv4;
      endpoints =
          record { addresses = codes "10.244.1.2" ∷ []; ready = none; terminating = none }
          ∷ record {
            addresses = codes "10.244.1.3" ∷ [];
            ready = some true;
            terminating = some true;
          }
          ∷ record { addresses = codes "192.168.1.9" ∷ []; ready = some true; terminating = none }
          ∷ [];
      ports = record { name = none; port = some 8080 } ∷ [];
    }
    ∷ []

abbrev web : Service
web = record {
  namespace = codes "default";
  name = codes "web";
  is_external_name = false;
  cluster_ip = codes "10.96.0.7";
  ports = record { name = ""; protocol = codes "TCP"; port = 80 } ∷ [];
}

abbrev on_mesh : Text → Bool
on_mesh ip = ip == codes "10.244.1.2" || ip == codes "10.244.1.3"

reconciled :
    reconcile_service (some on_mesh) (some web) (some slices)
    ≡ attach_service (
        record {
          service_key = codes "default/web";
          cluster_ip = codes "10.96.0.7";
          protocol = codes "tcp";
          port = 80;
          target_port = 8080;
          backends = codes "10.244.1.2" ∷ [];
        }
        ∷ [])
unfolding reconcile_service build_service_rules keep_routable port_rules ready_endpoint_ips
    note_slices note_endpoints note_addresses target_by_name note_ports contains same_text sort
    insert_sorted text_ltb Dict.get Dict.put Dict.empty
reconciled = refl

reconcile_service-Asks_example :
    Asks (some on_mesh) web slices (reconcile_service (some on_mesh) (some web) (some slices))
reconcile_service-Asks_example = reconcile_service-Asks (some on_mesh) web slices
