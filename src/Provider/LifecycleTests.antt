-- ===== src/Provider/LifecycleTests.antt =====
-- CreatePod and DeletePod of the web Pod, on hosts where they succeed and fail.
use macvz.Prelude.{
  if◌then◌else◌, contains, Text, codes_key, text_key, number_key, ◌==◌, String, ◌≡◌, refl, true,
  ◌||◌, none, some, [], map,
}
use macvz.Runtime.{not_ready, not_found, running}
use macvz.Network.Ipam.{new_pod_ipam, offset_ip, taken, scan, take_offset, allocate}
use macvz.Drain.Laws.{destroyed}
use macvz.Provider.{Workload, Host, pod_key}
use macvz.Prelude.Dict.{Dict, empty, get}
use macvz.Provider.Create.{start_failed, allocate_ip, adopt, build, launch}
use macvz.Provider.Lifecycle.{
  connect, create_launched, create_allocated, create_untracked, create_pod, delete_pod,
}
use macvz.Provider.Undo.{holds, SameHolds, create_pod-SameHolds}
use macvz.Provider.Delete.{delete_pod_lem}
use macvz.Provider.Adopt.{create_pod_adopts}
use macvz.Provider.Rollback.{Cleaned, create_pod-Cleaned}
use macvz.Provider.Tests.{
  web_id, empty_runtime, web_status, full_runtime, on_host, web_pod, web_spec, web_resolved,
  node_ipam, node_ipam-IsSound, no_pods, web_state, with_web, web_tracked,
}
use macvz.Provider.Rebuild.{poll_vm_ip}
use macvz.Prelude.Dict

-- A runtime whose new workloads do not start.
abbrev broken_host : Host
broken_host = on_host (record empty_runtime { start = λ t id. some not_ready })

broken : (create_pod broken_host web_resolved web_pod no_pods []).0 ≡ some (start_failed not_ready)
unfolding create_pod create_untracked create_allocated create_launched allocate_ip launch build
    Dict.get Dict.empty allocate node_ipam new_pod_ipam scan taken take_offset offset_ip
broken = refl

create_pod-SameHolds_example :
    let p' = (create_pod broken_host web_resolved web_pod no_pods []).1 in
    (p'.pods ≡ no_pods.pods) × SameHolds p'.ipam no_pods.ipam
create_pod-SameHolds_example =
    create_pod-SameHolds broken_host web_resolved web_pod no_pods [] (start_failed not_ready)
      node_ipam-IsSound (λ ip. refl) broken

create_pod-Cleaned_example :
    Cleaned [] web_id (create_pod broken_host web_resolved web_pod no_pods []).2
create_pod-Cleaned_example =
    create_pod-Cleaned broken_host web_resolved web_pod no_pods [] web_spec web_id not_found
      (start_failed not_ready) refl refl refl broken

create_pod_adopts_example :
    destroyed (create_pod (on_host (full_runtime running)) web_resolved web_pod no_pods []).2 ≡ []
create_pod_adopts_example =
    create_pod_adopts (on_host (full_runtime running)) web_resolved web_pod no_pods [] web_spec
      (web_status running "192.168.64.2") refl refl

works : (create_pod (on_host (full_runtime running)) web_resolved web_pod no_pods []).0 ≡ none
unfolding create_pod create_untracked create_allocated create_launched allocate_ip launch adopt
    connect Dict.get Dict.empty allocate node_ipam new_pod_ipam scan taken take_offset offset_ip
    poll_vm_ip
works = refl

delete_pod_lem_example :
    let (known, p', t') = delete_pod (on_host empty_runtime) web_pod with_web [] in
    (known ≡ true)
    × ((key : String)
        → Dict.get p'.pods key
          ≡ (if pod_key web_pod == key then none else Dict.get with_web.pods key))
    × (holds p'.ipam (pod_key web_pod) ≡ none)
    × ((id : Text)
        → contains (destroyed t') id
          ≡ (contains (map Workload.id web_state.workloads) id || contains [] id))
delete_pod_lem_example =
    delete_pod_lem (on_host empty_runtime) web_pod with_web [] web_state node_ipam-IsSound
      web_tracked
