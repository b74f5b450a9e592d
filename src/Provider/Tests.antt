-- ===== src/Provider/Tests.antt =====
-- A host with one web Pod, and the theorems there.
use macvz.Prelude.{
  if◌then◌else◌, is_empty, contains, Text, codes, codes_key, text_key, number_key, same_self, ◌+◌,
  ◌*◌, ◌^◌, String, ◌≡◌, refl, ◌⊎◌, inl, inr, true, false, not, ◌&&◌, Option, none, some, List, [],
  ◌∷◌, arith,
}
use macvz.Runtime.{
  not_found, Phase, running, stopped, Status, ContainerSpec, call_create, Trace, answer, failure,
  Runtime,
}
use macvz.Network.Addr.{Cidr}
use macvz.Network.Ipam.{PodIpam, new_pod_ipam}
use macvz.Network.Ipam.Start.{new_pod_ipam-IsValid}
use macvz.Drain.Laws.{destroyed}
use macvz.Provider.{
  unset_policy, Container, ContainerStatus, pod_pending, pod_failed, PodStatus, Pod, PodState, Host,
  Provider, pod_key, is_empty_text,
}
use macvz.Prelude.Dict.{Dict, empty, get, put, get-put_self}
use macvz.Provider.Restart.{second, restart_backoff}
use macvz.Provider.Backoff.{capped, restart_backoff-capped}
use macvz.Provider.Summary.{aggregate_phase, is_pod_running}
use macvz.Provider.Reconcile.{waiting_status, terminated_status, reconcile_status, refresh}
use macvz.Provider.Ready.{
  is_ready, has_failed, any, comment_phase, aggregate_phase-comment_phase, probes_pass,
  reconcile_status-is_ready,
}
use macvz.Provider.Launches.{launches, bit, reconcile_status-launches}
use macvz.Provider.Unended.{IsUnended, is_final, refresh-IsUnended}
use macvz.Provider.Rebuild.{stop_probes, tear_down, restart_workload}
use macvz.Provider.Replace.{
  Backs, KeepsCalls, AddsCalls, meanwhile, restart_workload-Backs, restart_workload-destroyed,
}
use macvz.Provider.Create.{translated, Resolved, own}
use macvz.Provider.Lifecycle.{new_state}
use macvz.Provider.Undo.{IsSound}
use macvz.Provider.Extends.{DestroyedAfter}
use macvz.Prelude.Dict

abbrev pub web_id : Text
web_id = codes "macvz-default-web-app"

-- A runtime that knows no workload at first, and one that has the Pod's, stopped.
abbrev pub empty_runtime : Runtime
empty_runtime = record {
  list = λ t. answer [];
  status = λ t id. failure not_found;
  pull = λ t image. none;
  create = λ t spec. answer spec.name;
  start = λ t id. none;
  stop = λ t id. none;
  destroy = λ t id. none;
}

abbrev pub web_status : Phase → String → Status
web_status phase ip = record { id = web_id; phase = phase; exit_code = 0; message = ""; ip = ip }

abbrev pub full_runtime : Phase → Runtime
full_runtime phase = record empty_runtime {
  status = λ t id. answer (web_status phase "192.168.64.2");
}

-- The text of an address is irrelevant here, but not empty.
abbrev pub on_host : Runtime → Host
on_host rt = record {
  runtime = rt;
  pod_net = some (record { attach = λ t key ip vm. none; detach = λ t key. none });
  host_ip = "10.0.0.5";
  restart_backoff_base = 10 * second;
  show_ip = λ ip. "10.244.1.2";
  cancelled = λ t. false;
}

abbrev web_container : Container
web_container = record {
  name = "app";
  image = "nginx";
  startup_probe = false;
  readiness_probe = true;
  liveness_probe = false;
}

abbrev no_status : PodStatus
no_status = record {
  phase = pod_pending;
  pod_ip = "";
  host_ip = "";
  reason = "";
  message = "";
  container_statuses = [];
  conditions = [];
}

abbrev pub web_pod : Pod
web_pod = record {
  namespace = "default";
  name = "web";
  restart_policy = unset_policy;
  containers = web_container ∷ [];
  labels = [];
  annotations = [];
  termination_grace = none;
  status = no_status;
}

abbrev pub web_spec : ContainerSpec
web_spec = record { name = web_id; image = "nginx" }

abbrev pub web_resolved : Resolved
web_resolved = record {
  translation = translated web_spec;
  volume_dirs = true;
  config_files = true;
  pull_auth = true;
}

abbrev node_cidr : Cidr
node_cidr = record {
  addr = 0xffff * 2 ^ 32 + (10 * 2 ^ 24 + 244 * 2 ^ 16 + 1 * 2 ^ 8);
  bits = 32;
  ones = 24;
}

unfoldable pub node_ipam : Option PodIpam
node_ipam = some (new_pod_ipam node_cidr)

pub node_ipam-IsSound : IsSound node_ipam
unfolding node_ipam
node_ipam-IsSound =
    new_pod_ipam-IsValid node_cidr (inl (record { bits = refl; mask = omega arith; mapped = refl }))

abbrev pub no_pods : Provider
no_pods = record { pods = Dict.empty; ipam = node_ipam }

abbrev pub web_state : PodState
web_state =
    record (new_state web_pod web_spec "10.244.1.2" (own web_container web_id) "192.168.64.2"
      true) { probes = none }

abbrev pub with_web : Provider
with_web = record { pods = Dict.put Dict.empty (pod_key web_pod) web_state; ipam = node_ipam }

pub web_tracked : Dict.get with_web.pods (pod_key web_pod) ≡ some web_state
web_tracked = get-put_self Dict.empty (pod_key web_pod) web_state

reconcile_status-is_ready_example :
    let (status, st', t') = reconcile_status (on_host (full_runtime running)) web_state [] in
    is_ready status.conditions ≡ (
      is_pod_running status.phase
      && probes_pass st'.probes
      && not (is_empty_text status.pod_ip)
      && is_empty_text status.message)
reconcile_status-is_ready_example =
    reconcile_status-is_ready (on_host (full_runtime running)) web_state [] refl

reconcile_status-launches_example :
    let (status, st', t') = reconcile_status (on_host (full_runtime stopped)) web_state [] in
    (launches t' + bit web_state.restarting ≡ launches [] + bit st'.restarting)
    × (st' ≡ record web_state { restarting = st'.restarting })
reconcile_status-launches_example =
    reconcile_status-launches (on_host (full_runtime stopped)) web_state []

refresh-IsUnended_example :
    let st' = (refresh (on_host (full_runtime stopped)) web_state []).0 in
    (is_final st'.pod.status.phase ≡ false) × IsUnended st' × (st'.terminal_status ≡ none)
refresh-IsUnended_example =
    refresh-IsUnended (on_host (full_runtime stopped)) web_state [] refl (refl, refl)

abbrev waiting_and_failed : List ContainerStatus
waiting_and_failed =
    waiting_status web_container "Created" ""
    ∷ terminated_status web_container web_id 1 "Error" ""
    ∷ []

aggregate_phase-comment_phase_example : aggregate_phase waiting_and_failed ≡ (
    if is_empty waiting_and_failed
    then pod_pending
    else if any has_failed waiting_and_failed
    then pod_failed
    else comment_phase waiting_and_failed)
aggregate_phase-comment_phase_example = aggregate_phase-comment_phase waiting_and_failed

restart_backoff-capped_example : restart_backoff (10 * second) 3 ≡ capped (10 * second) 3
restart_backoff-capped_example = restart_backoff-capped (10 * second) 3 (omega arith)

nothing_else : Provider × Trace → Provider × Trace
nothing_else x = x

nothing_else-KeepsCalls : KeepsCalls nothing_else
unfolding nothing_else
nothing_else-KeepsCalls p t id h = h

restart_workload-destroyed_example :
    contains
      (destroyed
        (restart_workload
          (on_host empty_runtime)
          nothing_else
          (pod_key web_pod)
          web_id
          with_web
          []).1)
      web_id
    ≡ true
restart_workload-destroyed_example =
    restart_workload-destroyed (on_host empty_runtime) nothing_else (pod_key web_pod) web_id
      with_web [] web_state web_tracked refl nothing_else-KeepsCalls

still_backed :
    Backs
      (meanwhile
        (on_host empty_runtime)
        nothing_else
        (pod_key web_pod)
        web_id
        with_web
        []
        web_state
        web_tracked
        refl).0
      (pod_key web_pod)
      web_id
unfolding nothing_else contains
still_backed = (
  stop_probes web_state,
  get-put_self with_web.pods (pod_key web_pod) _,
  ground (arith, same_self web_id),
)

nothing_else-AddsCalls : AddsCalls nothing_else
unfolding nothing_else
nothing_else-AddsCalls p t = ([], refl)

restart_workload-Backs_example :
    let h = on_host empty_runtime in
    let (p', t') = restart_workload h nothing_else (pod_key web_pod) web_id with_web [] in
    DestroyedAfter
      (call_create web_state.spec ∷ tear_down h (pod_key web_pod) web_id web_state.attached [])
      web_id
      t'
    ⊎ Backs p' (pod_key web_pod) web_id
restart_workload-Backs_example =
    restart_workload-Backs (on_host empty_runtime) nothing_else (pod_key web_pod) web_id with_web []
      web_state web_tracked refl web_id nothing_else-AddsCalls refl (inr still_backed)
