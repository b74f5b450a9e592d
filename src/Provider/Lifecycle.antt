-- ===== src/Provider/Lifecycle.antt =====
-- pkg/provider/pod.go: CreatePod, UpdatePod, DeletePod and GetPodStatus on the tracked Pods.
use macvz.Prelude.{
  map, if◌then◌else◌, codes_key, text_key, number_key, ℕ, ◌*◌, String, ◌⊎◌, inl, inr, Bool, true,
  false, not, ◌||◌, Option, none, some, List, [], ◌∷◌,
}
use macvz.Runtime.{ContainerSpec, call_stop, call_destroy, call_attach, call_detach, Trace}
use macvz.Network.Ipam.{PodIpam}
use macvz.Provider.{
  Container, PodStatus, Pod, Workload, PodState, Host, Provider, pod_key, is_empty_text,
}
use macvz.Prelude.Dict.{Dict, empty, get, put, remove}
use macvz.Provider.Restart.{second, effective_restart_policy}
use macvz.Provider.Summary.{is_pod_running}
use macvz.Provider.Reconcile.{refresh}
use macvz.Provider.Rebuild.{start_probes, default_stop_timeout, observe_vm_ip_by_id}
use macvz.Provider.Create.{
  translated, configuration_pending, unsupported, Resolved, CreateError, configuration_not_ready,
  volumes_not_ready, config_not_ready, no_vm_address, no_container, attach_failed, allocate_ip,
  has_allocated_ip, release_ip, terminal_state, unwind_create, Launch, launched, ends, fails,
  launch,
}
use macvz.Prelude.Dict

-- observeVMIP
abbrev pub observe_vm_ip : Host → List Workload → Trace → String × Trace
observe_vm_ip h [] t = ("", t)
observe_vm_ip h (w ∷ workloads) t = observe_vm_ip_by_id h w.id t

-- The wiring of the micro-VM into the Pod network: its address and whether it is attached.
unfoldable pub connect :
    Host → String → String → List Workload → Trace → (CreateError ⊎ (String × Bool)) × Trace
connect h key pod_ip workloads t = elim h.pod_net [
  | none ↦ (inr ("", false), t)
  | some pn ↦
      if is_empty_text pod_ip
      then (inr ("", false), t)
      else let (vm_ip, t') = observe_vm_ip h workloads t in
        if is_empty_text vm_ip
        then (inl no_vm_address, t')
        else elim (pn.attach t' key pod_ip vm_ip) [
          | some e ↦ (inl (attach_failed e), call_attach key pod_ip vm_ip ∷ t')
          | none ↦ (inr (vm_ip, true), call_attach key pod_ip vm_ip ∷ t')
        ]
]

-- The state that CreatePod tracks, before its first status.
abbrev pub new_state : Pod → ContainerSpec → String → List Workload → String → Bool → PodState
new_state pod spec pod_ip workloads vm_ip attached = record {
  pod = record pod { status = record pod.status { pod_ip = pod_ip } };
  workloads = workloads;
  terminal_status = none;
  vm_ip = vm_ip;
  attached = attached;
  spec = spec;
  restart_policy = effective_restart_policy pod.restart_policy;
  restarts = Dict.empty;
  restarting = false;
  probes = none;
}

-- The first status, and the probers of a Pod that runs.
abbrev pub first_status : Host → PodState → Trace → PodState × Trace
first_status h st t =
    let (st', t') = refresh h st t in
    ((if is_pod_running st'.pod.status.phase then start_probes st' else st'), t')

abbrev pub track : Provider → String → PodState → Provider
track p key st = record p { pods = Dict.put p.pods key st }

-- CreatePod from the launch on; `undone` is the allocator after the deferred release.
unfoldable pub create_launched :
    Host
    → Pod
    → ContainerSpec
    → String
    → String
    → Option PodIpam
    → Provider
    → Launch × Trace
    → Option CreateError × Provider × Trace
create_launched h pod spec key pod_ip undone p (fails e, t) =
    (some e, record p { ipam = undone }, t)
create_launched h pod spec key pod_ip undone p (ends cause, t) = (
  none,
  track (record p { ipam = undone }) key (terminal_state pod "ImageArchitectureMismatch" cause),
  t,
)
create_launched h pod spec key pod_ip undone p (launched workloads adopted, t) =
    let (connected, t') = connect h key pod_ip workloads t in
    elim connected [
      | inl e ↦ (some e, record p { ipam = undone }, unwind_create workloads adopted t')
      | inr (vm_ip, attached) ↦
          let (st, t'') = first_status h (new_state pod spec pod_ip workloads vm_ip attached) t' in
          (none, track p key st, t'')
    ]

-- CreatePod from the allocation on
unfoldable pub create_allocated :
    Host
    → Bool
    → Pod
    → Container
    → ContainerSpec
    → Provider
    → Trace
    → Option CreateError × Provider × Trace
create_allocated h pull_auth pod c spec p t =
    let key = pod_key pod in
    let had = has_allocated_ip p.ipam key in
    let (ipam, allocated) = allocate_ip h p.ipam key in
    elim allocated [
      | inl e ↦ (some e, record p { ipam = ipam }, t)
      | inr pod_ip ↦
          let undone = if is_empty_text pod_ip || had then ipam else release_ip ipam key in
          create_launched h pod spec key pod_ip undone (record p { ipam = ipam })
            (launch h c spec pull_auth t)
    ]

-- CreatePod of a Pod that is not tracked
unfoldable pub create_untracked :
    Host → Resolved → Pod → Provider → Trace → Option CreateError × Provider × Trace
create_untracked h r pod p t = elim r.translation [
  | configuration_pending ↦ (some configuration_not_ready, p, t)
  | unsupported cause ↦
      (none, track p (pod_key pod) (terminal_state pod "UnsupportedPodSpec" cause), t)
  | translated spec ↦ elim pod.containers [
    | [] ↦ (some no_container, p, t)
    | c ∷ cs ↦
        if not r.volume_dirs
        then (some volumes_not_ready, p, t)
        else if not r.config_files
        then (some config_not_ready, p, t)
        else create_allocated h r.pull_auth pod c spec p t
  ]
]

-- CreatePod
unfoldable pub create_pod :
    Host → Resolved → Pod → Provider → Trace → Option CreateError × Provider × Trace
create_pod h r pod p t = elim (Dict.get p.pods (pod_key pod)) [
  | some st ↦ (none, p, t)
  | none ↦ create_untracked h r pod p t
]

-- UpdatePod, and whether the Pod is known
unfoldable pub update_pod : Pod → Provider → Bool × Provider
update_pod pod p = elim (Dict.get p.pods (pod_key pod)) [
  | none ↦ (false, p)
  | some st ↦ (
    true,
    track p (pod_key pod)
        (record st { pod = record st.pod { labels = pod.labels; annotations = pod.annotations } }),
  )
]

-- detachPodNetwork
abbrev pub detach_pod_network : Host → PodState → String → Trace → Trace
detach_pod_network h st key t =
    if not st.attached then t else elim h.pod_net [ none ↦ t | some pn ↦ call_detach key ∷ t ]

-- stopTimeout
abbrev pub pod_stop_timeout : Pod → ℕ
pod_stop_timeout pod = elim pod.termination_grace [
  | none ↦ default_stop_timeout
  | some n ↦ n * second
]

-- The loop of DeletePod over the workloads.
unfoldable pub stop_all : List Workload → ℕ → Trace → Trace
stop_all [] timeout t = t
stop_all (w ∷ workloads) timeout t =
    stop_all workloads timeout (call_destroy w.id ∷ call_stop w.id timeout ∷ t)

-- DeletePod, and whether the Pod is known
unfoldable pub delete_pod : Host → Pod → Provider → Trace → Bool × Provider × Trace
delete_pod h pod p t =
    let key = pod_key pod in
    elim (Dict.get p.pods key) [
      | none ↦ (false, p, t)
      | some st ↦ (
        true,
        record p { pods = Dict.remove p.pods key; ipam = release_ip p.ipam key },
        stop_all st.workloads (pod_stop_timeout pod) (detach_pod_network h st key t),
      )
    ]

-- GetPodStatus
unfoldable pub get_pod_status :
    Host → String → Provider → Trace → Option PodStatus × Provider × Trace
get_pod_status h key p t = elim (Dict.get p.pods key) [
  | none ↦ (none, p, t)
  | some st ↦ let (st', t') = refresh h st t in (some st'.pod.status, track p key st', t')
]

-- The loop of GetPods, over the walk of the map.
unfoldable pub refresh_all :
    Host → List (String × PodState) → Trace → List (String × PodState) × Trace
refresh_all h [] t = ([], t)
refresh_all h ((key, st) ∷ entries) t =
    let (st', t') = refresh h st t in
    let (rest, t'') = refresh_all h entries t' in ((key, st') ∷ rest, t'')

-- GetPods
unfoldable pub get_pods : Host → Provider → Trace → List Pod × Provider × Trace
get_pods h p t =
    let (entries, t') = refresh_all h p.pods.entries t in
    (
      map (λ (e : String × PodState). e.1.pod) entries,
      record p { pods = record { entries = entries } },
      t',
    )
