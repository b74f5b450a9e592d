-- ===== src/Provider/Reconcile.antt =====
-- pkg/provider/status.go: a Pod's status from the observed state of the runtime, with the restart
-- that it may launch (restart.go) and the probe results that gate readiness (probe.go).
use macvz.Prelude.{
  nat_beq, if◌then◌else◌, Text, codes_key, text_key, number_key, ◌==◌, ℕ, ◌%◌, ◌^◌, String, Bool,
  true, false, not, ◌&&◌, Option, none, some, List, [], ◌∷◌,
}
use macvz.Runtime.{
  RtError, not_found, error_text, unknown, created, running, stopped, failed, Status, call_status,
  go_restart, Trace, answer, failure,
}
use macvz.Provider.{
  Container, ContainerState, state_waiting, state_running, state_terminated, ContainerStatus,
  PodStatus, Workload, PodState, Host, pod_key, is_empty_text, count_of,
}
use macvz.Provider.Restart.{should_restart, restart_backoff}
use macvz.Provider.Summary.{aggregate_phase, probe_readiness, reflect_probes, readiness_conditions}

-- int32(n), by its bits
abbrev pub int32 : ℕ → ℕ
int32 n = n % 2 ^ 32

-- nonZero
abbrev pub non_zero : ℕ → ℕ
non_zero code = if nat_beq code 0 then 1 else code

abbrev pub base_status : Container → Option Text → ContainerState → ContainerStatus
base_status c id state = record {
  name = c.name;
  image = c.image;
  container_id = id;
  state = state;
  ready = false;
  started = none;
  restart_count = 0;
}

-- containerStatus
abbrev pub container_status : Container → Text → Status → ContainerStatus
container_status c id rs = elim rs.phase [
  | running ↦ record (base_status c (some id) state_running) { ready = true; started = some true }
  | stopped ↦ base_status c (some id) (state_terminated (int32 rs.exit_code) "Completed" rs.message)
  | failed ↦
      base_status c (some id) (state_terminated (non_zero (int32 rs.exit_code)) "Error" rs.message)
  | created ↦ base_status c (some id) (state_waiting "Created" rs.message)
  | unknown ↦ base_status c (some id) (state_waiting "Unknown" rs.message)
]

-- waitingStatus
abbrev pub waiting_status : Container → String → String → ContainerStatus
waiting_status c reason msg = base_status c none (state_waiting reason msg)

-- restartingStatus
abbrev pub restarting_status : Container → ℕ → ContainerStatus
restarting_status c restart_count =
    record (base_status c none
      (state_waiting "CrashLoopBackOff" "container exited; restarting per restartPolicy")) {
        restart_count = restart_count;
      }

-- terminatedStatus
abbrev pub terminated_status : Container → Text → ℕ → String → String → ContainerStatus
terminated_status c id code reason msg = base_status c (some id) (state_terminated code reason msg)

-- previousContainerStatus
unfoldable pub previous_container_status : List ContainerStatus → String → Option ContainerStatus
previous_container_status [] name = none
previous_container_status (s ∷ statuses) name =
    let rest = previous_container_status statuses name in if s.name == name then some s else rest

-- The map from a container's name to its workload: a later entry overwrites an earlier one.
unfoldable pub workload_of : List Workload → String → Option Text
workload_of [] name = none
workload_of (w ∷ workloads) name = elim (workload_of workloads name) [
  | some id ↦ some id
  | none ↦ if w.container == name then some w.id else none
]

-- maybeTriggerRestart
unfoldable pub maybe_trigger_restart :
    Host → PodState → String → Text → ℕ → Trace → Bool × PodState × Trace
maybe_trigger_restart h st container old_id exit_code t =
    if not (should_restart st.restart_policy exit_code)
    then (false, st, t)
    else if st.restarting
    then (true, st, t)
    else (
      true,
      record st { restarting = true },
      go_restart (pod_key st.pod) old_id
            (restart_backoff h.restart_backoff_base (count_of st.restarts container))
          ∷ t,
    )

-- What the loop over the containers carries beside the statuses.
pub record Pass : Type 0 where
  pub st : PodState
  pub trace : Trace
  pub pod_ip : String
  pub message : String

-- A container that exited: it is restarted, or else has the given status.
abbrev pub exited :
    Host → Container → Text → ℕ → ContainerStatus → Pass → Pass → ContainerStatus × Pass
exited h c id exit_code cs x y =
    let (restarted, st, t) = maybe_trigger_restart h x.st c.name id exit_code x.trace in
    if restarted
    then (restarting_status c (count_of st.restarts c.name), record x { st = st; trace = t })
    else (cs, record y { st = st; trace = t })

-- `status.PodIP == "" && rs.IP != ""`
abbrev pub observe_ip : Status → Pass → Pass
observe_ip rs x = record x {
  pod_ip = if is_empty_text x.pod_ip && not (is_empty_text rs.ip) then rs.ip else x.pod_ip;
}

abbrev pub counted : PodState → Container → ContainerStatus → ContainerStatus
counted st c cs = record cs { restart_count = count_of st.restarts c.name }

-- A container whose workload the runtime knows.
unfoldable pub reconcile_known : Host → Container → Text → Status → Pass → ContainerStatus × Pass
reconcile_known h c id rs x =
    let cs = counted x.st c (container_status c id rs) in
    elim rs.phase [
      | stopped ↦ exited h c id rs.exit_code cs x (observe_ip rs x)
      | failed ↦ exited h c id (non_zero (int32 rs.exit_code)) cs x (observe_ip rs x)
      | _ ↦ (cs, observe_ip rs x)
    ]

-- A container whose status the runtime does not answer.
unfoldable pub reconcile_error : Host → Container → Text → RtError → Pass → ContainerStatus × Pass
reconcile_error h c id e x = elim e [
  | not_found ↦ exited h c id 1 (terminated_status c id 0 "Lost" "runtime workload not found") x x
  | other ↦ elim (previous_container_status x.st.pod.status.container_statuses c.name) [
    | some prev ↦ (prev, record x { message = error_text other })
    | none ↦ (waiting_status c "RuntimeError" (error_text other), x)
  ]
]

-- One round of the loop over the containers.
unfoldable pub reconcile_container : Host → Container → Pass → ContainerStatus × Pass
reconcile_container h c x = elim (workload_of x.st.workloads c.name) [
  | none ↦ (waiting_status c "NotCreated" "container has no backing workload", x)
  | some id ↦
      let asked = record x { trace = call_status id ∷ x.trace } in
      elim (h.runtime.status x.trace id) [
        | failure e ↦ reconcile_error h c id e asked
        | answer rs ↦ reconcile_known h c id rs asked
      ]
]

unfoldable pub reconcile_containers : Host → List Container → Pass → List ContainerStatus × Pass
reconcile_containers h [] x = ([], x)
reconcile_containers h (c ∷ cs) x =
    let (s, x') = reconcile_container h c x in
    let (rest, x'') = reconcile_containers h cs x' in (s ∷ rest, x'')

-- reconcileStatus, after the loop over the containers
unfoldable pub summarize : Host → List ContainerStatus → Pass → PodStatus
summarize h statuses x =
    let phase = aggregate_phase statuses in
    let (started, probe_ready) = probe_readiness x.st.probes phase in
    record {
      phase = phase;
      pod_ip = x.pod_ip;
      host_ip = h.host_ip;
      reason = "";
      message = x.message;
      container_statuses = reflect_probes x.st.probes started probe_ready statuses;
      conditions = readiness_conditions x.message phase x.pod_ip probe_ready;
    }

-- reconcileStatus: the status, with the Pod's bookkeeping and the calls that it leaves.
unfoldable pub reconcile_status : Host → PodState → Trace → PodStatus × PodState × Trace
reconcile_status h st t = elim st.terminal_status [
  | some status ↦ (status, st, t)
  | none ↦
      let start : Pass = record {
        st = st;
        trace = t;
        pod_ip = st.pod.status.pod_ip;
        message = "";
      } in
      let (statuses, x) = reconcile_containers h st.pod.containers start in
      (summarize h statuses x, x.st, x.trace)
]

-- `st.pod.Status = p.reconcileStatus(ctx, st)`
unfoldable pub refresh : Host → PodState → Trace → PodState × Trace
refresh h st t =
    let (status, st', t') = reconcile_status h st t in
    (record st' { pod = record st'.pod { status = status } }, t')
