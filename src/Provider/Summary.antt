-- ===== src/Provider/Summary.antt =====
-- pkg/provider/status.go and probe.go: what a Pod's container statuses and probe results come to.
use macvz.Prelude.{
  ltb, nat_beq, if◌then◌else◌, length, codes_key, text_key, number_key, ℕ, suc, String, Bool, true,
  false, not, ◌&&◌, Option, none, some, List, [], ◌∷◌,
}
use macvz.Provider.{
  state_waiting, state_running, state_terminated, ContainerStatus, PodPhase, pod_pending,
  pod_running, pod_succeeded, pod_failed, ConditionType, pod_initialized, containers_ready,
  pod_ready, Condition, ProbeState, is_empty_text,
}

-- The tally of aggregatePhase: running, succeeded, failed and waiting containers.
pub record Tally : Type 0 where
  pub run_count : ℕ
  pub ok_count : ℕ
  pub fail_count : ℕ
  pub wait_count : ℕ

unfoldable pub tally : List ContainerStatus → Tally
tally [] = record { run_count = 0; ok_count = 0; fail_count = 0; wait_count = 0 }
tally (s ∷ statuses) =
    let rest = tally statuses in
    elim s.state [
      | state_waiting reason msg ↦ record rest { wait_count = suc rest.wait_count }
      | state_running ↦ record rest { run_count = suc rest.run_count }
      | state_terminated code reason msg ↦
          if nat_beq code 0
          then record rest { ok_count = suc rest.ok_count }
          else record rest { fail_count = suc rest.fail_count }
    ]

-- aggregatePhase
unfoldable pub aggregate_phase : List ContainerStatus → PodPhase
aggregate_phase [] = pod_pending
aggregate_phase (s ∷ statuses) =
    let n = tally (s ∷ statuses) in
    if ltb 0 n.fail_count
    then pod_failed
    else if ltb 0 n.wait_count
    then pod_pending
    else if ltb 0 n.run_count
    then pod_running
    else if nat_beq n.ok_count (length (s ∷ statuses))
    then pod_succeeded
    else pod_pending

abbrev pub is_pod_running : PodPhase → Bool
is_pod_running pod_running = true
is_pod_running _ = false

abbrev pub is_pod_pending : PodPhase → Bool
is_pod_pending pod_pending = true
is_pod_pending _ = false

-- probeReadiness: started and ready
abbrev pub probe_readiness : Option ProbeState → PodPhase → Bool × Bool
probe_readiness probes phase =
    let is_run = is_pod_running phase in
    elim probes [
      | none ↦ (is_run, is_run)
      | some ps ↦
          if not is_run
          then (is_run, is_run)
          else let started = if ps.has_startup then ps.startup_done else true in
            (started, if not started then false else if ps.has_readiness then ps.ready else true)
    ]

-- The probe results on a container that is running, when the Pod has probes.
unfoldable pub reflect_probes :
    Option ProbeState → Bool → Bool → List ContainerStatus → List ContainerStatus
reflect_probes probes started ready [] = []
reflect_probes none started ready (s ∷ statuses) = s ∷ reflect_probes none started ready statuses
reflect_probes (some ps) started ready (s ∷ statuses) =
    let rest = reflect_probes (some ps) started ready statuses in
    elim s.state [
      | state_running ↦ record s { ready = ready; started = some started } ∷ rest
      | _ ↦ s ∷ rest
    ]

abbrev pub condition : ConditionType → Bool → Condition
condition kind status = record { kind = kind; status = status; reason = ""; message = "" }

-- podConditions
abbrev pub pod_conditions : PodPhase → Bool → List Condition
pod_conditions phase ready =
    condition pod_initialized (not (is_pod_pending phase))
    ∷ condition containers_ready ready
    ∷ condition pod_ready ready
    ∷ []

abbrev pub is_readiness : ConditionType → Bool
is_readiness pod_initialized = false
is_readiness _ = true

-- withConditionReason
abbrev pub with_condition_reason : List Condition → String → String → List Condition
with_condition_reason [] reason msg = []
with_condition_reason (c ∷ conditions) reason msg =
    (if is_readiness c.kind then record c { status = false; reason = reason; message = msg } else c)
    ∷ with_condition_reason conditions reason msg

-- The conditions at the end of reconcileStatus, by the message, the phase and the Pod IP.
abbrev pub readiness_conditions : String → PodPhase → String → Bool → List Condition
readiness_conditions message phase pod_ip probe_ready =
    let ready = probe_ready && not (is_empty_text pod_ip) in
    let conditions = pod_conditions phase ready in
    if not (is_empty_text message)
    then with_condition_reason conditions "RuntimeStatusError" message
    else if is_pod_running phase && is_empty_text pod_ip
    then with_condition_reason conditions "PodNetworkNotReady"
        "waiting for Pod IP allocation and network attach"
    else if is_pod_running phase && not ready
    then with_condition_reason conditions "ContainersNotReady"
        "container has not passed its startup/readiness probe"
    else conditions
