-- ===== src/Provider/Ready.antt =====
-- When a Pod is ready, and what its phase says of its containers.
use macvz.Prelude.{
  ltb, nat_beq, if◌then◌else◌, length, is_empty, codes_key, text_key, number_key, ◌+◌, String, ◌≡◌,
  refl, Bool, true, false, not, ◌&&◌, ◌||◌, Option, none, some, List, [], ◌∷◌, arith,
}
use macvz.Runtime.{Trace}
use macvz.Provider.{
  state_waiting, state_running, state_terminated, ContainerStatus, PodPhase, pod_pending,
  pod_running, pod_succeeded, pod_failed, pod_ready, Condition, ProbeState, PodState, Host,
  is_empty_text,
}
use macvz.Provider.Summary.{
  tally, aggregate_phase, is_pod_running, probe_readiness, readiness_conditions,
}
use macvz.Provider.Reconcile.{Pass, reconcile_containers, summarize, reconcile_status}

-- The status of the Ready condition; a Pod without one is not ready.
abbrev pub is_ready : List Condition → Bool
is_ready [] = false
is_ready (c ∷ conditions) = elim c.kind [ pod_ready ↦ c.status | _ ↦ is_ready conditions ]

-- The containers' states.
abbrev pub is_waiting : ContainerStatus → Bool
is_waiting s = elim s.state [ state_waiting reason msg ↦ true | _ ↦ false ]

abbrev pub is_running : ContainerStatus → Bool
is_running s = elim s.state [ state_running ↦ true | _ ↦ false ]

abbrev pub has_failed : ContainerStatus → Bool
has_failed s = elim s.state [ state_terminated code reason msg ↦ not (nat_beq code 0) | _ ↦ false ]

abbrev pub any : {A : Type 0} → (A → Bool) → List A → Bool
any p [] = false
any p (x ∷ xs) = let rest = any p xs in p x || rest

tally_lem :
    (statuses : List ContainerStatus)
    → (ltb 0 (tally statuses).fail_count ≡ any has_failed statuses)
      × (ltb 0 (tally statuses).wait_count ≡ any is_waiting statuses)
      × (ltb 0 (tally statuses).run_count ≡ any is_running statuses)
      × ((tally statuses).run_count
            + (tally statuses).ok_count
            + (tally statuses).fail_count
            + (tally statuses).wait_count
          ≡ length statuses)
unfolding tally
tally_lem [] = (ground arith, ground arith, ground arith, ground arith)
tally_lem (s ∷ statuses) =
    let (a, b, c, d) = tally_lem statuses in
    (ground (arith, a), ground (arith, b), ground (arith, c), ground (arith, d))

abbrev pub has_succeeded : ContainerStatus → Bool
has_succeeded s = elim s.state [ state_terminated code reason msg ↦ nat_beq code 0 | _ ↦ false ]

abbrev pub all : {A : Type 0} → (A → Bool) → List A → Bool
all p [] = true
all p (x ∷ xs) = let rest = all p xs in p x && rest

-- The rules of the comment of aggregatePhase, in its order.
abbrev pub comment_phase : List ContainerStatus → PodPhase
comment_phase statuses =
    if any is_waiting statuses
    then pod_pending
    else if any has_failed statuses
    then pod_failed
    else if all has_succeeded statuses
    then pod_succeeded
    else pod_running

all-has_succeeded :
    (statuses : List ContainerStatus)
    → all has_succeeded statuses
      ≡ not (any has_failed statuses || any is_waiting statuses || any is_running statuses)
all-has_succeeded [] = refl
all-has_succeeded (s ∷ statuses) = ground (arith, all-has_succeeded statuses)

-- The phase is the one of the rules in the order of the source's comment, but that a failed
-- container makes it Failed even while another is waiting, and that it is Pending without any.
pub aggregate_phase-comment_phase :
    (statuses : List ContainerStatus)
    → aggregate_phase statuses ≡ (
        if is_empty statuses
        then pod_pending
        else if any has_failed statuses
        then pod_failed
        else comment_phase statuses)
unfolding aggregate_phase
aggregate_phase-comment_phase [] = refl
aggregate_phase-comment_phase (s ∷ statuses) =
    let (a, b, c, d) = tally_lem (s ∷ statuses) in
    ground (arith, a, b, c, d, all-has_succeeded (s ∷ statuses))

is_ready-conditions :
    (message : String) (phase : PodPhase) (pod_ip : String) (probe_ready : Bool)
    → is_ready (readiness_conditions message phase pod_ip probe_ready)
      ≡ (probe_ready && not (is_empty_text pod_ip) && is_empty_text message)
is_ready-conditions message phase pod_ip probe_ready = ground arith

-- The probes that are configured have passed.
abbrev pub probes_pass : Option ProbeState → Bool
probes_pass none = true
probes_pass (some ps) =
    (not ps.has_startup || ps.startup_done) && (not ps.has_readiness || ps.ready)

probe_readiness-probes_pass :
    (probes : Option ProbeState) (phase : PodPhase)
    → (probe_readiness probes phase).1 ≡ (is_pod_running phase && probes_pass probes)
probe_readiness-probes_pass none phase = ground arith
probe_readiness-probes_pass (some ps) phase = ground arith

-- A Pod without a sticky status is Ready exactly if its phase is Running, it has an address, its
-- status has no message (of a failed inspection that kept a container's last status), and its
-- startup and readiness probes have passed.
pub reconcile_status-is_ready :
    (h : Host) (st : PodState) (t : Trace)
    → st.terminal_status ≡ none
    → let (status, st', t') = reconcile_status h st t in
      is_ready status.conditions ≡ (
        is_pod_running status.phase
        && probes_pass st'.probes
        && not (is_empty_text status.pod_ip)
        && is_empty_text status.message)
unfolding reconcile_status summarize
reconcile_status-is_ready h st t e =
    let start : Pass = record { st = st; trace = t; pod_ip = st.pod.status.pod_ip; message = "" } in
    let (statuses, x) = reconcile_containers h st.pod.containers start in
    let phase = aggregate_phase statuses in
    rw (e, reconcile_status)
      (ground (
        arith,
        is_ready-conditions x.message phase x.pod_ip (probe_readiness x.st.probes phase).1,
        probe_readiness-probes_pass x.st.probes phase,
      ))
