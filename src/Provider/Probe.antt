-- ===== src/Provider/Probe.antt =====
-- pkg/provider/probe.go: the loop of a probe, and what a failed liveness or startup probe does to
-- the workload. What the handlers answer is given by parameters.
use macvz.Prelude.{
  ltb, leb, if◌then◌else◌, Text, codes_key, text_key, number_key, ℕ, ◌+◌, ◌%◌, ◌^◌, String, Bool,
  true, false, not, ◌&&◌, Option, none, some, List, [], ◌∷◌,
}
use macvz.Runtime.{call_stop, call_destroy, Trace}
use macvz.Provider.{
  Container, pod_failed, pod_initialized, containers_ready, pod_ready, Condition, PodStatus,
  PodState, Host, Provider,
}
use macvz.Prelude.Dict.{Dict, get, put}
use macvz.Provider.Summary.{condition}
use macvz.Provider.Reconcile.{terminated_status, workload_of, maybe_trigger_restart}
use macvz.Provider.Rebuild.{stop_probes, default_stop_timeout}
use macvz.Prelude.Dict

pub data ProbeKind : Type 0 where
  startup readiness liveness : ProbeKind

-- The consecutive successes and failures, each an int32 by its bits.
pub record Counters : Type 0 where
  pub successes : ℕ
  pub failures : ℕ

-- `n >= threshold` on int32, for a threshold that is not negative
abbrev pub reaches : ℕ → ℕ → Bool
reaches n threshold = ltb n (2 ^ 31) && leb threshold n

-- What a round of the loop does: go on, setReady, setStartupDone and return, failProbe and return.
pub data Verdict : Type 0 where
  goes_on : Verdict
  reports_ready : Bool → Verdict
  startup_passed fails_workload : Verdict

abbrev pub on_success : ProbeKind → Verdict
on_success startup = startup_passed
on_success readiness = reports_ready true
on_success liveness = goes_on

abbrev pub on_failure : ProbeKind → Verdict
on_failure readiness = reports_ready false
on_failure _ = fails_workload

-- The successes that a probe needs: one, unless it is a readiness probe.
abbrev pub success_threshold_of : ProbeKind → ℕ → ℕ
success_threshold_of readiness n = n
success_threshold_of _ n = 1

-- One attempt, with its answer.
unfoldable pub probe_round : ProbeKind → ℕ → ℕ → Bool → Counters → Counters × Verdict
probe_round kind success_threshold failure_threshold true n =
    let successes = (n.successes + 1) % 2 ^ 32 in
    (
      record { successes = successes; failures = 0 },
      if reaches successes success_threshold then on_success kind else goes_on,
    )
probe_round kind success_threshold failure_threshold false n =
    let failures = (n.failures + 1) % 2 ^ 32 in
    (
      record { successes = 0; failures = failures },
      if reaches failures failure_threshold then on_failure kind else goes_on,
    )

abbrev pub returns : Verdict → Bool
returns v = elim v [ startup_passed ↦ true | fails_workload ↦ true | _ ↦ false ]

-- The loop of runProbe until its context is cancelled, by what each round finds: nothing while the
-- probe is suspended for the startup probe, or the answer of an attempt.
unfoldable pub run_probe : ProbeKind → ℕ → ℕ → List (Option Bool) → Counters → List Verdict
run_probe kind successes failures [] n = []
run_probe kind successes failures (none ∷ rounds) n = run_probe kind successes failures rounds n
run_probe kind successes failures (some ok ∷ rounds) n =
    let (n', v) = probe_round kind (success_threshold_of kind successes) failures ok n in
    let rest = run_probe kind successes failures rounds n' in if returns v then v ∷ [] else v ∷ rest

-- hasStartupProbe and startupDone: whether a round is suspended
abbrev pub is_suspended : ProbeKind → Provider → String → Bool
is_suspended kind p key = elim kind [
  | startup ↦ false
  | _ ↦ elim (Dict.get p.pods key) [
    | none ↦ false
    | some st ↦ elim st.probes [ none ↦ false | some ps ↦ ps.has_startup && not ps.startup_done ]
  ]
]

-- setStartupDone
unfoldable pub set_startup_done : String → Provider → Provider
set_startup_done key p = elim (Dict.get p.pods key) [
  | none ↦ p
  | some st ↦ elim st.probes [
    | none ↦ p
    | some ps ↦ record p {
      pods = Dict.put p.pods key (record st { probes = some (record ps { startup_done = true }) });
    }
  ]
]

-- setReady
unfoldable pub set_ready : String → Bool → Provider → Provider
set_ready key ready p = elim (Dict.get p.pods key) [
  | none ↦ p
  | some st ↦ elim st.probes [
    | none ↦ p
    | some ps ↦ record p {
      pods = Dict.put p.pods key (record st { probes = some (record ps { ready = ready }) });
    }
  ]
]

abbrev pub no_container_spec : Container
no_container_spec = record {
  name = "";
  image = "";
  startup_probe = false;
  readiness_probe = false;
  liveness_probe = false;
}

abbrev pub first_container : List Container → Container
first_container [] = no_container_spec
first_container (c ∷ cs) = c

abbrev pub with_reason : String → Condition → Condition
with_reason reason c = record c { reason = reason }

-- The sticky status of failProbe under restartPolicy Never.
abbrev pub probe_failure : PodState → Text → PodStatus
probe_failure st id =
    let reason : String = "ProbeFailure" in
    let msg : String = "container failed its liveness/startup probe" in
    record st.pod.status {
      phase = pod_failed;
      reason = reason;
      message = msg;
      container_statuses =
          terminated_status (first_container st.pod.containers) id 137 reason msg ∷ [];
      conditions =
          condition pod_initialized true
          ∷ with_reason reason (condition containers_ready false)
          ∷ with_reason reason (condition pod_ready false)
          ∷ [];
    }

abbrev pub fail_for_good : PodState → Text → PodState
fail_for_good st id =
    let status = probe_failure st id in
    record (stop_probes st) {
      terminal_status = some status;
      pod = record st.pod { status = status };
    }

abbrev pub id_or_none : Option Text → Text
id_or_none none = []
id_or_none (some id) = id

-- failProbe
unfoldable pub fail_probe : Host → String → String → Provider → Trace → Provider × Trace
fail_probe h key container p t = elim (Dict.get p.pods key) [
  | none ↦ (p, t)
  | some st ↦ elim st.terminal_status [
    | some status ↦ (p, t)
    | none ↦
        let id = id_or_none (workload_of st.workloads container) in
        let (restarted, st', t') = maybe_trigger_restart h st container id 1 t in
        if restarted then (record p { pods = Dict.put p.pods key st' }, t') else (
          record p { pods = Dict.put p.pods key (fail_for_good st' id) },
          call_destroy id ∷ call_stop id default_stop_timeout ∷ t',
        )
  ]
]
