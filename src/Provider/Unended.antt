-- ===== src/Provider/Unended.antt =====
-- Pods that are always restarted never end.
use macvz.Prelude.{
  Option-cases, is_empty, Text, codes_key, text_key, number_key, ℕ, String, ◌≡◌, refl, inl, inr,
  Bool, true, false, ◌||◌, Option, none, some, List, [], ◌∷◌, arith,
}
use macvz.Runtime.{RtError, Status, call_status, Trace, Answer-cases}
use macvz.Provider.{
  always, Container, state_terminated, ContainerStatus, PodPhase, pod_succeeded, pod_failed,
  ProbeState, PodState, Host,
}
use macvz.Provider.Summary.{aggregate_phase, probe_readiness, reflect_probes}
use macvz.Provider.Reconcile.{
  int32, non_zero, container_status, terminated_status, previous_container_status, workload_of,
  maybe_trigger_restart, Pass, exited, observe_ip, counted, reconcile_known, reconcile_error,
  reconcile_container, reconcile_containers, summarize, refresh,
}
use macvz.Provider.Ready.{is_waiting, is_running, has_failed, any, aggregate_phase-comment_phase}
use macvz.Provider.Launches.{
  Launched, reconcile_container-Launched, reconcile_containers-Launched, looped,
  reconcile_status_live,
}

abbrev pub is_ended : ContainerStatus → Bool
is_ended s = elim s.state [ state_terminated code reason msg ↦ true | _ ↦ false ]

-- The Pod is restarted at every exit, and its last status shows no container that has exited.
abbrev pub IsUnended : PodState → Type 0
IsUnended st =
    (st.restart_policy ≡ always) × (any is_ended st.pod.status.container_statuses ≡ false)

previous-is_ended :
    (statuses : List ContainerStatus) (name : String) (s : ContainerStatus)
    → any is_ended statuses ≡ false
    → previous_container_status statuses name ≡ some s
    → is_ended s ≡ false
unfolding previous_container_status
previous-is_ended [] name s h e = absurd (cc)
previous-is_ended (x ∷ statuses) name s h e =
    ground (arith, previous-is_ended statuses name s, h, e)

-- A phase that Kubernetes does not come back from.
abbrev pub is_final : PodPhase → Bool
is_final phase = elim phase [ pod_failed ↦ true | pod_succeeded ↦ true | _ ↦ false ]

module _ (h : Host) where
  exited-is_ended :
      (c : Container) (id : Text) (exit_code : ℕ) (cs : ContainerStatus) (x y : Pass)
      → x.st.restart_policy ≡ always
      → is_ended (exited h c id exit_code cs x y).0 ≡ false
  unfolding maybe_trigger_restart
  exited-is_ended c id exit_code cs x y p = ground (arith, p)

  reconcile_known-is_ended :
      (c : Container) (id : Text) (rs : Status) (x : Pass)
      → x.st.restart_policy ≡ always
      → is_ended (reconcile_known h c id rs x).0 ≡ false
  unfolding reconcile_known
  reconcile_known-is_ended c id rs x p =
      let cs = counted x.st c (container_status c id rs) in
      ground (
        arith,
        exited-is_ended c id rs.exit_code cs x (observe_ip rs x) p,
        exited-is_ended c id (non_zero (int32 rs.exit_code)) cs x (observe_ip rs x) p,
      )

  reconcile_error-is_ended :
      (c : Container) (id : Text) (e : RtError) (x : Pass)
      → IsUnended x.st
      → is_ended (reconcile_error h c id e x).0 ≡ false
  unfolding reconcile_error
  reconcile_error-is_ended c id e x (p, q) =
      let lost = terminated_status c id 0 "Lost" "runtime workload not found" in
      elim (Option-cases (previous_container_status x.st.pod.status.container_statuses c.name)) [
        | inl n ↦ ground (arith, exited-is_ended c id 1 lost x x p, n)
        | inr (prev, n) ↦ ground (
          arith,
          exited-is_ended c id 1 lost x x p,
          n,
          previous-is_ended x.st.pod.status.container_statuses c.name prev q n,
        )
      ]

  reconcile_container-is_ended :
      (c : Container) (x : Pass) → IsUnended x.st → is_ended (reconcile_container h c x).0 ≡ false
  unfolding reconcile_container
  reconcile_container-is_ended c x u = elim (Option-cases (workload_of x.st.workloads c.name)) [
    | inl e ↦ rw (e, reconcile_container) refl
    | inr (id, e) ↦
        let asked = record x { trace = call_status id ∷ x.trace } in
        elim (Answer-cases (h.runtime.status x.trace id)) [
          | inl (rs, a) ↦
              rw (e, reconcile_container) (rw a (reconcile_known-is_ended c id rs asked u.0))
          | inr (er, a) ↦
              rw (e, reconcile_container) (rw a (reconcile_error-is_ended c id er asked u))
        ]
  ]

  -- The flag does not matter to IsUnended.
  Launched-IsUnended :
      (st : PodState) (t : Trace) (st' : PodState) (t' : Trace)
      → Launched st t st' t'
      → IsUnended st
      → IsUnended st'
  Launched-IsUnended st t st' t' l u = rw l.1 u

  reconcile_containers-is_ended :
      (cs : List Container) (x : Pass)
      → IsUnended x.st
      → any is_ended (reconcile_containers h cs x).0 ≡ false
  unfolding reconcile_containers
  reconcile_containers-is_ended [] x u = refl
  reconcile_containers-is_ended (c ∷ cs) x u =
      let x' = (reconcile_container h c x).1 in
      ground (
        arith,
        reconcile_container-is_ended c x u,
        reconcile_containers-is_ended cs x'
            (Launched-IsUnended x.st x.trace x'.st x'.trace (reconcile_container-Launched h c x) u),
      )

  reflect_probes-is_ended :
      (probes : Option ProbeState) (started ready : Bool) (statuses : List ContainerStatus)
      → any is_ended (reflect_probes probes started ready statuses) ≡ any is_ended statuses
  unfolding reflect_probes
  reflect_probes-is_ended probes started ready [] = refl
  reflect_probes-is_ended none started ready (s ∷ statuses) =
      ground (arith, reflect_probes-is_ended none started ready statuses)
  reflect_probes-is_ended (some ps) started ready (s ∷ statuses) =
      ground (arith, reflect_probes-is_ended (some ps) started ready statuses)

  unended_states :
      (statuses : List ContainerStatus)
      → any is_ended statuses ≡ false
      → (any has_failed statuses ≡ false)
        × ((any is_waiting statuses || is_empty statuses || any is_running statuses) ≡ true)
  unended_states [] u = (refl, refl)
  unended_states (s ∷ statuses) u = ground (arith, unended_states statuses, u)

  aggregate_phase-is_final :
      (statuses : List ContainerStatus)
      → any is_ended statuses ≡ false
      → is_final (aggregate_phase statuses) ≡ false
  aggregate_phase-is_final statuses u =
      rw (aggregate_phase-comment_phase statuses) (ground (arith, unended_states statuses u))

  -- Refreshing the status of a Pod that is restarted at every exit, and that is not failed for
  -- good, shows no container that has exited and no final phase, however its micro-VM exits,
  -- vanishes or cannot be inspected; and the Pod stays such a Pod.
  pub refresh-IsUnended :
      (st : PodState) (t : Trace)
      → st.terminal_status ≡ none
      → IsUnended st
      → let st' = (refresh h st t).0 in
        (is_final st'.pod.status.phase ≡ false) × IsUnended st' × (st'.terminal_status ≡ none)
  unfolding refresh summarize
  refresh-IsUnended st t e u =
      let x = (looped h st t).1 in
      let statuses = (looped h st t).0 in
      let start : Pass = record {
        st = st;
        trace = t;
        pod_ip = st.pod.status.pod_ip;
        message = "";
      } in
      let launched = reconcile_containers-Launched h st.pod.containers start in
      let kept : any is_ended statuses ≡ false =
        reconcile_containers-is_ended st.pod.containers start u in
      let probed = probe_readiness x.st.probes (aggregate_phase statuses) in
      let policy : x.st.restart_policy ≡ always = rw launched.1 u.0 in
      let free : x.st.terminal_status ≡ none = rw launched.1 e in
      rw (reconcile_status_live h st t e) (
        aggregate_phase-is_final statuses kept,
        (policy, rw (reflect_probes-is_ended x.st.probes probed.0 probed.1 statuses) kept),
        free,
      )
