-- ===== src/Provider/Launches.antt =====
-- The restarts that reconciling launches, and the Pods that never end.
use macvz.Prelude.{
  Bool-cases, Option-cases, Text, codes_key, text_key, number_key, ℕ, suc, ◌+◌, String, ◌≡◌, refl,
  ap, ◌∙◌, inl, inr, Bool, true, false, none, some, List, [], ◌∷◌, arith,
}
use macvz.Runtime.{RtError, stopped, failed, Status, call_status, go_restart, Trace, Answer-cases}
use macvz.Provider.{Container, ContainerStatus, PodStatus, PodState, Host}
use macvz.Provider.Restart.{should_restart}
use macvz.Provider.Reconcile.{
  int32, non_zero, container_status, terminated_status, workload_of, maybe_trigger_restart, Pass,
  exited, observe_ip, counted, reconcile_known, reconcile_error, reconcile_container,
  reconcile_containers, summarize, reconcile_status,
}

-- The restart goroutines launched so far.
abbrev pub launches : Trace → ℕ
launches [] = 0
launches (go_restart key id backoff ∷ t) = suc (launches t)
launches (_ ∷ t) = launches t

abbrev pub bit : Bool → ℕ
bit true = 1
bit false = 0

-- From one state of a Pod and its calls to another, each launch has set the flag, and the rest of
-- the bookkeeping is as it was.
abbrev pub Launched : PodState → Trace → PodState → Trace → Type 0
Launched st t st' t' =
    (launches t' + bit st.restarting ≡ launches t + bit st'.restarting)
    × (st' ≡ record st { restarting = st'.restarting })

maybe_trigger_restart-Launched :
    (h : Host) (st : PodState) (container : String) (id : Text) (exit_code : ℕ) (t : Trace)
    → let r = maybe_trigger_restart h st container id exit_code t in Launched st t r.1 r.2
unfolding maybe_trigger_restart
maybe_trigger_restart-Launched h st container id exit_code t =
    elim (Bool-cases (should_restart st.restart_policy exit_code)) [
      | inr never_again ↦ rw (never_again, maybe_trigger_restart) (refl, refl)
      | inl again ↦ elim (Bool-cases st.restarting) [
        | inl b ↦ ground (arith, again, b)
        | inr b ↦ ground (arith, again, b)
      ]
    ]

module _ (h : Host) where
  exited-Launched :
      (c : Container) (id : Text) (exit_code : ℕ) (cs : ContainerStatus) (x y : Pass)
      → let after = (exited h c id exit_code cs x y).1 in Launched x.st x.trace after.st after.trace
  exited-Launched c id exit_code cs x y =
      let step = maybe_trigger_restart-Launched h x.st c.name id exit_code x.trace in
      ground (arith, step)

  reconcile_known-Launched :
      (c : Container) (id : Text) (rs : Status) (x : Pass)
      → let after = (reconcile_known h c id rs x).1 in Launched x.st x.trace after.st after.trace
  unfolding reconcile_known
  reconcile_known-Launched c id rs x =
      let cs = counted x.st c (container_status c id rs) in
      elim rs.phase
        as (λ ph.
          let after : ContainerStatus × Pass = elim ph [
            | stopped ↦ exited h c id rs.exit_code cs x (observe_ip rs x)
            | failed ↦ exited h c id (non_zero (int32 rs.exit_code)) cs x (observe_ip rs x)
            | _ ↦ (cs, observe_ip rs x)
          ] in
          Launched x.st x.trace after.1.st after.1.trace) [
            | stopped ↦ exited-Launched c id rs.exit_code cs x (observe_ip rs x)
            | failed ↦ exited-Launched c id (non_zero (int32 rs.exit_code)) cs x (observe_ip rs x)
            | _ ↦ (refl, refl)
          ]

  reconcile_error-Launched :
      (c : Container) (id : Text) (e : RtError) (x : Pass)
      → let after = (reconcile_error h c id e x).1 in Launched x.st x.trace after.st after.trace
  unfolding reconcile_error
  reconcile_error-Launched c id e x = ground (
    arith,
    exited-Launched c id 1 (terminated_status c id 0 "Lost" "runtime workload not found") x x,
  )

  pub reconcile_container-Launched :
      (c : Container) (x : Pass)
      → let after = (reconcile_container h c x).1 in Launched x.st x.trace after.st after.trace
  unfolding reconcile_container
  reconcile_container-Launched c x = elim (Option-cases (workload_of x.st.workloads c.name)) [
    | inl e ↦ rw (e, reconcile_container) (refl, refl)
    | inr (id, e) ↦
        let asked = record x { trace = call_status id ∷ x.trace } in
        elim (Answer-cases (h.runtime.status x.trace id)) [
          | inl (rs, a) ↦
              rw (e, reconcile_container) (rw a (reconcile_known-Launched c id rs asked))
          | inr (er, a) ↦
              rw (e, reconcile_container) (rw a (reconcile_error-Launched c id er asked))
        ]
  ]

  Launched-trans :
      (s1 : PodState) (t1 : Trace) (s2 : PodState) (t2 : Trace) (s3 : PodState) (t3 : Trace)
      → Launched s1 t1 s2 t2
      → Launched s2 t2 s3 t3
      → Launched s1 t1 s3 t3
  Launched-trans s1 t1 s2 t2 s3 t3 (a, b) (c, d) =
      (omega (arith, a, c), d ∙ ap (λ (s : PodState). record s { restarting = s3.restarting }) b)

  pub reconcile_containers-Launched :
      (cs : List Container) (x : Pass)
      → let after = (reconcile_containers h cs x).1 in Launched x.st x.trace after.st after.trace
  unfolding reconcile_containers
  reconcile_containers-Launched [] x = (refl, refl)
  reconcile_containers-Launched (c ∷ cs) x =
      let (s, x') = reconcile_container h c x in
      let (rest, x'') = reconcile_containers h cs x' in
      Launched-trans x.st x.trace x'.st x'.trace x''.st x''.trace (reconcile_container-Launched c x)
        (reconcile_containers-Launched cs x')

  -- The loop over the containers of a Pod without a sticky status.
  abbrev pub looped : PodState → Trace → List ContainerStatus × Pass
  looped st t =
      reconcile_containers h st.pod.containers
        (record { st = st; trace = t; pod_ip = st.pod.status.pod_ip; message = "" })

  pub reconcile_status_live :
      (st : PodState) (t : Trace)
      → st.terminal_status ≡ none
      → reconcile_status h st t
        ≡ (summarize h (looped st t).0 (looped st t).1, (looped st t).1.st, (looped st t).1.trace)
  unfolding reconcile_status
  reconcile_status_live st t e = ground (arith, e)

  pub reconcile_status_sticky :
      (st : PodState) (t : Trace) (status : PodStatus)
      → st.terminal_status ≡ some status
      → reconcile_status h st t ≡ (status, st, t)
  unfolding reconcile_status
  reconcile_status_sticky st t status e = ground (arith, e)

  -- Reconciling a Pod launches one restart if none was in flight and one is after it, and launches
  -- none otherwise; of the bookkeeping it changes only the flag that says so.
  pub reconcile_status-launches :
      (st : PodState) (t : Trace)
      → let (status, st', t') = reconcile_status h st t in
        (launches t' + bit st.restarting ≡ launches t + bit st'.restarting)
        × (st' ≡ record st { restarting = st'.restarting })
  reconcile_status-launches st t = elim (Option-cases st.terminal_status) [
    | inl e ↦ rw (reconcile_status_live st t e) (
        reconcile_containers-Launched st.pod.containers
          (record { st = st; trace = t; pod_ip = st.pod.status.pod_ip; message = "" }))
    | inr (status, e) ↦ rw (reconcile_status_sticky st t status e) (refl, refl)
  ]
