-- ===== src/Provider/Adopt.antt =====
-- Adopted micro-VMs survive, and new ones of a failed CreatePod do not.
use macvz.Prelude.{
  Option-cases, Sum-cases, List-cases, Text, codes_key, text_key, number_key, ℕ, String, ◌≡◌, refl,
  ◌∙◌, inl, inr, Bool, true, Option, List, [], ◌∷◌, arith,
}
use macvz.Runtime.{RtError, Status, ContainerSpec, call_status, Trace, answer, Answer-cases}
use macvz.Network.Ipam.{PodIpam}
use macvz.Drain.Laws.{destroyed}
use macvz.Provider.{Container, ContainerStatus, Pod, Workload, PodState, Host, Provider, pod_key}
use macvz.Provider.Reconcile.{
  int32, non_zero, container_status, terminated_status, workload_of, maybe_trigger_restart, Pass,
  exited, observe_ip, counted, reconcile_known, reconcile_error, reconcile_container,
  reconcile_containers, reconcile_status, refresh,
}
use macvz.Provider.Rebuild.{vm_ip_poll_attempts}
use macvz.Provider.Replace.{poll_vm_ip-destroyed}
use macvz.Provider.Create.{
  translated, Resolved, allocate_ip, Launch, launched, ends, fails, adopt, launch,
}
use macvz.Provider.Lifecycle.{
  observe_vm_ip, connect, new_state, first_status, create_launched, create_allocated,
  create_untracked, create_pod,
}

module _ (h : Host) where
  exited-destroyed :
      (c : Container) (id : Text) (exit_code : ℕ) (cs : ContainerStatus) (x y : Pass)
      → destroyed (exited h c id exit_code cs x y).1.trace ≡ destroyed x.trace
  unfolding maybe_trigger_restart
  exited-destroyed c id exit_code cs x y = ground arith

  reconcile_known-destroyed :
      (c : Container) (id : Text) (rs : Status) (x : Pass)
      → destroyed (reconcile_known h c id rs x).1.trace ≡ destroyed x.trace
  unfolding reconcile_known
  reconcile_known-destroyed c id rs x =
      let cs = counted x.st c (container_status c id rs) in
      ground (
        arith,
        exited-destroyed c id rs.exit_code cs x (observe_ip rs x),
        exited-destroyed c id (non_zero (int32 rs.exit_code)) cs x (observe_ip rs x),
      )

  reconcile_error-destroyed :
      (c : Container) (id : Text) (e : RtError) (x : Pass)
      → destroyed (reconcile_error h c id e x).1.trace ≡ destroyed x.trace
  unfolding reconcile_error
  reconcile_error-destroyed c id e x = ground (
    arith,
    exited-destroyed c id 1 (terminated_status c id 0 "Lost" "runtime workload not found") x x,
  )

  reconcile_container-destroyed :
      (c : Container) (x : Pass) → destroyed (reconcile_container h c x).1.trace ≡ destroyed x.trace
  unfolding reconcile_container
  reconcile_container-destroyed c x = elim (Option-cases (workload_of x.st.workloads c.name)) [
    | inl e ↦ rw (e, reconcile_container) refl
    | inr (id, e) ↦
        let asked = record x { trace = call_status id ∷ x.trace } in
        elim (Answer-cases (h.runtime.status x.trace id)) [
          | inl (rs, a) ↦
              rw (e, reconcile_container) (rw a (reconcile_known-destroyed c id rs asked))
          | inr (er, a) ↦
              rw (e, reconcile_container) (rw a (reconcile_error-destroyed c id er asked))
        ]
  ]

  reconcile_containers-destroyed :
      (cs : List Container) (x : Pass)
      → destroyed (reconcile_containers h cs x).1.trace ≡ destroyed x.trace
  unfolding reconcile_containers
  reconcile_containers-destroyed [] x = refl
  reconcile_containers-destroyed (c ∷ cs) x =
      reconcile_containers-destroyed cs (reconcile_container h c x).1
      ∙ reconcile_container-destroyed c x

  refresh-destroyed : (st : PodState) (t : Trace) → destroyed (refresh h st t).1 ≡ destroyed t
  unfolding refresh reconcile_status
  refresh-destroyed st t = elim (Option-cases st.terminal_status) [
    | inl e ↦
        rw (e, reconcile_status)
          (reconcile_containers-destroyed st.pod.containers
            (record { st = st; trace = t; pod_ip = st.pod.status.pod_ip; message = "" }))
    | inr (s, e) ↦ rw (e, reconcile_status) refl
  ]

  observe-destroyed :
      (ws : List Workload) (t : Trace) → destroyed (observe_vm_ip h ws t).1 ≡ destroyed t
  observe-destroyed [] t = refl
  observe-destroyed (w ∷ ws) t = poll_vm_ip-destroyed h vm_ip_poll_attempts w.id t

  connect-destroyed :
      (key pod_ip : String) (ws : List Workload) (t : Trace)
      → destroyed (connect h key pod_ip ws t).1 ≡ destroyed t
  unfolding connect
  connect-destroyed key pod_ip ws t = ground (arith, observe-destroyed ws t)

  -- A launch that destroys nothing when the rest of CreatePod fails.
  abbrev pub spares : Launch → Bool
  spares l = elim l [ launched workloads adopted ↦ adopted | _ ↦ true ]

  first_status-destroyed :
      (st : PodState) (t : Trace) → destroyed (first_status h st t).1 ≡ destroyed t
  first_status-destroyed st t = refresh-destroyed st t

  create_launched-destroyed :
      (pod : Pod) (spec : ContainerSpec) (key pod_ip : String) (m : Option PodIpam) (p : Provider)
      (l : Launch) (t : Trace)
      → spares l ≡ true
      → destroyed (create_launched h pod spec key pod_ip m p (l, t)).2 ≡ destroyed t
  unfolding create_launched
  create_launched-destroyed pod spec key pod_ip m p (fails x) t s = refl
  create_launched-destroyed pod spec key pod_ip m p (ends cause) t s = refl
  create_launched-destroyed pod spec key pod_ip m p (launched ws adopted) t s =
      elim (Sum-cases (connect h key pod_ip ws t).0) [
        | inl (x, a) ↦ rw (a, create_launched) (rw s (connect-destroyed key pod_ip ws t))
        | inr (w, a) ↦
            rw (a, create_launched)
              (first_status-destroyed (new_state pod spec pod_ip ws w.0 w.1)
                  (connect h key pod_ip ws t).1
                ∙ connect-destroyed key pod_ip ws t)
      ]

  adopt-spares :
      (c : Container) (existing : Status) (t : Trace)
      → (spares (adopt h c existing t).0 ≡ true)
        × (destroyed (adopt h c existing t).1 ≡ destroyed t)
  unfolding adopt
  adopt-spares c existing t = ground arith

  launch-spares :
      (c : Container) (spec : ContainerSpec) (auth : Bool) (t : Trace) (existing : Status)
      → h.runtime.status t spec.name ≡ answer existing
      → (spares (launch h c spec auth t).0 ≡ true)
        × (destroyed (launch h c spec auth t).1 ≡ destroyed t)
  unfolding launch
  launch-spares c spec auth t existing a =
      rw (a, launch) (adopt-spares c existing (call_status spec.name ∷ t))

  create_allocated-destroyed :
      (auth : Bool) (pod : Pod) (c : Container) (spec : ContainerSpec) (p : Provider) (t : Trace)
      (existing : Status)
      → h.runtime.status t spec.name ≡ answer existing
      → destroyed (create_allocated h auth pod c spec p t).2 ≡ destroyed t
  unfolding create_allocated
  create_allocated-destroyed auth pod c spec p t existing e =
      let (spared, kept) = launch-spares c spec auth t existing e in
      elim (Sum-cases (allocate_ip h p.ipam (pod_key pod)).1) [
        | inl (x, a) ↦ rw (a, create_allocated) refl
        | inr (pod_ip, a) ↦
            rw (a, create_allocated)
              (create_launched-destroyed pod spec (pod_key pod) pod_ip _ _
                  (launch h c spec auth t).0 (launch h c spec auth t).1 spared
                ∙ kept)
      ]

  -- If the runtime already has the Pod's workload, CreatePod destroys nothing, whether it succeeds
  -- or fails.
  pub create_pod_adopts :
      (r : Resolved) (pod : Pod) (p : Provider) (t : Trace) (spec : ContainerSpec)
      (existing : Status)
      → r.translation ≡ translated spec
      → h.runtime.status t spec.name ≡ answer existing
      → destroyed (create_pod h r pod p t).2 ≡ destroyed t
  unfolding create_pod create_untracked
  create_pod_adopts r pod p t spec existing a e = elim (List-cases pod.containers) [
    | inl b ↦ ground (arith, a, b)
    | inr (c, cs, b) ↦
        ground (arith, a, b, create_allocated-destroyed r.pull_auth pod c spec p t existing e)
  ]
