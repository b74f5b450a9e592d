-- ===== src/Provider/Replace.antt =====
-- What a restart leaves behind.
use macvz.Prelude.{
  Option-cases, contains, Text, same_text_iff, codes_key, text_key, number_key, same_self, ℕ, zero,
  suc, String, ◌≡◌, refl, ap, ◌⊎◌, inl, inr, true, none, some, List, [], ◌∷◌, map, arith,
}
use macvz.Runtime.{call_status, call_create, call_start, call_destroy, Trace, answer, Answer-cases}
use macvz.Drain.Laws.{destroyed}
use macvz.Provider.{Workload, PodState, Host, Provider}
use macvz.Prelude.Dict.{Dict, get, put, get-put_self}
use macvz.Provider.Rebuild.{
  start_probes, stop_probes, vm_ip_poll_attempts, poll_vm_ip, Snapshot, begin_restart, Rebuilt,
  reattach, tear_down, rebuild, swap_id, finish_restart, restart_workload,
}
use macvz.Provider.Extends.{
  DestroyedAfter, Extends, Extends-trans, DestroyedAfter-later, reattach-Extends,
}
use macvz.Prelude.Dict

-- The provider's Pod has the workload.
abbrev pub Backs : Provider → String → Text → Type 0
Backs p key id =
    (st : PodState) × (Dict.get p.pods key ≡ some st)
    × (contains (map Workload.id st.workloads) id ≡ true)

swap_id-contains :
    (old_id new_id : Text) (workloads : List Workload)
    → contains (map Workload.id workloads) old_id ≡ true
    → contains (map Workload.id (swap_id old_id new_id workloads)) new_id ≡ true
unfolding swap_id contains
swap_id-contains old_id new_id [] h = h
swap_id-contains old_id new_id (w ∷ workloads) h = ground (
  arith,
  swap_id-contains old_id new_id workloads,
  same_text_iff w.id old_id,
  same_self new_id,
  same_self old_id,
)

start_probes-workloads : (st : PodState) → (start_probes st).workloads ≡ st.workloads
start_probes-workloads st = ground arith

module _ (key : String) (old_id : Text) (r : Rebuilt) (p : Provider) (t : Trace) where
  finish_restart-Extends : Extends t (finish_restart key old_id r p t).1
  unfolding finish_restart
  finish_restart-Extends = elim (Option-cases (Dict.get p.pods key)) [
    | inl gone ↦ elim (Option-cases r.new_id) [
      | inl e ↦ rw (gone, finish_restart) (rw e ([], refl))
      | inr (new_id, e) ↦ rw (gone, finish_restart) (rw e (call_destroy new_id ∷ [], refl))
    ]
    | inr (st, found) ↦ elim (Option-cases r.new_id) [
      | inl e ↦ rw (found, finish_restart) (rw e ([], refl))
      | inr (new_id, e) ↦ rw (found, finish_restart) (rw e ([], refl))
    ]
  ]

  -- finishRestart with a new micro-VM: the Pod takes it in place of the old one, or it is destroyed
  -- if the Pod is gone.
  finish_restart-Backs :
      (base : Trace) (new_id : Text)
      → Extends base t
      → r.new_id ≡ some new_id
      → (Dict.get p.pods key ≡ none) ⊎ Backs p key old_id
      → let (p', t') = finish_restart key old_id r p t in
        DestroyedAfter base new_id t' ⊎ Backs p' key new_id
  unfolding finish_restart contains
  finish_restart-Backs base new_id (a, x) e (inl gone) =
      rw (gone, finish_restart)
        (rw e (
          inl (
            call_destroy new_id ∷ a,
            ap (λ u. call_destroy new_id ∷ u) x,
            ground (arith, same_self new_id),
          )))
  finish_restart-Backs base new_id x e (inr (st, found, held)) =
      rw (found, finish_restart)
        (rw e (
          inr (
            _,
            get-put_self p.pods key _,
            rw (start_probes-workloads _) (swap_id-contains old_id new_id st.workloads held),
          )))

reattach-new_id :
    (h : Host) (key pod_ip : String) (id : Text) (t : Trace)
    → (reattach h key pod_ip id t).0.new_id ≡ some id
unfolding reattach
reattach-new_id h key pod_ip id t = ground arith

pub poll_vm_ip-destroyed :
    (h : Host) (n : ℕ) (id : Text) (t : Trace) → destroyed (poll_vm_ip h n id t).1 ≡ destroyed t
unfolding poll_vm_ip
poll_vm_ip-destroyed h zero id t = refl
poll_vm_ip-destroyed h (suc n) id t =
    ground (arith, poll_vm_ip-destroyed h n id (call_status id ∷ t))

reattach-destroyed :
    (h : Host) (key pod_ip : String) (id : Text) (t : Trace)
    → destroyed (reattach h key pod_ip id t).1 ≡ destroyed t
unfolding reattach
reattach-destroyed h key pod_ip id t =
    ground (arith, poll_vm_ip-destroyed h vm_ip_poll_attempts id t)

finish_restart-destroyed :
    (key : String) (old_id : Text) (r : Rebuilt) (p : Provider) (t : Trace) (id : Text)
    → contains (destroyed t) id ≡ true
    → contains (destroyed (finish_restart key old_id r p t).1) id ≡ true
unfolding finish_restart contains
finish_restart-destroyed key old_id r p t id h = ground (arith, h)

-- What the rest of the provider may do meanwhile: it adds calls and takes none back.
abbrev pub KeepsCalls : (Provider × Trace → Provider × Trace) → Type 0
KeepsCalls others =
    (p : Provider) (t : Trace) (id : Text)
    → contains (destroyed t) id ≡ true
    → contains (destroyed (others (p, t)).1) id ≡ true

module _ (h : Host) (key : String) (old_id : Text) (s : Snapshot) (t : Trace) where
  abbrev down : Trace
  down = tear_down h key old_id s.was_attached t

  rebuild-destroyed : contains (destroyed (rebuild h key old_id s t).1) old_id ≡ true
  unfolding rebuild contains tear_down
  rebuild-destroyed = elim (Answer-cases (h.runtime.create down s.spec)) [
    | inr (e, a) ↦ rw (a, rebuild) (ground (arith, same_self old_id))
    | inl (new_id, a) ↦ elim (Option-cases (h.runtime.start (call_create s.spec ∷ down) new_id)) [
      | inr (e, b) ↦ rw (a, rebuild) (rw b (ground (arith, same_self old_id)))
      | inl b ↦
          rw (a, rebuild)
            (rw b (
              rw
                (reattach-destroyed h key s.pod_ip new_id
                  (call_start new_id ∷ call_create s.spec ∷ down))
                (ground (arith, same_self old_id))))
    ]
  ]

  -- The calls up to and including the Create.
  abbrev pub made : Trace
  made = call_create s.spec ∷ down

  -- The micro-VM that Create made is handed on, or destroyed if it does not start.
  rebuild-new_id :
      (new_id : Text)
      → h.runtime.create down s.spec ≡ answer new_id
      → (((rebuild h key old_id s t).0.new_id ≡ some new_id)
          × Extends made (rebuild h key old_id s t).1)
        ⊎ DestroyedAfter made new_id (rebuild h key old_id s t).1
  unfolding rebuild contains
  rebuild-new_id new_id a = elim (Option-cases (h.runtime.start made new_id)) [
    | inr (e, b) ↦
        rw (a, rebuild)
          (rw b (
            inr (
              call_destroy new_id ∷ call_start new_id ∷ [],
              refl,
              ground (arith, same_self new_id),
            )))
    | inl b ↦
        rw (a, rebuild)
          (rw b (
            inl (
              reattach-new_id h key s.pod_ip new_id (call_start new_id ∷ made),
              Extends-trans made (call_start new_id ∷ made) _ (call_start new_id ∷ [], refl)
                  (reattach-Extends h key s.pod_ip new_id (call_start new_id ∷ made)),
            )))
  ]

-- What the rest of the provider may do meanwhile: it adds calls.
abbrev pub AddsCalls : (Provider × Trace → Provider × Trace) → Type 0
AddsCalls others = (p : Provider) (t : Trace) → Extends t (others (p, t)).1

module _ (h : Host) (others : Provider × Trace → Provider × Trace) (key : String) (old_id : Text)
    (p : Provider) (t : Trace) (st : PodState) (found : Dict.get p.pods key ≡ some st)
    (live : st.terminal_status ≡ none) where
  abbrev pub snapshot_of : Snapshot
  snapshot_of = record { spec = st.spec; pod_ip = st.pod.status.pod_ip; was_attached = st.attached }

  abbrev pub begun : Provider
  begun = record p { pods = Dict.put p.pods key (stop_probes st) }

  -- The provider and the calls when finishRestart takes the lock.
  abbrev pub meanwhile : Provider × Trace
  meanwhile = others (begun, (rebuild h key old_id snapshot_of t).1)

  begin_restart_live : begin_restart key p ≡ (begun, some snapshot_of)
  unfolding begin_restart
  begin_restart_live = ground (arith, found, live)

  restart_workload_live :
      restart_workload h others key old_id p t
      ≡ finish_restart key old_id (rebuild h key old_id snapshot_of t).0 meanwhile.0 meanwhile.1
  unfolding restart_workload
  restart_workload_live = rw (begin_restart_live, restart_workload) (rw begin_restart_live refl)

  -- A restart, of a tracked Pod that is not failed for good, whose Create answers a new micro-VM
  -- leaks none: if meanwhile the Pod was deleted or still has the old workload, and calls were only
  -- added, then afterwards the new one backs the Pod or was destroyed by a call after the Create.
  pub restart_workload-Backs :
      (new_id : Text)
      → AddsCalls others
      → h.runtime.create (tear_down h key old_id st.attached t) st.spec ≡ answer new_id
      → (Dict.get meanwhile.0.pods key ≡ none) ⊎ Backs meanwhile.0 key old_id
      → let (p', t') = restart_workload h others key old_id p t in
        DestroyedAfter (call_create st.spec ∷ tear_down h key old_id st.attached t) new_id t'
        ⊎ Backs p' key new_id
  restart_workload-Backs new_id adds a m =
      let base = call_create st.spec ∷ tear_down h key old_id st.attached t in
      let (r, t') = rebuild h key old_id snapshot_of t in
      rw restart_workload_live (elim (rebuild-new_id h key old_id snapshot_of t new_id a) [
        | inl (e, x) ↦
            finish_restart-Backs key old_id r meanwhile.0 meanwhile.1 base new_id
              (Extends-trans base t' meanwhile.1 x (adds begun t')) e m
        | inr d ↦ inl (
            DestroyedAfter-later base new_id t' _ d (
              Extends-trans t' meanwhile.1 _ (adds begun t')
                (finish_restart-Extends key old_id r meanwhile.0 meanwhile.1)))
      ])

  -- A restart destroys the micro-VM it was launched for whenever a Pod of that key is tracked that
  -- is not failed for good, be that Pod restarting or not, if meanwhile calls are only added.
  pub restart_workload-destroyed :
      KeepsCalls others
      → contains (destroyed (restart_workload h others key old_id p t).1) old_id ≡ true
  restart_workload-destroyed keeps = rw restart_workload_live (
      finish_restart-destroyed key old_id (rebuild h key old_id snapshot_of t).0 meanwhile.0
        meanwhile.1 old_id (keeps begun _ old_id (rebuild-destroyed h key old_id snapshot_of t)))
