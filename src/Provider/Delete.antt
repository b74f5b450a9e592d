-- ===== src/Provider/Delete.antt =====
-- Creating a Pod twice, and deleting it.
use macvz.Prelude.{
  if◌then◌else◌, Option-cases, is_some, Sum-cases, contains, Text, codes_key, text_key, number_key,
  ◌==◌, ℕ, String, ◌≡◌, refl, inl, inr, Bool, true, ◌||◌, Option, none, some, List, [], ◌∷◌, map,
  arith,
}
use macvz.Runtime.{ContainerSpec, call_stop, call_destroy, Trace}
use macvz.Network.Ipam.{PodIpam, release, ip_of}
use macvz.Network.Ipam.Safety.{release_lem}
use macvz.Drain.Laws.{destroyed}
use macvz.Provider.{Container, Pod, Workload, PodState, Host, Provider, pod_key}
use macvz.Prelude.Dict.{Dict, get, get-put_self, get-remove}
use macvz.Provider.Create.{
  Translation, translated, configuration_pending, unsupported, Resolved, allocate_ip, release_ip,
  Launch, launched, ends, fails,
}
use macvz.Provider.Lifecycle.{
  connect, track, create_launched, create_allocated, create_untracked, create_pod,
  detach_pod_network, pod_stop_timeout, stop_all, delete_pod,
}
use macvz.Provider.Undo.{holds, IsSound}
use macvz.Prelude.Dict

-- The Pod is tracked.
abbrev pub IsTracked : Provider → Pod → Type 0
IsTracked p pod = is_some (Dict.get p.pods (pod_key pod)) ≡ true

track-IsTracked :
    (p : Provider) (pod : Pod) (st : PodState) → IsTracked (track p (pod_key pod) st) pod
track-IsTracked p pod st = ground (arith, get-put_self p.pods (pod_key pod) st)

create_launched-IsTracked :
    (h : Host) (pod : Pod) (spec : ContainerSpec) (pod_ip : String) (m : Option PodIpam)
    (p : Provider) (l : Launch × Trace)
    → (create_launched h pod spec (pod_key pod) pod_ip m p l).0 ≡ none
    → IsTracked (create_launched h pod spec (pod_key pod) pod_ip m p l).1 pod
unfolding create_launched
create_launched-IsTracked h pod spec pod_ip m p (fails x, t) q = absurd (ground (arith, q))
create_launched-IsTracked h pod spec pod_ip m p (ends cause, t) q =
    track-IsTracked (record p { ipam = m }) pod _
create_launched-IsTracked h pod spec pod_ip m p (launched ws adopted, t) q =
    elim (Sum-cases (connect h (pod_key pod) pod_ip ws t).0) [
      | inl (x, a) ↦ absurd (ground (arith, q, a))
      | inr (w, a) ↦ rw (a, create_launched) (track-IsTracked p pod _)
    ]

create_allocated-IsTracked :
    (h : Host) (auth : Bool) (pod : Pod) (c : Container) (spec : ContainerSpec) (p : Provider)
    (t : Trace)
    → (create_allocated h auth pod c spec p t).0 ≡ none
    → IsTracked (create_allocated h auth pod c spec p t).1 pod
unfolding create_allocated
create_allocated-IsTracked h auth pod c spec p t q =
    elim (Sum-cases (allocate_ip h p.ipam (pod_key pod)).1) [
      | inl (x, a) ↦ absurd (ground (arith, q, a))
      | inr (pod_ip, a) ↦
          rw (a, create_allocated)
            (create_launched-IsTracked h pod spec pod_ip _ _ _ (rw (a, create_allocated) at q))
    ]

create_untracked-IsTracked :
    (h : Host) (r : Resolved) (pod : Pod) (p : Provider) (t : Trace) (answer : Translation)
    (containers : List Container)
    → r.translation ≡ answer
    → pod.containers ≡ containers
    → (create_untracked h r pod p t).0 ≡ none
    → IsTracked (create_untracked h r pod p t).1 pod
unfolding create_untracked
create_untracked-IsTracked h r pod p t configuration_pending cs a b q =
    absurd (ground (arith, a, q))
create_untracked-IsTracked h r pod p t (unsupported cause) cs a b q =
    rw (a, create_untracked) (track-IsTracked p pod _)
create_untracked-IsTracked h r pod p t (translated spec) [] a b q = absurd (ground (arith, a, b, q))
create_untracked-IsTracked h r pod p t (translated spec) (c ∷ cs) a b q =
    ground (arith, a, b, q, create_allocated-IsTracked h r.pull_auth pod c spec p t)

-- A CreatePod that returns no error tracks the Pod, and so any further CreatePod of it returns
-- none, changes nothing and makes no call.
pub create_pod_idempotent :
    (h : Host) (r : Resolved) (pod : Pod) (p : Provider) (t : Trace)
    → (create_pod h r pod p t).0 ≡ none
    → let p' = (create_pod h r pod p t).1 in
      IsTracked p' pod × ((r' : Resolved) (t' : Trace) → create_pod h r' pod p' t' ≡ (none, p', t'))
unfolding create_pod
create_pod_idempotent h r pod p t q =
    let tracked : IsTracked (create_pod h r pod p t).1 pod =
      elim (Option-cases (Dict.get p.pods (pod_key pod))) [
        | inr (st, f) ↦ ground (arith, f)
        | inl f ↦
            rw (f, create_pod)
              (create_untracked-IsTracked h r pod p t _ _ refl refl (rw (f, create_pod) at q))
      ] in
    (tracked, λ r' t'. ground (arith, tracked))

stop_all-destroyed :
    (workloads : List Workload) (timeout : ℕ) (t : Trace) (id : Text)
    → contains (destroyed (stop_all workloads timeout t)) id
      ≡ (contains (map Workload.id workloads) id || contains (destroyed t) id)
unfolding stop_all contains
stop_all-destroyed [] timeout t id = refl
stop_all-destroyed (w ∷ workloads) timeout t id = ground (
  arith,
  stop_all-destroyed workloads timeout (call_destroy w.id ∷ call_stop w.id timeout ∷ t) id,
)

release_ip-holds :
    (m : Option PodIpam) (key : String) → IsSound m → holds (release_ip m key) key ≡ none
unfolding ip_of release
release_ip-holds none key v = refl
release_ip-holds (some a) key v = elim (Option-cases (ip_of a key)) [
  | inl e ↦ ground (arith, e)
  | inr (ip, e) ↦ (release_lem a key ip v e).0
]

detach-destroyed :
    (h : Host) (st : PodState) (key : String) (t : Trace)
    → destroyed (detach_pod_network h st key t) ≡ destroyed t
detach-destroyed h st key t = ground arith

-- Deleting a tracked Pod forgets it and no other, frees its address, and tries to destroy each of
-- its workloads and no other micro-VM.
pub delete_pod_lem :
    (h : Host) (pod : Pod) (p : Provider) (t : Trace) (st : PodState)
    → IsSound p.ipam
    → Dict.get p.pods (pod_key pod) ≡ some st
    → let (known, p', t') = delete_pod h pod p t in
      (known ≡ true)
      × ((key : String)
          → Dict.get p'.pods key ≡ (if pod_key pod == key then none else Dict.get p.pods key))
      × (holds p'.ipam (pod_key pod) ≡ none)
      × ((id : Text)
          → contains (destroyed t') id
            ≡ (contains (map Workload.id st.workloads) id || contains (destroyed t) id))
unfolding delete_pod
delete_pod_lem h pod p t st v f =
    let key = pod_key pod in
    let detached = detach_pod_network h st key t in
    rw (f, delete_pod)
      (
        refl,
        λ k. get-remove p.pods key k,
        release_ip-holds p.ipam key v,
        λ id.
            rw (← detach-destroyed h st key t)
              (stop_all-destroyed st.workloads (pod_stop_timeout pod) detached id),
      )
