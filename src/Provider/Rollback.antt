-- ===== src/Provider/Rollback.antt =====
-- A micro-VM that a failed CreatePod made is destroyed.
use macvz.Prelude.{
  Sum-cases, contains, List-cases, Text, codes_key, text_key, number_key, same_self, ℕ, suc, String,
  ◌≡◌, refl, ◌⊎◌, inl, inr, Bool, true, false, Option, some, [], ◌∷◌, arith,
}
use macvz.Runtime.{
  RtError, ContainerSpec, call_status, call_pull, call_create, Trace, answer, failure,
}
use macvz.Network.Ipam.{PodIpam}
use macvz.Drain.Laws.{destroyed}
use macvz.Provider.{Container, Pod, Host, Provider, pod_key}
use macvz.Provider.Create.{
  translated, Resolved, CreateError, allocate_ip, rollback, Launch, launched, ends, fails, own,
  build, launch,
}
use macvz.Provider.Lifecycle.{
  connect, create_launched, create_allocated, create_untracked, create_pod,
}

-- How many times the runtime was asked to create.
abbrev pub creations : Trace → ℕ
creations [] = 0
creations (call_create spec ∷ t) = suc (creations t)
creations (_ ∷ t) = creations t

-- No micro-VM was made since, or the one of this ID was destroyed.
abbrev pub Cleaned : Trace → Text → Trace → Type 0
Cleaned t id t' = (creations t' ≡ creations t) ⊎ (contains (destroyed t') id ≡ true)

-- A launch leaves the new micro-VM to the rollback, or has cleaned up.
abbrev pub Accounted : Trace → Container → Text → Launch × Trace → Type 0
Accounted t c id l = elim l.0 [
  | launched workloads adopted ↦ (workloads ≡ own c id) × (adopted ≡ false)
  | _ ↦ Cleaned t id l.1
]

module _ (h : Host) (t : Trace) (c : Container) (id : Text) where
  build-Accounted :
      (spec : ContainerSpec) (auth : Bool)
      → h.runtime.create (call_pull spec.image ∷ t) spec ≡ answer id
      → Accounted t c id (build h c spec auth t)
  unfolding build rollback contains
  build-Accounted spec auth a = ground (arith, a, same_self id)

  create_launched-Cleaned :
      (pod : Pod) (spec : ContainerSpec) (key pod_ip : String) (m : Option PodIpam) (p : Provider)
      (l : Launch) (t' : Trace) (e : CreateError)
      → Accounted t c id (l, t')
      → (create_launched h pod spec key pod_ip m p (l, t')).0 ≡ some e
      → Cleaned t id (create_launched h pod spec key pod_ip m p (l, t')).2
  unfolding create_launched rollback contains
  create_launched-Cleaned pod spec key pod_ip m p (fails x) t' e a q = a
  create_launched-Cleaned pod spec key pod_ip m p (ends cause) t' e a q = a
  create_launched-Cleaned pod spec key pod_ip m p (launched ws adopted) t' e (own_ws, kept) q =
      elim (Sum-cases (connect h key pod_ip ws t').0) [
        | inl (x, b) ↦
            rw (b, create_launched) (rw kept (rw own_ws (inr (ground (arith, same_self id)))))
        | inr (w, b) ↦ absurd (ground (arith, q, b))
      ]

module _ (h : Host) where
  launch-Accounted :
      (t : Trace) (c : Container) (id : Text) (spec : ContainerSpec) (auth : Bool) (x : RtError)
      → h.runtime.status t spec.name ≡ failure x
      → h.runtime.create (call_pull spec.image ∷ call_status spec.name ∷ t) spec ≡ answer id
      → Accounted (call_status spec.name ∷ t) c id (launch h c spec auth t)
  unfolding launch
  launch-Accounted t c id spec auth x s a =
      rw (s, launch) (build-Accounted h (call_status spec.name ∷ t) c id spec auth a)

  create_allocated-Cleaned :
      (auth : Bool) (pod : Pod) (c : Container) (spec : ContainerSpec) (p : Provider) (t : Trace)
      (id : Text) (x : RtError) (e : CreateError)
      → h.runtime.status t spec.name ≡ failure x
      → h.runtime.create (call_pull spec.image ∷ call_status spec.name ∷ t) spec ≡ answer id
      → (create_allocated h auth pod c spec p t).0 ≡ some e
      → Cleaned t id (create_allocated h auth pod c spec p t).2
  unfolding create_allocated
  create_allocated-Cleaned auth pod c spec p t id x e s a q =
      elim (Sum-cases (allocate_ip h p.ipam (pod_key pod)).1) [
        | inl (y, b) ↦ rw (b, create_allocated) (inl refl)
        | inr (pod_ip, b) ↦
            rw (b, create_allocated)
              (create_launched-Cleaned h (call_status spec.name ∷ t) c id pod spec (pod_key pod)
                pod_ip _ _ (launch h c spec auth t).0 (launch h c spec auth t).1 e
                (launch-Accounted t c id spec auth x s a) (rw (b, create_allocated) at q))
      ]

  -- If the runtime does not have the Pod's workload and would make it under an ID, then a CreatePod
  -- that fails made none or destroyed that one.
  pub create_pod-Cleaned :
      (r : Resolved) (pod : Pod) (p : Provider) (t : Trace) (spec : ContainerSpec) (id : Text)
      (x : RtError) (e : CreateError)
      → r.translation ≡ translated spec
      → h.runtime.status t spec.name ≡ failure x
      → h.runtime.create (call_pull spec.image ∷ call_status spec.name ∷ t) spec ≡ answer id
      → (create_pod h r pod p t).0 ≡ some e
      → Cleaned t id (create_pod h r pod p t).2
  unfolding create_pod create_untracked
  create_pod-Cleaned r pod p t spec id x e a s m q = elim (List-cases pod.containers) [
    | inl b ↦ ground (arith, a, b)
    | inr (c, cs, b) ↦
        ground (arith, a, b, q, create_allocated-Cleaned r.pull_auth pod c spec p t id x e s m)
  ]
