-- ===== src/Provider/Undo.antt =====
-- What a CreatePod that fails leaves behind.
use macvz.Prelude.{
  if◌then◌else◌, Bool-cases, Option-cases, Sum-cases, codes_key, text_key, number_key, ◌==◌, String,
  ◌≡◌, refl, ap, ◌∙◌, ◌≢◌, ◌⊎◌, inl, inr, Bool, false, ◌||◌, Option, none, some, List, [], ◌∷◌,
  arith, eq_iff,
}
use macvz.Runtime.{ContainerSpec, Trace}
use macvz.Network.Ipam.{Result, ok, PodIpam, offset_ip, allocate, release, ip_of}
use macvz.Network.Addr.{IpText}
use macvz.Network.Ipam.Invariant.{IsValid, allocate-IsValid}
use macvz.Network.Ipam.Allocate.{
  known, full, fresh, allocate-Outcome, allocate-holds, allocate-others,
}
use macvz.Network.Ipam.Safety.{release_lem}
use macvz.Provider.{Container, Pod, Host, Provider, pod_key, is_empty_text}
use macvz.Prelude.Dict.{Dict, get}
use macvz.Provider.Create.{
  Translation, translated, configuration_pending, unsupported, Resolved, CreateError, allocate_ip,
  has_allocated_ip, release_ip, Launch, launched, ends, fails, launch,
}
use macvz.Provider.Lifecycle.{create_launched, create_allocated, create_untracked, create_pod}
use macvz.Prelude.Dict
use macvz.Network.Ipam

-- The address that a key holds, if there is an allocator.
abbrev pub holds : Option PodIpam → String → Option IpText
holds none key = none
holds (some a) key = ip_of a key

-- An allocator, if there is one, that satisfies its invariant.
abbrev pub IsSound : Option PodIpam → Type 0
IsSound none = Unit
IsSound (some a) = IsValid a

-- Every key holds the same address in both.
abbrev pub SameHolds : Option PodIpam → Option PodIpam → Type 0
SameHolds m n = (key : String) → holds m key ≡ holds n key

-- The text of an address is not empty.
abbrev pub IsShown : Host → Type 0
IsShown h = (ip : IpText) → is_empty_text (h.show_ip ip) ≡ false

allocate-release_undo :
    (a : PodIpam) (key : String) {ip : IpText}
    → IsValid a
    → ip_of a key ≡ none
    → (Ipam.allocate a key).1 ≡ Ipam.ok ip
    → (k : String) → ip_of (Ipam.release (Ipam.allocate a key).0 key) k ≡ ip_of a k
allocate-release_undo a key {ip} v e got k =
    let a' = (Ipam.allocate a key).0 in
    let (gone, _, rest) =
      release_lem a' key ip (allocate-IsValid a key v) (allocate-holds a key v got) in
    elim (Bool-cases (key == k)) [
      | inl same ↦ ground (arith, eq_iff key k, gone, e)
      | inr other ↦
          let ne : key ≢ k = λ q. ground (arith, eq_iff key k, q, other) in
          rest k ne ∙ allocate-others a key k v ne
    ]

-- The allocator after an attempt that fails: after the deferred release, if there is one.
abbrev pub undone_of : Host → Option PodIpam → String → Option PodIpam
undone_of h m key =
    let (ipam, allocated) = allocate_ip h m key in
    elim allocated [
      | inl e ↦ ipam
      | inr pod_ip ↦
          if is_empty_text pod_ip || has_allocated_ip m key then ipam else release_ip ipam key
    ]

undone_of-SameHolds :
    (h : Host) (m : Option PodIpam) (key : String)
    → IsSound m
    → IsShown h
    → SameHolds (undone_of h m key) m
unfolding allocate_ip
undone_of-SameHolds h none key v s k = refl
undone_of-SameHolds h (some a) key v s k = elim (allocate-Outcome a key v) [
  | known ip held p ↦ ground (arith, held, p)
  | full no_ip f p ↦ ground (arith, no_ip, p)
  | fresh off no_ip f p ↦ ground (
    arith,
    no_ip,
    p,
    s (offset_ip a off),
    allocate-release_undo a key v no_ip (ap (λ (x : PodIpam × Ipam.Result). x.1) p) k,
  )
]

create_launched-ipam :
    (h : Host) (pod : Pod) (spec : ContainerSpec) (key pod_ip : String) (m : Option PodIpam)
    (p : Provider) (l : Launch × Trace) (e : CreateError)
    → (create_launched h pod spec key pod_ip m p l).0 ≡ some e
    → (create_launched h pod spec key pod_ip m p l).1 ≡ record p { ipam = m }
unfolding create_launched
create_launched-ipam h pod spec key pod_ip m p (fails x, t) e q = refl
create_launched-ipam h pod spec key pod_ip m p (ends cause, t) e q = absurd (ground (arith, q))
create_launched-ipam h pod spec key pod_ip m p (launched ws adopted, t) e q = ground (arith, q)

create_allocated-ipam :
    (h : Host) (auth : Bool) (pod : Pod) (c : Container) (spec : ContainerSpec) (p : Provider)
    (t : Trace) (e : CreateError)
    → (create_allocated h auth pod c spec p t).0 ≡ some e
    → (create_allocated h auth pod c spec p t).1
      ≡ record p { ipam = undone_of h p.ipam (pod_key pod) }
unfolding create_allocated
create_allocated-ipam h auth pod c spec p t e q =
    elim (Sum-cases (allocate_ip h p.ipam (pod_key pod)).1) [
      | inl (x, a) ↦ ground (arith, q, a)
      | inr (pod_ip, a) ↦
          let ipam = (allocate_ip h p.ipam (pod_key pod)).0 in
          let undone : Option PodIpam =
            if is_empty_text pod_ip || has_allocated_ip p.ipam (pod_key pod)
            then ipam
            else release_ip ipam (pod_key pod) in
          ground (
            arith,
            q,
            a,
            create_launched-ipam h pod spec (pod_key pod) pod_ip undone (record p { ipam = ipam })
                (launch h c spec auth t) e,
          )
    ]

-- An attempt that fails leaves the provider as it was, or with the allocator undone.
create_untracked-ipam :
    (h : Host) (r : Resolved) (pod : Pod) (p : Provider) (t : Trace) (e : CreateError)
    (answer : Translation) (containers : List Container)
    → r.translation ≡ answer
    → pod.containers ≡ containers
    → (create_untracked h r pod p t).0 ≡ some e
    → ((create_untracked h r pod p t).1 ≡ p)
      ⊎ ((create_untracked h r pod p t).1 ≡ record p { ipam = undone_of h p.ipam (pod_key pod) })
unfolding create_untracked
create_untracked-ipam h r pod p t e configuration_pending cs a b q = ground (arith, a)
create_untracked-ipam h r pod p t e (unsupported cause) cs a b q = absurd (ground (arith, a, q))
create_untracked-ipam h r pod p t e (translated spec) [] a b q = ground (arith, a, b)
create_untracked-ipam h r pod p t e (translated spec) (c ∷ cs) a b q =
    ground (arith, a, b, q, create_allocated-ipam h r.pull_auth pod c spec p t e)

-- A CreatePod that fails tracks no Pod, and every Pod holds the address that it held before: a new
-- address is released, and one that was recovered stays reserved. The allocator is taken to be
-- well-formed, and no address to have the empty text.
pub create_pod-SameHolds :
    (h : Host) (r : Resolved) (pod : Pod) (p : Provider) (t : Trace) (e : CreateError)
    → IsSound p.ipam
    → IsShown h
    → (create_pod h r pod p t).0 ≡ some e
    → let p' = (create_pod h r pod p t).1 in (p'.pods ≡ p.pods) × SameHolds p'.ipam p.ipam
unfolding create_pod
create_pod-SameHolds h r pod p t e v s q = elim (Option-cases (Dict.get p.pods (pod_key pod))) [
  | inr (st, f) ↦ absurd (ground (arith, q, f))
  | inl f ↦
      rw (f, create_pod)
        (elim (create_untracked-ipam h r pod p t e _ _ refl refl (ground (arith, q, f))) [
          | inl same ↦ rw same (refl, λ k. refl)
          | inr undone ↦ rw undone (refl, undone_of-SameHolds h p.ipam (pod_key pod) v s)
        ])
]
