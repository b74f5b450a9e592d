-- ===== src/Network/Ipam/Safety.antt =====
-- What the allocator promises its callers, over any sequence of calls.
use macvz.Prelude.{
  some_inj, All, text_key, number_key, ℕ, String, ◌≡◌, sym, ◌∙◌, ◌≢◌, false, Option, none, some,
  List, arith, eq_iff,
}
use macvz.Prelude.Dict.{Dict, get, get-remove, get-remove_self}
use macvz.Network.Addr.{IpText, Cidr}
use macvz.Network.Ipam.{
  exhausted, err, PodIpam, new_pod_ipam, offset_ip, taken, allocate, release, ip_of,
  recover_allocations,
}
use macvz.Network.Ipam.Invariant.{IsValid, release-IsValid}
use macvz.Network.Ipam.Usable.{IsNetwork, IsReservable}
use macvz.Network.Ipam.Allocate.{allocate-exhausted_iff}
use macvz.Network.Ipam.Recover.{
  SameNetwork, HeldBy, Recorded, SameNetwork-InRange, recorded-IsReservable, recover_from,
}
use macvz.Network.Ipam.Run.{
  Op, run, IsOp, release-SameNetwork, run-IsValid, SameNetwork-sym, SameNetwork-IsNetwork,
}
use macvz.Network.Ipam.Start.{
  IsNodeCidr, new_pod_ipam-IsValid, new_pod_ipam-IsNetwork, IsNetwork-HasWidth, new-HeldBy,
}
use macvz.Prelude.Dict
use mathlib.Core.Bool.{false≢true}

-- The allocator after some calls.
abbrev pub after : Cidr → List Op → PodIpam
after c ops = run (new_pod_ipam c) ops

module _ (c : Cidr) (ops : List Op) (k : IsNodeCidr c) (o : All IsOp ops) where
  pub after-IsValid : IsValid (after c ops) × SameNetwork (after c ops) (new_pod_ipam c)
  after-IsValid =
      let (host, q, net) = new_pod_ipam-IsNetwork c k in
      run-IsValid (new_pod_ipam c) ops (IsNetwork-HasWidth net) o (new_pod_ipam-IsValid c k)

  after-IsNetwork : (host : ℕ) × (q : ℕ) × IsNetwork (after c ops) host q
  after-IsNetwork =
      let (host, q, net) = new_pod_ipam-IsNetwork c k in
      (host, q, SameNetwork-IsNetwork after-IsValid.1 net)

-- Over a node's Pod CIDR, whatever Allocate, Reserve and Release calls were made, two keys that
-- hold the same address are the same key, and every address held is one that Reserve accepts.
pub after_unique :
    (c : Cidr) (ops : List Op)
    → IsNodeCidr c
    → All IsOp ops
    → ((key other : String) (ip : IpText)
        → ip_of (after c ops) key ≡ some ip
        → ip_of (after c ops) other ≡ some ip
        → key ≡ other)
      × ((key : String) (ip : IpText)
          → ip_of (after c ops) key ≡ some ip
          → IsReservable (after c ops) ip)
unfolding ip_of
after_unique c ops k o =
    let v = (after-IsValid c ops k o).0 in
    let (host, q, net) = after-IsNetwork c ops k o in
    (
      λ key other ip e e'. some_inj (sym (v.forward key ip e) ∙ v.forward other ip e'),
      recorded-IsReservable (after c ops) host q net v,
    )

-- A provider that restarts over the same Pod CIDR and reserves the addresses on record, among Pods
-- that may have none, gets every one of them back for its key, and no assignment that the old
-- allocator did not have.
pub recover_allocations-after :
    (c : Cidr) (ops : List Op) (pods : List (String × Option (Option IpText)))
    → IsNodeCidr c
    → All IsOp ops
    → All (Recorded (after c ops)) pods
    → All (Recorded (recover_allocations (new_pod_ipam c) pods)) pods
      × HeldBy (recover_allocations (new_pod_ipam c) pods) (after c ops)
recover_allocations-after c ops pods k o h =
    let (v, s) = after-IsValid c ops k o in
    let (host, q, net) = after-IsNetwork c ops k o in
    let (all, _, within) =
      recover_from (after c ops) host q net v (new_pod_ipam c) pods (SameNetwork-sym s)
        (new_pod_ipam-IsValid c k) (new-HeldBy c (after c ops)) h in
    (all, within)

-- Release frees the address of the key, and the assignments of the other keys stay.
pub release_lem :
    (a : PodIpam) (key : String) (ip : IpText)
    → IsValid a
    → ip_of a key ≡ some ip
    → (ip_of (release a key) key ≡ none)
      × (Dict.get (release a key).by_ip ip ≡ none)
      × ((other : String) → key ≢ other → ip_of (release a key) other ≡ ip_of a other)
unfolding release ip_of
release_lem a key ip v e = (
  ground (arith, e, get-remove_self a.by_key key),
  ground (arith, e, get-remove_self a.by_ip ip),
  λ other ne. ground (arith, e, get-remove a.by_key key other, eq_iff key other),
)

free_not_taken :
    (a : PodIpam) (off : ℕ) → Dict.get a.by_ip (offset_ip a off) ≡ none → taken a off ≡ false
unfolding taken
free_not_taken a off e = ground (arith, e)

-- After a Release the next Allocate does not run out of addresses: none leaks.
pub allocate-release :
    (a : PodIpam) (key next : String) (ip : IpText)
    → IsValid a
    → ip_of a key ≡ some ip
    → (allocate (release a key) next).1 ≢ err exhausted
unfolding ip_of
allocate-release a key next ip v e x =
    let all_taken =
      ((allocate-exhausted_iff (release a key) next (release-IsValid a key v)).0 x).1 in
    let (off, low, high, here) =
      SameNetwork-InRange ip (release-SameNetwork a key) (v.in_range key ip e) in
    let free = free_not_taken (release a key) off (rw (← here) (release_lem a key ip v e).1) in
    false≢true (sym free ∙ all_taken off low high)
