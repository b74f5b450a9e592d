-- ===== src/Network/Ipam/Tests.antt =====
-- The allocator over 10.244.1.0/24, and the theorems at inputs that meet their hypotheses.
use macvz.Prelude.{
  All, codes_key, text_key, number_key, ℕ, ◌+◌, ◌*◌, ◌^◌, String, ◌≡◌, refl, ◌≢◌, ◌↔◌, inl, Option,
  none, some, List, [], ◌∷◌, arith,
}
use macvz.Network.Addr.{IpText, Cidr}
use macvz.Network.Ipam.{
  exhausted, ok, err, PodIpam, canon_ip, new_pod_ipam, offset_ip, usable, taken, scan, allocate,
  bind_ip, reserve, release, ip_of, recover_allocations,
}
use macvz.Network.Ipam.Invariant.{IsValid}
use macvz.Network.Ipam.Allocate.{IsFull, allocate-exhausted_iff}
use macvz.Network.Ipam.Usable.{IsReservable}
use macvz.Network.Ipam.Recover.{HeldBy, Recorded}
use macvz.Network.Ipam.Run.{Op, allocates, releases, reserves, IsOp}
use macvz.Network.Ipam.Start.{IsNodeCidr}
use macvz.Network.Ipam.Safety.{
  after, after-IsValid, after_unique, recover_allocations-after, allocate-release,
}
use macvz.Prelude.Dict

-- 10.244.1.n
abbrev pod_addr : ℕ → IpText
pod_addr n = 0xffff * 2 ^ 32 + (10 * 2 ^ 24 + 244 * 2 ^ 16 + 1 * 2 ^ 8 + n)

abbrev node_cidr : Cidr
node_cidr = record { addr = pod_addr 0; bits = 32; ones = 24 }

node_cidr-IsNodeCidr : IsNodeCidr node_cidr
node_cidr-IsNodeCidr = inl (record { bits = refl; mask = omega arith; mapped = refl })

-- 10.244.1.0/30 has one usable address
abbrev tiny_cidr : Cidr
tiny_cidr = record { addr = pod_addr 0; bits = 32; ones = 30 }

tiny_cidr-IsNodeCidr : IsNodeCidr tiny_cidr
tiny_cidr-IsNodeCidr = inl (record { bits = refl; mask = omega arith; mapped = refl })

abbrev calls : List Op
calls = allocates "a/x" ∷ allocates "a/y" ∷ reserves "b/z" (some (pod_addr 9)) ∷ releases "a/y" ∷ []

calls-IsOp : All IsOp calls
calls-IsOp = omega arith

calls_result :
    (ip_of (after node_cidr calls) "a/x" ≡ some (pod_addr 2))
    × (ip_of (after node_cidr calls) "a/y" ≡ none)
    × (ip_of (after node_cidr calls) "b/z" ≡ some (pod_addr 9))
unfolding new_pod_ipam allocate reserve release scan taken offset_ip ip_of Dict.get Dict.put
    Dict.remove Dict.empty usable canon_ip bind_ip
calls_result = (refl, refl, refl)

abbrev pods : List (String × Option (Option IpText))
pods = ("c/new", none) ∷ ("a/x", some (some (pod_addr 2))) ∷ ("b/z", some (some (pod_addr 9))) ∷ []

pods-Recorded : All (Recorded (after node_cidr calls)) pods
pods-Recorded = (tt, (calls_result.0, (calls_result.2, tt)))

after_unique_example :
    ((key other : String) (ip : IpText)
      → ip_of (after node_cidr calls) key ≡ some ip
      → ip_of (after node_cidr calls) other ≡ some ip
      → key ≡ other)
    × ((key : String) (ip : IpText)
        → ip_of (after node_cidr calls) key ≡ some ip
        → IsReservable (after node_cidr calls) ip)
after_unique_example = after_unique node_cidr calls node_cidr-IsNodeCidr calls-IsOp

recover_allocations-after_example :
    All (Recorded (recover_allocations (new_pod_ipam node_cidr) pods)) pods
    × HeldBy (recover_allocations (new_pod_ipam node_cidr) pods) (after node_cidr calls)
recover_allocations-after_example =
    recover_allocations-after node_cidr calls pods node_cidr-IsNodeCidr calls-IsOp pods-Recorded

after-calls-IsValid : IsValid (after node_cidr calls)
after-calls-IsValid = (after-IsValid node_cidr calls node_cidr-IsNodeCidr calls-IsOp).0

allocate-release_example :
    (allocate (release (after node_cidr calls) "b/z") "c/w").1 ≢ err exhausted
allocate-release_example =
    allocate-release (after node_cidr calls) "b/z" "c/w" (pod_addr 9) after-calls-IsValid
      calls_result.2

-- The one address of the tiny network goes to the first key, and the second finds none.
abbrev tiny : PodIpam
tiny = after tiny_cidr (allocates "a/x" ∷ [])

tiny-IsValid : IsValid tiny
tiny-IsValid = (after-IsValid tiny_cidr (allocates "a/x" ∷ []) tiny_cidr-IsNodeCidr (omega arith)).0

tiny_results :
    ((allocate (new_pod_ipam tiny_cidr) "a/x").1 ≡ ok (pod_addr 2))
    × ((allocate tiny "a/y").1 ≡ err exhausted)
unfolding new_pod_ipam allocate scan taken offset_ip Dict.get Dict.put Dict.empty
tiny_results = (refl, refl)

allocate-exhausted_iff_example :
    ((allocate tiny "a/y").1 ≡ err exhausted) ↔ ((ip_of tiny "a/y" ≡ none) × IsFull tiny)
allocate-exhausted_iff_example = allocate-exhausted_iff tiny "a/y" tiny-IsValid
