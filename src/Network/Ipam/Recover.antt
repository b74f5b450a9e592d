-- ===== src/Network/Ipam/Recover.antt =====
-- RecoverAllocations: an allocator that starts over the same network gets its assignments back.
use macvz.Prelude.{
  some_inj, All, codes_key, text_key, number_key, ℕ, String, ◌≡◌, sym, ◌∙◌, Option, none, some,
  List, [], ◌∷◌, arith, eq_iff,
}
use macvz.Prelude.Dict.{get-put, get-put_self}
use macvz.Network.Addr.{IpText, parse_ip}
use macvz.Network.Ipam.{PodIpam, offset_ip, usable, bind_ip, reserve, ip_of, recover_allocations}
use macvz.Network.Ipam.Invariant.{InRange, IsValid, bound-IsValid}
use macvz.Network.Ipam.Usable.{IsNetwork, IsReservable, offset-IsReservable}
use macvz.Network.Ipam.Reserve.{bound, held, owned, moved, new, bind_ip-Binding, reserve-usable}

-- Two allocators over the same network.
pub record SameNetwork (b a : PodIpam) : Type 0 where
  pub ipnet : b.ipnet ≡ a.ipnet
  pub bytes : b.bytes ≡ a.bytes
  pub base : b.base ≡ a.base
  pub first : b.first ≡ a.first
  pub last : b.last ≡ a.last

-- What one allocator holds, the other holds too.
abbrev pub HeldBy : PodIpam → PodIpam → Type 0
HeldBy b a = (k : String) (ip : IpText) → ip_of b k ≡ some ip → ip_of a k ≡ some ip

-- What a Pod list records of the allocator: a key with the address that it holds, or with none, or
-- with a text that is no address.
abbrev pub Recorded : PodIpam → String × Option (Option IpText) → Type 0
Recorded a (key, none) = Unit
Recorded a (key, some none) = Unit
Recorded a (key, some (some ip)) = ip_of a key ≡ some ip

SameNetwork-IsReservable :
    {b a : PodIpam} (ip : IpText) → SameNetwork b a → IsReservable a ip → IsReservable b ip
unfolding usable
SameNetwork-IsReservable {b} {a} ip s h =
    (rw s.bytes h.0, rw (s.ipnet, s.base, s.first, s.last, usable) h.1)

bound-others :
    (b : PodIpam) (key : String) (ip : IpText) (k : String)
    → ip_of b key ≡ none
    → (j : IpText) → ip_of b k ≡ some j
    → ip_of (bound b key ip) k ≡ some j
unfolding ip_of
bound-others b key ip k h j e = ground (arith, get-put b.by_key key k ip, eq_iff key k)

bound-HeldBy :
    (b a : PodIpam) (key : String) (ip : IpText)
    → ip_of a key ≡ some ip
    → HeldBy b a
    → HeldBy (bound b key ip) a
unfolding ip_of
bound-HeldBy b a key ip h sub k j e =
    ground (arith, get-put b.by_key key k ip, eq_iff key k, sub k j)

-- After one reservation of a recorded address, within the assignments of the first allocator.
pub record Step (b b' a : PodIpam) (key : String) (ip : IpText) : Type 0 where
  pub same : SameNetwork b' a
  pub valid : IsValid b'
  pub within : HeldBy b' a
  pub holds : ip_of b' key ≡ some ip
  pub keeps : HeldBy b b'

module _ (b a : PodIpam) (key : String) (ip : IpText) (s : SameNetwork b a) (va : IsValid a)
    (vb : IsValid b) (sub : HeldBy b a) (h : ip_of a key ≡ some ip) (r : InRange b ip) where
  owner_is_key : (owner : String) → ip_of b owner ≡ some ip → owner ≡ key
  unfolding ip_of
  owner_is_key owner e = ground (arith, va.forward owner ip, sub owner ip, va.forward key ip, h, e)

  bind-Step : Step b (bind_ip b key ip).0 a key ip
  unfolding ip_of
  bind-Step = elim (bind_ip-Binding b key ip vb) [
    | held e p ↦ rw p (record { same = s; valid = vb; within = sub; holds = e; keeps = λ k j q. q })
    | owned owner ne e p ↦ absurd (ne (owner_is_key owner e))
    | moved other ne e q p ↦ absurd (ne (some_inj (sym (sub key other e) ∙ h)))
    | new e q p ↦ rw p (record {
      same = record {
        ipnet = s.ipnet;
        bytes = s.bytes;
        base = s.base;
        first = s.first;
        last = s.last;
      };
      valid = bound-IsValid b key ip vb e q b.cursor r vb.cursor_low vb.cursor_high;
      within = bound-HeldBy b a key ip h sub;
      holds = get-put_self b.by_key key ip;
      keeps = λ k j z. bound-others b key ip k e j z;
    })
  ]

pub SameNetwork-InRange :
    {b a : PodIpam} (ip : IpText) → SameNetwork b a → InRange a ip → InRange b ip
unfolding offset_ip
SameNetwork-InRange {b} {a} ip s (off, low, high, e) =
    (off, rw s.first low, rw s.last high, rw (s.base, s.bytes) e)

module _ (a : PodIpam) (host q : ℕ) (net : IsNetwork a host q) (va : IsValid a) where
  pub recorded-IsReservable :
      (key : String) (ip : IpText) → ip_of a key ≡ some ip → IsReservable a ip
  unfolding ip_of
  recorded-IsReservable key ip h =
      let (off, low, high, e) = va.in_range key ip h in
      rw e (offset-IsReservable a host q off net low high)

  reserve-Step :
      (b : PodIpam) (key : String) (ip : IpText)
      → SameNetwork b a
      → IsValid b
      → HeldBy b a
      → ip_of a key ≡ some ip
      → Step b (reserve b key (some ip)).0 a key ip
  unfolding ip_of
  reserve-Step b key ip s vb sub h =
      let (c, u) = SameNetwork-IsReservable ip s (recorded-IsReservable key ip h) in
      rw (reserve-usable b key ip ip c u)
        (bind-Step b a key ip s va vb sub h (SameNetwork-InRange ip s (va.in_range key ip h)))

  -- Every assignment in the list is held again, and those held before stay.
  pub recover_from :
      (b : PodIpam) (pods : List (String × Option (Option IpText)))
      → SameNetwork b a
      → IsValid b
      → HeldBy b a
      → All (Recorded a) pods
      → All (Recorded (recover_allocations b pods)) pods
        × HeldBy b (recover_allocations b pods)
        × HeldBy (recover_allocations b pods) a
  unfolding recover_allocations reserve parse_ip
  recover_from b [] s vb sub h = (tt, λ k ip e. e, sub)
  recover_from b ((key, none) ∷ pods) s vb sub h =
      let (all, keeps, within) = recover_from b pods s vb sub h.1 in ((tt, all), keeps, within)
  recover_from b ((key, some none) ∷ pods) s vb sub h =
      let (all, keeps, within) = recover_from b pods s vb sub h.1 in ((tt, all), keeps, within)
  recover_from b ((key, some (some ip)) ∷ pods) s vb sub h =
      let step = reserve-Step b key ip s vb sub h.0 in
      let (all, keeps, within) =
        recover_from (reserve b key (some ip)).0 pods step.same step.valid step.within h.1 in
      ((keeps key ip step.holds, all), λ k j e. keeps k j (step.keeps k j e), within)
