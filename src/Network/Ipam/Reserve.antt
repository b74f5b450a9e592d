-- ===== src/Network/Ipam/Reserve.antt =====
-- Reserve: its result on every branch, and the invariant.
use macvz.Prelude.{
  if◌then◌else◌, nat_beq_iff, Bool-cases, Option-cases, text_key, number_key, ◌==◌, ℕ, ◌^◌, ◌<◌,
  String, ◌≡◌, refl, ◌≢◌, ◌⊎◌, inl, inr, true, false, Option, none, some, arith, eq_iff,
}
use macvz.Prelude.Dict.{Dict, get, put}
use macvz.Network.Addr.{v6, IpText}
use macvz.Network.Ipam.{
  invalid_ip, out_of_range, held_by, key_holds, PodIpam, canon_ip, usable, bind_ip, reserve, ip_of,
}
use macvz.Network.Ipam.Invariant.{InRange, IsValid, bound-IsValid}
use macvz.Network.Ipam.Usable.{HasWidth, usable-InRange}
use macvz.Prelude.Dict

-- The record that a successful Reserve writes.
abbrev pub bound : PodIpam → String → IpText → PodIpam
bound a key ip = record a { by_key = Dict.put a.by_key key ip; by_ip = Dict.put a.by_ip ip key }

-- Reserve under the lock: the address has an owner, the key holds another address, or both are new.
pub data Binding (a : PodIpam) (key : String) (ip : IpText) : Type 0 where
  held : ip_of a key ≡ some ip → bind_ip a key ip ≡ (a, none) → Binding a key ip
  owned :
      (owner : String)
      → owner ≢ key
      → ip_of a owner ≡ some ip
      → bind_ip a key ip ≡ (a, some (held_by owner))
      → Binding a key ip
  moved :
      (other : IpText)
      → other ≢ ip
      → ip_of a key ≡ some other
      → Dict.get a.by_ip ip ≡ none
      → bind_ip a key ip ≡ (a, some (key_holds other))
      → Binding a key ip
  new :
      ip_of a key ≡ none
      → Dict.get a.by_ip ip ≡ none
      → bind_ip a key ip ≡ (bound a key ip, none)
      → Binding a key ip

module _ (a : PodIpam) (key : String) (ip : IpText) where
  bind_owned :
      (owner : String)
      → Dict.get a.by_ip ip ≡ some owner
      → bind_ip a key ip ≡ (a, if owner == key then none else some (held_by owner))
  unfolding bind_ip
  bind_owned owner e = ground (arith, e)

  bind_moved :
      (other : IpText)
      → Dict.get a.by_ip ip ≡ none
      → ip_of a key ≡ some other
      → other ≢ ip
      → bind_ip a key ip ≡ (a, some (key_holds other))
  unfolding bind_ip ip_of
  bind_moved other e h ne = ground (arith, e, h, nat_beq_iff other ip)

  bind_new :
      Dict.get a.by_ip ip ≡ none → ip_of a key ≡ none → bind_ip a key ip ≡ (bound a key ip, none)
  unfolding bind_ip ip_of
  bind_new e h = ground (arith, e, h)

  owner-Binding : (owner : String) → IsValid a → Dict.get a.by_ip ip ≡ some owner → Binding a key ip
  unfolding ip_of
  owner-Binding owner v e = elim (Bool-cases (owner == key)) [
    | inl same ↦
        held (v.backward ip key (ground (arith, e, eq_iff owner key, same)))
          (rw same at (bind_owned owner e))
    | inr other ↦
        owned owner (ground (arith, eq_iff owner key, other)) (v.backward ip owner e)
          (rw other at (bind_owned owner e))
  ]

  key-Binding :
      (other : IpText)
      → IsValid a
      → Dict.get a.by_ip ip ≡ none
      → ip_of a key ≡ some other
      → Binding a key ip
  unfolding ip_of
  key-Binding other v e h =
      let ne : other ≢ ip = ground (arith, e, h, v.forward key other) in
      moved other ne h e (bind_moved other e h ne)

  -- Reserve under the lock has one of four outcomes, with the state and the error of each.
  pub bind_ip-Binding : IsValid a → Binding a key ip
  bind_ip-Binding v = elim (Option-cases (Dict.get a.by_ip ip)) [
    | inr (owner, e) ↦ owner-Binding owner v e
    | inl e ↦ elim (Option-cases (ip_of a key)) [
      | inr (other, h) ↦ key-Binding other v e h
      | inl h ↦ new h e (bind_new e h)
    ]
  ]

  pub bind_ip-IsValid : IsValid a → InRange a ip → IsValid (bind_ip a key ip).0
  unfolding ip_of
  bind_ip-IsValid v here = elim (bind_ip-Binding v) [
    | held h p ↦ rw p v
    | owned o n h p ↦ rw p v
    | moved o n h e p ↦ rw p v
    | new h e p ↦ rw p (bound-IsValid a key ip v h e a.cursor here v.cursor_low v.cursor_high)
  ]

-- What Reserve does before the lock: an unreadable text, an address out of range, or a bind.
pub data Reservation (a : PodIpam) (key : String) (text : Option IpText) : Type 0 where
  unreadable : text ≡ none → reserve a key text ≡ (a, some invalid_ip) → Reservation a key text
  outside :
      (n : ℕ)
      → text ≡ some n
      → (usable a (v6 n) ≡ false) ⊎ (canon_ip (v6 n) a.bytes ≡ none)
      → reserve a key text ≡ (a, some out_of_range)
      → Reservation a key text
  inside :
      (n : ℕ) (ip : IpText)
      → text ≡ some n
      → canon_ip (v6 n) a.bytes ≡ some ip
      → usable a (v6 n) ≡ true
      → reserve a key text ≡ bind_ip a key ip
      → Reservation a key text

module _ (a : PodIpam) (key : String) (n : ℕ) where
  reserve_no_text : canon_ip (v6 n) a.bytes ≡ none → reserve a key (some n) ≡ (a, some out_of_range)
  unfolding reserve
  reserve_no_text h = ground (arith, h)

  reserve_unusable :
      (ip : IpText)
      → canon_ip (v6 n) a.bytes ≡ some ip
      → usable a (v6 n) ≡ false
      → reserve a key (some n) ≡ (a, some out_of_range)
  unfolding reserve
  reserve_unusable ip e h = ground (arith, e, h)

  pub reserve-usable :
      (ip : IpText)
      → canon_ip (v6 n) a.bytes ≡ some ip
      → usable a (v6 n) ≡ true
      → reserve a key (some n) ≡ bind_ip a key ip
  unfolding reserve
  reserve-usable ip e h = rw (e, reserve) (rw (h, reserve) refl)

  read-Reservation : Reservation a key (some n)
  read-Reservation = elim (Option-cases (canon_ip (v6 n) a.bytes)) [
    | inl e ↦ outside n refl (inr e) (reserve_no_text e)
    | inr (ip, e) ↦ elim (Bool-cases (usable a (v6 n))) [
      | inl h ↦ inside n ip refl e h (reserve-usable ip e h)
      | inr h ↦ outside n refl (inl h) (reserve_unusable ip e h)
    ]
  ]

-- Reserve answers an unreadable text, then an address out of range, and else binds under the lock.
pub reserve-Reservation :
    (a : PodIpam) (key : String) (text : Option IpText) → Reservation a key text
reserve-Reservation a key none = unreadable refl (unfold reserve in refl)
reserve-Reservation a key (some n) = read-Reservation a key n

-- Reserve keeps the invariant, whether it succeeds or not.
pub reserve-IsValid :
    (a : PodIpam) (key : String) (text : Option IpText)
    → HasWidth a
    → ((n : ℕ) → text ≡ some n → n < 2 ^ 128)
    → IsValid a
    → IsValid (reserve a key text).0
reserve-IsValid a key text w small v = elim (reserve-Reservation a key text) [
  | unreadable e p ↦ rw p v
  | outside n e h p ↦ rw p v
  | inside n ip e c u p ↦ rw p (bind_ip-IsValid a key ip v (usable-InRange a n w (small n e) c u))
]
