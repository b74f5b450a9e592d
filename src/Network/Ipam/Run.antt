-- ===== src/Network/Ipam/Run.antt =====
-- Any sequence of calls on an allocator that NewPodIPAM builds.
use macvz.Prelude.{
  Option-cases, some_inj, All, text_key, number_key, ℕ, ◌^◌, ◌<◌, String, ◌≡◌, refl, sym, ◌∙◌, inl,
  inr, Option, none, some, List, [], ◌∷◌,
}
use macvz.Prelude.Dict.{Dict, get}
use macvz.Network.Addr.{IpText}
use macvz.Network.Ipam.{PodIpam, take_offset, allocate, bind_ip, reserve, release}
use macvz.Network.Ipam.Invariant.{IsValid, release-IsValid, allocate-IsValid}
use macvz.Network.Ipam.Usable.{IsV4, IsV6, HasWidth, IsNetwork}
use macvz.Network.Ipam.Reserve.{
  held, owned, moved, new, bind_ip-Binding, unreadable, outside, inside, reserve-Reservation,
  reserve-IsValid,
}
use macvz.Network.Ipam.Recover.{SameNetwork}
use macvz.Network.Ipam.Allocate.{known, full, fresh, allocate-Outcome}
use macvz.Prelude.Dict

pub data Op : Type 0 where
  allocates releases : String → Op
  reserves : String → Option IpText → Op

abbrev pub step : PodIpam → Op → PodIpam
step a (allocates key) = (allocate a key).0
step a (releases key) = release a key
step a (reserves key text) = (reserve a key text).0

abbrev pub run : PodIpam → List Op → PodIpam
run a [] = a
run a (op ∷ ops) = run (step a op) ops

-- Texts are 16-byte addresses.
abbrev pub IsOp : Op → Type 0
IsOp (reserves key (some n)) = n < 2 ^ 128
IsOp op = Unit

SameNetwork-trans : {a b c : PodIpam} → SameNetwork a b → SameNetwork b c → SameNetwork a c
SameNetwork-trans p q = record {
  ipnet = p.ipnet ∙ q.ipnet;
  bytes = p.bytes ∙ q.bytes;
  base = p.base ∙ q.base;
  first = p.first ∙ q.first;
  last = p.last ∙ q.last;
}

SameNetwork-refl : (a : PodIpam) → SameNetwork a a
SameNetwork-refl a = record { ipnet = refl; bytes = refl; base = refl; first = refl; last = refl }

allocate-SameNetwork : (a : PodIpam) (key : String) → IsValid a → SameNetwork (allocate a key).0 a
unfolding take_offset
allocate-SameNetwork a key v = elim (allocate-Outcome a key v) [
  | known ip e p ↦ rw p (SameNetwork-refl a)
  | full e f p ↦ rw p (SameNetwork-refl a)
  | fresh off e f p ↦
      rw p (record { ipnet = refl; bytes = refl; base = refl; first = refl; last = refl })
]

bind-SameNetwork :
    (a : PodIpam) (key : String) (ip : IpText) → IsValid a → SameNetwork (bind_ip a key ip).0 a
bind-SameNetwork a key ip v = elim (bind_ip-Binding a key ip v) [
  | held e p ↦ rw p (SameNetwork-refl a)
  | owned o n e p ↦ rw p (SameNetwork-refl a)
  | moved o n e q p ↦ rw p (SameNetwork-refl a)
  | new e q p ↦ rw p (record { ipnet = refl; bytes = refl; base = refl; first = refl; last = refl })
]

reserve-SameNetwork :
    (a : PodIpam) (key : String) (text : Option IpText)
    → IsValid a
    → SameNetwork (reserve a key text).0 a
reserve-SameNetwork a key text v = elim (reserve-Reservation a key text) [
  | unreadable e p ↦ rw p (SameNetwork-refl a)
  | outside n e h p ↦ rw p (SameNetwork-refl a)
  | inside n ip e c u p ↦ rw p (bind-SameNetwork a key ip v)
]

pub release-SameNetwork : (a : PodIpam) (key : String) → SameNetwork (release a key) a
unfolding release
release-SameNetwork a key = elim (Option-cases (Dict.get a.by_key key)) [
  | inl e ↦ rw (e, release) (SameNetwork-refl a)
  | inr (ip, e) ↦
      rw (e, release)
        (record { ipnet = refl; bytes = refl; base = refl; first = refl; last = refl })
]

pub step-SameNetwork : (a : PodIpam) (op : Op) → IsValid a → SameNetwork (step a op) a
step-SameNetwork a (allocates key) v = allocate-SameNetwork a key v
step-SameNetwork a (releases key) v = release-SameNetwork a key
step-SameNetwork a (reserves key text) v = reserve-SameNetwork a key text v

small_text :
    (key : String) (text : Option IpText)
    → IsOp (reserves key text)
    → (n : ℕ) → text ≡ some n
    → n < 2 ^ 128
small_text key none h n e = absurd (cc)
small_text key (some m) h n e = rw (sym (some_inj e)) h

step-IsValid : (a : PodIpam) (op : Op) → HasWidth a → IsOp op → IsValid a → IsValid (step a op)
step-IsValid a (allocates key) w o v = allocate-IsValid a key v
step-IsValid a (releases key) w o v = release-IsValid a key v
step-IsValid a (reserves key text) w o v = reserve-IsValid a key text w (small_text key text o) v

SameNetwork-HasWidth : {b a : PodIpam} → SameNetwork b a → HasWidth a → HasWidth b
SameNetwork-HasWidth {b} {a} s (f, inl w) = (
  rw s.first f,
  inl (record {
    bytes = s.bytes ∙ w.bytes;
    bits = rw s.ipnet w.bits;
    ip = rw (s.ipnet, s.base) w.ip;
  }),
)
SameNetwork-HasWidth {b} {a} s (f, inr w) = (
  rw s.first f,
  inr (record {
    bytes = s.bytes ∙ w.bytes;
    bits = rw s.ipnet w.bits;
    ip = rw (s.ipnet, s.base) w.ip;
    plain = rw s.base w.plain;
  }),
)

pub run-IsValid :
    (a : PodIpam) (ops : List Op)
    → HasWidth a
    → All IsOp ops
    → IsValid a
    → IsValid (run a ops) × SameNetwork (run a ops) a
run-IsValid a [] w h v = (v, SameNetwork-refl a)
run-IsValid a (op ∷ ops) w h v =
    let s = step-SameNetwork a op v in
    let (v', s') =
      run-IsValid (step a op) ops (SameNetwork-HasWidth s w) h.1 (step-IsValid a op w h.0 v) in
    (v', SameNetwork-trans s' s)

pub SameNetwork-sym : {b a : PodIpam} → SameNetwork b a → SameNetwork a b
SameNetwork-sym s = record {
  ipnet = sym s.ipnet;
  bytes = sym s.bytes;
  base = sym s.base;
  first = sym s.first;
  last = sym s.last;
}

pub SameNetwork-IsNetwork :
    {b a : PodIpam} {host q : ℕ} → SameNetwork b a → IsNetwork a host q → IsNetwork b host q
SameNetwork-IsNetwork {b} {a} {host} {q} s net = record {
  first = rw s.first net.first;
  aligned = rw s.base net.aligned;
  room = rw s.last net.room;
  shape = elim net.shape [
    | inl (w, h, r) ↦ inl (v4_part w, rw s.ipnet h, rw (s.base, s.last) r)
    | inr (w, h, r, p) ↦ inr (v6_part w, rw s.ipnet h, rw (s.base, s.last) r, rw (s.base, s.last) p)
  ];
}
  where
    v4_part : IsV4 a → IsV4 b
    v4_part w = record {
      bytes = s.bytes ∙ w.bytes;
      bits = rw s.ipnet w.bits;
      ip = rw (s.ipnet, s.base) w.ip;
    }

    v6_part : IsV6 a → IsV6 b
    v6_part w = record {
      bytes = s.bytes ∙ w.bytes;
      bits = rw s.ipnet w.bits;
      ip = rw (s.ipnet, s.base) w.ip;
      plain = rw s.base w.plain;
    }
