-- ===== src/Provider/Extends.antt =====
-- Calls that come after others, and those of the re-attachment of a restart.
use macvz.Prelude.{
  nat_beq, Bool-cases, Option-cases, contains, Text, codes_key, text_key, number_key, ℕ, zero, suc,
  String, ◌≡◌, refl, sym, ap, ◌∙◌, inl, inr, true, not, ◌||◌, [], ◌∷◌, ◌++◌, arith,
}
use macvz.Runtime.{call_status, call_destroy, call_attach, Trace}
use macvz.Drain.Laws.{destroyed}
use macvz.Provider.{Host, is_empty_text}
use macvz.Provider.Rebuild.{vm_ip_poll_attempts, ip_answer, poll_vm_ip, reattach}
use mathlib.Core.List.{append_assoc}

-- Calls that came after those of a trace, and destroyed a micro-VM.
abbrev pub DestroyedAfter : Trace → Text → Trace → Type 0
DestroyedAfter base id t =
    (added : Trace) × (t ≡ added ++ base) × (contains (destroyed added) id ≡ true)

-- Calls that came after those of a trace.
abbrev pub Extends : Trace → Trace → Type 0
Extends base t = (added : Trace) × (t ≡ added ++ base)

pub Extends-trans : (a b c : Trace) → Extends a b → Extends b c → Extends a c
Extends-trans a b c (x, e) (y, f) = (y ++ x, f ∙ (ap (λ t. y ++ t) e ∙ sym (append_assoc y x a)))

contains-destroyed_later :
    (added a : Trace) (id : Text)
    → contains (destroyed a) id ≡ true
    → contains (destroyed (added ++ a)) id ≡ true
unfolding contains
contains-destroyed_later [] a id h = h
contains-destroyed_later (c ∷ added) a id h =
    elim c as (λ c. contains (destroyed (c ∷ added ++ a)) id ≡ true) [
      | call_destroy x ↦ ground (arith, contains-destroyed_later added a id h)
      | _ ↦ contains-destroyed_later added a id h
    ]

pub DestroyedAfter-later :
    (base : Trace) (id : Text) (t later : Trace)
    → DestroyedAfter base id t
    → Extends t later
    → DestroyedAfter base id later
DestroyedAfter-later base id t later (a, e, d) (b, f) = (
  b ++ a,
  f ∙ (ap (λ u. b ++ u) e ∙ sym (append_assoc b a base)),
  contains-destroyed_later b a id d,
)

poll_vm_ip-Extends : (h : Host) (n : ℕ) (id : Text) (t : Trace) → Extends t (poll_vm_ip h n id t).1
unfolding poll_vm_ip
poll_vm_ip-Extends h zero id t = ([], refl)
poll_vm_ip-Extends h (suc n) id t =
    elim (Bool-cases (not (is_empty_text (ip_answer (h.runtime.status t id))))) [
      | inl e ↦ rw (e, poll_vm_ip) (call_status id ∷ [], refl)
      | inr e ↦ elim (Bool-cases (nat_beq n 0 || h.cancelled (call_status id ∷ t))) [
        | inl f ↦ rw (e, f, poll_vm_ip) (call_status id ∷ [], refl)
        | inr f ↦
            rw (e, f, poll_vm_ip)
              (Extends-trans t (call_status id ∷ t) _ (call_status id ∷ [], refl)
                (poll_vm_ip-Extends h n id (call_status id ∷ t)))
      ]
    ]

pub reattach-Extends :
    (h : Host) (key pod_ip : String) (id : Text) (t : Trace)
    → Extends t (reattach h key pod_ip id t).1
unfolding reattach
reattach-Extends h key pod_ip id t =
    let (vm_ip, t') = poll_vm_ip h vm_ip_poll_attempts id t in
    let polled : Extends t t' = poll_vm_ip-Extends h vm_ip_poll_attempts id t in
    let wired : Extends t (call_attach key pod_ip vm_ip ∷ t') =
      Extends-trans t t' (call_attach key pod_ip vm_ip ∷ t') polled
        (call_attach key pod_ip vm_ip ∷ [], refl) in
    elim (Option-cases h.pod_net) [
      | inl e ↦ rw (e, reattach) ([], refl)
      | inr (pn, e) ↦ elim (Bool-cases (is_empty_text pod_ip)) [
        | inl f ↦ rw (e, f, reattach) ([], refl)
        | inr f ↦ elim (Bool-cases (is_empty_text vm_ip)) [
          | inl g ↦ rw (e, f, g, reattach) polled
          | inr g ↦ elim (Option-cases (pn.attach t' key pod_ip vm_ip)) [
            | inl k ↦ rw (e, f, g, k, reattach) wired
            | inr (x, k) ↦ rw (e, f, g, k, reattach) wired
          ]
        ]
      ]
    ]
