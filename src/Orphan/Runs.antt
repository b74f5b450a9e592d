-- ===== src/Orphan/Runs.antt =====
-- Whole runs of the reaper: what it touches, and the passes that touch nothing.
use macvz.Prelude.{
  Bool-cases, is_empty, contains, All-contains, Text, codes_key, text_key, number_key, ℕ, ◌≡◌, refl,
  ◌⊎◌, inl, inr, true, none, List, [], ◌∷◌, arith,
}
use macvz.Prelude.Dict.{get-empty}
use macvz.Runtime.{RtError, Trace, failure}
use macvz.Drain.{Cleaner, by_id}
use macvz.Orphan.{Policy, Reaper, Surroundings, Partition, reap_matured, reap_once, new_reaper, run}
use macvz.Drain.Laws.{touched, reap_dry}
use macvz.Orphan.Pass.{Carries}
use macvz.Orphan.Grace.{
  Sight, sight, see, history_of, SeenSince, Justified, blind, unlisted, listed, pass-Course,
  reap_once-Carries,
}
use macvz.Prelude.Sort.{sort}

new_reaper-Carries : Carries (SeenSince []) new_reaper.first_seen
new_reaper-Carries id first e = absurd (ground (arith, get-empty {V = ℕ} id, e))

run-Carries :
    (p : Policy) (c : Cleaner) (passes : List Surroundings) (r : Reaper) (t : Trace)
    (history : List Sight)
    → Carries (SeenSince history) r.first_seen
    → Carries (SeenSince (history_of p c passes r t history)) (run p c passes r t).0.first_seen
unfolding run history_of
run-Carries p c [] r t history h = h
run-Carries p c (s ∷ passes) r t history h =
    let after = reap_once p c s r t in
    run-Carries p c passes after.0 after.1 (see (sight s t) history)
      (reap_once-Carries p c s r t history h).0

-- Along any run from a new reaper, the next pass stops or destroys, beside what was touched
-- before it, only micro-VMs of MacVz that no live Pod expects now and that were orphans at every
-- pass with a sight since one at least the grace period ago.
pub run-Justified :
    (p : Policy) (c : Cleaner) (passes : List Surroundings) (s : Surroundings) (t : Trace)
    (id : Text)
    → let before = run p c passes new_reaper t in
      contains (touched (reap_once p c s before.0 before.1).1) id ≡ true
      → (contains (touched before.1) id ≡ true)
        ⊎ Justified p s (see (sight s before.1) (history_of p c passes new_reaper t [])) id
run-Justified p c passes s t id m =
    let before = run p c passes new_reaper t in
    let history = history_of p c passes new_reaper t [] in
    All-contains _ (touched (reap_once p c s before.0 before.1).1) id
      (reap_once-Carries p c s before.0 before.1 history
        (run-Carries p c passes new_reaper t [] new_reaper-Carries)).1
      m

reap_matured_dry :
    (p : Policy) (c : Cleaner) (s : Surroundings) (n : ℕ) (parts : Partition) (r : Reaper)
    (t : Trace)
    → p.dry_run ≡ true
    → (reap_matured p c s n parts r t).1 ≡ t
unfolding reap_matured
reap_matured_dry p c s n parts r t d = elim (Bool-cases (is_empty parts.matured)) [
  | inl m ↦ rw (m, reap_matured) refl
  | inr m ↦ rw (m, reap_matured, d) (rw (reap_dry s.runtime c (sort by_id parts.matured) t) refl)
]

-- A pass stops and destroys nothing, and a failed one keeps every recorded time, when the live
-- Pods cannot be determined, when the runtime cannot be listed, or when the policy is dryRun.
pub reap_once_harmless :
    (p : Policy) (c : Cleaner) (s : Surroundings) (r : Reaper) (t : Trace)
    → ((s.expected ≡ none) ⊎ ((x : RtError) × (s.runtime.list t ≡ failure x))) ⊎ (p.dry_run ≡ true)
    → (touched (reap_once p c s r t).1 ≡ touched t)
      × ((sight s t ≡ none) → (reap_once p c s r t).0.first_seen ≡ r.first_seen)
reap_once_harmless p c s r t h = elim (pass-Course p c s r t) [
  | blind e q v ↦ rw q (refl, λ w. refl)
  | unlisted expected x e l q v ↦ rw q (refl, λ w. refl)
  | listed expected all e l q v ↦ elim h [
    | inl (inl none_known) ↦ absurd (ground (arith, none_known, e))
    | inl (inr (x, refused)) ↦ absurd (ground (arith, refused, l))
    | inr d ↦
        (rw q (rw (reap_matured_dry p c s _ _ r _ d) refl), λ w. absurd (ground (arith, v, w)))
  ]
]
