-- ===== src/Orphan/Live.antt =====
-- The reaper does reap: an orphan whose grace period is over is destroyed at the next pass.
use macvz.Prelude.{
  Bool-cases, length, is_empty, contains, contains-append, Text, same_text_iff, codes_key, text_key,
  number_key, ℕ, ◌+◌, ◌≤◌, ◌≡◌, refl, inl, inr, Bool, true, false, not, ◌&&◌, some, List, [], ◌∷◌,
  map, arith,
}
use macvz.Prelude.Dict.{Dict, get, get-retain}
use macvz.Runtime.{Status, call_list, Trace, answer, Runtime}
use macvz.Drain.{is_macvz_vm, Orphan, Cleaner, orphans_of, by_id, reap}
use macvz.Orphan.{
  Policy, Reaper, Surroundings, forget_gone, Partition, first_of_orphan, note_orphan, partition,
  reap_matured, reap_once,
}
use macvz.Drain.Laws.{contains-orphans_of, destroyed, reap_best_effort}
use macvz.Orphan.Pass.{get-note_orphan}
use macvz.Orphan.Grace.{listed_orphans, reap_once_listed}
use macvz.Prelude.Sort.{sort, contains-sort}
use macvz.Prelude.Dict
use mathlib.Core.List.{reverse, reverse-cons}

contains-reverse : (xs : List Text) (k : Text) → contains (reverse xs) k ≡ contains xs k
unfolding contains
contains-reverse [] k = refl
contains-reverse (x ∷ xs) k =
    ground
      (arith, reverse-cons x xs, contains-append (reverse xs) (x ∷ []) k, contains-reverse xs k)

-- An orphan that is due stays due past the notes that come before its turn.
note_orphan-first :
    (now : ℕ) (fs : Dict Text ℕ) (id k : Text) (first : ℕ)
    → Dict.get fs k ≡ some first
    → Dict.get (note_orphan now fs id) k ≡ some first
unfolding first_of_orphan
note_orphan-first now fs id k first e =
    ground (arith, get-note_orphan now fs id k, same_text_iff id k, e)

partition-due :
    (p : Policy) (now : ℕ) (orphans : List Orphan) (fs : Dict Text ℕ) (k : Text) (first : ℕ)
    → Dict.get fs k ≡ some first
    → first + p.grace_period ≤ now
    → contains (map Orphan.id orphans) k ≡ true
    → contains (map Orphan.id (partition p now orphans fs).matured) k ≡ true
unfolding partition first_of_orphan contains
partition-due p now [] fs k first e d m = m
partition-due p now (o ∷ orphans) fs k first e d m = ground (
  arith,
  partition-due p now orphans (note_orphan now fs o.id) k first
      (note_orphan-first now fs o.id k first e) d,
  same_text_iff o.id k,
)

get-forget_gone :
    (orphans : List Orphan) (fs : Dict Text ℕ) (k : Text) (first : ℕ)
    → contains (map Orphan.id orphans) k ≡ true
    → Dict.get fs k ≡ some first
    → Dict.get (forget_gone orphans fs) k ≡ some first
unfolding forget_gone
get-forget_gone orphans fs k first m e =
    ground (arith, get-retain (contains (map Orphan.id orphans)) fs k, m, e)

reap-destroyed :
    (rt : Runtime) (c : Cleaner) (orphans : List Orphan) (t : Trace) (k : Text)
    → contains (map Orphan.id orphans) k ≡ true
    → contains (destroyed (reap rt c orphans false t).0) k ≡ true
reap-destroyed rt c orphans t k m = rw (reap_best_effort rt c orphans t).0 (
    ground (
      arith,
      contains-append (reverse (map Orphan.id orphans)) (destroyed t) k,
      contains-reverse (map Orphan.id orphans) k,
    ))

reap_matured-destroyed :
    (p : Policy) (c : Cleaner) (s : Surroundings) (n : ℕ) (parts : Partition) (r : Reaper)
    (t : Trace) (k : Text)
    → p.dry_run ≡ false
    → contains (map Orphan.id parts.matured) k ≡ true
    → contains (destroyed (reap_matured p c s n parts r t).1) k ≡ true
unfolding reap_matured contains
reap_matured-destroyed p c s n parts r t k d m = elim (Bool-cases (is_empty parts.matured)) [
  | inl idle ↦ ground (arith, m, idle)
  | inr busy ↦
      rw (busy, reap_matured, d)
        (reap-destroyed s.runtime c (sort by_id parts.matured) t k
          (rw (contains-sort by_id Orphan.id parts.matured k) m))
]

-- Without dryRun, a pass tries to destroy each micro-VM of MacVz that the runtime lists, that no
-- live Pod expects, and that was first recorded at least the grace period ago.
pub reap_once-destroyed :
    (p : Policy) (c : Cleaner) (s : Surroundings) (r : Reaper) (t : Trace) (expected : Text → Bool)
    (all : List Status) (id : Text) (first : ℕ)
    → p.dry_run ≡ false
    → s.expected ≡ some expected
    → s.runtime.list t ≡ answer all
    → (is_macvz_vm id && not (expected id) && contains (map Status.id all) id) ≡ true
    → Dict.get r.first_seen id ≡ some first
    → first + p.grace_period ≤ s.now
    → contains (destroyed (reap_once p c s r t).1) id ≡ true
reap_once-destroyed p c s r t expected all id first d e l o f g =
    let orphans = listed_orphans expected all in
    let listed : contains (map Orphan.id orphans) id ≡ true = ground (
      arith,
      contains-sort by_id Orphan.id (orphans_of expected all) id,
      contains-orphans_of expected all id,
      o,
    ) in
    let parts = partition p s.now orphans (forget_gone orphans r.first_seen) in
    rw (reap_once_listed p c s r t expected all e l) (
      reap_matured-destroyed p c s (length orphans) parts r (call_list ∷ t) id d (
        partition-due p s.now orphans (forget_gone orphans r.first_seen) id first
          (get-forget_gone orphans r.first_seen id first listed f) g listed))
