-- ===== src/Orphan/Grace.antt =====
-- The grace period, against the history of what the passes saw.
use macvz.Prelude.{
  Bool-cases, Option-cases, All, length, contains, All-of_contains, All-members, All-zip, All-imp,
  Text, codes_key, text_key, number_key, ℕ, ◌≡◌, refl, ◌⊎◌, inl, inr, Bool, true, false, Option,
  none, some, List, [], ◌∷◌, map, arith,
}
use macvz.Prelude.Dict.{get-retain}
use macvz.Runtime.{RtError, Status, call_list, Trace, answer, failure, Answer-cases}
use macvz.Drain.{is_macvz_vm, Orphan, Cleaner, orphans_of, by_id, scan}
use macvz.Drain.Laws.{IsOrphanOf, orphans_of-IsOrphanOf, touched}
use macvz.Orphan.{
  Policy, expected_error, scan_error, Reaper, Surroundings, store, forget_gone, Partition,
  partition, failed_result, reap_matured, reap_once,
}
use macvz.Orphan.Pass.{Carries, Matured, partition-Carries, reap_matured-Carries, partition-All}
use macvz.Prelude.Sort.{sort, All-sort}

-- What a pass sees, if it can determine the live Pods and list the host: its time and its orphans.
abbrev pub Sight : Type 0
Sight = ℕ × List Text

unfoldable pub sight : Surroundings → Trace → Option Sight
sight s t = elim s.expected [
  | none ↦ none
  | some expected ↦ elim (scan s.runtime expected t).1 [
    | failure e ↦ none
    | answer orphans ↦ some (s.now, map Orphan.id orphans)
  ]
]

abbrev pub see : Option Sight → List Sight → List Sight
see none history = history
see (some seen) history = seen ∷ history

-- The history of a run, the latest sight first.
unfoldable pub history_of :
    Policy → Cleaner → List Surroundings → Reaper → Trace → List Sight → List Sight
history_of p c [] r t history = history
history_of p c (s ∷ passes) r t history =
    let (r', t') = reap_once p c s r t in history_of p c passes r' t' (see (sight s t) history)

-- The micro-VM was an orphan at a pass at `first`, and at every pass with a sight from then on.
abbrev pub SeenSince : List Sight → Text → ℕ → Type 0
SeenSince [] id first = ⊥
SeenSince ((now, ids) ∷ history) id first =
    (contains ids id ≡ true) × ((first ≡ now) ⊎ SeenSince history id first)

-- The micro-VM is MacVz's own, no live Pod expects it now, and it has been an orphan for the whole
-- grace period.
abbrev pub Justified : Policy → Surroundings → List Sight → Text → Type 0
Justified p s history id =
    (is_macvz_vm id ≡ true)
    × ((expected : Text → Bool) × (s.expected ≡ some expected) × (expected id ≡ false))
    × Matured (SeenSince history) p s.now id

abbrev pub listed_orphans : (Text → Bool) → List Status → List Orphan
listed_orphans expected all = sort by_id (orphans_of expected all)

-- The three courses of a pass, with its outcome and what it sees.
pub data Course (p : Policy) (c : Cleaner) (s : Surroundings) (r : Reaper) (t : Trace)
    : Type 0 where
  blind :
      s.expected ≡ none
      → reap_once p c s r t ≡ (store (failed_result p s.now expected_error) r, t)
      → sight s t ≡ none
      → Course p c s r t
  unlisted :
      (expected : Text → Bool) (x : RtError)
      → s.expected ≡ some expected
      → s.runtime.list t ≡ failure x
      → reap_once p c s r t ≡ (store (failed_result p s.now (scan_error x)) r, call_list ∷ t)
      → sight s t ≡ none
      → Course p c s r t
  listed :
      (expected : Text → Bool) (all : List Status)
      → s.expected ≡ some expected
      → s.runtime.list t ≡ answer all
      → reap_once p c s r t
        ≡ reap_matured p c s
            (length (listed_orphans expected all))
            (partition p s.now
              (listed_orphans expected all)
              (forget_gone (listed_orphans expected all) r.first_seen))
            r
            (call_list ∷ t)
      → sight s t ≡ some (s.now, map Orphan.id (listed_orphans expected all))
      → Course p c s r t

module _ (p : Policy) (c : Cleaner) (s : Surroundings) (r : Reaper) (t : Trace) where
  blind-Course : s.expected ≡ none → Course p c s r t
  unfolding reap_once sight
  blind-Course e = blind e (rw (e, reap_once)) (rw (e, sight))

  pub reap_once_listed :
      (expected : Text → Bool) (all : List Status)
      → s.expected ≡ some expected
      → s.runtime.list t ≡ answer all
      → reap_once p c s r t
        ≡ reap_matured p c s
            (length (listed_orphans expected all))
            (partition p s.now
              (listed_orphans expected all)
              (forget_gone (listed_orphans expected all) r.first_seen))
            r
            (call_list ∷ t)
  unfolding reap_once scan
  reap_once_listed expected all e l = ground (arith, e, l)

  listed-Course :
      (expected : Text → Bool) (all : List Status)
      → s.expected ≡ some expected
      → s.runtime.list t ≡ answer all
      → Course p c s r t
  unfolding sight scan
  listed-Course expected all e l =
      listed expected all e l (reap_once_listed expected all e l) (ground (arith, e, l))

  unlisted-Course :
      (expected : Text → Bool) (x : RtError)
      → s.expected ≡ some expected
      → s.runtime.list t ≡ failure x
      → Course p c s r t
  unfolding reap_once sight scan
  unlisted-Course expected x e l =
      unlisted expected x e l (ground (arith, e, l)) (ground (arith, e, l))

  pub pass-Course : Course p c s r t
  pass-Course = elim (Option-cases s.expected) [
    | inl e ↦ blind-Course e
    | inr (expected, e) ↦ elim (Answer-cases (s.runtime.list t)) [
      | inl (all, l) ↦ listed-Course expected all e l
      | inr (x, l) ↦ unlisted-Course expected x e l
    ]
  ]

module _ (p : Policy) (c : Cleaner) (s : Surroundings) (r : Reaper) (t : Trace)
    (history : List Sight) (h : Carries (SeenSince history) r.first_seen) where
  -- What the pass has seen of a listed orphan.
  module _ (orphans : List Orphan) where
    abbrev next : List Sight
    next = (s.now, map Orphan.id orphans) ∷ history

    forget_gone-Carries : Carries (SeenSince next) (forget_gone orphans r.first_seen)
    unfolding forget_gone
    forget_gone-Carries id first e = elim (Bool-cases (contains (map Orphan.id orphans) id)) [
      | inl m ↦ (m, inr (h id first (rw (get-retain, m) at e)))
      | inr gone ↦
          absurd
            (ground (arith, get-retain (contains (map Orphan.id orphans)) r.first_seen id, gone, e))
    ]

    now-seen : All (λ (o : Orphan). SeenSince next o.id s.now) orphans
    now-seen =
        All-of_contains Orphan.id (λ k. SeenSince next k s.now) orphans (λ k m. (m, inl refl))

    parts : Partition
    parts = partition p s.now orphans (forget_gone orphans r.first_seen)

    parts-Carries :
        Carries (SeenSince next) parts.first_seen
        × All (λ (o : Orphan). Matured (SeenSince next) p s.now o.id) parts.matured
    unfolding parts
    parts-Carries =
        partition-Carries (SeenSince next) p s.now orphans (forget_gone orphans r.first_seen)
          now-seen forget_gone-Carries

  -- The IDs that a pass may touch: those touched before, and the justified ones.
  abbrev May : List Sight → Text → Type 0
  May seen id = (contains (touched t) id ≡ true) ⊎ Justified p s seen id

  module _ (expected : Text → Bool) (e : s.expected ≡ some expected) (orphans : List Orphan)
      (o : All (IsOrphanOf expected) orphans) where
    matured-May : All (λ (x : Orphan). May (next orphans) x.id) (parts orphans).matured
    unfolding parts
    matured-May =
        All-imp (parts orphans).matured (λ x q. inr (q.0.0, (expected, e, q.0.1), q.1))
          (All-zip _ _ (parts orphans).matured
            (partition-All (IsOrphanOf expected) p s.now orphans (forget_gone orphans r.first_seen)
              o)
            (parts-Carries orphans).1)

    listed_pass :
        let after = reap_matured p c s (length orphans) (parts orphans) r (call_list ∷ t) in
        Carries (SeenSince (next orphans)) after.0.first_seen
        × All (May (next orphans)) (touched after.1)
    listed_pass =
        reap_matured-Carries (SeenSince (next orphans)) (May (next orphans)) p c s (length orphans)
          (parts orphans) r (call_list ∷ t) (parts-Carries orphans).0 matured-May
          (All-members (May (next orphans)) (touched t) (λ k m. inl m))

  -- A pass keeps the record of its sights, and touches what it may.
  pub reap_once-Carries :
      Carries (SeenSince (see (sight s t) history)) (reap_once p c s r t).0.first_seen
      × All (May (see (sight s t) history)) (touched (reap_once p c s r t).1)
  reap_once-Carries = elim (pass-Course p c s r t) [
    | blind e q v ↦ rw (q, v) (h, All-members (May history) (touched t) (λ k m. inl m))
    | unlisted expected x e l q v ↦
        rw (q, v) (h, All-members (May history) (touched t) (λ k m. inl m))
    | listed expected all e l q v ↦
        rw (q, v)
          (unfold parts in
            listed_pass expected e (listed_orphans expected all)
              (All-sort by_id _ _ (orphans_of-IsOrphanOf expected all)))
  ]
