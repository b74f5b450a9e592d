-- ===== src/Orphan/Pass.antt =====
-- The bookkeeping of one pass, for any fact that the recorded times carry.
use macvz.Prelude.{
  if◌then◌else◌, leb→le, Bool-cases, Option-cases, some_inj, All, is_empty, Text, same_text_iff,
  codes_key, text_key, number_key, ◌==◌, ℕ, ◌+◌, ◌≤◌, ◌≡◌, inl, inr, Bool, true, false, some, List,
  [], ◌∷◌, arith,
}
use macvz.Prelude.Dict.{Dict, get, remove, get-put, get-remove}
use macvz.Runtime.{Trace}
use macvz.Drain.{Orphan, Cleaner, by_id, reap}
use macvz.Orphan.{
  Policy, Reaper, Surroundings, Partition, first_of_orphan, note_orphan, is_mature, partition,
  forget_reaped, reap_matured,
}
use macvz.Drain.Laws.{touched, reap-touched}
use macvz.Prelude.Sort.{sort, All-sort}
use macvz.Prelude.Dict

-- Every recorded time carries the fact.
abbrev pub Carries : (Text → ℕ → Type 0) → Dict Text ℕ → Type 0
Carries Q first_seen = (id : Text) (first : ℕ) → Dict.get first_seen id ≡ some first → Q id first

-- The orphan has a recorded time with the fact, from which the grace period is over.
abbrev pub Matured : (Text → ℕ → Type 0) → Policy → ℕ → Text → Type 0
Matured Q p now id = (first : ℕ) × Q id first × (first + p.grace_period ≤ now)

pub get-note_orphan :
    (now : ℕ) (fs : Dict Text ℕ) (id k : Text)
    → Dict.get (note_orphan now fs id) k
      ≡ (if id == k then some (first_of_orphan now fs id) else Dict.get fs k)
unfolding note_orphan first_of_orphan
get-note_orphan now fs id k = ground (arith, get-put fs id k now, same_text_iff id k)

module _ (Q : Text → ℕ → Type 0) (p : Policy) (now : ℕ) where
  first_of_orphan-carries :
      (fs : Dict Text ℕ) (id : Text) → Q id now → Carries Q fs → Q id (first_of_orphan now fs id)
  unfolding first_of_orphan
  first_of_orphan-carries fs id q h = elim (Option-cases (Dict.get fs id)) [
    | inl g ↦ rw (g, first_of_orphan) q
    | inr (first, g) ↦ rw (g, first_of_orphan) (h id first g)
  ]

  note_orphan-Carries :
      (fs : Dict Text ℕ) (id : Text) → Q id now → Carries Q fs → Carries Q (note_orphan now fs id)
  note_orphan-Carries fs id q h k first e = elim (Bool-cases (id == k)) [
    | inl same ↦
        let found : first_of_orphan now fs id ≡ first =
          some_inj (rw (get-note_orphan, same) at e) in
        rw (← (same_text_iff id k).0 same, ← found) (first_of_orphan-carries fs id q h)
    | inr other ↦ h k first (rw (get-note_orphan, other) at e)
  ]

  -- The partition loop keeps the fact, and what it finds mature has waited out the grace period.
  pub partition-Carries :
      (orphans : List Orphan) (fs : Dict Text ℕ)
      → All (λ (o : Orphan). Q o.id now) orphans
      → Carries Q fs
      → Carries Q (partition p now orphans fs).first_seen
        × All (λ (o : Orphan). Matured Q p now o.id) (partition p now orphans fs).matured
  unfolding partition
  partition-Carries [] fs a h = (h, tt)
  partition-Carries (o ∷ orphans) fs a h =
      let (keeps, matured) =
        partition-Carries orphans (note_orphan now fs o.id) a.1
          (note_orphan-Carries fs o.id a.0 h) in
      elim (Bool-cases (is_mature p now (first_of_orphan now fs o.id))) [
        | inl m ↦
            rw (m, partition)
              (
                keeps,
                (
                  (
                    first_of_orphan now fs o.id,
                    first_of_orphan-carries fs o.id a.0 h,
                    leb→le _ _ m,
                  ),
                  matured,
                ),
              )
        | inr n ↦ rw (n, partition) (keeps, matured)
      ]

pub forget_reaped-Carries :
    (Q : Text → ℕ → Type 0) (ids : List Text) (fs : Dict Text ℕ)
    → Carries Q fs
    → Carries Q (forget_reaped ids fs)
unfolding forget_reaped
forget_reaped-Carries Q [] fs h = h
forget_reaped-Carries Q (id ∷ ids) fs h =
    forget_reaped-Carries Q ids (Dict.remove fs id)
      (λ k first e. h k first (ground (arith, get-remove fs id k)))

-- After the rest of a pass the recorded times still carry the fact, and the pass has stopped or
-- destroyed only mature orphans.
pub reap_matured-Carries :
    (Q : Text → ℕ → Type 0) (P : Text → Type 0) (p : Policy) (c : Cleaner) (s : Surroundings)
    (n : ℕ) (parts : Partition) (r : Reaper) (t : Trace)
    → Carries Q parts.first_seen
    → All (λ (o : Orphan). P o.id) parts.matured
    → All P (touched t)
    → Carries Q (reap_matured p c s n parts r t).0.first_seen
      × All P (touched (reap_matured p c s n parts r t).1)
unfolding reap_matured
reap_matured-Carries Q P p c s n parts r t h a old = elim (Bool-cases (is_empty parts.matured)) [
  | inl none_mature ↦ rw (none_mature, reap_matured) (h, old)
  | inr some_mature ↦
      rw (some_mature, reap_matured)
        (
          if_Carries p.dry_run,
          reap-touched s.runtime c P (sort by_id parts.matured) p.dry_run t (All-sort by_id _ _ a)
              old,
        )
]
  where
    done : List Text
    done = (reap s.runtime c (sort by_id parts.matured) p.dry_run t).1.ids

    if_Carries :
        (b : Bool) → Carries Q (if b then parts.first_seen else forget_reaped done parts.first_seen)
    if_Carries true = h
    if_Carries false = forget_reaped-Carries Q done parts.first_seen h

-- The mature ones are among the orphans.
pub partition-All :
    (R : Orphan → Type 0) (p : Policy) (now : ℕ) (orphans : List Orphan) (fs : Dict Text ℕ)
    → All R orphans
    → All R (partition p now orphans fs).matured
unfolding partition
partition-All R p now [] fs a = tt
partition-All R p now (o ∷ orphans) fs a =
    let matured = partition-All R p now orphans (note_orphan now fs o.id) a.1 in
    elim (Bool-cases (is_mature p now (first_of_orphan now fs o.id))) [
      | inl m ↦ rw (m, partition) (a.0, matured)
      | inr n ↦ rw (n, partition) matured
    ]
