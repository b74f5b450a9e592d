-- ===== src/Drain/Laws.antt =====
-- What Scan finds and what Reap touches.
use macvz.Prelude.{
  All, contains, Text, same_text_iff, codes_key, text_key, number_key, ◌≡◌, refl, ap, ◌∙◌, inl, inr,
  Bool, true, false, not, ◌&&◌, Option, none, some, List, [], ◌∷◌, ◌++◌, map, arith,
}
use macvz.Prelude.Sort.{sort, All-sort, contains-sort}
use macvz.Runtime.{
  RtError, not_found, Status, call_stop, call_destroy, Trace, answer, Runtime, Answer-cases,
}
use macvz.Drain.{
  is_macvz_vm, Orphan, Cleaner, ReapError, stop_error, destroy_error, flush_error, is_orphan,
  orphans_of, by_id, scan, stop_timeout, stop_errors, destroy_result, reap_one, reap_loop, flush,
  reap,
}
use mathlib.Core.List.{reverse, reverse-cons, append_assoc, append-nil}

-- An orphan: a micro-VM of MacVz that no live Pod expects.
abbrev pub IsOrphanOf : (Text → Bool) → Orphan → Type 0
IsOrphanOf expected o = (is_macvz_vm o.id ≡ true) × (expected o.id ≡ false)

pub orphans_of-IsOrphanOf :
    (expected : Text → Bool) (all : List Status)
    → All (IsOrphanOf expected) (orphans_of expected all)
unfolding orphans_of is_orphan
orphans_of-IsOrphanOf expected [] = tt
orphans_of-IsOrphanOf expected (w ∷ all) = ground (arith, orphans_of-IsOrphanOf expected all)

pub contains-orphans_of :
    (expected : Text → Bool) (all : List Status) (k : Text)
    → contains (map Orphan.id (orphans_of expected all)) k
      ≡ (is_macvz_vm k && not (expected k) && contains (map Status.id all) k)
unfolding orphans_of is_orphan contains
contains-orphans_of expected [] k = ground arith
contains-orphans_of expected (w ∷ all) k =
    ground (arith, contains-orphans_of expected all k, same_text_iff w.id k)

-- The IDs that calls stop or destroy.
abbrev pub touched : Trace → List Text
touched [] = []
touched (call_stop id _ ∷ t) = id ∷ touched t
touched (call_destroy id ∷ t) = id ∷ touched t
touched (_ ∷ t) = touched t

-- The IDs that calls destroy.
abbrev pub destroyed : Trace → List Text
destroyed [] = []
destroyed (call_destroy id ∷ t) = id ∷ destroyed t
destroyed (_ ∷ t) = destroyed t

-- Scan returns exactly the micro-VMs of MacVz that the runtime lists and no live Pod expects.
pub scan_exact :
    (rt : Runtime) (expected : Text → Bool) (t : Trace) {all : List Status} {orphans : List Orphan}
    → rt.list t ≡ answer all
    → (scan rt expected t).1 ≡ answer orphans
    → (k : Text)
    → contains (map Orphan.id orphans) k
      ≡ (is_macvz_vm k && not (expected k) && contains (map Status.id all) k)
unfolding scan
scan_exact rt expected t {all} {orphans} listed e k =
    let found : sort by_id (orphans_of expected all) ≡ orphans = ground (arith, listed, e) in
    rw (← found) (
      contains-sort by_id Orphan.id (orphans_of expected all) k
      ∙ contains-orphans_of expected all k)

pub scan-IsOrphanOf :
    (rt : Runtime) (expected : Text → Bool) (t : Trace) {orphans : List Orphan}
    → (scan rt expected t).1 ≡ answer orphans
    → All (IsOrphanOf expected) orphans
unfolding scan
scan-IsOrphanOf rt expected t {orphans} e = elim (Answer-cases (rt.list t)) [
  | inl (all, listed) ↦
      let found : sort by_id (orphans_of expected all) ≡ orphans = ground (arith, listed, e) in
      rw (← found) (All-sort by_id _ _ (orphans_of-IsOrphanOf expected all))
  | inr (x, refused) ↦ absurd (ground (arith, refused, e))
]

-- The orphans that a Destroy left none of, and the errors of the others.
abbrev pub gone_ids : List (Text × Option RtError) → List Text
gone_ids [] = []
gone_ids ((id, none) ∷ answered) = id ∷ gone_ids answered
gone_ids ((id, some not_found) ∷ answered) = id ∷ gone_ids answered
gone_ids ((id, some e) ∷ answered) = gone_ids answered

abbrev pub destroy_failures : List (Text × Option RtError) → List (Text × RtError)
destroy_failures [] = []
destroy_failures ((id, none) ∷ answered) = destroy_failures answered
destroy_failures ((id, some not_found) ∷ answered) = destroy_failures answered
destroy_failures ((id, some e) ∷ answered) = (id, e) ∷ destroy_failures answered

-- The destructions that the errors report.
abbrev pub destroy_errors : List ReapError → List (Text × RtError)
destroy_errors [] = []
destroy_errors (destroy_error id e ∷ errors) = (id, e) ∷ destroy_errors errors
destroy_errors (_ ∷ errors) = destroy_errors errors

destroy_errors-append :
    (xs ys : List ReapError) → destroy_errors (xs ++ ys) ≡ destroy_errors xs ++ destroy_errors ys
destroy_errors-append [] ys = refl
destroy_errors-append (destroy_error id e ∷ xs) ys =
    ap (λ zs. (id, e) ∷ zs) (destroy_errors-append xs ys)
destroy_errors-append (stop_error id e ∷ xs) ys = destroy_errors-append xs ys
destroy_errors-append (flush_error e ∷ xs) ys = destroy_errors-append xs ys

module _ (rt : Runtime) (c : Cleaner) where
  reap_one-touched :
      (P : Text → Type 0) (id : Text) (t : Trace)
      → P id
      → All P (touched t)
      → All P (touched (reap_one rt c id t).0)
  unfolding reap_one
  reap_one-touched P id t p h = (p, (p, h))

  reap_loop-touched :
      (P : Text → Type 0) (dry_run : Bool) (orphans : List Orphan) (t : Trace)
      → All (λ (o : Orphan). P o.id) orphans
      → All P (touched t)
      → All P (touched (reap_loop rt c dry_run orphans t).0)
  unfolding reap_loop
  reap_loop-touched P dry_run [] t a h = h
  reap_loop-touched P true (o ∷ orphans) t a h = reap_loop-touched P true orphans t a.1 h
  reap_loop-touched P false (o ∷ orphans) t a h =
      reap_loop-touched P false orphans (reap_one rt c o.id t).0 a.1
        (reap_one-touched P o.id t a.0 h)

  flush-touched : (dry_run : Bool) (t : Trace) → touched (flush c dry_run t).0 ≡ touched t
  unfolding flush
  flush-touched true t = refl
  flush-touched false t = ground arith

  -- Reap stops and destroys only the orphans that it is given.
  pub reap-touched :
      (P : Text → Type 0) (orphans : List Orphan) (dry_run : Bool) (t : Trace)
      → All (λ (o : Orphan). P o.id) orphans
      → All P (touched t)
      → All P (touched (reap rt c orphans dry_run t).0)
  unfolding reap
  reap-touched P orphans dry_run t a h =
      rw (flush-touched dry_run (reap_loop rt c dry_run orphans t).0)
        (reap_loop-touched P dry_run orphans t a h)

  reap_loop_dry :
      (orphans : List Orphan) (t : Trace)
      → reap_loop rt c true orphans t ≡ (t, record { ids = map Orphan.id orphans; errors = [] })
  unfolding reap_loop
  reap_loop_dry [] t = refl
  reap_loop_dry (o ∷ orphans) t = rw (reap_loop_dry orphans t)

  -- With dryRun Reap makes no call, and reports every orphan.
  pub reap_dry :
      (orphans : List Orphan) (t : Trace)
      → reap rt c orphans true t ≡ (t, record { ids = map Orphan.id orphans; errors = [] })
  unfolding reap flush
  reap_dry orphans t = rw (reap_loop_dry orphans t)

  reap_one-destroyed : (id : Text) (t : Trace) → destroyed (reap_one rt c id t).0 ≡ id ∷ destroyed t
  unfolding reap_one
  reap_one-destroyed id t = refl

  reap_loop-destroyed :
      (orphans : List Orphan) (t : Trace)
      → destroyed (reap_loop rt c false orphans t).0
        ≡ reverse (map Orphan.id orphans) ++ destroyed t
  unfolding reap_loop
  reap_loop-destroyed [] t = refl
  reap_loop-destroyed (o ∷ orphans) t =
      rw (reap_loop-destroyed orphans (reap_one rt c o.id t).0, reap_one-destroyed o.id t)
        (simp (reverse-cons, append_assoc))

  flush-destroyed : (t : Trace) → destroyed (flush c false t).0 ≡ destroyed t
  unfolding flush
  flush-destroyed t = ground arith

  stop_errors-destroy_errors :
      (id : Text) (e : Option RtError) → destroy_errors (stop_errors id e) ≡ []
  stop_errors-destroy_errors id e = ground arith

  destroy_result-answer :
      (id : Text) (e : Option RtError) (answered : List (Text × Option RtError))
      → ((destroy_result id e).ids ++ gone_ids answered ≡ gone_ids ((id, e) ∷ answered))
        × (destroy_errors (destroy_result id e).errors ++ destroy_failures answered
            ≡ destroy_failures ((id, e) ∷ answered))
  destroy_result-answer id e answered = (ground arith, ground arith)

  -- What the runtime answers to the Destroy of each orphan, when every orphan is stopped and then
  -- destroyed in order.
  abbrev pub answers : List Orphan → Trace → List (Text × Option RtError)
  answers [] t = []
  answers (o ∷ orphans) t =
      let t' = call_stop o.id (stop_timeout c) ∷ t in
      (o.id, rt.destroy t' o.id) ∷ answers orphans (call_destroy o.id ∷ t')

  reap_loop-answers :
      (orphans : List Orphan) (t : Trace)
      → let (t', result) = reap_loop rt c false orphans t in
        (result.ids ≡ gone_ids (answers orphans t))
        × (destroy_errors result.errors ≡ destroy_failures (answers orphans t))
  unfolding reap_loop reap_one
  reap_loop-answers [] t = (refl, refl)
  reap_loop-answers (o ∷ orphans) t =
      let t' = call_stop o.id (stop_timeout c) ∷ t in
      let (ids, errors) = reap_loop-answers orphans (call_destroy o.id ∷ t') in
      let (own_ids, own_errors) =
        destroy_result-answer o.id (rt.destroy t' o.id)
          (answers orphans (call_destroy o.id ∷ t')) in
      let stops = stop_errors o.id (rt.stop t o.id) in
      let own = (destroy_result o.id (rt.destroy t' o.id)).errors in
      let rest = (reap_loop rt c false orphans (call_destroy o.id ∷ t')).1.errors in
      (
        ap (λ xs. (destroy_result o.id (rt.destroy t' o.id)).ids ++ xs) ids ∙ own_ids,
        rw
            (
              destroy_errors-append (stops ++ own) rest,
              destroy_errors-append stops own,
              stop_errors-destroy_errors o.id (rt.stop t o.id),
              errors,
            )
            own_errors,
      )

  flush-destroy_errors : (t : Trace) → destroy_errors (flush c false t).1 ≡ []
  unfolding flush
  flush-destroy_errors t = ground arith

  -- Reap is best-effort: without dryRun it tries to destroy every orphan, in order, whatever failed
  -- before; it reports as reaped exactly those whose Destroy gave no error or found nothing, and
  -- gives the error of every other one.
  pub reap_best_effort :
      (orphans : List Orphan) (t : Trace)
      → (destroyed (reap rt c orphans false t).0 ≡ reverse (map Orphan.id orphans) ++ destroyed t)
        × ((reap rt c orphans false t).1.ids ≡ gone_ids (answers orphans t))
        × (destroy_errors (reap rt c orphans false t).1.errors
            ≡ destroy_failures (answers orphans t))
  unfolding reap
  reap_best_effort orphans t =
      let (t', result) = reap_loop rt c false orphans t in
      let (ids, errors) = reap_loop-answers orphans t in
      (
        rw (flush-destroyed t') (reap_loop-destroyed orphans t),
        ids,
        rw (destroy_errors-append result.errors (flush c false t').1, flush-destroy_errors t')
            (append-nil _ ∙ errors),
      )
