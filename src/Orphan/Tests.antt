-- ===== src/Orphan/Tests.antt =====
-- Two passes over a host with a live workload, an orphan and a stranger, and the theorems there.
use macvz.Prelude.{
  contains, Text, codes, same_text, codes_key, has_prefix, text_ltb, text_key, number_key, ◌==◌, ℕ,
  ◌≡◌, refl, ◌⊎◌, inl, inr, Bool, true, false, not, ◌&&◌, none, some, List, [], ◌∷◌, map, arith,
}
use macvz.Prelude.Dict.{Dict, empty, get, put, retain}
use macvz.Runtime.{not_ready, not_found, running, Status, Trace, answer, failure, Runtime}
use macvz.Drain.{
  is_macvz_vm, Orphan, Cleaner, is_orphan, orphans_of, scan, reap_one, reap_loop, flush, reap,
}
use macvz.Orphan.{
  Policy, Reaper, Surroundings, forget_gone, first_of_orphan, note_orphan, partition, reap_matured,
  reap_once, new_reaper, run,
}
use macvz.Drain.Laws.{
  touched, destroyed, scan_exact, gone_ids, destroy_failures, destroy_errors, answers,
  reap_best_effort,
}
use macvz.Orphan.Grace.{sight, see, history_of, Justified}
use macvz.Orphan.Runs.{run-Justified, reap_once_harmless}
use macvz.Orphan.Live.{reap_once-destroyed}
use macvz.Prelude.Sort.{insert_sorted, sort}
use macvz.Prelude.Dict

abbrev live_id : Text
live_id = codes "macvz-live"

abbrev orphan_id : Text
orphan_id = codes "macvz-dead"

abbrev vm : Text → Status
vm id = record { id = id; phase = running; exit_code = 0; message = ""; ip = "" }

abbrev listing : List Status
listing = vm live_id ∷ vm (codes "other") ∷ vm orphan_id ∷ []

-- A runtime whose stops fail.
abbrev host : Runtime
host = record {
  list = λ t. answer listing;
  status = λ t id. failure not_found;
  pull = λ t image. none;
  create = λ t spec. answer spec.name;
  start = λ t id. none;
  stop = λ t id. some not_ready;
  destroy = λ t id. none;
}

abbrev deaf_host : Runtime
deaf_host = record host { list = λ t. failure not_ready }

abbrev live_pods : Text → Bool
live_pods id = id == live_id

abbrev at_time : ℕ → Surroundings
at_time now = record { now = now; expected = some live_pods; runtime = host }

abbrev cleaner : Cleaner
cleaner = record { flusher = none; timeout = 0 }

abbrev policy : Policy
policy = record { grace_period = 60; dry_run = false }

abbrev first_pass : Reaper × Trace
first_pass = run policy cleaner (at_time 100 ∷ []) new_reaper []

abbrev orphan_list : List Orphan
orphan_list = record { id = orphan_id; phase = running } ∷ []

scanned : (scan host live_pods []).1 ≡ answer orphan_list
unfolding scan is_orphan is_macvz_vm orphans_of has_prefix sort insert_sorted text_ltb same_text
scanned = refl

scan_exact_example : contains (map Orphan.id orphan_list) (codes "other") ≡ (
    is_macvz_vm (codes "other")
    && not (live_pods (codes "other"))
    && contains (map Status.id listing) (codes "other"))
scan_exact_example = scan_exact host live_pods [] refl scanned (codes "other")

reap_best_effort_example :
    (destroyed (reap host cleaner orphan_list false []).0 ≡ orphan_id ∷ [])
    × ((reap host cleaner orphan_list false []).1.ids
        ≡ gone_ids (answers host cleaner orphan_list []))
    × (destroy_errors (reap host cleaner orphan_list false []).1.errors
        ≡ destroy_failures (answers host cleaner orphan_list []))
reap_best_effort_example = reap_best_effort host cleaner orphan_list []

first_pass_result :
    (Dict.get first_pass.0.first_seen orphan_id ≡ some 100) × (touched first_pass.1 ≡ [])
unfolding run reap_once scan is_orphan is_macvz_vm orphans_of has_prefix sort insert_sorted text_ltb
    same_text partition first_of_orphan note_orphan forget_gone Dict.get Dict.put Dict.retain
    Dict.empty contains reap_matured
first_pass_result = (refl, refl)

second_pass_result :
    contains
      (touched (reap_once policy cleaner (at_time 170) first_pass.0 first_pass.1).1)
      orphan_id
    ≡ true
unfolding run reap_once scan is_orphan is_macvz_vm orphans_of has_prefix sort insert_sorted text_ltb
    same_text partition first_of_orphan note_orphan forget_gone Dict.get Dict.put Dict.retain
    Dict.empty contains reap_matured reap reap_loop reap_one flush
second_pass_result = refl

run-Justified_example :
    (contains (touched first_pass.1) orphan_id ≡ true)
    ⊎ Justified policy
        (at_time 170)
        (see
          (sight (at_time 170) first_pass.1)
          (history_of policy cleaner (at_time 100 ∷ []) new_reaper [] []))
        orphan_id
run-Justified_example =
    run-Justified policy cleaner (at_time 100 ∷ []) (at_time 170) [] orphan_id second_pass_result

deaf : Surroundings
deaf = record { now = 170; expected = some live_pods; runtime = deaf_host }

reap_once_harmless_example :
    (touched (reap_once policy cleaner deaf first_pass.0 first_pass.1).1 ≡ touched first_pass.1)
    × ((sight deaf first_pass.1 ≡ none)
        → (reap_once policy cleaner deaf first_pass.0 first_pass.1).0.first_seen
          ≡ first_pass.0.first_seen)
unfolding deaf
reap_once_harmless_example =
    reap_once_harmless policy cleaner deaf first_pass.0 first_pass.1 (inl (inr (not_ready, refl)))

orphan_listed :
    (is_macvz_vm orphan_id
      && not (live_pods orphan_id)
      && contains (map Status.id listing) orphan_id)
    ≡ true
unfolding is_macvz_vm has_prefix contains same_text
orphan_listed = refl

reap_once-destroyed_example :
    contains
      (destroyed (reap_once policy cleaner (at_time 170) first_pass.0 first_pass.1).1)
      orphan_id
    ≡ true
reap_once-destroyed_example =
    reap_once-destroyed policy cleaner (at_time 170) first_pass.0 first_pass.1 live_pods listing
      orphan_id 100 refl refl refl orphan_listed first_pass_result.0 (omega arith)
