-- ===== src/Drain.antt =====
-- pkg/drain/cleaner.go: finding and reaping the micro-VMs that back no Pod.
pub mod Laws
use macvz.Prelude.{
  nat_beq, if◌then◌else◌, Text, codes, codes_key, has_prefix, text_ltb, text_key, number_key, ℕ,
  ◌*◌, Bool, true, false, not, ◌||◌, Option, none, some, List, [], ◌∷◌, ◌++◌,
}
use macvz.Prelude.Sort.{sort}
use macvz.Runtime.{
  RtError, not_found, Phase, stopped, Status, call_list, call_stop, call_destroy, call_flush, Trace,
  Answer, answer, failure, Runtime,
}
use macvz.Workload.{workload_prefix}

abbrev pub vm_prefix : Text
vm_prefix = workload_prefix ++ codes "-"

-- IsMacVzVM
unfoldable pub is_macvz_vm : Text → Bool
unfolding has_prefix
is_macvz_vm id = has_prefix id vm_prefix

pub record Orphan : Type 0 where
  pub id : Text
  pub phase : Phase

-- A Cleaner's own fields; its Lister and Reaper are the runtime.
pub record Cleaner : Type 0 where
  pub flusher : Option (Trace → Option RtError)
  pub timeout : ℕ

pub data ReapError : Type 0 where
  stop_error destroy_error : Text → RtError → ReapError
  flush_error : RtError → ReapError

-- The test that Scan skips by.
unfoldable pub is_orphan : (Text → Bool) → Status → Bool
is_orphan expected w = not (not (is_macvz_vm w.id) || expected w.id)

-- The loop of Scan, before the sort.
unfoldable pub orphans_of : (Text → Bool) → List Status → List Orphan
orphans_of expected [] = []
orphans_of expected (w ∷ all) =
    let rest = orphans_of expected all in
    if is_orphan expected w then record { id = w.id; phase = w.phase } ∷ rest else rest

abbrev pub by_id : Orphan → Orphan → Bool
by_id a b = text_ltb a.id b.id

-- Scan
unfoldable pub scan : Runtime → (Text → Bool) → Trace → Trace × Answer (List Orphan)
scan rt expected t = elim (rt.list t) [
  | failure e ↦ (call_list ∷ t, failure e)
  | answer all ↦ (call_list ∷ t, answer (sort by_id (orphans_of expected all)))
]

-- What Reap returns beside the calls: the IDs reaped, and the joined errors.
pub record Reaped : Type 0 where
  pub ids : List Text
  pub errors : List ReapError

abbrev pub stop_timeout : Cleaner → ℕ
stop_timeout c = if nat_beq c.timeout 0 then 10 * 1000000000 else c.timeout

abbrev pub stop_errors : Text → Option RtError → List ReapError
stop_errors id none = []
stop_errors id (some not_found) = []
stop_errors id (some e) = stop_error id e ∷ []

-- `continue` with an error, or the ID is reaped.
abbrev pub destroy_result : Text → Option RtError → Reaped
destroy_result id none = record { ids = id ∷ []; errors = [] }
destroy_result id (some not_found) = record { ids = id ∷ []; errors = [] }
destroy_result id (some e) = record { ids = []; errors = destroy_error id e ∷ [] }

abbrev pub join : Reaped → Reaped → Reaped
join a b = record { ids = a.ids ++ b.ids; errors = a.errors ++ b.errors }

-- One round of Reap's loop: stop, then destroy whatever the stop answered.
unfoldable pub reap_one : Runtime → Cleaner → Text → Trace → Trace × Reaped
reap_one rt c id t =
    let t' = call_stop id (stop_timeout c) ∷ t in
    let stopped = stop_errors id (rt.stop t id) in
    let result = destroy_result id (rt.destroy t' id) in
    (call_destroy id ∷ t', record result { errors = stopped ++ result.errors })

-- Reap's loop over the orphans.
unfoldable pub reap_loop : Runtime → Cleaner → Bool → List Orphan → Trace → Trace × Reaped
reap_loop rt c dry_run [] t = (t, record { ids = []; errors = [] })
reap_loop rt c dry_run (o ∷ orphans) t =
    let here =
      if dry_run then (t, record { ids = o.id ∷ []; errors = [] }) else reap_one rt c o.id t in
    let rest = reap_loop rt c dry_run orphans here.0 in (rest.0, join here.1 rest.1)

-- The flush after the loop.
unfoldable pub flush : Cleaner → Bool → Trace → Trace × List ReapError
flush c true t = (t, [])
flush c false t = elim c.flusher [
  | none ↦ (t, [])
  | some f ↦ (call_flush ∷ t, elim (f t) [ none ↦ [] | some e ↦ flush_error e ∷ [] ])
]

-- Reap
unfoldable pub reap : Runtime → Cleaner → List Orphan → Bool → Trace → Trace × Reaped
reap rt c orphans dry_run t =
    let looped = reap_loop rt c dry_run orphans t in
    let flushed = flush c dry_run looped.0 in
    (flushed.0, record { ids = looped.1.ids; errors = looped.1.errors ++ flushed.1 })
