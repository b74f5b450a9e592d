-- ===== src/Orphan.antt =====
-- pkg/orphan/reaper.go: the periodic reaper of orphan micro-VMs, with its grace period.
pub mod Pass
pub mod Grace
pub mod Live
mod Runs
mod Tests
use macvz.Prelude.{
  leb, if◌then◌else◌, length, is_empty, contains, Text, codes_key, text_key, number_key, ℕ, suc,
  ◌+◌, Bool, false, Option, none, some, List, [], ◌∷◌, map,
}
use macvz.Prelude.Dict.{Dict, empty, get, put, remove, retain}
use macvz.Runtime.{RtError, Trace, answer, failure, Runtime}
use macvz.Drain.{Orphan, Cleaner, ReapError, by_id, scan, reap}
use macvz.Prelude.Sort.{sort}
use macvz.Prelude.Dict

pub record Policy : Type 0 where
  pub grace_period : ℕ
  pub dry_run : Bool

pub data PassError : Type 0 where
  expected_error : PassError
  scan_error : RtError → PassError
  reap_errors : List ReapError → PassError

pub record Result : Type 0 where
  pub at : ℕ
  pub scanned : ℕ
  pub pending : ℕ
  pub reaped : List Text
  pub dry_run : Bool
  pub err : Option PassError

-- The fields of a Reaper that change.
pub record Reaper : Type 0 where
  pub first_seen : Dict Text ℕ
  pub last : Result

-- What a pass reads of its surroundings: the clock, the live Pods' workloads (`none` where they
-- cannot be determined), and the runtime.
pub record Surroundings : Type 0 where
  pub now : ℕ
  pub expected : Option (Text → Bool)
  pub runtime : Runtime

abbrev pub store : Result → Reaper → Reaper
store res r = record r { last = res }

-- `for id := range r.firstSeen { if !current[id] { delete(r.firstSeen, id) } }`
unfoldable pub forget_gone : List Orphan → Dict Text ℕ → Dict Text ℕ
forget_gone orphans first_seen = Dict.retain (contains (map Orphan.id orphans)) first_seen

pub record Partition : Type 0 where
  pub first_seen : Dict Text ℕ
  pub matured : List Orphan
  pub pending : ℕ

-- `first, seen := r.firstSeen[o.ID]`, with now for an orphan not seen before
unfoldable pub first_of_orphan : ℕ → Dict Text ℕ → Text → ℕ
first_of_orphan now first_seen id = elim (Dict.get first_seen id) [
  | none ↦ now
  | some first ↦ first
]

-- `if !seen { r.firstSeen[o.ID] = now }`
unfoldable pub note_orphan : ℕ → Dict Text ℕ → Text → Dict Text ℕ
note_orphan now first_seen id = elim (Dict.get first_seen id) [
  | none ↦ Dict.put first_seen id now
  | some first ↦ first_seen
]

-- `now.Sub(first) >= GracePeriod`; a clock set back makes the difference negative.
abbrev pub is_mature : Policy → ℕ → ℕ → Bool
is_mature p now first = leb (first + p.grace_period) now

-- The loop that parts the orphans into matured and pending ones.
unfoldable pub partition : Policy → ℕ → List Orphan → Dict Text ℕ → Partition
partition p now [] first_seen = record { first_seen = first_seen; matured = []; pending = 0 }
partition p now (o ∷ orphans) first_seen =
    let first = first_of_orphan now first_seen o.id in
    let rest = partition p now orphans (note_orphan now first_seen o.id) in
    if is_mature p now first
    then record rest { matured = o ∷ rest.matured }
    else record rest { pending = suc rest.pending }

-- `for _, id := range reaped { delete(r.firstSeen, id) }`
unfoldable pub forget_reaped : List Text → Dict Text ℕ → Dict Text ℕ
forget_reaped [] first_seen = first_seen
forget_reaped (id ∷ ids) first_seen = forget_reaped ids (Dict.remove first_seen id)

abbrev pub joined : List ReapError → Option PassError
joined [] = none
joined (e ∷ errors) = some (reap_errors (e ∷ errors))

abbrev pub failed_result : Policy → ℕ → PassError → Result
failed_result p now e = record {
  at = now;
  scanned = 0;
  pending = 0;
  reaped = [];
  dry_run = p.dry_run;
  err = some e;
}

-- reapOnce from the partition on
unfoldable pub reap_matured :
    Policy → Cleaner → Surroundings → ℕ → Partition → Reaper → Trace → Reaper × Trace
reap_matured p c s scanned parts r t =
    let base : Result = record {
      at = s.now;
      scanned = scanned;
      pending = parts.pending;
      reaped = [];
      dry_run = p.dry_run;
      err = none;
    } in
    if is_empty parts.matured
    then (record { first_seen = parts.first_seen; last = base }, t)
    else let (t', done) = reap s.runtime c (sort by_id parts.matured) p.dry_run t in
      (
        record {
          first_seen =
              if p.dry_run then parts.first_seen else forget_reaped done.ids parts.first_seen;
          last = record base { reaped = done.ids; err = joined done.errors };
        },
        t',
      )

-- reapOnce
unfoldable pub reap_once : Policy → Cleaner → Surroundings → Reaper → Trace → Reaper × Trace
reap_once p c s r t = elim s.expected [
  | none ↦ (store (failed_result p s.now expected_error) r, t)
  | some expected ↦
      let (t', scanned) = scan s.runtime expected t in
      elim scanned [
        | failure e ↦ (store (failed_result p s.now (scan_error e)) r, t')
        | answer orphans ↦
            reap_matured p c s (length orphans)
              (partition p s.now orphans (forget_gone orphans r.first_seen)) r t'
      ]
]

abbrev pub new_reaper : Reaper
new_reaper = record {
  first_seen = Dict.empty;
  last = record { at = 0; scanned = 0; pending = 0; reaped = []; dry_run = false; err = none };
}

-- Run: the passes, at whatever times and in whatever surroundings the ticks find.
unfoldable pub run : Policy → Cleaner → List Surroundings → Reaper → Trace → Reaper × Trace
run p c [] r t = (r, t)
run p c (s ∷ passes) r t = let (r', t') = reap_once p c s r t in run p c passes r' t'
