-- ===== src/Noderemove.antt =====
-- pkg/noderemove/noderemove.go: taking a node out of the pool, step by step and best-effort. The
-- dependencies are parameters that answer by the effects so far, the latest first. A step's detail
-- is only for the eye and is left out.
pub mod Laws
mod Tests
use macvz.Prelude.{
  if◌then◌else◌, Text, codes_key, text_key, number_key, String, Bool, true, false, Option, none,
  some, List, [], ◌∷◌,
}

pub data StepStatus : Type 0 where
  step_ok step_skipped step_failed : StepStatus

pub data StepName : Type 0 where
  delete_node reap_vms flush_pf mesh_down : StepName

pub data Effect : Type 0 where
  deletes_node : String → Effect
  reaps_all : Bool → Effect
  flushes_anchor removes_mesh : Effect

abbrev pub Effects : Type 0
Effects = List Effect

-- E is Go's error.
pub record StepResult (E : Type 0) : Type 0 where
  pub name : StepName
  pub status : StepStatus
  pub err : Option E

pub record Removal (E : Type 0) : Type 0 where
  pub node : String
  pub dry_run : Bool
  pub steps : List (StepResult E)

-- A dependency that is nil is none. ReapAll answers the IDs reaped, and an error.
pub record Options (E : Type 0) : Type 0 where
  pub node : String
  pub dry_run : Bool
  pub nodes : Option (Effects → Option E)
  pub vms : Option (Effects → List Text × Option E)
  pub pf : Option (Effects → Option E)
  pub mesh : Option (Effects → Option E)

abbrev pub is_failed : StepStatus → Bool
is_failed step_failed = true
is_failed _ = false

module _ {E : Type 0} where
  abbrev pub skipped : StepName → StepResult E
  skipped name = record { name = name; status = step_skipped; err = none }

  abbrev pub outcome : StepName → Option E → StepResult E
  outcome name none = record { name = name; status = step_ok; err = none }
  outcome name (some e) = record { name = name; status = step_failed; err = some e }

  -- runStep, with its action as an effect and what the dependency answers
  unfoldable pub run_step :
      StepName → Bool → Option (Effects → Option E) → Effect → Effects → Effects × StepResult E
  run_step name dry_run none action t = (t, skipped name)
  run_step name true (some dep) action t = (t, skipped name)
  run_step name false (some dep) action t = (action ∷ t, outcome name (dep t))

  -- `StepOK`, unless the run is dry
  abbrev pub reaped_outcome : Bool → Option E → StepResult E
  reaped_outcome dry_run (some e) = outcome reap_vms (some e)
  reaped_outcome true none = skipped reap_vms
  reaped_outcome false none = outcome reap_vms none

  -- runReapVMs
  unfoldable pub run_reap_vms : Options E → Effects → Effects × StepResult E
  run_reap_vms o t = elim o.vms [
    | none ↦ (t, skipped reap_vms)
    | some reaper ↦ (reaps_all o.dry_run ∷ t, reaped_outcome o.dry_run (reaper t).1)
  ]

  -- Run
  unfoldable pub run_removal : Options E → Effects → Effects × Removal E
  run_removal o t =
      let (t1, deleted) = run_step delete_node o.dry_run o.nodes (deletes_node o.node) t in
      let (t2, reaped) = run_reap_vms o t1 in
      let (t3, flushed) = run_step flush_pf o.dry_run o.pf flushes_anchor t2 in
      let (t4, down) = run_step mesh_down o.dry_run o.mesh removes_mesh t3 in
      (
        t4,
        record {
          node = o.node;
          dry_run = o.dry_run;
          steps = deleted ∷ reaped ∷ flushed ∷ down ∷ [];
        },
      )

  pub steps_ok : List (StepResult E) → Bool
  steps_ok [] = true
  steps_ok (s ∷ steps) = let rest = steps_ok steps in if is_failed s.status then false else rest

  -- Result.OK
  unfoldable pub removal_ok : Removal E → Bool
  unfolding steps_ok
  removal_ok r = steps_ok r.steps
