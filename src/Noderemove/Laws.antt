-- ===== src/Noderemove/Laws.antt =====
-- What a removal does, whatever its steps answer.
use macvz.Prelude.{
  Option-cases, is_some, is_none, Text, codes_key, text_key, number_key, ◌≡◌, refl, inl, inr, Bool,
  true, false, ◌&&◌, Option, none, some, List, ◌∷◌, arith,
}
use macvz.Noderemove.{
  StepName, delete_node, flush_pf, mesh_down, Effect, deletes_node, reaps_all, flushes_anchor,
  removes_mesh, Effects, Options, is_failed, skipped, run_step, reaped_outcome, run_reap_vms,
  run_removal, steps_ok, removal_ok,
}

-- The effect of a dependency that is given.
abbrev pub present : {A : Type 0} → Option A → Effect → Effects → Effects
present none action t = t
present (some a) action t = action ∷ t

module _ {E : Type 0} where
  run_step-present :
      (name : StepName) (dep : Option (Effects → Option E)) (action : Effect) (t : Effects)
      → (run_step name false dep action t).0 ≡ present dep action t
  unfolding run_step
  run_step-present name none action t = refl
  run_step-present name (some d) action t = refl

  run_step_dry :
      (name : StepName) (dep : Option (Effects → Option E)) (action : Effect) (t : Effects)
      → run_step name true dep action t ≡ (t, skipped name)
  unfolding run_step
  run_step_dry name none action t = refl
  run_step_dry name (some d) action t = refl

  run_reap_vms-present :
      (o : Options E) (t : Effects) → (run_reap_vms o t).0 ≡ present o.vms (reaps_all o.dry_run) t
  unfolding run_reap_vms
  run_reap_vms-present o t = elim (Option-cases o.vms) [
    | inl e ↦ rw (e, run_reap_vms) refl
    | inr (reaper, e) ↦ rw (e, run_reap_vms) refl
  ]

  -- The error that a dependency answers after the effects so far.
  abbrev pub error_of : Option (Effects → Option E) → Effects → Option E
  error_of none t = none
  error_of (some dep) t = dep t

  abbrev pub reap_error_of : Option (Effects → List Text × Option E) → Effects → Option E
  reap_error_of none t = none
  reap_error_of (some reaper) t = (reaper t).1

  run_step-fails :
      (name : StepName) (dep : Option (Effects → Option E)) (action : Effect) (t : Effects)
      → is_failed (run_step name false dep action t).1.status ≡ is_some (error_of dep t)
  unfolding run_step
  run_step-fails name none action t = refl
  run_step-fails name (some dep) action t = elim (Option-cases (dep t)) [
    | inl e ↦ rw (e, run_step) refl
    | inr (x, e) ↦ rw (e, run_step) refl
  ]

  reaped_outcome-fails :
      (b : Bool) (x : Option E) → is_failed (reaped_outcome b x).status ≡ is_some x
  reaped_outcome-fails true none = refl
  reaped_outcome-fails true (some e) = refl
  reaped_outcome-fails false none = refl
  reaped_outcome-fails false (some e) = refl

  run_reap_vms-fails :
      (o : Options E) (t : Effects)
      → is_failed (run_reap_vms o t).1.status ≡ is_some (reap_error_of o.vms t)
  unfolding run_reap_vms
  run_reap_vms-fails o t = elim (Option-cases o.vms) [
    | inl e ↦ rw (e, run_reap_vms) refl
    | inr (reaper, e) ↦ rw (e, run_reap_vms) (reaped_outcome-fails o.dry_run (reaper t).1)
  ]

  run_step_dry-fails :
      (name : StepName) (dep : Option (Effects → Option E)) (action : Effect) (t : Effects)
      → is_failed (run_step name true dep action t).1.status ≡ false
  run_step_dry-fails name dep action t = rw (run_step_dry name dep action t) refl

module _ {E : Type 0} (o : Options E) (t : Effects) where
  -- The effects before each step of a removal that is not dry.
  abbrev pub after_delete : Effects
  after_delete = present o.nodes (deletes_node o.node) t

  abbrev pub after_reap : Effects
  after_reap = present o.vms (reaps_all false) after_delete

  abbrev pub after_flush : Effects
  after_flush = present o.pf flushes_anchor after_reap

  -- A removal that is not dry takes every step whose dependency is given, in the order delete-node,
  -- reap-vms, flush-pf, mesh-down, whatever the steps answer; and it is OK exactly if no dependency,
  -- asked after those effects, answered an error.
  pub run_removal_best_effort :
      o.dry_run ≡ false
      → ((run_removal o t).0 ≡ present o.mesh removes_mesh after_flush)
        × (removal_ok (run_removal o t).1 ≡ (
            is_none (error_of o.nodes t)
            && is_none (reap_error_of o.vms after_delete)
            && is_none (error_of o.pf after_reap)
            && is_none (error_of o.mesh after_flush)))
  unfolding run_removal removal_ok steps_ok
  run_removal_best_effort d = ground (
    arith,
    d,
    run_step-present delete_node o.nodes (deletes_node o.node) t,
    run_reap_vms-present o after_delete,
    run_step-present flush_pf o.pf flushes_anchor after_reap,
    run_step-present mesh_down o.mesh removes_mesh after_flush,
    run_step-fails delete_node o.nodes (deletes_node o.node) t,
    run_reap_vms-fails o after_delete,
    run_step-fails flush_pf o.pf flushes_anchor after_reap,
    run_step-fails mesh_down o.mesh removes_mesh after_flush,
  )

  -- A dry run has no effect but to ask the reaper, if there is one, for its own dry run, and it is
  -- OK exactly if the reaper answered no error.
  pub run_removal_dry :
      o.dry_run ≡ true
      → ((run_removal o t).0 ≡ present o.vms (reaps_all true) t)
        × (removal_ok (run_removal o t).1 ≡ is_none (reap_error_of o.vms t))
  unfolding run_removal removal_ok steps_ok
  run_removal_dry d = ground (
    arith,
    d,
    run_step_dry delete_node o.nodes (deletes_node o.node) t,
    run_reap_vms-present o t,
    run_reap_vms-fails o t,
    run_step_dry flush_pf o.pf flushes_anchor (present o.vms (reaps_all true) t),
    run_step_dry mesh_down o.mesh removes_mesh (present o.vms (reaps_all true) t),
  )
