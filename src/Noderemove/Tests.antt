-- ===== src/Noderemove/Tests.antt =====
-- A removal whose Node deletion fails, on a host without the mesh.
use macvz.Prelude.{
  codes, codes_key, text_key, number_key, String, ◌≡◌, refl, Bool, false, none, some, [], ◌∷◌,
}
use macvz.Noderemove.{deletes_node, reaps_all, flushes_anchor, Options, run_removal, removal_ok}
use macvz.Noderemove.Laws.{run_removal_best_effort}

abbrev options : Bool → Options String
options dry_run = record {
  node = "mac-1";
  dry_run = dry_run;
  nodes = some (λ t. some "unreachable");
  vms = some (λ t. (codes "macvz-a" ∷ [], none));
  pf = some (λ t. none);
  mesh = none;
}

run_removal_best_effort_example :
    ((run_removal (options false) []).0
      ≡ flushes_anchor ∷ reaps_all false ∷ deletes_node "mac-1" ∷ [])
    × (removal_ok (run_removal (options false) []).1 ≡ false)
run_removal_best_effort_example = run_removal_best_effort (options false) [] refl
