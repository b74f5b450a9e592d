-- ===== src/Provider/ProbeTests.antt =====
-- A liveness probe that fails three times in a row, and the web Pod after it.
use macvz.Prelude.{
  codes_key, text_key, number_key, ◌≡◌, refl, Bool, true, false, Option, none, some, List, [], ◌∷◌,
  arith,
}
use macvz.Provider.{PodState, pod_key}
use macvz.Prelude.Dict.{Dict, get}
use macvz.Provider.Restart.{should_restart}
use macvz.Provider.Ready.{any}
use macvz.Provider.Probe.{liveness, run_probe, fail_probe}
use macvz.Provider.Probing.{
  attempts, has_failures, is_failing, run_probe-liveness, AfterFailure, fail_probe-AfterFailure,
}
use macvz.Provider.Tests.{empty_runtime, on_host, web_pod, web_state, with_web, web_tracked}
use macvz.Prelude.Dict

abbrev rounds : List (Option Bool)
rounds =
    none ∷ some false ∷ some true ∷ some false ∷ some false ∷ none ∷ some false ∷ some true ∷ []

run_probe-liveness_example :
    any is_failing (run_probe liveness 1 3 rounds (record { successes = 0; failures = 0 }))
    ≡ has_failures 3 (attempts rounds)
run_probe-liveness_example = run_probe-liveness 3 1 rounds (omega arith) (omega arith)

fail_probe-AfterFailure_example :
    let (p', t') = fail_probe (on_host empty_runtime) (pod_key web_pod) "app" with_web [] in
    (st' : PodState) × (Dict.get p'.pods (pod_key web_pod) ≡ some st')
    × AfterFailure
        (on_host empty_runtime)
        (pod_key web_pod)
        "app"
        with_web
        []
        web_state
        web_tracked
        refl
        st'
        t'
        (should_restart web_state.restart_policy 1)
fail_probe-AfterFailure_example =
    fail_probe-AfterFailure (on_host empty_runtime) (pod_key web_pod) "app" with_web [] web_state
      web_tracked refl
