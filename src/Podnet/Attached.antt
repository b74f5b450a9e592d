-- ===== src/Podnet/Attached.antt =====
-- pkg/network/podnet/router.go: the router after an Attach, failed or not.
use macvz.Prelude.{codes, codes_key, text_key, number_key, ◌==◌, ◌≡◌, Bool, false, none, some, ◌∷◌}
use macvz.Podnet.{Router, Commands, CommandRunner, load_command, anchor_rules}
use macvz.Podnet.Rule.{PodnetError, command_failed}
use macvz.Podnet.Steps.{Outcome}
use macvz.Podnet.Render.{Endpoint}
use macvz.Prelude.Dict

abbrev pub load_failed : PodnetError
load_failed = command_failed (codes "load pf anchor")

abbrev pub is_load_failure : PodnetError → Bool
is_load_failure (command_failed what) = what == codes "load pf anchor"
is_load_failure _ = false

module _ (run : CommandRunner) (rt : Router) where
  abbrev with_endpoint : Endpoint → Router
  with_endpoint ep = record rt { endpoints = Dict.put rt.endpoints ep.pod_key ep }

  -- The load of the ruleset with the endpoint was run, and gives the error; either way the endpoint
  -- is in the router.
  unfoldable pub Recorded : Endpoint → Outcome → Type 0
  Recorded ep o =
      let load = load_command rt.cfg.anchor (anchor_rules (with_endpoint ep)) in
      (done : Commands) × (o.0 ≡ elim (run done load).1 [ none ↦ none | some e ↦ some load_failed ])
      × (o.1 ≡ with_endpoint ep)
      × (o.2 ≡ load ∷ done)

  -- Another error came before the load, and the router is as it was.
  unfoldable pub Unchanged : Outcome → Type 0
  Unchanged o = (e : PodnetError) × (o.0 ≡ some e) × (is_load_failure e ≡ false) × (o.1 ≡ rt)
