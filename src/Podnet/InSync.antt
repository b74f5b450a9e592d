-- ===== src/Podnet/InSync.antt =====
-- pkg/network/podnet: the anchor that the host has loaded follows the router's state.
use macvz.Prelude.{
  if◌then◌else◌, Text, codes_key, text_key, number_key, ◌≡◌, Option, none, some, [],
}
use macvz.Prelude.Dict.{Dict}
use macvz.Podnet.{Router, Commands, CommandRunner, flush_command, anchor_rules}
use macvz.Podnet.Steps.{Outcome}
use macvz.Podnet.Loaded.{loaded}
use macvz.Prelude.Dict

module _ (run : CommandRunner) (rt : Router) (done : Commands) where
  -- What the anchor holds after an operation without error: the rendering of the router's state while
  -- it is started. A router that was stopped leaves the anchor empty, or as it was if the flush fails;
  -- one that was not started leaves it alone.
  abbrev pub anchor_after : Router → Option Text
  anchor_after after =
      if after.started
      then some (anchor_rules after)
      else if rt.started
      then elim (run done (flush_command rt.cfg.anchor)).1 [
        | none ↦ some []
        | some e ↦ loaded run rt.cfg.anchor done
      ]
      else loaded run rt.cfg.anchor done

  unfoldable pub Synced : Outcome → Type 0
  Synced o =
      o.0 ≡ none
      → (o.1.cfg.anchor ≡ rt.cfg.anchor) × (loaded run rt.cfg.anchor o.2 ≡ anchor_after o.1)
