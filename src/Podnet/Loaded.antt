-- ===== src/Podnet/Loaded.antt =====
-- pkg/network/podnet: what the host's anchor holds after a run of commands, and the operations.
use macvz.Prelude.{
  if◌then◌else◌, Text, codes, codes_key, text_key, number_key, ◌==◌, ◌≡◌, true, ◌&&◌, Option, none,
  some, List, [], ◌∷◌,
}
use macvz.Privhelper.Checks.{Request, args_equal}
use macvz.Podnet.{Router, Commands, CommandRunner, anchor_rules}
use macvz.Podnet.Rule.{ServiceRule}
use macvz.Podnet.Render.{Endpoint}
use macvz.Podnet.Steps.{Outcome, start, attach, detach, attach_service, detach_service, stop}

-- A request of the anchor: what it holds afterwards.
unfoldable pub anchor_load : Text → Request → Option Text
anchor_load anchor c =
    if c.name == codes "pfctl"
      && args_equal c.args (codes "-a" ∷ anchor ∷ codes "-f" ∷ codes "-" ∷ [])
    then some c.stdin
    else if c.name == codes "pfctl"
        && args_equal c.args (codes "-a" ∷ anchor ∷ codes "-F" ∷ codes "all" ∷ [])
    then some []
    else none

-- What the anchor holds after the commands: the latest load or flush that succeeded.
unfoldable pub loaded : CommandRunner → Text → Commands → Option Text
unfolding anchor_load
loaded run anchor [] = none
loaded run anchor (c ∷ done) =
    let before = loaded run anchor done in
    elim (run done c).1 [
      | some e ↦ before
      | none ↦ elim (anchor_load anchor c) [ none ↦ before | some rules ↦ some rules ]
    ]

-- A started router's anchor holds the rendering of its state.
unfoldable pub InSync : CommandRunner → Router → Commands → Type 0
InSync run rt done = rt.started ≡ true → loaded run rt.cfg.anchor done ≡ some (anchor_rules rt)

pub data Op : Type 0 where
  op_start op_stop : Op
  op_attach : Endpoint → Op
  op_detach : Text → Op
  op_attach_service : Text → List ServiceRule → Op
  op_detach_service : Text → Op

-- The methods of a Router that change it.
unfoldable pub apply : CommandRunner → Op → Router → Commands → Outcome
apply run op_start rt done = start run rt done
apply run op_stop rt done = stop rt done
apply run (op_attach ep) rt done = attach run rt ep done
apply run (op_detach key) rt done = detach run rt key done
apply run (op_attach_service key rules) rt done = attach_service run rt key rules done
apply run (op_detach_service key) rt done = detach_service run rt key done
