-- ===== src/Podnet/Steps.antt =====
-- pkg/network/podnet: the operations of the router. Each gives its error, the router and the
-- commands run.
use macvz.Prelude.{
  if◌then◌else◌, is_empty, Text, codes, codes_key, text_key, number_key, true, false, not, Option,
  none, some, List, [], ◌∷◌,
}
use macvz.Prelude.Dict.{Dict, empty, get, put, remove}
use macvz.Podnet.{
  Router, Commands, CommandRunner, validate_endpoint, forwarding_command, enable_command,
  get_route_command, load_command, flush_command, run_tolerating, remove_default_route,
  resolve_interface, anchor_rules,
}
use macvz.Podnet.Rule.{
  ServiceRule, PodnetError, no_service_key, interface_required, not_started, command_failed,
  validate_rule,
}
use macvz.Podnet.Render.{Endpoint}
use macvz.Prelude.Dict

abbrev pub Outcome : Type 0
Outcome = Option PodnetError × Router × Commands

-- loadAnchorLocked
unfoldable pub load_anchor : CommandRunner → Router → Commands → Outcome
load_anchor run rt done =
    let c = load_command rt.cfg.anchor (anchor_rules rt) in
    (
      elim (run done c).1 [ none ↦ none | some e ↦ some (command_failed (codes "load pf anchor")) ],
      rt,
      c ∷ done,
    )

-- Start, after the forwarding toggle
unfoldable pub start_filter : CommandRunner → Router → Commands → Outcome
start_filter run rt done =
    let enabled = enable_command ∷ done in
    let removed = remove_default_route run rt.cfg.interface enabled in
    let loaded = load_anchor run (record rt { started = true }) removed.1 in
    elim (run_tolerating run (codes "pf already enabled" ∷ []) enable_command done) [
      | some e ↦ (some (command_failed (codes "enable pf")), rt, enabled)
      | none ↦ elim removed.0 [ some e ↦ (some e, rt, removed.1) | none ↦ loaded ]
    ]

-- Start
unfoldable pub start : CommandRunner → Router → Commands → Outcome
start run rt done =
    let toggled = forwarding_command ∷ done in
    if is_empty rt.cfg.interface
    then (some interface_required, rt, done)
    else if rt.cfg.enable_forwarding
    then elim (run done forwarding_command).1 [
      | some e ↦ (some (command_failed (codes "enable ip forwarding")), rt, toggled)
      | none ↦ start_filter run rt toggled
    ]
    else start_filter run rt done

-- Attach, from the interface of the endpoint on
unfoldable pub attach_on : CommandRunner → Router → Endpoint → Commands → Outcome
attach_on run rt ep done =
    let removed = remove_default_route run ep.interface done in
    let loaded =
      load_anchor run (record rt { endpoints = Dict.put rt.endpoints ep.pod_key ep }) removed.1 in
    elim removed.0 [ some e ↦ (some e, rt, removed.1) | none ↦ loaded ]

abbrev pub or_else : Text → Text → Text
or_else [] b = b
or_else (c ∷ a) b = c ∷ a

-- The interface that Attach gives an endpoint, with the commands run to find it.
unfoldable pub place : CommandRunner → Router → Endpoint → Commands → Endpoint × Commands
place run rt ep done =
    if is_empty ep.interface
    then (
      record ep { interface = or_else (resolve_interface run ep.vm_ip done) rt.cfg.interface },
      get_route_command ep.vm_ip ∷ done,
    )
    else (ep, done)

-- Attach
unfoldable pub attach : CommandRunner → Router → Endpoint → Commands → Outcome
attach run rt ep done =
    let removed = remove_default_route run rt.cfg.interface done in
    let placed = place run rt ep removed.1 in
    let attached = attach_on run rt placed.0 placed.1 in
    elim (validate_endpoint ep) [
      | some e ↦ (some e, rt, done)
      | none ↦
          if not rt.started
          then (some not_started, rt, done)
          else elim removed.0 [ some e ↦ (some e, rt, removed.1) | none ↦ attached ]
    ]

-- Detach
unfoldable pub detach : CommandRunner → Router → Text → Commands → Outcome
detach run rt pod_key done =
    let dropped = record rt { endpoints = Dict.remove rt.endpoints pod_key } in
    elim (Dict.get rt.endpoints pod_key) [
      | none ↦ (none, rt, done)
      | some ep ↦ if not rt.started then (none, dropped, done) else load_anchor run dropped done
    ]

-- The loop of AttachService: the rules that have backends, unless one is invalid.
unfoldable pub kept_rules : List ServiceRule → Option PodnetError × List ServiceRule
kept_rules [] = (none, [])
kept_rules (r ∷ rules) =
    let (err, kept) = kept_rules rules in
    elim (validate_rule r) [
      | some e ↦ (some e, [])
      | none ↦ (err, if is_empty r.backends then kept else r ∷ kept)
    ]

-- AttachService
unfoldable pub attach_service :
    CommandRunner → Router → Text → List ServiceRule → Commands → Outcome
attach_service run rt key rules done =
    let (err, kept) = kept_rules rules in
    let services =
      if is_empty kept then Dict.remove rt.services key else Dict.put rt.services key kept in
    if is_empty key then (some no_service_key, rt, done) else elim err [
      | some e ↦ (some e, rt, done)
      | none ↦
          if not rt.started
          then (some not_started, rt, done)
          else load_anchor run (record rt { services = services }) done
    ]

-- DetachService
unfoldable pub detach_service : CommandRunner → Router → Text → Commands → Outcome
detach_service run rt key done =
    let dropped = record rt { services = Dict.remove rt.services key } in
    elim (Dict.get rt.services key) [
      | none ↦ (none, rt, done)
      | some rules ↦ if not rt.started then (none, dropped, done) else load_anchor run dropped done
    ]

-- Stop; a failure to flush is only logged
unfoldable pub stop : Router → Commands → Outcome
stop rt done =
    let cleared = record rt { endpoints = Dict.empty; services = Dict.empty } in
    if not rt.started
    then (none, cleared, done)
    else (none, record cleared { started = false }, flush_command rt.cfg.anchor ∷ done)
