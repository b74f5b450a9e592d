-- ===== src/Privhelper/Anchor.antt =====
-- pkg/network/privhelper/policy.go: the lint of a pf ruleset.
use macvz.Prelude.{
  ltb, if◌then◌else◌, is_none, length, is_empty, Text, codes, codes_key, has_prefix, text_key,
  number_key, ◌==◌, Bool, true, false, not, ◌&&◌, ◌||◌, Option, none, some, List, [], ◌∷◌,
}
use macvz.Prelude.Strings.{split, trim_space, fields, trim_suffix, atoi}
use macvz.Network.Parse.{parse_ip_text, net_key}
use macvz.Privhelper.Checks.{
  Policy, Refusal, no_vmnet_interface, not_a_rule, not_a_binat_rule, not_an_rdr_rule, not_an_ip,
  not_a_port, no_target_port, trailing_tokens, malformed_target, target_outside_cidrs, ◌>>◌,
  check_vmnet_interface, check_pod_nat_interface, ip_in_set, check_ip_in_set,
}

-- The tokens of a binat rule after its interface: `inet` is optional.
abbrev pub skip_inet : List Text → List Text
skip_inet [] = []
skip_inet (w ∷ ws) = if w == codes "inet" then ws else w ∷ ws

-- The tokens from `from` on.
unfoldable pub lint_binat_tail : Policy → List Text → Option Refusal
lint_binat_tail p (from ∷ vm_ip ∷ to ∷ any ∷ arrow ∷ pod_ip ∷ []) =
    if not (from == codes "from")
      || not (to == codes "to")
      || not (any == codes "any")
      || not (arrow == codes "->")
    then some not_a_binat_rule
    else (check_ip_in_set vm_ip p.vmnet_cidrs) >> (check_ip_in_set pod_ip p.pod_cidrs)
lint_binat_tail p _ = some not_a_binat_rule

-- lintBinatRule, on the tokens after the interface
abbrev pub lint_binat_rule : Policy → List Text → Option Refusal
lint_binat_rule p rest = lint_binat_tail p (skip_inet rest)

-- The loop of parseRDRTargets over a pool, up to its brace.
unfoldable pub parse_pool : List Text → Option (List Text)
parse_pool [] = none
parse_pool (w ∷ []) = if w == codes "}" then some [] else none
parse_pool (w ∷ v ∷ ws) =
    let rest = parse_pool (v ∷ ws) in
    let ip = trim_suffix w b',' in
    if is_empty ip || is_none (parse_ip_text ip)
    then none
    else elim rest [ none ↦ none | some ips ↦ some (ip ∷ ips) ]

-- parseRDRTargets
unfoldable pub parse_rdr_targets : List Text → Option (List Text)
unfolding parse_pool
parse_rdr_targets [] = none
parse_rdr_targets (w ∷ ws) =
    if not (w == codes "{")
    then if not (is_empty ws) || is_none (parse_ip_text w) then none else some (w ∷ [])
    else if ltb (length ws) 2
    then none
    else parse_pool ws

-- The tokens before the first `port`, and those after it.
unfoldable pub cut_port : List Text → Option (List Text × List Text)
cut_port [] = none
cut_port (w ∷ ws) =
    let rest = cut_port ws in
    if w == codes "port"
    then some ([], ws)
    else elim rest [ none ↦ none | some (before, after) ↦ some (w ∷ before, after) ]

-- The loop over the targets.
unfoldable pub check_targets : Policy → List Text → Option Refusal
check_targets p [] = none
check_targets p (target ∷ targets) =
    let rest = check_targets p targets in
    if ip_in_set target p.pod_cidrs || ip_in_set target p.vmnet_cidrs
    then rest
    else some target_outside_cidrs

-- The tokens after the target port.
abbrev pub is_rdr_end : List Text → Bool
is_rdr_end [] = true
is_rdr_end (w ∷ []) = w == codes "round-robin"
is_rdr_end _ = false

-- The tokens after the arrow: the targets, and their port.
unfoldable pub lint_rdr_targets : Policy → List Text → Option Refusal
unfolding parse_rdr_targets cut_port check_targets
lint_rdr_targets p ws = elim (cut_port ws) [
  | none ↦ some no_target_port
  | some (before, []) ↦ some no_target_port
  | some (before, port ∷ after) ↦
      if is_none (atoi port)
      then some not_a_port
      else if not (is_rdr_end after)
      then some trailing_tokens
      else elim (parse_rdr_targets before) [
        | none ↦ some malformed_target
        | some targets ↦ check_targets p targets
      ]
]

-- lintRDRRule, on the tokens after the interface
unfoldable pub lint_rdr_rule : Policy → List Text → Option Refusal
unfolding lint_rdr_targets
lint_rdr_rule p
      (inet ∷ proto ∷ tcp ∷ from ∷ any ∷ to ∷ cluster_ip ∷ port ∷ service_port ∷ arrow ∷ ws) =
    if ltb (length ws) 3
      || not (inet == codes "inet")
      || not (proto == codes "proto")
      || (not (tcp == codes "tcp") && not (tcp == codes "udp"))
      || not (from == codes "from")
      || not (any == codes "any")
      || not (to == codes "to")
      || not (port == codes "port")
      || not (arrow == codes "->")
    then some not_an_rdr_rule
    else if is_none (parse_ip_text cluster_ip)
    then some not_an_ip
    else if is_none (atoi service_port)
    then some not_a_port
    else lint_rdr_targets p ws
lint_rdr_rule p _ = some not_an_rdr_rule

-- The body of lintAnchorRuleset's loop, on the tokens of a line.
unfoldable pub lint_rule : Policy → List Text → Option Refusal
unfolding lint_binat_tail lint_rdr_rule
lint_rule p (kind ∷ on ∷ iface ∷ rest) =
    if not (on == codes "on")
    then some not_a_rule
    else if kind == codes "binat"
    then (check_pod_nat_interface p iface) >> (lint_binat_rule p rest)
    else if kind == codes "rdr"
    then (check_vmnet_interface p iface) >> (lint_rdr_rule p rest)
    else some not_a_rule
lint_rule p _ = some not_a_rule

-- A line that the loop skips: blank, or a comment.
abbrev pub is_skipped : Text → Bool
is_skipped line = is_empty line || has_prefix line (codes "#")

unfoldable pub lint_lines : Policy → List Text → Option Refusal
unfolding lint_rule
lint_lines p [] = none
lint_lines p (raw ∷ lines) =
    let rest = lint_lines p lines in
    let line = trim_space raw in
    if is_skipped line then rest else (lint_rule p (fields line)) >> rest

-- lintAnchorRuleset
unfoldable pub lint_anchor_ruleset : Policy → Text → Option Refusal
unfolding lint_lines
lint_anchor_ruleset p rules =
    if is_empty p.vmnet_interface then some no_vmnet_interface else lint_lines p (split 10 rules)
