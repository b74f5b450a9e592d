-- ===== src/Privhelper/WgConfig.antt =====
-- pkg/network/privhelper/policy.go: the lint of a WireGuard configuration.
use macvz.Prelude.{
  if◌then◌else◌, is_empty, contains, Text, codes, codes_key, has_prefix, text_key, number_key, ◌==◌,
  Bool, ◌||◌, Option, none, some, List, [], ◌∷◌,
}
use macvz.Prelude.Strings.{split, trim_space, cut}
use macvz.Privhelper.Checks.{
  Policy, Refusal, not_a_cidr, cidr_not_configured, malformed_line, peer_not_configured, ◌>>◌,
  normalize_cidr,
}
use macvz.Network.Parse.{net_key}

-- The loop over the AllowedIPs of a line.
unfoldable pub lint_allowed_ips : Policy → List Text → Option Refusal
lint_allowed_ips p [] = none
lint_allowed_ips p (raw ∷ cidrs) =
    let rest = lint_allowed_ips p cidrs in
    elim (normalize_cidr (trim_space raw)) [
      | none ↦ some not_a_cidr
      | some norm ↦ if contains p.route_cidrs norm then rest else some cidr_not_configured
    ]

-- The body of the loop, on a line that is neither blank, a comment nor a section.
unfoldable pub lint_setting : Policy → Text → Option Refusal
unfolding lint_allowed_ips
lint_setting p line = elim (cut b'=' line) [
  | none ↦ some malformed_line
  | some (raw_key, raw_val) ↦
      let key = trim_space raw_key in
      let val = trim_space raw_val in
      if key == codes "PublicKey"
      then if contains p.peer_public_keys val then none else some peer_not_configured
      else if key == codes "AllowedIPs"
      then lint_allowed_ips p (split b',' val)
      else none
]

abbrev pub is_plain : Text → Bool
is_plain line = is_empty line || has_prefix line (codes "#") || has_prefix line (codes "[")

unfoldable pub lint_config_lines : Policy → List Text → Option Refusal
unfolding lint_setting
lint_config_lines p [] = none
lint_config_lines p (raw ∷ lines) =
    let rest = lint_config_lines p lines in
    let line = trim_space raw in if is_plain line then rest else (lint_setting p line) >> rest

-- lintWireGuardConfig
unfoldable pub lint_wireguard_config : Policy → Text → Option Refusal
unfolding lint_config_lines
lint_wireguard_config p cfg = lint_config_lines p (split 10 cfg)
