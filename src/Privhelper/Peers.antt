-- ===== src/Privhelper/Peers.antt =====
-- pkg/network/privhelper/policy.go: which WireGuard configurations the lint accepts.
use macvz.Prelude.{
  Option-cases, All, contains, Text, codes, same_text_iff, codes_key, text_key, number_key, ◌≡◌,
  refl, ◌↔◌, ◌⊎◌, inl, inr, true, none, some, List, [], ◌∷◌, arith,
}
use macvz.Prelude.Strings.{split, trim_space, cut}
use macvz.Network.Parse.{NetText, net_key}
use macvz.Privhelper.Checks.{Policy, normalize_cidr}
use macvz.Privhelper.WgConfig.{
  lint_allowed_ips, lint_setting, is_plain, lint_config_lines, lint_wireguard_config,
}

-- A CIDR that the node routes to, as a text with white space around it.
unfoldable pub Routed : Policy → Text → Type 0
Routed p raw =
    (norm : NetText) × (normalize_cidr (trim_space raw) ≡ some norm)
    × (contains p.route_cidrs norm ≡ true)

-- A setting of the file: the key of a peer and its networks are the policy's.
unfoldable pub Setting : Policy → Text → Type 0
Setting p line =
    (key : Text) × (val : Text) × (cut b'=' line ≡ some (key, val))
    × ((trim_space key ≡ codes "PublicKey") → contains p.peer_public_keys (trim_space val) ≡ true)
    × ((trim_space key ≡ codes "AllowedIPs") → All (Routed p) (split b',' (trim_space val)))

unfoldable pub ConfigLine : Policy → Text → Type 0
ConfigLine p raw = (is_plain (trim_space raw) ≡ true) ⊎ Setting p (trim_space raw)

allowed_ips_sound :
    (p : Policy) (cidrs : List Text) → lint_allowed_ips p cidrs ≡ none → All (Routed p) cidrs
unfolding lint_allowed_ips Routed
allowed_ips_sound p [] h = tt
allowed_ips_sound p (raw ∷ cidrs) h = elim (Option-cases (normalize_cidr (trim_space raw))) [
  | inl e ↦ absurd (ground (arith, h, e))
  | inr (norm, e) ↦
      ((norm, e, ground (arith, h, e)), allowed_ips_sound p cidrs (ground (arith, h, e)))
]

pub allowed_ips_complete :
    (p : Policy) (cidrs : List Text) → All (Routed p) cidrs → lint_allowed_ips p cidrs ≡ none
unfolding lint_allowed_ips Routed
allowed_ips_complete p [] h = refl
allowed_ips_complete p (raw ∷ cidrs) h =
    let (norm, e, c) = h.0 in ground (arith, e, c, allowed_ips_complete p cidrs h.1)

Setting-sound : (p : Policy) (line : Text) → lint_setting p line ≡ none → Setting p line
unfolding lint_setting Setting
Setting-sound p line h = elim (Option-cases (cut b'=' line)) [
  | inl e ↦ absurd (ground (arith, h, e))
  | inr ((key, val), e) ↦ (
    key,
    val,
    e,
    λ k. ground (arith, h, e, same_text_iff (trim_space key) (codes "PublicKey")),
    λ k. allowed_ips_sound p (split b',' (trim_space val)) (
        ground (
          arith,
          h,
          e,
          same_text_iff (trim_space key) (codes "PublicKey"),
          same_text_iff (trim_space key) (codes "AllowedIPs"),
        )),
  )
]

Setting-complete : (p : Policy) (line : Text) → Setting p line → lint_setting p line ≡ none
unfolding lint_setting Setting
Setting-complete p line (key, val, e, k, a) = ground (
  arith,
  e,
  k,
  same_text_iff (trim_space key) (codes "PublicKey"),
  same_text_iff (trim_space key) (codes "AllowedIPs"),
  allowed_ips_complete p (split b',' (trim_space val)),
  a,
)

config_lines_iff :
    (p : Policy) (lines : List Text) → (lint_config_lines p lines ≡ none) ↔ All (ConfigLine p) lines
unfolding lint_config_lines ConfigLine
config_lines_iff p [] = (λ h. tt, λ h. refl)
config_lines_iff p (raw ∷ lines) = (
  λ h. (
    ground (arith, Setting-sound p (trim_space raw), h),
    (config_lines_iff p lines).0 (ground (arith, h)),
  ),
  λ h. ground (arith, Setting-complete p (trim_space raw), (config_lines_iff p lines).1 h.1, h.0),
)

-- The lint accepts a configuration exactly when each line is blank, a comment, a section or a
-- setting, and each setting of a peer's key or networks names those of the policy.
pub lint_wireguard_config_iff :
    (p : Policy) (cfg : Text)
    → (lint_wireguard_config p cfg ≡ none) ↔ All (ConfigLine p) (split 10 cfg)
unfolding lint_wireguard_config
lint_wireguard_config_iff p cfg = config_lines_iff p (split 10 cfg)
