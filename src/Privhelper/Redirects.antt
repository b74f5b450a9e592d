-- ===== src/Privhelper/Redirects.antt =====
-- pkg/network/privhelper/policy.go: what a redirect can be when the lint accepts it.
use macvz.Prelude.{
  Bool-cases, Option-cases, is_some, All, Text, codes, same_text_iff, codes_key, text_key,
  number_key, ◌==◌, ◌≡◌, refl, ◌⊎◌, inl, inr, true, false, none, some, List, [], ◌∷◌, ◌++◌, map,
  arith,
}
use macvz.Prelude.Strings.{trim_suffix, atoi}
use macvz.Network.Parse.{parse_ip_text, net_key}
use macvz.Privhelper.Checks.{Policy, ip_in_set}
use macvz.Privhelper.Anchor.{
  parse_pool, parse_rdr_targets, cut_port, check_targets, is_rdr_end, lint_rdr_targets,
}

-- The targets that the tokens of a pool, or of one address, name.
unfoldable pub Targets : List Text → List Text → Type 0
Targets tokens targets =
    ((ip : Text) × (tokens ≡ ip ∷ []) × (targets ≡ ip ∷ []))
    ⊎ ((pool : List Text) × (tokens ≡ codes "{" ∷ (pool ++ codes "}" ∷ []))
        × (targets ≡ map (λ w. trim_suffix w b',') pool))

-- An address that traffic may be redirected to.
unfoldable pub Reachable : Policy → Text → Type 0
Reachable p ip = (ip_in_set ip p.pod_cidrs ≡ true) ⊎ (ip_in_set ip p.vmnet_cidrs ≡ true)

pool_sound :
    (ws targets : List Text)
    → parse_pool ws ≡ some targets
    → (pool : List Text) × (ws ≡ pool ++ codes "}" ∷ [])
      × (targets ≡ map (λ w. trim_suffix w b',') pool)
unfolding parse_pool
pool_sound [] targets h = absurd (cc)
pool_sound (w ∷ []) targets h =
    ([], ground (arith, same_text_iff w (codes "}"), h), ground (arith, h))
pool_sound (w ∷ v ∷ ws) targets h = elim (Option-cases (parse_pool (v ∷ ws))) [
  | inl e ↦ absurd (ground (arith, h, e))
  | inr (ips, e) ↦
      let (pool, f, g) = pool_sound (v ∷ ws) ips e in
      (w ∷ pool, ground (arith, f), ground (arith, h, e, g))
]

Targets-sound : (ts targets : List Text) → parse_rdr_targets ts ≡ some targets → Targets ts targets
unfolding parse_rdr_targets Targets
Targets-sound [] targets h = absurd (cc)
Targets-sound (w ∷ ws) targets h = elim (Bool-cases (w == codes "{")) [
  | inl t ↦
      let k : parse_pool ws ≡ some targets = ground (arith, h, t) in
      let (pool, f, g) = pool_sound ws targets k in
      inr (pool, ground (arith, same_text_iff w (codes "{"), t, f), g)
  | inr f ↦ inl (w, one_word w ws targets h f, ground (arith, h, f))
]
  where
    one_word :
        (w : Text) (ws targets : List Text)
        → parse_rdr_targets (w ∷ ws) ≡ some targets
        → (w == codes "{") ≡ false
        → w ∷ ws ≡ w ∷ []
    one_word w [] targets h f = refl
    one_word w (v ∷ ws) targets h f = absurd (ground (arith, h, f))

cut_port_sound :
    (ws before after : List Text)
    → cut_port ws ≡ some (before, after)
    → ws ≡ before ++ codes "port" ∷ after
unfolding cut_port
cut_port_sound [] before after h = absurd (cc)
cut_port_sound (w ∷ ws) before after h = elim (Bool-cases (w == codes "port")) [
  | inl t ↦ ground (arith, same_text_iff w (codes "port"), h, t)
  | inr f ↦ elim (Option-cases (cut_port ws)) [
    | inl e ↦ absurd (ground (arith, h, f, e))
    | inr ((b, a), e) ↦ ground (arith, h, f, e, cut_port_sound ws b a e)
  ]
]

check_targets_sound :
    (p : Policy) (targets : List Text) → check_targets p targets ≡ none → All (Reachable p) targets
unfolding check_targets Reachable
check_targets_sound p [] h = tt
check_targets_sound p (t ∷ targets) h =
    (ground (arith, h), check_targets_sound p targets (ground (arith, h)))

-- The words after the arrow: where the traffic goes, and the port there.
unfoldable pub RdrTargets : Policy → List Text → Type 0
RdrTargets p ws =
    (tokens : List Text) × (port : Text) × (end : List Text) × (targets : List Text) × (ws
      ≡ tokens ++ codes "port" ∷ port ∷ end)
    × ((end ≡ []) ⊎ (end ≡ codes "round-robin" ∷ []))
    × Targets tokens targets
    × All (Reachable p) targets

rdr_end_sound :
    (end : List Text) → is_rdr_end end ≡ true → (end ≡ []) ⊎ (end ≡ codes "round-robin" ∷ [])
rdr_end_sound [] h = inl refl
rdr_end_sound (w ∷ []) h = ground (arith, same_text_iff w (codes "round-robin"))
rdr_end_sound (w ∷ v ∷ ws) h = absurd (cc)

pub RdrTargets-sound :
    (p : Policy) (ws : List Text) → lint_rdr_targets p ws ≡ none → RdrTargets p ws
unfolding lint_rdr_targets RdrTargets
RdrTargets-sound p ws h = elim (Option-cases (cut_port ws)) [
  | inl e ↦ absurd (ground (arith, h, e))
  | inr ((tokens, []), e) ↦ absurd (ground (arith, h, e))
  | inr ((tokens, port ∷ end), e) ↦ elim (Option-cases (parse_rdr_targets tokens)) [
    | inl f ↦ absurd (ground (arith, h, e, f))
    | inr (targets, f) ↦ (
      tokens,
      port,
      end,
      targets,
      cut_port_sound ws tokens (port ∷ end) e,
      rdr_end_sound end (ground (arith, h, e, f)),
      Targets-sound tokens targets f,
      check_targets_sound p targets (ground (arith, h, e, f)),
    )
  ]
]

-- The words of a redirect after its interface.
unfoldable pub rdr_words : Text → Text → Text → List Text → List Text
rdr_words proto cluster_ip port ws =
    codes "inet"
    ∷ codes "proto"
    ∷ proto
    ∷ codes "from"
    ∷ codes "any"
    ∷ codes "to"
    ∷ cluster_ip
    ∷ codes "port"
    ∷ port
    ∷ codes "->"
    ∷ ws

unfoldable pub RdrRule : Policy → List Text → Type 0
RdrRule p rest =
    (proto : Text) × (cluster_ip : Text) × (port : Text) × (ws : List Text) × (rest
      ≡ rdr_words proto cluster_ip port ws)
    × ((proto ≡ codes "tcp") ⊎ (proto ≡ codes "udp"))
    × (is_some (parse_ip_text cluster_ip) ≡ true)
    × (is_some (atoi port) ≡ true)
    × RdrTargets p ws
