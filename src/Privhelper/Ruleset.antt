-- ===== src/Privhelper/Ruleset.antt =====
-- pkg/network/privhelper/policy.go: what a whole ruleset can be when the lint accepts it.
use macvz.Prelude.{
  is_some, All, Text, codes, same_text_sound, same_text_iff, codes_key, text_key, number_key, ◌==◌,
  ◌≡◌, ◌≢◌, ◌⊎◌, true, none, List, [], ◌∷◌, arith,
}
use macvz.Prelude.Strings.{split, trim_space, fields, atoi}
use macvz.Network.Parse.{parse_ip_text, net_key}
use macvz.Privhelper.Checks.{Policy}
use macvz.Privhelper.Anchor.{
  lint_rdr_targets, lint_rdr_rule, lint_rule, is_skipped, lint_lines, lint_anchor_ruleset,
}
use macvz.Privhelper.Grammar.{empty_iff, VmnetInterface, check_vmnet_interface_iff}
use macvz.Privhelper.Rules.{NatInterface, NatInterface-iff, BinatRule, binat_sound}
use macvz.Privhelper.Redirects.{RdrTargets-sound, rdr_words, RdrRule}

-- What the tests of lintRDRRule have found.
rdr_tests :
    (p : Policy) (inet proto tcp from any to cluster_ip port service_port arrow : Text)
    (ws : List Text)
    → lint_rdr_rule p
        (inet ∷ proto ∷ tcp ∷ from ∷ any ∷ to ∷ cluster_ip ∷ port ∷ service_port ∷ arrow ∷ ws)
      ≡ none
    → ((inet == codes "inet") ≡ true)
      × ((proto == codes "proto") ≡ true)
      × (((tcp == codes "tcp") ≡ true) ⊎ ((tcp == codes "udp") ≡ true))
      × ((from == codes "from") ≡ true)
      × ((any == codes "any") ≡ true)
      × ((to == codes "to") ≡ true)
      × ((port == codes "port") ≡ true)
      × ((arrow == codes "->") ≡ true)
      × (is_some (parse_ip_text cluster_ip) ≡ true)
      × (is_some (atoi service_port) ≡ true)
      × (lint_rdr_targets p ws ≡ none)
unfolding lint_rdr_rule
rdr_tests p inet proto tcp from any to cluster_ip port service_port arrow ws h = ground (arith, h)

rdr_sound : (p : Policy) (rest : List Text) → lint_rdr_rule p rest ≡ none → RdrRule p rest
unfolding lint_rdr_rule RdrRule rdr_words
rdr_sound p [] h = absurd (cc)
rdr_sound p (a ∷ []) h = absurd (cc)
rdr_sound p (a ∷ b ∷ []) h = absurd (cc)
rdr_sound p (a ∷ b ∷ c ∷ []) h = absurd (cc)
rdr_sound p (a ∷ b ∷ c ∷ d ∷ []) h = absurd (cc)
rdr_sound p (a ∷ b ∷ c ∷ d ∷ e ∷ []) h = absurd (cc)
rdr_sound p (a ∷ b ∷ c ∷ d ∷ e ∷ f ∷ []) h = absurd (cc)
rdr_sound p (a ∷ b ∷ c ∷ d ∷ e ∷ f ∷ g ∷ []) h = absurd (cc)
rdr_sound p (a ∷ b ∷ c ∷ d ∷ e ∷ f ∷ g ∷ i ∷ []) h = absurd (cc)
rdr_sound p (a ∷ b ∷ c ∷ d ∷ e ∷ f ∷ g ∷ i ∷ j ∷ []) h = absurd (cc)
rdr_sound p (inet ∷ proto ∷ tcp ∷ from ∷ any ∷ to ∷ cluster_ip ∷ port ∷ service_port ∷ arrow ∷ ws)
      h =
    let (a, b, c, d, e, f, g, i, ip, n, t) =
      rdr_tests p inet proto tcp from any to cluster_ip port service_port arrow ws h in
    (
      tcp,
      cluster_ip,
      service_port,
      ws,
      cc (
        same_text_sound inet (codes "inet") a,
        same_text_sound proto (codes "proto") b,
        same_text_sound from (codes "from") d,
        same_text_sound any (codes "any") e,
        same_text_sound to (codes "to") f,
        same_text_sound port (codes "port") g,
        same_text_sound arrow (codes "->") i,
      ),
      ground (arith, same_text_iff tcp (codes "tcp"), same_text_iff tcp (codes "udp"), c),
      ip,
      n,
      RdrTargets-sound p ws t,
    )

-- A rule of the two kinds, by its words.
unfoldable pub AnchorRule : Policy → List Text → Type 0
AnchorRule p words =
    (iface : Text) × (rest : List Text) × (((words ≡ codes "binat" ∷ codes "on" ∷ iface ∷ rest)
        × NatInterface p iface
        × BinatRule p rest)
      ⊎ ((words ≡ codes "rdr" ∷ codes "on" ∷ iface ∷ rest)
          × VmnetInterface p iface
          × RdrRule p rest))

pub lint_rule_sound :
    (p : Policy) (words : List Text) → lint_rule p words ≡ none → AnchorRule p words
unfolding lint_rule AnchorRule
lint_rule_sound p [] h = absurd (cc)
lint_rule_sound p (a ∷ []) h = absurd (cc)
lint_rule_sound p (a ∷ b ∷ []) h = absurd (cc)
lint_rule_sound p (kind ∷ on ∷ iface ∷ rest) h = (
  iface,
  rest,
  ground (
    arith,
    same_text_iff on (codes "on"),
    same_text_iff kind (codes "binat"),
    same_text_iff kind (codes "rdr"),
    NatInterface-iff p iface,
    check_vmnet_interface_iff p iface,
    binat_sound p rest,
    rdr_sound p rest,
    h,
  ),
)

-- A line of a ruleset: blank, a comment, or a rule.
unfoldable pub AnchorLine : Policy → Text → Type 0
AnchorLine p raw = (is_skipped (trim_space raw) ≡ true) ⊎ AnchorRule p (fields (trim_space raw))

lint_lines_sound :
    (p : Policy) (lines : List Text) → lint_lines p lines ≡ none → All (AnchorLine p) lines
unfolding lint_lines AnchorLine
lint_lines_sound p [] h = tt
lint_lines_sound p (raw ∷ lines) h = (
  ground (arith, lint_rule_sound p (fields (trim_space raw)), h),
  lint_lines_sound p lines (ground (arith, h)),
)

-- A ruleset that the lint accepts has only blank lines, comments and rules of the two kinds, and a
-- vmnet interface is configured. Each rule is on that interface or on any interface that is named
-- bridge and a number, a binat rule also on the mesh's. A binat rule translates an address of the
-- vmnet's networks to one of the Pods'; a redirect takes any ClusterIP, and each of its targets is
-- an address of the Pods' or of the vmnet's networks.
pub anchor_sound :
    (p : Policy) (rules : Text)
    → lint_anchor_ruleset p rules ≡ none
    → (p.vmnet_interface ≢ []) × All (AnchorLine p) (split 10 rules)
unfolding lint_anchor_ruleset
anchor_sound p rules h = (
  ground (arith, empty_iff p.vmnet_interface, h),
  lint_lines_sound p (split 10 rules) (ground (arith, h)),
)
