-- ===== src/Privhelper/Rules.antt =====
-- pkg/network/privhelper/policy.go: what an anchor's rule can be when the lint accepts it.
use macvz.Prelude.{
  Bool-cases, Option-cases, Text, codes, same_text_iff, codes_key, text_key, number_key, ◌==◌, ◌≡◌,
  ◌≢◌, ◌↔◌, ◌⊎◌, inl, inr, true, none, List, [], ◌∷◌, arith,
}
use macvz.Network.Parse.{net_key}
use macvz.Privhelper.Checks.{Policy, check_vmnet_interface, check_pod_nat_interface, ip_in_set}
use macvz.Privhelper.Anchor.{lint_binat_tail, lint_binat_rule}
use macvz.Privhelper.Grammar.{empty_iff, VmnetInterface, check_vmnet_interface_iff}

-- An interface that a binat rule may stand on.
unfoldable pub NatInterface : Policy → Text → Type 0
NatInterface p iface =
    VmnetInterface p iface ⊎ ((p.mesh_interface ≢ []) × (iface ≡ p.mesh_interface))

pub NatInterface-iff :
    (p : Policy) (iface : Text) → (check_pod_nat_interface p iface ≡ none) ↔ NatInterface p iface
unfolding check_pod_nat_interface NatInterface
NatInterface-iff p iface = elim (Option-cases (check_vmnet_interface p iface)) [
  | inl e ↦ ground (
    arith,
    check_vmnet_interface_iff p iface,
    empty_iff p.mesh_interface,
    same_text_iff iface p.mesh_interface,
    e,
  )
  | inr (r, e) ↦ ground (
    arith,
    check_vmnet_interface_iff p iface,
    empty_iff p.mesh_interface,
    same_text_iff iface p.mesh_interface,
    e,
  )
]

-- The words of a binat rule after its interface: the address of a VM, and that of its Pod.
unfoldable pub binat_words : Text → Text → List Text
binat_words vm_ip pod_ip =
    codes "from" ∷ vm_ip ∷ codes "to" ∷ codes "any" ∷ codes "->" ∷ pod_ip ∷ []

unfoldable pub BinatRule : Policy → List Text → Type 0
BinatRule p rest =
    (vm_ip : Text) × (pod_ip : Text) × ((rest ≡ binat_words vm_ip pod_ip)
      ⊎ (rest ≡ codes "inet" ∷ binat_words vm_ip pod_ip))
    × (ip_in_set vm_ip p.vmnet_cidrs ≡ true)
    × (ip_in_set pod_ip p.pod_cidrs ≡ true)

binat_six :
    (p : Policy) (from vm_ip to any arrow pod_ip : Text)
    → let ws : List Text = from ∷ vm_ip ∷ to ∷ any ∷ arrow ∷ pod_ip ∷ [] in
      lint_binat_tail p ws ≡ none
      → (ws ≡ binat_words vm_ip pod_ip)
        × (ip_in_set vm_ip p.vmnet_cidrs ≡ true)
        × (ip_in_set pod_ip p.pod_cidrs ≡ true)
unfolding lint_binat_tail binat_words
binat_six p from vm_ip to any arrow pod_ip h = ground (
  arith,
  same_text_iff from (codes "from"),
  same_text_iff to (codes "to"),
  same_text_iff any (codes "any"),
  same_text_iff arrow (codes "->"),
  h,
)

binat_tail_sound :
    (p : Policy) (ws : List Text)
    → lint_binat_tail p ws ≡ none
    → (vm_ip : Text) × (pod_ip : Text) × (ws ≡ binat_words vm_ip pod_ip)
      × (ip_in_set vm_ip p.vmnet_cidrs ≡ true)
      × (ip_in_set pod_ip p.pod_cidrs ≡ true)
unfolding lint_binat_tail binat_words
binat_tail_sound p [] h = absurd (cc)
binat_tail_sound p (a ∷ []) h = absurd (cc)
binat_tail_sound p (a ∷ b ∷ []) h = absurd (cc)
binat_tail_sound p (a ∷ b ∷ c ∷ []) h = absurd (cc)
binat_tail_sound p (a ∷ b ∷ c ∷ d ∷ []) h = absurd (cc)
binat_tail_sound p (a ∷ b ∷ c ∷ d ∷ e ∷ []) h = absurd (cc)
binat_tail_sound p (from ∷ vm_ip ∷ to ∷ any ∷ arrow ∷ pod_ip ∷ []) h =
    let (e, i, j) = binat_six p from vm_ip to any arrow pod_ip h in (vm_ip, pod_ip, e, i, j)
binat_tail_sound p (a ∷ b ∷ c ∷ d ∷ e ∷ f ∷ g ∷ ws) h = absurd (cc)

pub binat_sound : (p : Policy) (rest : List Text) → lint_binat_rule p rest ≡ none → BinatRule p rest
unfolding BinatRule
binat_sound p [] h = let (v, q, e, i, j) = binat_tail_sound p [] h in (v, q, inl e, i, j)
binat_sound p (w ∷ ws) h = elim (Bool-cases (w == codes "inet")) [
  | inl t ↦
      let (v, q, e, i, j) = binat_tail_sound p ws (ground (arith, h, t)) in
      (v, q, inr (ground (arith, same_text_iff w (codes "inet"), t, e)), i, j)
  | inr f ↦
      let (v, q, e, i, j) = binat_tail_sound p (w ∷ ws) (ground (arith, h, f)) in
      (v, q, inl e, i, j)
]
