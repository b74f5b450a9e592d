-- ===== src/Privhelper/Routes.antt =====
-- pkg/network/privhelper/policy.go: the grammar of the requests on routes and on the mesh interface.
use macvz.Prelude.{
  Option-cases, some_inj, contains, Text, codes, same_text_iff, codes_key, text_key, number_key, ℕ,
  ◌<◌, ◌≡◌, refl, ◌↔◌, ◌⊎◌, inl, inr, true, Option, none, some, List, [], ◌∷◌, arith,
}
use macvz.Prelude.Strings.{cut, ℤ, pos, negsuc, atoi}
use macvz.Network.Parse.{parse_cidr_text, NetText, net_key}
use macvz.Privhelper.{
  check_route_cidr, validate_route_change, validate_route, check_mtu, validate_link,
  validate_ifconfig,
}
use macvz.Privhelper.Checks.{Policy, Request, ip_in_set, ip_equal, normalize_cidr}
use macvz.Privhelper.Grammar.{
  empty_iff, MeshInterface, VmnetInterface, check_mesh_interface_iff, check_vmnet_interface_iff,
}

-- A target that the node routes to.
unfoldable pub RoutedCidr : Policy → Text → Type 0
RoutedCidr p target =
    (norm : NetText) × (normalize_cidr target ≡ some norm) × (contains p.route_cidrs norm ≡ true)

route_cidr_iff :
    (p : Policy) (target : Text) → (check_route_cidr p target ≡ none) ↔ RoutedCidr p target
unfolding check_route_cidr RoutedCidr
route_cidr_iff p target = elim (Option-cases (normalize_cidr target)) [
  | inl e ↦ rw e (ground arith)
  | inr (norm, e) ↦ rw e (λ h. (norm, refl, ground arith), λ (m, f, c). ground (arith, some_inj f))
]

unfoldable pub RouteArgs : Policy → List Text → Type 0
RouteArgs p (n ∷ get ∷ ip ∷ []) =
    (n ≡ codes "-n") × (get ≡ codes "get") × (ip_in_set ip p.vmnet_cidrs ≡ true)
RouteArgs p (q ∷ n ∷ op ∷ family ∷ target ∷ scope ∷ iface ∷ []) =
    (q ≡ codes "-q")
    × (n ≡ codes "-n")
    × (((op ≡ codes "delete")
          × (family ≡ codes "-inet")
          × (target ≡ codes "default")
          × (scope ≡ codes "-ifscope")
          × VmnetInterface p iface)
        ⊎ (((op ≡ codes "add") ⊎ (op ≡ codes "delete"))
            × ((family ≡ codes "-inet") ⊎ (family ≡ codes "-inet6"))
            × (scope ≡ codes "-interface")
            × MeshInterface p iface
            × RoutedCidr p target))
RouteArgs p _ = ⊥

default_not_cidr : normalize_cidr (codes "default") ≡ none
unfolding normalize_cidr parse_cidr_text cut
default_not_cidr = refl

default_not_routed :
    (p : Policy) (target : Text) → target ≡ codes "default" → ¬ (RoutedCidr p target)
unfolding RoutedCidr
default_not_routed p target e (norm, f, c) = cc default_not_cidr

route_change_iff :
    (p : Policy) (q n op family target scope iface : Text)
    → (validate_route_change p (q ∷ n ∷ op ∷ family ∷ target ∷ scope ∷ iface ∷ []) ≡ none)
      ↔ RouteArgs p (q ∷ n ∷ op ∷ family ∷ target ∷ scope ∷ iface ∷ [])
unfolding validate_route_change RouteArgs
route_change_iff p q n op family target scope iface = ground (
  arith,
  same_text_iff q (codes "-q"),
  same_text_iff n (codes "-n"),
  same_text_iff op (codes "add"),
  same_text_iff op (codes "delete"),
  same_text_iff family (codes "-inet"),
  same_text_iff family (codes "-inet6"),
  same_text_iff target (codes "default"),
  same_text_iff scope (codes "-ifscope"),
  same_text_iff scope (codes "-interface"),
  check_mesh_interface_iff p iface,
  check_vmnet_interface_iff p iface,
  route_cidr_iff p target,
  default_not_routed p target,
)

unfoldable pub Route : Policy → Request → Type 0
Route p req = (req.stdin ≡ []) × RouteArgs p req.args

Route-seven :
    (p : Policy) (name q n op family target scope iface stdin : Text)
    → let args : List Text = q ∷ n ∷ op ∷ family ∷ target ∷ scope ∷ iface ∷ [] in
      let req : Request = record { name = name; args = args; stdin = stdin } in
      (validate_route p req ≡ none) ↔ Route p req
unfolding validate_route Route
Route-seven p name q n op family target scope iface stdin =
    ground (arith, empty_iff stdin, route_change_iff p q n op family target scope iface)

pub Route-iff :
    (p : Policy) (name : Text) (args : List Text) (stdin : Text)
    → let req : Request = record { name = name; args = args; stdin = stdin } in
      (validate_route p req ≡ none) ↔ Route p req
unfolding validate_route validate_route_change Route RouteArgs
Route-iff p name [] stdin = ground (arith, empty_iff stdin)
Route-iff p name (a ∷ []) stdin = ground (arith, empty_iff stdin)
Route-iff p name (a ∷ b ∷ []) stdin = ground (arith, empty_iff stdin)
Route-iff p name (n ∷ get ∷ ip ∷ []) stdin =
    ground (arith, empty_iff stdin, same_text_iff n (codes "-n"), same_text_iff get (codes "get"))
Route-iff p name (a ∷ b ∷ c ∷ d ∷ []) stdin = ground (arith, empty_iff stdin)
Route-iff p name (a ∷ b ∷ c ∷ d ∷ e ∷ []) stdin = ground (arith, empty_iff stdin)
Route-iff p name (a ∷ b ∷ c ∷ d ∷ e ∷ f ∷ []) stdin = ground (arith, empty_iff stdin)
Route-iff p name (q ∷ n ∷ op ∷ family ∷ target ∷ scope ∷ iface ∷ []) stdin =
    Route-seven p name q n op family target scope iface stdin
Route-iff p name (a ∷ b ∷ c ∷ d ∷ e ∷ f ∷ g ∷ h ∷ args) stdin = ground (arith, empty_iff stdin)

-- A positive size, the configured one if there is one.
unfoldable pub ValidMtu : Policy → Option ℤ → Type 0
ValidMtu p size = (n : ℕ) × (size ≡ some (pos n)) × (0 < n) × ((p.mtu ≡ 0) ⊎ (n ≡ p.mtu))

pos_inj : {m n : ℕ} → some (pos m) ≡ some (pos n) → m ≡ n
pos_inj e = cc

mtu_iff : (p : Policy) (size : Option ℤ) → (check_mtu p size ≡ none) ↔ ValidMtu p size
unfolding check_mtu ValidMtu
mtu_iff p none = (λ h. absurd (cc), λ (n, e, l, c). absurd (cc))
mtu_iff p (some (negsuc n)) = (λ h. absurd (cc), λ (m, e, l, c). absurd (cc))
mtu_iff p (some (pos n)) =
    (λ h. (n, refl, ground arith, ground arith), λ (m, e, l, c). ground (arith, pos_inj e))

-- The requests that set up the mesh interface.
unfoldable pub LinkArgs : Policy → List Text → Type 0
LinkArgs p (inet ∷ local ∷ remote ∷ alias ∷ []) =
    (inet ≡ codes "inet")
    × (alias ≡ codes "alias")
    × (ip_equal local p.mesh_address_ip ≡ true)
    × (ip_equal remote p.mesh_address_ip ≡ true)
LinkArgs p (mtu ∷ size ∷ []) = (mtu ≡ codes "mtu") × ValidMtu p (atoi size)
LinkArgs p (state ∷ []) = (state ≡ codes "up") ⊎ (state ≡ codes "down") ⊎ (state ≡ codes "destroy")
LinkArgs p _ = ⊥

link_iff : (p : Policy) (args : List Text) → (validate_link p args ≡ none) ↔ LinkArgs p args
unfolding validate_link LinkArgs
link_iff p [] = ground arith
link_iff p (state ∷ []) = ground (
  arith,
  same_text_iff state (codes "up"),
  same_text_iff state (codes "down"),
  same_text_iff state (codes "destroy"),
)
link_iff p (mtu ∷ size ∷ []) =
    ground (arith, same_text_iff mtu (codes "mtu"), mtu_iff p (atoi size))
link_iff p (a ∷ b ∷ c ∷ []) = ground arith
link_iff p (inet ∷ local ∷ remote ∷ alias ∷ []) =
    ground (arith, same_text_iff inet (codes "inet"), same_text_iff alias (codes "alias"))
link_iff p (a ∷ b ∷ c ∷ d ∷ e ∷ args) = ground arith

unfoldable pub IfconfigArgs : Policy → List Text → Type 0
IfconfigArgs p [] = ⊥
IfconfigArgs p (iface ∷ rest) = MeshInterface p iface × LinkArgs p rest

unfoldable pub Ifconfig : Policy → Request → Type 0
Ifconfig p req = (req.stdin ≡ []) × IfconfigArgs p req.args

pub Ifconfig-iff :
    (p : Policy) (name : Text) (args : List Text) (stdin : Text)
    → let req : Request = record { name = name; args = args; stdin = stdin } in
      (validate_ifconfig p req ≡ none) ↔ Ifconfig p req
unfolding validate_ifconfig Ifconfig IfconfigArgs
Ifconfig-iff p name [] stdin = ground (arith, empty_iff stdin)
Ifconfig-iff p name (iface ∷ rest) stdin =
    ground (arith, empty_iff stdin, check_mesh_interface_iff p iface, link_iff p rest)
