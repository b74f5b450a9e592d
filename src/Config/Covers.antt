-- ===== src/Config/Covers.antt =====
-- pkg/config and pkg/network: the helper's policy covers the mesh that comes from the same
-- configuration.
use macvz.Prelude.{
  Option-cases, is_some, All, is_empty, contains, contains-cons, Text, same_text_refl,
  same_text_iff, codes_key, text_key, number_key, ℕ, ◌^◌, ◌<◌, ◌≡◌, refl, sym, ◌∙◌, ◌≢◌, ◌⊎◌, inl,
  inr, true, false, none, some, List, [], ◌∷◌, arith,
}
use macvz.Prelude.Strings.{ℤ, pos, negsuc}
use macvz.Prelude.Words.{is_word}
use macvz.Network.Parse.{parse_cidr_text, NetText, same_net_iff, net_key}
use macvz.Privhelper.Checks.{Policy, ip_equal, normalize_cidr, normalize_cidr_set}
use macvz.Privhelper.Grammar.{MeshInterface}
use macvz.Wireguard.{route_targets}
use macvz.Wireguard.Config.{
  Peer, InterfaceConfig, check_allowed_ips, validate_peer, check_peers, validate_config,
}
use macvz.Wireguard.Interface.{address_ip}
use macvz.Wireguard.Routes.{is_allowed, contains-route_targets}
use macvz.Wireguard.Accepted.{RoutedWord}
use macvz.Wireguard.Rendered.{KnownPeer}
use macvz.Wireguard.Permitted.{AllowedMtu, KnownConfig}
use macvz.Config.{MeshConfig}
use macvz.Config.Helper.{mtu_limit, peer_keys, with_mesh}

nil_contains : (w : Text) → contains [] w ≢ true
unfolding contains
nil_contains w m = cc

normalize_cidr_set-contains :
    (xs : List Text) (w : Text) (norm : NetText)
    → contains xs w ≡ true
    → normalize_cidr w ≡ some norm
    → contains (normalize_cidr_set xs) norm ≡ true
unfolding normalize_cidr_set
normalize_cidr_set-contains [] w norm m e = absurd (nil_contains w m)
normalize_cidr_set-contains (c ∷ cs) w norm m e = elim (Option-cases (normalize_cidr c)) [
  | inl f ↦
      let later : contains cs w ≡ true =
        ground (arith, contains-cons c cs w, same_text_iff c w, m, e, f) in
      rw (f, normalize_cidr_set) (normalize_cidr_set-contains cs w norm later e)
  | inr (n, f) ↦
      rw (f, normalize_cidr_set)
        (ground (
          arith,
          contains-cons c cs w,
          contains-cons n (normalize_cidr_set cs) norm,
          same_text_iff c w,
          same_net_iff n norm,
          normalize_cidr_set-contains cs w norm,
          m,
          e,
          f,
        ))
]

-- The texts of a peer are words, so that they are lines' values.
unfoldable pub Tidy : Peer → Type 0
Tidy peer =
    (contains peer.name 10 ≡ false)
    × (is_word peer.public_key ≡ true)
    × ((peer.endpoint ≡ []) ⊎ (is_word peer.endpoint ≡ true))
    × All (λ w. (is_word w ≡ true) × (contains w b',' ≡ false)) peer.allowed_ips

parsed :
    (cidrs : List Text)
    → check_allowed_ips cidrs ≡ none
    → All (λ w. is_some (normalize_cidr w) ≡ true) cidrs
unfolding check_allowed_ips normalize_cidr
parsed [] h = tt
parsed (w ∷ cidrs) h = elim (Option-cases (parse_cidr_text w)) [
  | inl e ↦ absurd (ground (arith, h, e))
  | inr (n, e) ↦ (rw (e, normalize_cidr) refl, parsed cidrs (ground (arith, h, e)))
]

empty_list {ℓ} : {A : Type ℓ} (xs : List A) → xs ≡ [] → is_empty xs ≡ true
empty_list xs e = rw e refl

valid_allowed :
    (peer : Peer)
    → validate_peer peer ≡ none
    → (peer.allowed_ips ≢ []) × (check_allowed_ips peer.allowed_ips ≡ none)
unfolding validate_peer
valid_allowed peer h = (
  λ e. ground (arith, h, empty_list peer.allowed_ips e),
  ground (arith, h, Option-cases (check_allowed_ips peer.allowed_ips)),
)

valid_peers :
    (seen : List Text) (peers : List Peer)
    → check_peers seen peers ≡ none
    → All (λ peer. validate_peer peer ≡ none) peers
unfolding check_peers
valid_peers seen [] h = tt
valid_peers seen (peer ∷ peers) h = elim (Option-cases (validate_peer peer)) [
  | inr (x, e) ↦ absurd (ground (arith, h, e))
  | inl e ↦ (e, valid_peers (peer.public_key ∷ seen) peers (ground (arith, h, e)))
]

routed_words_of :
    (p : Policy) (ws : List Text)
    → All (λ w. (is_word w ≡ true) × (contains w b',' ≡ false)) ws
    → All (λ w. is_some (normalize_cidr w) ≡ true) ws
    → ((w : Text) (norm : NetText)
        → contains ws w ≡ true
        → normalize_cidr w ≡ some norm
        → contains p.route_cidrs norm ≡ true)
    → All (RoutedWord p) ws
unfolding RoutedWord
routed_words_of p [] t s nets = tt
routed_words_of p (w ∷ ws) t s nets = elim (Option-cases (normalize_cidr w)) [
  | inl e ↦ absurd (ground (arith, s.0, e))
  | inr (norm, e) ↦ (
    (
      t.0.0,
      t.0.1,
      (norm, e, nets w norm (ground (arith, contains-cons w ws w, same_text_refl w)) e),
    ),
    routed_words_of p ws t.1 s.1 (λ v n m f. nets v n (ground (arith, contains-cons w ws v, m)) f),
  )
]

-- The peers of a list know the policy, if their keys and networks are in it.
known_peers :
    (p : Policy) (peers : List Peer)
    → ((k : Text) → contains (peer_keys peers) k ≡ true → contains p.peer_public_keys k ≡ true)
    → ((w : Text) (norm : NetText)
        → is_allowed peers w ≡ true
        → normalize_cidr w ≡ some norm
        → contains p.route_cidrs norm ≡ true)
    → All Tidy peers
    → All (λ peer. validate_peer peer ≡ none) peers
    → All (KnownPeer p) peers
unfolding peer_keys KnownPeer Tidy RoutedWord
known_peers p [] keys nets t v = tt
known_peers p (peer ∷ peers) keys nets t v =
    let (filled, ok_cidrs) = valid_allowed peer v.0 in
    (
      (
        t.0.0,
        t.0.1,
        keys peer.public_key (
            ground (
              arith,
              contains-cons peer.public_key (peer_keys peers) peer.public_key,
              same_text_refl peer.public_key,
            )),
        t.0.2,
        filled,
        routed_words_of p peer.allowed_ips t.0.3 (parsed peer.allowed_ips ok_cidrs)
            (λ w norm m e. nets w norm (ground (arith, m)) e),
      ),
      known_peers p peers
          (λ k m. keys k (ground (arith, contains-cons peer.public_key (peer_keys peers) k, m)))
          (λ w norm m e. nets w norm (ground (arith, m)) e) t.1 v.1,
    )

valid_config :
    (ifc : InterfaceConfig)
    → validate_config ifc ≡ none
    → (ifc.name ≢ []) × (check_peers [] ifc.peers ≡ none)
unfolding validate_config
valid_config ifc h = (λ e. ground (arith, h, empty_list ifc.name e), ground (arith, h))

-- A configuration that the mesh accepts, of texts that are words, and with a mesh address that is
-- read back as it is written.
unfoldable pub TidyConfig : InterfaceConfig → Type 0
TidyConfig ifc =
    (validate_config ifc ≡ none)
    × (is_word ifc.private_key ≡ true)
    × ((n : ℕ) → ifc.mtu ≡ pos n → n < 2 ^ 63)
    × ((ip : Text) → address_ip ifc.address ≡ some ip → ip_equal ip ip ≡ true)
    × All Tidy ifc.peers

mtu_allowed :
    (p : Policy) (mtu : ℤ)
    → p.mtu ≡ mtu_limit mtu
    → ((n : ℕ) → mtu ≡ pos n → n < 2 ^ 63)
    → AllowedMtu p mtu
unfolding AllowedMtu
mtu_allowed p (pos n) e h = (h n refl, inr (sym e))
mtu_allowed p (negsuc n) e h = tt

-- The policy that a configuration gives the helper covers the mesh of the same configuration.
pub with_mesh-KnownConfig :
    (m : MeshConfig) (ifc : InterfaceConfig) (q : Policy)
    → TidyConfig ifc
    → KnownConfig (with_mesh m ifc q) ifc
unfolding with_mesh KnownConfig TidyConfig MeshInterface
with_mesh-KnownConfig m ifc q (v, k, mtu, addr, t) =
    let (named, checked) = valid_config ifc v in
    (
      (named, refl),
      k,
      mtu_allowed (with_mesh m ifc q) ifc.mtu refl mtu,
      λ ip e. rw (e, with_mesh) (addr ip e),
      known_peers (with_mesh m ifc q) ifc.peers (λ key c. c)
          (λ w norm a e.
            normalize_cidr_set-contains (route_targets ifc.peers) w norm
              (contains-route_targets ifc.peers w ∙ a) e)
          t (valid_peers [] ifc.peers checked),
    )
