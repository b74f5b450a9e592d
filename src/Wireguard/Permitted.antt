-- ===== src/Wireguard/Permitted.antt =====
-- pkg/network: every command of the mesh is one that the privileged helper permits.
use macvz.Prelude.{
  ltb→lt, Bool-cases, Option-cases, is_some, All, Text, codes, codes_key, text_key, number_key, ◌^◌,
  ◌<◌, ◌≡◌, refl, ap, ◌⊎◌, inl, inr, true, none, some, [], ◌∷◌, ◌++◌,
}
use macvz.Prelude.Strings.{ℤ, pos, negsuc}
use macvz.Prelude.Digits.{atoi-itoa}
use macvz.Network.Parse.{net_key}
use macvz.Privhelper.{validate}
use macvz.Privhelper.Checks.{Policy, Request, ip_equal}
use macvz.Privhelper.Grammar.{MeshInterface}
use macvz.Privhelper.Routes.{
  RoutedCidr, RouteArgs, Route, ValidMtu, LinkArgs, IfconfigArgs, Ifconfig,
}
use macvz.Privhelper.Permits.{WgArgs, Wg, WireguardGo, Pkill, Permitted, validate_iff}
use macvz.Wireguard.{
  MeshCommand, route_add, route_delete, create_interface, link_up, link_down, kill_wireguard_go,
  link_destroy, set_conf, sync_conf, assign_address, set_mtu,
}
use macvz.Wireguard.Config.{InterfaceConfig, is_positive, is_port, sync_config}
use macvz.Wireguard.Interface.{cidr_ip, address_ip, route_family, route_command, mesh_request}
use macvz.Wireguard.Rendered.{KnownPeer, sync_config-accepted}
use macvz.Prelude.Words.{is_word}
use macvz.Network.Addr.{to4}

module _ (p : Policy) where
  -- The MTU that the policy allows, if the mesh sets one.
  unfoldable pub AllowedMtu : ℤ → Type 0
  AllowedMtu (pos n) = (n < 2 ^ 63) × ((p.mtu ≡ 0) ⊎ (n ≡ p.mtu))
  AllowedMtu (negsuc n) = Unit

  -- A configuration within the policy.
  unfoldable pub KnownConfig : InterfaceConfig → Type 0
  KnownConfig cfg =
      MeshInterface p cfg.name
      × (is_word cfg.private_key ≡ true)
      × AllowedMtu cfg.mtu
      × ((ip : Text) → address_ip cfg.address ≡ some ip → ip_equal ip p.mesh_address_ip ≡ true)
      × All (KnownPeer p) cfg.peers

  abbrev pub Sent : Text → MeshCommand → Type 0
  Sent iface c = validate p (mesh_request iface c) ≡ none

  pub route_family-cases :
      (target : Text)
      → (route_family target ≡ codes "-inet") ⊎ (route_family target ≡ codes "-inet6")
  unfolding route_family
  route_family-cases target = elim (Option-cases (cidr_ip target)) [
    | inl e ↦ rw (e, route_family) (inl refl)
    | inr (ip, e) ↦ elim (Bool-cases (is_some (to4 ip))) [
      | inl t ↦ rw (e, route_family, t) (inl refl)
      | inr f ↦ rw (e, route_family, f) (inr refl)
    ]
  ]

  module _ (iface : Text) (m : MeshInterface p iface) where
    by-Route : (req : Request) → req.name ≡ codes "route" → Route p req → validate p req ≡ none
    unfolding Permitted
    by-Route req e r = (validate_iff p req).1 (inr (inr (inl (e, r))))

    by-Ifconfig :
        (req : Request) → req.name ≡ codes "ifconfig" → Ifconfig p req → validate p req ≡ none
    unfolding Permitted
    by-Ifconfig req e r = (validate_iff p req).1 (inr (inr (inr (inl (e, r)))))

    pub route_add-Sent : (target : Text) → RoutedCidr p target → Sent iface (route_add target)
    unfolding mesh_request route_command Route RouteArgs
    route_add-Sent target r =
        by-Route _ refl (refl, (refl, refl, inr (inl refl, route_family-cases target, refl, m, r)))

    pub route_delete-Sent : (target : Text) → RoutedCidr p target → Sent iface (route_delete target)
    unfolding mesh_request route_command Route RouteArgs
    route_delete-Sent target r =
        by-Route _ refl (refl, (refl, refl, inr (inr refl, route_family-cases target, refl, m, r)))

    pub link-Sent : Sent iface link_up × Sent iface link_down × Sent iface link_destroy
    unfolding mesh_request Ifconfig IfconfigArgs LinkArgs
    link-Sent = (
      by-Ifconfig _ refl (refl, (m, inl refl)),
      by-Ifconfig _ refl (refl, (m, inr (inl refl))),
      by-Ifconfig _ refl (refl, (m, inr (inr refl))),
    )

    pub assign_address-Sent :
        (ip : Text) → ip_equal ip p.mesh_address_ip ≡ true → Sent iface (assign_address ip)
    unfolding mesh_request Ifconfig IfconfigArgs LinkArgs
    assign_address-Sent ip e = by-Ifconfig _ refl (refl, (m, (refl, refl, e, e)))

    pub set_mtu-Sent :
        (mtu : ℤ) → is_positive mtu ≡ true → AllowedMtu mtu → Sent iface (set_mtu mtu)
    unfolding mesh_request Ifconfig IfconfigArgs LinkArgs ValidMtu AllowedMtu
    set_mtu-Sent (pos n) h a =
        by-Ifconfig _ refl (refl, (m, (refl, (n, atoi-itoa n a.0, ltb→lt 0 n h, a.1))))
    set_mtu-Sent (negsuc n) h a = absurd (cc)

    pub create_interface-Sent : Sent iface create_interface
    unfolding mesh_request Permitted WireguardGo MeshInterface
    create_interface-Sent =
        (validate_iff p _).1
          (inr (inr (inr (inr (inr (inl (refl, (refl, m.0, ap (λ i. i ∷ []) m.1))))))))

    pub kill-Sent : Sent iface kill_wireguard_go
    unfolding mesh_request Permitted Pkill MeshInterface
    kill-Sent = (validate_iff p _).1 (
        inr (
          inr (
            inr (
              inr (
                inr (
                  inr (
                    refl,
                    (refl, m.0, ap (λ i. codes "-f" ∷ (codes "wireguard-go " ++ i) ∷ []) m.1),
                  )))))))

    pub conf-Sent :
        (cfg : InterfaceConfig)
        → is_word cfg.private_key ≡ true
        → is_port cfg.listen_port ≡ true
        → All (KnownPeer p) cfg.peers
        → Sent iface (set_conf (sync_config cfg)) × Sent iface (sync_conf (sync_config cfg))
    unfolding mesh_request Permitted Wg WgArgs
    conf-Sent cfg k l h =
        let ok_lint = sync_config-accepted p cfg k l h in
        (
          (validate_iff p _).1 (inr (inr (inr (inr (inl (refl, ((inl refl, refl, m), ok_lint))))))),
          (validate_iff p _).1 (inr (inr (inr (inr (inl (refl, ((inr refl, refl, m), ok_lint))))))),
        )
