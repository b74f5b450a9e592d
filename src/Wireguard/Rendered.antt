-- ===== src/Wireguard/Rendered.antt =====
-- pkg/network: a mesh whose configuration stays within the policy renders a WireGuard configuration
-- that the privileged helper accepts.
use macvz.Prelude.{
  All, is_empty, contains, contains-append, Text, codes, codes_key, has_prefix, text_ltb, text_key,
  number_key, ℕ, ◌≡◌, refl, sym, ap, ◌∙◌, ◌≢◌, ◌⊎◌, inl, inr, true, false, not, none, List, [], ◌∷◌,
  ◌++◌, arith,
}
use macvz.Prelude.Sort.{All-sort}
use macvz.Prelude.Strings.{is_space, split, trim_left, trim_right, trim_space, join, ℤ, pos, negsuc}
use macvz.Prelude.Words.{is_word, comment-trim_space}
use macvz.Prelude.Lines.{append_nil}
use macvz.Prelude.Digits.{is_word-itoa}
use macvz.Network.Parse.{net_key}
use macvz.Privhelper.Checks.{Policy}
use macvz.Privhelper.WgConfig.{is_plain, lint_config_lines, lint_wireguard_config}
use macvz.Wireguard.Config.{
  Peer, InterfaceConfig, is_positive, is_port, itoa_int, line, line_if, config_block, config_blocks,
  sorted_peers, render, sync_config,
}
use macvz.Wireguard.Accepted.{
  Read, nil-Read, append-Read, line-Read, if-Read, private_key-Read, listen_port-Read,
  endpoint-Read, keepalive-Read, public_key-Read, RoutedWord, allowed_ips-Read,
}

mark_no_break : contains {A = ℕ} (codes "# ") 10 ≡ false
unfolding contains
mark_no_break = refl

module _ (p : Policy) where
  -- A peer of the policy.
  unfoldable pub KnownPeer : Peer → Type 0
  KnownPeer peer =
      (contains peer.name 10 ≡ false)
      × (is_word peer.public_key ≡ true)
      × (contains p.peer_public_keys peer.public_key ≡ true)
      × ((peer.endpoint ≡ []) ⊎ (is_word peer.endpoint ≡ true))
      × (peer.allowed_ips ≢ [])
      × All (RoutedWord p) peer.allowed_ips

  literal-Read :
      (s : Text) → contains s 10 ≡ false → is_plain (trim_space s) ≡ true → Read p (line s)
  literal-Read s n h = line-Read p s n (inl h)

  comment-Read : (s : Text) → contains s 10 ≡ false → Read p (line (codes "# " ++ s))
  comment-Read s n =
      literal-Read (codes "# " ++ s)
        (ground (arith, contains-append (codes "# ") s 10, mark_no_break, n))
        (ground (arith, comment-trim_space (32 ∷ s)))

  peer_section : Read p (line (codes "[Peer]"))
  unfolding contains has_prefix trim_left trim_right is_space
  peer_section = literal-Read (codes "[Peer]") refl refl

  interface_section : Read p (line (codes "[Interface]"))
  unfolding contains has_prefix trim_left trim_right is_space
  interface_section = literal-Read (codes "[Interface]") refl refl

  blank-Read : Read p (line [])
  unfolding contains has_prefix trim_left trim_right is_space
  blank-Read = literal-Read [] refl refl

  endpoint_word :
      (s : Text) → (s ≡ []) ⊎ (is_word s ≡ true) → not (is_empty s) ≡ true → is_word s ≡ true
  endpoint_word s (inl e) t = absurd (ground (arith, e, t))
  endpoint_word s (inr w) t = w

  positive_word : (n : ℤ) → is_positive n ≡ true → is_word (itoa_int n) ≡ true
  positive_word (pos n) h = is_word-itoa n
  positive_word (negsuc n) h = absurd (cc)

  port_word : (n : ℤ) → is_port n ≡ true → is_word (itoa_int n) ≡ true
  port_word (pos n) h = is_word-itoa n
  port_word (negsuc n) h = absurd (cc)

  config_block-Read : (peer : Peer) → KnownPeer peer → Read p (config_block peer)
  unfolding config_block KnownPeer
  config_block-Read peer (n, k, c, e, a, r) = append-Read p (line (codes "[Peer]")) _ peer_section (
      append-Read p (line_if (not (is_empty peer.name)) (codes "# " ++ peer.name)) _
        (if-Read p (not (is_empty peer.name)) (codes "# " ++ peer.name)
          (λ t. comment-Read peer.name n))
        (append-Read p (line (codes "PublicKey = " ++ peer.public_key)) _
          (public_key-Read p peer.public_key k c)
          (append-Read p
            (line_if (not (is_empty peer.endpoint)) (codes "Endpoint = " ++ peer.endpoint)) _
            (if-Read p (not (is_empty peer.endpoint)) (codes "Endpoint = " ++ peer.endpoint)
              (λ t. endpoint-Read p peer.endpoint (endpoint_word peer.endpoint e t)))
            (append-Read p (line (codes "AllowedIPs = " ++ join (codes ", ") peer.allowed_ips)) _
              (allowed_ips-Read p peer.allowed_ips a r)
              (if-Read p (is_positive peer.persistent_keepalive)
                (codes "PersistentKeepalive = " ++ itoa_int peer.persistent_keepalive)
                (λ t. keepalive-Read p _ (positive_word peer.persistent_keepalive t)))))))

  config_blocks-Read : (peers : List Peer) → All KnownPeer peers → Read p (config_blocks peers)
  unfolding config_blocks
  config_blocks-Read [] h = nil-Read p
  config_blocks-Read (peer ∷ peers) h =
      append-Read p (line []) (config_block peer ++ config_blocks peers) blank-Read (
        append-Read p (config_block peer) (config_blocks peers) (config_block-Read peer h.0)
          (config_blocks-Read peers h.1))

  render-Read :
      (c : InterfaceConfig)
      → is_word c.private_key ≡ true
      → is_port c.listen_port ≡ true
      → All KnownPeer c.peers
      → Read p (sync_config c)
  unfolding render
  render-Read c k l h = append-Read p (line (codes "[Interface]")) _ interface_section (
      append-Read p (line (codes "PrivateKey = " ++ c.private_key)) _
        (private_key-Read p c.private_key k)
        (append-Read p (line (codes "ListenPort = " ++ itoa_int c.listen_port)) _
          (listen_port-Read p _ (port_word c.listen_port l))
          (config_blocks-Read (sorted_peers c.peers)
            (All-sort (λ a b. text_ltb a.public_key b.public_key) KnownPeer c.peers h))))

  no_lines : lint_config_lines p (split 10 []) ≡ none
  unfolding lint_config_lines split trim_left trim_right
  no_lines = refl

  -- The configuration that the mesh renders for `wg` is accepted.
  pub sync_config-accepted :
      (c : InterfaceConfig)
      → is_word c.private_key ≡ true
      → is_port c.listen_port ≡ true
      → All KnownPeer c.peers
      → lint_wireguard_config p (sync_config c) ≡ none
  unfolding lint_wireguard_config Read
  sync_config-accepted c k l h =
      ap (λ u. lint_config_lines p (split 10 u)) (sym (append_nil (sync_config c)))
      ∙ render-Read c k l h []
      ∙ no_lines
