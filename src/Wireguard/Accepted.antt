-- ===== src/Wireguard/Accepted.antt =====
-- pkg/network: the WireGuard configuration that the mesh renders, as the privileged helper's lint
-- reads it.
use macvz.Prelude.{
  All, contains, contains-append, All-imp, Text, codes, same_text, codes_key, text_key, number_key,
  ℕ, ◌≡◌, refl, ap, ◌∙◌, ◌≢◌, ◌⊎◌, inr, Bool, true, false, none, some, List, [], ◌∷◌, ◌++◌, map,
  arith,
}
use macvz.Prelude.Strings.{is_space, split, trim_left, trim_right, trim_space, cut, join}
use macvz.Prelude.Words.{is_word, all_words, split_line}
use macvz.Prelude.Lines.{append_assoc, no_break-is_word, no_break-join, no_breaks-all_words}
use macvz.Prelude.Trim.{
  trim_right-word, trim_space-word, trim_space-blank, comma_pieces, split-join, trim_right-join,
  trim_space-join,
}
use macvz.Network.Parse.{NetText, net_key}
use macvz.Privhelper.Checks.{Policy, normalize_cidr}
use macvz.Privhelper.WgConfig.{lint_setting, is_plain, lint_config_lines}
use macvz.Privhelper.Peers.{Routed, allowed_ips_complete}
use macvz.Wireguard.Config.{line, line_if}

-- A text of whole lines that the lint reads past.
unfoldable pub Read : Policy → Text → Type 0
Read p t =
    (rest : Text) → lint_config_lines p (split 10 (t ++ rest)) ≡ lint_config_lines p (split 10 rest)

module _ (p : Policy) where
  pub nil-Read : Read p []
  unfolding Read
  nil-Read rest = refl

  pub append-Read : (a b : Text) → Read p a → Read p b → Read p (a ++ b)
  unfolding Read
  append-Read a b ha hb rest =
      ap (λ t. lint_config_lines p (split 10 t)) (append_assoc a b rest) ∙ ha (b ++ rest) ∙ hb rest

  lines-cons :
      (raw : Text) (lines : List Text)
      → ((is_plain (trim_space raw) ≡ true) ⊎ (lint_setting p (trim_space raw) ≡ none))
      → lint_config_lines p (raw ∷ lines) ≡ lint_config_lines p lines
  unfolding lint_config_lines
  lines-cons raw lines h = ground (arith, h)

  pub line-Read :
      (s : Text)
      → contains s 10 ≡ false
      → ((is_plain (trim_space s) ≡ true) ⊎ (lint_setting p (trim_space s) ≡ none))
      → Read p (line s)
  unfolding Read
  line-Read s n h rest =
      ap (λ t. lint_config_lines p (split 10 t)) (append_assoc s (10 ∷ []) rest)
      ∙ ap (lint_config_lines p) (split_line 10 s rest n)
      ∙ lines-cons s (split 10 rest) h

  pub if-Read : (b : Bool) (s : Text) → (b ≡ true → Read p (line s)) → Read p (line_if b s)
  if-Read true s h = h refl
  if-Read false s h = nil-Read

  -- A line of a setting: a key with its equals sign, and a value.
  setting-Read :
      (key val : Text)
      → contains key 10 ≡ false
      → contains val 10 ≡ false
      → trim_left (key ++ val) ≡ key ++ val
      → trim_right (key ++ val) ≡ key ++ val
      → lint_setting p (key ++ val) ≡ none
      → Read p (line (key ++ val))
  setting-Read key val k v l r h =
      line-Read (key ++ val) (ground (arith, contains-append key val 10, k, v))
        (inr (ap (lint_setting p) (ap trim_right l ∙ r) ∙ h))

  pub private_key-Read : (v : Text) → is_word v ≡ true → Read p (line (codes "PrivateKey = " ++ v))
  unfolding trim_left is_space contains lint_setting cut same_text trim_right
  private_key-Read v w =
      setting-Read (codes "PrivateKey = ") v refl (no_break-is_word v w) refl
        (trim_right-word (codes "PrivateKey = ") v w) refl

  pub listen_port-Read : (v : Text) → is_word v ≡ true → Read p (line (codes "ListenPort = " ++ v))
  unfolding trim_left is_space contains lint_setting cut same_text trim_right
  listen_port-Read v w =
      setting-Read (codes "ListenPort = ") v refl (no_break-is_word v w) refl
        (trim_right-word (codes "ListenPort = ") v w) refl

  pub endpoint-Read : (v : Text) → is_word v ≡ true → Read p (line (codes "Endpoint = " ++ v))
  unfolding trim_left is_space contains lint_setting cut same_text trim_right
  endpoint-Read v w =
      setting-Read (codes "Endpoint = ") v refl (no_break-is_word v w) refl
        (trim_right-word (codes "Endpoint = ") v w) refl

  pub keepalive-Read :
      (v : Text) → is_word v ≡ true → Read p (line (codes "PersistentKeepalive = " ++ v))
  unfolding trim_left is_space contains lint_setting cut same_text trim_right
  keepalive-Read v w =
      setting-Read (codes "PersistentKeepalive = ") v refl (no_break-is_word v w) refl
        (trim_right-word (codes "PersistentKeepalive = ") v w) refl

  public_key-lint :
      (v : Text)
      → is_word v ≡ true
      → contains p.peer_public_keys v ≡ true
      → lint_setting p (codes "PublicKey = " ++ v) ≡ none
  unfolding trim_left is_space lint_setting cut same_text trim_right
  public_key-lint v w h = rw (trim_space-word v w, h) refl

  pub public_key-Read :
      (v : Text)
      → is_word v ≡ true
      → contains p.peer_public_keys v ≡ true
      → Read p (line (codes "PublicKey = " ++ v))
  unfolding trim_left is_space contains
  public_key-Read v w h =
      setting-Read (codes "PublicKey = ") v refl (no_break-is_word v w) refl
        (trim_right-word (codes "PublicKey = ") v w) (public_key-lint v w h)

  -- A network that the node routes to, as a text of one word.
  unfoldable pub RoutedWord : Text → Type 0
  RoutedWord w =
      (is_word w ≡ true)
      × (contains w b',' ≡ false)
      × ((norm : NetText) × (normalize_cidr w ≡ some norm) × (contains p.route_cidrs norm ≡ true))

  routed_words : (ws : List Text) → All RoutedWord ws → all_words ws ≡ true
  unfolding RoutedWord
  routed_words [] h = refl
  routed_words (w ∷ ws) h = ground (arith, h.0.0, routed_words ws h.1)

  Routed-pieces : (ws : List Text) → All RoutedWord ws → All (Routed p) (map (λ v. 32 ∷ v) ws)
  unfolding RoutedWord Routed
  Routed-pieces [] h = tt
  Routed-pieces (w ∷ ws) h =
      let (norm, e, c) = h.0.2 in
      ((norm, ap normalize_cidr (trim_space-blank w h.0.0) ∙ e, c), Routed-pieces ws h.1)

  Routed-first : (w : Text) → RoutedWord w → Routed p w
  unfolding RoutedWord Routed
  Routed-first w h =
      let (norm, e, c) = h.2 in (norm, ap normalize_cidr (trim_space-word w h.0) ∙ e, c)

  no_commas : (ws : List Text) → All RoutedWord ws → All (λ w. contains w b',' ≡ false) ws
  unfolding RoutedWord
  no_commas ws h = All-imp ws (λ w r. r.1) h

  allowed_ips-lint :
      (w : Text) (ws : List Text)
      → All RoutedWord (w ∷ ws)
      → lint_setting p (codes "AllowedIPs = " ++ join (codes ", ") (w ∷ ws)) ≡ none
  unfolding trim_left is_space lint_setting cut same_text trim_right
  allowed_ips-lint w ws h =
      rw
        (trim_space-join w ws (routed_words (w ∷ ws) h), split-join (w ∷ ws) (no_commas (w ∷ ws) h))
        (allowed_ips_complete p (comma_pieces (w ∷ ws)) (Routed-first w h.0, Routed-pieces ws h.1))

  comma_no_break : contains {A = ℕ} (codes ", ") 10 ≡ false
  unfolding contains
  comma_no_break = refl

  pub allowed_ips-Read :
      (ws : List Text)
      → ws ≢ []
      → All RoutedWord ws
      → Read p (line (codes "AllowedIPs = " ++ join (codes ", ") ws))
  unfolding trim_left is_space contains
  allowed_ips-Read [] n h = absurd (n refl)
  allowed_ips-Read (w ∷ ws) n h =
      let k = routed_words (w ∷ ws) h in
      setting-Read (codes "AllowedIPs = ") (join (codes ", ") (w ∷ ws)) refl
        (no_break-join (codes ", ") (w ∷ ws) comma_no_break (no_breaks-all_words (w ∷ ws) k)) refl
        (trim_right-join (codes "AllowedIPs = ") w ws k) (allowed_ips-lint w ws h)
