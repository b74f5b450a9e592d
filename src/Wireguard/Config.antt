-- ===== src/Wireguard/Config.antt =====
-- pkg/network/wireguard/config.go: the configuration of the mesh interface, its validation and its
-- rendering. A key is its base64 text.
use macvz.Prelude.{
  ltb, nat_beq, if◌then◌else◌, is_none, is_empty, contains, Text, codes, codes_key, text_ltb,
  text_key, number_key, ◌==◌, suc, Bool, true, false, not, ◌&&◌, Option, none, some, List, [], ◌∷◌,
  ◌++◌,
}
use macvz.Prelude.Strings.{cut, join, ℤ, pos, negsuc, itoa}
use macvz.Prelude.Sort.{sort}
use macvz.Network.Parse.{parse_cidr_text, net_key}

pub record Peer : Type 0 where
  pub name : Text
  pub public_key : Text
  pub endpoint : Text
  pub allowed_ips : List Text
  pub persistent_keepalive : ℤ

pub record InterfaceConfig : Type 0 where
  pub name : Text
  pub private_key : Text
  pub address : Text
  pub listen_port : ℤ
  pub mtu : ℤ
  pub peers : List Peer

pub data ConfigError : Type 0 where
  no_interface_name no_private_key no_mesh_address address_not_cidr : ConfigError
  listen_port_out_of_range mtu_is_negative : ConfigError
  no_public_key no_allowed_ips allowed_ip_not_cidr endpoint_not_host_port : ConfigError
  keepalive_is_negative shared_public_key : ConfigError

-- Key.IsZero: the text of 32 zero bytes
abbrev pub zero_key : Text
zero_key = codes "AAAAAAAAAAAAAAAAAAAAAAAAAAAAAAAAAAAAAAAAAAA="

abbrev pub is_negative : ℤ → Bool
is_negative (pos n) = false
is_negative (negsuc n) = true

-- n > 0
abbrev pub is_positive : ℤ → Bool
is_positive (pos n) = ltb 0 n
is_positive (negsuc n) = false

abbrev pub is_port : ℤ → Bool
is_port (pos n) = not (ltb n 1) && not (ltb 65535 n)
is_port (negsuc n) = false

-- The text before the last colon.
unfoldable pub before_last_colon : Text → Option Text
before_last_colon [] = none
before_last_colon (c ∷ s) =
    let rest = before_last_colon s in
    elim rest [ some t ↦ some (c ∷ t) | none ↦ if nat_beq c b':' then some [] else none ]

-- Whether net.SplitHostPort gives no error.
unfoldable pub is_host_port : Text → Bool
unfolding before_last_colon
is_host_port [] = false
is_host_port (c ∷ s) =
    if nat_beq c b'['
    then elim (cut b']' s) [
      | none ↦ false
      | some (host, []) ↦ false
      | some (host, d ∷ port) ↦
          nat_beq d b':'
          && not (contains port b':')
          && not (contains s b'[')
          && not (contains port b']')
    ]
    else elim (before_last_colon (c ∷ s)) [
      | none ↦ false
      | some host ↦
          not (contains host b':') && not (contains (c ∷ s) b'[') && not (contains (c ∷ s) b']')
    ]

-- The loop over a peer's AllowedIPs.
unfoldable pub check_allowed_ips : List Text → Option ConfigError
check_allowed_ips [] = none
check_allowed_ips (cidr ∷ cidrs) =
    let rest = check_allowed_ips cidrs in
    if is_none (parse_cidr_text cidr) then some allowed_ip_not_cidr else rest

-- Peer.validate
unfoldable pub validate_peer : Peer → Option ConfigError
unfolding check_allowed_ips is_host_port
validate_peer p =
    if p.public_key == zero_key
    then some no_public_key
    else if is_empty p.allowed_ips
    then some no_allowed_ips
    else elim (check_allowed_ips p.allowed_ips) [
      | some e ↦ some e
      | none ↦
          if not (is_empty p.endpoint) && not (is_host_port p.endpoint)
          then some endpoint_not_host_port
          else if is_negative p.persistent_keepalive
          then some keepalive_is_negative
          else none
    ]

-- The loop over the peers: each is valid, and no two share a key.
unfoldable pub check_peers : List Text → List Peer → Option ConfigError
unfolding validate_peer
check_peers seen [] = none
check_peers seen (p ∷ peers) =
    let rest = check_peers (p.public_key ∷ seen) peers in
    elim (validate_peer p) [
      | some e ↦ some e
      | none ↦ if contains seen p.public_key then some shared_public_key else rest
    ]

-- InterfaceConfig.Validate
unfoldable pub validate_config : InterfaceConfig → Option ConfigError
unfolding check_peers
validate_config c =
    if is_empty c.name
    then some no_interface_name
    else if c.private_key == zero_key
    then some no_private_key
    else if is_empty c.address
    then some no_mesh_address
    else if is_none (parse_cidr_text c.address)
    then some address_not_cidr
    else if not (is_port c.listen_port)
    then some listen_port_out_of_range
    else if is_negative c.mtu
    then some mtu_is_negative
    else check_peers [] c.peers

-- strconv.Itoa
abbrev pub itoa_int : ℤ → Text
itoa_int (pos n) = itoa n
itoa_int (negsuc n) = b'-' ∷ itoa (suc n)

-- A line of the file.
abbrev pub line : Text → Text
line s = s ++ 10 ∷ []

-- A line that is there only if the test holds.
abbrev pub line_if : Bool → Text → Text
line_if b s = if b then line s else []

-- Peer.ConfigBlock
unfoldable pub config_block : Peer → Text
config_block p =
    line (codes "[Peer]")
    ++ (line_if (not (is_empty p.name)) (codes "# " ++ p.name)
        ++ (line (codes "PublicKey = " ++ p.public_key)
            ++ (line_if (not (is_empty p.endpoint)) (codes "Endpoint = " ++ p.endpoint)
                ++ (line (codes "AllowedIPs = " ++ join (codes ", ") p.allowed_ips)
                    ++ line_if (is_positive p.persistent_keepalive)
                        (codes "PersistentKeepalive = " ++ itoa_int p.persistent_keepalive)))))

unfoldable pub config_blocks : List Peer → Text
unfolding config_block
config_blocks [] = []
config_blocks (p ∷ peers) = line [] ++ (config_block p ++ config_blocks peers)

-- sortedPeers
abbrev pub sorted_peers : List Peer → List Peer
sorted_peers peers = sort (λ a b. text_ltb a.public_key b.public_key) peers

-- render
unfoldable pub render : Bool → InterfaceConfig → Text
unfolding config_blocks
render quick c =
    line (codes "[Interface]")
    ++ (line (codes "PrivateKey = " ++ c.private_key)
        ++ (line_if quick (codes "Address = " ++ c.address)
            ++ (line_if (quick && is_positive c.mtu) (codes "MTU = " ++ itoa_int c.mtu)
                ++ (line (codes "ListenPort = " ++ itoa_int c.listen_port)
                    ++ config_blocks (sorted_peers c.peers)))))

-- SyncConfig
abbrev pub sync_config : InterfaceConfig → Text
sync_config c = render false c

-- QuickConfig
abbrev pub quick_config : InterfaceConfig → Text
quick_config c = render true c
