-- ===== src/Config.antt =====
-- pkg/config: the mesh and Pod network stanzas, their validation, and the policy of the privileged
-- helper that is derived from them. Reading the private key's file is a parameter.
pub mod Helper
pub mod Covers
pub mod Commands
pub mod Tests
use macvz.Prelude.{
  ltb, if◌then◌else◌, is_none, is_empty, Text, codes, codes_key, text_key, number_key, zero, Bool,
  true, false, not, ◌&&◌, Option, none, some, List, [], ◌∷◌, ◌++◌,
}
use macvz.Prelude.Strings.{ℤ, pos, negsuc}
use macvz.Network.Parse.{parse_cidr_text, net_key}
use macvz.Podnet.{RouterConfig}
use macvz.Wireguard.Key.{parse_key}
use macvz.Wireguard.Config.{Peer, InterfaceConfig, is_host_port}

pub record MeshPeerConfig : Type 0 where
  pub name : Text
  pub public_key : Text
  pub endpoint : Text
  pub pod_cidr : Text
  pub address : Text
  pub persistent_keepalive : ℤ

pub record MeshConfig : Type 0 where
  pub enabled : Bool
  pub interface : Text
  pub private_key_file : Text
  pub address : Text
  pub listen_port : ℤ
  pub mtu : ℤ
  pub peers : List MeshPeerConfig

pub record PodNetworkConfig : Type 0 where
  pub enabled : Bool
  pub interface : Text
  pub anchor : Text
  pub enable_forwarding : Option Bool
  pub vmnet_cidrs : List Text

-- The fields that the network depends on; pod_cidr is the node's.
pub record Config : Type 0 where
  pub pod_cidr : Text
  pub mesh : MeshConfig
  pub pod_network : PodNetworkConfig

pub data StanzaError : Type 0 where
  mesh_interface_required private_key_file_required mesh_address_invalid : StanzaError
  mesh_port_out_of_range public_key_invalid pod_cidr_invalid : StanzaError
  peer_address_invalid peer_endpoint_invalid : StanzaError
  pod_interface_required vmnet_cidr_invalid : StanzaError

-- The loop over the peers.
unfoldable pub validate_mesh_peers : List MeshPeerConfig → Option StanzaError
validate_mesh_peers [] = none
validate_mesh_peers (p ∷ peers) =
    let rest = validate_mesh_peers peers in
    if is_none (parse_key p.public_key)
    then some public_key_invalid
    else if is_none (parse_cidr_text p.pod_cidr)
    then some pod_cidr_invalid
    else if not (is_empty p.address) && is_none (parse_cidr_text p.address)
    then some peer_address_invalid
    else if not (is_empty p.endpoint) && not (is_host_port p.endpoint)
    then some peer_endpoint_invalid
    else rest

-- m.ListenPort < 0 || m.ListenPort > 65535
abbrev pub is_port_or_zero : ℤ → Bool
is_port_or_zero (pos n) = not (ltb 65535 n)
is_port_or_zero (negsuc n) = false

-- validateMesh
unfoldable pub validate_mesh : MeshConfig → Option StanzaError
unfolding validate_mesh_peers
validate_mesh m =
    if not m.enabled
    then none
    else if is_empty m.interface
    then some mesh_interface_required
    else if is_empty m.private_key_file
    then some private_key_file_required
    else if is_none (parse_cidr_text m.address)
    then some mesh_address_invalid
    else if not (is_port_or_zero m.listen_port)
    then some mesh_port_out_of_range
    else validate_mesh_peers m.peers

-- The AllowedIPs of a peer: its Pod CIDR, and its mesh address when set.
abbrev pub allowed_of : MeshPeerConfig → List Text
allowed_of p = if is_empty p.address then p.pod_cidr ∷ [] else p.pod_cidr ∷ p.address ∷ []

abbrev pub peer_of : MeshPeerConfig → Text → Peer
peer_of p key = record {
  name = p.name;
  public_key = key;
  endpoint = p.endpoint;
  allowed_ips = allowed_of p;
  persistent_keepalive = p.persistent_keepalive;
}

-- resolvePeers; MeshPeers is the same
unfoldable pub resolve_peers : List MeshPeerConfig → Option (List Peer)
resolve_peers [] = some []
resolve_peers (p ∷ peers) =
    let rest = resolve_peers peers in
    elim (parse_key p.public_key) [
      | none ↦ none
      | some key ↦ elim rest [ none ↦ none | some ps ↦ some (peer_of p key ∷ ps) ]
    ]

abbrev pub default_port : ℤ → ℤ
default_port (pos zero) = pos 51820
default_port port = port

-- MeshInterfaceConfig, given the private key that LoadOrCreateKey gives
unfoldable pub mesh_interface_config : Option Text → MeshConfig → Option InterfaceConfig
unfolding resolve_peers
mesh_interface_config none m = none
mesh_interface_config (some priv) m = elim (resolve_peers m.peers) [
  | none ↦ none
  | some peers ↦ some (record {
    name = m.interface;
    private_key = priv;
    address = m.address;
    listen_port = default_port m.listen_port;
    mtu = m.mtu;
    peers = peers;
  })
]

-- The loop of validatePodNetwork.
unfoldable pub validate_vmnet_cidrs : List Text → Option StanzaError
validate_vmnet_cidrs [] = none
validate_vmnet_cidrs (cidr ∷ cidrs) =
    let rest = validate_vmnet_cidrs cidrs in
    if is_none (parse_cidr_text cidr) then some vmnet_cidr_invalid else rest

-- validatePodNetwork
unfoldable pub validate_pod_network : PodNetworkConfig → Option StanzaError
unfolding validate_vmnet_cidrs
validate_pod_network pn =
    if not pn.enabled
    then none
    else if is_empty pn.interface
    then some pod_interface_required
    else validate_vmnet_cidrs pn.vmnet_cidrs

-- PodNetworkRouterConfig
unfoldable pub pod_network_router_config : Config → RouterConfig
pod_network_router_config c = record {
  interface = c.pod_network.interface;
  mesh_interface = c.mesh.interface;
  anchor = c.pod_network.anchor;
  enable_forwarding = elim c.pod_network.enable_forwarding [ none ↦ true | some b ↦ b ];
}

abbrev pub default_vmnet_cidr : Text
default_vmnet_cidr = codes "192.168.64.0/22"

-- The Pod CIDRs of the peers that have one.
unfoldable pub peer_cidrs : List MeshPeerConfig → List Text
peer_cidrs [] = []
peer_cidrs (p ∷ peers) =
    let rest = peer_cidrs peers in if is_empty p.pod_cidr then rest else p.pod_cidr ∷ rest

abbrev pub vmnet_or_default : List Text → List Text
vmnet_or_default [] = default_vmnet_cidr ∷ []
vmnet_or_default (c ∷ cidrs) = c ∷ cidrs

-- RoutableServiceCIDRs
unfoldable pub routable_service_cidrs : Config → List Text
unfolding peer_cidrs
routable_service_cidrs c =
    (if is_empty c.pod_cidr then [] else c.pod_cidr ∷ [])
    ++ ((if c.pod_network.enabled
          then vmnet_or_default c.pod_network.vmnet_cidrs
          else c.pod_network.vmnet_cidrs)
        ++ (if c.mesh.enabled then peer_cidrs c.mesh.peers else []))
