-- ===== src/Config/Helper.antt =====
-- pkg/config/policy.go: the policy of the privileged helper.
use macvz.Prelude.{
  if◌then◌else◌, is_empty, contains, Text, codes_key, text_key, number_key, ℕ, not, Option, none,
  some, List, [], ◌∷◌,
}
use macvz.Prelude.Strings.{ℤ, pos, negsuc}
use macvz.Network.Parse.{NetText, net_key}
use macvz.Privhelper.Checks.{Policy, normalize_cidr_set}
use macvz.Podnet.{default_anchor}
use macvz.Wireguard.{route_targets}
use macvz.Wireguard.Config.{Peer, InterfaceConfig}
use macvz.Wireguard.Interface.{address_ip}
use macvz.Config.{MeshConfig, Config, mesh_interface_config, peer_cidrs, vmnet_or_default}

-- The members of one set and another.
unfoldable pub join_sets : List NetText → List NetText → List NetText
join_sets [] b = b
join_sets (x ∷ a) b = let rest = join_sets a b in if contains rest x then rest else x ∷ rest

-- A policy's MTU; one below zero restricts as little as zero.
abbrev pub mtu_limit : ℤ → ℕ
mtu_limit (pos n) = n
mtu_limit (negsuc n) = 0

unfoldable pub peer_keys : List Peer → List Text
peer_keys [] = []
peer_keys (p ∷ peers) = p.public_key ∷ peer_keys peers

-- What the policy has without a mesh.
unfoldable pub pod_policy : Config → Policy
pod_policy c = record {
  mesh_interface = [];
  vmnet_interface = c.pod_network.interface;
  anchor = if is_empty c.pod_network.anchor then default_anchor else c.pod_network.anchor;
  mesh_address_ip = [];
  mtu = 0;
  route_cidrs = [];
  pod_cidrs = if is_empty c.pod_cidr then [] else normalize_cidr_set (c.pod_cidr ∷ []);
  vmnet_cidrs =
      if c.pod_network.enabled
      then normalize_cidr_set (vmnet_or_default c.pod_network.vmnet_cidrs)
      else [];
  peer_public_keys = [];
}

-- What a mesh adds.
unfoldable pub with_mesh : MeshConfig → InterfaceConfig → Policy → Policy
with_mesh m ifc p = record p {
  mesh_interface = ifc.name;
  mtu = mtu_limit ifc.mtu;
  mesh_address_ip = elim (address_ip ifc.address) [ none ↦ [] | some ip ↦ ip ];
  route_cidrs = normalize_cidr_set (route_targets ifc.peers);
  pod_cidrs = join_sets (normalize_cidr_set (peer_cidrs m.peers)) p.pod_cidrs;
  peer_public_keys = peer_keys ifc.peers;
}

-- PrivilegedHelperPolicy
unfoldable pub privileged_helper_policy : Option Text → Config → Option Policy
privileged_helper_policy key c =
    if not c.mesh.enabled then some (pod_policy c) else elim (mesh_interface_config key c.mesh) [
      | none ↦ none
      | some ifc ↦ some (with_mesh c.mesh ifc (pod_policy c))
    ]
