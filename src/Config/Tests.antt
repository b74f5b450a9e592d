-- ===== src/Config/Tests.antt =====
-- pkg/config: a node of a mesh with one peer, and the theorems of the network under its
-- configuration.
use macvz.Network.Addr.{ip_text}
use macvz.Network.Print.{ip_string}
use macvz.Wireguard.Key.{parse_key}
use macvz.Prelude.{
  All, Text, codes, codes_key, text_key, number_key, arith, ℕ, ◌^◌, ◌<◌, ◌≡◌, refl, inr, Bool, true,
  false, none, some, [], ◌∷◌, contains, same_text,
}
use macvz.Prelude.Strings.{
  pos, split, cut, digits_value, trim_left, is_space, trim_right, join, itoa,
}
use macvz.Prelude.Words.{is_word}
use macvz.Network.Parse.{net_key, parse_cidr_text, parse_ip_text}
use macvz.Privhelper.Checks.{Policy, ip_equal}
use macvz.Wireguard.{Runner}
use macvz.Wireguard.Config.{InterfaceConfig, validate_config, is_host_port}
use macvz.Wireguard.Interface.{address_ip, cidr_ip}
use macvz.Wireguard.Permitted.{Sent}
use macvz.Wireguard.Confined.{
  op_up, op_down, op_remove, mesh_apply, KnownMesh, mesh_apply-Confined, KnownOp,
}
use macvz.Config.{MeshConfig, Config, validate_mesh, mesh_interface_config}
use macvz.Config.Helper.{pod_policy, with_mesh, privileged_helper_policy}
use macvz.Config.Covers.{Tidy, TidyConfig, with_mesh-KnownConfig}
use macvz.Config.Commands.{new_mesh, run_ops, helper_permits_mesh}

-- A host on which every command succeeds.
abbrev runner : Runner
runner done c = none

abbrev key : Text
key = codes "AAECAwQFBgcICQoLDA0ODxAREhMUFRYXGBkaGxwdHh8="

abbrev stanza : Bool → MeshConfig
stanza enabled = record {
  enabled = enabled;
  interface = codes "utun7";
  private_key_file = codes "/etc/macvz/key";
  address = codes "10.99.0.1/24";
  listen_port = pos 0;
  mtu = pos 1420;
  peers =
      record {
        name = codes "mac-2";
        public_key = key;
        endpoint = codes "192.168.1.2:51820";
        pod_cidr = codes "10.244.1.0/24";
        address = [];
        persistent_keepalive = pos 25;
      }
      ∷ [];
}

abbrev node : Bool → Config
node enabled = record {
  pod_cidr = codes "10.244.0.0/24";
  mesh = stanza enabled;
  pod_network = record {
    enabled = true;
    interface = codes "bridge100";
    anchor = [];
    enable_forwarding = none;
    vmnet_cidrs = [];
  };
}

abbrev interface : InterfaceConfig
interface = record {
  name = codes "utun7";
  private_key = key;
  address = codes "10.99.0.1/24";
  listen_port = pos 51820;
  mtu = pos 1420;
  peers =
      record {
        name = codes "mac-2";
        public_key = key;
        endpoint = codes "192.168.1.2:51820";
        allowed_ips = codes "10.244.1.0/24" ∷ [];
        persistent_keepalive = pos 25;
      }
      ∷ [];
}

abbrev policy : Policy
policy = with_mesh (stanza true) interface (pod_policy (node true))

valid : validate_mesh (stanza true) ≡ none
unfolding validate_mesh parse_cidr_text cut split digits_value parse_key trim_right trim_left
    is_space is_host_port contains
valid = refl

resolved : mesh_interface_config (some key) (stanza true) ≡ some interface
unfolding mesh_interface_config parse_key trim_right trim_left is_space
resolved = refl

policy_resolved : privileged_helper_policy (some key) (node true) ≡ some policy
unfolding privileged_helper_policy mesh_interface_config parse_key trim_right trim_left is_space
policy_resolved = refl

address_read : address_ip interface.address ≡ some (codes "10.99.0.1")
unfolding address_ip cidr_ip parse_cidr_text cut split digits_value parse_ip_text ip_string join
    itoa
address_read = refl

address_self : ip_equal (codes "10.99.0.1") (codes "10.99.0.1") ≡ true
unfolding ip_equal parse_ip_text split digits_value ip_text
address_self = refl

address_text : (ip : Text) → address_ip interface.address ≡ some ip → ip ≡ codes "10.99.0.1"
address_text ip e = cc address_read

address_equal : (ip : Text) → address_ip interface.address ≡ some ip → ip_equal ip ip ≡ true
address_equal ip e = rw (address_text ip e) address_self

number : (n : ℕ) → interface.mtu ≡ pos n → n ≡ 1420
number n e = cc

mtu_bound : (n : ℕ) → interface.mtu ≡ pos n → n < 2 ^ 63
mtu_bound n e = rw (number n e) (omega arith)

tidy : TidyConfig interface
unfolding TidyConfig Tidy is_word validate_config same_text parse_cidr_text cut split digits_value
    contains is_space
tidy = (refl, refl, mtu_bound, address_equal, ((refl, refl, inr refl, ((refl, refl), tt)), tt))

known : KnownMesh policy (new_mesh interface)
unfolding KnownMesh
known = (with_mesh-KnownConfig (stanza true) interface (pod_policy (node true)) tidy, tt)

mesh_apply-Confined_example :
    let (err, after, cmds) = mesh_apply runner op_up (new_mesh interface) [] in
    KnownMesh policy after
    × (after.cfg.name ≡ interface.name)
    × All (Sent policy interface.name) cmds
unfolding KnownOp
mesh_apply-Confined_example =
    mesh_apply-Confined policy runner op_up (new_mesh interface) [] known tt tt

helper_permits_mesh_example :
    All
      (Sent policy interface.name)
      (run_ops runner (op_up ∷ op_down ∷ op_remove ∷ []) (new_mesh interface) []).1
unfolding KnownOp
helper_permits_mesh_example =
    helper_permits_mesh (some key) (node true) interface policy runner
      (op_up ∷ op_down ∷ op_remove ∷ []) refl resolved policy_resolved tidy (tt, (tt, (tt, tt)))

disabled_policy : privileged_helper_policy none (node false) ≡ some (pod_policy (node false))
unfolding privileged_helper_policy
disabled_policy = refl
