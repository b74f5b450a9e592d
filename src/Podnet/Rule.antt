-- ===== src/Podnet/Rule.antt =====
-- pkg/network/podnet/service.go: the redirect of one port of a Service.
use macvz.Prelude.{
  ltb, if◌then◌else◌, is_none, is_empty, Text, codes, codes_key, text_key, number_key, ◌==◌, ℕ,
  Bool, not, ◌&&◌, Option, none, some, List, [], ◌∷◌,
}
use macvz.Network.Parse.{parse_ip_text, net_key}

pub record ServiceRule : Type 0 where
  pub service_key : Text
  pub cluster_ip : Text
  pub protocol : Text
  pub port : ℕ
  pub target_port : ℕ
  pub backends : List Text

pub data PodnetError : Type 0 where
  no_pod_key invalid_pod_ip invalid_vm_ip invalid_interface : PodnetError
  no_service_key invalid_cluster_ip unsupported_protocol : PodnetError
  port_out_of_range target_port_out_of_range invalid_backend : PodnetError
  interface_required not_started : PodnetError
  command_failed : Text → PodnetError

-- The loop over the backends.
unfoldable pub check_backends : List Text → Option PodnetError
check_backends [] = none
check_backends (b ∷ backends) =
    let rest = check_backends backends in
    if is_none (parse_ip_text b) then some invalid_backend else rest

abbrev pub in_port_range : ℕ → Bool
in_port_range n = not (ltb n 1) && not (ltb 65535 n)

-- ServiceRule.validate
unfoldable pub validate_rule : ServiceRule → Option PodnetError
unfolding check_backends
validate_rule r =
    if is_empty r.service_key
    then some no_service_key
    else if is_none (parse_ip_text r.cluster_ip)
    then some invalid_cluster_ip
    else if not (r.protocol == codes "tcp") && not (r.protocol == codes "udp")
    then some unsupported_protocol
    else if not (in_port_range r.port)
    then some port_out_of_range
    else if not (in_port_range r.target_port)
    then some target_port_out_of_range
    else check_backends r.backends
