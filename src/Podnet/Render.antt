-- ===== src/Podnet/Render.antt =====
-- pkg/network/podnet: the ruleset of the pf anchor, as text.
use macvz.Prelude.{
  ltb, if◌then◌else◌, is_empty, contains, Text, codes, codes_key, text_ltb, text_key, number_key,
  ◌==◌, ℕ, Bool, not, none, some, List, [], ◌∷◌, ◌++◌, map,
}
use macvz.Prelude.Strings.{join, itoa}
use macvz.Prelude.Sort.{sort}
use macvz.Prelude.Dict.{Dict, get}
use macvz.Podnet.Rule.{ServiceRule}
use macvz.Prelude.Dict

pub record Endpoint : Type 0 where
  pub pod_key : Text
  pub pod_ip : Text
  pub vm_ip : Text
  pub interface : Text

-- fmt.Fprintf of words with blanks between them, and the end of the line
abbrev pub words_line : List Text → Text
words_line ws = join (32 ∷ []) ws ++ 10 ∷ []

-- add, of endpointBinatInterfaces; a set is the list of its members
abbrev pub note_interface : Text → List Text → List Text
note_interface iface seen =
    if is_empty iface then seen else if contains seen iface then seen else iface ∷ seen

-- endpointBinatInterfaces
unfoldable pub endpoint_binat_interfaces : Text → Text → Endpoint → List Text
endpoint_binat_interfaces default_iface mesh_iface ep =
    let own = note_interface ep.interface [] in
    let seen = if is_empty ep.interface then note_interface default_iface own else own in
    sort text_ltb (note_interface mesh_iface seen)

abbrev pub binat_line : Endpoint → Text → Text
binat_line ep iface = words_line (
    codes "binat"
    ∷ codes "on"
    ∷ iface
    ∷ codes "from"
    ∷ ep.vm_ip
    ∷ codes "to"
    ∷ codes "any"
    ∷ codes "->"
    ∷ ep.pod_ip
    ∷ [])

unfoldable pub binat_lines : Endpoint → List Text → Text
binat_lines ep [] = []
binat_lines ep (iface ∷ ifaces) = binat_line ep iface ++ binat_lines ep ifaces

unfoldable pub endpoint_lines : Text → Text → List Endpoint → Text
unfolding binat_lines endpoint_binat_interfaces
endpoint_lines iface mesh_iface [] = []
endpoint_lines iface mesh_iface (ep ∷ endpoints) =
    (codes "# " ++ ep.pod_key ++ 10 ∷ [])
    ++ (binat_lines ep (endpoint_binat_interfaces iface mesh_iface ep)
        ++ endpoint_lines iface mesh_iface endpoints)

-- renderAnchor
unfoldable pub render_anchor : Text → Text → List Endpoint → Text
unfolding endpoint_lines
render_anchor iface mesh_iface endpoints =
    (codes "# Managed by macvz (issue #22). Do not edit by hand." ++ 10 ∷ [])
    ++ endpoint_lines iface mesh_iface endpoints

-- The order of the rules of one Service.
abbrev pub rule_less : ServiceRule → ServiceRule → Bool
rule_less a b =
    if not (a.cluster_ip == b.cluster_ip)
    then text_ltb a.cluster_ip b.cluster_ip
    else ltb a.port b.port

-- The target of a backend: the micro-VM of a local Pod, or the address of a remote one.
abbrev pub target_of : Dict Text Text → Text → Text
target_of vmips pod_ip = elim (Dict.get vmips pod_ip) [ none ↦ pod_ip | some vm_ip ↦ vm_ip ]

abbrev pub targets_of : Dict Text Text → ServiceRule → List Text
targets_of vmips r = sort text_ltb (map (target_of vmips) r.backends)

-- The words after the arrow: one target, or a pool with the round-robin option.
abbrev pub destination : List Text → ℕ → List Text
destination (t ∷ []) target_port = t ∷ codes "port" ∷ itoa target_port ∷ []
destination targets target_port =
    codes "{"
    ∷ join (codes ", ") targets
    ∷ codes "}"
    ∷ codes "port"
    ∷ itoa target_port
    ∷ codes "round-robin"
    ∷ []

abbrev pub rdr_line : ServiceRule → List Text → Text → Text
rdr_line r targets iface = words_line (
    codes "rdr"
    ∷ codes "on"
    ∷ iface
    ∷ codes "inet"
    ∷ codes "proto"
    ∷ r.protocol
    ∷ codes "from"
    ∷ codes "any"
    ∷ codes "to"
    ∷ r.cluster_ip
    ∷ codes "port"
    ∷ itoa r.port
    ∷ codes "->"
    ∷ destination targets r.target_port)

unfoldable pub rdr_lines : ServiceRule → List Text → List Text → Text
rdr_lines r targets [] = []
rdr_lines r targets (iface ∷ ifaces) = rdr_line r targets iface ++ rdr_lines r targets ifaces

-- The comment above the redirects of a rule, after its mark.
abbrev pub comment_parts : ServiceRule → List Text
comment_parts r =
    codes " "
    ∷ r.service_key
    ∷ codes " "
    ∷ r.cluster_ip
    ∷ codes ":"
    ∷ itoa r.port
    ∷ codes " -> :"
    ∷ itoa r.target_port
    ∷ []

abbrev pub rule_comment : ServiceRule → Text
rule_comment r = b'#' ∷ join [] (comment_parts r) ++ 10 ∷ []

unfoldable pub rule_lines : List Text → Dict Text Text → List ServiceRule → Text
unfolding rdr_lines
rule_lines ifaces vmips [] = []
rule_lines ifaces vmips (r ∷ rules) =
    rule_comment r ++ (rdr_lines r (targets_of vmips r) ifaces ++ rule_lines ifaces vmips rules)

-- The order of the Services.
abbrev pub key_less : Text × List ServiceRule → Text × List ServiceRule → Bool
key_less (j, rs) (k, ss) = text_ltb j k

unfoldable pub service_lines : List Text → Dict Text Text → List (Text × List ServiceRule) → Text
unfolding rule_lines
service_lines ifaces vmips [] = []
service_lines ifaces vmips ((key, rules) ∷ services) =
    rule_lines ifaces vmips (sort rule_less rules) ++ service_lines ifaces vmips services

-- renderServiceRules
unfoldable pub render_service_rules :
    List Text → Dict Text (List ServiceRule) → Dict Text Text → Text
unfolding service_lines
render_service_rules ifaces services vmips =
    if is_empty ifaces then [] else service_lines ifaces vmips (sort key_less services.entries)
