-- ===== src/Privhelper/ServerTests.antt =====
-- pkg/network/privhelper/server.go: a daemon whose policy is replaced by one that permits less, and
-- the theorem there.
use macvz.Privhelper.{validate}
use macvz.Prelude.{
  Text, codes, codes_key, text_key, number_key, ◌≡◌, refl, true, false, Option, none, some, List,
  [], ◌∷◌, same_text, contains,
}
use macvz.Prelude.Strings.{pos, cut, atoi}
use macvz.Privhelper.Checks.{Policy, Request, check_mesh_interface}
use macvz.Privhelper.Closed.{zero_policy}
use macvz.Privhelper.Server.{Message, Server, ran, reloaded, Host, serve, resolve_owner_spec}
use macvz.Privhelper.Audit.{policy_after, Audited, serve-Audited}

abbrev policy : Policy
policy = record zero_policy { mesh_interface = codes "utun7" }

-- A host on which every command succeeds, and whose configuration has become empty.
abbrev host : Host
host = record {
  exec = λ done req. record { stdout = []; stderr = []; exit_code = pos 0; is_spawn_error = false };
  load_policy = λ done. some zero_policy;
}

abbrev server : Server
server = record { policy = some policy; reloadable = true; version = [] }

abbrev link_up : Request
link_up = record { name = codes "ifconfig"; args = codes "utun7" ∷ codes "up" ∷ []; stdin = [] }

abbrev shell : Request
shell = record { name = codes "sh"; args = []; stdin = [] }

abbrev message : Text → Request → Option Message
message op req = some (record { protocol = pos 1; op = op; request = req })

abbrev messages : List (Option Message)
messages =
    message [] link_up
    ∷ message [] shell
    ∷ message (codes "reloadPolicy") shell
    ∷ message [] link_up
    ∷ none
    ∷ []

-- The link comes up under the first policy only, and the shell never runs.
served : (serve host server messages []).1 ≡ reloaded zero_policy ∷ ran link_up ∷ []
unfolding serve same_text contains validate check_mesh_interface
served = refl

owner : resolve_owner_spec (codes "501:20") ≡ some (pos 501, pos 20)
unfolding resolve_owner_spec cut atoi
owner = refl

serve-Audited_example :
    Audited policy (serve host server messages []).1
    × ((serve host server messages []).0.policy
        ≡ some (policy_after policy (serve host server messages []).1))
serve-Audited_example = serve-Audited host policy server messages refl
