-- ===== src/Podnet/HelperTests.antt =====
-- pkg/network/podnet/helper.go: a command that the helper runs, one that it refuses, and the theorem
-- there.
use macvz.Prelude.{
  contains, codes, same_text, codes_key, text_key, number_key, ◌≡◌, refl, ◌⊎◌, true, false, none,
  some, [], ◌∷◌,
}
use macvz.Prelude.Strings.{pos, itoa}
use macvz.Wireguard.{command_error}
use macvz.Privhelper.{validate}
use macvz.Privhelper.Checks.{Policy, Request, args_equal, check_anchor}
use macvz.Privhelper.Closed.{zero_policy}
use macvz.Privhelper.Permits.{Permitted}
use macvz.Privhelper.Server.{Server, ran, Host, helper_status, handle, new_server_with_policy}
use macvz.Privhelper.Client.{
  connected, refused, reply_lost, round_trip, exec_message, status_message, reload_message,
  run_result, ping_succeeds, status_result, reload_result,
}
use macvz.Podnet.{flush_command}
use macvz.Podnet.Helper.{helper_run, direct_result, helper_run-direct}
use macvz.Privhelper.Limit.{encoded_size, is_oversized}

abbrev policy : Policy
policy = record zero_policy { anchor = codes "macvz/pods" }

-- A host on which a flush fails.
abbrev host : Host
host = record {
  exec = λ done req. record {
    stdout = [];
    stderr = codes "pfctl: Operation not permitted.";
    exit_code = pos 1;
    is_spawn_error = false;
  };
  load_policy = λ done. none;
}

abbrev server : Server
server = new_server_with_policy policy

abbrev flush : Request
flush = flush_command (codes "macvz/pods")

foreign_refused :
    helper_run host server connected (flush_command (codes "other")) []
    ≡ (([], some (command_error [])), server, [])
unfolding helper_run handle same_text contains validate args_equal check_anchor encoded_size itoa
foreign_refused = refl

unreachable : (helper_run host server refused flush []).0 ≡ ([], some (command_error []))
unfolding helper_run
unreachable = refl

lost : (helper_run host server reply_lost flush []).2 ≡ ran flush ∷ []
unfolding helper_run handle same_text contains validate args_equal check_anchor encoded_size itoa
lost = refl

pinged :
    let r = (round_trip host server connected (exec_message flush) []).0 in
    ping_succeeds (run_result r) ≡ false
unfolding round_trip run_result handle same_text contains validate args_equal check_anchor
    encoded_size itoa
pinged = refl

status_read :
    let r = (round_trip host server connected status_message []).0 in
    status_result r ≡ (none, some (helper_status server))
unfolding round_trip status_result handle same_text encoded_size itoa contains
status_read = refl

reload_read :
    let r = (round_trip host server connected reload_message []).0 in reload_result r ≡ none
unfolding round_trip reload_result handle same_text encoded_size itoa contains
reload_read = refl

-- {"protocol":1,"name":"pfctl","args":["-a","macvz/pods","-F","all"]}
flush_size : encoded_size (exec_message flush) ≡ 67
unfolding encoded_size itoa contains
flush_size = refl

helper_run-direct_example :
    ((is_oversized (exec_message flush) ≡ false)
      × Permitted policy flush
      × (helper_run host server connected flush []
          ≡ (direct_result (host.exec [] flush), server, ran flush ∷ [])))
    ⊎ (((is_oversized (exec_message flush) ≡ true) ⊎ ¬ (Permitted policy flush))
        × (helper_run host server connected flush [] ≡ (([], some (command_error [])), server, [])))
helper_run-direct_example = helper_run-direct host server policy flush [] refl
