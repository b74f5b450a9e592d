-- ===== src/Privhelper/Server.antt =====
-- pkg/network/privhelper/server.go and protocol.go: the daemon, one message after another. A message
-- that does not decode is none. What the host and the loader of policies answer is a parameter, by
-- the events so far, the latest first. A reply has no protocol number, process id or times, and an
-- error is its code.
use macvz.Prelude.{
  ltb, if◌then◌else◌, is_some, is_none, is_empty, contains, Text, codes, codes_key, text_key,
  number_key, ◌==◌, Bool, true, false, not, Option, none, some, List, [], ◌∷◌,
}
use macvz.Prelude.Strings.{cut, ℤ, pos, negsuc, atoi}
use macvz.Privhelper.{validate}
use macvz.Privhelper.Checks.{Policy, Request}

pub record Message : Type 0 where
  pub protocol : ℤ
  pub op : Text
  pub request : Request

pub data ErrorCode : Type 0 where
  malformed unsupported_protocol not_allowed not_permitted : ErrorCode
  exec_error unknown_op policy_reload_failed : ErrorCode

pub record HelperStatus : Type 0 where
  pub version : Text
  pub allowed_commands : List Text
  pub policy_enforced : Bool
  pub policy_reloadable : Bool

pub record Response : Type 0 where
  pub stdout : Text
  pub stderr : Text
  pub exit_code : ℤ
  pub error : Option ErrorCode
  pub status : Option HelperStatus

-- reloadable: whether there is a policyLoader
pub record Server : Type 0 where
  pub policy : Option Policy
  pub reloadable : Bool
  pub version : Text

-- What the daemon did: a command that it ran, a policy that it took over.
pub data Event : Type 0 where
  ran : Request → Event
  reloaded : Policy → Event

-- The output, the exit code, and whether the command could not be spawned.
pub record ExecResult : Type 0 where
  pub stdout : Text
  pub stderr : Text
  pub exit_code : ℤ
  pub is_spawn_error : Bool

pub record Host : Type 0 where
  pub exec : List Event → Request → ExecResult
  pub load_policy : List Event → Option Policy

-- AllowedCommands, in its order
abbrev pub allowed_commands : List Text
allowed_commands =
    codes "ifconfig"
    ∷ codes "pfctl"
    ∷ codes "pkill"
    ∷ codes "route"
    ∷ codes "sysctl"
    ∷ codes "wg"
    ∷ codes "wireguard-go"
    ∷ []

-- IsAllowed
abbrev pub is_allowed_command : Text → Bool
is_allowed_command name = contains allowed_commands name

-- writeError
abbrev pub error_response : ErrorCode → Response
error_response code = record {
  stdout = [];
  stderr = [];
  exit_code = negsuc 0;
  error = some code;
  status = none;
}

abbrev pub plain_response : Response
plain_response = record { stdout = []; stderr = []; exit_code = pos 0; error = none; status = none }

-- status
abbrev pub helper_status : Server → HelperStatus
helper_status s = record {
  version = if is_empty s.version then codes "dev" else s.version;
  allowed_commands = allowed_commands;
  policy_enforced = is_some s.policy;
  policy_reloadable = s.reloadable;
}

-- Whether the policy, when there is one, permits the request.
abbrev pub policy_permits : Option Policy → Request → Bool
policy_permits none req = true
policy_permits (some p) req = is_none (validate p req)

-- handleExec
unfoldable pub handle_exec : Host → Server → Request → List Event → Response × List Event
handle_exec h s req done =
    let r = h.exec done req in
    if not (is_allowed_command req.name)
    then (error_response not_allowed, done)
    else if not (policy_permits s.policy req)
    then (error_response not_permitted, done)
    else (
      record {
        stdout = r.stdout;
        stderr = r.stderr;
        exit_code = r.exit_code;
        error = if r.is_spawn_error then some exec_error else none;
        status = none;
      },
      ran req ∷ done,
    )

-- reloadPolicy: whether it failed, the server and the events
unfoldable pub reload_policy : Host → Server → List Event → Bool × Server × List Event
reload_policy h s done = if not s.reloadable then (false, s, done) else elim (h.load_policy done) [
  | none ↦ (true, s, done)
  | some p ↦ (false, record s { policy = some p }, reloaded p ∷ done)
]

-- req.Protocol != 0 && req.Protocol != Protocol
abbrev pub is_foreign_protocol : ℤ → Bool
is_foreign_protocol (pos n) = ltb 1 n
is_foreign_protocol (negsuc n) = true

-- handle
unfoldable pub handle : Host → Server → Option Message → List Event → Response × Server × List Event
unfolding handle_exec reload_policy
handle h s none done = (error_response malformed, s, done)
handle h s (some m) done =
    let (failed, after, done') = reload_policy h s done in
    let (reply, done'') = handle_exec h s m.request done in
    if is_foreign_protocol m.protocol
    then (error_response unsupported_protocol, s, done)
    else if m.op == codes "status"
    then (record plain_response { status = some (helper_status s) }, s, done)
    else if m.op == codes "reloadPolicy"
    then ((if failed then error_response policy_reload_failed else plain_response), after, done')
    else if is_empty m.op
    then (reply, s, done'')
    else (error_response unknown_op, s, done)

-- Serve: the messages of the connections, in the order that they are handled.
unfoldable pub serve : Host → Server → List (Option Message) → List Event → Server × List Event
unfolding handle
serve h s [] done = (s, done)
serve h s (m ∷ msgs) done =
    let (reply, after, done') = handle h s m done in serve h after msgs done'

-- NewServerWithPolicy
abbrev pub new_server_with_policy : Policy → Server
new_server_with_policy p = record { policy = some p; reloadable = false; version = [] }

-- NewServerWithPolicyLoader, on what the loader gives
abbrev pub new_server_with_policy_loader : Option Policy → Option Server
new_server_with_policy_loader none = none
new_server_with_policy_loader (some p) =
    some (record { policy = some p; reloadable = true; version = [] })

-- ResolveOwnerSpec
unfoldable pub resolve_owner_spec : Text → Option (ℤ × ℤ)
resolve_owner_spec spec =
    if is_empty spec then some (negsuc 0, negsuc 0) else elim (cut b':' spec) [
      | none ↦ none
      | some (uid, gid) ↦ elim (atoi uid) [
        | none ↦ none
        | some ui ↦ elim (atoi gid) [ none ↦ none | some gi ↦ some (ui, gi) ]
      ]
    ]
