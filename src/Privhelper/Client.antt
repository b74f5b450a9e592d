-- ===== src/Privhelper/Client.antt =====
-- pkg/network/privhelper/client.go: the client of the daemon. A connection fails before the daemon
-- sees the message, or loses the reply.
use macvz.Prelude.{
  nat_beq, is_none, Text, codes, codes_key, text_key, number_key, Bool, false, ◌&&◌, Option, none,
  some, List, [],
}
use macvz.Prelude.Strings.{ℤ, pos, negsuc}
use macvz.Privhelper.Checks.{Request}
use macvz.Privhelper.Server.{
  Message, ErrorCode, HelperStatus, Response, Server, Event, Host, handle,
}
use macvz.Privhelper.Limit.{decoded}

pub data Connection : Type 0 where
  connected refused reply_lost : Connection

pub data ClientError : Type 0 where
  api_error : ErrorCode → ClientError
  transport_error no_status : ClientError

pub record RunResult : Type 0 where
  pub stdout : Text
  pub stderr : Text
  pub exit_code : ℤ
  pub error : Option ClientError

abbrev pub Exchange : Type 0
Exchange = Option Response × Server × List Event

-- roundTrip
unfoldable pub round_trip : Host → Server → Connection → Message → List Event → Exchange
round_trip h s connected m done =
    let (reply, after, done') = handle h s (decoded m) done in (some reply, after, done')
round_trip h s refused m done = (none, s, done)
round_trip h s reply_lost m done =
    let (reply, after, done') = handle h s (decoded m) done in (none, after, done')

abbrev pub empty_request : Request
empty_request = record { name = []; args = []; stdin = [] }

-- The messages of Run, of Status and of ReloadPolicy.
abbrev pub exec_message : Request → Message
exec_message req = record { protocol = pos 1; op = []; request = req }

abbrev pub status_message : Message
status_message = record { protocol = pos 1; op = codes "status"; request = empty_request }

abbrev pub reload_message : Message
reload_message = record { protocol = pos 1; op = codes "reloadPolicy"; request = empty_request }

-- Run, on the answer of roundTrip
unfoldable pub run_result : Option Response → RunResult
run_result none = record {
  stdout = [];
  stderr = [];
  exit_code = negsuc 0;
  error = some transport_error;
}
run_result (some r) = record {
  stdout = r.stdout;
  stderr = r.stderr;
  exit_code = r.exit_code;
  error = elim r.error [ none ↦ none | some code ↦ some (api_error code) ];
}

abbrev pub is_zero : ℤ → Bool
is_zero (pos n) = nat_beq n 0
is_zero (negsuc n) = false

-- Ping gives no error
abbrev pub ping_succeeds : RunResult → Bool
ping_succeeds r = is_none r.error && is_zero r.exit_code

-- Status, on the answer of roundTrip
unfoldable pub status_result : Option Response → Option ClientError × Option HelperStatus
status_result none = (some transport_error, none)
status_result (some r) = elim r.error [
  | some code ↦ (some (api_error code), none)
  | none ↦ elim r.status [ none ↦ (some no_status, none) | some st ↦ (none, some st) ]
]

-- ReloadPolicy, on the answer of roundTrip
unfoldable pub reload_result : Option Response → Option ClientError
reload_result none = some transport_error
reload_result (some r) = elim r.error [ some code ↦ some (api_error code) | none ↦ none ]
