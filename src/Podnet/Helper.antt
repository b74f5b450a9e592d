-- ===== src/Podnet/Helper.antt =====
-- pkg/network/podnet/helper.go, and the same file of pkg/network/wireguard: the runner that sends the
-- commands of the router and of the mesh to the privileged helper.
use macvz.Prelude.{
  if◌then◌else◌, Bool-cases, is_some, contains, Text, same_text, codes_key, text_key, number_key,
  ◌≡◌, refl, sym, ◌∙◌, ◌↔◌, ◌⊎◌, inl, inr, true, false, not, ◌||◌, Option, none, some, List, [],
  ◌∷◌, arith,
}
use macvz.Wireguard.{RunError, command_error}
use macvz.Privhelper.Checks.{Policy, Request}
use macvz.Privhelper.Permits.{Permitted, validate_iff}
use macvz.Privhelper.Server.{
  Server, Event, ran, ExecResult, Host, is_allowed_command, policy_permits, handle_exec, handle,
}
use macvz.Privhelper.Client.{
  Connection, connected, RunResult, round_trip, exec_message, run_result, is_zero,
}
use macvz.Privhelper.Limit.{is_oversized}
use mathlib.Core.Bool.{false≢true}

-- helperRunner.run, on the answer of the client
unfoldable pub command_result : RunResult → Text × Option RunError
command_result r =
    if is_some r.error || not (is_zero r.exit_code)
    then (r.stdout, some (command_error r.stderr))
    else (r.stdout, none)

-- helperRunner.run
unfoldable pub helper_run :
    Host
    → Server
    → Connection
    → Request
    → List Event
    → (Text × Option RunError) × Server × List Event
unfolding round_trip run_result command_result
helper_run h s link req done =
    let (reply, after, done') = round_trip h s link (exec_message req) done in
    (command_result (run_result reply), after, done')

-- cliRunner.run (runner.go), on what the host does
unfoldable pub direct_result : ExecResult → Text × Option RunError
direct_result r =
    if r.is_spawn_error || not (is_zero r.exit_code)
    then (r.stdout, some (command_error r.stderr))
    else (r.stdout, none)

Permitted-allowed :
    (p : Policy) (req : Request) → Permitted p req → is_allowed_command req.name ≡ true
unfolding Permitted contains same_text
Permitted-allowed p req (inl h) = rw h.0 refl
Permitted-allowed p req (inr (inl h)) = rw h.0 refl
Permitted-allowed p req (inr (inr (inl h))) = rw h.0 refl
Permitted-allowed p req (inr (inr (inr (inl h)))) = rw h.0 refl
Permitted-allowed p req (inr (inr (inr (inr (inl h))))) = rw h.0 refl
Permitted-allowed p req (inr (inr (inr (inr (inr (inl h)))))) = rw h.0 refl
Permitted-allowed p req (inr (inr (inr (inr (inr (inr h)))))) = rw h.0 refl

permits_iff :
    (s : Server) (p : Policy) (req : Request)
    → s.policy ≡ some p
    → (policy_permits s.policy req ≡ true) ↔ Permitted p req
permits_iff s p req e = rw e (ground (arith, validate_iff p req))

run_permitted :
    (h : Host) (s : Server) (req : Request) (done : List Event)
    → is_oversized (exec_message req) ≡ false
    → is_allowed_command req.name ≡ true
    → policy_permits s.policy req ≡ true
    → helper_run h s connected req done ≡ (direct_result (h.exec done req), s, ran req ∷ done)
unfolding helper_run handle handle_exec direct_result same_text
run_permitted h s req done o a v = elim (Bool-cases (h.exec done req).is_spawn_error) [
  | inl t ↦ rw (o, a, v, t) refl
  | inr n ↦ rw (o, a, v, n) refl
]

run_refused :
    (h : Host) (s : Server) (req : Request) (done : List Event)
    → is_oversized (exec_message req) ≡ false
    → policy_permits s.policy req ≡ false
    → helper_run h s connected req done ≡ (([], some (command_error [])), s, done)
unfolding helper_run handle handle_exec same_text
run_refused h s req done o v = elim (Bool-cases (is_allowed_command req.name)) [
  | inl t ↦ rw (o, t, v) refl
  | inr n ↦ rw (o, n) refl
]

run_oversized :
    (h : Host) (s : Server) (req : Request) (done : List Event)
    → is_oversized (exec_message req) ≡ true
    → helper_run h s connected req done ≡ (([], some (command_error [])), s, done)
unfolding helper_run handle
run_oversized h s req done o = rw o refl

-- Through the helper a connected runner answers as on the host itself, and the command runs once,
-- if the request is of the grammar of the policy and within the limit of size; any other request is
-- an error and runs nothing.
pub helper_run-direct :
    (h : Host) (s : Server) (p : Policy) (req : Request) (done : List Event)
    → s.policy ≡ some p
    → ((is_oversized (exec_message req) ≡ false)
        × Permitted p req
        × (helper_run h s connected req done
            ≡ (direct_result (h.exec done req), s, ran req ∷ done)))
      ⊎ (((is_oversized (exec_message req) ≡ true) ⊎ ¬ (Permitted p req))
          × (helper_run h s connected req done ≡ (([], some (command_error [])), s, done)))
helper_run-direct h s p req done e =
    let (sound, complete) = permits_iff s p req e in
    elim (Bool-cases (is_oversized (exec_message req))) [
      | inl big ↦ inr (inl big, run_oversized h s req done big)
      | inr fits ↦ elim (Bool-cases (policy_permits s.policy req)) [
        | inl t ↦
            let q = sound t in
            inl (fits, q, run_permitted h s req done fits (Permitted-allowed p req q) t)
        | inr v ↦ inr (inr (λ q. false≢true (sym v ∙ complete q)), run_refused h s req done fits v)
      ]
    ]
