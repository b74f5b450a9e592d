-- ===== src/Privhelper/Audit.antt =====
-- pkg/network/privhelper/server.go: what the daemon runs, over all the messages it is sent.
use macvz.Prelude.{
  if◌then◌else◌, Bool-cases, Option-cases, is_empty, codes, codes_key, text_key, number_key, ◌==◌,
  ◌≡◌, refl, inl, inr, Bool, true, false, Option, none, some, List, [], ◌∷◌, arith,
}
use macvz.Privhelper.Checks.{Policy, Request}
use macvz.Privhelper.Permits.{Permitted, validate_iff}
use macvz.Privhelper.Server.{
  Message, Response, Server, Event, ran, reloaded, Host, is_allowed_command, policy_permits,
  handle_exec, reload_policy, is_foreign_protocol, handle, serve,
}

-- The policy in force after the events.
unfoldable pub policy_after : Policy → List Event → Policy
policy_after p [] = p
policy_after p (ran req ∷ events) = policy_after p events
policy_after p (reloaded q ∷ events) = q

-- Each command that ran is on the allowlist, and of the grammar of the policy in force before it.
unfoldable pub Audited : Policy → List Event → Type 0
Audited p [] = Unit
Audited p (ran req ∷ events) =
    (is_allowed_command req.name ≡ true) × Permitted (policy_after p events) req × Audited p events
Audited p (reloaded q ∷ events) = Audited p events

module _ (h : Host) (p : Policy) where
  abbrev Guarded : Server → List Event → Type 0
  Guarded s done = (s.policy ≡ some (policy_after p done)) × Audited p done

  permitted :
      (o : Option Policy) (q : Policy) (req : Request)
      → o ≡ some q
      → policy_permits o req ≡ true
      → Permitted q req
  permitted none q req e t = absurd (cc)
  permitted (some r) q req e t = (validate_iff q req).0 (ground (arith, e, t))

  handle_exec-Guarded :
      (s : Server) (req : Request) (done : List Event)
      → Guarded s done
      → Guarded s (handle_exec h s req done).1
  unfolding handle_exec policy_after Audited
  handle_exec-Guarded s req done (e, a) = elim (Bool-cases (is_allowed_command req.name)) [
    | inr n ↦ rw (n, handle_exec) (e, a)
    | inl t ↦ elim (Bool-cases (policy_permits s.policy req)) [
      | inr n ↦ rw (t, n, handle_exec) (e, a)
      | inl u ↦ rw (t, u, handle_exec) (e, (t, permitted s.policy (policy_after p done) req e u, a))
    ]
  ]

  reload_policy-Guarded :
      (s : Server) (done : List Event)
      → Guarded s done
      → Guarded (reload_policy h s done).1 (reload_policy h s done).2
  unfolding reload_policy policy_after Audited
  reload_policy-Guarded s done (e, a) = elim (Bool-cases s.reloadable) [
    | inr n ↦ rw (n, reload_policy) (e, a)
    | inl t ↦ elim (Option-cases (h.load_policy done)) [
      | inl f ↦ rw (t, f, reload_policy) (e, a)
      | inr (q, f) ↦ rw (t, f, reload_policy) (refl, a)
    ]
  ]

  Answered : Response × Server × List Event → Type 0
  Answered o = Guarded o.1 o.2

  either :
      (b : Bool) (o x : Response × Server × List Event)
      → Answered o
      → Answered x
      → Answered (if b then o else x)
  either true o x a c = a
  either false o x a c = c

  handle-Guarded :
      (s : Server) (m : Option Message) (done : List Event)
      → Guarded s done
      → Answered (handle h s m done)
  unfolding handle Answered
  handle-Guarded s none done g = g
  handle-Guarded s (some m) done g = either (is_foreign_protocol m.protocol) _ _ g (
      either (m.op == codes "status") _ _ g (
        either (m.op == codes "reloadPolicy") _ _ (reload_policy-Guarded s done g)
          (either (is_empty m.op) _ _ (handle_exec-Guarded s m.request done g) g)))

  serve-Guarded :
      (msgs : List (Option Message)) (s : Server) (done : List Event)
      → Guarded s done
      → Guarded (serve h s msgs done).0 (serve h s msgs done).1
  unfolding serve Answered
  serve-Guarded [] s done g = g
  serve-Guarded (m ∷ msgs) s done g =
      serve-Guarded msgs (handle h s m done).1 (handle h s m done).2 (handle-Guarded s m done g)

-- Whatever messages the daemon is sent, and whatever the host and the loader answer, each command
-- that it ran is on the allowlist and of the grammar of the policy in force, which is the initial
-- one or the latest that was loaded.
pub serve-Audited :
    (h : Host) (p : Policy) (s : Server) (msgs : List (Option Message))
    → s.policy ≡ some p
    → Audited p (serve h s msgs []).1
      × ((serve h s msgs []).0.policy ≡ some (policy_after p (serve h s msgs []).1))
unfolding Audited policy_after
serve-Audited h p s msgs e = let (f, a) = serve-Guarded h p msgs s [] (e, tt) in (a, f)
