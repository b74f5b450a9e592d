-- ===== src/Provider/Restart.antt =====
-- pkg/provider/restart.go: restart policy, backoff, and the rebuilding of an exited workload.
use macvz.Prelude.{
  leb, nat_beq, if◌then◌else◌, codes_key, text_key, number_key, ℕ, zero, suc, ◌*◌, ◌%◌, ◌^◌, Bool,
  true, false, not,
}
use macvz.Provider.{RestartPolicy, unset_policy, always, on_failure}

abbrev pub second : ℕ
second = 1000000000

abbrev pub restart_backoff_max : ℕ
restart_backoff_max = 300 * second

-- effectiveRestartPolicy
abbrev pub effective_restart_policy : RestartPolicy → RestartPolicy
effective_restart_policy unset_policy = always
effective_restart_policy policy = policy

-- shouldRestart
abbrev pub should_restart : RestartPolicy → ℕ → Bool
should_restart always exit_code = true
should_restart on_failure exit_code = not (nat_beq exit_code 0)
should_restart _ exit_code = false

-- restartBackoff, from the delay d; a Duration is an int64.
unfoldable pub restart_backoff : ℕ → ℕ → ℕ
restart_backoff d zero = d
restart_backoff d (suc count) =
    let doubled = d * 2 % 2 ^ 64 in
    let rest = restart_backoff doubled count in
    if leb restart_backoff_max doubled then restart_backoff_max else rest
