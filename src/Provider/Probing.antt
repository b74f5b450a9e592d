-- ===== src/Provider/Probing.antt =====
-- When a probe fails its workload, and what becomes of the Pod.
use macvz.Prelude.{
  leb, if◌then◌else◌, Bool-cases, contains, Text, codes_key, text_key, number_key, same_self, ℕ,
  zero, suc, ◌+◌, ◌-◌, ◌%◌, ◌^◌, ◌≤◌, ◌<◌, String, ◌≡◌, refl, ap, ◌∙◌, inl, inr, Bool, true, false,
  ◌||◌, Option, none, some, List, [], ◌∷◌, arith,
}
use macvz.Runtime.{go_restart, Trace}
use macvz.Drain.Laws.{destroyed}
use macvz.Provider.{pod_failed, PodState, Host, Provider, pod_key, count_of}
use macvz.Prelude.Dict.{Dict, get, get-put_self}
use macvz.Provider.Restart.{should_restart, restart_backoff}
use macvz.Provider.Reconcile.{workload_of, maybe_trigger_restart, reconcile_status}
use macvz.Provider.Ready.{any}
use macvz.Provider.Probe.{
  liveness, Counters, reaches, Verdict, fails_workload, probe_round, run_probe, fail_for_good,
  id_or_none, fail_probe,
}
use macvz.Prelude.Dict

-- The answers of the attempts, in order.
abbrev pub attempts : List (Option Bool) → List Bool
attempts [] = []
attempts (none ∷ rounds) = attempts rounds
attempts (some ok ∷ rounds) = ok ∷ attempts rounds

-- The first m attempts are failures.
abbrev pub starts_failing : ℕ → List Bool → Bool
starts_failing zero answers = true
starts_failing (suc m) [] = false
starts_failing (suc m) (true ∷ answers) = false
starts_failing (suc m) (false ∷ answers) = starts_failing m answers

-- Somewhere, m attempts in a row are failures.
abbrev pub has_failures : ℕ → List Bool → Bool
has_failures m [] = starts_failing m []
has_failures m (ok ∷ answers) = starts_failing m (ok ∷ answers) || has_failures m answers

abbrev pub is_failing : Verdict → Bool
is_failing v = elim v [ fails_workload ↦ true | _ ↦ false ]

starts_failing-le :
    (m n : ℕ) (answers : List Bool)
    → m ≤ n
    → starts_failing n answers ≡ true
    → starts_failing m answers ≡ true
starts_failing-le zero n answers h e = refl
starts_failing-le (suc m) zero answers h e = absurd (omega (arith, h))
starts_failing-le (suc m) (suc n) [] h e = e
starts_failing-le (suc m) (suc n) (true ∷ answers) h e = e
starts_failing-le (suc m) (suc n) (false ∷ answers) h e =
    starts_failing-le m n answers (omega (arith, h)) e

starts_failing-has_failures :
    (m : ℕ) (answers : List Bool) → starts_failing m answers ≡ true → has_failures m answers ≡ true
starts_failing-has_failures m [] e = e
starts_failing-has_failures m (ok ∷ answers) e = ground (arith, e)

has_failures-starts :
    (m : ℕ) (answers : List Bool)
    → (starts_failing m answers || has_failures m answers) ≡ has_failures m answers
has_failures-starts m answers = ground (arith, starts_failing-has_failures m answers)

starts_failing-step :
    (m : ℕ) (answers : List Bool)
    → 0 < m
    → starts_failing m (false ∷ answers) ≡ starts_failing (m - 1) answers
starts_failing-step zero answers h = absurd (omega (arith, h))
starts_failing-step (suc m) answers h =
    let less : m ≡ suc m - 1 = omega arith in ap (λ n. starts_failing n answers) less

reaches_next : (n k : ℕ) → n < k → k < 2 ^ 31 → reaches ((n + 1) % 2 ^ 32) k ≡ leb k (n + 1)
reaches_next n k h b = ground (arith, no_wrap)
  where
    no_wrap : (n + 1) % 2 ^ 32 ≡ n + 1
    no_wrap = omega (arith, h, b)

liveness_fails :
    (k : ℕ) (successes : ℕ) (rounds : List (Option Bool)) (n : Counters)
    → n.failures < k
    → k < 2 ^ 31
    → any is_failing (run_probe liveness successes k rounds n)
      ≡ (starts_failing (k - n.failures) (attempts rounds) || has_failures k (attempts rounds))
unfolding run_probe probe_round
liveness_fails k successes [] n h b =
    ground
      (arith, starts_empty k (omega (arith, h)), starts_empty (k - n.failures) (omega (arith, h)))
  where
    starts_empty : (m : ℕ) → 0 < m → starts_failing m [] ≡ false
    starts_empty zero h = absurd (omega (arith, h))
    starts_empty (suc m) h = refl
liveness_fails k successes (none ∷ rounds) n h b = liveness_fails k successes rounds n h b
liveness_fails k successes (some true ∷ rounds) n h b = ground (
  arith,
  h,
  b,
  starts_true k (omega (arith, h)),
  starts_true (k - n.failures) (omega (arith, h)),
  has_failures-starts k (attempts rounds),
  liveness_fails k successes rounds
      (record { successes = (n.successes + 1) % 2 ^ 32; failures = 0 }) (omega (arith, h)) b,
)
  where
    starts_true : (m : ℕ) → 0 < m → starts_failing m (true ∷ attempts rounds) ≡ false
    starts_true zero h = absurd (omega (arith, h))
    starts_true (suc m) h = refl
liveness_fails k successes (some false ∷ rounds) n h b =
    let n' : Counters = record { successes = 0; failures = (n.failures + 1) % 2 ^ 32 } in
    let no_wrap : n'.failures ≡ n.failures + 1 = omega (arith, h, b) in
    elim (Bool-cases (leb k (n.failures + 1))) [
      | inl last ↦
          let one : k - n.failures ≡ 1 = ground (arith, last, h) in
          rw one (ground (arith, last, h, reaches_next n.failures k h b))
      | inr more ↦
          let fewer : n'.failures < k = ground (arith, more, no_wrap) in
          let gap : k - n'.failures ≡ k - n.failures - 1 = omega (arith, no_wrap) in
          let rest = liveness_fails k successes rounds n' fewer b in
          ground (
            arith,
            more,
            reaches_next n.failures k h b,
            rw gap at rest,
            starts_failing-step k (attempts rounds) (omega (arith, h)),
            starts_failing-step (k - n.failures) (attempts rounds) (omega (arith, h)),
            starts_failing-le (k - n.failures - 1) (k - 1) (attempts rounds) (omega arith),
          )
    ]

-- A liveness probe with a positive failure threshold fails its workload exactly if at some point
-- that many of its attempts in a row are failures; rounds in which it is suspended do not count.
pub run_probe-liveness :
    (k successes : ℕ) (rounds : List (Option Bool))
    → 0 < k
    → k < 2 ^ 31
    → any is_failing
        (run_probe liveness successes k rounds (record { successes = 0; failures = 0 }))
      ≡ has_failures k (attempts rounds)
run_probe-liveness k successes rounds h b =
    let start : Counters = record { successes = 0; failures = 0 } in
    let gap : k - 0 ≡ k = omega arith in
    let counted = liveness_fails k successes rounds start h b in
    (rw gap at counted) ∙ has_failures-starts k (attempts rounds)

module _ (h : Host) (key container : String) (p : Provider) (t : Trace) (st : PodState)
    (found : Dict.get p.pods key ≡ some st) (live : st.terminal_status ≡ none) where
  abbrev pub failing_id : Text
  failing_id = id_or_none (workload_of st.workloads container)

  -- The calls of a failure under a policy that restarts: one restart of the micro-VM is launched,
  -- unless the Pod has one in flight.
  abbrev pub with_restart : Trace
  with_restart =
      if st.restarting
      then t
      else go_restart (pod_key st.pod) failing_id
          (restart_backoff h.restart_backoff_base (count_of st.restarts container))
        ∷ t

  -- The Pod after a failed liveness or startup probe: under a policy that restarts failures its
  -- restart is launched, or was before, and marked, and nothing else is called; otherwise its
  -- micro-VM is destroyed and the Pod is Failed at every later look.
  abbrev pub AfterFailure : PodState → Trace → Bool → Type 0
  AfterFailure st' t' true = (st' ≡ record st { restarting = true }) × (t' ≡ with_restart)
  AfterFailure st' t' false =
      (contains (destroyed t') failing_id ≡ true)
      × ((later : Trace) → (reconcile_status h st' later).0.phase ≡ pod_failed)

  kept : st.restarting ≡ true → st ≡ record st { restarting = true }
  kept b = ap (λ r. record st { restarting = r }) b

  -- A failed liveness or startup probe of a live Pod launches one restart of the container's
  -- micro-VM, unless one is in flight, if the Pod's policy restarts failures; otherwise the micro-VM
  -- is destroyed and the Pod is Failed from then on.
  pub fail_probe-AfterFailure :
      let (p', t') = fail_probe h key container p t in
      (st' : PodState) × (Dict.get p'.pods key ≡ some st')
      × AfterFailure st' t' (should_restart st.restart_policy 1)
  unfolding fail_probe maybe_trigger_restart contains reconcile_status
  fail_probe-AfterFailure = elim (Bool-cases (should_restart st.restart_policy 1)) [
    | inr never_again ↦ rw never_again (
      fail_for_good st failing_id,
      ground
          (arith, found, live, never_again, get-put_self p.pods key (fail_for_good st failing_id)),
      (ground (arith, found, live, never_again, same_self failing_id), λ later. ground arith),
    )
    | inl again ↦ elim (Bool-cases st.restarting) [
      | inl b ↦ rw again (
        st,
        ground (arith, found, live, again, b, get-put_self p.pods key st),
        (kept b, ground (arith, found, live, again, b)),
      )
      | inr b ↦ rw again (
        record st { restarting = true },
        ground (
          arith,
          found,
          live,
          again,
          b,
          get-put_self p.pods key (record st { restarting = true }),
        ),
        (refl, ground (arith, found, live, again, b)),
      )
    ]
  ]
