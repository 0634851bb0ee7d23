-- ===== src/ServerInit/Worker.antt =====
-- internal/app/bootstrap/serverinit/manager.go: the loop of `runSpec` with a fixed target and a context that
-- does not end.
use mcpv.Base.{
  ℕ, zero, suc, ◌+◌, ◌≤◌, ◌<◌, ◌≡◌, ◌⊎◌, refl, ap, ◌∙◌, inl, inr, true, false, Option, none, some,
  ltb, leb, is_some, Bool-cases, arith,
}
use mcpv.Domain.Errors.{Fault}
use mcpv.ServerInit.{
  ServerInitStatus, InitManager, Outcome, reached, gives_up, waits, after_result, next_retry_count,
  next_retry_delay, fatal_error,
}

-- What one attempt finds: the ready and the failed instances, and the error.
pub record Found : Type 0 where
  pub ready : ℕ
  pub failed : ℕ
  pub error : Option Fault

abbrev pub next_turn :
    (ServerInitStatus → Option Outcome) → ServerInitStatus → Found → Outcome → Option Outcome
next_turn next st f reached = some reached
next_turn next st f (gives_up n) = some (gives_up n)
next_turn next st f (waits n delay) =
    next (record st { ready = f.ready; failed = f.failed; retry_count = n })

-- The loop, with one attempt for each unit of fuel; `found i` is what attempt `i` finds.
unfoldable pub run_worker :
    ℕ → ℕ → (ℕ → Found) → ℕ → ServerInitStatus → InitManager → Option Outcome
unfolding after_result
run_worker zero target found i st m = none
run_worker (suc fuel) target found i st m =
    let f = found i in
    next_turn (λ st'. run_worker fuel target found (i + 1) st' m) st f
      (after_result target st f.ready f.failed f.error m)

-- A failed attempt ends the worker, or counts as one retry more, below the limit.
after_result-fails :
    (target : ℕ) (st : ServerInitStatus) (f : Found) (m : InitManager)
    → 0 < target
    → 0 < m.max_retries
    → f.ready ≡ 0
    → is_some f.error ≡ true
    → let o = after_result target st f.ready f.failed f.error m in
      ((n : ℕ) × (o ≡ gives_up n))
      ⊎ ((st.retry_count + 1 < m.max_retries)
          × ((delay : ℕ) × (o ≡ waits (st.retry_count + 1) delay)))
unfolding after_result next_retry_count
after_result-fails target st f m some_target limited none_ready fails =
    let below : leb target 0 ≡ false = ground arith in
    let no_more : ltb st.ready 0 ≡ false = ground arith in
    let limit : ltb 0 m.max_retries ≡ true = ground arith in
    elim (Bool-cases (fatal_error f.error)) [
      | inl t ↦ inl (st.retry_count + 1, simp (none_ready, fails, below, no_more, t) refl)
      | inr t ↦ elim (Bool-cases (leb m.max_retries (st.retry_count + 1))) [
        | inl u ↦
            inl (st.retry_count + 1, simp (none_ready, fails, below, no_more, limit, t, u) refl)
        | inr u ↦ inr (
          ground (arith, u),
          (
            next_retry_delay m.retry_base m.retry_max (st.retry_count + 1),
            simp (none_ready, fails, below, no_more, limit, t, u) refl,
          ),
        )
      ]
    ]

-- The worker has given up.
abbrev pub GaveUp : Option Outcome → Type 0
GaveUp o = (n : ℕ) × (o ≡ some (gives_up n))

run_worker-GaveUp :
    (fuel target : ℕ) (found : ℕ → Found) (i : ℕ) (st : ServerInitStatus) (m : InitManager)
    → 0 < target
    → 0 < m.max_retries
    → ((j : ℕ) → ((found j).ready ≡ 0) × (is_some (found j).error ≡ true))
    → 0 < fuel
    → m.max_retries ≤ fuel + st.retry_count
    → GaveUp (run_worker fuel target found i st m)
unfolding run_worker
run_worker-GaveUp zero target found i st m some_target limited fails enough room =
    absurd (omega arith)
run_worker-GaveUp (suc fuel) target found i st m some_target limited fails enough room =
    let (none_ready, broken) = fails i in
    let f = found i in
    elim (after_result-fails target st f m some_target limited none_ready broken) [
      | inl (n, e) ↦ (n, ap (next_turn (λ s. run_worker fuel target found (i + 1) s m) st f) e)
      | inr (below, (delay, e)) ↦
          let st' = record st {
            ready = f.ready;
            failed = f.failed;
            retry_count = st.retry_count + 1;
          } in
          let (n, later) =
            run_worker-GaveUp fuel target found (i + 1) st' m some_target limited fails
              (omega arith) (omega arith) in
          (n, ap (next_turn (λ s. run_worker fuel target found (i + 1) s m) st f) e ∙ later)
    ]

-- With a limit on the retries, a worker all of whose attempts fail and find no ready instance gives up
-- after at most as many attempts as the limit, whatever the errors, the status it starts from and the
-- numbers of failed instances.
pub run_worker-gives_up :
    (target : ℕ) (found : ℕ → Found) (st : ServerInitStatus) (m : InitManager)
    → 0 < target
    → 0 < m.max_retries
    → ((j : ℕ) → ((found j).ready ≡ 0) × (is_some (found j).error ≡ true))
    → GaveUp (run_worker m.max_retries target found 0 st m)
run_worker-gives_up target found st m some_target limited fails =
    run_worker-GaveUp m.max_retries target found 0 st m some_target limited fails limited
      (omega arith)
