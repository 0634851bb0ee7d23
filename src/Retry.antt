-- ===== src/Retry.antt =====
-- internal/infra/retry: `Backoff` and `Retry`. A duration is a number of nanoseconds, and one that is not
-- positive is 0. Factor and jitter are floating-point numbers in the source; what they make of a delay is
-- a parameter.
pub mod Attempts
pub mod Delays
use mcpv.Base.{
  ℕ, zero, suc, ◌+◌, ◌≡◌, String, Bool, true, false, Option, none, some, if◌then◌else◌, ltb, leb,
  ◌==◌,
}

-- A negative number of retries is `unlimited`.
pub data MaxRetries : Type 0 where
  limited : ℕ → MaxRetries
  unlimited : MaxRetries

pub record Policy : Type 0 where
  pub base_delay : ℕ
  pub max_delay : ℕ
  pub max_retries : MaxRetries

-- `normalized`, but for factor and jitter.
unfoldable pub normalized : Policy → Policy
normalized p =
    let base = if p.base_delay == 0 then 100000000 else p.base_delay in
    record p { base_delay = base; max_delay = if p.max_delay == 0 then base else p.max_delay }

pub record Backoff : Type 0 where
  pub policy : Policy
  pub current : ℕ

unfoldable pub new_backoff : Policy → Backoff
unfolding normalized
new_backoff p = let n = normalized p in record { policy = n; current = n.base_delay }

abbrev pub reset : Backoff → Backoff
reset b = record b { current = b.policy.base_delay }

module _ (scaled : ℕ → ℕ) (jittered : ℕ → ℕ) where
  -- `Next`: the delay to wait, and the backoff with the delay after it. `scaled` multiplies by the factor
  -- and `jittered` adds the jitter of this call.
  unfoldable pub next_delay : Backoff → ℕ × Backoff
  next_delay b =
      let grown = scaled b.current in
      let next = if grown == 0 then b.policy.base_delay else grown in
      let capped = if ltb b.policy.max_delay next then b.policy.max_delay else next in
      (jittered b.current, record b { current = capped })

-- The function that is retried and the context, over a state: `attempt` gives the error of a call,
-- `ctx_error` that of the context, and `wait` sleeps for a delay, with `false` when the context ends first.
pub record World (S E : Type 0) : Type 0 where
  pub attempt : S → Option E × S
  pub ctx_error : S → Option E
  pub wait : ℕ → S → Bool × S

abbrev pub spent : MaxRetries → ℕ → Bool
spent (limited n) attempts = leb n attempts
spent unlimited attempts = false

module _ {S E : Type 0} (world : World S E) (scaled : ℕ → ℕ) (jittered : ℕ → ℕ) where
  -- `Sleep`, which does not wait for a delay of 0.
  unfoldable pub sleep : Backoff → S → Bool × Backoff × S
  unfolding next_delay
  sleep b s =
      let (delay, b') = next_delay scaled jittered b in
      let (woken, t) = world.wait delay s in if delay == 0 then (true, b', s) else (woken, b', t)

  abbrev pub after_sleep :
      (Backoff → S → Option (Option E × S)) → Bool × Backoff × S → Option (Option E × S)
  after_sleep next (true, b, s) = next b s
  after_sleep next (false, b, s) = some (world.ctx_error s, s)

  abbrev pub unless_ended : Option (Option E × S) → S → Option E → Option (Option E × S)
  unless_ended next s none = next
  unless_ended next s (some c) = some (some c, s)

  abbrev pub after_attempt :
      (Backoff → S → Option (Option E × S))
      → MaxRetries
      → ℕ
      → Backoff
      → Option E × S
      → Option (Option E × S)
  after_attempt next retries attempts b (none, s) = some (none, s)
  after_attempt next retries attempts b (some e, s) =
      unless_ended
        (if spent retries attempts then some (some e, s) else after_sleep next (sleep b s)) s
        (world.ctx_error s)

  -- The loop of `Retry`, with one turn for each unit of fuel.
  unfoldable pub retry_loop : ℕ → MaxRetries → ℕ → Backoff → S → Option (Option E × S)
  unfolding sleep
  retry_loop zero retries attempts b s = none
  retry_loop (suc fuel) retries attempts b s =
      after_attempt (λ b' t. retry_loop fuel retries (attempts + 1) b' t) retries attempts b
        (world.attempt s)

  abbrev pub retry_by : ℕ → Policy → MaxRetries → S → Option (Option E × S)
  retry_by fuel p (limited zero) s = some (world.attempt s)
  retry_by fuel p (limited (suc n)) s = retry_loop fuel (limited (suc n)) 0 (new_backoff p) s
  retry_by fuel p unlimited s = retry_loop fuel unlimited 0 (new_backoff p) s

  -- `Retry`, with a context.
  unfoldable pub retry : ℕ → Policy → S → Option (Option E × S)
  unfolding retry_loop normalized new_backoff
  retry fuel p s = let n = normalized p in retry_by fuel n n.max_retries s
