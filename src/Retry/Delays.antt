-- ===== src/Retry/Delays.antt =====
-- internal/infra/retry/backoff.go: bounds of the delays.
use mcpv.Base.{ℕ, zero, suc, ◌≤◌, ◌<◌, ◌≡◌, refl, subst, arith}
use mcpv.Retry.{Policy, Backoff, next_delay, new_backoff, normalized}

positive : (p : Policy) → (0 < (normalized p).base_delay) × (0 < (normalized p).max_delay)
unfolding normalized
positive p = (ground arith, ground arith)

module _ (scaled : ℕ → ℕ) (jittered : ℕ → ℕ) where
  -- The backoff after a number of calls of `Next`.
  unfoldable pub delayed : ℕ → Policy → Backoff
  unfolding next_delay new_backoff
  delayed zero p = new_backoff p
  delayed (suc n) p = (next_delay scaled jittered (delayed n p)).1

  delayed-policy : (n : ℕ) (p : Policy) → (delayed n p).policy ≡ normalized p
  unfolding delayed
  delayed-policy zero p = refl
  delayed-policy (suc n) p = delayed-policy n p

  next_delay-bounds :
      (b : Backoff)
      → 0 < b.policy.base_delay
      → 0 < b.policy.max_delay
      → let c = (next_delay scaled jittered b).1.current in (0 < c) × (c ≤ b.policy.max_delay)
  unfolding next_delay
  next_delay-bounds b base max = ground arith

  -- The first delay before jitter is the base delay of the normalised policy, and each later one is
  -- positive and at most the maximal delay of that policy.
  pub delayed-bounds :
      (n : ℕ) (p : Policy)
      → ((delayed 0 p).current ≡ (normalized p).base_delay)
        × (0 < (delayed (suc n) p).current)
        × ((delayed (suc n) p).current ≤ (normalized p).max_delay)
  unfolding delayed
  delayed-bounds n p =
      let (base, max) = positive p in
      let q = delayed-policy n p in
      let (a, b) = next_delay-bounds (delayed n p) (rw q base) (rw q max) in
      (refl, a, subst (λ (x : Policy). (delayed (suc n) p).current ≤ x.max_delay) q b)
