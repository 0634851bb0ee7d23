-- ===== src/Retry/Attempts.antt =====
-- internal/infra/retry/retry.go: a limit on the retries ends them.
use mcpv.Base.{
  ℕ, zero, suc, ◌+◌, ◌≤◌, ◌<◌, ◌≡◌, refl, subst, sym, inl, inr, Bool, true, false, Option, none,
  some, leb, Bool-cases, is_some, arith,
}
use mcpv.Retry.{
  Policy, MaxRetries, limited, Backoff, World, retry, retry_loop, retry_by, after_attempt,
  after_sleep, unless_ended, sleep, normalized, new_backoff,
}

module _ {S E : Type 0} (world : World S E) (scaled : ℕ → ℕ) (jittered : ℕ → ℕ) where
  after_sleep-ends :
      (next : Backoff → S → Option (Option E × S)) (r : Bool × Backoff × S)
      → ((b : Backoff) (s : S) → is_some (next b s) ≡ true)
      → is_some (after_sleep world scaled jittered next r) ≡ true
  after_sleep-ends next (true, b, s) ends = ends b s
  after_sleep-ends next (false, b, s) ends = refl

  unless_ended-ends :
      (o : Option (Option E × S)) (s : S) (c : Option E)
      → is_some o ≡ true
      → is_some (unless_ended world scaled jittered o s c) ≡ true
  unless_ended-ends o s none ends = ends
  unless_ended-ends o s (some c) ends = refl

  after_attempt-ends :
      (next : Backoff → S → Option (Option E × S)) (n attempts : ℕ) (b : Backoff) (r : Option E × S)
      → (leb n attempts ≡ false → (c : Backoff) (s : S) → is_some (next c s) ≡ true)
      → is_some (after_attempt world scaled jittered next (limited n) attempts b r) ≡ true
  after_attempt-ends next n attempts b (none, s) ends = refl
  after_attempt-ends next n attempts b (some e, s) ends =
      unless_ended-ends _ s (world.ctx_error s) (elim (Bool-cases (leb n attempts)) [
        | inl t ↦ rw t refl
        | inr t ↦ rw t (after_sleep-ends next (sleep world scaled jittered b s) (ends t))
      ])

  retry_loop-ends :
      (fuel n attempts : ℕ) (b : Backoff) (s : S)
      → attempts ≤ n
      → n < fuel + attempts
      → is_some (retry_loop world scaled jittered fuel (limited n) attempts b s) ≡ true
  unfolding retry_loop
  retry_loop-ends zero n attempts b s below enough = absurd (omega arith)
  retry_loop-ends (suc fuel) n attempts b s below enough =
      after_attempt-ends
        (λ c t. retry_loop world scaled jittered fuel (limited n) (attempts + 1) c t) n attempts b
        (world.attempt s)
        (λ more c t. retry_loop-ends fuel n (attempts + 1) c t (ground (arith, more)) (omega arith))

  retry_by-ends :
      (n : ℕ) (p : Policy) (s : S)
      → is_some (retry_by world scaled jittered (suc n) p (limited n) s) ≡ true
  retry_by-ends zero p s = refl
  retry_by-ends (suc n) p s =
      retry_loop-ends (suc (suc n)) (suc n) 0 (new_backoff p) s (omega arith) (omega arith)

  -- With a limit of `n` retries, `Retry` returns after at most `n + 1` calls of its function, whatever
  -- the function, the context and the clock do.
  pub retry-ends :
      (n : ℕ) (p : Policy) (s : S)
      → p.max_retries ≡ limited n
      → is_some (retry world scaled jittered (suc n) p s) ≡ true
  unfolding retry normalized
  retry-ends n p s e =
      subst
        (λ (r : MaxRetries).
          is_some (retry_by world scaled jittered (suc n) (normalized p) r s) ≡ true)
        (sym e) (retry_by-ends n (normalized p) s)
