-- ===== src/Scheduler/Lifecycle/Causes.antt =====
-- What recording a start cause leaves alone, and the reservation of `SetDesiredMinReady`.
use mcpv.Base.{
  ℕ, ◌+◌, ◌≡◌, refl, ap, Option, none, some, List, [], ◌∷◌, Bool-cases, inl, inr, arith, length,
  max, if◌then◌else◌, ◌==◌,
}
use mcpv.Domain.Instance.{StartCause, set_last_start_cause}
use mcpv.Scheduler.State.{PoolState, modify}
use mcpv.Scheduler.Acquire.{should_override_cause}
use mcpv.Scheduler.Lifecycle.{update_causes, apply_cause_to_all, with_cause, reserve_min_ready}

-- A property that holds whatever the causes are.
module _ {ℓ} (P : PoolState → Type ℓ)
    (keeps : (h : ℕ) (c : StartCause) (s : PoolState)
      → P s
      → P (modify h (set_last_start_cause (some c)) s))
    (records : (c : StartCause) (s : PoolState)
      → P s
      → P (record s { last_start_cause = some c })) where
  update_causes-keeps :
      (c : StartCause) (hs : List ℕ) (s : PoolState) → P s → P (update_causes c hs s)
  unfolding update_causes
  update_causes-keeps c [] s p = p
  update_causes-keeps c (h ∷ hs) s p =
      update_causes-keeps c hs _
        (elim (Bool-cases (should_override_cause (s.heap h).last_start_cause c)) [
          | inl e ↦ rw e (keeps h c s p)
          | inr e ↦ rw e p
        ])

  pub with_cause-keeps :
      (cause : Option StartCause) (now : ℕ) (s : PoolState) → P s → P (with_cause cause now s)
  unfolding apply_cause_to_all
  with_cause-keeps none now s p = p
  with_cause-keeps (some c) now s p =
      let c' : StartCause = record c {
        timestamp = if c.timestamp == 0 then now else c.timestamp;
      } in
      update_causes-keeps c' s.draining _ (update_causes-keeps c' s.instances _ (records c s p))

cause-frame :
    (cause : Option StartCause) (now : ℕ) (s : PoolState)
    → let t = with_cause cause now s in
      (t.instances ≡ s.instances) × (t.starting ≡ s.starting) × (t.min_ready ≡ s.min_ready)
cause-frame cause now s =
    with_cause-keeps
      (λ t. (t.instances ≡ s.instances) × (t.starting ≡ s.starting) × (t.min_ready ≡ s.min_ready))
      (λ h c t p. p) (λ c t p. p) cause now s (refl, refl, refl)

-- The first section of `SetDesiredMinReady` sets the minimum and reserves just as many starts as,
-- with the instances there are and the starts already reserved, make up the minimum, and none if
-- these reach it already; the instances stay.
pub reserve_min_ready_lem :
    (now n : ℕ) (cause : Option StartCause) (s : PoolState)
    → let (to_start, s') = reserve_min_ready now cause n s in
      (s'.min_ready ≡ n)
      × (s'.instances ≡ s.instances)
      × (s'.starting ≡ s.starting + to_start)
      × (length s'.instances + s'.starting ≡ max n (length s.instances + s.starting))
unfolding reserve_min_ready
reserve_min_ready_lem now n cause s =
    let (i, st, m) = cause-frame cause now (record s { min_ready = n }) in
    (m, i, omega (arith, st, ap length i), omega (arith, st, ap length i))
