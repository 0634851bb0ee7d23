-- ===== src/ServerInit/Delays.antt =====
-- internal/app/bootstrap/serverinit/manager.go: the delays between attempts.
use Prim.Native.Nat.{◌^◌}
use native.Mathlib.Nat.{pow-zero, pow-succ', mul_assoc, mul-one}
use mcpv.Base.{
  Bool-cases, inl, inr, ltb, leb, ◌<◌, ℕ, zero, suc, ◌-◌, ◌*◌, ◌≤◌, ◌≡◌, sym, ap, ◌∙◌, min, arith,
}
use mcpv.ServerInit.{from_least, doubled, double_delay, next_retry_delay}

double_once : (d r : ℕ) → d * 2 ^ suc r ≡ d * 2 * 2 ^ r
double_once d r = ap (λ x. d * x) (pow-succ' 2 r) ∙ sym (mul_assoc d 2 (2 ^ r))

grows : (r d : ℕ) → d ≤ d * 2 ^ r
grows zero d = omega (arith, ap (λ x. d * x) (pow-zero 2) ∙ mul-one d)
grows (suc r) d = omega (arith, double_once d r, grows r (d * 2))

-- Twice a delay below 2 ^ 62 is not negative, and is compared with a maximum that is not either.
double_below :
    (max d : ℕ)
    → d < 4611686018427387904
    → max ≤ 4611686018427387904
    → (doubled d ≡ d * 2)
      × (leb (from_least max) (from_least (d * 2)) ≡ leb max (d * 2))
      × (ltb (from_least max) (from_least d) ≡ ltb max d)
double_below max d small limit = (omega arith, ground arith, ground arith)

double_delay-min :
    (max rounds delay : ℕ)
    → delay < 4611686018427387904
    → max ≤ 4611686018427387904
    → double_delay max rounds delay ≡ min (delay * 2 ^ rounds) max
unfolding double_delay
double_delay-min max zero delay small limit =
    let (_, _, order) = double_below max delay small limit in
    rw order (ground (arith, ap (λ x. delay * x) (pow-zero 2) ∙ mul-one delay))
double_delay-min max (suc rounds) delay small limit =
    let (twice, order, _) = double_below max delay small limit in
    rw (twice, order)
      (elim (Bool-cases (leb max (delay * 2))) [
        | inl e ↦ rw e (ground (arith, double_once delay rounds, grows rounds (delay * 2), e))
        | inr e ↦
            let below : delay * 2 < 4611686018427387904 = ground (arith, e, limit) in
            rw e (
              double_delay-min max rounds (delay * 2) below limit
              ∙ ap (λ x. min x max) (sym (double_once delay rounds)))
      ])

-- For a base delay below 2 ^ 62 and a maximum up to 2 ^ 62 nanoseconds, the delay at a retry count of `n`
-- is the base delay doubled `n - 1` times, or the maximum if that is less: the loop on signed words of 64
-- bits that stops early computes the closed form, and no doubling overflows.
pub next_retry_delay-min :
    (base max n : ℕ)
    → base < 4611686018427387904
    → max ≤ 4611686018427387904
    → next_retry_delay base max n ≡ min (base * 2 ^ (n - 1)) max
unfolding next_retry_delay
next_retry_delay-min base max zero small limit = double_delay-min max (1 - 1) base small limit
next_retry_delay-min base max (suc n) small limit =
    ground (arith, double_delay-min max (suc n - 1) base small limit)
