-- ===== src/Retry/Delay.antt =====
-- The delays of `RetryEngine.compute_delay`.
use native.Mathlib.Nat.{pow-suc, add-zero, add-suc, le_refl, le_trans}
use seo_agent_rct.Prelude.{ℕ, zero, suc, ◌+◌, ◌*◌, ◌^◌, ◌≤◌, ◌<◌, ◌≡◌, min, false, arith}
use seo_agent_rct.Retry.{RetryEngine, jitter_of, compute_delay, uniform_unit}

scale_le : (d u m : ℕ) → u ≤ m → d * u ≤ d * m
scale_le d u m h = grind arith

jitter_bound : (delay u : ℕ) → u < uniform_unit → jitter_of delay u * 10 ≤ delay
unfolding jitter_of
jitter_bound delay u h = omega (arith, scale_le delay u uniform_unit (omega arith))

-- A computed delay is at least the capped exponential delay and exceeds it by a tenth at most, so
-- it never passes the cap by more than a tenth.
pub compute_delay_bounds :
    {E : Type 0} (engine : RetryEngine E) (attempt u : ℕ)
    → u < uniform_unit
    → let base = min (engine.initial_delay * engine.backoff_factor ^ attempt) engine.max_delay in
      (base ≤ compute_delay engine attempt u)
      × (10 * compute_delay engine attempt u ≤ 11 * base)
      × (10 * compute_delay engine attempt u ≤ 11 * engine.max_delay)
unfolding compute_delay
compute_delay_bounds engine attempt u h =
    let base : ℕ = min (engine.initial_delay * engine.backoff_factor ^ attempt) engine.max_delay in
    ground (arith, jitter_bound base u h)

pow_mono : (b a k : ℕ) → 1 ≤ b → b ^ a ≤ b ^ (a + k)
pow_mono b a zero h = rw add-zero (le_refl _)
pow_mono b a (suc k) h = rw (add-suc, pow-suc) (le_trans (pow_mono b a k h) (grind arith))

-- Without jitter, a later attempt never waits for less time.
pub compute_delay_mono :
    {E : Type 0} (engine : RetryEngine E) (attempt k u v : ℕ)
    → engine.jitter ≡ false
    → 1 ≤ engine.backoff_factor
    → compute_delay engine attempt u ≤ compute_delay engine (attempt + k) v
unfolding compute_delay
compute_delay_mono engine attempt k u v j h =
    ground (arith, scale_le engine.initial_delay _ _ (pow_mono engine.backoff_factor attempt k h))
