-- ===== src/Retry.antt =====
-- `RetryEngine` of backend/retry.py. A delay is a whole number of ticks, and a random draw is the
-- numerator of `random.random()`, which Python returns as a multiple of 2^-53.
mod Tests
pub mod Delay
pub mod Attempts
pub mod World
use seo_agent_rct.Prelude.{
  ℕ, zero, suc, ◌+◌, ◌*◌, ◌/◌, ◌^◌, min, Bool, true, false, Option, none, some, List, [], ◌∷◌, ◌++◌,
  ltb, if◌then◌else◌,
}

-- The settings that `__init__` falls back on.
pub record Settings : Type 0 where
  pub max_job_retries : ℕ
  pub retry_base_delay : ℕ
  pub retry_max_delay : ℕ

-- `E` is the type of exceptions. `retryable` and `non_retryable` are the `isinstance` tests against
-- the two tuples of exception classes. A negative `max_retries`, with which `execute` returns `None`
-- without a call, is not modelled.
pub record RetryEngine (E : Type 0) : Type 0 where
  pub max_retries : ℕ
  pub initial_delay : ℕ
  pub max_delay : ℕ
  pub backoff_factor : ℕ
  pub jitter : Bool
  pub retryable : E → Bool
  pub non_retryable : E → Bool

-- What a call of the wrapped function does.
pub data Answer (E A : Type 0) : Type 0 where
  returned : A → Answer E A
  raised : E → Answer E A

-- What `execute` does: `fell_through` is the implicit `return None` after the loop.
pub data Outcome (E A : Type 0) : Type 0 where
  returns : A → Outcome E A
  raises : E → Outcome E A
  fell_through : Outcome E A

-- The world that the wrapped function acts on, the two counters of the metrics registry that the
-- engine moves, and the delays slept, the latest last.
pub record Trace (S : Type 0) : Type 0 where
  pub world : S
  pub retry_attempts : ℕ
  pub retry_failures : ℕ
  pub slept : List ℕ

abbrev or_default : Option ℕ → ℕ → ℕ
or_default none d = d
or_default (some x) d = x

abbrev pub uniform_unit : ℕ
uniform_unit = 2 ^ 53

-- `random.uniform(0.0, 0.1 * delay)` at the draw `u / 2^53`
unfoldable pub jitter_of : ℕ → ℕ → ℕ
jitter_of delay u = delay * u / (10 * uniform_unit)

module _ {E : Type 0} where
  -- `RetryEngine.__init__`
  unfoldable pub init :
      Settings
      → (max_retries initial_delay max_delay : Option ℕ) → (backoff_factor : ℕ) → Bool
      → (retryable non_retryable : E → Bool) → RetryEngine E
  init settings max_retries initial_delay max_delay backoff_factor jitter retryable non_retryable =
      record {
        max_retries = or_default max_retries settings.max_job_retries;
        initial_delay = or_default initial_delay settings.retry_base_delay;
        max_delay = or_default max_delay settings.retry_max_delay;
        backoff_factor = backoff_factor;
        jitter = jitter;
        retryable = retryable;
        non_retryable = non_retryable;
      }

  -- `RetryEngine.compute_delay`
  unfoldable pub compute_delay : RetryEngine E → ℕ → ℕ → ℕ
  unfolding jitter_of
  compute_delay engine attempt u =
      let delay = min (engine.initial_delay * engine.backoff_factor ^ attempt) engine.max_delay in
      if engine.jitter then delay + jitter_of delay u else delay

module _ {E A S : Type 0} (engine : RetryEngine E) (random : ℕ → ℕ)
    (func : S → Answer E A × S) where
  -- The handler of the `except` block, without the loop: `some` outcome ends `execute`, and `none`
  -- goes on to the next attempt.
  unfoldable pub on_exception : ℕ → E → Trace S → Option (Outcome E A) × Trace S
  on_exception attempt e t =
      if engine.non_retryable e
      then (some (raises e), t)
      else if engine.retryable e
      then (if ltb attempt engine.max_retries
          then (
            none,
            record t {
              retry_attempts = t.retry_attempts + 1;
              slept = t.slept ++ compute_delay engine attempt (random attempt) ∷ [];
            },
          )
          else (some (raises e), record t { retry_failures = t.retry_failures + 1 }))
      else (some (raises e), t)

  -- One round of the loop: the call, and the handler if it raises.
  unfoldable pub attempt_once : ℕ → Trace S → Option (Outcome E A) × Trace S
  unfolding on_exception
  attempt_once attempt t =
      let (answer, world) = func t.world in
      let t' : Trace S = record t { world = world } in
      elim answer [ returned a ↦ (some (returns a), t') | raised e ↦ on_exception attempt e t' ]

  -- `for attempt in range(...)` with `rounds` rounds left.
  unfoldable pub execute_from : (rounds attempt : ℕ) → Trace S → Outcome E A × Trace S
  execute_from zero attempt t = (fell_through, t)
  execute_from (suc rounds) attempt t =
      let (stop, t') = attempt_once attempt t in
      elim stop [ some outcome ↦ (outcome, t') | none ↦ execute_from rounds (suc attempt) t' ]

  -- `RetryEngine.execute`
  unfoldable pub execute : Trace S → Outcome E A × Trace S
  execute t = execute_from (suc engine.max_retries) 0 t
