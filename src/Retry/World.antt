-- ===== src/Retry/World.antt =====
-- What the wrapped function leaves alone, `RetryEngine.execute` leaves alone.
use seo_agent_rct.Prelude.{ℕ, zero, suc, ◌≡◌, refl, arith}
use seo_agent_rct.Retry.{RetryEngine, Answer, Trace, attempt_once, execute_from, execute}

module _ {E A S B : Type 0} (engine : RetryEngine E) (random : ℕ → ℕ) (func : S → Answer E A × S)
    (view : S → B) (quiet : (s : S) → view (func s).1 ≡ view s) where
  attempt_once-view :
      (a : ℕ) (t : Trace S) → view (attempt_once engine random func a t).1.world ≡ view t.world
  unfolding attempt_once
  attempt_once-view a t = ground (arith, quiet t.world)

  execute_from-view :
      (r a : ℕ) (t : Trace S) → view (execute_from engine random func r a t).1.world ≡ view t.world
  unfolding execute_from
  execute_from-view zero a t = refl
  execute_from-view (suc r) a t =
      let t' : Trace S = (attempt_once engine random func a t).1 in
      ground (arith, attempt_once-view a t, execute_from-view r (suc a) t')

  pub execute-view : (t : Trace S) → view (execute engine random func t).1.world ≡ view t.world
  unfolding execute
  execute-view t = execute_from-view (suc engine.max_retries) 0 t
