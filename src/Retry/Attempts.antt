-- ===== src/Retry/Attempts.antt =====
-- Which call ends `RetryEngine.execute`, and what it leaves in the counters and the delays.
use seo_agent_rct.Prelude.{
  ℕ, zero, suc, ◌+◌, ◌-◌, ◌∙◌, ℕ_discrete, ◌≤◌, ◌<◌, ◌≡◌, refl, Bool, true, false, not, ◌&&◌, some,
  none, List, [], ◌∷◌, ◌++◌, arith, if◌then◌else◌, Bool-cases, inl, inr,
}
use mathlib.Core.List.{append-nil, append_assoc}
use seo_agent_rct.Retry.{
  RetryEngine, Answer, returned, raised, Outcome, returns, raises, Trace, compute_delay,
  attempt_once, execute_from, execute,
}

-- Whether the engine may try again after an answer.
unfoldable pub may_retry : {E A : Type 0} → RetryEngine E → Answer E A → Bool
may_retry engine (returned a) = false
may_retry engine (raised e) = not (engine.non_retryable e) && engine.retryable e

-- An answer passed on to the caller.
unfoldable pub pass_on : {E A : Type 0} → Answer E A → Outcome E A
pass_on (returned a) = returns a
pass_on (raised e) = raises e

-- The delays of `count` attempts in a row.
unfoldable pub delays : {E : Type 0} → RetryEngine E → (ℕ → ℕ) → (attempt count : ℕ) → List ℕ
delays engine random attempt zero = []
delays engine random attempt (suc count) =
    compute_delay engine attempt (random attempt) ∷ delays engine random (suc attempt) count

-- A call that answers by a script; the world counts the calls made.
abbrev pub scripted : {E A : Type 0} → (ℕ → Answer E A) → ℕ → Answer E A × ℕ
scripted script i = (script i, suc i)

-- The run that starts with call `a` stops with call `n`.
pub record StopsAt {E A : Type 0} (engine : RetryEngine E) (random : ℕ → ℕ)
    (script : ℕ → Answer E A) (a : ℕ) (t : Trace ℕ) (n : ℕ) (result : Outcome E A × Trace ℕ)
    : Type 0 where
  pub from : a ≤ n
  pub in_range : n ≤ engine.max_retries
  pub tried : (i : ℕ) → a ≤ i → i < n → may_retry engine (script i) ≡ true
  pub final : n < engine.max_retries → may_retry engine (script n) ≡ false
  pub outcome : result.0 ≡ pass_on (script n)
  pub calls : result.1.world ≡ suc n
  pub attempts_counted : result.1.retry_attempts + a ≡ t.retry_attempts + n
  pub failures_counted :
      result.1.retry_failures ≡ t.retry_failures + (if may_retry engine (script n) then 1 else 0)
  pub waits : result.1.slept ≡ t.slept ++ delays engine random a (n - a)

module _ {E A : Type 0} (engine : RetryEngine E) (random : ℕ → ℕ) (script : ℕ → Answer E A) where
  once_stop :
      (a : ℕ) (t : Trace ℕ)
      → t.world ≡ a
      → may_retry engine (script a) ≡ false
      → attempt_once engine random (scripted script) a t
        ≡ (some (pass_on (script a)), record t { world = suc a })
  unfolding attempt_once may_retry pass_on
  once_stop a t w h = ground arith

  once_exhausted :
      (a : ℕ) (t : Trace ℕ)
      → t.world ≡ a
      → a ≡ engine.max_retries
      → may_retry engine (script a) ≡ true
      → attempt_once engine random (scripted script) a t ≡ (
        some (pass_on (script a)),
        record t { world = suc a; retry_failures = t.retry_failures + 1 },
      )
  unfolding attempt_once may_retry pass_on
  once_exhausted a t w m h = ground arith

  once_again :
      (a : ℕ) (t : Trace ℕ)
      → t.world ≡ a
      → a < engine.max_retries
      → may_retry engine (script a) ≡ true
      → attempt_once engine random (scripted script) a t ≡ (
        none,
        record t {
          world = suc a;
          retry_attempts = t.retry_attempts + 1;
          slept = t.slept ++ compute_delay engine a (random a) ∷ [];
        },
      )
  unfolding attempt_once may_retry pass_on
  once_again a t w m h = ground arith

  delays_none : (a : ℕ) → delays engine random a (a - a) ≡ []
  unfolding delays
  delays_none a = let e : a - a ≡ 0 = omega arith in rw e

  delays_more :
      (a n : ℕ)
      → a < n
      → delays engine random a (n - a)
        ≡ compute_delay engine a (random a) ∷ delays engine random (suc a) (n - suc a)
  unfolding delays
  delays_more a n h = let e : n - a ≡ suc (n - suc a) = omega arith in rw e

  stop_now :
      (a : ℕ) (t : Trace ℕ)
      → a ≤ engine.max_retries
      → may_retry engine (script a) ≡ false
      → StopsAt engine random script a t a (pass_on (script a), record t { world = suc a })
  stop_now a t m h = record {
    from = omega arith;
    in_range = m;
    tried = λ i l g. absurd (omega arith);
    final = λ l. h;
    outcome = refl;
    calls = refl;
    attempts_counted = refl;
    failures_counted = ground arith;
    waits = rw (delays_none, append-nil);
  }

  stop_exhausted :
      (a : ℕ) (t : Trace ℕ)
      → a ≡ engine.max_retries
      → may_retry engine (script a) ≡ true
      → StopsAt engine random script a t a
          (pass_on (script a), record t { world = suc a; retry_failures = t.retry_failures + 1 })
  stop_exhausted a t m h = record {
    from = omega arith;
    in_range = omega arith;
    tried = λ i l g. absurd (omega arith);
    final = λ l. absurd (omega arith);
    outcome = refl;
    calls = refl;
    attempts_counted = refl;
    failures_counted = ground arith;
    waits = rw (delays_none, append-nil);
  }

  tried_from :
      (a n : ℕ)
      → may_retry engine (script a) ≡ true
      → ((i : ℕ) → suc a ≤ i → i < n → may_retry engine (script i) ≡ true)
      → (i : ℕ) → a ≤ i
      → i < n
      → may_retry engine (script i) ≡ true
  tried_from a n h rest i l g = elim (ℕ_discrete a i) [
    | yes e ↦ rw (← e) h
    | no d ↦ rest i (omega arith) g
  ]

  go_on :
      (a n : ℕ) (t : Trace ℕ) (result : Outcome E A × Trace ℕ)
      → may_retry engine (script a) ≡ true
      → StopsAt engine random script
          (suc a)
          (record t {
            world = suc a;
            retry_attempts = t.retry_attempts + 1;
            slept = t.slept ++ compute_delay engine a (random a) ∷ [];
          })
          n
          result
      → StopsAt engine random script a t n result
  go_on a n t result h s = record {
    from = omega arith;
    in_range = s.in_range;
    tried = tried_from a n h s.tried;
    final = s.final;
    outcome = s.outcome;
    calls = s.calls;
    attempts_counted = omega (arith, s.attempts_counted);
    failures_counted = s.failures_counted;
    waits = rw (delays_more a n s.from) (s.waits ∙ append_assoc t.slept _ _);
  }

  from_stop :
      (r a : ℕ) (t : Trace ℕ) (o : Outcome E A) (t' : Trace ℕ)
      → attempt_once engine random (scripted script) a t ≡ (some o, t')
      → execute_from engine random (scripted script) (suc r) a t ≡ (o, t')
  unfolding execute_from
  from_stop r a t o t' h = ground arith

  from_again :
      (r a : ℕ) (t t' : Trace ℕ)
      → attempt_once engine random (scripted script) a t ≡ (none, t')
      → execute_from engine random (scripted script) (suc (suc r)) a t
        ≡ execute_from engine random (scripted script) (suc r) (suc a) t'
  unfolding execute_from
  from_again r a t t' h = ground arith

  execute_from-StopsAt :
      (r a : ℕ) (t : Trace ℕ)
      → t.world ≡ a
      → a + r ≡ engine.max_retries
      → (n : ℕ) × StopsAt engine random script a t n
          (execute_from engine random (scripted script) (suc r) a t)
  execute_from-StopsAt zero a t w m = elim (Bool-cases (may_retry engine (script a))) [
    | inl again ↦ (
      a,
      rw (from_stop zero a t _ _ (once_exhausted a t w (omega arith) again))
          (stop_exhausted a t (omega arith) again),
    )
    | inr done ↦
        (a, rw (from_stop zero a t _ _ (once_stop a t w done)) (stop_now a t (omega arith) done))
  ]
  execute_from-StopsAt (suc r) a t w m = elim (Bool-cases (may_retry engine (script a))) [
    | inl again ↦
        let t' : Trace ℕ = record t {
          world = suc a;
          retry_attempts = t.retry_attempts + 1;
          slept = t.slept ++ compute_delay engine a (random a) ∷ [];
        } in
        let (n, s) = execute_from-StopsAt r (suc a) t' refl (omega arith) in
        (n, rw (from_again r a t _ (once_again a t w (omega arith) again)) (go_on a n t _ again s))
    | inr done ↦
        (a, rw (from_stop (suc r) a t _ _ (once_stop a t w done)) (stop_now a t (omega arith) done))
  ]

  -- `execute` stops with one call `n` of the function, at most `max_retries` after the first. Every
  -- call before it raised an exception that may be retried; call `n` does not, unless no retry is
  -- left. Its answer is the outcome, and the loop never falls through to `return None`. The
  -- function is called n + 1 times, and n retries are counted, each with its delay slept. A failure
  -- is counted exactly when the last exception could have been retried.
  pub execute-StopsAt :
      (t : Trace ℕ)
      → t.world ≡ 0
      → (n : ℕ) × StopsAt engine random script 0 t n (execute engine random (scripted script) t)
  unfolding execute
  execute-StopsAt t w = execute_from-StopsAt engine.max_retries 0 t w (omega arith)
