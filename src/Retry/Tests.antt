-- ===== src/Retry/Tests.antt =====
-- The retry engine on concrete scripts.
use seo_agent_rct.Prelude.{
  ℕ, zero, suc, ◌*◌, ◌^◌, ◌≤◌, refl, min, Bool, true, false, String, [], arith,
}
use seo_agent_rct.Retry.{RetryEngine, Answer, returned, raised, Trace, compute_delay, execute}
use seo_agent_rct.Retry.Attempts.{StopsAt, scripted, execute-StopsAt}
use seo_agent_rct.Retry.Delay.{compute_delay_bounds, compute_delay_mono}

abbrev engine_with : Bool → RetryEngine String
engine_with jitter = record {
  max_retries = 3;
  initial_delay = 2000;
  max_delay = 60000;
  backoff_factor = 2;
  jitter = jitter;
  retryable = λ e. true;
  non_retryable = λ e. false;
}

-- Two failures, then a result.
abbrev third_time : ℕ → Answer String ℕ
third_time zero = raised "timeout"
third_time (suc zero) = raised "timeout"
third_time (suc (suc n)) = returned 5

abbrev fresh_trace : Trace ℕ
fresh_trace = record { world = 0; retry_attempts = 0; retry_failures = 0; slept = [] }

abbrev no_draw : ℕ → ℕ
no_draw i = 0

execute-StopsAt_example :
    (n : ℕ) × StopsAt
      (engine_with true)
      no_draw
      third_time
      0
      fresh_trace
      n
      (execute (engine_with true) no_draw (scripted third_time) fresh_trace)
execute-StopsAt_example = execute-StopsAt (engine_with true) no_draw third_time fresh_trace refl

waits_between :
    (min (2000 * 2 ^ 4) 60000 ≤ compute_delay (engine_with true) 4 1000)
    × (10 * compute_delay (engine_with true) 4 1000 ≤ 11 * min (2000 * 2 ^ 4) 60000)
    × (10 * compute_delay (engine_with true) 4 1000 ≤ 11 * 60000)
waits_between = compute_delay_bounds (engine_with true) 4 1000 (omega arith)

waits_no_less : compute_delay (engine_with false) 1 9 ≤ compute_delay (engine_with false) 3 4
waits_no_less = compute_delay_mono (engine_with false) 1 2 9 4 refl (omega arith)
