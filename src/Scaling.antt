-- ===== src/Scaling.antt =====
-- How a worker sets its number of threads: `get_scaling_hints` of backend/queue.py, and
-- `adjust_concurrency` and `auto_tune_concurrency` of backend/worker.py. The reason and the pressure
-- index of a hint are only reported, and left out; so is the replacement of the thread pool.
mod Tests
pub mod Bounds
use seo_agent_rct.Prelude.{
  ℕ, ◌+◌, ◌-◌, ◌*◌, ◌/◌, min, max, Bool, true, false, ◌&&◌, ltb, leb, ◌==◌, if◌then◌else◌,
}

pub data Action : Type 0 where
  scale_up scale_down maintain : Action

pub record Hint : Type 0 where
  pub action : Action
  pub recommended_concurrency : ℕ

-- `get_scaling_hints`
unfoldable pub get_scaling_hints : (total_queued current_concurrency active_jobs : ℕ) → Hint
get_scaling_hints total_queued current_concurrency active_jobs =
    if ltb (current_concurrency * 2) total_queued
    then record { action = scale_up; recommended_concurrency = min 20 (current_concurrency + 5) }
    else if ltb 0 total_queued && leb current_concurrency active_jobs
    then record { action = scale_up; recommended_concurrency = min 20 (current_concurrency + 2) }
    else if (total_queued == 0)
        && ltb active_jobs (current_concurrency / 2)
        && ltb 2 current_concurrency
    then record { action = scale_down; recommended_concurrency = max 2 (current_concurrency - 2) }
    else record { action = maintain; recommended_concurrency = current_concurrency }

-- `adjust_concurrency`: the new concurrency.
unfoldable pub adjust_concurrency : (new_concurrency concurrency : ℕ) → ℕ
adjust_concurrency new_concurrency concurrency =
    let target = max 1 (min 100 new_concurrency) in
    if target == concurrency then concurrency else target

-- `auto_tune_concurrency`: the new concurrency.
unfoldable pub auto_tune_concurrency : (total_queued active_jobs concurrency : ℕ) → ℕ
auto_tune_concurrency total_queued active_jobs concurrency =
    let hint = get_scaling_hints total_queued concurrency active_jobs in
    elim hint.action [
      | maintain ↦ concurrency
      | _ ↦ adjust_concurrency hint.recommended_concurrency concurrency
    ]
