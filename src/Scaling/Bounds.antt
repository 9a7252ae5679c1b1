-- ===== src/Scaling/Bounds.antt =====
-- The bounds of the concurrency of a worker.
use seo_agent_rct.Prelude.{ℕ, ◌*◌, ◌≤◌, ◌<◌, ◌≡◌, List, [], ◌∷◌, arith}
use seo_agent_rct.Scaling.{scale_up, get_scaling_hints, adjust_concurrency, auto_tune_concurrency}

-- The tunings of a worker under a sequence of loads: the jobs queued and the jobs active.
unfoldable pub tune_all : List (ℕ × ℕ) → ℕ → ℕ
tune_all [] concurrency = concurrency
tune_all ((queued, active) ∷ loads) concurrency =
    tune_all loads (auto_tune_concurrency queued active concurrency)

tune_bounds :
    (queued active c : ℕ)
    → 2 ≤ c
    → c ≤ 20
    → (2 ≤ auto_tune_concurrency queued active c) × (auto_tune_concurrency queued active c ≤ 20)
unfolding auto_tune_concurrency get_scaling_hints adjust_concurrency
tune_bounds queued active c low high = ground arith

-- From a concurrency between 2 and 20, tuning under any sequence of loads stays between 2 and 20.
pub tune_all_bounds :
    (loads : List (ℕ × ℕ)) (c : ℕ)
    → 2 ≤ c
    → c ≤ 20
    → (2 ≤ tune_all loads c) × (tune_all loads c ≤ 20)
unfolding tune_all
tune_all_bounds [] c low high = (low, high)
tune_all_bounds ((queued, active) ∷ loads) c low high =
    let (l, h) = tune_bounds queued active c low high in
    tune_all_bounds loads (auto_tune_concurrency queued active c) l h

-- Above a concurrency of 20, the hint to scale up lowers it: with a queue of more than twice the
-- concurrency, the tuning leaves 20 threads.
pub auto_tune_concurrency-scale_up :
    (queued active c : ℕ)
    → 20 < c
    → c * 2 < queued
    → ((get_scaling_hints queued c active).action ≡ scale_up)
      × (auto_tune_concurrency queued active c ≡ 20)
unfolding auto_tune_concurrency get_scaling_hints adjust_concurrency
auto_tune_concurrency-scale_up queued active c high full = ground arith
