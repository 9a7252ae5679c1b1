-- ===== src/Scaling/Tests.antt =====
-- Loads of a worker.
use seo_agent_rct.Prelude.{◌≤◌, ◌≡◌, [], ◌∷◌, arith}
use seo_agent_rct.Scaling.{scale_up, get_scaling_hints, auto_tune_concurrency}
use seo_agent_rct.Scaling.Bounds.{tune_all, tune_all_bounds, auto_tune_concurrency-scale_up}

tuned_bounds :
    (2 ≤ tune_all ((90, 5) ∷ (3, 10) ∷ (0, 1) ∷ []) 5)
    × (tune_all ((90, 5) ∷ (3, 10) ∷ (0, 1) ∷ []) 5 ≤ 20)
tuned_bounds = tune_all_bounds ((90, 5) ∷ (3, 10) ∷ (0, 1) ∷ []) 5 (omega arith) (omega arith)

scales_down :
    ((get_scaling_hints 100 40 40).action ≡ scale_up) × (auto_tune_concurrency 100 40 40 ≡ 20)
scales_down = auto_tune_concurrency-scale_up 100 40 40 (omega arith) (omega arith)
