-- ===== src/BrowserPool/Tests.antt =====
-- A pool of two browsers, with two contexts on the first and then a third request.
use seo_agent_rct.Prelude.{ℕ, ◌≡◌, inl, refl, Bool, true, false, none, List, [], ◌∷◌, arith}
use seo_agent_rct.BrowserPool.{
  Crawls, enter_context, leave_context, acquire_browser, acquire_locked, initialize, recover,
  sort_by_load, insert_by_load, pick, launch, release_browser, remove_one, count, is_dropped,
}
use seo_agent_rct.BrowserPool.Calls.{PoolCall, enter, leave, clean, perform, perform_all, IsLoaded}
use seo_agent_rct.BrowserPool.Loads.{perform_all-IsLoaded}

abbrev new_pool : Crawls
new_pool = record {
  pool = record {
    pool_size = 2;
    idle_timeout = 60;
    playwright = false;
    semaphore = none;
    browsers = [];
    objects = λ id. record { last_used_at = 0; active_contexts = 0; is_healthy = false };
    counter = 0;
    is_closed = false;
  };
  contexts = [];
}

new_pool-IsLoaded : IsLoaded new_pool
unfolding count
new_pool-IsLoaded = record {
  loads = λ id. refl;
  balanced = refl;
  few = omega arith;
  known = tt;
  known_contexts = tt;
  begun = inl refl;
}

abbrev up : ℕ → Bool
up id = true

abbrev calls : List PoolCall
calls =
    enter 1 up true
    ∷ enter 2 up true
    ∷ enter 3 up true
    ∷ leave 4 1 true
    ∷ enter 5 up true
    ∷ clean 90 up
    ∷ []

perform_all-IsLoaded_example : IsLoaded (perform_all calls new_pool)
perform_all-IsLoaded_example = perform_all-IsLoaded calls new_pool new_pool-IsLoaded

-- The third request waits, and the browser whose context failed is replaced.
crawled : (perform_all calls new_pool).contexts ≡ 3 ∷ 2 ∷ []
unfolding perform_all perform enter_context leave_context acquire_browser acquire_locked initialize
    recover sort_by_load insert_by_load pick launch release_browser remove_one count is_dropped
crawled = refl
