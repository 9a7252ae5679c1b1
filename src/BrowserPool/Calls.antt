-- ===== src/BrowserPool/Calls.antt =====
-- The calls on a pool, and what holds of it between them.
use seo_agent_rct.Prelude.{
  ℕ, ◌+◌, ◌≤◌, ◌≡◌, ◌⊎◌, Bool, true, Option, none, some, List, [], ◌∷◌, ltb, length, max, All,
  if◌then◌else◌,
}
use seo_agent_rct.BrowserPool.{
  BrowserPool, Crawls, cleanup_idle_browsers, close, enter_context, count, leave_context,
}

-- What happens to a pool: a context is asked for, an open one ends, idle browsers are cleaned up,
-- the pool is closed.
pub data PoolCall : Type 0 where
  enter : (now : ℕ) → (connected : ℕ → Bool) → (launches : Bool) → PoolCall
  leave : (now id : ℕ) → (failed : Bool) → PoolCall
  clean : (now : ℕ) → (connected : ℕ → Bool) → PoolCall
  shut : PoolCall

-- One call, with no other in between. Only a context that is open can end.
unfoldable pub perform : PoolCall → Crawls → Crawls
unfolding enter_context leave_context cleanup_idle_browsers close count
perform (enter now connected launches) c = enter_context now connected launches c
perform (leave now id failed) c =
    if ltb 0 (count id c.contexts) then leave_context now id failed c else c
perform (clean now connected) c = record {
  pool = cleanup_idle_browsers now connected c.pool;
  contexts = c.contexts;
}
perform shut c = record { pool = close c.pool; contexts = c.contexts }

unfoldable pub perform_all : List PoolCall → Crawls → Crawls
unfolding perform
perform_all [] c = c
perform_all (k ∷ ks) c = perform_all ks (perform k c)

-- The permits that are left, and the open contexts, make up the size of the pool.
abbrev pub Balanced : (size : ℕ) → (semaphore : Option ℕ) → (contexts : List ℕ) → Type 0
Balanced size none contexts = contexts ≡ []
Balanced size (some permits) contexts = permits + length contexts ≡ size

-- The load of every browser is the number of its open contexts, no more contexts are open than the
-- size of the pool, and the pool has no more browsers than its size, or one.
pub record Loaded (p : BrowserPool) (contexts : List ℕ) : Type 0 where
  pub loads : (id : ℕ) → (p.objects id).active_contexts ≡ count id contexts
  pub balanced : Balanced p.pool_size p.semaphore contexts
  pub few : length p.browsers ≤ max 1 p.pool_size
  pub known : All (λ id. id ≤ p.counter) p.browsers
  pub known_contexts : All (λ id. id ≤ p.counter) contexts
  pub begun : (p.semaphore ≡ none) ⊎ (p.playwright ≡ true) ⊎ (p.is_closed ≡ true)

abbrev pub IsLoaded : Crawls → Type 0
IsLoaded c = Loaded c.pool c.contexts
