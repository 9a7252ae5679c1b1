-- ===== src/BrowserPool.antt =====
-- `BrowserPool` of backend/browser_pool.py. A browser object stands in a store under its id, since a
-- context keeps its browser when the pool has dropped it from its list. Playwright is a parameter of
-- each call: whether a browser is connected, and whether a launch succeeds.
mod Tests
pub mod Calls
pub mod Ids
pub mod Picking
pub mod Loads
use seo_agent_rct.Prelude.{
  ℕ, zero, suc, ◌+◌, ◌-◌, Bool, true, false, not, ◌&&◌, ◌||◌, Option, none, some, List, [], ◌∷◌,
  ◌++◌, ltb, leb, ◌==◌, length, keep, if◌then◌else◌,
}

-- `PooledBrowser`
pub record PooledBrowser : Type 0 where
  pub last_used_at : ℕ
  pub active_contexts : ℕ
  pub is_healthy : Bool

-- `semaphore` holds the permits that are left; `browsers` are the ids of `_browsers`, in its order.
pub record BrowserPool : Type 0 where
  pub pool_size : ℕ
  pub idle_timeout : ℕ
  pub playwright : Bool
  pub semaphore : Option ℕ
  pub browsers : List ℕ
  pub objects : ℕ → PooledBrowser
  pub counter : ℕ
  pub is_closed : Bool

-- An assignment to the object with an id.
abbrev pub at_id : ℕ → PooledBrowser → (ℕ → PooledBrowser) → ℕ → PooledBrowser
at_id id b objects k = if id == k then b else objects k

-- `PooledBrowser.is_idle`
unfoldable pub is_idle : (now timeout_seconds : ℕ) → PooledBrowser → Bool
is_idle now timeout_seconds b =
    (b.active_contexts == 0) && ltb timeout_seconds (now - b.last_used_at)

-- `PooledBrowser.is_connected`
abbrev pub is_connected : (ℕ → Bool) → ℕ → PooledBrowser → Bool
is_connected connected id b = b.is_healthy && connected id

-- `PooledBrowser.close`, on the object
abbrev pub close_browser : PooledBrowser → PooledBrowser
close_browser b = record b { is_healthy = false }

-- `initialize`
unfoldable pub initialize : BrowserPool → BrowserPool
initialize p =
    if not p.playwright && not p.is_closed
    then record p { playwright = true; semaphore = some p.pool_size }
    else p

-- How often an id stands in a list.
unfoldable pub count : ℕ → List ℕ → ℕ
count id [] = 0
count id (x ∷ xs) = let rest = count id xs in if x == id then suc rest else rest

-- A browser of the list that does not pass a test.
unfoldable pub is_dropped : (ℕ → Bool) → List ℕ → ℕ → Bool
unfolding count
is_dropped stays browsers id = not (stays id) && ltb 0 (count id browsers)

-- The browsers of the list that pass a test stay, and the others of the list are closed.
abbrev pub close_others : (ℕ → Bool) → BrowserPool → BrowserPool
close_others stays p = record p {
  browsers = keep stays p.browsers;
  objects =
      λ id. if is_dropped stays p.browsers id then close_browser (p.objects id) else p.objects id;
}

-- The crash recovery of `acquire_browser`.
unfoldable pub recover : (ℕ → Bool) → BrowserPool → BrowserPool
recover connected p = close_others (λ id. is_connected connected id (p.objects id)) p

-- An id in front of the ids whose browsers have no less load.
unfoldable pub insert_by_load : (ℕ → PooledBrowser) → ℕ → List ℕ → List ℕ
insert_by_load objects x [] = x ∷ []
insert_by_load objects x (y ∷ ys) =
    let rest = insert_by_load objects x ys in
    if leb (objects x).active_contexts (objects y).active_contexts then x ∷ y ∷ ys else y ∷ rest

-- `self._browsers.sort(key=lambda b: b.active_contexts)`
unfoldable pub sort_by_load : (ℕ → PooledBrowser) → List ℕ → List ℕ
unfolding insert_by_load
sort_by_load objects [] = []
sort_by_load objects (x ∷ xs) = insert_by_load objects x (sort_by_load objects xs)

abbrev pub new_browser : (now : ℕ) → PooledBrowser
new_browser now = record { last_used_at = now; active_contexts = 0; is_healthy = true }

-- `_launch_pooled_browser`: `none` where Playwright raises.
unfoldable pub launch : (now : ℕ) → (launches : Bool) → BrowserPool → Option ℕ × BrowserPool
launch now launches p =
    let id = suc p.counter in
    if launches
    then (
      some id,
      record p {
        counter = id;
        browsers = p.browsers ++ (id ∷ []);
        objects = at_id id (new_browser now) p.objects;
      },
    )
    else (none, record p { counter = id })

-- The browser to use, for the sorted list of the pool.
unfoldable pub pick : (now : ℕ) → (launches : Bool) → List ℕ → BrowserPool → Option ℕ × BrowserPool
unfolding launch
pick now launches [] p = launch now launches p
pick now launches (best ∷ rest) p =
    if ltb (length (best ∷ rest)) p.pool_size && ltb 0 (p.objects best).active_contexts
    then launch now launches p
    else (some best, p)

-- `best_browser.active_contexts += 1`, and `mark_used`
abbrev pub count_up : (now : ℕ) → Option ℕ × BrowserPool → Option ℕ × BrowserPool
count_up now (none, p) = (none, p)
count_up now (some id, p) = (
  some id,
  record p {
    objects =
        at_id id
          (record (p.objects id) {
            active_contexts = suc (p.objects id).active_contexts;
            last_used_at = now;
          })
          p.objects;
  },
)

-- The part of `acquire_browser` under the lock.
unfoldable pub acquire_locked :
    (now : ℕ) → (connected : ℕ → Bool) → (launches : Bool) → BrowserPool → Option ℕ × BrowserPool
unfolding recover sort_by_load pick
acquire_locked now connected launches p =
    let p' = recover connected p in
    let sorted = sort_by_load p'.objects p'.browsers in
    count_up now (pick now launches sorted (record p' { browsers = sorted }))

-- `acquire_browser`: `none` where it raises.
unfoldable pub acquire_browser :
    (now : ℕ) → (connected : ℕ → Bool) → (launches : Bool) → BrowserPool → Option ℕ × BrowserPool
unfolding initialize acquire_locked
acquire_browser now connected launches p =
    if p.is_closed then (none, p) else acquire_locked now connected launches (initialize p)

-- `release_browser`
unfoldable pub release_browser : (now id : ℕ) → BrowserPool → BrowserPool
release_browser now id p = record p {
  objects =
      at_id id
        (record (p.objects id) {
          active_contexts = (p.objects id).active_contexts - 1;
          last_used_at = now;
        })
        p.objects;
}

-- `cleanup_idle_browsers`
unfoldable pub cleanup_idle_browsers : (now : ℕ) → (ℕ → Bool) → BrowserPool → BrowserPool
unfolding is_idle
cleanup_idle_browsers now connected p =
    close_others
      (λ id.
        not (is_idle now p.idle_timeout (p.objects id)) && is_connected connected id (p.objects id))
      p

-- `close`
unfoldable pub close : BrowserPool → BrowserPool
close p =
    let p' = close_others (λ id. false) p in record p' { is_closed = true; playwright = false }

-- The pool with the ids of the browsers whose contexts are open, one for each context.
pub record Crawls : Type 0 where
  pub pool : BrowserPool
  pub contexts : List ℕ

-- The semaphore of a pool, after the first statement of `get_context`; `none` fails its assertion.
abbrev pub ready : BrowserPool → BrowserPool
ready p = elim p.semaphore [ none ↦ initialize p | some permits ↦ p ]

-- A context that has got its browser takes a permit; where the browser fails, the permit is back.
abbrev pub opened : (permits : ℕ) → List ℕ → Option ℕ × BrowserPool → Crawls
opened permits contexts (none, p) = record { pool = p; contexts = contexts }
opened permits contexts (some id, p) = record {
  pool = record p { semaphore = some permits };
  contexts = id ∷ contexts;
}

-- `get_context` up to its `yield`. Without a permit it waits, and nothing has changed yet.
unfoldable pub enter_context :
    (now : ℕ) → (connected : ℕ → Bool) → (launches : Bool) → Crawls → Crawls
unfolding initialize acquire_browser
enter_context now connected launches c =
    let p = ready c.pool in
    elim p.semaphore [
      | none ↦ record { pool = p; contexts = c.contexts }
      | some zero ↦ record { pool = p; contexts = c.contexts }
      | some (suc permits) ↦ opened permits c.contexts (acquire_browser now connected launches p)
    ]

-- A list without one occurrence of an id.
unfoldable pub remove_one : ℕ → List ℕ → List ℕ
remove_one id [] = []
remove_one id (x ∷ xs) = let rest = remove_one id xs in if x == id then xs else x ∷ rest

-- One permit more.
abbrev pub give_back : Option ℕ → Option ℕ
give_back none = none
give_back (some permits) = some (suc permits)

-- `pooled.is_healthy = False`, where the body of the context has raised
abbrev pub mark_failed : (failed : Bool) → ℕ → BrowserPool → BrowserPool
mark_failed failed id p =
    if failed then record p { objects = at_id id (close_browser (p.objects id)) p.objects } else p

-- The rest of `get_context`, for a context that is open.
unfoldable pub leave_context : (now id : ℕ) → (failed : Bool) → Crawls → Crawls
unfolding release_browser remove_one
leave_context now id failed c =
    let p = release_browser now id (mark_failed failed id c.pool) in
    record {
      pool = record p { semaphore = give_back p.semaphore };
      contexts = remove_one id c.contexts;
    }
