-- ===== src/RateLimit/Unshared.antt =====
-- `check_rate_limit` of a process where no Redis is configured: it is its local path.
use seo_agent_rct.Prelude.{
  ℕ, ◌≤◌, ◌*◌, ◌≡◌, refl, String, String_discrete, Bool, true, false, Option, List, [], ◌∷◌, ◌++◌,
  arith, if◌then◌else◌, keep, length, ite,
}
use seo_agent_rct.RateLimit.{is_recent, limit_or, check_in_memory}
use seo_agent_rct.RateLimit.Distributed.{Command, Limiter, get_redis, check_distributed}
use seo_agent_rct.RateLimit.Window.{admitted, IsOrdered, admitted_bound}

module _ {S : Type 0} (execute : List Command → S → Option (List ℕ) × S) (second : ℕ)
    (connects : ℕ → Bool) (window_seconds : ℕ) where
  -- The times at which `client` is admitted, after those of `log`, in a run of requests of any clients.
  unfoldable pub admitted_alone :
      (client : String) → Option ℕ → List (String × ℕ) → (log : List ℕ) → Limiter → S → List ℕ
  admitted_alone client max_requests [] log l s = log
  admitted_alone client max_requests ((c, now) ∷ rest) log l s =
      let (allowed, (l', s')) =
        check_distributed execute second now (connects now) c max_requests window_seconds l s in
      let log' = if allowed then ite (String_discrete c client) (log ++ now ∷ []) log else log in
      admitted_alone client max_requests rest log' l' s'

  check_alone :
      (now : ℕ) (c : String) (max_requests : Option ℕ) (l : Limiter) (s : S)
      → l.redis_url ≡ false
      → l.redis_client ≡ false
      → let r = check_in_memory now c max_requests (window_seconds * second) l.local in
        check_distributed execute second now (connects now) c max_requests window_seconds l s
        ≡ (r.0, (record l { local = r.1 }, s))
  unfolding check_distributed get_redis check_in_memory
  check_alone now c max_requests l s no_url no_client = ground (arith, no_url, no_client)

  module _ (client : String) (max_requests : Option ℕ) where
    admitted_alone-admitted :
        (calls : List (String × ℕ)) (log : List ℕ) (l : Limiter) (s : S)
        → l.redis_url ≡ false
        → l.redis_client ≡ false
        → admitted_alone client max_requests calls log l s
          ≡ admitted client max_requests (window_seconds * second) calls log l.local
    unfolding admitted_alone admitted
    admitted_alone-admitted [] log l s no_url no_client = refl
    admitted_alone-admitted ((c, now) ∷ rest) log l s no_url no_client =
        rw (check_alone now c max_requests l s no_url no_client)
          (admitted_alone-admitted rest _ _ s no_url no_client)

    -- Where no Redis is configured or connected, from an enabled limiter that remembers no request,
    -- whatever clients ask at times that do not fall, at the last time the requests of a client that
    -- were admitted within the window before it are no more than the limit.
    pub admitted_alone_bound :
        (calls : List (String × ℕ)) (last : ℕ) (l : Limiter) (s : S)
        → l.local.enabled ≡ true
        → l.redis_url ≡ false
        → l.redis_client ≡ false
        → l.local.local_requests ≡ []
        → IsOrdered 0 calls last
        → length (
            keep
              (is_recent last (window_seconds * second))
              (admitted_alone client max_requests calls [] l s))
          ≤ limit_or max_requests l.local.rate_limit_per_minute
    admitted_alone_bound calls last l s on no_url no_client none_yet o =
        rw (admitted_alone-admitted calls [] l s no_url no_client) (
          admitted_bound client max_requests (window_seconds * second) calls last l.local on
            none_yet o)
