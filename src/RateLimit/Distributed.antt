-- ===== src/RateLimit/Distributed.antt =====
-- `check_rate_limit` and `rate_limit_guard` of backend/rate_limiter.py with Redis. Redis is a parameter:
-- a state, and what it answers to the commands of a pipeline. A time is a whole number of ticks.
use seo_agent_rct.Prelude.{
  ℕ, ◌+◌, ◌-◌, ◌*◌, String, String_discrete, Bool, true, false, Option, none, some, List, [], ◌∷◌,
  leb, ite, if◌then◌else◌, ◌||◌, ◌&&◌,
}
use seo_agent_rct.RateLimit.{RateLimiter, limit_or, check_in_memory}

-- A command that is queued on a pipeline. The key of a client stands as that client, and the text of a
-- time, which is a member, as that time.
pub data Command : Type 0 where
  zremrangebyscore : (key : String) → (min max : ℕ) → Command
  zadd : (key : String) → (member score : ℕ) → Command
  zcard : (key : String) → Command
  expire : (key : String) → (seconds : ℕ) → Command

-- `redis_url`: the setting is there; `redis_client`: `_redis_client` is not None.
pub record Limiter : Type 0 where
  pub local : RateLimiter
  pub redis_url : Bool
  pub redis_client : Bool

-- `_get_redis`, by whether a new connection answers the ping.
unfoldable pub get_redis : (connects : Bool) → Limiter → Bool × Limiter
get_redis connects l =
    if l.redis_client || (l.redis_url && connects)
    then (true, record l { redis_client = true })
    else (false, l)

-- `is_redis_active`
abbrev pub is_redis_active : (connects : Bool) → Limiter → Bool × Limiter
is_redis_active connects l = get_redis connects l

-- `results[2]`; `none` where something raises.
abbrev pub request_count : Option (List ℕ) → Option ℕ
request_count (some (removed ∷ added ∷ n ∷ rest)) = some n
request_count (some (removed ∷ added ∷ [])) = none
request_count (some (removed ∷ [])) = none
request_count (some []) = none
request_count none = none

-- The commands for a request.
abbrev pub pipeline : (second now : ℕ) → String → (window_seconds : ℕ) → List Command
pipeline second now client window_seconds =
    zremrangebyscore client 0 (now - window_seconds * second)
    ∷ zadd client now now
    ∷ zcard client
    ∷ expire client (window_seconds + 5)
    ∷ []

-- The local path.
abbrev pub check_local :
    (second now : ℕ) → String → Option ℕ → (window_seconds : ℕ) → Limiter → Bool × Limiter
check_local second now client max_requests window_seconds l =
    let (allowed, g) = check_in_memory now client max_requests (window_seconds * second) l.local in
    (allowed, record l { local = g })

-- The caller of a request: `request.client.host`, and the header `Authorization`, or "".
abbrev pub identifier : (host : Option String) → (auth_header : String) → String
identifier host auth_header =
    ite (String_discrete auth_header "") (elim host [ none ↦ "unknown" | some h ↦ h ]) auth_header

module _ {S : Type 0} (execute : List Command → S → Option (List ℕ) × S) (second : ℕ) where
  -- What follows the answer of Redis.
  abbrev pub judged :
      (now : ℕ)
      → String
      → Option ℕ
      → (window_seconds : ℕ) → Limiter
      → Option (List ℕ) × S
      → Bool × (Limiter × S)
  judged now client max_requests window_seconds l (answer, s) = elim (request_count answer) [
    | some n ↦ (leb n (limit_or max_requests l.local.rate_limit_per_minute), (l, s))
    | none ↦
        let (allowed, l') =
          check_local second now client max_requests window_seconds
            (record l { redis_client = false }) in
        (allowed, (l', s))
  ]

  -- With Redis or without, by what `_get_redis` returns.
  abbrev pub limited :
      (now : ℕ)
      → String
      → Option ℕ
      → (window_seconds : ℕ) → S
      → Bool × Limiter
      → Bool × (Limiter × S)
  limited now client max_requests window_seconds s (true, l) =
      judged now client max_requests window_seconds l
        (execute (pipeline second now client window_seconds) s)
  limited now client max_requests window_seconds s (false, l) =
      let (allowed, l') = check_local second now client max_requests window_seconds l in
      (allowed, (l', s))

  -- `check_rate_limit`
  unfoldable pub check_distributed :
      (now : ℕ)
      → (connects : Bool) → String
      → Option ℕ
      → (window_seconds : ℕ) → Limiter
      → S
      → Bool × (Limiter × S)
  unfolding get_redis
  check_distributed now connects client max_requests window_seconds l s =
      if l.local.enabled
      then limited now client max_requests window_seconds s (get_redis connects l)
      else (true, (l, s))

  -- `rate_limit_guard`: the status that it raises, if any.
  unfoldable pub rate_limit_guard :
      (now : ℕ)
      → (connects : Bool) → (host : Option String) → (auth_header : String) → Option ℕ
      → Limiter
      → S
      → Option ℕ × (Limiter × S)
  unfolding check_distributed
  rate_limit_guard now connects host auth_header max_requests l s =
      let (allowed, after) =
        check_distributed now connects (identifier host auth_header) max_requests 60 l s in
      (if allowed then none else some 429, after)
