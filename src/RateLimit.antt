-- ===== src/RateLimit.antt =====
-- The local path of `check_rate_limit` of backend/rate_limiter.py, which is taken without Redis and
-- when Redis fails; the whole function is in RateLimit/Distributed. A time is a whole number of ticks of `time.time()`.
mod Tests
pub mod Window
pub mod Distributed
pub mod Unshared
pub mod Shared
pub mod SharedBound
use seo_agent_rct.Prelude.{
  ℕ, ◌+◌, String, Bool, true, false, Option, none, some, List, [], ◌∷◌, ◌++◌, ltb, leb,
  if◌then◌else◌, keep, length, string_key,
}
use seo_agent_rct.Dict
use seo_agent_rct.Dict.{Dict}

-- The settings that are read, and `_local_requests`.
pub record RateLimiter : Type 0 where
  pub enabled : Bool
  pub rate_limit_per_minute : ℕ
  pub local_requests : Dict String (List ℕ)

-- `ts > now - window_seconds`
abbrev pub is_recent : (now window ts : ℕ) → Bool
is_recent now window ts = ltb now (ts + window)

-- `self._local_requests.get(client_identifier, [])`
abbrev pub requests_of : RateLimiter → String → List ℕ
requests_of g client = elim (Dict.get g.local_requests client) [ none ↦ [] | some ts ↦ ts ]

abbrev pub limit_or : Option ℕ → ℕ → ℕ
limit_or none d = d
limit_or (some n) d = n

-- `check_rate_limit` from the comment `2.` on, behind the test of the setting.
unfoldable pub check_in_memory :
    (now : ℕ) → String → Option ℕ → (window : ℕ) → RateLimiter → Bool × RateLimiter
check_in_memory now client max_requests window g =
    if g.enabled
    then (let valid = keep (is_recent now window) (requests_of g client) in
        if leb (limit_or max_requests g.rate_limit_per_minute) (length valid)
        then (false, record g { local_requests = Dict.put g.local_requests client valid })
        else (
          true,
          record g { local_requests = Dict.put g.local_requests client (valid ++ now ∷ []) },
        ))
    else (true, g)
