-- ===== src/RateLimit/Tests.antt =====
-- Two clients and a limit of two requests, in one process and in two that share a Redis.
use seo_agent_rct.Prelude.{
  ◌*◌, String_discrete, ite, nat_key, Option, none, false, ◌≡◌, ℕ, ◌≤◌, String, true, List, [], ◌∷◌,
  some, arith, refl, keep, length,
}
use seo_agent_rct.Dict
use seo_agent_rct.Dict.{Dict}
use seo_agent_rct.RateLimit.{RateLimiter, is_recent, check_in_memory}
use seo_agent_rct.RateLimit.Distributed.{
  Command, zremrangebyscore, zadd, zcard, expire, Limiter, get_redis, check_distributed,
  rate_limit_guard,
}
use seo_agent_rct.RateLimit.Shared.{is_out, IsSortedSets, Asked, IsRising, admitted_anywhere}
use seo_agent_rct.RateLimit.SharedBound.{admitted_anywhere_bound}
use seo_agent_rct.RateLimit.Window.{IsOrdered}
use seo_agent_rct.RateLimit.Unshared.{admitted_alone, admitted_alone_bound}

abbrev empty_limiter : RateLimiter
empty_limiter = record { enabled = true; rate_limit_per_minute = 60; local_requests = [] }

abbrev asked : List (String × ℕ)
asked = ("a", 1) ∷ ("b", 1) ∷ ("a", 2) ∷ ("a", 3) ∷ ("a", 70) ∷ []

asked-IsOrdered : IsOrdered 0 asked 80
unfolding IsOrdered
asked-IsOrdered =
    (omega arith, (omega arith, (omega arith, (omega arith, (omega arith, omega arith)))))

abbrev unshared_limiter : Limiter
unshared_limiter = record { local = empty_limiter; redis_url = false; redis_client = false }

abbrev Sets : Type 0
Sets = String → Dict ℕ ℕ

abbrev run_command : Command → Sets → ℕ × Sets
run_command (zremrangebyscore key min max) s =
    (0, λ j. ite (String_discrete key j) (keep (is_out min max) (s j)) (s j))
run_command (zadd key member score) s =
    (1, λ j. ite (String_discrete key j) (Dict.put (s j) member score) (s j))
run_command (zcard key) s = (length (s key), s)
run_command (expire key seconds) s = (1, s)

abbrev run_commands : List Command → Sets → List ℕ × Sets
run_commands [] s = ([], s)
run_commands (c ∷ cs) s =
    let (answer, s') = run_command c s in
    let (answers, s'') = run_commands cs s' in (answer ∷ answers, s'')

abbrev redis_pipeline : List Command → Sets → Option (List ℕ) × Sets
redis_pipeline cs s = let (answers, s') = run_commands cs s in (some answers, s')

abbrev sorted_sets : IsSortedSets redis_pipeline
sorted_sets = record {
  members = λ s. s;
  run = run_command;
  execute-run = λ c d e f s. refl;
  members-zremrangebyscore = λ key j min max s. refl;
  members-zadd = λ key j member score s. refl;
  members-zcard = λ key j s. refl;
  answer-zcard = λ key s. refl;
  members-expire = λ key j seconds s. refl;
}

abbrev connected_limiter : Limiter
connected_limiter = record { local = empty_limiter; redis_url = true; redis_client = true }

abbrev spread : List Asked
spread =
    record { process = 1; client = "a"; now = 61 }
    ∷ record { process = 2; client = "a"; now = 62 }
    ∷ record { process = 1; client = "a"; now = 63 }
    ∷ []

spread-IsRising : IsRising 60 spread 64
unfolding IsRising
spread-IsRising = (omega arith, (omega arith, (omega arith, omega arith)))

abbrev no_members : Sets
no_members j = []

admitted_anywhere_bound_example :
    length (
      keep (is_recent 64 (60 * 1)) (
        admitted_anywhere redis_pipeline 1 60 "a"
          (some 2)
          spread
          []
          (λ k. connected_limiter)
          no_members))
    ≤ 2
admitted_anywhere_bound_example =
    admitted_anywhere_bound redis_pipeline 1 60 "a" (some 2) sorted_sets 2 spread 60 64
      (λ k. connected_limiter) no_members (λ k. (refl, refl, refl)) refl (omega arith)
      spread-IsRising

admitted_alone_bound_example :
    length (
      keep (is_recent 80 (60 * 1)) (
        admitted_alone redis_pipeline 1
          (λ now. true)
          60
          "a"
          (some 2)
          asked
          []
          unshared_limiter
          no_members))
    ≤ 2
admitted_alone_bound_example =
    admitted_alone_bound redis_pipeline 1 (λ now. true) 60 "a" (some 2) asked 80 unshared_limiter
      no_members refl refl refl refl asked-IsOrdered

-- A pipeline that fails leaves the request to the memory of the process, and drops the connection.
falls_back :
    let r =
      check_distributed
        (λ cs (s : Sets). (none, s))
        1
        61
        true
        "a"
        (some 2)
        60
        connected_limiter
        no_members in
    (r.0 ≡ true) × (r.1.0.redis_client ≡ false)
unfolding check_distributed get_redis check_in_memory Dict.get Dict.put
falls_back = (refl, refl)

-- The guard raises the status 429, and the caller is told by its header.
guard_refuses :
    (rate_limit_guard redis_pipeline 1 61 true none "token" (some 0) connected_limiter no_members).0
    ≡ some 429
unfolding rate_limit_guard check_distributed get_redis Dict.put
guard_refuses = ground arith
