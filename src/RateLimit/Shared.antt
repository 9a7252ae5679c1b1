-- ===== src/RateLimit/Shared.antt =====
-- The requests of one client that any processes admit which share one Redis.
use seo_agent_rct.Prelude.{
  ℕ, ◌+◌, ◌-◌, ◌*◌, ◌≤◌, ◌<◌, ◌≡◌, refl, ◌∙◌, sym, ap, String, String_discrete, Bool, true, not,
  ◌&&◌, Option, some, List, [], ◌∷◌, ◌++◌, leb, ◌==◌, arith, if◌then◌else◌, keep, length, All, ite,
  nat_key,
}
use seo_agent_rct.Dict
use seo_agent_rct.Dict.{Dict}
use seo_agent_rct.RateLimit.{is_recent, limit_or}
use seo_agent_rct.RateLimit.Distributed.{
  Command, zremrangebyscore, zadd, zcard, expire, Limiter, get_redis, pipeline, judged, limited,
  check_distributed,
}

-- The scores that `zremrangebyscore` leaves.
abbrev pub is_out : (min max : ℕ) → ℕ × ℕ → Bool
is_out min max (member, score) = not (leb min score && leb score max)

pub put_latest : (d : Dict ℕ ℕ) (k v : ℕ) → All (λ e. e.0 < k) d → Dict.put d k v ≡ d ++ (k, v) ∷ []
unfolding Dict.put
put_latest [] k v h = refl
put_latest ((j, w) ∷ d) k v h = ground (arith, put_latest d k v h.1, h.0)

-- What is recent later has not gone out now.
pub keep-is_out :
    (window now t : ℕ) (d : Dict ℕ ℕ)
    → window ≤ now
    → now ≤ t
    → keep (λ e. is_recent t window e.1) (keep (is_out 0 (now - window)) d)
      ≡ keep (λ e. is_recent t window e.1) d
keep-is_out window now t [] h le = refl
keep-is_out window now t ((m, x) ∷ d) h le = ground (arith, keep-is_out window now t d h le)

-- A request of a client, at a time, to one of the processes.
pub record Asked : Type 0 where
  pub process : ℕ
  pub client : String
  pub now : ℕ

-- The times rise, from `start` on, to `last`.
unfoldable pub IsRising : (start : ℕ) → List Asked → (last : ℕ) → Type 0
IsRising start [] last = start ≤ last
IsRising start (a ∷ rest) last = (start < a.now) × IsRising a.now rest last

module _ {S : Type 0} (execute : List Command → S → Option (List ℕ) × S) where
  -- Redis runs the commands of a pipeline in their order, on sorted sets of members with scores. What
  -- `expire` removes later is a set in which no request is recent.
  pub record IsSortedSets : Type 1 where
    pub members : S → String → Dict ℕ ℕ
    pub run : Command → S → ℕ × S
    pub execute-run :
        (c d e f : Command) (s : S)
        → let s1 = (run c s).1 in
          let s2 = (run d s1).1 in
          let s3 = (run e s2).1 in
          execute (c ∷ d ∷ e ∷ f ∷ []) s
          ≡ (some ((run c s).0 ∷ (run d s1).0 ∷ (run e s2).0 ∷ (run f s3).0 ∷ []), (run f s3).1)
    pub members-zremrangebyscore :
        (key j : String) (min max : ℕ) (s : S)
        → members (run (zremrangebyscore key min max) s).1 j
          ≡ ite (String_discrete key j) (keep (is_out min max) (members s j)) (members s j)
    pub members-zadd :
        (key j : String) (member score : ℕ) (s : S)
        → members (run (zadd key member score) s).1 j
          ≡ ite (String_discrete key j) (Dict.put (members s j) member score) (members s j)
    pub members-zcard : (key j : String) (s : S) → members (run (zcard key) s).1 j ≡ members s j
    pub answer-zcard : (key : String) (s : S) → (run (zcard key) s).0 ≡ length (members s key)
    pub members-expire :
        (key j : String) (seconds : ℕ) (s : S)
        → members (run (expire key seconds) s).1 j ≡ members s j

  module _ (second window_seconds : ℕ) (client : String) (max_requests : Option ℕ) where
    -- The times at which `client` is admitted, after those of `log`.
    unfoldable pub admitted_anywhere :
        List Asked → (log : List ℕ) → (processes : ℕ → Limiter) → S → List ℕ
    admitted_anywhere [] log processes s = log
    admitted_anywhere (a ∷ rest) log processes s =
        let (allowed, (l, s')) =
          check_distributed execute second a.now true a.client max_requests window_seconds
            (processes a.process) s in
        let log' =
          if allowed then ite (String_discrete a.client client) (log ++ a.now ∷ []) log else log in
        admitted_anywhere rest log' (λ k. if a.process == k then l else processes k) s'

    module _ (redis : IsSortedSets) (limit : ℕ) where
      -- Every process is connected, and has the limit.
      abbrev pub IsReady : (ℕ → Limiter) → Type 0
      IsReady processes =
          (k : ℕ)
          → ((processes k).local.enabled ≡ true)
            × ((processes k).redis_client ≡ true)
            × (limit_or max_requests (processes k).local.rate_limit_per_minute ≡ limit)

      unfoldable pub after : (now : ℕ) → String → S → S
      after now c s = (execute (pipeline second now c window_seconds) s).1

      -- The state before the count, and the one after the last command.
      abbrev counted : (now : ℕ) → String → S → S
      counted now c s =
          (redis.run (zadd c now now)
            (redis.run (zremrangebyscore c 0 (now - window_seconds * second)) s).1).1

      abbrev expired : (now : ℕ) → String → S → S
      expired now c s =
          (redis.run (expire c (window_seconds + 5)) (redis.run (zcard c) (counted now c s)).1).1

      runs :
          (now : ℕ) (c : String) (s : S)
          → execute (pipeline second now c window_seconds) s ≡ (
            some (
                (redis.run (zremrangebyscore c 0 (now - window_seconds * second)) s).0
                ∷ (redis.run
                    (zadd c now now)
                    (redis.run (zremrangebyscore c 0 (now - window_seconds * second)) s).1).0
                ∷ (redis.run (zcard c) (counted now c s)).0
                ∷ (redis.run
                    (expire c (window_seconds + 5))
                    (redis.run (zcard c) (counted now c s)).1).0
                ∷ []),
            expired now c s,
          )
      runs now c s = redis.execute-run _ _ _ _ s

      same_members :
          (now : ℕ) (c j : String) (s : S)
          → redis.members (after now c s) j ≡ redis.members (counted now c s) j
      unfolding after
      same_members now c j s =
          ap (λ r. redis.members r.1 j) (runs now c s)
          ∙ redis.members-expire c j (window_seconds + 5) (redis.run (zcard c) (counted now c s)).1
          ∙ redis.members-zcard c j (counted now c s)

      pub members_after :
          (now : ℕ) (c j : String) (s : S)
          → redis.members (after now c s) j
            ≡ ite
                (String_discrete c j)
                (Dict.put
                  (keep (is_out 0 (now - window_seconds * second)) (redis.members s j))
                  now
                  now)
                (redis.members s j)
      members_after now c j s =
          same_members now c j s
          ∙ ground (
            arith,
            redis.members-zadd c j now now
                (redis.run (zremrangebyscore c 0 (now - window_seconds * second)) s).1,
            redis.members-zremrangebyscore c j 0 (now - window_seconds * second) s,
          )

      connected : (l : Limiter) → l.redis_client ≡ true → get_redis true l ≡ (true, l)
      unfolding get_redis
      connected l got = ground (arith, got)

      opened :
          (now : ℕ) (c : String) (l : Limiter) (s : S)
          → l.local.enabled ≡ true
          → l.redis_client ≡ true
          → check_distributed execute second now true c max_requests window_seconds l s
            ≡ judged execute second now c max_requests window_seconds l
                (execute (pipeline second now c window_seconds) s)
      unfolding check_distributed
      opened now c l s on got =
          let e : check_distributed execute second now true c max_requests window_seconds l s
              ≡ limited execute second now c max_requests window_seconds s (get_redis true l) =
            ground (arith, on) in
          e ∙ ap (limited execute second now c max_requests window_seconds s) (connected l got)

      pub checked :
          (now : ℕ) (c : String) (l : Limiter) (s : S)
          → l.local.enabled ≡ true
          → l.redis_client ≡ true
          → limit_or max_requests l.local.rate_limit_per_minute ≡ limit
          → check_distributed execute second now true c max_requests window_seconds l s
            ≡ (leb (length (redis.members (after now c s) c)) limit, (l, after now c s))
      unfolding after
      checked now c l s on got same =
          opened now c l s on got
          ∙ ap (judged execute second now c max_requests window_seconds l) (runs now c s)
          ∙ rw (same, redis.answer-zcard, ← same_members now c c s)
              (ap (λ x. (leb (length (redis.members (after now c s) c)) limit, (l, x)))
                (sym (ap (λ r. r.1) (runs now c s))))
