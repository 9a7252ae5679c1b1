-- ===== src/RateLimit/Window.antt =====
-- The requests of one client that the local path admits among those of all clients.
use seo_agent_rct.Prelude.{
  ℕ, ◌≤◌, ◌<◌, ◌≡◌, ◌≢◌, ◌⊎◌, subst, refl, ◌∙◌, sym, String, String_discrete, string_key, true,
  false, Option, List, [], ◌∷◌, ◌++◌, arith, if◌then◌else◌, keep, keep-append, length,
  length-append, length-keep-le, Bool-cases, inl, inr, ite,
}
use seo_agent_rct.Dict
use seo_agent_rct.Dict.Laws.{get-put}
use seo_agent_rct.RateLimit.{RateLimiter, is_recent, requests_of, limit_or, check_in_memory}

-- The times at which `client` is admitted, after those of `log`, in a run of requests of any clients.
unfoldable pub admitted :
    (client : String)
    → Option ℕ
    → (window : ℕ) → List (String × ℕ)
    → (log : List ℕ) → RateLimiter
    → List ℕ
admitted client max_requests window [] log g = log
admitted client max_requests window ((c, now) ∷ rest) log g =
    let (allowed, g') = check_in_memory now c max_requests window g in
    let log' = if allowed then ite (String_discrete c client) (log ++ now ∷ []) log else log in
    admitted client max_requests window rest log' g'

-- The times do not fall, from `start` to `last`.
unfoldable pub IsOrdered : (start : ℕ) → List (String × ℕ) → (last : ℕ) → Type 0
IsOrdered start [] last = start ≤ last
IsOrdered start ((c, now) ∷ rest) last = (start ≤ now) × IsOrdered now rest last

-- What is recent later is recent now.
keep-keep :
    (now t window : ℕ) (xs : List ℕ)
    → now ≤ t
    → keep (is_recent t window) (keep (is_recent now window) xs) ≡ keep (is_recent t window) xs
keep-keep now t window [] h = refl
keep-keep now t window (x ∷ xs) h = ground (arith, keep-keep now t window xs h)

module _ (client : String) (max_requests : Option ℕ) (window : ℕ) where
  -- The limiter remembers what was admitted and is recent, and that is within the limit.
  record Remembers (start : ℕ) (log : List ℕ) (g : RateLimiter) : Type 0 where
    pub on : g.enabled ≡ true
    pub same :
        (t : ℕ)
        → start ≤ t
        → keep (is_recent t window) log ≡ keep (is_recent t window) (requests_of g client)
    pub within :
        (t : ℕ)
        → start ≤ t
        → length (keep (is_recent t window) log) ≤ limit_or max_requests g.rate_limit_per_minute

  own_put :
      (xs : List ℕ) (g : RateLimiter)
      → requests_of (record g { local_requests = Dict.put g.local_requests client xs }) client ≡ xs
  own_put xs g = ground (arith, get-put g.local_requests client client xs)

  other_put :
      (c : String) (xs : List ℕ) (g : RateLimiter)
      → c ≢ client
      → requests_of (record g { local_requests = Dict.put g.local_requests c xs }) client
        ≡ requests_of g client
  other_put c xs g n = ground (arith, get-put g.local_requests c client xs)

  later-Remembers :
      (start now : ℕ) (log : List ℕ) (g g' : RateLimiter)
      → Remembers start log g
      → start ≤ now
      → g'.enabled ≡ g.enabled
      → g'.rate_limit_per_minute ≡ g.rate_limit_per_minute
      → ((t : ℕ)
          → now ≤ t
          → keep (is_recent t window) (requests_of g' client)
            ≡ keep (is_recent t window) (requests_of g client))
      → Remembers now log g'
  later-Remembers start now log g g' v le on limit e = record {
    on = on ∙ v.on;
    same = λ t h. v.same t (omega arith) ∙ sym (e t h);
    within = λ t h. rw limit (v.within t (omega arith));
  }

  admitted_later :
      (start now t : ℕ) (log : List ℕ) (g : RateLimiter)
      → Remembers start log g
      → start ≤ now
      → now ≤ t
      → length (keep (is_recent now window) (requests_of g client))
        < limit_or max_requests g.rate_limit_per_minute
      → length (keep (is_recent t window) (log ++ now ∷ []))
        ≤ limit_or max_requests g.rate_limit_per_minute
  admitted_later start now t log g v le lt room =
      let e = keep-keep now t window (requests_of g client) lt in
      let few =
        length-keep-le (is_recent t window) (keep (is_recent now window) (requests_of g client)) in
      let more =
        length-append (keep (is_recent t window) log) (keep (is_recent t window) (now ∷ [])) in
      rw (keep-append, more, v.same t (omega arith), ← e) (ground (arith, few, room))

  admitted-Remembers :
      (start now : ℕ) (log : List ℕ) (g : RateLimiter)
      → Remembers start log g
      → start ≤ now
      → length (keep (is_recent now window) (requests_of g client))
        < limit_or max_requests g.rate_limit_per_minute
      → Remembers now (log ++ now ∷ []) (record g {
        local_requests =
            Dict.put g.local_requests client
              (keep (is_recent now window) (requests_of g client) ++ now ∷ []);
      })
  admitted-Remembers start now log g v le room = record {
    on = v.on;
    same = λ t h.
        rw
          (
            own_put,
            keep-append,
            keep-append,
            v.same t (omega arith),
            keep-keep now t window (requests_of g client) h,
          )
          refl;
    within = λ t h. admitted_later start now t log g v le h room;
  }

  -- A request is refused or admitted by the recent ones of its client.
  checked_cases :
      (now : ℕ) (c : String) (g : RateLimiter)
      → g.enabled ≡ true
      → let valid = keep (is_recent now window) (requests_of g c) in
        (check_in_memory now c max_requests window g
          ≡ (false, record g { local_requests = Dict.put g.local_requests c valid }))
        ⊎ ((length valid < limit_or max_requests g.rate_limit_per_minute)
            × (check_in_memory now c max_requests window g ≡ (
              true,
              record g { local_requests = Dict.put g.local_requests c (valid ++ now ∷ []) },
            )))
  unfolding check_in_memory
  checked_cases now c g on = ground (arith, on)

  own_step :
      (start now : ℕ) (log : List ℕ) (g : RateLimiter)
      → Remembers start log g
      → start ≤ now
      → let r = check_in_memory now client max_requests window g in
        Remembers now (if r.0 then log ++ now ∷ [] else log) r.1
  own_step start now log g v le = elim (checked_cases now client g v.on) [
    | inl e ↦ rw e (
        later-Remembers start now log g _ v le refl refl
          (λ t h. rw (own_put) (keep-keep now t window (requests_of g client) h)))
    | inr (room, e) ↦ rw e (admitted-Remembers start now log g v le room)
  ]

  other_step :
      (c : String) (start now : ℕ) (log : List ℕ) (g : RateLimiter)
      → c ≢ client
      → Remembers start log g
      → start ≤ now
      → Remembers now log (check_in_memory now c max_requests window g).1
  other_step c start now log g n v le = elim (checked_cases now c g v.on) [
    | inl e ↦
        rw e (later-Remembers start now log g _ v le refl refl (λ t h. rw (other_put c _ g n) refl))
    | inr (room, e) ↦
        rw e (later-Remembers start now log g _ v le refl refl (λ t h. rw (other_put c _ g n) refl))
  ]

  step-Remembers :
      (c : String) (start now : ℕ) (log : List ℕ) (g : RateLimiter) (d : Dec (c ≡ client))
      → Remembers start log g
      → start ≤ now
      → let r = check_in_memory now c max_requests window g in
        Remembers now (if r.0 then ite d (log ++ now ∷ []) log else log) r.1
  step-Remembers c start now log g (yes p) v le = rw p (own_step start now log g v le)
  step-Remembers c start now log g (no n) v le =
      elim (Bool-cases (check_in_memory now c max_requests window g).0) [
        | inl e ↦ rw e (other_step c start now log g n v le)
        | inr e ↦ rw e (other_step c start now log g n v le)
      ]

  limit_kept :
      (now : ℕ) (c : String) (g : RateLimiter)
      → (check_in_memory now c max_requests window g).1.rate_limit_per_minute
        ≡ g.rate_limit_per_minute
  unfolding check_in_memory
  limit_kept now c g = ground arith

  admitted_within :
      (calls : List (String × ℕ)) (start last : ℕ) (log : List ℕ) (g : RateLimiter)
      → Remembers start log g
      → IsOrdered start calls last
      → length (keep (is_recent last window) (admitted client max_requests window calls log g))
        ≤ limit_or max_requests g.rate_limit_per_minute
  unfolding admitted IsOrdered
  admitted_within [] start last log g v o = v.within last o
  admitted_within ((c, now) ∷ rest) start last log g v o =
      subst
        (λ m.
          length (
            keep (is_recent last window)
              (admitted client max_requests window ((c, now) ∷ rest) log g))
          ≤ limit_or max_requests m)
        (limit_kept now c g)
        (admitted_within rest now last _ (check_in_memory now c max_requests window g).1
          (step-Remembers c start now log g (String_discrete c client) v o.0) o.1)

  -- On the local path, from an empty limiter that is enabled, whatever clients ask at times that do not fall, at the
  -- last time the requests of a client that were admitted within the window before it are no more
  -- than the limit.
  pub admitted_bound :
      (calls : List (String × ℕ)) (last : ℕ) (g : RateLimiter)
      → g.enabled ≡ true
      → g.local_requests ≡ []
      → IsOrdered 0 calls last
      → length (keep (is_recent last window) (admitted client max_requests window calls [] g))
        ≤ limit_or max_requests g.rate_limit_per_minute
  unfolding Dict.get
  admitted_bound calls last g on none_yet o =
      admitted_within calls 0 last [] g
        (record { on = on; same = λ t h. rw none_yet refl; within = λ t h. omega arith }) o
