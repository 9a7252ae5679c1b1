-- ===== src/RateLimit/SharedBound.antt =====
-- Processes that share one Redis admit no more requests of a client than the limit.
use seo_agent_rct.Prelude.{
  ℕ, ◌+◌, ◌-◌, ◌*◌, ◌≤◌, ◌<◌, ◌≡◌, ◌≢◌, refl, ◌∙◌, sym, ap, subst, String, String_discrete, Bool,
  true, Option, List, [], ◌∷◌, ◌++◌, leb, ◌==◌, arith, if◌then◌else◌, keep, keep-append, keep-All,
  length, length-append, length-keep-le, All, All-append, All-weaken, Bool-cases, inl, inr, ite,
  nat_key,
}
use seo_agent_rct.RateLimit.{is_recent, limit_or}
use seo_agent_rct.RateLimit.Distributed.{Command, Limiter}
use seo_agent_rct.RateLimit.Shared.{
  is_out, put_latest, keep-is_out, IsSortedSets, Asked, IsRising, admitted_anywhere, IsReady, after,
  members_after, checked,
}

module _ {S : Type 0} (execute : List Command → S → Option (List ℕ) × S) (second window_seconds : ℕ)
    (client : String) (max_requests : Option ℕ) (redis : IsSortedSets execute) (limit : ℕ) where
  abbrev window : ℕ
  window = window_seconds * second

  abbrev next : (now : ℕ) → String → S → S
  next now c s = after execute second window_seconds client max_requests redis limit now c s

  -- The admitted requests that are recent.
  abbrev logged : (t : ℕ) → List ℕ → ℕ
  logged t log = length (keep (is_recent t window) log)

  -- The requests of the client that Redis holds and that are recent.
  abbrev held : (t : ℕ) → S → ℕ
  held t s = length (keep (λ e. is_recent t window e.1) (redis.members s client))

  -- Redis holds what was admitted, and that is within the limit.
  record Holds (start : ℕ) (log : List ℕ) (s : S) : Type 0 where
    pub young : All (λ e. e.0 ≤ start) (redis.members s client)
    pub kept : (t : ℕ) → start ≤ t → logged t log ≤ held t s
    pub within : (t : ℕ) → start ≤ t → logged t log ≤ limit

  own_members :
      (start now : ℕ) (log : List ℕ) (s : S)
      → Holds start log s
      → start < now
      → redis.members (next now client s) client
        ≡ keep (is_out 0 (now - window)) (redis.members s client) ++ (now, now) ∷ []
  own_members start now log s v lt =
      let out = is_out 0 (now - window) in
      let old = keep-All (λ e. e.0 ≤ start) out (redis.members s client) v.young in
      let fresh =
        put_latest (keep out (redis.members s client)) now now
          (All-weaken (λ e. e.0 ≤ start) (λ e. e.0 < now) (λ e h. omega arith) _ old) in
      members_after execute second window_seconds client max_requests redis limit now client client
        s
      ∙ ground (arith, fresh)

  own_held :
      (start now t : ℕ) (log : List ℕ) (s : S)
      → Holds start log s
      → start < now
      → window ≤ now
      → now ≤ t
      → held t (next now client s) ≡ held t s + logged t (now ∷ [])
  own_held start now t log s v lt w le =
      let recent = λ (e : ℕ × ℕ). is_recent t window e.1 in
      let old = keep (is_out 0 (now - window)) (redis.members s client) in
      ap (λ d. length (keep recent d)) (own_members start now log s v lt)
      ∙ ap length (keep-append recent old ((now, now) ∷ []))
      ∙ length-append (keep recent old) (keep recent ((now, now) ∷ []))
      ∙ ap (λ d. length d + length (keep recent ((now, now) ∷ [])))
          (keep-is_out window now t (redis.members s client) w le)
      ∙ ground arith

  own_young :
      (start now : ℕ) (log : List ℕ) (s : S)
      → Holds start log s
      → start < now
      → All (λ e. e.0 ≤ now) (redis.members (next now client s) client)
  own_young start now log s v lt =
      let out = is_out 0 (now - window) in
      let old = keep-All (λ e. e.0 ≤ start) out (redis.members s client) v.young in
      subst (All (λ e. e.0 ≤ now)) (sym (own_members start now log s v lt)) (
        All-append (λ e. e.0 ≤ now) (keep out (redis.members s client)) ((now, now) ∷ [])
          (All-weaken (λ e. e.0 ≤ start) (λ e. e.0 ≤ now) (λ e h. omega arith) _ old)
          (omega arith, tt))

  logged-append :
      (t now : ℕ) (log : List ℕ) → logged t (log ++ now ∷ []) ≡ logged t log + logged t (now ∷ [])
  logged-append t now log =
      ap length (keep-append (is_recent t window) log (now ∷ []))
      ∙ length-append (keep (is_recent t window) log) (keep (is_recent t window) (now ∷ []))

  refused-Holds :
      (start now : ℕ) (log : List ℕ) (s : S)
      → Holds start log s
      → start < now
      → window ≤ now
      → Holds now log (next now client s)
  refused-Holds start now log s v lt w = record {
    young = own_young start now log s v lt;
    kept = λ t h. omega (arith, v.kept t (omega arith), own_held start now t log s v lt w h);
    within = λ t h. v.within t (omega arith);
  }

  admitted-Holds :
      (start now : ℕ) (log : List ℕ) (s : S)
      → Holds start log s
      → start < now
      → window ≤ now
      → length (redis.members (next now client s) client) ≤ limit
      → Holds now (log ++ now ∷ []) (next now client s)
  admitted-Holds start now log s v lt w few = record {
    young = own_young start now log s v lt;
    kept = λ t h. omega (
      arith,
      v.kept t (omega arith),
      own_held start now t log s v lt w h,
      logged-append t now log,
    );
    within = λ t h. omega (
      arith,
      v.kept t (omega arith),
      own_held start now t log s v lt w h,
      logged-append t now log,
      length-keep-le (λ e. is_recent t window e.1) (redis.members (next now client s) client),
      few,
    );
  }

  other-Holds :
      (c : String) (start now : ℕ) (log : List ℕ) (s : S)
      → c ≢ client
      → Holds start log s
      → start < now
      → Holds now log (next now c s)
  other-Holds c start now log s n v lt =
      let same : redis.members (next now c s) client ≡ redis.members s client =
        members_after execute second window_seconds client max_requests redis limit now c client s
        ∙ ground (arith, n) in
      record {
        young =
            subst (All (λ e. e.0 ≤ now)) (sym same)
              (All-weaken (λ e. e.0 ≤ start) (λ e. e.0 ≤ now) (λ e h. omega arith) _ v.young);
        kept = λ t h.
            subst (λ d. logged t log ≤ length (keep (λ e. is_recent t window e.1) d)) (sym same)
              (v.kept t (omega arith));
        within = λ t h. v.within t (omega arith);
      }

  step-Holds :
      (start now : ℕ) (c : String) (log : List ℕ) (s : S) (d : Dec (c ≡ client))
      → Holds start log s
      → start < now
      → window ≤ now
      → Holds now
          (if leb (length (redis.members (next now c s) c)) limit
            then ite d (log ++ now ∷ []) log
            else log)
          (next now c s)
  step-Holds start now c log s (yes p) v lt w =
      elim (Bool-cases (leb (length (redis.members (next now client s) client)) limit)) [
        | inl t ↦ rw (p, t) (admitted-Holds start now log s v lt w (ground arith))
        | inr f ↦ rw (p, f) (refused-Holds start now log s v lt w)
      ]
  step-Holds start now c log s (no n) v lt w =
      elim (Bool-cases (leb (length (redis.members (next now c s) c)) limit)) [
        | inl t ↦ rw t (other-Holds c start now log s n v lt)
        | inr f ↦ rw f (other-Holds c start now log s n v lt)
      ]

  abbrev run : List Asked → List ℕ → (ℕ → Limiter) → S → List ℕ
  run = admitted_anywhere execute second window_seconds client max_requests

  -- The rest of a run, after the answer to its first request.
  abbrev rest_of : Asked → List Asked → List ℕ → (ℕ → Limiter) → Bool × (Limiter × S) → List ℕ
  rest_of a rest log processes (allowed, (l, s)) =
      run rest
        (if allowed then ite (String_discrete a.client client) (log ++ a.now ∷ []) log else log)
        (λ k. if a.process == k then l else processes k) s

  put_back :
      (p k : ℕ) (processes : ℕ → Limiter)
      → (if p == k then processes p else processes k) ≡ processes k
  put_back p k processes = elim (Bool-cases (p == k)) [
    | inl t ↦ (let same : p ≡ k = ground arith in rw t (ap processes same))
    | inr f ↦ rw f refl
  ]

  run_within :
      (calls : List Asked) (start last : ℕ) (log : List ℕ) (processes : ℕ → Limiter) (s : S)
      → IsReady execute second window_seconds client max_requests redis limit processes
      → Holds start log s
      → window ≤ start
      → IsRising start calls last
      → logged last (run calls log processes s) ≤ limit
  unfolding admitted_anywhere IsRising
  run_within [] start last log processes s ready v w o = v.within last o
  run_within (a ∷ rest) start last log processes s ready v w o =
      let l = processes a.process in
      let (on, got, same) = ready a.process in
      let e =
        checked execute second window_seconds client max_requests redis limit a.now a.client l s on
          got same in
      subst (λ r. logged last (rest_of a rest log processes r) ≤ limit) (sym e)
        (run_within rest a.now last _ (λ k. if a.process == k then l else processes k)
          (next a.now a.client s)
          (λ k.
            subst
              (λ (m : Limiter).
                (m.local.enabled ≡ true)
                × (m.redis_client ≡ true)
                × (limit_or max_requests m.local.rate_limit_per_minute ≡ limit))
              (sym (put_back a.process k processes)) (ready k))
          (step-Holds start a.now a.client log s (String_discrete a.client client) v o.0
            (omega (arith, o.0, w)))
          (omega (arith, o.0, w)) o.1)

  -- If Redis runs pipelines on sorted sets, and holds no request of the client, and every process is
  -- connected to it and has the limit: whatever clients ask of whatever processes, at times that rise
  -- and lie more than a window after zero, at the last time the requests of the client that were
  -- admitted anywhere within the window before it are no more than the limit.
  pub admitted_anywhere_bound :
      (calls : List Asked) (start last : ℕ) (processes : ℕ → Limiter) (s : S)
      → IsReady execute second window_seconds client max_requests redis limit processes
      → redis.members s client ≡ []
      → window_seconds * second ≤ start
      → IsRising start calls last
      → length (
          keep (is_recent last (window_seconds * second)) (
            admitted_anywhere execute second window_seconds client max_requests calls [] processes
              s))
        ≤ limit
  admitted_anywhere_bound calls start last processes s ready none_yet w o =
      run_within calls start last [] processes s ready
        (record { young = rw none_yet tt; kept = λ t h. omega arith; within = λ t h. omega arith })
        w o
