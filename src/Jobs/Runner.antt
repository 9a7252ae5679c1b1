-- ===== src/Jobs/Runner.antt =====
-- The background runners `run_crawl_job`, `run_audit_job`, `run_keywords_job` and `run_rank_job` of
-- backend/services/job_service.py. They have one shape, and differ in the service that they call
-- and in the output that they store. Other threads act between the accesses to the table: `env i` is
-- what they do before access `i`, and `clock i` the time then.
mod Steps
pub mod Stages
pub mod Outcomes
pub mod Races
pub mod Services
use text.Mathlib.Text.{◌==◌ as str_eq}
use seo_agent_rct.Prelude.{
  ◌==◌, not, ◌&&◌, ◌||◌, ℕ, zero, suc, String, Bool, true, false, Option, none, some, List, [], ◌∷◌,
  ℤ, pos, if◌then◌else◌,
}
use seo_agent_rct.Json.{Json, null, num, str, arr, obj, Items, Fields, end, field}
use seo_agent_rct.Jobs.Keywords.{KeywordLib, get_keyword_ideas}
use seo_agent_rct.Jobs.Store.{Job, Status, get_user_job_by_id}
use seo_agent_rct.Jobs.Service.{
  World, Exceptions, Result, ok, raise, by_id, loaded, blocks_progress, is_cancelled, start_job,
  update_progress, complete_job, fail_job,
}
use seo_agent_rct.Retry.{
  RetryEngine, Answer, Outcome, returned, raised, returns, raises, fell_through, Trace, execute,
}

-- How a part of the `try` block ends: it goes on, it returns early, or it raises.
pub data Step (E A : Type 0) : Type 0 where
  go : A → Step E A
  stop : Step E A
  throw : E → Step E A

abbrev pub Run : Type 0 → Type 0 → Type 0
Run E A = World → Step E A × World

infixl 5 ◌>>=◌ ◌>>◌
abbrev pub ◌>>=◌ : {E A B : Type 0} → Run E A → (A → Run E B) → Run E B
◌>>=◌ m f w =
    let (r, w') = m w in elim r [ go a ↦ f a w' | stop ↦ (stop, w') | throw e ↦ (throw e, w') ]

abbrev pub ◌>>◌ : {E A B : Type 0} → Run E A → Run E B → Run E B
m >> k = m >>= λ _. k

-- What the crawl and audit services return, as far as the runners read it.
pub record AuditResult : Type 0 where
  pub website_id : Option ℕ
  pub audit_id : Option ℕ
  pub score : ℕ
  pub leads_found : ℕ

abbrev id_or_null : Option ℕ → Json
id_or_null none = null
id_or_null (some id) = num id

-- The `output` of `run_crawl_job`.
unfoldable pub crawl_output : AuditResult → Json
crawl_output res = obj (
    field "website_id" (id_or_null res.website_id)
      (field "audit_id" (id_or_null res.audit_id) (field "leads_found" (num res.leads_found) end)))

-- The `output` of `run_audit_job`.
unfoldable pub audit_output : AuditResult → Json
audit_output res = obj (
    field "website_id" (id_or_null res.website_id)
      (field "audit_id" (id_or_null res.audit_id) (field "score" (num res.score) end)))

abbrev count_items : Items → ℕ
count_items Items.nil = 0
count_items (Items.cons j js) = suc (count_items js)

-- The `output` of `run_keywords_job`.
unfoldable pub keywords_output : String → Items → Json
keywords_output seed_keyword keywords = obj (
    field "seed_keyword" (str seed_keyword)
      (field "total" (num (count_items keywords)) (field "keywords" (arr keywords) end)))

module _ {E : Type 0} (env : ℕ → World → World) where
  -- An operation of `JobService` on the instance `job`, as access `i`.
  unfoldable pub act : ℕ → (World → Result E (Option Job) × World) → Job → Run E Job
  act i op job w =
      let (r, w') = op (env i w) in
      elim r [ ok (some job') ↦ (go job', w') | ok none ↦ (go job, w') | raise e ↦ (throw e, w') ]

  module _ (job_id : ℕ) where
    -- `crud.get_user_job_by_id` and the test of the status.
    unfoldable pub load : ℕ → Run E Job
    load user_id w =
        let w' : World = env 0 w in
        elim (get_user_job_by_id w'.db job_id user_id) [
          | none ↦ (stop, w')
          | some job ↦ if blocks_progress job.status then (stop, w') else (go job, w')
        ]

    -- `if JobService.is_cancelled(db, job_id): return`, as access `i`.
    unfoldable pub check : ℕ → Run E Unit
    check i w =
        let w' : World = env i w in if is_cancelled job_id w' then (stop, w') else (go tt, w')

-- The world with the counters and the delays of the engine.
abbrev pub settled : Trace World → World
settled t = record t.world {
  retry_attempts = t.retry_attempts;
  retry_failures = t.retry_failures;
  slept = t.slept;
}

module _ {E R : Type 0} where
  -- The result of the retried call: with `None` the runner returns.
  unfoldable pub as_step : Outcome E (Option R) × Trace World → Step E R × World
  as_step (returns (some r), t) = (go r, settled t)
  as_step (returns none, t) = (stop, settled t)
  as_step (raises e, t) = (throw e, settled t)
  as_step (fell_through, t) = (stop, settled t)

abbrev pub first_try : World → Trace World
first_try w = record {
  world = w;
  retry_attempts = w.retry_attempts;
  retry_failures = w.retry_failures;
  slept = w.slept;
}

-- The keyword arguments that `_execute_with_retry` passes on: its own parameters take theirs.
abbrev pub passed_on : List String → List String
passed_on [] = []
passed_on (k ∷ ks) =
    let rest = passed_on ks in
    if str_eq k "retries" || (str_eq k "db" || str_eq k "job_id") then rest else k ∷ rest

abbrev pub is_named : String → List String → Bool
is_named k [] = false
is_named k (j ∷ js) = let rest = is_named k js in str_eq k j || rest

abbrev pub are_named : List String → List String → Bool
are_named [] given = true
are_named (k ∷ ks) given = let rest = are_named ks given in is_named k given && rest

-- `func(**kwargs)` with the arguments that are passed on: a required parameter that is not among them
-- is a `TypeError`.
abbrev pub call_with :
    {E R : Type 0}
    → Exceptions E
    → (required kwargs : List String) → (World → Answer E (Option R) × World)
    → World
    → Answer E (Option R) × World
call_with x required kwargs func w =
    if are_named required (passed_on kwargs) then func w else (raised x.missing_argument, w)

module _ {E R : Type 0} (x : Exceptions E) (engine : RetryEngine E) (random clock : ℕ → ℕ)
    (env : ℕ → World → World) (work : World → Answer E (Option R) × World) (output : R → Json)
    (job_id user_id : ℕ) where
  -- `JobService._execute_with_retry`, where `work` is the call of the function with the arguments that
  -- are passed on; with no result the runner returns.
  unfoldable pub execute_with_retry : Run E R
  unfolding as_step
  execute_with_retry w =
      let w' : World = env 4 w in
      if is_cancelled job_id w' && not (job_id == 0)
      then (stop, w')
      else as_step (execute engine random work (first_try w'))

  -- The `try` block up to the service call.
  unfoldable pub prepare : Run E Job
  prepare = do
    job ← load env job_id user_id
    job ← act env 1 (start_job x (clock 1) (loaded job) user_id) job
    job ← act env 2 (update_progress x (clock 2) (loaded job) user_id (pos 30) none) job
    check env job_id 3
    λ w. (go job, w)

  -- The `try` block after it.
  unfoldable pub conclude : Job → R → Run E Job
  conclude job r = do
    check env job_id 5
    job ← act env 6 (update_progress x (clock 6) (loaded job) user_id (pos 80) none) job
    act env 7 (complete_job x (clock 7) (loaded job) user_id (some (output r))) job

  -- The `try` block.
  unfoldable pub body : Run E Job
  body = do job ← prepare; r ← execute_with_retry; conclude job r

  -- The whole runner: an exception of the `try` block fails the job, and an exception of that is
  -- only logged.
  unfoldable pub run_job : World → World
  run_job w =
      let (r, w') = body w in
      elim r [
        | go job ↦ w'
        | stop ↦ w'
        | throw e ↦ (fail_job x (clock 8) (by_id job_id) user_id (x.str e) (env 8 w')).1
      ]

module _ {E : Type 0} (x : Exceptions E) where
  -- The call of `ScraperService.audit_website`, with its parameters that have no default and the
  -- keyword arguments that `run_crawl_job` and `run_audit_job` give.
  abbrev pub audit_call :
      (World → Answer E (Option AuditResult) × World)
      → World
      → Answer E (Option AuditResult) × World
  audit_call =
      call_with x ("url" ∷ "website_id" ∷ "user_id" ∷ "db" ∷ [])
        ("retries" ∷ "db" ∷ "job_id" ∷ "url" ∷ "website_id" ∷ "user_id" ∷ [])

  -- The call of `RankService.check_rank`, likewise.
  abbrev pub rank_call :
      (World → Answer E (Option Json) × World) → World → Answer E (Option Json) × World
  rank_call =
      call_with x ("keyword" ∷ "domain" ∷ "website_id" ∷ "user_id" ∷ "db" ∷ [])
        ("retries" ∷ "db" ∷ "job_id" ∷ "keyword" ∷ "domain" ∷ "website_id" ∷ "user_id" ∷ [])

  -- The call of `KeywordService.get_keyword_ideas`; `cached` is what the cache of the keywords answers.
  abbrev pub keywords_call :
      KeywordLib
      → (seed_keyword : String) → (limit : ℕ) → (cached : Option Items) → World
      → Answer E (Option Items) × World
  keywords_call lib seed_keyword limit cached =
      call_with x ("seed_keyword" ∷ [])
        ("retries" ∷ "db" ∷ "job_id" ∷ "seed_keyword" ∷ "limit" ∷ [])
        (λ w. (returned (some (get_keyword_ideas lib seed_keyword limit cached)), w))

module _ {E : Type 0} (x : Exceptions E) (engine : RetryEngine E) (random clock : ℕ → ℕ)
    (env : ℕ → World → World) where
  -- `run_crawl_job`
  unfoldable pub run_crawl_job :
      (World → Answer E (Option AuditResult) × World) → (job_id user_id : ℕ) → World → World
  unfolding run_job crawl_output
  run_crawl_job audit_website =
      run_job x engine random clock env (audit_call x audit_website) crawl_output

  -- `run_audit_job`
  unfoldable pub run_audit_job :
      (World → Answer E (Option AuditResult) × World) → (job_id user_id : ℕ) → World → World
  unfolding run_job audit_output
  run_audit_job audit_website =
      run_job x engine random clock env (audit_call x audit_website) audit_output

  -- `run_rank_job`
  unfoldable pub run_rank_job :
      (World → Answer E (Option Json) × World) → (job_id user_id : ℕ) → World → World
  unfolding run_job
  run_rank_job check_rank =
      run_job x engine random clock env (rank_call x check_rank) (λ rank. rank)

  -- `run_keywords_job`
  unfoldable pub run_keywords_job :
      KeywordLib
      → (seed_keyword : String) → (limit : ℕ) → (cached : Option Items) → (job_id user_id : ℕ)
      → World
      → World
  unfolding run_job keywords_output get_keyword_ideas
  run_keywords_job lib seed_keyword limit cached =
      run_job x engine random clock env (keywords_call x lib seed_keyword limit cached)
        (keywords_output seed_keyword)
