-- ===== src/Jobs/Runner/Services.antt =====
-- The four runners with the calls of their services. `get_keyword_ideas` returns; `audit_website` and
-- `check_rank` are called without a session, which they need.
use seo_agent_rct.Prelude.{ℕ, ◌≡◌, refl, true, Option, some, String, nat_key}
use seo_agent_rct.Dict
use seo_agent_rct.Json.{Json, Items}
use seo_agent_rct.Jobs.Store.{Job, pending, completed, cancelled}
use seo_agent_rct.Jobs.Keywords.{KeywordLib, get_keyword_ideas}
use seo_agent_rct.Jobs.Service.{World, Exceptions}
use seo_agent_rct.Jobs.Runner.{
  AuditResult, first_try, crawl_output, audit_output, keywords_output, audit_call, rank_call,
  keywords_call, run_crawl_job, run_audit_job, run_rank_job, run_keywords_job,
}
use seo_agent_rct.Jobs.Runner.Stages.{LeavesRow, Holds}
use seo_agent_rct.Jobs.Runner.Outcomes.{IsCompleted, run_job-completes}
use seo_agent_rct.Jobs.Runner.Races.{
  IsFailed, run_job-fails, run_job-cancelled, run_job-loses_cancel,
}
use seo_agent_rct.Retry.{
  RetryEngine, Answer, returns, raised, raises, execute, execute_from, attempt_once, on_exception,
}

module _ {E : Type 0} (x : Exceptions E) (engine : RetryEngine E) (random clock : ℕ → ℕ)
    (env : ℕ → World → World) (id user : ℕ) where
  -- What a runner gives a job whose service cannot be called.
  abbrev pub Fails : (World → World) → World → Type 0
  Fails run w =
      (job : Job) × (Dict.get (run w).db.rows id ≡ some job)
      × IsFailed (clock 8) (x.str x.missing_argument) job

  not_retried :
      {R : Type 0} (work : World → Answer E (Option R) × World) (w : World)
      → work w ≡ (raised x.missing_argument, w)
      → engine.non_retryable x.missing_argument ≡ true
      → (execute engine random work (first_try w)).0 ≡ raises x.missing_argument
  unfolding execute execute_from attempt_once on_exception
  not_retried work w gone e = rw (execute, execute_from, attempt_once, gone, on_exception, e) refl

  -- The crawl, the audit and the rank runner drop the session that their service needs. For a pending
  -- job whose row no other thread touches, if the engine does not retry a missing argument, each of
  -- the three ends with the job failed, with the text of the missing argument, whatever
  -- `audit_website` and `check_rank` would do.
  pub runners-IsFailed :
      (audit_website : World → Answer E (Option AuditResult) × World)
      (check_rank : World → Answer E (Option Json) × World) (w : World) (job : Job)
      → Holds id user job w
      → job.status ≡ pending
      → LeavesRow env id 8
      → engine.non_retryable x.missing_argument ≡ true
      → Fails (run_crawl_job x engine random clock env audit_website id user) w
        × Fails (run_audit_job x engine random clock env audit_website id user) w
        × Fails (run_rank_job x engine random clock env check_rank id user) w
  unfolding run_crawl_job run_audit_job run_rank_job
  runners-IsFailed audit_website check_rank w job h p calm e =
      let audit = audit_call x audit_website in
      let rank = rank_call x check_rank in
      (
        run_job-fails x engine random clock env audit crawl_output id user w job x.missing_argument
            h p calm (λ v. refl) (λ v. not_retried audit v refl e),
        run_job-fails x engine random clock env audit audit_output id user w job x.missing_argument
            h p calm (λ v. refl) (λ v. not_retried audit v refl e),
        run_job-fails x engine random clock env rank (λ r. r) id user w job x.missing_argument h p
            calm (λ v. refl) (λ v. not_retried rank v refl e),
      )

  module _ (lib : KeywordLib) (seed_keyword : String) (limit : ℕ) (cached : Option Items) where
    abbrev ideas : Items
    ideas = get_keyword_ideas lib seed_keyword limit cached

    ideas_end :
        (w : World)
        → (execute engine random (keywords_call x lib seed_keyword limit cached) (first_try w)).0
          ≡ returns (some ideas)
    unfolding execute execute_from attempt_once
    ideas_end w = refl

    -- If no other thread touches the row of a pending keywords job, then its runner ends with the job
    -- completed, the ideas for the seed keyword stored with their number, and both times set.
    pub run_keywords_job-completes :
        (w : World) (job : Job)
        → Holds id user job w
        → job.status ≡ pending
        → LeavesRow env id 7
        → (job' : Job) × (Dict.get
              (run_keywords_job x engine random clock env lib seed_keyword limit cached id user
                w).db.rows
              id
            ≡ some job')
          × IsCompleted
              (clock 1)
              (clock 7)
              (keywords_output seed_keyword (get_keyword_ideas lib seed_keyword limit cached))
              job'
    unfolding run_keywords_job
    run_keywords_job-completes w job h p calm =
        run_job-completes x engine random clock env (keywords_call x lib seed_keyword limit cached)
          (keywords_output seed_keyword) id user w job ideas h p calm (λ v. refl) ideas_end

    -- If nobody else touches the row of a pending keywords job until another thread cancels it, so
    -- that its row is the cancelled `c` when the runner checks after the call of the service, then
    -- the runner leaves that row exactly as it is.
    pub run_keywords_job-cancelled :
        (w : World) (job c : Job)
        → Holds id user job w
        → job.status ≡ pending
        → LeavesRow env id 4
        → ((w' : World) → Dict.get (env 5 w').db.rows id ≡ some c)
        → c.status ≡ cancelled
        → Dict.get
            (run_keywords_job x engine random clock env lib seed_keyword limit cached id user
              w).db.rows
            id
          ≡ some c
    unfolding run_keywords_job
    run_keywords_job-cancelled w job c h p calm cancels gone =
        run_job-cancelled x engine random clock env (keywords_call x lib seed_keyword limit cached)
          (keywords_output seed_keyword) id user w job c ideas h p calm cancels gone (λ v. refl)
          ideas_end

    -- A cancellation between the last check and the completion is lost: if nobody else touches the
    -- row of a pending keywords job until another thread makes it the cancelled `c` just before
    -- access 7, then the runner ends with the job completed all the same.
    pub run_keywords_job-loses_cancel :
        (w : World) (job c : Job)
        → Holds id user job w
        → job.status ≡ pending
        → LeavesRow env id 6
        → ((w' : World) → Dict.get (env 7 w').db.rows id ≡ some c)
        → c.id ≡ id
        → c.status ≡ cancelled
        → (job' : Job) × (Dict.get
              (run_keywords_job x engine random clock env lib seed_keyword limit cached id user
                w).db.rows
              id
            ≡ some job')
          × (job'.status ≡ completed)
    unfolding run_keywords_job
    run_keywords_job-loses_cancel w job c h p calm cancels cid gone =
        run_job-loses_cancel x engine random clock env
          (keywords_call x lib seed_keyword limit cached) (keywords_output seed_keyword) id user w
          job c ideas h p calm cancels cid gone (λ v. refl) ideas_end
