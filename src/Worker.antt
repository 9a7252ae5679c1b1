-- ===== src/Worker.antt =====
-- `ReliableWorker` of backend/worker.py: a job is registered, run with its own retries, and put on
-- the dead letter queue when they are used up. The functions of `JobService` that run a job are
-- parameters; Worker/Runners puts the runners of Jobs/Runner in their place. Between the attempts
-- other threads act on the tables: `others i` is what they do while attempt `i` is slept off.
mod Tests
pub mod DeadLetters
pub mod Runners
pub mod Loop
use Prim.Native.String.{◌++◌ as str_append}
use text.Mathlib.Text.{◌==◌ as str_eq}
use seo_agent_rct.Prelude.{
  ℕ, zero, suc, ◌+◌, ◌-◌, Bool, true, false, not, ◌||◌, Option, none, some, List, [], ◌∷◌, ◌++◌,
  String, ltb, leb, ◌==◌, if◌then◌else◌, nat_key,
}
use seo_agent_rct.Dict
use seo_agent_rct.Dict.{Dict}
use seo_agent_rct.Jobs.Store.{Job, Status, running}
use seo_agent_rct.Jobs.Service.{World, Exceptions, Result, ok, raise, by_id, is_cancelled, fail_job}
use seo_agent_rct.Retry.{RetryEngine, Answer, returned, raised, compute_delay}
use seo_agent_rct.Worker.DeadLetters.{DeadLetter, DeadLetterQueue, LetterLib, push_to_dlq}

-- A job as the queue hands it over.
pub record Task : Type 0 where
  pub job_id : ℕ
  pub job_type : String
  pub user_id : ℕ

-- What the worker changes: the world, which has the counters of retries and the delays slept, since
-- the runners move them too, the dead letters, the running jobs with their start times, and the
-- counters of jobs.
pub record Worker (R : Type 0) : Type 0 where
  pub world : World
  pub dead_letters : DeadLetterQueue R
  pub running_jobs : Dict ℕ ℕ
  pub accepting_jobs : Bool
  pub jobs_completed : ℕ
  pub jobs_failed : ℕ

abbrev pub Runner : Type 0 → Type 0
Runner E = (job_id user_id : ℕ) → World → Answer E Unit × World

-- The functions that `_execute_job_wrapper` chooses from, with their `kwargs`.
pub record Targets (E : Type 0) : Type 0 where
  pub run_crawl_job : Runner E
  pub run_audit_job : Runner E
  pub run_keywords_job : Runner E
  pub run_rank_job : Runner E

-- `target_func`
unfoldable pub target_of : {E : Type 0} → Targets E → String → Option (Runner E)
target_of t job_type =
    if str_eq job_type "crawl"
    then some t.run_crawl_job
    else if str_eq job_type "audit"
    then some t.run_audit_job
    else if str_eq job_type "keywords"
    then some t.run_keywords_job
    else if str_eq job_type "rank"
    then some t.run_rank_job
    else none

module _ {R : Type 0} (task : Task) where
  abbrev pub unregistered : Worker R → Worker R
  unregistered w = record w { running_jobs = Dict.remove w.running_jobs task.job_id }

  -- `submit_job`; `submitted` is whether the executor takes the job, or raises.
  unfoldable pub submit_job : (now : ℕ) → (submitted : Bool) → Worker R → Worker R
  submit_job now submitted w =
      let w' : Worker R = record w { running_jobs = Dict.put w.running_jobs task.job_id now } in
      if w.accepting_jobs then (if submitted then w' else unregistered w') else w

module _ {E R : Type 0} (x : Exceptions E) (engine : RetryEngine E) (random : ℕ → ℕ) (clock : ℕ)
    (others : ℕ → World → World) (lib : LetterLib R) (targets : Targets E) (task : Task) where
  abbrev letter_of : String → ℕ → DeadLetter
  letter_of reason attempt = record {
    job_id = task.job_id;
    job_type = task.job_type;
    user_id = task.user_id;
    failure_reason = reason;
    retry_count = attempt;
  }

  -- `JobService.fail_job`, and what follows it unless it raises.
  unfoldable pub fail_then : String → (Worker R → Worker R) → Worker R → Option E × Worker R
  fail_then message next w =
      let (r, world) = fail_job x clock (by_id task.job_id) task.user_id message w.world in
      elim r [
        | ok job ↦ (none, next (record w { world = world }))
        | raise e ↦ (some e, record w { world = world })
      ]

  abbrev pub bury : String → ℕ → Worker R → Worker R
  bury reason attempt w = record w {
    dead_letters = push_to_dlq lib (letter_of reason attempt) w.dead_letters;
  }

  -- The end of the `except` block for an exception that is not retried.
  unfoldable pub give_up : ℕ → E → Worker R → Option E × Worker R
  unfolding fail_then
  give_up attempt e w =
      fail_then (x.str e)
        (λ v.
          let v' : Worker R = bury (x.str e) attempt v in
          record v' { jobs_failed = suc v'.jobs_failed })
        w

  -- The end of the `except` block after the last attempt.
  unfoldable pub give_out : ℕ → E → Worker R → Option E × Worker R
  unfolding fail_then
  give_out attempt e w =
      fail_then (str_append "Failed after max retries: " (x.str e))
        (bury (str_append "Exhausted retries: " (x.str e)) attempt)
        (record w {
          world = record w.world { retry_failures = suc w.world.retry_failures };
          jobs_failed = suc w.jobs_failed;
        })

  -- The wait before the next attempt.
  abbrev pub wait : ℕ → Worker R → Worker R
  wait attempt w = record w {
    world = others attempt (record w.world {
      retry_attempts = suc w.world.retry_attempts;
      slept = w.world.slept ++ (compute_delay engine attempt (random attempt) ∷ []);
    });
  }

  -- The loop over the attempts, with `rounds` rounds left; an exception that leaves it is returned.
  unfoldable pub attempts_from :
      (run : Runner E) → (rounds attempt : ℕ) → Worker R → Option E × Worker R
  unfolding give_up give_out
  attempts_from run zero attempt w = (none, w)
  attempts_from run (suc rounds) attempt w =
      let (answer, world) = run task.job_id task.user_id w.world in
      let w' : Worker R = record w { world = world } in
      let rest = attempts_from run rounds (suc attempt) (wait attempt w') in
      if is_cancelled task.job_id w.world then (none, w) else (elim answer [
        | returned done ↦ (none, record w' { jobs_completed = suc w'.jobs_completed })
        | raised e ↦
            if engine.non_retryable e
            then give_up attempt e w'
            else if ltb attempt engine.max_retries
            then rest
            else give_out attempt e w'
      ])

  -- The outer `try` block.
  unfoldable pub wrapped : Worker R → Option E × Worker R
  unfolding fail_then attempts_from
  wrapped w = elim (target_of targets task.job_type) [
    | none ↦ fail_then (str_append "Unknown job type '" (str_append task.job_type "'")) (λ v. v) w
    | some run ↦
        if is_cancelled task.job_id w.world
        then (none, w)
        else attempts_from run (suc engine.max_retries) 0 w
  ]

  -- The outer handler: an exception of the `try` block fails the job, and one of that leaves the
  -- wrapper; in any case the job is no longer running.
  unfoldable pub finish : Option E × Worker R → Option E × Worker R
  unfolding fail_then
  finish (none, w) = (none, unregistered task w)
  finish (some e, w) =
      let (uncaught, w') = fail_then (x.str e) (λ v. v) w in (uncaught, unregistered task w')

  -- `_execute_job_wrapper`
  unfoldable pub execute_job_wrapper : Worker R → Option E × Worker R
  unfolding wrapped finish
  execute_job_wrapper w = finish (wrapped w)
