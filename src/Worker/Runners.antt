-- ===== src/Worker/Runners.antt =====
-- The worker with the runners of Jobs/Runner, which catch every exception themselves.
use seo_agent_rct.Prelude.{ℕ, suc, ◌≡◌, refl, false, Option, none, some, String, arith, nat_key}
use mathlib.Core.Path.{ap, subst, sym}
use seo_agent_rct.Dict
use seo_agent_rct.Dict.{Dict}
use seo_agent_rct.Json.{Json}
use seo_agent_rct.Jobs.Store.{Job, pending, get_job_by_id_unfiltered}
use seo_agent_rct.Jobs.Service.{World, Exceptions, is_cancelled}
use seo_agent_rct.Jobs.Runner.{run_job}
use seo_agent_rct.Jobs.Runner.Stages.{LeavesRow, Holds, Ends, WorkLeavesRow}
use seo_agent_rct.Jobs.Runner.Races.{IsFailed, run_job-fails}
use seo_agent_rct.Retry.{RetryEngine, Answer, returned, raises}
use seo_agent_rct.Worker.{
  Task, Worker, Runner, Targets, target_of, attempts_from, wrapped, finish, execute_job_wrapper,
}
use seo_agent_rct.Worker.DeadLetters.{LetterLib}

-- `JobService.run_crawl_job` and the other runners, as the worker calls them.
unfoldable pub as_runner :
    {E A : Type 0}
    → Exceptions E
    → RetryEngine E
    → (random clock : ℕ → ℕ) → (env : ℕ → World → World)
    → (work : World → Answer E (Option A) × World) → (output : A → Json) → Runner E
as_runner x engine random clock env work output job_id user_id w =
    (returned tt, run_job x engine random clock env work output job_id user_id w)

pending_not_cancelled :
    (id user : ℕ) (job : Job) (w : World)
    → Holds id user job w
    → job.status ≡ pending
    → is_cancelled id w ≡ false
unfolding is_cancelled get_job_by_id_unfiltered
pending_not_cancelled id user job w h p = let row = h.row in ground arith

module _ {E R : Type 0} (x : Exceptions E) (engine : RetryEngine E) (random : ℕ → ℕ) (clock : ℕ)
    (others : ℕ → World → World) (lib : LetterLib R) (targets : Targets E) (task : Task) where
  -- A worker whose job has been run once and counted as completed.
  abbrev done : World → Worker R → Worker R
  done world w = record w {
    world = world;
    jobs_completed = suc w.jobs_completed;
    running_jobs = Dict.remove w.running_jobs task.job_id;
  }

  wrapped_returned :
      (run : Runner E) (w : Worker R) (world : World)
      → target_of targets task.job_type ≡ some run
      → is_cancelled task.job_id w.world ≡ false
      → run task.job_id task.user_id w.world ≡ (returned tt, world)
      → wrapped x engine random clock others lib targets task w
        ≡ (none, record w { world = world; jobs_completed = suc w.jobs_completed })
  unfolding wrapped attempts_from
  wrapped_returned run w world t c r =
      rw (wrapped, t, c, attempts_from, r)
        (ap (λ p. (none, record w { world = p.1; jobs_completed = suc w.jobs_completed })) r)

  wrapper_returned :
      (run : Runner E) (w : Worker R) (world : World)
      → target_of targets task.job_type ≡ some run
      → is_cancelled task.job_id w.world ≡ false
      → run task.job_id task.user_id w.world ≡ (returned tt, world)
      → execute_job_wrapper x engine random clock others lib targets task w ≡ (none, done world w)
  unfolding execute_job_wrapper finish
  wrapper_returned run w world t c r =
      ap (finish x engine random clock others lib targets task) (wrapped_returned run w world t c r)

-- A job given up by its runner `run`, on a worker that does not learn of it.
pub record IsLostFailure {R : Type 0} (run : World → World) (id finished : ℕ) (message : String)
    (w w' : Worker R) : Type 0 where
  pub ran_once : w'.world ≡ run w.world
  pub job : Job
  pub row : Dict.get w'.world.db.rows id ≡ some job
  pub given_up : IsFailed finished message job
  pub counted : (w'.jobs_completed ≡ suc w.jobs_completed) × (w'.jobs_failed ≡ w.jobs_failed)
  pub not_buried : w'.dead_letters ≡ w.dead_letters
  pub not_running : w'.running_jobs ≡ Dict.remove w.running_jobs id

module _ {E R A : Type 0} (x : Exceptions E) (engine service_engine : RetryEngine E)
    (random : ℕ → ℕ) (clock : ℕ) (others : ℕ → World → World) (lib : LetterLib R)
    (targets : Targets E) (task : Task) (random' clock' : ℕ → ℕ) (env : ℕ → World → World)
    (work : World → Answer E (Option A) × World) (output : A → Json) where
  -- The worker takes a pending job that no other thread touches, whose service call ends with the
  -- exception `e`, retries of the runner included, and leaves the row alone: the runner fails the job
  -- with the text of `e`, but the worker counts it as completed, does not run it again, so that the
  -- world is what one run leaves, and puts nothing on the dead letter queue. The job is no longer
  -- among the running ones.
  pub execute_job_wrapper-IsLostFailure :
      (w : Worker R) (job : Job) (e : E)
      → target_of targets task.job_type
        ≡ some (as_runner x service_engine random' clock' env work output)
      → Holds task.job_id task.user_id job w.world
      → job.status ≡ pending
      → LeavesRow env task.job_id 8
      → WorkLeavesRow x service_engine random' clock' env work output task.job_id task.user_id
      → Ends x service_engine random' clock' env work output task.job_id task.user_id (raises e)
      → IsLostFailure
          (run_job x service_engine random' clock' env work output task.job_id task.user_id)
          task.job_id
          (clock' 8)
          (x.str e)
          w
          (execute_job_wrapper x engine random clock others lib targets task w).1
  unfolding as_runner
  execute_job_wrapper-IsLostFailure w job e t h p calm quiet ends =
      let (job', row, given_up) =
        run_job-fails x service_engine random' clock' env work output task.job_id task.user_id
          w.world job e h p calm quiet ends in
      let run = as_runner x service_engine random' clock' env work output in
      let ran =
        wrapper_returned x engine random clock others lib targets task run w _ t
          (pending_not_cancelled task.job_id task.user_id job w.world h p) refl in
      subst
        (λ r.
          IsLostFailure
            (run_job x service_engine random' clock' env work output task.job_id task.user_id)
            task.job_id (clock' 8) (x.str e) w r.1)
        (sym ran)
        (record {
          ran_once = refl;
          job = job';
          row = row;
          given_up = given_up;
          counted = (refl, refl);
          not_buried = refl;
          not_running = refl;
        })
