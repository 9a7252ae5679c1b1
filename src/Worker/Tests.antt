-- ===== src/Worker/Tests.antt =====
-- A worker without Redis, and a crawl whose service is called without a session.
use seo_agent_rct.Prelude.{
  ℕ, suc, ◌≤◌, pos, ◌≡◌, refl, String, true, false, Option, none, some, [], ◌∷◌, nat_key,
  ℕ_discrete,
}
use seo_agent_rct.Dict
use text.Mathlib.Text.{◌==◌ as str_eq}
use seo_agent_rct.Jobs.Store.{Job, pending}
use seo_agent_rct.Jobs.Service.{World, Exceptions}
use seo_agent_rct.Jobs.Runner.{AuditResult, run_job, audit_call, crawl_output, first_try}
use seo_agent_rct.Jobs.Runner.Stages.{Holds}
use seo_agent_rct.Retry.{
  RetryEngine, Answer, raised, raises, execute, execute_from, attempt_once, on_exception,
}
use seo_agent_rct.Worker.{Task, Worker, Runner, Targets, target_of, execute_job_wrapper}
use seo_agent_rct.Worker.DeadLetters.{LetterLib}
use seo_agent_rct.Queue.{Payload, normal, QueueLib, JobQueue}
use seo_agent_rct.Worker.Loop.{loop_body, running-loop_body-le}
use seo_agent_rct.Worker.Runners.{as_runner, IsLostFailure, execute_job_wrapper-IsLostFailure}

abbrev waiting : Job
waiting = record {
  id = 3;
  user_id = 7;
  website_id = none;
  job_type = "crawl";
  status = pending;
  progress = 0;
  created_at = some 100;
  started_at = none;
  finished_at = none;
  updated_at = some 100;
  error_message = none;
  result_reference = none;
}

abbrev tables : World
tables = record {
  db = record { rows = (3, waiting) ∷ []; next_id = 4 };
  redis_up = false;
  published = [];
  retry_attempts = 0;
  retry_failures = 0;
  slept = [];
}

abbrev errors : Exceptions String
errors = record {
  row_gone = "the row is gone";
  missing_argument = "missing argument: db";
  str = λ e. e;
}

abbrev two_retries : RetryEngine String
two_retries = record {
  max_retries = 2;
  initial_delay = 1;
  max_delay = 60;
  backoff_factor = 2;
  jitter = false;
  retryable = λ e. true;
  non_retryable = λ e. str_eq e "missing argument: db";
}

abbrev no_letters : LetterLib Unit
no_letters = record {
  connects = λ r. false;
  rpush = λ letter r. (false, r);
  llen = λ r. (none, r);
  lrange = λ limit r. (none, r);
  delete = λ r. (false, r);
}

abbrev idle : Worker Unit
idle = record {
  world = tables;
  dead_letters = record {
    enable_dead_letter_queue = true;
    redis_url_set = false;
    redis_connected = false;
    redis = tt;
    local_dlq = [];
    dead_letter_jobs = 0;
  };
  running_jobs = (3, 150) ∷ [];
  accepting_jobs = true;
  jobs_completed = 4;
  jobs_failed = 1;
}

-- The crawl as its runner calls it, without the session that it needs.
abbrev breaks : World → Answer String (Option AuditResult) × World
breaks = audit_call errors (λ w. (raised "not entered", w))

abbrev constant : ℕ → ℕ → ℕ
constant n i = n

abbrev alone : ℕ → World → World
alone i w = w

abbrev crawl_only : Runner String
crawl_only = as_runner errors two_retries (constant 0) (constant 200) alone breaks crawl_output

abbrev runners : Targets String
runners = record {
  run_crawl_job = crawl_only;
  run_audit_job = crawl_only;
  run_keywords_job = crawl_only;
  run_rank_job = crawl_only;
}

abbrev crawl : Task
crawl = record { job_id = 3; job_type = "crawl"; user_id = 7 }

row_3 : Dict.get tables.db.rows 3 ≡ some waiting
unfolding Dict.get ℕ_discrete
row_3 = refl

held : Holds 3 7 waiting tables
held = record { row = row_3; same_id = refl; mine = refl }

breaks_ends :
    (w : World)
    → (execute two_retries (constant 0) breaks (first_try w)).0 ≡ raises "missing argument: db"
unfolding execute execute_from attempt_once on_exception
breaks_ends w = refl

crawl_target : target_of runners "crawl" ≡ some crawl_only
unfolding target_of
crawl_target = refl

execute_job_wrapper-IsLostFailure_example :
    IsLostFailure
      (run_job errors two_retries (constant 0) (constant 200) alone breaks crawl_output 3 7)
      3
      200
      "missing argument: db"
      idle
      (execute_job_wrapper errors two_retries
        (constant 0)
        300
        alone
        no_letters
        runners
        crawl
        idle).1
execute_job_wrapper-IsLostFailure_example =
    execute_job_wrapper-IsLostFailure errors two_retries two_retries (constant 0) 300 alone
      no_letters runners crawl (constant 0) (constant 200) alone breaks crawl_output idle waiting
      "missing argument: db" crawl_target held refl (λ i le w. refl) (λ w. refl) breaks_ends

-- A queue in memory that hands out job `n` from `n` on.
abbrev job : ℕ → Payload
job n = record {
  job_type = "crawl";
  job_id = n;
  user_id = 7;
  priority = normal;
  priority_val = pos 5;
  group_id = none;
  trace_id = [];
  params = [];
  enqueued_at = 0;
}

abbrev counting : QueueLib Unit ℕ
counting = record {
  connects = λ s. false;
  rpush = λ k t s. (false, s);
  lpop = λ k s. (none, s);
  blpop = λ ks s. (none, s);
  llen = λ k s. (none, s);
  sadd_job = λ g j s. (false, s);
  sadd_group = λ g s. (false, s);
  smembers = λ g s. (none, s);
  delete_group = λ g s. (false, s);
  put = λ v j p n. some n;
  get = λ n. some (job n, suc n);
  qsize = λ n. 1;
  dumps = λ p. [];
  loads = λ t. none;
  lower = λ s. s;
  trace_of = λ n. [];
}

abbrev full_queue : JobQueue Unit ℕ
full_queue = record {
  use_redis_queue = false;
  redis_connected = false;
  redis = tt;
  in_memory_queue = 10;
  in_memory_groups = [];
  pop_counter = 0;
}

running-loop_body-le_example :
    Dict.size (loop_body counting 4 200 (λ i. true) (full_queue, idle)).1.running_jobs ≤ 4
running-loop_body-le_example = running-loop_body-le counting 4 200 (λ i. true) full_queue idle
