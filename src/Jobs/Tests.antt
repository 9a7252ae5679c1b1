-- ===== src/Jobs/Tests.antt =====
-- Jobs at work: concrete tables, runners and exceptions.
use seo_agent_rct.Prelude.{
  ℕ, suc, ◌≡◌, ◌≤◌, refl, String, true, false, Option, none, some, List, [], ◌∷◌, arith, nat_key,
  ℕ_discrete, ==_iff, ◌==◌, if◌then◌else◌, pos,
}
use seo_agent_rct.Dict
use text.Mathlib.Text.{◌==◌ as str_eq}
use seo_agent_rct.Json.{Json, num}
use seo_agent_rct.Jobs.Store.{Status, Job, Jobs, pending, running, completed, failed, cancelled}
use seo_agent_rct.Jobs.Service.{World, Exceptions}
use seo_agent_rct.Jobs.Service.Effects.{IsKeyed}
use seo_agent_rct.Jobs.Service.Transitions.{
  Op, create, start, report, complete, fail, cancel, perform, perform_all,
}
use seo_agent_rct.Jobs.Service.Machine.{perform-status}
use seo_agent_rct.Jobs.Service.Lifecycle.{IsWell, IsStill, perform_all-IsWell, terminal_stays}
use seo_agent_rct.Jobs.Keywords.{KeywordLib, get_keyword_ideas}
use seo_agent_rct.Jobs.Runner.{
  AuditResult, run_job, run_crawl_job, run_audit_job, run_rank_job, run_keywords_job,
  keywords_output, first_try,
}
use seo_agent_rct.Jobs.Runner.Stages.{LeavesRow, Holds}
use seo_agent_rct.Jobs.Runner.Outcomes.{IsCompleted}
use seo_agent_rct.Jobs.Runner.Services.{
  Fails, runners-IsFailed, run_keywords_job-completes, run_keywords_job-cancelled,
  run_keywords_job-loses_cancel,
}
use seo_agent_rct.Jobs.Runner.Races.{IsFailed, run_job-fails}
use seo_agent_rct.Retry.{
  RetryEngine, Answer, returned, raised, raises, execute, execute_from, attempt_once, on_exception,
}

abbrev job_with : Status → Job
job_with s = record {
  id = 3;
  user_id = 7;
  website_id = some 2;
  job_type = "crawl";
  status = s;
  progress = 0;
  created_at = some 100;
  started_at = none;
  finished_at = none;
  updated_at = some 100;
  error_message = none;
  result_reference = none;
}

abbrev table_with : Status → Jobs
table_with s = record { rows = (3, job_with s) ∷ []; next_id = 4 }

abbrev world_with : Status → World
world_with s = record {
  db = table_with s;
  redis_up = true;
  published = [];
  retry_attempts = 0;
  retry_failures = 0;
  slept = [];
}

-- An exception is its own text.
abbrev errors : Exceptions String
errors = record {
  row_gone = "the row is gone";
  missing_argument = "missing argument: db";
  str = λ e. e;
}

abbrev one_retry : RetryEngine String
one_retry = record {
  max_retries = 1;
  initial_delay = 1;
  max_delay = 60;
  backoff_factor = 2;
  jitter = false;
  retryable = λ e. true;
  non_retryable = λ e. str_eq e "missing argument: db";
}

abbrev no_jitter : ℕ → ℕ
no_jitter i = 0

abbrev at_work : ℕ → ℕ
at_work i = 200

abbrev alone : ℕ → World → World
alone i w = w

-- What the services would return if they were entered.
abbrev audit_seven : World → Answer String (Option AuditResult) × World
audit_seven w = (
  returned (some (record { website_id = some 2; audit_id = some 7; score = 80; leads_found = 0 })),
  w,
)

abbrev rank_seven : World → Answer String (Option Json) × World
rank_seven w = (returned (some (num 7)), w)

-- Texts as they are, and one number for all.
abbrev plain : KeywordLib
plain = record { lower = λ s. s; strip = λ s. s; md5_number = λ s. 1234 }

abbrev crawl_breaks : World → Answer String (Option ℕ) × World
crawl_breaks w = (raised "no route to host", w)

-- Another thread cancels job 3 just before access `n`.
abbrev cancel_before : ℕ → ℕ → World → World
cancel_before n i w = if i == n then record w { db = table_with cancelled } else w

one_row :
    (s : Status) (k : ℕ) (job : Job)
    → Dict.get (table_with s).rows k ≡ some job
    → (k ≡ 3) × (job ≡ job_with s)
unfolding Dict.get
one_row s k job h = ground arith

table-IsKeyed : (s : Status) → IsKeyed (table_with s)
table-IsKeyed s = record {
  id_at = λ k job h. ground (arith, one_row s k job h);
  below = λ k job h. ground (arith, one_row s k job h);
}

table-IsWell : (s : Status) → IsWell (table_with s)
table-IsWell s = record {
  keyed = table-IsKeyed s;
  progress = λ k job h. ground (arith, one_row s k job h);
}

row_3 : (s : Status) → Dict.get (table_with s).rows 3 ≡ some (job_with s)
unfolding Dict.get ℕ_discrete
row_3 s = refl

held : (s : Status) → Holds 3 7 (job_with s) (world_with s)
held s = record { row = row_3 s; same_id = refl; mine = refl }

breaks_ends :
    (w : World)
    → (execute one_retry no_jitter crawl_breaks (first_try w)).0 ≡ raises "no route to host"
unfolding execute execute_from attempt_once on_exception
breaks_ends w = refl

calm_before : (n m : ℕ) → suc m ≤ n → LeavesRow (cancel_before n) 3 m
calm_before n m h i le w = ground arith

cancels_before :
    (n : ℕ) (w : World) → Dict.get (cancel_before n n w).db.rows 3 ≡ some (job_with cancelled)
cancels_before n w = rw ((==_iff n n).1 refl) (row_3 cancelled)

run_keywords_job-completes_example :
    (job' : Job) × (Dict.get
        (run_keywords_job errors one_retry no_jitter at_work alone plain "seo" 5 none 3 7
          (world_with pending)).db.rows
        3
      ≡ some job')
    × IsCompleted 200 200 (keywords_output "seo" (get_keyword_ideas plain "seo" 5 none)) job'
run_keywords_job-completes_example =
    run_keywords_job-completes errors one_retry no_jitter at_work alone 3 7 plain "seo" 5 none
      (world_with pending) (job_with pending) (held pending) refl (λ i le w. refl)

runners-IsFailed_example :
    Fails errors one_retry no_jitter at_work alone 3 7
      (run_crawl_job errors one_retry no_jitter at_work alone audit_seven 3 7)
      (world_with pending)
    × Fails errors one_retry no_jitter at_work alone 3 7
        (run_audit_job errors one_retry no_jitter at_work alone audit_seven 3 7)
        (world_with pending)
    × Fails errors one_retry no_jitter at_work alone 3 7
        (run_rank_job errors one_retry no_jitter at_work alone rank_seven 3 7)
        (world_with pending)
runners-IsFailed_example =
    runners-IsFailed errors one_retry no_jitter at_work alone 3 7 audit_seven rank_seven
      (world_with pending) (job_with pending) (held pending) refl (λ i le w. refl) refl

run_job-fails_example :
    (job' : Job) × (Dict.get
        (run_job errors one_retry no_jitter at_work alone crawl_breaks num 3 7
          (world_with pending)).db.rows
        3
      ≡ some job')
    × IsFailed 200 "no route to host" job'
run_job-fails_example =
    run_job-fails errors one_retry no_jitter at_work alone crawl_breaks num 3 7 (world_with pending)
      (job_with pending) "no route to host" (held pending) refl (λ i le w. refl) (λ w. refl)
      breaks_ends

run_keywords_job-cancelled_example :
    Dict.get
      (run_keywords_job errors one_retry no_jitter at_work
        (cancel_before 5)
        plain
        "seo"
        5
        none
        3
        7
        (world_with pending)).db.rows
      3
    ≡ some (job_with cancelled)
run_keywords_job-cancelled_example =
    run_keywords_job-cancelled errors one_retry no_jitter at_work (cancel_before 5) 3 7 plain "seo"
      5 none (world_with pending) (job_with pending) (job_with cancelled) (held pending) refl
      (calm_before 5 4 (omega arith)) (cancels_before 5) refl

run_keywords_job-loses_cancel_example :
    (job' : Job) × (Dict.get
        (run_keywords_job errors one_retry no_jitter at_work
          (cancel_before 7)
          plain
          "seo"
          5
          none
          3
          7
          (world_with pending)).db.rows
        3
      ≡ some job')
    × (job'.status ≡ completed)
run_keywords_job-loses_cancel_example =
    run_keywords_job-loses_cancel errors one_retry no_jitter at_work (cancel_before 7) 3 7 plain
      "seo" 5 none (world_with pending) (job_with pending) (job_with cancelled) (held pending) refl
      (calm_before 7 6 (omega arith)) (cancels_before 7) refl refl

perform-status_example :
    (job' : Job) × (Dict.get (perform errors 7 (cancel 200 3) (world_with completed)).db.rows 3
      ≡ some job')
    × (job'.status ≡ cancelled)
perform-status_example =
    perform-status errors 7 (cancel 200 3) (world_with completed) 3 (job_with completed)
      (table-IsKeyed completed) refl refl (row_3 completed) refl

abbrev usual : List Op
usual =
    create 200 "audit" none none
    ∷ start 201 3
    ∷ report 202 3 (pos 250) none
    ∷ report 202 3 (pos 60) (some running)
    ∷ complete 203 3 (some (num 9))
    ∷ fail 204 3 "late"
    ∷ []

perform_all-IsWell_example : IsWell (perform_all errors 7 usual (world_with pending)).db
perform_all-IsWell_example =
    perform_all-IsWell errors 7 usual (world_with pending) (table-IsWell pending)

terminal_stays_example :
    IsStill failed (Dict.get (perform_all errors 7 usual (world_with failed)).db.rows 3)
terminal_stays_example =
    terminal_stays errors 7 3 usual (world_with failed) (job_with failed) (table-IsWell failed)
      (row_3 failed) refl (refl, (refl, (refl, (refl, (refl, (refl, tt))))))
