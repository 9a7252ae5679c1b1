-- ===== src/Crawls/Rows.antt =====
-- The rows of `crawl_jobs` and the functions of backend/database/crud.py that change one. A time is a
-- whole number of seconds, and `now` the clock that a function reads.
pub mod Runs
use seo_agent_rct.Prelude.{
  ℕ, String, Bool, true, false, not, ◌&&◌, Option, none, some, List, if◌then◌else◌, ℤ, pos,
  difference, ◌==◌, is_some, keep,
}

-- The texts of the column `status`. `other` is any text that is not one of the five.
pub data CrawlStatus : Type 0 where
  queued running completed failed cancelled : CrawlStatus
  other : String → CrawlStatus

pub record CrawlJob : Type 0 where
  pub id : ℕ
  pub website_id : ℕ
  pub status : CrawlStatus
  pub progress : ℤ
  pub pages_found : ℤ
  pub issues_found : ℤ
  pub duration_seconds : Option ℤ
  pub error_message : Option String
  pub triggered_by : String
  pub crawler_version : String
  pub started_at : Option ℕ
  pub finished_at : Option ℕ
  pub created_at : ℕ
  pub updated_at : ℕ

-- A function returns the row, or raises `ConflictException`.
pub data Outcome : Type 0 where
  done : CrawlJob → Outcome
  conflict : CrawlJob → Outcome

-- `create_crawl_job_async`; `id` is the one that the database gives.
unfoldable pub create_crawl_job :
    (now id website_id : ℕ) → (triggered_by crawler_version : String) → CrawlJob
create_crawl_job now id website_id triggered_by crawler_version = record {
  id = id;
  website_id = website_id;
  status = queued;
  progress = pos 0;
  pages_found = pos 0;
  issues_found = pos 0;
  duration_seconds = none;
  error_message = none;
  triggered_by = triggered_by;
  crawler_version = crawler_version;
  started_at = none;
  finished_at = none;
  created_at = now;
  updated_at = now;
}

abbrev pub is_terminal : CrawlStatus → Bool
is_terminal completed = true
is_terminal failed = true
is_terminal cancelled = true
is_terminal _ = false

abbrev pub is_active : CrawlStatus → Bool
is_active queued = true
is_active running = true
is_active _ = false

abbrev is_queued : CrawlStatus → Bool
is_queued queued = true
is_queued _ = false

abbrev is_running : CrawlStatus → Bool
is_running running = true
is_running _ = false

-- The rows that `get_active_crawl_job_for_website_async` selects from.
unfoldable pub active_crawls : ℕ → List CrawlJob → List CrawlJob
active_crawls website_id rows =
    keep (λ job. (job.website_id == website_id) && is_active job.status) rows

-- `if started_at: duration_seconds = int((now - started_at).total_seconds())`
abbrev pub elapsed : ℕ → Option ℕ → Option ℤ → Option ℤ
elapsed now none old = old
elapsed now (some started) old = some (difference now started)

-- `cancel_crawl_async`
unfoldable pub cancel_crawl : ℕ → CrawlJob → Outcome
cancel_crawl now job =
    if is_terminal job.status
    then conflict job
    else done (record job {
      status = cancelled;
      finished_at = some now;
      duration_seconds = elapsed now job.started_at job.duration_seconds;
      updated_at = now;
    })

-- `retry_crawl_async`
unfoldable pub retry_crawl : ℕ → CrawlJob → Outcome
retry_crawl now job =
    if is_active job.status
    then conflict job
    else done (record job {
      status = queued;
      progress = pos 0;
      pages_found = pos 0;
      issues_found = pos 0;
      duration_seconds = none;
      error_message = none;
      started_at = none;
      finished_at = none;
      updated_at = now;
    })

-- The optional arguments of `update_crawl_job_progress_async`.
pub record Report : Type 0 where
  pub progress : Option ℤ
  pub status : Option CrawlStatus
  pub pages_found : Option ℤ
  pub issues_found : Option ℤ
  pub duration_seconds : Option ℤ
  pub error_message : Option String

abbrev pub given {ℓ} : {A : Type ℓ} → Option A → A → A
given none old = old
given (some new) old = new

abbrev given_some {ℓ} : {A : Type ℓ} → Option A → Option A → Option A
given_some none old = old
given_some (some new) old = some new

-- The branch on `status`.
unfoldable pub enter_status : ℕ → Option CrawlStatus → CrawlJob → CrawlJob
enter_status now none job = job
enter_status now (some status) job =
    if is_running status && is_queued job.status
    then record job { started_at = some now; status = status }
    else if is_terminal status && not (is_some job.finished_at)
    then record job {
      finished_at = some now;
      duration_seconds = elapsed now job.started_at job.duration_seconds;
      status = status;
    }
    else record job { status = status }

-- `update_crawl_job_progress_async`
unfoldable pub update_crawl : ℕ → Report → CrawlJob → CrawlJob
update_crawl now report job =
    let job' = enter_status now report.status job in
    record job' {
      progress = given report.progress job'.progress;
      pages_found = given report.pages_found job'.pages_found;
      issues_found = given report.issues_found job'.issues_found;
      duration_seconds = given_some report.duration_seconds job'.duration_seconds;
      error_message = given_some report.error_message job'.error_message;
      updated_at = now;
    }
