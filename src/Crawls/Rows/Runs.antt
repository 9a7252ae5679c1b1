-- ===== src/Crawls/Rows/Runs.antt =====
-- The runs of a crawl job: sequences of cancellations, retries and progress reports.
use seo_agent_rct.Prelude.{
  ℕ, ◌≡◌, refl, ◌∙◌, String, Bool, true, false, not, none, some, List, [], ◌∷◌, arith, difference,
  is_some, if◌then◌else◌, All,
}
use seo_agent_rct.Crawls.Rows.{
  CrawlStatus, queued, running, other, CrawlJob, Outcome, done, conflict, create_crawl_job,
  is_terminal, cancel_crawl, retry_crawl, Report, enter_status, update_crawl,
}

-- The row that the caller holds afterwards; a conflict leaves it as it was.
abbrev pub row_of : Outcome → CrawlJob
row_of (done job) = job
row_of (conflict job) = job

abbrev pub succeeds : Outcome → Bool
succeeds (done job) = true
succeeds (conflict job) = false

pub data CrawlOp : Type 0 where
  cancel : (now : ℕ) → CrawlOp
  retry : (now : ℕ) → CrawlOp
  update : (now : ℕ) (report : Report) → CrawlOp

unfoldable pub run_op : CrawlOp → CrawlJob → CrawlJob
run_op (cancel now) job = row_of (cancel_crawl now job)
run_op (retry now) job = row_of (retry_crawl now job)
run_op (update now report) job = update_crawl now report job

unfoldable pub run_ops : List CrawlOp → CrawlJob → CrawlJob
run_ops [] job = job
run_ops (op ∷ ops) job = run_ops ops (run_op op job)

-- A job that has ended has the time of its end.
abbrev pub HasEnd : CrawlJob → Type 0
HasEnd job = is_terminal job.status ≡ true → is_some job.finished_at ≡ true

pub run_op-HasEnd : (op : CrawlOp) (job : CrawlJob) → HasEnd job → HasEnd (run_op op job)
unfolding run_op cancel_crawl retry_crawl update_crawl enter_status
run_op-HasEnd (cancel now) job h = ground (arith, h)
run_op-HasEnd (retry now) job h = ground (arith, h)
run_op-HasEnd (update now report) job h = ground (arith, h)

run_ops-HasEnd : (ops : List CrawlOp) (job : CrawlJob) → HasEnd job → HasEnd (run_ops ops job)
unfolding run_ops
run_ops-HasEnd [] job h = h
run_ops-HasEnd (op ∷ ops) job h = run_ops-HasEnd ops (run_op op job) (run_op-HasEnd op job h)

-- Whatever happens to a new crawl job, once it is completed, failed or cancelled it has the time of
-- its end.
pub run_ops-create_crawl_job :
    (now id website_id : ℕ) (triggered_by crawler_version : String) (ops : List CrawlOp)
    → HasEnd (run_ops ops (create_crawl_job now id website_id triggered_by crawler_version))
unfolding create_crawl_job
run_ops-create_crawl_job now id website_id triggered_by crawler_version ops =
    run_ops-HasEnd ops _ (λ e. cc)

abbrev pub is_other : CrawlStatus → Bool
is_other (other text) = true
is_other _ = false

-- At any known status exactly one of cancelling and retrying succeeds, and the other is a conflict
-- that leaves the row as it is.
pub cancel_crawl-or-retry_crawl :
    (now : ℕ) (job : CrawlJob)
    → is_other job.status ≡ false
    → (succeeds (cancel_crawl now job) ≡ not (succeeds (retry_crawl now job)))
      × (row_of
            (if succeeds (cancel_crawl now job) then retry_crawl now job else cancel_crawl now job)
          ≡ job)
unfolding cancel_crawl retry_crawl
cancel_crawl-or-retry_crawl now job h = ground (arith, h)

-- A crawl job that has not ended, cancelled and then retried, is as a new one, but for the time
-- of its creation.
pub retry_crawl-cancel_crawl :
    (now later : ℕ) (job : CrawlJob)
    → is_terminal job.status ≡ false
    → retry_crawl later (row_of (cancel_crawl now job))
      ≡ done
          (record (create_crawl_job later job.id job.website_id job.triggered_by
            job.crawler_version) { created_at = job.created_at })
unfolding cancel_crawl retry_crawl create_crawl_job
retry_crawl-cancel_crawl now later job h = ground (arith, h)

-- A report of progress alone.
abbrev pub is_quiet : (ℕ × Report) → Bool
is_quiet (now, report) =
    if is_some report.status then false else not (is_some report.duration_seconds)

unfoldable pub report_all : List (ℕ × Report) → CrawlJob → CrawlJob
report_all [] job = job
report_all ((now, report) ∷ rest) job = report_all rest (update_crawl now report job)

abbrev pub enters : CrawlStatus → Report
enters s = record {
  progress = none;
  status = some s;
  pages_found = none;
  issues_found = none;
  duration_seconds = none;
  error_message = none;
}

IsRunningSince : ℕ → CrawlJob → Type 0
IsRunningSince start job =
    (job.status ≡ running) × (job.started_at ≡ some start) × (job.finished_at ≡ none)

report_all-IsRunningSince :
    (reports : List (ℕ × Report)) (start : ℕ) (job : CrawlJob)
    → All (λ r. is_quiet r ≡ true) reports
    → IsRunningSince start job
    → IsRunningSince start (report_all reports job)
unfolding report_all IsRunningSince update_crawl enter_status
report_all-IsRunningSince [] start job calm h = h
report_all-IsRunningSince ((now, report) ∷ rest) start job calm h =
    report_all-IsRunningSince rest start (update_crawl now report job) calm.1
      (ground (arith, calm.0))

-- A queued crawl without a time of its end that starts at `start`, reports progress any number of
-- times, and ends at `stop` with a final status ends with that status, with both times, and with
-- their difference as its duration.
pub update_crawl-report_all :
    (start stop : ℕ) (s : CrawlStatus) (reports : List (ℕ × Report)) (job : CrawlJob)
    → job.status ≡ queued
    → job.finished_at ≡ none
    → is_terminal s ≡ true
    → All (λ r. is_quiet r ≡ true) reports
    → let last =
        update_crawl stop
          (enters s)
          (report_all reports (update_crawl start (enters running) job)) in
      (last.status ≡ s)
      × (last.started_at ≡ some start)
      × (last.finished_at ≡ some stop)
      × (last.duration_seconds ≡ some (difference stop start))
unfolding IsRunningSince
update_crawl-report_all start stop s reports job q f t calm =
    let h =
      report_all-IsRunningSince reports start (update_crawl start (enters running) job) calm
        (unfold update_crawl enter_status in ground (arith, q, f)) in
    unfold update_crawl enter_status in ground (arith, h, t)

-- Once a crawl has the time of its end, that time and its duration stay as they are, whatever
-- reports follow that give no duration themselves: neither another final status nor a return to
-- running changes them.
pub report_all-finished_at :
    (reports : List (ℕ × Report)) (stop : ℕ) (job : CrawlJob)
    → job.finished_at ≡ some stop
    → All (λ r. is_some r.1.duration_seconds ≡ false) reports
    → let job' = report_all reports job in
      (job'.finished_at ≡ some stop) × (job'.duration_seconds ≡ job.duration_seconds)
unfolding report_all update_crawl enter_status
report_all-finished_at [] stop job h none_given = (h, refl)
report_all-finished_at ((now, report) ∷ rest) stop job h none_given =
    let job' = update_crawl now report job in
    let step : (job'.finished_at ≡ some stop) × (job'.duration_seconds ≡ job.duration_seconds) =
      ground (arith, h, none_given.0) in
    let (e, d) = report_all-finished_at rest stop job' step.0 none_given.1 in (e, d ∙ step.1)
