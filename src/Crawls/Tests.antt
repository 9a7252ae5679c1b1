-- ===== src/Crawls/Tests.antt =====
-- A crawl job from its creation to its end.
use seo_agent_rct.Prelude.{
  ◌≡◌, refl, not, some, none, List, [], ◌∷◌, pos, difference, if◌then◌else◌,
}
use seo_agent_rct.Dict
use seo_agent_rct.Json.{null}
use seo_agent_rct.Crawls.Lifecycle.{PageData, Registry, list_pages}
use seo_agent_rct.Crawls.Lifecycle.Counts.{
  LifeOp, register, start, pause, stop, add, MayRunAll, IsCounted, live_all, live_all-IsCounted,
}
use seo_agent_rct.Crawls.Rows.{
  CrawlJob, create_crawl_job, completed, running, queued, done, cancel_crawl, retry_crawl, Report,
  update_crawl,
}
use seo_agent_rct.Crawls.Rows.Runs.{
  CrawlOp, cancel, retry, update, HasEnd, run_ops, run_ops-create_crawl_job, succeeds, row_of,
  cancel_crawl-or-retry_crawl, retry_crawl-cancel_crawl, enters, report_all,
  update_crawl-report_all, report_all-finished_at,
}

abbrev new_crawl : CrawlJob
new_crawl = record {
  id = 1;
  website_id = 4;
  status = queued;
  progress = pos 0;
  pages_found = pos 0;
  issues_found = pos 0;
  duration_seconds = none;
  error_message = none;
  triggered_by = "manual";
  crawler_version = "1.0.0";
  started_at = none;
  finished_at = none;
  created_at = 10;
  updated_at = 10;
}

abbrev half_way : Report
half_way = record {
  progress = some (pos 50);
  status = none;
  pages_found = some (pos 7);
  issues_found = none;
  duration_seconds = none;
  error_message = none;
}

abbrev some_ops : List CrawlOp
some_ops =
    update 11 (enters running)
    ∷ update 15 half_way
    ∷ cancel 20
    ∷ retry 30
    ∷ update 40 (enters completed)
    ∷ []

ended_run : HasEnd (run_ops some_ops (create_crawl_job 10 1 4 "manual" "1.0.0"))
ended_run = run_ops-create_crawl_job 10 1 4 "manual" "1.0.0" some_ops

cancels_or_retries :
    (succeeds (cancel_crawl 20 new_crawl) ≡ not (succeeds (retry_crawl 20 new_crawl)))
    × (row_of (
          if succeeds (cancel_crawl 20 new_crawl)
          then retry_crawl 20 new_crawl
          else cancel_crawl 20 new_crawl)
        ≡ new_crawl)
cancels_or_retries = cancel_crawl-or-retry_crawl 20 new_crawl refl

retry_crawl-cancel_crawl_example :
    retry_crawl 30 (row_of (cancel_crawl 20 new_crawl))
    ≡ done (record (create_crawl_job 30 1 4 "manual" "1.0.0") { created_at = 10 })
retry_crawl-cancel_crawl_example = retry_crawl-cancel_crawl 20 30 new_crawl refl

update_crawl-report_all_example :
    let last =
      update_crawl 90
        (enters completed)
        (report_all ((50, half_way) ∷ []) (update_crawl 20 (enters running) new_crawl)) in
    (last.status ≡ completed)
    × (last.started_at ≡ some 20)
    × (last.finished_at ≡ some 90)
    × (last.duration_seconds ≡ some (difference 90 20))
update_crawl-report_all_example =
    update_crawl-report_all 20 90 completed ((50, half_way) ∷ []) new_crawl refl refl refl
      (refl, tt)

abbrev ended_crawl : CrawlJob
ended_crawl = record new_crawl {
  status = completed;
  started_at = some 20;
  finished_at = some 90;
  duration_seconds = some (pos 70);
}

report_all-finished_at_example :
    let job' =
      report_all
        ((95, enters completed) ∷ (97, half_way) ∷ (99, enters running) ∷ [])
        ended_crawl in
    (job'.finished_at ≡ some 90) × (job'.duration_seconds ≡ some (pos 70))
report_all-finished_at_example =
    report_all-finished_at ((95, enters completed) ∷ (97, half_way) ∷ (99, enters running) ∷ []) 90
      ended_crawl refl (refl, (refl, (refl, tt)))

abbrev empty_registry : Registry
empty_registry = record { crawls = []; pages = []; next_page_id = 1 }

empty-IsCounted : IsCounted empty_registry
unfolding Dict.get
empty-IsCounted = record { counts = λ k crawl h. cc; below = λ i page h. cc }

abbrev found_page : PageData
found_page = record { status_code = some 200; content_type = none; others = null }

abbrev life : List LifeOp
life =
    register 1 5 4 "queued"
    ∷ start 2 5
    ∷ add 3 5 found_page
    ∷ pause 4 5
    ∷ add 5 5 found_page
    ∷ stop 6 5
    ∷ []

live_all-IsCounted_example : IsCounted (live_all life empty_registry)
unfolding MayRunAll list_pages
live_all-IsCounted_example =
    live_all-IsCounted life empty_registry empty-IsCounted (refl, (tt, (tt, (tt, (tt, (tt, tt))))))
