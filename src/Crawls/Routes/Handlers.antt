-- ===== src/Crawls/Routes/Handlers.antt =====
-- Every handler makes one of the changes.
use seo_agent_rct.Prelude.{
  ℕ, ◌≡◌, refl, sym, subst, String, Bool, true, false, Option, none, some, inl, inr, arith,
  Bool-cases, Option-cases, is_some, nat_key, List-cases, ℤ, ◌&&◌,
}
use seo_agent_rct.Dict
use seo_agent_rct.Orgs.Rows.{member, viewer}
use seo_agent_rct.Crawls.Rows.{
  CrawlJob, Outcome, done, conflict, create_crawl_job, is_active, active_crawls, cancel_crawl,
  retry_crawl, Report, update_crawl, CrawlStatus, enter_status, given,
}
use seo_agent_rct.Crawls.Rows.Runs.{update, run_op, run_op-HasEnd}
use seo_agent_rct.Crawls.Tables.{CrawlStore}
use seo_agent_rct.Crawls.Stats.{CrawlLib}
use seo_agent_rct.Crawls.Routes.{shown, crawls_page, written, add_crawl, handle_crawl}
use seo_agent_rct.Crawls.Requests.{
  CrawlTarget, create_one, list_all, get_one, cancel_one, retry_one, show_pages, add_page,
  show_issues, add_issue, report, is_page_limit, is_percent, is_report, is_count,
}
use seo_agent_rct.Crawls.Routes.Changes.{
  Allowed, Follows, StaysIdle, may_start, Changes, stays, adds_crawl, sets_crawl, adds_page,
  adds_issue,
}
use seo_agent_rct.Crawls.Routes.Guards.{with_website_in-elim, with_crawl-elim}

module _ {F : Type 0} (lib : CrawlLib F) (now user_id : ℕ) where
  -- A written row follows the one that was read.
  written-Changes :
      (starts : Bool) (id : ℕ) (o : Outcome) (job : CrawlJob) (s : CrawlStore)
      → Dict.get s.crawls id ≡ some job
      → Allowed user_id job.website_id member s
      → ((job' : CrawlJob) → o ≡ done job' → Follows job job')
      → ((job' : CrawlJob) → o ≡ done job' → starts ≡ false → StaysIdle job job')
      → Changes user_id starts s (written lib now user_id id o s).1
  written-Changes starts id (conflict old) job s e a follows idle = stays refl
  written-Changes starts id (done job') job s e a follows idle =
      sets_crawl id job job' e a (follows job' refl) (idle job' refl) refl

  cancel_crawl-Follows : (job job' : CrawlJob) → cancel_crawl now job ≡ done job' → Follows job job'
  unfolding cancel_crawl
  cancel_crawl-Follows job job' e = record {
    same_website = ground (arith, e);
    keeps_end = λ h. ground (arith, e, h);
    keeps_percent = λ h. ground (arith, e, h);
  }

  cancel_crawl-StaysIdle :
      (job job' : CrawlJob) → cancel_crawl now job ≡ done job' → StaysIdle job job'
  unfolding cancel_crawl
  cancel_crawl-StaysIdle job job' e h = ground (arith, e, h)

  update_crawl-StaysIdle :
      (r : Report) (job : CrawlJob)
      → is_some r.status ≡ false
      → StaysIdle job (update_crawl now r job)
  unfolding update_crawl enter_status
  update_crawl-StaysIdle r job e h = elim (Option-cases r.status) [
    | inl n ↦ subst (λ o. is_active (enter_status now o job).status ≡ true) n h
    | inr (x, n) ↦ (let clash : is_some (some x) ≡ false = subst (λ o. is_some o ≡ false) n e in cc)
  ]

  retry_crawl-Follows : (job job' : CrawlJob) → retry_crawl now job ≡ done job' → Follows job job'
  unfolding retry_crawl
  retry_crawl-Follows job job' e = record {
    same_website = ground (arith, e);
    keeps_end = λ h. ground (arith, e, h);
    keeps_percent = λ h. ground (arith, e, h);
  }

  enter_status-same :
      (status : Option CrawlStatus) (job : CrawlJob)
      → ((enter_status now status job).website_id ≡ job.website_id)
        × ((enter_status now status job).progress ≡ job.progress)
  unfolding enter_status
  enter_status-same none job = (refl, refl)
  enter_status-same (some status) job = ground arith

  percent_of :
      (progress pages issues : Option ℤ) (old : ℤ)
      → is_percent progress && (is_count pages && is_count issues) ≡ true
      → is_percent (some old) ≡ true
      → is_percent (some (given progress old)) ≡ true
  percent_of none pages issues old valid h = h
  percent_of (some n) pages issues old valid h = ground (arith, valid)

  update_crawl-Follows :
      (r : Report) (job : CrawlJob) → is_report r ≡ true → Follows job (update_crawl now r job)
  unfolding update_crawl run_op
  update_crawl-Follows r job valid =
      let (website, progress) = enter_status-same r.status job in
      record {
        same_website = website;
        keeps_end = run_op-HasEnd (update now r) job;
        keeps_percent = λ h.
            percent_of r.progress r.pages_found r.issues_found
              (enter_status now r.status job).progress valid
              (subst (λ n. is_percent (some n) ≡ true) (sym progress) h);
      }

  add_crawl-Changes :
      (website_id : ℕ) (t v : Option String) (s : CrawlStore)
      → Allowed user_id website_id member s
      → Changes user_id false s (add_crawl lib now user_id website_id t v s).1
  unfolding create_crawl_job
  add_crawl-Changes website_id t v s a =
      elim (List-cases (active_crawls website_id (Dict.values s.crawls))) [
        | inl e ↦ rw (add_crawl, e) (adds_crawl _ a e (λ h. cc) refl refl)
        | inr (x, xs, e) ↦ rw (add_crawl, e) (stays refl)
      ]

  pub handle_crawl-Changes :
      (target : CrawlTarget) (s : CrawlStore)
      → Changes user_id (may_start target) s (handle_crawl lib now user_id target s).1
  unfolding handle_crawl
  handle_crawl-Changes (create_one project_id website_id t v) s =
      with_website_in-elim lib now user_id (Changes user_id false s) project_id website_id member
        (add_crawl lib now user_id website_id t v) s (stays refl)
        (add_crawl-Changes website_id t v s)
  handle_crawl-Changes (list_all project_id website_id skip limit) s =
      elim (Bool-cases (is_page_limit limit)) [
        | inr f ↦ rw f (stays refl)
        | inl e ↦ rw e (
            with_website_in-elim lib now user_id (Changes user_id false s) project_id website_id
              viewer (crawls_page lib now user_id website_id skip limit) s (stays refl)
              (λ a. stays refl))
      ]
  handle_crawl-Changes (get_one id) s =
      with_crawl-elim lib now user_id (Changes user_id false s) id viewer (shown lib now user_id id)
        s (stays refl) (λ job e a. stays refl)
  handle_crawl-Changes (cancel_one id) s =
      with_crawl-elim lib now user_id (Changes user_id false s) id member
        (λ job. written lib now user_id id (cancel_crawl now job)) s (stays refl)
        (λ job e a.
          written-Changes false id (cancel_crawl now job) job s e a (cancel_crawl-Follows job)
            (λ job' h t. cancel_crawl-StaysIdle job job' h))
  handle_crawl-Changes (retry_one id) s =
      with_crawl-elim lib now user_id (Changes user_id true s) id member
        (λ job. written lib now user_id id (retry_crawl now job)) s (stays refl)
        (λ job e a.
          written-Changes true id (retry_crawl now job) job s e a (retry_crawl-Follows job)
            (λ job' h t. cc))
  handle_crawl-Changes (show_pages id code search skip limit) s =
      elim (Bool-cases (is_page_limit limit)) [
        | inr f ↦ rw f (stays refl)
        | inl e ↦ rw e (
            with_crawl-elim lib now user_id (Changes user_id false s) id viewer _ s (stays refl)
              (λ job g a. stays refl))
      ]
  handle_crawl-Changes (add_page id body) s =
      with_crawl-elim lib now user_id (Changes user_id false s) id member _ s (stays refl)
        (λ job e a. adds_page now id job body e a refl)
  handle_crawl-Changes (show_issues id severity category skip limit) s =
      elim (Bool-cases (is_page_limit limit)) [
        | inr f ↦ rw f (stays refl)
        | inl e ↦ rw e (
            with_crawl-elim lib now user_id (Changes user_id false s) id viewer _ s (stays refl)
              (λ job g a. stays refl))
      ]
  handle_crawl-Changes (add_issue id body true) s =
      with_crawl-elim lib now user_id (Changes user_id false s) id member _ s (stays refl)
        (λ job e a. adds_issue now id job body e a refl)
  handle_crawl-Changes (add_issue id body false) s =
      with_crawl-elim lib now user_id (Changes user_id false s) id member _ s (stays refl)
        (λ job e a. stays refl)
  handle_crawl-Changes (report id r) s = elim (Bool-cases (is_report r)) [
    | inr f ↦ rw f (stays refl)
    | inl valid ↦ rw valid (
        with_crawl-elim lib now user_id (Changes user_id (is_some r.status) s) id member
          (λ job. written lib now user_id id (done (update_crawl now r job))) s (stays refl)
          (λ job e a.
            sets_crawl id job (update_crawl now r job) e a (update_crawl-Follows r job valid)
              (update_crawl-StaysIdle r job) refl))
  ]
