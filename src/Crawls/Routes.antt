-- ===== src/Crawls/Routes.antt =====
-- The handlers of backend/api/crawl_routes.py. A request names its user; the roles are those in the
-- organization of the website that is crawled.
mod Tests
pub mod Changes
pub mod Guards
pub mod Handlers
pub mod Sound
pub mod Access
pub mod Once
use seo_agent_rct.Prelude.{
  ℕ, suc, String, String_discrete, Bool, true, false, ◌&&◌, ◌||◌, ◌==◌, Option, none, some, List,
  [], ◌∷◌, leb, length, map, take, if◌then◌else◌, ite, ℤ, pos, negsuc, nat_key,
}
use seo_agent_rct.Dict
use seo_agent_rct.Dict.{Dict}
use seo_agent_rct.Dict.Rows.{keep_rows}
use seo_agent_rct.Pagination.Limits.{drop}
use seo_agent_rct.Orgs.Rows.{Role, check_role_permission, member, viewer}
use seo_agent_rct.Workspaces.Rows.{Website}
use seo_agent_rct.Workspaces.Websites.{is_id}
use seo_agent_rct.Workspaces.Listings.{newest_first}
use seo_agent_rct.Crawls.Rows.{
  CrawlJob, Outcome, done, conflict, create_crawl_job, active_crawls, cancel_crawl, retry_crawl,
  Report, update_crawl,
}
use seo_agent_rct.Crawls.Tables.{
  CrawlPage, PageBody, CrawlIssue, IssueBody, CrawlStore, create_crawl_page, create_crawl_issue,
  pages_of, issues_of,
}
use seo_agent_rct.Crawls.Stats.{is_filled, is_at_least, CrawlStats, CrawlLib, calculate_crawl_stats}
use seo_agent_rct.Crawls.Requests.{
  CrawlTarget, CrawlRequest, CrawlAnswer, is_page_limit, filled_or, is_count, is_percent, is_report,
  same_code, has_code, is_text, page_of_rows, create_one, list_all, get_one, cancel_one, retry_one,
  show_pages, add_page, show_issues, add_issue, report, forbidden, not_found, clash, invalid,
  raised, created_out, crawl_out, crawls_out, page_out, pages_out, issue_out, issues_out,
}

module _ {F : Type 0} (lib : CrawlLib F) (now user_id : ℕ) where
  abbrev pub Handler : Type 0
  Handler = CrawlStore → CrawlAnswer F × CrawlStore

  -- `require_membership` and `check_role_min`, and then the rest of the handler. A website without an
  -- organization has no members.
  abbrev pub with_role_in : Option ℕ → Role → Handler → Handler
  with_role_in none required run s = (forbidden, s)
  with_role_in (some org_id) required run s = elim (s.base.memberships org_id user_id) [
    | none ↦ (forbidden, s)
    | some role ↦ if check_role_permission role required then run s else (forbidden, s)
  ]

  -- The last test of `get_website_and_project_auth`.
  abbrev pub in_project : (project_id : ℕ) → Handler → Handler
  in_project project_id run s = elim (Dict.get s.base.projects project_id) [
    | none ↦ (not_found, s)
    | some project ↦ run s
  ]

  -- `get_website_and_project_auth`, and then the rest of the handler.
  abbrev pub with_website_in : (project_id website_id : ℕ) → Role → Handler → Handler
  with_website_in project_id website_id required run s =
      elim (Dict.get s.base.websites website_id) [
        | none ↦ (not_found, s)
        | some website ↦
            if is_id website.project_id project_id
            then with_role_in website.organization_id required (in_project project_id run) s
            else (not_found, s)
      ]

  -- `get_crawl_auth`, and then the rest of the handler.
  abbrev pub with_crawl : (crawl_id : ℕ) → Role → (CrawlJob → Handler) → Handler
  with_crawl crawl_id required run s = elim (Dict.get s.crawls crawl_id) [
    | none ↦ (not_found, s)
    | some job ↦ elim (Dict.get s.base.websites job.website_id) [
      | none ↦ (not_found, s)
      | some website ↦ with_role_in website.organization_id required (run job) s
    ]
  ]

  -- The response with a crawl and its numbers.
  abbrev pub shown : (crawl_id : ℕ) → CrawlJob → Handler
  shown crawl_id job s = (crawl_out job (calculate_crawl_stats lib now crawl_id s), s)

  -- A changed row is written and shown.
  abbrev pub written : (crawl_id : ℕ) → Outcome → Handler
  written crawl_id (conflict job) s = (clash, s)
  written crawl_id (done job) s =
      shown crawl_id job (record s { crawls = Dict.put s.crawls crawl_id job })

  -- A new crawl, unless one of the website is queued or running.
  abbrev pub add_crawl : (website_id : ℕ) → (triggered_by crawler_version : Option String) → Handler
  add_crawl website_id triggered_by crawler_version s =
      elim (active_crawls website_id (Dict.values s.crawls)) [
        | active ∷ others ↦ (clash, s)
        | [] ↦
            let job =
              create_crawl_job now s.next_crawl website_id (filled_or triggered_by "manual")
                (filled_or crawler_version "1.0.0") in
            (
              created_out job,
              record s {
                crawls = Dict.put s.crawls s.next_crawl job;
                next_crawl = suc s.next_crawl;
              },
            )
      ]

  -- `create_crawl_job`
  abbrev pub create_crawl_handler :
      (project_id website_id : ℕ) → (triggered_by crawler_version : Option String) → Handler
  create_crawl_handler project_id website_id triggered_by crawler_version =
      with_website_in project_id website_id member
        (add_crawl website_id triggered_by crawler_version)

  -- The rows of `list_crawl_jobs_async`, and its total.
  abbrev pub crawls_page : (website_id skip limit : ℕ) → Handler
  crawls_page website_id skip limit s =
      let rows = keep_rows (λ id job. job.website_id == website_id) s.crawls in
      let shown_rows = take limit (drop skip (newest_first (λ r. r.1.created_at) rows)) in
      (
        crawls_out (map (λ r. (r.1, calculate_crawl_stats lib now r.0 s)) shown_rows) (length rows),
        s,
      )

  -- `list_crawl_jobs`
  abbrev pub list_crawls_handler : (project_id website_id skip limit : ℕ) → Handler
  list_crawls_handler project_id website_id skip limit s =
      if is_page_limit limit
      then with_website_in project_id website_id viewer (crawls_page website_id skip limit) s
      else (invalid, s)

  -- `get_crawl_job`
  abbrev pub get_crawl_handler : (crawl_id : ℕ) → Handler
  get_crawl_handler crawl_id = with_crawl crawl_id viewer (shown crawl_id)

  -- `cancel_crawl_job`
  abbrev pub cancel_crawl_handler : (crawl_id : ℕ) → Handler
  cancel_crawl_handler crawl_id =
      with_crawl crawl_id member (λ job. written crawl_id (cancel_crawl now job))

  -- `retry_crawl_job`
  abbrev pub retry_crawl_handler : (crawl_id : ℕ) → Handler
  retry_crawl_handler crawl_id =
      with_crawl crawl_id member (λ job. written crawl_id (retry_crawl now job))

  abbrev pub matches_page :
      (crawl_id : ℕ) → Option ℤ → (search : Option String) → ℕ → CrawlPage → Bool
  matches_page crawl_id status_code search id p =
      pages_of crawl_id id p && has_code status_code p.status_code && elim search [
        | none ↦ true
        | some text ↦
            ite (String_discrete text "") true
              (lib.ilike text p.url || elim p.title [ none ↦ false | some t ↦ lib.ilike text t ])
      ]

  -- `list_crawl_pages`
  abbrev pub list_pages_handler :
      (crawl_id : ℕ) → Option ℤ → (search : Option String) → (skip limit : ℕ) → Handler
  list_pages_handler crawl_id status_code search skip limit s =
      let found = keep_rows (matches_page crawl_id status_code search) s.pages in
      if is_page_limit limit
      then with_crawl crawl_id viewer
          (λ job z. (pages_out (page_of_rows skip limit found) (length found), z)) s
      else (invalid, s)

  -- `add_crawl_page`
  abbrev pub add_page_handler : (crawl_id : ℕ) → PageBody → Handler
  add_page_handler crawl_id body =
      with_crawl crawl_id member
        (λ job s. let (page, s') = create_crawl_page now crawl_id body s in (page_out page, s'))

  abbrev pub matches_issue :
      (crawl_id : ℕ) → (severity category : Option String) → ℕ → CrawlIssue → Bool
  matches_issue crawl_id severity category id i =
      issues_of crawl_id id i && is_text severity i.severity && is_text category i.category

  -- `list_crawl_issues`
  abbrev pub list_issues_handler :
      (crawl_id : ℕ) → (severity category : Option String) → (skip limit : ℕ) → Handler
  list_issues_handler crawl_id severity category skip limit s =
      let found = keep_rows (matches_issue crawl_id severity category) s.issues in
      if is_page_limit limit
      then with_crawl crawl_id viewer
          (λ job z. (issues_out (page_of_rows skip limit found) (length found), z)) s
      else (invalid, s)

  -- `add_crawl_issue`; `accepts` is the answer of the database to the key of the page.
  abbrev pub add_issue_handler : (crawl_id : ℕ) → IssueBody → (accepts : Bool) → Handler
  add_issue_handler crawl_id body accepts = with_crawl crawl_id member (λ job s.
      if accepts
      then (let (issue, s') = create_crawl_issue now crawl_id body s in (issue_out issue, s'))
      else (raised, s))

  -- `update_crawl_progress`
  abbrev pub report_handler : (crawl_id : ℕ) → Report → Handler
  report_handler crawl_id r s =
      if is_report r
      then with_crawl crawl_id member (λ job. written crawl_id (done (update_crawl now r job))) s
      else (invalid, s)

  -- The route of a request.
  unfoldable pub handle_crawl : CrawlTarget → Handler
  unfolding create_crawl_job active_crawls cancel_crawl retry_crawl update_crawl create_crawl_page
      create_crawl_issue calculate_crawl_stats newest_first keep_rows
  handle_crawl (create_one project_id website_id t v) =
      create_crawl_handler project_id website_id t v
  handle_crawl (list_all project_id website_id skip limit) =
      list_crawls_handler project_id website_id skip limit
  handle_crawl (get_one crawl_id) = get_crawl_handler crawl_id
  handle_crawl (cancel_one crawl_id) = cancel_crawl_handler crawl_id
  handle_crawl (retry_one crawl_id) = retry_crawl_handler crawl_id
  handle_crawl (show_pages crawl_id code search skip limit) =
      list_pages_handler crawl_id code search skip limit
  handle_crawl (add_page crawl_id body) = add_page_handler crawl_id body
  handle_crawl (show_issues crawl_id severity category skip limit) =
      list_issues_handler crawl_id severity category skip limit
  handle_crawl (add_issue crawl_id body accepts) = add_issue_handler crawl_id body accepts
  handle_crawl (report crawl_id r) = report_handler crawl_id r

-- Requests, one after the other.
unfoldable pub handle_crawls :
    {F : Type 0} → CrawlLib F → List CrawlRequest → CrawlStore → CrawlStore
unfolding handle_crawl
handle_crawls lib [] s = s
handle_crawls lib (r ∷ rs) s = handle_crawls lib rs (handle_crawl lib r.now r.user_id r.target s).1
