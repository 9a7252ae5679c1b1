-- ===== src/Crawls/Tables.antt =====
-- The tables `crawl_jobs`, `crawl_pages` and `crawl_issues` of backend/database/models.py, and the
-- functions of backend/database/crud.py that add pages and issues. A column that is not null takes its
-- default for None.
use seo_agent_rct.Prelude.{
  ℕ, zero, suc, String, Bool, false, ◌==◌, Option, none, some, ℤ, pos, negsuc, nat_key,
}
use seo_agent_rct.Dict
use seo_agent_rct.Dict.{Dict}
use seo_agent_rct.Crawls.Rows.{CrawlJob}
use seo_agent_rct.Workspaces.Rows.{Store}

pub record CrawlPage : Type 0 where
  pub crawl_job_id : ℕ
  pub url : String
  pub depth : ℤ
  pub status_code : Option ℤ
  pub content_type : Option String
  pub title : Option String
  pub meta_description : Option String
  pub canonical : Option String
  pub h1 : Option String
  pub word_count : ℤ
  pub internal_links : ℤ
  pub external_links : ℤ
  pub noindex : Bool
  pub nofollow : Bool
  pub redirect_target : Option String
  pub response_time : Option ℤ
  pub created_at : ℕ

-- `CrawlPageCreate`, after its defaults; `none` is a null of the request.
pub record PageBody : Type 0 where
  pub url : String
  pub depth : Option ℤ
  pub status_code : Option ℤ
  pub content_type : Option String
  pub title : Option String
  pub meta_description : Option String
  pub canonical : Option String
  pub h1 : Option String
  pub word_count : Option ℤ
  pub internal_links : Option ℤ
  pub external_links : Option ℤ
  pub noindex : Option Bool
  pub nofollow : Option Bool
  pub redirect_target : Option String
  pub response_time : Option ℤ

pub record CrawlIssue : Type 0 where
  pub crawl_job_id : ℕ
  pub page_id : Option ℕ
  pub severity : String
  pub category : String
  pub message : String
  pub recommendation : Option String
  pub created_at : ℕ

-- `CrawlIssueCreate`
pub record IssueBody : Type 0 where
  pub page_id : Option ℕ
  pub severity : String
  pub category : String
  pub message : String
  pub recommendation : Option String

-- The tables beside those of the workspaces. Rows stand under their ids.
pub record CrawlStore : Type 0 where
  pub base : Store
  pub crawls : Dict ℕ CrawlJob
  pub next_crawl : ℕ
  pub pages : Dict ℕ CrawlPage
  pub next_page : ℕ
  pub issues : Dict ℕ CrawlIssue
  pub next_issue : ℕ

abbrev pub or_default {ℓ} : {A : Type ℓ} → Option A → A → A
or_default none default = default
or_default (some a) default = a

-- `n + 1`
abbrev pub plus_one : ℤ → ℤ
plus_one (pos n) = pos (suc n)
plus_one (negsuc zero) = pos 0
plus_one (negsuc (suc n)) = negsuc n

-- The row of a new page.
abbrev pub page_row : (now crawl_job_id : ℕ) → PageBody → CrawlPage
page_row now crawl_job_id body = record {
  crawl_job_id = crawl_job_id;
  url = body.url;
  depth = or_default body.depth (pos 0);
  status_code = body.status_code;
  content_type = body.content_type;
  title = body.title;
  meta_description = body.meta_description;
  canonical = body.canonical;
  h1 = body.h1;
  word_count = or_default body.word_count (pos 0);
  internal_links = or_default body.internal_links (pos 0);
  external_links = or_default body.external_links (pos 0);
  noindex = or_default body.noindex false;
  nofollow = or_default body.nofollow false;
  redirect_target = body.redirect_target;
  response_time = body.response_time;
  created_at = now;
}

abbrev pub issue_row : (now crawl_job_id : ℕ) → IssueBody → CrawlIssue
issue_row now crawl_job_id body = record {
  crawl_job_id = crawl_job_id;
  page_id = body.page_id;
  severity = body.severity;
  category = body.category;
  message = body.message;
  recommendation = body.recommendation;
  created_at = now;
}

-- A write to the row of a crawl, if it is there.
abbrev pub on_crawl : (CrawlJob → CrawlJob) → ℕ → CrawlStore → CrawlStore
on_crawl f id s = elim (Dict.get s.crawls id) [
  | none ↦ s
  | some job ↦ record s { crawls = Dict.put s.crawls id (f job) }
]

-- `job.pages_found += 1` and `job.issues_found += 1`; the column `updated_at` follows every update.
abbrev pub one_page_more : (now : ℕ) → CrawlJob → CrawlJob
one_page_more now job = record job { pages_found = plus_one job.pages_found; updated_at = now }

abbrev pub one_issue_more : (now : ℕ) → CrawlJob → CrawlJob
one_issue_more now job = record job { issues_found = plus_one job.issues_found; updated_at = now }

-- `create_crawl_page_async`
unfoldable pub create_crawl_page :
    (now crawl_job_id : ℕ) → PageBody → CrawlStore → CrawlPage × CrawlStore
create_crawl_page now crawl_job_id body s =
    let page = page_row now crawl_job_id body in
    (
      page,
      on_crawl (one_page_more now) crawl_job_id
          (record s { pages = Dict.put s.pages s.next_page page; next_page = suc s.next_page }),
    )

-- `create_crawl_issue_async`, of a row that the database takes
unfoldable pub create_crawl_issue :
    (now crawl_job_id : ℕ) → IssueBody → CrawlStore → CrawlIssue × CrawlStore
create_crawl_issue now crawl_job_id body s =
    let issue = issue_row now crawl_job_id body in
    (
      issue,
      on_crawl (one_issue_more now) crawl_job_id (record s {
        issues = Dict.put s.issues s.next_issue issue;
        next_issue = suc s.next_issue;
      }),
    )

abbrev pub pages_of : (crawl_job_id id : ℕ) → CrawlPage → Bool
pages_of crawl_job_id id p = p.crawl_job_id == crawl_job_id

abbrev pub issues_of : (crawl_job_id id : ℕ) → CrawlIssue → Bool
issues_of crawl_job_id id i = i.crawl_job_id == crawl_job_id
