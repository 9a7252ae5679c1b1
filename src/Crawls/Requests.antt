-- ===== src/Crawls/Requests.antt =====
-- The requests and answers of backend/api/crawl_routes.py, and the validation and the filters of its
-- parameters.
use seo_agent_rct.Prelude.{
  ℕ, String, String_discrete, Bool, true, false, ◌&&◌, ◌==◌, Option, none, some, List, leb, take,
  ite, ℤ, pos, negsuc, nat_key,
}
use seo_agent_rct.Dict.{Dict}
use seo_agent_rct.Pagination.Limits.{drop}
use seo_agent_rct.Crawls.Rows.{CrawlJob, Report}
use seo_agent_rct.Crawls.Tables.{CrawlPage, PageBody, CrawlIssue, IssueBody}
use seo_agent_rct.Crawls.Stats.{is_at_least, CrawlStats}

-- What a request asks for.
pub data CrawlTarget : Type 0 where
  create_one :
      (project_id website_id : ℕ) → (triggered_by crawler_version : Option String) → CrawlTarget
  list_all : (project_id website_id skip limit : ℕ) → CrawlTarget
  get_one cancel_one retry_one : (crawl_id : ℕ) → CrawlTarget
  show_pages : (crawl_id : ℕ) → Option ℤ → (search : Option String) → (skip limit : ℕ) → CrawlTarget
  add_page : (crawl_id : ℕ) → PageBody → CrawlTarget
  show_issues :
      (crawl_id : ℕ) → (severity category : Option String) → (skip limit : ℕ) → CrawlTarget
  add_issue : (crawl_id : ℕ) → IssueBody → (accepts : Bool) → CrawlTarget
  report : (crawl_id : ℕ) → Report → CrawlTarget

pub record CrawlRequest : Type 0 where
  pub now : ℕ
  pub user_id : ℕ
  pub target : CrawlTarget

-- How a handler ends: with its response, or with the exception that it raises. A listing has its
-- total at the end.
pub data CrawlAnswer (F : Type 0) : Type 0 where
  forbidden not_found clash invalid raised : CrawlAnswer F
  created_out : CrawlJob → CrawlAnswer F
  crawl_out : CrawlJob → CrawlStats F → CrawlAnswer F
  crawls_out : List (CrawlJob × CrawlStats F) → ℕ → CrawlAnswer F
  page_out : CrawlPage → CrawlAnswer F
  pages_out : Dict ℕ CrawlPage → ℕ → CrawlAnswer F
  issue_out : CrawlIssue → CrawlAnswer F
  issues_out : Dict ℕ CrawlIssue → ℕ → CrawlAnswer F

-- `limit: int = Query(50, ge=1, le=100)`
abbrev pub is_page_limit : ℕ → Bool
is_page_limit limit = leb 1 limit && leb limit 100

-- `x if x else default`
abbrev pub filled_or : Option String → String → String
filled_or none default = default
filled_or (some text) default = ite (String_discrete text "") default text

-- `Field(None, ge=0)`, and `Field(None, ge=0, le=100)`
abbrev pub is_count : Option ℤ → Bool
is_count none = true
is_count (some n) = is_at_least 0 n

abbrev pub is_percent : Option ℤ → Bool
is_percent none = true
is_percent (some (pos n)) = leb n 100
is_percent (some (negsuc n)) = false

-- The limits of `CrawlProgressUpdate`.
abbrev pub is_report : Report → Bool
is_report r = is_percent r.progress && (is_count r.pages_found && is_count r.issues_found)

abbrev pub same_code : ℤ → ℤ → Bool
same_code (pos a) (pos b) = a == b
same_code (negsuc a) (negsuc b) = a == b
same_code _ _ = false

-- The filter on a code, and the one on a text that is exact; an empty text does not filter.
abbrev pub has_code : Option ℤ → Option ℤ → Bool
has_code none code = true
has_code (some wanted) none = false
has_code (some wanted) (some code) = same_code code wanted

abbrev pub is_text : Option String → String → Bool
is_text none text = true
is_text (some wanted) text =
    ite (String_discrete wanted "") true (ite (String_discrete text wanted) true false)

-- A page of a listing, by rising ids, which is the order of the rows.
abbrev pub page_of_rows : {V : Type 0} → (skip limit : ℕ) → Dict ℕ V → Dict ℕ V
page_of_rows skip limit rows = take limit (drop skip rows)
