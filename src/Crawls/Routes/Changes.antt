-- ===== src/Crawls/Routes/Changes.antt =====
-- What a request on crawls can do to the tables.
use seo_agent_rct.Prelude.{ℕ, suc, ◌≡◌, Bool, true, false, some, [], is_some, nat_key}
use seo_agent_rct.Dict
use seo_agent_rct.Orgs.Rows.{Role, member}
use seo_agent_rct.Workspaces.Rows.{Website}
use seo_agent_rct.Workspaces.Steps.{HasRole}
use seo_agent_rct.Crawls.Rows.{CrawlJob, is_active, active_crawls}
use seo_agent_rct.Crawls.Rows.Runs.{HasEnd}
use seo_agent_rct.Crawls.Tables.{
  PageBody, IssueBody, CrawlStore, create_crawl_page, create_crawl_issue,
}
use seo_agent_rct.Crawls.Requests.{CrawlTarget, retry_one, report, is_percent}

-- The user has a role in the organization of a website.
pub record Allowed (user_id website_id : ℕ) (required : Role) (s : CrawlStore) : Type 0 where
  pub website : Website
  pub org_id : ℕ
  pub row : Dict.get s.base.websites website_id ≡ some website
  pub own : website.organization_id ≡ some org_id
  pub role : HasRole org_id user_id required s.base

-- The progress of a crawl is one of 0 to 100.
abbrev pub HasPercent : CrawlJob → Type 0
HasPercent job = is_percent (some job.progress) ≡ true

-- A row that takes the place of another.
pub record Follows (job job' : CrawlJob) : Type 0 where
  pub same_website : job'.website_id ≡ job.website_id
  pub keeps_end : HasEnd job → HasEnd job'
  pub keeps_percent : HasPercent job → HasPercent job'

-- A row is active only if it was.
abbrev pub StaysIdle : CrawlJob → CrawlJob → Type 0
StaysIdle job job' = is_active job'.status ≡ true → is_active job.status ≡ true

-- Requests that may make a crawl active again.
abbrev pub may_start : CrawlTarget → Bool
may_start (retry_one crawl_id) = true
may_start (report crawl_id r) = is_some r.status
may_start _ = false

-- A request changes nothing, or adds or sets one row of a website where the user is a member.
pub data Changes (user_id : ℕ) (starts : Bool) (s s' : CrawlStore) : Type 0 where
  stays : s' ≡ s → Changes user_id starts s s'
  adds_crawl :
      (job : CrawlJob)
      → Allowed user_id job.website_id member s
      → active_crawls job.website_id (Dict.values s.crawls) ≡ []
      → HasEnd job
      → HasPercent job
      → s' ≡ record s { crawls = Dict.put s.crawls s.next_crawl job; next_crawl = suc s.next_crawl }
      → Changes user_id starts s s'
  sets_crawl :
      (id : ℕ) (job job' : CrawlJob)
      → Dict.get s.crawls id ≡ some job
      → Allowed user_id job.website_id member s
      → Follows job job'
      → (starts ≡ false → StaysIdle job job')
      → s' ≡ record s { crawls = Dict.put s.crawls id job' }
      → Changes user_id starts s s'
  adds_page :
      (now id : ℕ) (job : CrawlJob) (body : PageBody)
      → Dict.get s.crawls id ≡ some job
      → Allowed user_id job.website_id member s
      → s' ≡ (create_crawl_page now id body s).1
      → Changes user_id starts s s'
  adds_issue :
      (now id : ℕ) (job : CrawlJob) (body : IssueBody)
      → Dict.get s.crawls id ≡ some job
      → Allowed user_id job.website_id member s
      → s' ≡ (create_crawl_issue now id body s).1
      → Changes user_id starts s s'
