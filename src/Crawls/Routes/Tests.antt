-- ===== src/Crawls/Routes/Tests.antt =====
-- A website of organization 1, a member who crawls it, and a stranger.
use seo_agent_rct.Workspaces.Steps.{HasRole}
use seo_agent_rct.Prelude.{
  subst, sym, ℕ, ◌≡◌, refl, true, false, Option, none, some, List, [], ◌∷◌, pos, arith, ◌==◌,
  if◌then◌else◌, nat_key, ℕ_discrete, length, ◌&&◌,
}
use seo_agent_rct.Dict
use seo_agent_rct.Dict.Everywhere.{Everywhere-empty}
use seo_agent_rct.Orgs.Rows.{Role, member, check_role_permission}
use seo_agent_rct.Workspaces.Slugs.{active}
use seo_agent_rct.Workspaces.Rows.{Project, Website, Store}
use seo_agent_rct.Crawls.Rows.{
  create_crawl_job, active_crawls, cancel_crawl, retry_crawl, enter_status, update_crawl, completed,
}
use seo_agent_rct.Crawls.Rows.Runs.{enters}
use seo_agent_rct.Crawls.Tables.{
  PageBody, IssueBody, CrawlStore, create_crawl_page, create_crawl_issue,
}
use seo_agent_rct.Crawls.Stats.{CrawlLib}
use seo_agent_rct.Crawls.Routes.{handle_crawl, handle_crawls}
use seo_agent_rct.Crawls.Requests.{
  CrawlRequest, create_one, cancel_one, retry_one, add_page, add_issue, report,
}
use seo_agent_rct.Crawls.Routes.Sound.{IsSound, handle_crawls-IsSound}
use seo_agent_rct.Crawls.Routes.Access.{Spared, handle_crawls-Spared}
use seo_agent_rct.Crawls.Routes.Once.{IsOnce, handle_crawls-IsOnce}

abbrev role_in : (org_id user_id : ℕ) → Option Role
role_in org_id user_id = if (org_id == 1) && (user_id == 5) then some member else none

abbrev a_project : Project
a_project = record {
  organization_id = 1;
  owner_id = 5;
  name = [];
  slug = [];
  description = none;
  status = active;
  color = none;
  icon = none;
  timezone = [];
  language = [];
  settings = [];
  archived = false;
  created_at = 1;
  updated_at = 1;
}

abbrev a_website : Website
a_website = record {
  project_id = some 1;
  organization_id = some 1;
  owner_id = some 5;
  user_id = none;
  url = none;
  domain = [];
  normalized_domain = [];
  protocol = [];
  status = [];
  verification_status = [];
  favicon = none;
  country = none;
  language = [];
  timezone = [];
  settings = [];
  company_name = none;
  archived = false;
  created_at = 1;
  updated_at = 1;
}

abbrev one_website : Store
one_website = record {
  memberships = role_in;
  projects = (1, a_project) ∷ [];
  next_project = 2;
  websites = (1, a_website) ∷ [];
  next_website = 2;
  audits_of = λ id. 0;
  leads_of = λ id. 0;
  logs = [];
  org_events = [];
}

abbrev no_crawls : CrawlStore
no_crawls = record {
  base = one_website;
  crawls = [];
  next_crawl = 1;
  pages = [];
  next_page = 1;
  issues = [];
  next_issue = 1;
}

no_crawls-IsSound : IsSound no_crawls
no_crawls-IsSound = record {
  crawls_sound = Everywhere-empty _;
  pages_below = Everywhere-empty _;
  issues_below = Everywhere-empty _;
  pages_known = Everywhere-empty _;
  issues_known = Everywhere-empty _;
}

no_crawls-IsOnce : IsOnce no_crawls
unfolding Dict.get
no_crawls-IsOnce i j v w g h r = ground arith

abbrev counts : CrawlLib ℕ
counts = record {
  has_html = λ t. true;
  ilike = λ part text. true;
  average = λ ts. length ts;
  no_time = 0;
}

abbrev home_page : PageBody
home_page = record {
  url = "/";
  depth = none;
  status_code = some (pos 200);
  content_type = none;
  title = none;
  meta_description = none;
  canonical = none;
  h1 = none;
  word_count = none;
  internal_links = none;
  external_links = none;
  noindex = none;
  nofollow = none;
  redirect_target = none;
  response_time = none;
}

abbrev no_title : IssueBody
no_title = record {
  page_id = some 1;
  severity = "high";
  category = "missing_title";
  message = "no title";
  recommendation = none;
}

-- The second creation is a conflict, and the stranger gets nothing.
abbrev crawled : List CrawlRequest
crawled =
    record { now = 10; user_id = 5; target = create_one 1 1 none none }
    ∷ record { now = 11; user_id = 5; target = create_one 1 1 none none }
    ∷ record { now = 12; user_id = 5; target = add_page 1 home_page }
    ∷ record { now = 13; user_id = 9; target = add_page 1 home_page }
    ∷ record { now = 14; user_id = 5; target = add_issue 1 no_title true }
    ∷ record { now = 15; user_id = 5; target = cancel_one 1 }
    ∷ record { now = 16; user_id = 5; target = create_one 1 1 none none }
    ∷ []

handle_crawls-IsSound_example : IsSound (handle_crawls counts crawled no_crawls)
handle_crawls-IsSound_example = handle_crawls-IsSound counts crawled no_crawls no_crawls-IsSound

handle_crawls-IsOnce_example : IsOnce (handle_crawls counts crawled no_crawls)
handle_crawls-IsOnce_example =
    handle_crawls-IsOnce counts crawled no_crawls no_crawls-IsOnce
      (refl, (refl, (refl, (refl, (refl, (refl, (refl, tt)))))))

-- After the requests of the member, those of a stranger.
abbrev full : CrawlStore
full = handle_crawls counts crawled no_crawls

abbrev intruding : List CrawlRequest
intruding =
    record { now = 20; user_id = 9; target = cancel_one 2 }
    ∷ record { now = 21; user_id = 9; target = add_page 2 home_page }
    ∷ record { now = 22; user_id = 9; target = create_one 1 1 none none }
    ∷ []

full_base : full.base ≡ one_website
unfolding handle_crawls handle_crawl create_crawl_job active_crawls cancel_crawl create_crawl_page
    create_crawl_issue check_role_permission Dict.get Dict.put ℕ_discrete
full_base = refl

stranger : ¬ HasRole 1 9 member one_website
stranger (role, e, t) = cc

handle_crawls-Spared_example : Spared 1 full (handle_crawls counts intruding full)
handle_crawls-Spared_example =
    handle_crawls-Spared 1 9 counts intruding full
      (handle_crawls-IsSound counts crawled no_crawls no_crawls-IsSound) (refl, (refl, (refl, tt)))
      (subst (λ b. ¬ HasRole 1 9 member b) (sym full_base) stranger)

size_of_run : (length full.crawls ≡ 2) × (length full.pages ≡ 1) × (length full.issues ≡ 1)
unfolding handle_crawls handle_crawl create_crawl_job active_crawls cancel_crawl create_crawl_page
    create_crawl_issue check_role_permission Dict.get Dict.put ℕ_discrete
size_of_run = (refl, refl, refl)

-- A crawl that is retried while another one of its website waits.
abbrev restarted : List CrawlRequest
restarted =
    record { now = 10; user_id = 5; target = create_one 1 1 none none }
    ∷ record { now = 11; user_id = 5; target = report 1 (enters completed) }
    ∷ record { now = 12; user_id = 5; target = create_one 1 1 none none }
    ∷ record { now = 13; user_id = 5; target = retry_one 1 }
    ∷ []

two_active :
    length (active_crawls 1 (Dict.values (handle_crawls counts restarted no_crawls).crawls)) ≡ 2
unfolding handle_crawls handle_crawl create_crawl_job active_crawls cancel_crawl retry_crawl
    update_crawl enter_status create_crawl_page check_role_permission Dict.get Dict.put ℕ_discrete
two_active = refl
