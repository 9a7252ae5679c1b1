-- ===== src/Crawls/Lifecycle.antt =====
-- `CrawlLifecycleService` of backend/services/crawl_lifecycle_service.py: the crawls and the pages in
-- memory. `now` is the clock that an operation reads.
pub mod Counts
use seo_agent_rct.Prelude.{
  ℕ, zero, suc, ◌+◌, String, Bool, true, false, ◌&&◌, ◌||◌, Option, none, some, List, [], ◌∷◌, ltb,
  leb, ◌==◌, if◌then◌else◌, ℤ, pos, difference, nat_key, keep, length, map,
}
use seo_agent_rct.Dict
use seo_agent_rct.Dict.{Dict}
use seo_agent_rct.Json.{Json}
use seo_agent_rct.Text.{Text, is_empty, has_infix}

-- `finished_at`, `error_message` and `issues_found` are only written or passed on.
pub record Crawl : Type 0 where
  pub id : ℕ
  pub website_id : ℕ
  pub status : String
  pub progress : ℕ
  pub pages_found : ℕ
  pub issues_found : ℕ
  pub duration_seconds : Option ℤ
  pub started_at : Option ℕ
  pub finished_at : Option ℕ
  pub error_message : Option String
  pub created_at : ℕ
  pub updated_at : ℕ

-- `page_data`, with the default of each key that is missing. The service reads two of its values;
-- the others are only stored.
pub record PageData : Type 0 where
  pub status_code : Option ℕ
  pub content_type : Option Text
  pub others : Json

pub record Page : Type 0 where
  pub id : ℕ
  pub crawl_job_id : ℕ
  pub page_data : PageData
  pub created_at : ℕ

pub record Registry : Type 0 where
  pub crawls : Dict ℕ Crawl
  pub pages : Dict ℕ Page
  pub next_page_id : ℕ

abbrev pub new_crawl : (now crawl_id website_id : ℕ) → String → Crawl
new_crawl now crawl_id website_id status = record {
  id = crawl_id;
  website_id = website_id;
  status = status;
  progress = 0;
  pages_found = 0;
  issues_found = 0;
  duration_seconds = none;
  started_at = none;
  finished_at = none;
  error_message = none;
  created_at = now;
  updated_at = now;
}

-- `register_crawl`
unfoldable pub register_crawl :
    (now crawl_id website_id : ℕ) → (status : String) → Registry → Crawl × Registry
register_crawl now crawl_id website_id status g =
    let crawl = new_crawl now crawl_id website_id status in
    (crawl, record g { crawls = Dict.put g.crawls crawl_id crawl })

-- A change of the dictionary of a crawl in place.
unfoldable pub change_crawl : ℕ → (Crawl → Crawl) → Registry → Option Crawl × Registry
change_crawl crawl_id change g = elim (Dict.get g.crawls crawl_id) [
  | none ↦ (none, g)
  | some crawl ↦
      (some (change crawl), record g { crawls = Dict.put g.crawls crawl_id (change crawl) })
]

abbrev pub or_now : ℕ → Option ℕ → Option ℕ
or_now now none = some now
or_now now (some t) = some t

abbrev elapsed : ℕ → Option ℕ → Option ℤ → Option ℤ
elapsed now none old = old
elapsed now (some started) old = some (difference now started)

abbrev pub started : ℕ → Crawl → Crawl
started now crawl = record crawl {
  status = "running";
  started_at = or_now now crawl.started_at;
  updated_at = now;
}

abbrev pub paused : ℕ → Crawl → Crawl
paused now crawl = record crawl { status = "paused"; updated_at = now }

abbrev pub resumed : ℕ → Crawl → Crawl
resumed now crawl = record crawl { status = "running"; updated_at = now }

abbrev pub stopped : ℕ → Crawl → Crawl
stopped now crawl = record crawl {
  status = "stopped";
  finished_at = some now;
  duration_seconds = elapsed now crawl.started_at crawl.duration_seconds;
  updated_at = now;
}

-- `start_crawl`
unfoldable pub start_crawl : (now crawl_id : ℕ) → Registry → Option Crawl × Registry
start_crawl now crawl_id g = change_crawl crawl_id (started now) g

-- `pause_crawl`
unfoldable pub pause_crawl : (now crawl_id : ℕ) → Registry → Option Crawl × Registry
pause_crawl now crawl_id g = change_crawl crawl_id (paused now) g

-- `resume_crawl`
unfoldable pub resume_crawl : (now crawl_id : ℕ) → Registry → Option Crawl × Registry
resume_crawl now crawl_id g = change_crawl crawl_id (resumed now) g

-- `stop_crawl`
unfoldable pub stop_crawl : (now crawl_id : ℕ) → Registry → Option Crawl × Registry
stop_crawl now crawl_id g = change_crawl crawl_id (stopped now) g

-- `list_pages`
unfoldable pub list_pages : ℕ → Registry → List Page
list_pages crawl_id g = keep (λ p. p.crawl_job_id == crawl_id) (Dict.values g.pages)

abbrev pub counted : Crawl → Crawl
counted crawl = record crawl { pages_found = suc crawl.pages_found }

-- `add_page`
unfoldable pub add_page : (now crawl_id : ℕ) → PageData → Registry → Page × Registry
unfolding change_crawl
add_page now crawl_id page_data g =
    let page : Page = record {
      id = g.next_page_id;
      crawl_job_id = crawl_id;
      page_data = page_data;
      created_at = now;
    } in
    let g' : Registry = record g {
      pages = Dict.put g.pages g.next_page_id page;
      next_page_id = suc g.next_page_id;
    } in
    (page, (change_crawl crawl_id counted g').1)

abbrev owned_page : ℕ → Option Page → Option Page
owned_page crawl_id none = none
owned_page crawl_id (some page) = if page.crawl_job_id == crawl_id then some page else none

-- `get_page`
unfoldable pub get_page : (crawl_id page_id : ℕ) → Registry → Option Page
get_page crawl_id page_id g = owned_page crawl_id (Dict.get g.pages page_id)

-- `p.get("status_code") or 0`, `p.get("content_type") or ""`
abbrev code_of : Page → ℕ
code_of p = elim p.page_data.status_code [ none ↦ 0 | some c ↦ c ]

abbrev type_of : Page → Text
type_of p = elim p.page_data.content_type [ none ↦ [] | some t ↦ t ]

abbrev html : Text
html = b'h' ∷ b't' ∷ b'm' ∷ b'l' ∷ []

abbrev pub is_redirect : Page → Bool
is_redirect p = leb 300 (code_of p) && ltb (code_of p) 400

abbrev pub is_broken : Page → Bool
is_broken p = leb 400 (code_of p) || (code_of p == 0)

pub record Stats : Type 0 where
  pub total_pages : ℕ
  pub html_pages : ℕ
  pub redirects : ℕ
  pub broken_pages : ℕ

-- `get_status`; `lower` is `str.lower`.
unfoldable pub get_status : (lower : Text → Text) → ℕ → Registry → Option (Crawl × Stats)
unfolding list_pages
get_status lower crawl_id g = elim (Dict.get g.crawls crawl_id) [
  | none ↦ none
  | some crawl ↦
      let pages = list_pages crawl_id g in
      some (
        crawl,
        record {
          total_pages = length pages;
          html_pages = length (keep (λ p. has_infix html (lower (type_of p))) pages);
          redirects = length (keep is_redirect pages);
          broken_pages = length (keep is_broken pages);
        },
      )
]
