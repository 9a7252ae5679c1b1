-- ===== src/Crawls/Stats.antt =====
-- `calculate_crawl_stats_async` of backend/database/crud.py.
use seo_agent_rct.Prelude.{
  ℕ, zero, suc, String, String_discrete, Bool, true, false, not, ◌&&◌, ◌||◌, Option, none, some,
  List, [], ◌∷◌, leb, keep, length, ite, ℤ, pos, negsuc, difference, nat_key,
}
use seo_agent_rct.Dict
use seo_agent_rct.Dict.{Dict}
use seo_agent_rct.Dict.Rows.{keep_rows}
use seo_agent_rct.Crawls.Rows.{CrawlJob}
use seo_agent_rct.Crawls.Tables.{CrawlPage, CrawlStore, or_default, pages_of}

-- A text that is there and not empty.
abbrev pub is_filled : Option String → Bool
is_filled none = false
is_filled (some text) = ite (String_discrete text "") false true

abbrev pub is_at_least : ℕ → ℤ → Bool
is_at_least low (pos n) = leb low n
is_at_least low (negsuc n) = false

-- A redirect, and a page that is broken, among the pages of a crawl.
abbrev pub has_redirected : CrawlPage → Bool
has_redirected p =
    elim p.status_code [ none ↦ false | some c ↦ is_at_least 300 c && not (is_at_least 400 c) ]
    || is_filled p.redirect_target

abbrev pub has_failed : CrawlPage → Bool
has_failed p = elim p.status_code [
  | none ↦ true
  | some (pos zero) ↦ true
  | some (pos (suc n)) ↦ leb 400 (suc n)
  | some (negsuc n) ↦ false
]

-- `CrawlStatsOut`
pub record CrawlStats (F : Type 0) : Type 0 where
  pub total_pages : ℕ
  pub html_pages : ℕ
  pub redirects : ℕ
  pub broken_pages : ℕ
  pub average_response_time : F
  pub crawl_duration_seconds : Option ℤ

-- `has_html`: `"html" in text.lower()`. `ilike`: the SQL test `column ILIKE '%text%'`. `average`:
-- `round(sum(times) / len(times), 2)`.
pub record CrawlLib (F : Type 0) : Type 0 where
  pub has_html : String → Bool
  pub ilike : (text column : String) → Bool
  pub average : List ℤ → F
  pub no_time : F

-- The response times that are there.
abbrev pub times_of : List CrawlPage → List ℤ
times_of [] = []
times_of (p ∷ ps) =
    let rest = times_of ps in elim p.response_time [ none ↦ rest | some t ↦ t ∷ rest ]

-- The duration of a crawl, which runs on while it has no end.
abbrev pub duration_of : (now : ℕ) → Option CrawlJob → Option ℤ
duration_of now none = none
duration_of now (some job) = elim job.duration_seconds [
  | some d ↦ some d
  | none ↦ elim job.started_at [
    | none ↦ none
    | some started ↦ some (difference (or_default job.finished_at now) started)
  ]
]

module _ {F : Type 0} (lib : CrawlLib F) where
  abbrev pub is_html : CrawlPage → Bool
  is_html p = elim p.content_type [ none ↦ false | some t ↦ lib.has_html t ]

  abbrev pub average_of : List ℤ → F
  average_of [] = lib.no_time
  average_of (t ∷ ts) = lib.average (t ∷ ts)

  -- `calculate_crawl_stats_async`
  unfoldable pub calculate_crawl_stats : (now crawl_job_id : ℕ) → CrawlStore → CrawlStats F
  unfolding keep_rows
  calculate_crawl_stats now crawl_job_id s =
      let pages = Dict.values (keep_rows (pages_of crawl_job_id) s.pages) in
      record {
        total_pages = length pages;
        html_pages = length (keep is_html pages);
        redirects = length (keep has_redirected pages);
        broken_pages = length (keep has_failed pages);
        average_response_time = average_of (times_of pages);
        crawl_duration_seconds = duration_of now (Dict.get s.crawls crawl_job_id);
      }
