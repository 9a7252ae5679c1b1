-- ===== src/Crawls/Routes/Sound.antt =====
-- The tables of crawls stay sound.
use seo_agent_rct.Prelude.{
  ℕ, suc, ◌≡◌, ◌<◌, refl, sym, subst, Bool, true, some, List, [], ◌∷◌, arith, is_some, nat_key,
}
use seo_agent_rct.Dict
use seo_agent_rct.Dict.{Dict}
use seo_agent_rct.Dict.Laws.{get-put}
use seo_agent_rct.Dict.Everywhere.{Everywhere, Everywhere-put}
use seo_agent_rct.Orgs.Rows.{member}
use seo_agent_rct.Workspaces.Rows.{Website}
use seo_agent_rct.Crawls.Rows.{CrawlJob}
use seo_agent_rct.Crawls.Rows.Runs.{HasEnd}
use seo_agent_rct.Crawls.Tables.{
  CrawlPage, PageBody, CrawlIssue, IssueBody, CrawlStore, page_row, issue_row, on_crawl,
  one_page_more, one_issue_more, create_crawl_page, create_crawl_issue,
}
use seo_agent_rct.Crawls.Stats.{CrawlLib}
use seo_agent_rct.Crawls.Routes.{handle_crawl, handle_crawls}
use seo_agent_rct.Crawls.Requests.{CrawlRequest}
use seo_agent_rct.Crawls.Routes.Handlers.{handle_crawl-Changes}
use seo_agent_rct.Crawls.Routes.Changes.{
  Allowed, HasPercent, Follows, Changes, stays, adds_crawl, sets_crawl, adds_page, adds_issue,
  may_start,
}

-- What holds of the row of a crawl.
pub record IsSoundCrawl (websites : Dict ℕ Website) (next : ℕ) (id : ℕ) (job : CrawlJob)
    : Type 0 where
  pub below : id < next
  pub has_end : HasEnd job
  pub has_percent : HasPercent job
  pub has_website : is_some (Dict.get websites job.website_id) ≡ true

-- The crawls, and the rows that name one of them.
pub record IsSound (s : CrawlStore) : Type 0 where
  pub crawls_sound : Everywhere (IsSoundCrawl s.base.websites s.next_crawl) s.crawls
  pub pages_below : Everywhere (λ k (p : CrawlPage). k < s.next_page) s.pages
  pub issues_below : Everywhere (λ k (i : CrawlIssue). k < s.next_issue) s.issues
  pub pages_known :
      Everywhere (λ k (p : CrawlPage). is_some (Dict.get s.crawls p.crawl_job_id) ≡ true) s.pages
  pub issues_known :
      Everywhere (λ k (i : CrawlIssue). is_some (Dict.get s.crawls i.crawl_job_id) ≡ true) s.issues

is_some-put :
    (d : Dict ℕ CrawlJob) (id k : ℕ) (job : CrawlJob)
    → is_some (Dict.get d k) ≡ true
    → is_some (Dict.get (Dict.put d id job) k) ≡ true
is_some-put d id k job h = ground (arith, get-put d id k job, h)

-- A row of a crawl is written.
sets-IsSound :
    (s : CrawlStore) (next id : ℕ) (job : CrawlJob)
    → ((k : ℕ) → k < s.next_crawl → k < next)
    → IsSoundCrawl s.base.websites next id job
    → IsSound s
    → IsSound (record s { crawls = Dict.put s.crawls id job; next_crawl = next })
sets-IsSound s next id job later here v = record {
  crawls_sound =
      Everywhere-put (IsSoundCrawl s.base.websites next) s.crawls id job
        (λ k q g.
          let h = v.crawls_sound k q g in
          record {
            below = later k h.below;
            has_end = h.has_end;
            has_percent = h.has_percent;
            has_website = h.has_website;
          })
        here;
  pages_below = v.pages_below;
  issues_below = v.issues_below;
  pages_known = λ k p g. is_some-put s.crawls id p.crawl_job_id job (v.pages_known k p g);
  issues_known = λ k i g. is_some-put s.crawls id i.crawl_job_id job (v.issues_known k i g);
}

Allowed-website :
    (user id : ℕ) (s : CrawlStore)
    → Allowed user id member s
    → is_some (Dict.get s.base.websites id) ≡ true
Allowed-website user id s a = rw a.row refl

Follows-IsSound :
    (s : CrawlStore) (id : ℕ) (job job' : CrawlJob)
    → Dict.get s.crawls id ≡ some job
    → Follows job job'
    → IsSound s
    → IsSound (record s { crawls = Dict.put s.crawls id job' })
Follows-IsSound s id job job' e f v =
    let h = v.crawls_sound id job e in
    sets-IsSound s s.next_crawl id job' (λ k b. b)
      (record {
        below = h.below;
        has_end = f.keeps_end h.has_end;
        has_percent = f.keeps_percent h.has_percent;
        has_website =
            subst (λ w. is_some (Dict.get s.base.websites w) ≡ true) (sym f.same_website)
              h.has_website;
      })
      v

-- A page and an issue of a crawl that is there, before the count of the crawl.
page-IsSound :
    (s : CrawlStore) (now id : ℕ) (body : PageBody)
    → is_some (Dict.get s.crawls id) ≡ true
    → IsSound s
    → IsSound (record s {
      pages = Dict.put s.pages s.next_page (page_row now id body);
      next_page = suc s.next_page;
    })
page-IsSound s now id body h v = record {
  crawls_sound = v.crawls_sound;
  pages_below =
      Everywhere-put (λ k (p : CrawlPage). k < suc s.next_page) s.pages s.next_page
        (page_row now id body) (λ k p g. let b = v.pages_below k p g in omega (arith, b))
        (omega arith);
  issues_below = v.issues_below;
  pages_known =
      Everywhere-put (λ k (p : CrawlPage). is_some (Dict.get s.crawls p.crawl_job_id) ≡ true)
        s.pages s.next_page (page_row now id body) v.pages_known h;
  issues_known = v.issues_known;
}

issue-IsSound :
    (s : CrawlStore) (now id : ℕ) (body : IssueBody)
    → is_some (Dict.get s.crawls id) ≡ true
    → IsSound s
    → IsSound (record s {
      issues = Dict.put s.issues s.next_issue (issue_row now id body);
      next_issue = suc s.next_issue;
    })
issue-IsSound s now id body h v = record {
  crawls_sound = v.crawls_sound;
  pages_below = v.pages_below;
  issues_below =
      Everywhere-put (λ k (p : CrawlIssue). k < suc s.next_issue) s.issues s.next_issue
        (issue_row now id body) (λ k p g. let b = v.issues_below k p g in omega (arith, b))
        (omega arith);
  pages_known = v.pages_known;
  issues_known =
      Everywhere-put (λ k (p : CrawlIssue). is_some (Dict.get s.crawls p.crawl_job_id) ≡ true)
        s.issues s.next_issue (issue_row now id body) v.issues_known h;
}

-- A count does not touch what soundness is about.
one_more :
    (f : CrawlJob → CrawlJob) (s : CrawlStore) (id : ℕ) (job : CrawlJob)
    → Dict.get s.crawls id ≡ some job
    → Follows job (f job)
    → IsSound s
    → IsSound (on_crawl f id s)
one_more f s id job e follows v = rw (on_crawl, e) (Follows-IsSound s id job (f job) e follows v)

module _ (user_id : ℕ) (starts : Bool) where
  pub Changes-IsSound : (s s' : CrawlStore) → Changes user_id starts s s' → IsSound s → IsSound s'
  unfolding create_crawl_page create_crawl_issue
  Changes-IsSound s s' (stays e) v = subst IsSound (sym e) v
  Changes-IsSound s s' (adds_crawl job a free end percent e) v = subst IsSound (sym e) (
      sets-IsSound s (suc s.next_crawl) s.next_crawl job (λ k b. omega (arith, b))
        (record {
          below = omega arith;
          has_end = end;
          has_percent = percent;
          has_website = Allowed-website user_id job.website_id s a;
        })
        v)
  Changes-IsSound s s' (sets_crawl id job job' g a f idle e) v =
      subst IsSound (sym e) (Follows-IsSound s id job job' g f v)
  Changes-IsSound s s' (adds_page now id job body g a e) v = subst IsSound (sym e) (
      one_more (one_page_more now) _ id job g
        (record { same_website = refl; keeps_end = λ h. h; keeps_percent = λ h. h })
        (page-IsSound s now id body (rw g refl) v))
  Changes-IsSound s s' (adds_issue now id job body g a e) v = subst IsSound (sym e) (
      one_more (one_issue_more now) _ id job g
        (record { same_website = refl; keeps_end = λ h. h; keeps_percent = λ h. h })
        (issue-IsSound s now id body (rw g refl) v))

-- From sound tables, after any requests of any users on crawls, the tables are sound: every crawl
-- stands below the next id, its progress is one of 0 to 100, it has the time of its end once it is
-- completed, failed or cancelled, and its website is there; and the crawl of every page and of every
-- issue is there.
pub handle_crawls-IsSound :
    {F : Type 0} (lib : CrawlLib F) (rs : List CrawlRequest) (s : CrawlStore)
    → IsSound s
    → IsSound (handle_crawls lib rs s)
unfolding handle_crawls
handle_crawls-IsSound lib [] s v = v
handle_crawls-IsSound lib (r ∷ rs) s v =
    let s' = (handle_crawl lib r.now r.user_id r.target s).1 in
    handle_crawls-IsSound lib rs s' (
      Changes-IsSound r.user_id (may_start r.target) s s'
        (handle_crawl-Changes lib r.now r.user_id r.target s) v)
