-- ===== src/Crawls/Routes/Access.antt =====
-- What the requests of a user on crawls leave alone.
use seo_agent_rct.Prelude.{
  ℕ, suc, ◌≡◌, ◌↔◌, refl, sym, ◌∙◌, ap, subst, Bool, some, List, [], ◌∷◌, arith, nat_key, All,
}
use seo_agent_rct.Dict
use seo_agent_rct.Dict.{Dict}
use seo_agent_rct.Orgs.Rows.{member}
use seo_agent_rct.Workspaces.Rows.{Website, Store}
use seo_agent_rct.Workspaces.Steps.{HasRole}
use seo_agent_rct.Workspaces.Access.Others.{put_elsewhere}
use seo_agent_rct.Crawls.Rows.{CrawlJob}
use seo_agent_rct.Crawls.Tables.{
  CrawlPage, CrawlIssue, CrawlStore, on_crawl, one_page_more, one_issue_more, create_crawl_page,
  create_crawl_issue, page_row, issue_row,
}
use seo_agent_rct.Crawls.Stats.{CrawlLib}
use seo_agent_rct.Crawls.Routes.{handle_crawl, handle_crawls}
use seo_agent_rct.Crawls.Requests.{CrawlRequest}
use seo_agent_rct.Crawls.Routes.Handlers.{handle_crawl-Changes}
use seo_agent_rct.Crawls.Routes.Changes.{
  Allowed, Changes, stays, adds_crawl, sets_crawl, adds_page, adds_issue, may_start,
}
use seo_agent_rct.Crawls.Routes.Sound.{IsSound, Changes-IsSound}

-- A website that is there and belongs to an organization.
abbrev pub IsOf : (org : ℕ) → Store → (website_id : ℕ) → Type 0
IsOf org base website_id =
    (w : Website) × (Dict.get base.websites website_id ≡ some w) × (w.organization_id ≡ some org)

-- A crawl that is there, of a website of an organization.
abbrev pub IsCrawlOf : (org : ℕ) → CrawlStore → (crawl_id : ℕ) → Type 0
IsCrawlOf org s crawl_id =
    (job : CrawlJob) × (Dict.get s.crawls crawl_id ≡ some job) × IsOf org s.base job.website_id

-- The crawls of an organization, their pages and their issues are the same before and after, and so
-- are the tables of the workspaces.
pub record Spared (org : ℕ) (s s' : CrawlStore) : Type 0 where
  pub same_base : s'.base ≡ s.base
  pub same_crawls :
      (k : ℕ) (job : CrawlJob)
      → IsOf org s.base job.website_id
      → (Dict.get s.crawls k ≡ some job) ↔ (Dict.get s'.crawls k ≡ some job)
  pub same_pages :
      (k : ℕ) (p : CrawlPage)
      → IsCrawlOf org s p.crawl_job_id
      → (Dict.get s.pages k ≡ some p) ↔ (Dict.get s'.pages k ≡ some p)
  pub same_issues :
      (k : ℕ) (i : CrawlIssue)
      → IsCrawlOf org s i.crawl_job_id
      → (Dict.get s.issues k ≡ some i) ↔ (Dict.get s'.issues k ≡ some i)

Spared-refl : (org : ℕ) (s : CrawlStore) → Spared org s s
Spared-refl org s = record {
  same_base = refl;
  same_crawls = λ k job o. (λ g. g, λ g. g);
  same_pages = λ k p o. (λ g. g, λ g. g);
  same_issues = λ k i o. (λ g. g, λ g. g);
}

-- A crawl of the organization is one afterwards.
Spared-IsCrawlOf :
    (org : ℕ) (s t : CrawlStore) (id : ℕ) → Spared org s t → IsCrawlOf org s id → IsCrawlOf org t id
Spared-IsCrawlOf org s t id a (job, g, of) = (
  job,
  (a.same_crawls id job of).0 g,
  subst (λ b. IsOf org b job.website_id) (sym a.same_base) of,
)

Spared-trans : (org : ℕ) (s t u : CrawlStore) → Spared org s t → Spared org t u → Spared org s u
Spared-trans org s t u a b = record {
  same_base = b.same_base ∙ a.same_base;
  same_crawls = λ k job o.
      let o' = subst (λ z. IsOf org z job.website_id) (sym a.same_base) o in
      (
        λ g. (b.same_crawls k job o').0 ((a.same_crawls k job o).0 g),
        λ g. (a.same_crawls k job o).1 ((b.same_crawls k job o').1 g),
      );
  same_pages = λ k p o.
      let o' = Spared-IsCrawlOf org s t p.crawl_job_id a o in
      (
        λ g. (b.same_pages k p o').0 ((a.same_pages k p o).0 g),
        λ g. (a.same_pages k p o).1 ((b.same_pages k p o').1 g),
      );
  same_issues = λ k i o.
      let o' = Spared-IsCrawlOf org s t i.crawl_job_id a o in
      (
        λ g. (b.same_issues k i o').0 ((a.same_issues k i o).0 g),
        λ g. (a.same_issues k i o).1 ((b.same_issues k i o').1 g),
      );
}

-- The row of a crawl of another organization is written.
crawl-Spared :
    (org : ℕ) (s : CrawlStore) (next id : ℕ) (job : CrawlJob)
    → ¬ IsOf org s.base job.website_id
    → ((old : CrawlJob) → Dict.get s.crawls id ≡ some old → ¬ IsOf org s.base old.website_id)
    → Spared org s (record s { crawls = Dict.put s.crawls id job; next_crawl = next })
crawl-Spared org s next id job new old = record {
  same_base = refl;
  same_crawls =
      put_elsewhere (λ (j : CrawlJob). IsOf org s.base j.website_id) s.crawls id job new old;
  same_pages = λ k p o. (λ g. g, λ g. g);
  same_issues = λ k i o. (λ g. g, λ g. g);
}

page-Spared :
    (org : ℕ) (s : CrawlStore) (page : CrawlPage)
    → ¬ IsCrawlOf org s page.crawl_job_id
    → IsSound s
    → Spared org s
        (record s { pages = Dict.put s.pages s.next_page page; next_page = suc s.next_page })
page-Spared org s page new v = record {
  same_base = refl;
  same_crawls = λ k job o. (λ g. g, λ g. g);
  same_pages =
      put_elsewhere (λ (p : CrawlPage). IsCrawlOf org s p.crawl_job_id) s.pages s.next_page page new
        (λ p g. let low = v.pages_below s.next_page p g in ground arith);
  same_issues = λ k i o. (λ g. g, λ g. g);
}

issue-Spared :
    (org : ℕ) (s : CrawlStore) (issue : CrawlIssue)
    → ¬ IsCrawlOf org s issue.crawl_job_id
    → IsSound s
    → Spared org s
        (record s { issues = Dict.put s.issues s.next_issue issue; next_issue = suc s.next_issue })
issue-Spared org s issue new v = record {
  same_base = refl;
  same_crawls = λ k job o. (λ g. g, λ g. g);
  same_pages = λ k p o. (λ g. g, λ g. g);
  same_issues =
      put_elsewhere (λ (p : CrawlIssue). IsCrawlOf org s p.crawl_job_id) s.issues s.next_issue issue
        new (λ p g. let low = v.issues_below s.next_issue p g in ground arith);
}

-- A count of a crawl of another organization.
count-Spared :
    (org : ℕ) (f : CrawlJob → CrawlJob) (s : CrawlStore) (id : ℕ) (job : CrawlJob)
    → Dict.get s.crawls id ≡ some job
    → (f job).website_id ≡ job.website_id
    → ¬ IsOf org s.base job.website_id
    → Spared org s (on_crawl f id s)
count-Spared org f s id job g same other =
    rw (on_crawl, g)
      (crawl-Spared org s s.next_crawl id (f job)
        (subst (λ w. ¬ IsOf org s.base w) (sym same) other)
        (λ old h.
          let row : job ≡ old = ground arith in
          subst (λ (j : CrawlJob). ¬ IsOf org s.base j.website_id) row other))

module _ (org user_id : ℕ) where
  -- Where the user is no member, no website that the user may act on is of the organization.
  elsewhere :
      (website_id : ℕ) (s : CrawlStore)
      → ¬ HasRole org user_id member s.base
      → Allowed user_id website_id member s
      → ¬ IsOf org s.base website_id
  elsewhere website_id s none_of a (w, g, own) =
      let row : a.website ≡ w = ground arith in
      let same : some a.org_id ≡ some org = sym a.own ∙ ap (λ z. z.organization_id) row ∙ own in
      none_of (subst (λ k. HasRole k user_id member s.base) (ground arith) a.role)

  crawl_elsewhere :
      (id : ℕ) (job : CrawlJob) (s : CrawlStore)
      → Dict.get s.crawls id ≡ some job
      → ¬ IsOf org s.base job.website_id
      → ¬ IsCrawlOf org s id
  crawl_elsewhere id job s g other (q, h, of) =
      let row : q ≡ job = ground arith in
      other (subst (λ (j : CrawlJob). IsOf org s.base j.website_id) row of)

  Changes-Spared :
      (starts : Bool) (s s' : CrawlStore)
      → IsSound s
      → ¬ HasRole org user_id member s.base
      → Changes user_id starts s s'
      → Spared org s s'
  unfolding create_crawl_page create_crawl_issue
  Changes-Spared starts s s' v none_of (stays e) = subst (Spared org s) (sym e) (Spared-refl org s)
  Changes-Spared starts s s' v none_of (adds_crawl job a free end percent e) =
      subst (Spared org s) (sym e) (
        crawl-Spared org s (suc s.next_crawl) s.next_crawl job
          (elsewhere job.website_id s none_of a)
          (λ old g. let low = (v.crawls_sound s.next_crawl old g).below in ground arith))
  Changes-Spared starts s s' v none_of (sets_crawl id job job' g a f idle e) =
      let other = elsewhere job.website_id s none_of a in
      subst (Spared org s) (sym e) (
        crawl-Spared org s s.next_crawl id job'
          (subst (λ w. ¬ IsOf org s.base w) (sym f.same_website) other)
          (λ old h.
            let row : job ≡ old = ground arith in
            subst (λ (j : CrawlJob). ¬ IsOf org s.base j.website_id) row other))
  Changes-Spared starts s s' v none_of (adds_page now id job body g a e) =
      let other = elsewhere job.website_id s none_of a in
      subst (Spared org s) (sym e) (
        Spared-trans org s _ _
          (page-Spared org s (page_row now id body) (crawl_elsewhere id job s g other) v)
          (count-Spared org (one_page_more now) _ id job g refl other))
  Changes-Spared starts s s' v none_of (adds_issue now id job body g a e) =
      let other = elsewhere job.website_id s none_of a in
      subst (Spared org s) (sym e) (
        Spared-trans org s _ _
          (issue-Spared org s (issue_row now id body) (crawl_elsewhere id job s g other) v)
          (count-Spared org (one_issue_more now) _ id job g refl other))

  -- From sound tables, whatever requests a user makes on crawls: where the user is not at least a
  -- member, the crawls of the websites of the organization, their pages and their issues are the same
  -- before and after, and none is added; and the tables of the workspaces are the same.
  pub handle_crawls-Spared :
      {F : Type 0} (lib : CrawlLib F) (rs : List CrawlRequest) (s : CrawlStore)
      → IsSound s
      → All (λ r. r.user_id ≡ user_id) rs
      → ¬ HasRole org user_id member s.base
      → Spared org s (handle_crawls lib rs s)
  unfolding handle_crawls
  handle_crawls-Spared lib [] s v all none_of = Spared-refl org s
  handle_crawls-Spared lib (r ∷ rs) s v all none_of =
      let s' = (handle_crawl lib r.now r.user_id r.target s).1 in
      let starts = may_start r.target in
      let step = handle_crawl-Changes lib r.now r.user_id r.target s in
      let first =
        Changes-Spared starts s s' v none_of (subst (λ u. Changes u starts s s') all.0 step) in
      Spared-trans org s s' (handle_crawls lib rs s') first (
        handle_crawls-Spared lib rs s' (Changes-IsSound r.user_id starts s s' step v) all.1
          (subst (λ b. ¬ HasRole org user_id member b) (sym first.same_base) none_of))
