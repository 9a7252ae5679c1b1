-- ===== src/Crawls/Routes/Once.antt =====
-- No website is crawled twice at a time, as long as no crawl is started again.
use seo_agent_rct.Prelude.{
  ℕ, ◌≡◌, refl, sym, ◌∙◌, subst, true, false, some, List, [], ◌∷◌, arith, nat_key, All,
}
use seo_agent_rct.Dict
use seo_agent_rct.Dict.{Dict}
use seo_agent_rct.Dict.Unique.{Unique, Unique-put}
use seo_agent_rct.Crawls.Rows.{CrawlJob, is_active, active_crawls}
use seo_agent_rct.Crawls.Tables.{
  CrawlStore, on_crawl, one_page_more, one_issue_more, create_crawl_page, create_crawl_issue,
}
use seo_agent_rct.Crawls.Stats.{CrawlLib}
use seo_agent_rct.Crawls.Routes.{handle_crawl, handle_crawls}
use seo_agent_rct.Crawls.Requests.{CrawlRequest}
use seo_agent_rct.Crawls.Routes.Handlers.{handle_crawl-Changes}
use seo_agent_rct.Crawls.Routes.Changes.{
  StaysIdle, may_start, Changes, stays, adds_crawl, sets_crawl, adds_page, adds_issue,
}

-- Two crawls of one website that are both queued or running.
abbrev pub BothActive : CrawlJob → CrawlJob → Type 0
BothActive a b =
    (a.website_id ≡ b.website_id) × (is_active a.status ≡ true) × (is_active b.status ≡ true)

-- A website has one active crawl at most.
abbrev pub IsOnce : CrawlStore → Type 0
IsOnce s = Unique BothActive s.crawls

BothActive-sym : (a b : CrawlJob) → BothActive a b → BothActive b a
BothActive-sym a b (w, x, y) = (sym w, y, x)

active_crawls-none :
    (d : Dict ℕ CrawlJob) (website_id k : ℕ) (job : CrawlJob)
    → active_crawls website_id (Dict.values d) ≡ []
    → Dict.get d k ≡ some job
    → job.website_id ≡ website_id
    → is_active job.status ≡ false
unfolding active_crawls Dict.get
active_crawls-none [] website_id k job free g e = cc
active_crawls-none ((j, x) ∷ d) website_id k job free g e =
    ground (arith, active_crawls-none d website_id k job)

-- A row follows one that was active if it is.
Follows-IsOnce :
    (s : CrawlStore) (id : ℕ) (job job' : CrawlJob)
    → Dict.get s.crawls id ≡ some job
    → job'.website_id ≡ job.website_id
    → StaysIdle job job'
    → IsOnce s
    → Unique BothActive (Dict.put s.crawls id job')
Follows-IsOnce s id job job' g same idle u =
    Unique-put BothActive s.crawls id job' BothActive-sym
      (λ k other n h (w, x, y). n (u id k job other g h (sym same ∙ w, idle x, y))) u

count-IsOnce :
    (f : CrawlJob → CrawlJob) (s : CrawlStore) (id : ℕ) (job : CrawlJob)
    → Dict.get s.crawls id ≡ some job
    → (f job).website_id ≡ job.website_id
    → StaysIdle job (f job)
    → IsOnce s
    → IsOnce (on_crawl f id s)
count-IsOnce f s id job g same idle u =
    rw (on_crawl, g) (Follows-IsOnce s id job (f job) g same idle u)

module _ (user_id : ℕ) where
  Changes-IsOnce : (s s' : CrawlStore) → Changes user_id false s s' → IsOnce s → IsOnce s'
  unfolding create_crawl_page create_crawl_issue
  Changes-IsOnce s s' (stays e) u = subst IsOnce (sym e) u
  Changes-IsOnce s s' (adds_crawl job a free end percent e) u = subst IsOnce (sym e) (
      Unique-put BothActive s.crawls s.next_crawl job BothActive-sym
        (λ k other n g (w, x, y).
          let idle = active_crawls-none s.crawls job.website_id k other free g (sym w) in cc)
        u)
  Changes-IsOnce s s' (sets_crawl id job job' g a f idle e) u =
      subst IsOnce (sym e) (Follows-IsOnce s id job job' g f.same_website (idle refl) u)
  Changes-IsOnce s s' (adds_page now id job body g a e) u =
      subst IsOnce (sym e) (count-IsOnce (one_page_more now) _ id job g refl (λ h. h) u)
  Changes-IsOnce s s' (adds_issue now id job body g a e) u =
      subst IsOnce (sym e) (count-IsOnce (one_issue_more now) _ id job g refl (λ h. h) u)

-- If no website has two crawls that are queued or running, none has after any requests of any users
-- on crawls, as long as they neither retry a crawl nor report a status.
pub handle_crawls-IsOnce :
    {F : Type 0} (lib : CrawlLib F) (rs : List CrawlRequest) (s : CrawlStore)
    → IsOnce s
    → All (λ r. may_start r.target ≡ false) rs
    → IsOnce (handle_crawls lib rs s)
unfolding handle_crawls
handle_crawls-IsOnce lib [] s u all = u
handle_crawls-IsOnce lib (r ∷ rs) s u all =
    let s' = (handle_crawl lib r.now r.user_id r.target s).1 in
    let step = handle_crawl-Changes lib r.now r.user_id r.target s in
    handle_crawls-IsOnce lib rs s'
      (Changes-IsOnce r.user_id s s' (subst (λ b. Changes r.user_id b s s') all.0 step) u) all.1
