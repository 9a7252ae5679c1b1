-- ===== src/Crawls/Lifecycle/Counts.antt =====
-- The page counter of a crawl under sequences of the operations of `CrawlLifecycleService`.
use seo_agent_rct.Prelude.{
  ℕ, suc, ◌<◌, ◌≡◌, refl, String, Bool, none, some, List, [], ◌∷◌, ◌++◌, arith, ◌==◌, if◌then◌else◌,
  nat_key, keep, length, Option-cases, inl, inr,
}
use seo_agent_rct.Dict
use seo_agent_rct.Dict.{Dict}
use seo_agent_rct.Dict.Laws.{get-put}
use seo_agent_rct.Crawls.Lifecycle.{
  Crawl, Page, PageData, Registry, new_crawl, register_crawl, change_crawl, start_crawl,
  pause_crawl, resume_crawl, stop_crawl, started, paused, resumed, stopped, list_pages, add_page,
  counted,
}

-- The operations that change the registry.
pub data LifeOp : Type 0 where
  register : (now crawl_id website_id : ℕ) (status : String) → LifeOp
  start : (now crawl_id : ℕ) → LifeOp
  pause : (now crawl_id : ℕ) → LifeOp
  resume : (now crawl_id : ℕ) → LifeOp
  stop : (now crawl_id : ℕ) → LifeOp
  add : (now crawl_id : ℕ) (page_data : PageData) → LifeOp

unfoldable pub live : LifeOp → Registry → Registry
live (register now crawl_id website_id status) g =
    (register_crawl now crawl_id website_id status g).1
live (start now crawl_id) g = (start_crawl now crawl_id g).1
live (pause now crawl_id) g = (pause_crawl now crawl_id g).1
live (resume now crawl_id) g = (resume_crawl now crawl_id g).1
live (stop now crawl_id) g = (stop_crawl now crawl_id g).1
live (add now crawl_id page_data) g = (add_page now crawl_id page_data g).1

unfoldable pub live_all : List LifeOp → Registry → Registry
live_all [] g = g
live_all (op ∷ ops) g = live_all ops (live op g)

-- A crawl is registered only while it has no pages.
abbrev pub MayRun : LifeOp → Registry → Type 0
MayRun (register now crawl_id website_id status) g = length (list_pages crawl_id g) ≡ 0
MayRun _ g = Unit

unfoldable pub MayRunAll : List LifeOp → Registry → Type 0
MayRunAll [] g = Unit
MayRunAll (op ∷ ops) g = MayRun op g × MayRunAll ops (live op g)

-- Every crawl counts its pages, and the ids of pages are below the next one.
pub record IsCounted (g : Registry) : Type 0 where
  pub counts :
      (k : ℕ) (crawl : Crawl)
      → Dict.get g.crawls k ≡ some crawl
      → crawl.pages_found ≡ length (list_pages k g)
  pub below : (i : ℕ) (page : Page) → Dict.get g.pages i ≡ some page → i < g.next_page_id

values-put :
    (d : Dict ℕ Page) (k : ℕ) (v : Page)
    → Dict.get d k ≡ none
    → Dict.values (Dict.put d k v) ≡ Dict.values d ++ v ∷ []
unfolding Dict.get Dict.put
values-put [] k v h = refl
values-put ((j, w) ∷ d) k v h = ground (arith, values-put d k v)

length-keep_last :
    (p : Page → Bool) (xs : List Page) (v : Page)
    → length (keep p (xs ++ v ∷ []))
      ≡ (if p v then suc (length (keep p xs)) else length (keep p xs))
length-keep_last p [] v = ground arith
length-keep_last p (x ∷ xs) v = ground (arith, length-keep_last p xs v)

-- A change that leaves the counter alone.
change-IsCounted :
    (id : ℕ) (change : Crawl → Crawl) (g : Registry)
    → ((crawl : Crawl) → (change crawl).pages_found ≡ crawl.pages_found)
    → IsCounted g
    → IsCounted (change_crawl id change g).1
unfolding change_crawl list_pages
change-IsCounted id change g quiet c = elim (Option-cases (Dict.get g.crawls id)) [
  | inl e ↦ rw (e, change_crawl) c
  | inr (crawl, e) ↦
      rw (e, change_crawl)
        (record {
          counts = λ k other h. ground (
            arith,
            get-put g.crawls id k (change crawl),
            quiet crawl,
            c.counts k other,
            c.counts id crawl e,
          );
          below = c.below;
        })
]

register-IsCounted :
    (now id website : ℕ) (status : String) (g : Registry)
    → length (list_pages id g) ≡ 0
    → IsCounted g
    → IsCounted (register_crawl now id website status g).1
unfolding register_crawl list_pages
register-IsCounted now id website status g none_yet c = record {
  counts = λ k other h.
      ground (
        arith,
        get-put g.crawls id k (new_crawl now id website status),
        none_yet,
        c.counts k other,
      );
  below = c.below;
}

below_after :
    (g : Registry) (page : Page) (i : ℕ) (q : Page)
    → IsCounted g
    → Dict.get (Dict.put g.pages g.next_page_id page) i ≡ some q
    → i < suc g.next_page_id
below_after g page i q c h = ground (arith, get-put g.pages g.next_page_id i page, c.below i q)

free_id : (g : Registry) → IsCounted g → Dict.get g.pages g.next_page_id ≡ none
free_id g c = elim (Option-cases (Dict.get g.pages g.next_page_id)) [
  | inl e ↦ e
  | inr (page, e) ↦ absurd (omega (arith, c.below g.next_page_id page e))
]

length-list_pages :
    (k : ℕ) (page : Page) (g : Registry)
    → IsCounted g
    → length (keep (λ p. p.crawl_job_id == k) (Dict.values (Dict.put g.pages g.next_page_id page)))
      ≡ (if page.crawl_job_id == k then suc (length (list_pages k g)) else length (list_pages k g))
unfolding list_pages
length-list_pages k page g c =
    rw (values-put g.pages g.next_page_id page (free_id g c))
      (length-keep_last (λ p. p.crawl_job_id == k) (Dict.values g.pages) page)

add-IsCounted :
    (now id : ℕ) (page_data : PageData) (g : Registry)
    → IsCounted g
    → IsCounted (add_page now id page_data g).1
unfolding add_page change_crawl list_pages
add-IsCounted now id page_data g c =
    let page : Page = record {
      id = g.next_page_id;
      crawl_job_id = id;
      page_data = page_data;
      created_at = now;
    } in
    let pages =
      λ (i : ℕ) (q : Page) (h : Dict.get (Dict.put g.pages g.next_page_id page) i ≡ some q).
        below_after g page i q c h in
    elim (Option-cases (Dict.get g.crawls id)) [
      | inl e ↦
          rw (e, add_page, change_crawl)
            (record {
              counts = λ k other h.
                  ground (arith, length-list_pages k page g c, c.counts k other h, e, h);
              below = pages;
            })
      | inr (crawl, e) ↦
          rw (e, add_page, change_crawl)
            (record {
              counts = λ k other h. ground (
                arith,
                get-put g.crawls id k (counted crawl),
                length-list_pages k page g c,
                c.counts k other,
                c.counts id crawl e,
              );
              below = pages;
            })
    ]

live-IsCounted : (op : LifeOp) (g : Registry) → MayRun op g → IsCounted g → IsCounted (live op g)
unfolding live start_crawl pause_crawl resume_crawl stop_crawl
live-IsCounted (register now id website status) g may c =
    register-IsCounted now id website status g may c
live-IsCounted (start now id) g may c = change-IsCounted id (started now) g (λ crawl. refl) c
live-IsCounted (pause now id) g may c = change-IsCounted id (paused now) g (λ crawl. refl) c
live-IsCounted (resume now id) g may c = change-IsCounted id (resumed now) g (λ crawl. refl) c
live-IsCounted (stop now id) g may c = change-IsCounted id (stopped now) g (λ crawl. refl) c
live-IsCounted (add now id page_data) g may c = add-IsCounted now id page_data g c

-- As long as a crawl is only registered while it has no pages, after any operations the counter
-- `pages_found` of every crawl is the number of pages that `list_pages` gives for it.
pub live_all-IsCounted :
    (ops : List LifeOp) (g : Registry) → IsCounted g → MayRunAll ops g → IsCounted (live_all ops g)
unfolding live_all MayRunAll
live_all-IsCounted [] g c may = c
live_all-IsCounted (op ∷ ops) g c may =
    live_all-IsCounted ops (live op g) (live-IsCounted op g may.0 c) may.1
