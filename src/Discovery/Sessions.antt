-- ===== src/Discovery/Sessions.antt =====
-- A crawl session: any sequence of the operations of `URLDiscoveryService`, from its constructor.
use seo_agent_rct.Prelude.{
  ℕ, suc, ◌+◌, ◌≡◌, inl, inr, refl, ◌∙◌, Option, none, some, List, [], ◌∷◌, arith, Bool-cases,
}
use seo_agent_rct.Dict.{get}
use seo_agent_rct.Dict.Everywhere.{Everywhere-empty}
use seo_agent_rct.Text.{Text, text_key, UrlLib, normalize_url, is_empty}
use seo_agent_rct.Discovery.{
  Discovery, DiscoveryConfig, enqueue, add_discovered_urls, next, mark_visited, mark_failed,
  pop_item, requeue_or_fail, init,
}
use seo_agent_rct.Discovery.Invariant.{
  IsBounded, enqueue_cases, hand_out_cases, enqueue-IsBounded, next-IsBounded,
  mark_visited-IsBounded, mark_failed-IsBounded,
}
use seo_agent_rct.Discovery.Attempts.{
  HasItems, enqueue-HasItems, next-HasItems, mark_visited-HasItems, mark_failed-HasItems,
}

pub record IsCrawl (config : DiscoveryConfig) (d : Discovery) : Type 0 where
  pub same_config : d.config ≡ config
  pub bounded : IsBounded d
  pub items : HasItems d

pub data Call : Type 0 where
  add : (uid : Text) (now : ℕ) (url : Text) (depth : ℕ) (from : Option Text) → Call
  discover : (uids : ℕ → Text) (now : ℕ) (urls : List Text) (depth : ℕ) (source : Text) → Call
  take_next : (now : ℕ) → Call
  visit : (now : ℕ) (url : Text) (code redirects : ℕ) → Call
  give_up : (now : ℕ) (url error : Text) (code : Option ℕ) → Call

config_enqueue :
    (lib : UrlLib) (uid : Text) (now : ℕ) (url : Text) (depth : ℕ) (from : Option Text)
    (d : Discovery)
    → (enqueue lib uid now url depth from d).1.config ≡ d.config
config_enqueue lib uid now url depth from d = elim (enqueue_cases lib uid now url depth from d) [
  | inl e ↦ rw e
  | inr n ↦ rw (n.effect)
]

config_next : (now : ℕ) (d : Discovery) → (next now d).1.config ≡ d.config
unfolding next
config_next now d = elim (hand_out_cases now d d.queue) [
  | inl e ↦ rw e
  | inr (url, item, there, e) ↦ rw e
]

config_visited :
    (lib : UrlLib) (now : ℕ) (url : Text) (code redirects : ℕ) (d : Discovery)
    → (mark_visited lib now url code redirects d).1.config ≡ d.config
unfolding mark_visited pop_item
config_visited lib now url code redirects d = ground arith

config_failed :
    (lib : UrlLib) (now : ℕ) (url error : Text) (code : Option ℕ) (d : Discovery)
    → (mark_failed lib now url error code d).1.config ≡ d.config
unfolding mark_failed pop_item requeue_or_fail
config_failed lib now url error code d = ground arith

module _ (lib : UrlLib) where
  unfoldable pub call : Call → Discovery → Discovery
  call (add uid now url depth from) d = (enqueue lib uid now url depth from d).1
  call (discover uids now urls depth source) d =
      (add_discovered_urls lib uids now urls depth source d).1
  call (take_next now) d = (next now d).1
  call (visit now url code redirects) d = (mark_visited lib now url code redirects d).1
  call (give_up now url error code) d = (mark_failed lib now url error code d).1

  unfoldable pub session : List Call → Discovery → Discovery
  session [] d = d
  session (c ∷ cs) d = session cs (call c d)

module _ (lib : UrlLib) (config : DiscoveryConfig) where
  enqueue-IsCrawl :
      (uid : Text) (now : ℕ) (url : Text) (depth : ℕ) (from : Option Text) (d : Discovery)
      → IsCrawl config d
      → IsCrawl config (enqueue lib uid now url depth from d).1
  enqueue-IsCrawl uid now url depth from d c = record {
    same_config = config_enqueue lib uid now url depth from d ∙ c.same_config;
    bounded = enqueue-IsBounded lib uid now url depth from d c.bounded;
    items = enqueue-HasItems lib uid now url depth from d c.items;
  }

  discover-IsCrawl :
      (uids : ℕ → Text) (now : ℕ) (urls : List Text) (depth : ℕ) (source : Text) (d : Discovery)
      → IsCrawl config d
      → IsCrawl config (add_discovered_urls lib uids now urls depth source d).1
  unfolding add_discovered_urls
  discover-IsCrawl uids now [] depth source d c = c
  discover-IsCrawl uids now (url ∷ urls) depth source d c =
      discover-IsCrawl (λ i. uids (suc i)) now urls depth source _
        (enqueue-IsCrawl (uids 0) now _ (depth + 1) (some source) d c)

  call-IsCrawl : (c : Call) (d : Discovery) → IsCrawl config d → IsCrawl config (call lib c d)
  unfolding call
  call-IsCrawl (add uid now url depth from) d c = enqueue-IsCrawl uid now url depth from d c
  call-IsCrawl (discover uids now urls depth source) d c =
      discover-IsCrawl uids now urls depth source d c
  call-IsCrawl (take_next now) d c = record {
    same_config = config_next now d ∙ c.same_config;
    bounded = next-IsBounded now d c.bounded;
    items = next-HasItems now d c.items;
  }
  call-IsCrawl (visit now url code redirects) d c = record {
    same_config = config_visited lib now url code redirects d ∙ c.same_config;
    bounded = mark_visited-IsBounded lib now url d c.bounded code redirects;
    items = mark_visited-HasItems lib now url d c.bounded c.items code redirects;
  }
  call-IsCrawl (give_up now url error code) d c = record {
    same_config = config_failed lib now url error code d ∙ c.same_config;
    bounded = mark_failed-IsBounded lib now url d c.bounded error code;
    items = mark_failed-HasItems lib now url d c.bounded c.items error code;
  }

  session-IsCrawl :
      (cs : List Call) (d : Discovery) → IsCrawl config d → IsCrawl config (session lib cs d)
  unfolding session
  session-IsCrawl [] d c = c
  session-IsCrawl (x ∷ xs) d c = session-IsCrawl xs (call lib x d) (call-IsCrawl x d c)

  empty-IsCrawl :
      (seed : Text)
      → IsCrawl config (record {
        seed_url = seed;
        config = config;
        queue = [];
        pending = [];
        visited = [];
        failed = [];
      })
  unfolding get
  empty-IsCrawl seed = record {
    same_config = refl;
    bounded = record {
      sound = record {
        once = λ url. omega arith;
        queue = tt;
        pending = tt;
        visited = tt;
        failed = tt;
      };
      within = omega arith;
    };
    items = record {
      queue = Everywhere-empty _;
      pending = Everywhere-empty _;
      visited = Everywhere-empty _;
      failed = Everywhere-empty _;
    };
  }

  init-IsCrawl :
      (uid : Text) (now : ℕ) (seed : Text) → IsCrawl config (init lib uid now seed config)
  unfolding init
  init-IsCrawl uid now seed = elim (Bool-cases (is_empty (normalize_url lib seed))) [
    | inl e ↦ rw e (empty-IsCrawl (normalize_url lib seed))
    | inr e ↦ rw e (
        enqueue-IsCrawl uid now (normalize_url lib seed) 0 none _
          (empty-IsCrawl (normalize_url lib seed)))
  ]

  -- After its constructor and any operations, a session has its configuration, and tracks no more URLs than `max_pages`, each in
  -- one of the four dictionaries; each item stands under its own URL with the status of its
  -- dictionary, no deeper than `max_depth`, and has been handed out `max(1, retry)` times at most.
  -- A failed item has used up all its retries.
  pub init-session-IsCrawl :
      (uid : Text) (now : ℕ) (seed : Text) (cs : List Call)
      → IsCrawl config (session lib cs (init lib uid now seed config))
  init-session-IsCrawl uid now seed cs = session-IsCrawl cs _ (init-IsCrawl uid now seed)
