-- ===== src/Discovery/Invariant.antt =====
-- The invariant of `URLDiscoveryService`: a URL stands in one dictionary at most, no more URLs than
-- `max_pages` are tracked, and the operations keep it.
use seo_agent_rct.Prelude.{
  ℕ, suc, ◌≤◌, ◌<◌, ◌≡◌, ◌⊎◌, inl, inr, refl, ap, Bool, true, false, Option, none, some, [], ◌∷◌,
  arith, Option-cases, Bool-cases, ltb, leb,
}
use seo_agent_rct.Dict
use seo_agent_rct.Dict.{Dict}
use seo_agent_rct.Dict.Laws.{get-remove, size-put, size-remove}
use seo_agent_rct.Text.{Text, text_key, UrlLib, normalize_url, is_empty}
use seo_agent_rct.Discovery.{
  Discovery, ItemStatus, UrlItem, blamed, seen, DiscoveryConfig, queued, taken, hand_out,
  total_tracked, new_item, is_url_tracked, is_allowed, enqueue, next, pop_item, mark_visited,
  mark_failed, requeue_or_fail,
}
use seo_agent_rct.Discovery.Shape.{
  places, IsSound, queue_new-IsSound, put_visited-IsSound, put_failed-IsSound, put_pending-IsSound,
  drop_queue-IsSound, drop_pending-IsSound,
}

-- What `pop_item` leaves.
pub record Popped (url : Text) (d : Discovery) (item : UrlItem) (d' : Discovery) : Type 0 where
  pub sound : IsSound d'
  pub free : places d' url ≡ 0
  pub total : suc (total_tracked d') ≡ total_tracked d
  pub config : d'.config ≡ d.config
  pub from :
      ((Dict.get d.pending url ≡ some item)
        × (d' ≡ record d { pending = Dict.remove d.pending url }))
      ⊎ ((Dict.get d.queue url ≡ some item) × (d' ≡ record d { queue = Dict.remove d.queue url }))

pop_pending :
    (url : Text) (d : Discovery) (item : UrlItem)
    → IsSound d
    → Dict.get d.pending url ≡ some item
    → Popped url d item (record d { pending = Dict.remove d.pending url })
pop_pending url d item s h = record {
  sound = drop_pending-IsSound d url s;
  free = ground (arith, get-remove d.pending url url, s.once url);
  total = ground (arith, size-remove d.pending url s.pending);
  config = refl;
  from = inl (h, refl);
}

pop_queue :
    (url : Text) (d : Discovery) (item : UrlItem)
    → IsSound d
    → Dict.get d.queue url ≡ some item
    → Popped url d item (record d { queue = Dict.remove d.queue url })
pop_queue url d item s h = record {
  sound = drop_queue-IsSound d url s;
  free = ground (arith, get-remove d.queue url url, s.once url);
  total = ground (arith, size-remove d.queue url s.queue);
  config = refl;
  from = inr (h, refl);
}

-- The three ends of `pop_item`.
pub pop_item_cases :
    (url : Text) (d : Discovery)
    → IsSound d
    → (pop_item url d ≡ none)
      ⊎ ((item : UrlItem) × (d' : Discovery) × (pop_item url d ≡ some (item, d'))
          × Popped url d item d')
unfolding pop_item
pop_item_cases url d s = elim (Option-cases (Dict.get d.pending url)) [
  | inr (item, e) ↦ inr (
    item,
    record d { pending = Dict.remove d.pending url },
    rw (e, pop_item),
    pop_pending url d item s e,
  )
  | inl e ↦ elim (Option-cases (Dict.get d.queue url)) [
    | inr (item, f) ↦ inr (
      item,
      record d { queue = Dict.remove d.queue url },
      rw (e, pop_item) (rw f),
      pop_queue url d item s f,
    )
    | inl f ↦ inl (rw (e, pop_item) (rw f))
  ]
]

-- Sound, and within the limit on pages.
pub record IsBounded (d : Discovery) : Type 0 where
  pub sound : IsSound d
  pub within : total_tracked d ≤ d.config.max_pages

pub hand_out_cases :
    (now : ℕ) (d : Discovery) (q : Dict Text UrlItem)
    → (hand_out now d q ≡ (none, d))
      ⊎ ((url : Text) × (item : UrlItem) × (Dict.get q url ≡ some item)
          × (hand_out now d q ≡ (
            some (taken now item),
            record d {
              queue = Dict.remove d.queue url;
              pending = Dict.put d.pending url (taken now item);
            },
          )))
unfolding hand_out Dict.get
hand_out_cases now d [] = inl refl
hand_out_cases now d ((url, item) ∷ rest) = inr (url, item, ground arith, refl)

module _ (now : ℕ) (d : Discovery) (b : IsBounded d) where
  take_out-IsBounded :
      (url : Text) (item : UrlItem)
      → Dict.get d.queue url ≡ some item
      → IsBounded (record d {
        queue = Dict.remove d.queue url;
        pending = Dict.put d.pending url (taken now item);
      })
  take_out-IsBounded url item h =
      let p = pop_queue url d item b.sound h in
      record {
        sound =
            put_pending-IsSound (record d { queue = Dict.remove d.queue url }) url (taken now item)
              p.sound p.free;
        within = ground (arith, p.total, p.free, size-put d.pending url (taken now item), b.within);
      }

  pub next-IsBounded : IsBounded (next now d).1
  unfolding next
  next-IsBounded = elim (hand_out_cases now d d.queue) [
    | inl e ↦ rw e b
    | inr (url, item, h, e) ↦ rw e (take_out-IsBounded url item h)
  ]

tracked-places : (d : Discovery) (url : Text) → is_url_tracked d url ≡ false → places d url ≡ 0
unfolding is_url_tracked
tracked-places d url h = ground arith

-- What `enqueue` needs to take a URL, and what it does then.
pub record Enters (lib : UrlLib) (url : Text) (item : UrlItem) (d : Discovery)
    (result : Bool × Discovery) : Type 0 where
  pub free : places d url ≡ 0
  pub room : total_tracked d < d.config.max_pages
  pub shallow : item.depth ≤ d.config.max_depth
  pub allowed : is_allowed lib d.config.allowed_domains url ≡ true
  pub effect : result ≡ (true, record d { queue = Dict.put d.queue url item })

module _ (lib : UrlLib) (uid : Text) (now : ℕ) (url : Text) (depth : ℕ) (from : Option Text)
    (d : Discovery) where
  pub enqueue_cases :
      (enqueue lib uid now url depth from d ≡ (false, d))
      ⊎ Enters lib
          (normalize_url lib url)
          (new_item uid now (normalize_url lib url) depth from)
          d
          (enqueue lib uid now url depth from d)
  unfolding enqueue new_item
  enqueue_cases = elim (Bool-cases (is_empty (normalize_url lib url))) [
    | inl e ↦ inl (rw (e, enqueue))
    | inr a ↦ elim (Bool-cases (ltb d.config.max_depth depth)) [
      | inl e ↦ inl (rw (a, enqueue) (rw e))
      | inr b ↦ elim (Bool-cases (is_url_tracked d (normalize_url lib url))) [
        | inl e ↦ inl (rw (a, enqueue) (rw b (rw e)))
        | inr c ↦ elim (Bool-cases (leb d.config.max_pages (total_tracked d))) [
          | inl e ↦ inl (rw (a, enqueue) (rw b (rw c (rw e))))
          | inr r ↦
              elim (Bool-cases (is_allowed lib d.config.allowed_domains (normalize_url lib url))) [
                | inl e ↦ inr (record {
                  free = tracked-places d _ c;
                  room = ground arith;
                  shallow = ground arith;
                  allowed = e;
                  effect = rw (a, enqueue) (rw b (rw c (rw r (rw e))));
                })
                | inr e ↦ inl (rw (a, enqueue) (rw b (rw c (rw r (rw e)))))
              ]
        ]
      ]
    ]
  ]

  pub enqueue-IsBounded : IsBounded d → IsBounded (enqueue lib uid now url depth from d).1
  enqueue-IsBounded b = elim enqueue_cases [
    | inl e ↦ rw e b
    | inr n ↦ rw (n.effect) (record {
      sound = queue_new-IsSound d _ _ b.sound n.free;
      within = ground (
        arith,
        n.free,
        n.room,
        size-put d.queue (normalize_url lib url)
            (new_item uid now (normalize_url lib url) depth from),
      );
    })
  ]

requeue_or_fail-IsBounded :
    (url : Text) (item : UrlItem) (d : Discovery)
    → IsSound d
    → places d url ≡ 0
    → suc (total_tracked d) ≤ d.config.max_pages
    → IsBounded (requeue_or_fail url item d)
unfolding requeue_or_fail
requeue_or_fail-IsBounded url item d s free room =
    elim (Bool-cases (ltb item.attempts d.config.retry)) [
      | inl again ↦ rw again (record {
        sound = queue_new-IsSound d url _ s free;
        within = ground (arith, size-put d.queue url (record item { status = queued }));
      })
      | inr last ↦ rw last (record {
        sound = put_failed-IsSound d url _ s free;
        within = ground (arith, size-put d.failed url (record item { status = ItemStatus.failed }));
      })
    ]

module _ (lib : UrlLib) (now : ℕ) (url : Text) (d : Discovery) (b : IsBounded d) where
  visited_with :
      (item : UrlItem) (d' : Discovery)
      → Popped (normalize_url lib url) d item d'
      → (item' : UrlItem)
      → IsBounded (record d' { visited = Dict.put d'.visited (normalize_url lib url) item' })
  visited_with item d' p item' = record {
    sound = put_visited-IsSound d' _ _ p.sound p.free;
    within = ground (
      arith,
      p.total,
      p.free,
      p.config,
      b.within,
      size-put d'.visited (normalize_url lib url) item',
    );
  }

  pub mark_visited-IsBounded :
      (code redirects : ℕ) → IsBounded (mark_visited lib now url code redirects d).1
  unfolding mark_visited
  mark_visited-IsBounded code redirects = elim (pop_item_cases (normalize_url lib url) d b.sound) [
    | inl e ↦ rw (e, mark_visited) b
    | inr (item, d', e, p) ↦
        rw (e, mark_visited) (visited_with item d' p (seen now code redirects item))
  ]

  pub mark_failed-IsBounded :
      (error : Text) (code : Option ℕ) → IsBounded (mark_failed lib now url error code d).1
  unfolding mark_failed
  mark_failed-IsBounded error code = elim (pop_item_cases (normalize_url lib url) d b.sound) [
    | inl e ↦ rw (e, mark_failed) b
    | inr (item, d', e, p) ↦
        rw (e, mark_failed)
          (requeue_or_fail-IsBounded (normalize_url lib url) (blamed now error code item) d' p.sound
            p.free
            (omega (arith, p.total, ap (λ (c : DiscoveryConfig). c.max_pages) p.config, b.within)))
  ]
