-- ===== src/Discovery/Attempts.antt =====
-- What holds of the items of `URLDiscoveryService`: each stands under its own URL, within the depth
-- limit, with the status of its dictionary, and is handed out `max(1, retry)` times at most.
use seo_agent_rct.Prelude.{ℕ, suc, ◌≤◌, ◌≡◌, inl, inr, refl, Option, arith, Bool-cases, ltb, max}
use seo_agent_rct.Dict
use seo_agent_rct.Dict.{Dict}
use seo_agent_rct.Dict.Everywhere.{Everywhere, Everywhere-put, Everywhere-remove}
use seo_agent_rct.Text.{Text, text_key, UrlLib, normalize_url}
use seo_agent_rct.Discovery.{
  Discovery, ItemStatus, queued, UrlItem, DiscoveryConfig, taken, seen, blamed, new_item, enqueue,
  next, mark_visited, mark_failed, requeue_or_fail,
}
use seo_agent_rct.Discovery.Invariant.{
  IsBounded, enqueue_cases, hand_out_cases, Popped, pop_item_cases,
}

-- An item under a URL in the dictionary of a status, with at most `most` attempts.
pub record IsItem (config : DiscoveryConfig) (status : ItemStatus) (most : ℕ) (url : Text)
    (item : UrlItem) : Type 0 where
  pub own_url : item.url ≡ url
  pub shallow : item.depth ≤ config.max_depth
  pub status_fits : item.status ≡ status
  pub tries : item.attempts ≤ most

-- A queued item may still be handed out once more, so it has one attempt less.
pub record HasItems (d : Discovery) : Type 0 where
  pub queue :
      Everywhere
        (λ url item.
          IsItem d.config queued
            (max 1 d.config.retry)
            url
            (record item { attempts = suc item.attempts }))
        d.queue
  pub pending : Everywhere (IsItem d.config ItemStatus.pending (max 1 d.config.retry)) d.pending
  pub visited : Everywhere (IsItem d.config ItemStatus.visited (max 1 d.config.retry)) d.visited
  pub failed :
      Everywhere
        (λ url item.
          IsItem d.config ItemStatus.failed (max 1 d.config.retry) url item
          × (d.config.retry ≤ item.attempts))
        d.failed

module _ (lib : UrlLib) (uid : Text) (now : ℕ) (url : Text) (depth : ℕ) (from : Option Text)
    (d : Discovery) (h : HasItems d) where
  pub enqueue-HasItems : HasItems (enqueue lib uid now url depth from d).1
  unfolding new_item
  enqueue-HasItems = elim (enqueue_cases lib uid now url depth from d) [
    | inl e ↦ rw e h
    | inr n ↦ rw (n.effect) (record {
      queue =
          Everywhere-put _ d.queue _ _ h.queue (record {
            own_url = refl;
            shallow = n.shallow;
            status_fits = refl;
            tries = omega arith;
          });
      pending = h.pending;
      visited = h.visited;
      failed = h.failed;
    })
  ]

module _ (now : ℕ) (d : Discovery) (h : HasItems d) where
  pub next-HasItems : HasItems (next now d).1
  unfolding next
  next-HasItems = elim (hand_out_cases now d d.queue) [
    | inl e ↦ rw e h
    | inr (url, item, there, e) ↦
        let i = h.queue url item there in
        rw e (record {
          queue = Everywhere-remove _ d.queue url h.queue;
          pending = Everywhere-put _ d.pending url (taken now item) h.pending (record {
            own_url = i.own_url;
            shallow = i.shallow;
            status_fits = refl;
            tries = i.tries;
          });
          visited = h.visited;
          failed = h.failed;
        })
  ]

-- What is known of an item that has been taken out of its dictionary.
record IsTaken (config : DiscoveryConfig) (url : Text) (item : UrlItem) : Type 0 where
  own_url : item.url ≡ url
  shallow : item.depth ≤ config.max_depth
  tries : item.attempts ≤ max 1 config.retry

module _ (url : Text) (d : Discovery) (h : HasItems d) where
  drop_pending : HasItems (record d { pending = Dict.remove d.pending url })
  drop_pending = record {
    queue = h.queue;
    pending = Everywhere-remove _ d.pending url h.pending;
    visited = h.visited;
    failed = h.failed;
  }

  drop_queue : HasItems (record d { queue = Dict.remove d.queue url })
  drop_queue = record {
    queue = Everywhere-remove _ d.queue url h.queue;
    pending = h.pending;
    visited = h.visited;
    failed = h.failed;
  }

  Popped-HasItems :
      (item : UrlItem) (d' : Discovery)
      → Popped url d item d'
      → HasItems d' × IsTaken d'.config url item
  Popped-HasItems item d' p = elim (p.from) [
    | inl (there, e) ↦
        let i = h.pending url item there in
        rw e (drop_pending, record { own_url = i.own_url; shallow = i.shallow; tries = i.tries })
    | inr (there, e) ↦
        let i = h.queue url item there in
        rw e (
          drop_queue,
          record { own_url = i.own_url; shallow = i.shallow; tries = omega (arith, i.tries) },
        )
  ]

requeue_or_fail-HasItems :
    (url : Text) (item : UrlItem) (d : Discovery)
    → HasItems d
    → IsTaken d.config url item
    → HasItems (requeue_or_fail url item d)
unfolding requeue_or_fail
requeue_or_fail-HasItems url item d h i = elim (Bool-cases (ltb item.attempts d.config.retry)) [
  | inl again ↦ rw again (record {
    queue =
        Everywhere-put _ d.queue url (record item { status = queued }) h.queue
          (record {
            own_url = i.own_url;
            shallow = i.shallow;
            status_fits = refl;
            tries = ground arith;
          });
    pending = h.pending;
    visited = h.visited;
    failed = h.failed;
  })
  | inr last ↦ rw last (record {
    queue = h.queue;
    pending = h.pending;
    visited = h.visited;
    failed =
        Everywhere-put _ d.failed url (record item { status = ItemStatus.failed }) h.failed
          (
            record {
              own_url = i.own_url;
              shallow = i.shallow;
              status_fits = refl;
              tries = i.tries;
            },
            ground arith,
          );
  })
]

module _ (lib : UrlLib) (now : ℕ) (url : Text) (d : Discovery) (b : IsBounded d)
    (h : HasItems d) where
  put_seen :
      (item item' : UrlItem) (d' : Discovery)
      → HasItems d'
      → IsItem d'.config ItemStatus.visited (max 1 d'.config.retry) (normalize_url lib url) item'
      → HasItems (record d' { visited = Dict.put d'.visited (normalize_url lib url) item' })
  put_seen item item' d' g i = record {
    queue = g.queue;
    pending = g.pending;
    visited = Everywhere-put _ d'.visited _ item' g.visited i;
    failed = g.failed;
  }

  pub mark_visited-HasItems :
      (code redirects : ℕ) → HasItems (mark_visited lib now url code redirects d).1
  unfolding mark_visited
  mark_visited-HasItems code redirects = elim (pop_item_cases (normalize_url lib url) d b.sound) [
    | inl e ↦ rw (e, mark_visited) h
    | inr (item, d', e, p) ↦
        let (g, i) = Popped-HasItems (normalize_url lib url) d h item d' p in
        rw (e, mark_visited)
          (put_seen item (seen now code redirects item) d' g (record {
            own_url = i.own_url;
            shallow = i.shallow;
            status_fits = refl;
            tries = i.tries;
          }))
  ]

  pub mark_failed-HasItems :
      (error : Text) (code : Option ℕ) → HasItems (mark_failed lib now url error code d).1
  unfolding mark_failed
  mark_failed-HasItems error code = elim (pop_item_cases (normalize_url lib url) d b.sound) [
    | inl e ↦ rw (e, mark_failed) h
    | inr (item, d', e, p) ↦
        let (g, i) = Popped-HasItems (normalize_url lib url) d h item d' p in
        rw (e, mark_failed)
          (requeue_or_fail-HasItems (normalize_url lib url) (blamed now error code item) d' g
            (record { own_url = i.own_url; shallow = i.shallow; tries = i.tries }))
  ]
