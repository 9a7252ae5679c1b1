-- ===== src/Discovery.antt =====
-- `URLDiscoveryService` of backend/services/url_discovery_service.py: the four dictionaries of a
-- crawl, queue, pending, visited and failed. `now` is the clock that an operation reads, and `uid`
-- the identifier that `uuid4` gives to a new item.
mod Tests
pub mod Shape
pub mod Invariant
pub mod Attempts
pub mod Sessions
use seo_agent_rct.Prelude.{
  ℕ, zero, suc, ◌+◌, Bool, true, false, ◌||◌, Option, none, some, List, [], ◌∷◌, ◌++◌, map, ltb,
  leb, if◌then◌else◌,
}
use seo_agent_rct.Dict
use seo_agent_rct.Dict.{Dict}
use seo_agent_rct.Text.{
  Text, text_key, is_empty, equals, ends_with, ParsedUrl, UrlLib, normalize_url,
}

-- `timeout` is not read by the service.
pub record DiscoveryConfig : Type 0 where
  pub max_depth : ℕ
  pub max_pages : ℕ
  pub max_redirects : ℕ
  pub timeout : ℕ
  pub retry : ℕ
  pub allowed_domains : List Text

-- The strings of `URLItem.status`.
pub data ItemStatus : Type 0 where
  queued pending visited failed : ItemStatus

pub record UrlItem : Type 0 where
  pub id : Text
  pub url : Text
  pub depth : ℕ
  pub discovered_from : Option Text
  pub status : ItemStatus
  pub attempts : ℕ
  pub redirect_count : ℕ
  pub error : Option Text
  pub status_code : Option ℕ
  pub added_at : ℕ
  pub updated_at : ℕ

pub record Discovery : Type 0 where
  pub seed_url : Text
  pub config : DiscoveryConfig
  pub queue : Dict Text UrlItem
  pub pending : Dict Text UrlItem
  pub visited : Dict Text UrlItem
  pub failed : Dict Text UrlItem

-- `URLItem.__init__`
unfoldable pub new_item : (uid : Text) → ℕ → Text → ℕ → Option Text → UrlItem
new_item uid now url depth discovered_from = record {
  id = uid;
  url = url;
  depth = depth;
  discovered_from = discovered_from;
  status = queued;
  attempts = 0;
  redirect_count = 0;
  error = none;
  status_code = none;
  added_at = now;
  updated_at = now;
}

-- `is_url_tracked`
unfoldable pub is_url_tracked : Discovery → Text → Bool
is_url_tracked d url =
    Dict.contains d.queue url
    || Dict.contains d.pending url
    || Dict.contains d.visited url
    || Dict.contains d.failed url

abbrev pub total_tracked : Discovery → ℕ
total_tracked d = Dict.size d.queue + Dict.size d.pending + Dict.size d.visited + Dict.size d.failed

-- The item that `next` hands out.
abbrev pub taken : ℕ → UrlItem → UrlItem
taken now item = record item {
  status = ItemStatus.pending;
  attempts = suc item.attempts;
  updated_at = now;
}

-- `next`, with the entries of the queue at hand.
unfoldable pub hand_out : ℕ → Discovery → Dict Text UrlItem → Option UrlItem × Discovery
hand_out now d [] = (none, d)
hand_out now d ((url_key, item) ∷ rest) = (
  some (taken now item),
  record d {
    queue = Dict.remove d.queue url_key;
    pending = Dict.put d.pending url_key (taken now item);
  },
)

-- `next`
unfoldable pub next : ℕ → Discovery → Option UrlItem × Discovery
unfolding hand_out
next now d = hand_out now d d.queue

-- `self.pending.pop(url, None) or self.queue.pop(url, None)`
unfoldable pub pop_item : Text → Discovery → Option (UrlItem × Discovery)
pop_item url d = elim (Dict.get d.pending url) [
  | some item ↦ some (item, record d { pending = Dict.remove d.pending url })
  | none ↦ elim (Dict.get d.queue url) [
    | some item ↦ some (item, record d { queue = Dict.remove d.queue url })
    | none ↦ none
  ]
]

-- `if status_code: item.status_code = status_code`
abbrev pub or_code : Option ℕ → Option ℕ → Option ℕ
or_code none old = old
or_code (some zero) old = old
or_code (some (suc c)) old = some (suc c)

-- The item after a visit.
abbrev pub seen : ℕ → ℕ → ℕ → UrlItem → UrlItem
seen now status_code redirect_count item = record item {
  status = ItemStatus.visited;
  status_code = some status_code;
  redirect_count = redirect_count;
  updated_at = now;
}

-- The item after a failure.
abbrev pub blamed : ℕ → Text → Option ℕ → UrlItem → UrlItem
blamed now error status_code item = record item {
  error = some error;
  status_code = or_code status_code item.status_code;
  updated_at = now;
}

-- The second half of `mark_failed`: back to the queue, or to the failed ones.
unfoldable pub requeue_or_fail : Text → UrlItem → Discovery → Discovery
requeue_or_fail url item d =
    if ltb item.attempts d.config.retry
    then record d { queue = Dict.put d.queue url (record item { status = queued }) }
    else record d { failed = Dict.put d.failed url (record item { status = ItemStatus.failed }) }

module _ (lib : UrlLib) where
  -- `any(hostname == d or hostname.endswith(f".{d}") for d in allowed_domains)`
  unfoldable pub matches_any : Text → List Text → Bool
  matches_any hostname [] = false
  matches_any hostname (d ∷ ds) =
      equals hostname d || ends_with hostname (b'.' ∷ d) || matches_any hostname ds

  -- The test of `allowed_domains` in `enqueue`.
  unfoldable pub is_allowed : List Text → Text → Bool
  unfolding matches_any
  is_allowed [] url = true
  is_allowed (d ∷ ds) url = elim (lib.urlparse url) [
    | none ↦ false
    | some parsed ↦ matches_any (lib.lower parsed.netloc) (d ∷ ds)
  ]

  -- `enqueue`
  unfoldable pub enqueue : (uid : Text) → ℕ → Text → ℕ → Option Text → Discovery → Bool × Discovery
  unfolding is_url_tracked new_item
  enqueue uid now url depth discovered_from d =
      let normalized : Text = normalize_url lib url in
      if is_empty normalized
      then (false, d)
      else if ltb d.config.max_depth depth
      then (false, d)
      else if is_url_tracked d normalized
      then (false, d)
      else if leb d.config.max_pages (total_tracked d)
      then (false, d)
      else if is_allowed d.config.allowed_domains normalized
      then (
        true,
        record d {
          queue = Dict.put d.queue normalized (new_item uid now normalized depth discovered_from);
        },
      )
      else (false, d)

  abbrev resolved : Text → Text → Text
  resolved source_url raw = elim (lib.urljoin source_url raw) [ none ↦ raw | some url ↦ url ]

  -- `add_discovered_urls`; `uids i` is the identifier for the `i`-th URL.
  unfoldable pub add_discovered_urls :
      (uids : ℕ → Text) → ℕ → List Text → ℕ → Text → Discovery → ℕ × Discovery
  add_discovered_urls uids now [] current_depth source_url d = (0, d)
  add_discovered_urls uids now (raw ∷ urls) current_depth source_url d =
      let (added, d') =
        enqueue (uids 0) now (resolved source_url raw) (current_depth + 1) (some source_url) d in
      let (count, d'') =
        add_discovered_urls (λ i. uids (suc i)) now urls current_depth source_url d' in
      (if added then suc count else count, d'')

  -- `__init__`
  unfoldable pub init : (uid : Text) → ℕ → Text → DiscoveryConfig → Discovery
  init uid now seed_url config =
      let seed : Text = normalize_url lib seed_url in
      let d : Discovery = record {
        seed_url = seed;
        config = config;
        queue = [];
        pending = [];
        visited = [];
        failed = [];
      } in
      if is_empty seed then d else (enqueue uid now seed 0 none d).1

  -- `mark_visited`
  unfoldable pub mark_visited : ℕ → Text → ℕ → ℕ → Discovery → Bool × Discovery
  unfolding pop_item
  mark_visited now url status_code redirect_count d =
      let normalized : Text = normalize_url lib url in
      elim (pop_item normalized d) [
        | none ↦ (false, d)
        | some (item, d') ↦ (
          true,
          record d' {
            visited = Dict.put d'.visited normalized (seen now status_code redirect_count item);
          },
        )
      ]

  -- `mark_failed`
  unfoldable pub mark_failed : ℕ → Text → Text → Option ℕ → Discovery → Bool × Discovery
  unfolding pop_item requeue_or_fail
  mark_failed now url error status_code d =
      let normalized : Text = normalize_url lib url in
      elim (pop_item normalized d) [
        | none ↦ (false, d)
        | some (item, d') ↦
            (true, requeue_or_fail normalized (blamed now error status_code item) d')
      ]
