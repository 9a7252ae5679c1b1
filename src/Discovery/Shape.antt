-- ===== src/Discovery/Shape.antt =====
-- Every operation of `URLDiscoveryService` keeps a URL in one of the four dictionaries at most.
use seo_agent_rct.Prelude.{ℕ, ◌+◌, ◌≤◌, ◌≡◌, Bool, true, false, arith}
use seo_agent_rct.Dict
use seo_agent_rct.Dict.{Dict}
use seo_agent_rct.Dict.Laws.{Distinct, Distinct-put, Distinct-remove, get-put, get-remove}
use seo_agent_rct.Text.{Text, text_key}
use seo_agent_rct.Discovery.{Discovery, UrlItem}

abbrev pub one_if : Bool → ℕ
one_if true = 1
one_if false = 0

-- In how many of the dictionaries a URL stands.
abbrev pub places : Discovery → Text → ℕ
places d url =
    one_if (Dict.contains d.queue url)
    + one_if (Dict.contains d.pending url)
    + one_if (Dict.contains d.visited url)
    + one_if (Dict.contains d.failed url)

-- A URL stands in one dictionary at most and no dictionary has a key twice.
pub record IsSound (d : Discovery) : Type 0 where
  pub once : (url : Text) → places d url ≤ 1
  pub queue : Distinct d.queue
  pub pending : Distinct d.pending
  pub visited : Distinct d.visited
  pub failed : Distinct d.failed

pub queue_new-IsSound :
    (d : Discovery) (url : Text) (item : UrlItem)
    → IsSound d
    → places d url ≡ 0
    → IsSound (record d { queue = Dict.put d.queue url item })
queue_new-IsSound d url item s h = record {
  once = λ k. ground (arith, get-put d.queue url k item, s.once k);
  queue = Distinct-put d.queue url item s.queue;
  pending = s.pending;
  visited = s.visited;
  failed = s.failed;
}

pub put_visited-IsSound :
    (d : Discovery) (url : Text) (item : UrlItem)
    → IsSound d
    → places d url ≡ 0
    → IsSound (record d { visited = Dict.put d.visited url item })
put_visited-IsSound d url item s h = record {
  once = λ k. ground (arith, get-put d.visited url k item, s.once k);
  queue = s.queue;
  pending = s.pending;
  visited = Distinct-put d.visited url item s.visited;
  failed = s.failed;
}

pub put_failed-IsSound :
    (d : Discovery) (url : Text) (item : UrlItem)
    → IsSound d
    → places d url ≡ 0
    → IsSound (record d { failed = Dict.put d.failed url item })
put_failed-IsSound d url item s h = record {
  once = λ k. ground (arith, get-put d.failed url k item, s.once k);
  queue = s.queue;
  pending = s.pending;
  visited = s.visited;
  failed = Distinct-put d.failed url item s.failed;
}

pub put_pending-IsSound :
    (d : Discovery) (url : Text) (item : UrlItem)
    → IsSound d
    → places d url ≡ 0
    → IsSound (record d { pending = Dict.put d.pending url item })
put_pending-IsSound d url item s h = record {
  once = λ k. ground (arith, get-put d.pending url k item, s.once k);
  queue = s.queue;
  pending = Distinct-put d.pending url item s.pending;
  visited = s.visited;
  failed = s.failed;
}

pub drop_queue-IsSound :
    (d : Discovery) (url : Text)
    → IsSound d
    → IsSound (record d { queue = Dict.remove d.queue url })
drop_queue-IsSound d url s = record {
  once = λ k. ground (arith, get-remove d.queue url k, s.once k);
  queue = Distinct-remove d.queue url s.queue;
  pending = s.pending;
  visited = s.visited;
  failed = s.failed;
}

pub drop_pending-IsSound :
    (d : Discovery) (url : Text)
    → IsSound d
    → IsSound (record d { pending = Dict.remove d.pending url })
drop_pending-IsSound d url s = record {
  once = λ k. ground (arith, get-remove d.pending url k, s.once k);
  queue = s.queue;
  pending = Distinct-remove d.pending url s.pending;
  visited = s.visited;
  failed = s.failed;
}
