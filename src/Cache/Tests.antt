-- ===== src/Cache/Tests.antt =====
-- A cache of two places that is full.
use seo_agent_rct.Prelude.{
  ℕ, ◌+◌, ◌≤◌, ◌<◌, ◌≡◌, refl, String, true, none, some, [], ◌∷◌, arith, string_key, if◌then◌else◌,
  ltb,
}
use seo_agent_rct.Dict
use seo_agent_rct.Dict.Laws.{get-put_self}
use seo_agent_rct.Cache.{Entry, Cache, get, set, ttl_or}
use seo_agent_rct.Cache.Laws.{set-size-le, get-set, get-fresh}

abbrev full_cache : Cache ℕ
full_cache = record {
  entries =
      ("user", record { value = 1; expire_at = 50 })
      ∷ ("site", record { value = 2; expire_at = 90 })
      ∷ [];
  default_ttl = 300;
  max_size = 2;
}

full_cache_takes :
    ((set 60 60 "rank" 3 none full_cache).0 ≡ true)
    × (Dict.size (set 60 60 "rank" 3 none full_cache).1.entries ≤ 2)
full_cache_takes = set-size-le 60 60 "rank" 3 none full_cache (omega arith) (omega arith)

get-set_example :
    let r = get 99 "rank" (set 60 60 "rank" 3 (some 40) full_cache).1 in
    let alive = ltb 99 (60 + ttl_or (some 40) 300) in
    (r.0 ≡ (if alive then some 3 else none)) × (Dict.contains r.1.entries "rank" ≡ alive)
get-set_example = get-set 60 60 99 "rank" 3 (some 40) full_cache (omega arith) (omega arith)

abbrev site_entry : Entry ℕ
site_entry = record { value = 2; expire_at = 90 }

abbrev site_cache : Cache ℕ
site_cache = record { entries = Dict.put [] "site" site_entry; default_ttl = 300; max_size = 2 }

site_is_read : (get 60 "site" site_cache).0 ≡ some 2
unfolding get
site_is_read = rw (get-put_self {K = String} [] "site" site_entry) refl

site_is_fresh :
    (v : Entry ℕ) × (Dict.get site_cache.entries "site" ≡ some v)
    × (v.value ≡ 2)
    × (60 < v.expire_at)
    × ((get 60 "site" site_cache).1 ≡ site_cache)
site_is_fresh = get-fresh 60 "site" 2 site_cache site_is_read
