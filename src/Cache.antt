-- ===== src/Cache.antt =====
-- `InMemoryTTLCache` of backend/cache.py. A time is a whole number of ticks of `time.time()`, and a
-- time to live is not negative. The lock makes an operation a single step; an operation that reads
-- the clock twice takes both readings.
mod Tests
pub mod Laws
use seo_agent_rct.Prelude.{
  ℕ, zero, suc, ◌+◌, String, Bool, true, false, Option, none, some, List, [], ◌∷◌, ltb, leb,
  if◌then◌else◌, string_key, length, keep, map, ◌&&◌,
}
use seo_agent_rct.Dict
use seo_agent_rct.Dict.{Dict}

-- The value and the time at which it expires.
pub record Entry (V : Type 0) : Type 0 where
  pub value : V
  pub expire_at : ℕ

pub record Cache (V : Type 0) : Type 0 where
  pub entries : Dict String (Entry V)
  pub default_ttl : ℕ
  pub max_size : ℕ

-- `ttl if ttl is not None else self._default_ttl`
abbrev pub ttl_or : Option ℕ → ℕ → ℕ
ttl_or none d = d
ttl_or (some ttl) d = ttl

module _ {V : Type 0} where
  -- `_prune_expired_unlocked`
  abbrev pub expired_keys : ℕ → Dict String (Entry V) → List String
  expired_keys now [] = []
  expired_keys now ((k, v) ∷ d) =
      let rest = expired_keys now d in if leb v.expire_at now then k ∷ rest else rest

  unfoldable pub remove_all : Dict String (Entry V) → List String → Dict String (Entry V)
  remove_all d [] = d
  remove_all d (k ∷ ks) = remove_all (Dict.remove d k) ks

  unfoldable pub prune : ℕ → Dict String (Entry V) → Dict String (Entry V)
  prune now d = remove_all d (expired_keys now d)

  -- What a lookup does with the entry that it finds.
  abbrev pub fresh_or_drop : ℕ → String → Cache V → Option (Entry V) → Option V × Cache V
  fresh_or_drop now key c none = (none, c)
  fresh_or_drop now key c (some v) =
      if ltb now v.expire_at
      then (some v.value, c)
      else (none, record c { entries = Dict.remove c.entries key })

  -- `get`
  unfoldable pub get : ℕ → String → Cache V → Option V × Cache V
  get now key c = fresh_or_drop now key c (Dict.get c.entries key)

  abbrev pub keep_found : String → Option V → Dict String V → Dict String V
  keep_found key none result = result
  keep_found key (some v) result = Dict.put result key v

  -- `get_many`, with the values found so far.
  unfoldable pub get_many : ℕ → List String → Dict String V → Cache V → Dict String V × Cache V
  get_many now [] result c = (result, c)
  get_many now (key ∷ keys) result c =
      let (v, c') = get now key c in get_many now keys (keep_found key v result) c'

  -- `del self._cache[next(iter(self._cache))]`: on an empty cache `next` raises.
  abbrev pub drop_oldest : Dict String (Entry V) → Option (Dict String (Entry V))
  drop_oldest [] = none
  drop_oldest ((k, v) ∷ d) = some (Dict.remove ((k, v) ∷ d) k)

  -- The room made for a new entry: the entries, and whether `set` goes on.
  unfoldable pub make_room : ℕ → ℕ → Dict String (Entry V) → Bool × Dict String (Entry V)
  make_room now max_size d =
      if ltb (Dict.size d) max_size
      then (true, d)
      else let d' = prune now d in
        if ltb (Dict.size d') max_size
        then (true, d')
        else elim (drop_oldest d') [ none ↦ (false, d') | some d'' ↦ (true, d'') ]

  -- `set`: the answer is whether it returns at all. `later` is the clock that the pruning reads.
  unfoldable pub set : (now later : ℕ) → String → V → Option ℕ → Cache V → Bool × Cache V
  set now later key value ttl c =
      let expire_at = now + ttl_or ttl c.default_ttl in
      let (room, d) = make_room later c.max_size c.entries in
      if room
      then (
        true,
        record c { entries = Dict.put d key (record { value = value; expire_at = expire_at }) },
      )
      else (false, record c { entries = d })

  -- `set_many`: `clock i` is what the `i`-th call of `set` reads. A call that raises ends the loop.
  unfoldable pub set_many :
      (clock : ℕ → ℕ × ℕ) → Dict String V → Option ℕ → Cache V → Bool × Cache V
  set_many clock [] ttl c = (true, c)
  set_many clock ((key, value) ∷ rest) ttl c =
      let (now, later) = clock 0 in
      let (returned, c') = set now later key value ttl c in
      let others = set_many (λ i. clock (suc i)) rest ttl c' in
      if returned then others else (false, c')

  -- `delete`
  unfoldable pub delete : String → Cache V → Cache V
  delete key c = record c { entries = Dict.remove c.entries key }

  -- `delete_many`
  unfoldable pub delete_many : List String → Cache V → ℕ × Cache V
  delete_many [] c = (0, c)
  delete_many (key ∷ keys) c =
      let here = Dict.contains c.entries key in
      let (count, c') = delete_many keys (record c { entries = Dict.remove c.entries key }) in
      (if here then suc count else count, c')

  abbrev matching : (String → Bool) → Dict String (Entry V) → List String
  matching fits [] = []
  matching fits ((k, v) ∷ d) = let rest = matching fits d in if fits k then k ∷ rest else rest

  -- `delete_pattern`; `fits` is `fnmatch` at the pattern.
  unfoldable pub delete_pattern : (fits : String → Bool) → Cache V → ℕ × Cache V
  delete_pattern fits c =
      let keys = matching fits c.entries in
      (length keys, record c { entries = remove_all c.entries keys })

  -- `clear`
  unfoldable pub clear : Cache V → Cache V
  clear c = record c { entries = [] }

  -- `size`
  abbrev pub count_fresh : ℕ → Dict String (Entry V) → ℕ
  count_fresh now [] = 0
  count_fresh now ((k, v) ∷ d) =
      let rest = count_fresh now d in if ltb now v.expire_at then suc rest else rest

  unfoldable pub size : ℕ → Cache V → ℕ
  size now c = count_fresh now c.entries
