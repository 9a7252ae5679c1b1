-- ===== src/Cache/Laws.antt =====
-- What the cache gives back, and how large it grows.
use seo_agent_rct.Prelude.{
  ℕ, ◌+◌, ◌≤◌, ◌<◌, ◌≡◌, ◌⊎◌, refl, String, true, Option, none, some, List, [], ◌∷◌, arith, ltb,
  if◌then◌else◌, string_key, Option-cases, Bool-cases, inl, inr,
}
use seo_agent_rct.Dict
use seo_agent_rct.Dict.{Dict}
use seo_agent_rct.Dict.Laws.{
  get-put_self, get-remove_self, size-put, size-remove-le, size-remove-lt,
}
use seo_agent_rct.Cache.{
  Entry, Cache, get, set, make_room, prune, remove_all, expired_keys, drop_oldest, ttl_or,
}

module _ {V : Type 0} where
  size-remove_all-le :
      (d : Dict String (Entry V)) (ks : List String) → Dict.size (remove_all d ks) ≤ Dict.size d
  unfolding remove_all
  size-remove_all-le d [] = omega arith
  size-remove_all-le d (k ∷ ks) =
      omega (arith, size-remove_all-le (Dict.remove d k) ks, size-remove-le d k)

  -- There was no entry, or the oldest is gone.
  drop_oldest-cases :
      (d : Dict String (Entry V))
      → (Dict.size d ≡ 0)
        ⊎ ((d' : Dict String (Entry V)) × (drop_oldest d ≡ some d') × (Dict.size d' < Dict.size d))
  unfolding Dict.get
  drop_oldest-cases [] = inl refl
  drop_oldest-cases ((k, v) ∷ d) =
      inr (Dict.remove ((k, v) ∷ d) k, refl, ground (arith, size-remove-lt ((k, v) ∷ d) k))

  make_room-lt :
      (now max_size : ℕ) (d : Dict String (Entry V))
      → 1 ≤ max_size
      → Dict.size d ≤ max_size
      → ((make_room now max_size d).0 ≡ true) × (Dict.size (make_room now max_size d).1 < max_size)
  unfolding make_room prune
  make_room-lt now max_size d h le =
      let pruned = size-remove_all-le d (expired_keys now d) in
      elim (drop_oldest-cases (remove_all d (expired_keys now d))) [
        | inl e ↦ ground (arith, e, pruned)
        | inr (d', e, lt) ↦ ground (arith, e, lt, pruned)
      ]

  -- A cache of at least one place always takes a new value, and a cache within its limit stays
  -- within it.
  pub set-size-le :
      (now later : ℕ) (key : String) (value : V) (ttl : Option ℕ) (c : Cache V)
      → 1 ≤ c.max_size
      → Dict.size c.entries ≤ c.max_size
      → ((set now later key value ttl c).0 ≡ true)
        × (Dict.size (set now later key value ttl c).1.entries ≤ c.max_size)
  unfolding set
  set-size-le now later key value ttl c h le = ground (
    arith,
    make_room-lt later c.max_size c.entries h le,
    size-put (make_room later c.max_size c.entries).1 key
        (record { value = value; expire_at = now + ttl_or ttl c.default_ttl }),
  )

  set_entries :
      (now later : ℕ) (key : String) (value : V) (ttl : Option ℕ) (c : Cache V)
      → (make_room later c.max_size c.entries).0 ≡ true
      → (set now later key value ttl c).1 ≡ record c {
        entries =
            Dict.put
              (make_room later c.max_size c.entries).1
              key
              (record { value = value; expire_at = now + ttl_or ttl c.default_ttl });
      }
  unfolding set
  set_entries now later key value ttl c room = ground (arith, room)

  get_present :
      (t : ℕ) (key : String) (v : Entry V) (c : Cache V)
      → Dict.get c.entries key ≡ some v
      → ((get t key c).0 ≡ (if ltb t v.expire_at then some v.value else none))
        × (Dict.contains (get t key c).1.entries key ≡ ltb t v.expire_at)
  unfolding get
  get_present t key v c h = elim (Bool-cases (ltb t v.expire_at)) [
    | inl e ↦ rw h (rw (e, h) (refl, refl))
    | inr e ↦ rw h (rw (e, get-remove_self c.entries key) (refl, refl))
  ]

  -- After a value is set in a cache within its limit of at least one place, reading its key gives
  -- the value back strictly before its time to live is over, and afterwards gives nothing and
  -- removes the entry, whatever was in the cache before.
  pub get-set :
      (now later t : ℕ) (key : String) (value : V) (ttl : Option ℕ) (c : Cache V)
      → 1 ≤ c.max_size
      → Dict.size c.entries ≤ c.max_size
      → let r = get t key (set now later key value ttl c).1 in
        let alive = ltb t (now + ttl_or ttl c.default_ttl) in
        (r.0 ≡ (if alive then some value else none)) × (Dict.contains r.1.entries key ≡ alive)
  get-set now later t key value ttl c h le =
      let (room, lt) = make_room-lt later c.max_size c.entries h le in
      rw (set_entries now later key value ttl c room)
        (get_present t key _ _ (get-put_self (make_room later c.max_size c.entries).1 key _))

  -- A value that is read had not expired: it is the value of an entry of the key whose time had not
  -- come, and reading it changes nothing.
  pub get-fresh :
      (now : ℕ) (key : String) (value : V) (c : Cache V)
      → (get now key c).0 ≡ some value
      → (v : Entry V) × (Dict.get c.entries key ≡ some v)
        × (v.value ≡ value)
        × (now < v.expire_at)
        × ((get now key c).1 ≡ c)
  unfolding get
  get-fresh now key value c h = elim (Option-cases (Dict.get c.entries key)) [
    | inl e ↦ absurd (ground (arith, e, h))
    | inr (v, e) ↦ (v, e, ground (arith, e, h), ground (arith, e, h), ground (arith, e, h))
  ]
