-- ===== src/Queue/Answers.antt =====
-- What a call of `pop_next_job` of backend/queue.py hands out while Redis answers.
use seo_agent_rct.Prelude.{
  ℕ, suc, ◌%◌, ◌≡◌, ◌⊎◌, inl, inr, refl, sym, ◌∙◌, ap, Bool, true, false, Option, none, some, List,
  [], ◌∷◌, ◌++◌, All, ◌==◌, if◌then◌else◌, arith, Bool-cases, subst,
}
use seo_agent_rct.Text.{Text, is_empty}
use seo_agent_rct.Queue.{
  Level, high, normal, low, plain, Payload, QueueLib, JobQueue, is_redis_active, lpop_first,
  fair_round, or_standard, pop_from_redis, handed, pop_next_job,
}

abbrev pub place : Level → ℕ
place high = 0
place normal = 1
place low = 2
place plain = 3

abbrev pub head : List Text → Option Text
head [] = none
head (t ∷ ts) = some t

abbrev pub tail : List Text → List Text
tail [] = []
tail (t ∷ ts) = ts

-- What the program relies on in Redis while it answers, of the lists that its state holds.
pub record IsRedis {S Q : Type 0} (lib : QueueLib S Q) (list : S → Level → List Text) : Type 0 where
  pub rpush-runs :
      (k : Level) (t : Text) (s : S)
      → (s' : S) × (lib.rpush k t s ≡ (true, s'))
        × ((j : Level)
            → list s' j ≡ (if place k == place j then list s j ++ (t ∷ []) else list s j))
  pub lpop-runs :
      (k : Level) (s : S)
      → (s' : S) × (lib.lpop k s ≡ (some (head (list s k)), s'))
        × ((j : Level) → list s' j ≡ (if place k == place j then tail (list s j) else list s j))
  pub blpop-skip :
      (k : Level) (ks : List Level) (s : S) → list s k ≡ [] → lib.blpop (k ∷ ks) s ≡ lib.blpop ks s
  pub blpop-take :
      (k : Level) (ks : List Level) (s : S) (t : Text) (ts : List Text)
      → list s k ≡ t ∷ ts
      → lib.blpop (k ∷ ks) s ≡ lib.lpop k s
  pub sadd_job-runs :
      (g : Text) (j : ℕ) (s : S)
      → (s' : S) × (lib.sadd_job g j s ≡ (true, s')) × ((k : Level) → list s' k ≡ list s k)
  pub sadd_group-runs :
      (g : Text) (s : S)
      → (s' : S) × (lib.sadd_group g s ≡ (true, s')) × ((k : Level) → list s' k ≡ list s k)

module _ {S Q : Type 0} (lib : QueueLib S Q) (list : S → Level → List Text)
    (redis : IsRedis lib list) where
  -- An item that `json` reads.
  abbrev pub IsItem : Text → Type 0
  IsItem t = (is_empty t ≡ false) × ((p : Payload) × (lib.loads t ≡ some p))

  abbrev pub IsClean : S → Type 0
  IsClean s = (k : Level) → All IsItem (list s k)

  -- Redis is used and connected, and its items are jobs.
  pub record IsReady (q : JobQueue S Q) : Type 0 where
    pub used : q.use_redis_queue ≡ true
    pub connected : q.redis_connected ≡ true
    pub clean : IsClean q.redis

  tail-All : (ts : List Text) → All IsItem ts → All IsItem (tail ts)
  tail-All [] h = tt
  tail-All (t ∷ ts) h = h.1

  cut-All : (b : Bool) (ts : List Text) → All IsItem ts → All IsItem (if b then tail ts else ts)
  cut-All true ts h = tail-All ts h
  cut-All false ts h = h

  -- Taking the first item of a list.
  record Taken (k : Level) (s : S) (t : Text) (ts : List Text) (r : Option (Option Text) × S)
      : Type 0 where
    state : S
    runs : r ≡ (some (some t), state)
    clean : IsClean state
    rest : list state k ≡ ts
    others : (j : Level) → (place k == place j) ≡ false → list state j ≡ list s j

  lpop-Taken :
      (k : Level) (s : S) (t : Text) (ts : List Text)
      → IsClean s
      → list s k ≡ t ∷ ts
      → Taken k s t ts (lib.lpop k s)
  lpop-Taken k s t ts c e =
      let (s', runs, lists) = redis.lpop-runs k s in
      let same : (place k == place k) ≡ true = ground arith in
      record {
        state = s';
        runs = rw (runs, e) refl;
        clean =
            λ j. subst (All IsItem) (sym (lists j)) (cut-All (place k == place j) (list s j) (c j));
        rest = lists k ∙ rw (same, e) refl;
        others = λ j d. ground (arith, lists j, d);
      }

  -- Taking an item while `n` is the first one of `normal`: it is that one, or `normal` keeps its
  -- items and the call was not a fifth one.
  record Gives (count : ℕ) (n : Text) (ns : List Text) (r : Option (Option Text) × S) : Type 0 where
    item : Text
    state : S
    runs : r ≡ (some (some item), state)
    clean : IsClean state
    reads : (p : Payload) × (lib.loads item ≡ some p)
    moves :
        (item ≡ n) × (list state normal ≡ ns)
        ⊎ ((count % 5 == 0) ≡ false) × (list state normal ≡ n ∷ ns)

  first-IsItem :
      (k : Level) (s : S) (t : Text) (ts : List Text) → IsClean s → list s k ≡ t ∷ ts → IsItem t
  first-IsItem k s t ts c e = (subst (All IsItem) e (c k)).0

  List-cases : (ts : List Text) → (ts ≡ []) ⊎ ((u : Text) × (us : List Text) × (ts ≡ u ∷ us))
  List-cases [] = inl refl
  List-cases (u ∷ us) = inr (u, us, refl)

  lpop_first_full :
      (k : Level) (ks : List Level) (s s' : S) (t : Text)
      → lib.lpop k s ≡ (some (some t), s')
      → is_empty t ≡ false
      → lpop_first lib (k ∷ ks) s ≡ (some (some t), s')
  unfolding lpop_first
  lpop_first_full k ks s s' t e full = rw (lpop_first, e, full) (ap (λ r. (some (some t), r.1)) e)

  fifth-Gives :
      (count : ℕ) (s : S) (n : Text) (ns : List Text)
      → IsClean s
      → list s normal ≡ n ∷ ns
      → (count % 5 == 0) ≡ true
      → Gives count n ns (pop_from_redis lib count s)
  unfolding fair_round or_standard
  fifth-Gives count s n ns c e f =
      let t = lpop-Taken normal s n ns c e in
      let (full, item) = first-IsItem normal s n ns c e in
      record {
        item = n;
        state = t.state;
        runs =
            rw
              (
                fair_round,
                f,
                lpop_first_full normal (low ∷ plain ∷ high ∷ []) s t.state n t.runs full,
              )
              refl;
        clean = t.clean;
        reads = item;
        moves = inl (refl, t.rest);
      }

  other-Gives :
      (count : ℕ) (s : S) (n : Text) (ns : List Text)
      → IsClean s
      → list s normal ≡ n ∷ ns
      → (count % 5 == 0) ≡ false
      → Gives count n ns (pop_from_redis lib count s)
  unfolding fair_round or_standard
  other-Gives count s n ns c e f = elim (List-cases (list s high)) [
    | inl empty ↦
        let t = lpop-Taken normal s n ns c e in
        record {
          item = n;
          state = t.state;
          runs =
              rw
                (
                  pop_from_redis,
                  f,
                  redis.blpop-skip high (normal ∷ low ∷ plain ∷ []) s empty,
                  redis.blpop-take normal (low ∷ plain ∷ []) s n ns e,
                )
                t.runs;
          clean = t.clean;
          reads = (first-IsItem normal s n ns c e).1;
          moves = inl (refl, t.rest);
        }
    | inr (h, hs, full) ↦
        let t = lpop-Taken high s h hs c full in
        record {
          item = h;
          state = t.state;
          runs =
              rw (fair_round, f, redis.blpop-take high (normal ∷ low ∷ plain ∷ []) s h hs full)
                t.runs;
          clean = t.clean;
          reads = (first-IsItem high s h hs c full).1;
          moves = inr (f, t.others normal refl ∙ e);
        }
  ]

  pop_from_redis-Gives :
      (count : ℕ) (s : S) (n : Text) (ns : List Text)
      → IsClean s
      → list s normal ≡ n ∷ ns
      → Gives count n ns (pop_from_redis lib count s)
  pop_from_redis-Gives count s n ns c e = elim (Bool-cases (count % 5 == 0)) [
    | inl f ↦ fifth-Gives count s n ns c e f
    | inr f ↦ other-Gives count s n ns c e f
  ]

  -- A call of `pop_next_job`.
  pub record Hands (q : JobQueue S Q) (n : Text) (ns : List Text) : Type 0 where
    pub job : Payload
    pub after : JobQueue S Q
    pub runs : pop_next_job lib q ≡ (some job, after)
    pub ready : IsReady after
    pub counted : after.pop_counter ≡ suc q.pop_counter
    pub moves :
        (lib.loads n ≡ some job) × (list after.redis normal ≡ ns)
        ⊎ ((suc q.pop_counter % 5 == 0) ≡ false) × (list after.redis normal ≡ n ∷ ns)

  pub is_redis_active_ready : (q : JobQueue S Q) → IsReady q → is_redis_active lib q ≡ (true, q)
  unfolding is_redis_active
  is_redis_active_ready q r = let u = r.used in let c = r.connected in ground arith

  pub pop_next_job-Hands :
      (q : JobQueue S Q) (n : Text) (ns : List Text)
      → IsReady q
      → list q.redis normal ≡ n ∷ ns
      → Hands q n ns
  unfolding pop_next_job handed
  pop_next_job-Hands q n ns r e =
      let g = pop_from_redis-Gives (suc q.pop_counter) q.redis n ns r.clean e in
      let (p, reads) = g.reads in
      record {
        job = p;
        after = record q { redis = g.state; pop_counter = suc q.pop_counter };
        runs = rw (pop_next_job, is_redis_active_ready q r, g.runs, handed, reads) refl;
        ready = record { used = r.used; connected = r.connected; clean = g.clean };
        counted = refl;
        moves = elim g.moves [
          | inl (same, rest) ↦ inl (ap lib.loads (sym same) ∙ reads, rest)
          | inr (f, rest) ↦ inr (f, rest)
        ];
      }
