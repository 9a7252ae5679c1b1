-- ===== src/Queue.antt =====
-- `RedisJobQueue` of backend/queue.py: jobs in lists of Redis by priority, with a queue in memory
-- where Redis fails. An operation of Redis gives `none` or `false` where the client raises.
mod Tests
pub mod Answers
pub mod Entries
pub mod Fairness
use seo_agent_rct.Prelude.{
  String, ℕ, zero, suc, ◌+◌, ◌%◌, ℤ, pos, negsuc, Bool, true, false, ◌&&◌, Option, none, some, List,
  [], ◌∷◌, ◌++◌, length, ltb, leb, ◌==◌, if◌then◌else◌,
}
use seo_agent_rct.Dict
use seo_agent_rct.Dict.{Dict}
use seo_agent_rct.Text.{Text, text_key, equals, truthy, is_empty}

-- The suffix of a list's key; `plain` is the name of the queue by itself.
pub data Level : Type 0 where
  high normal low plain : Level

-- A priority is a word or a number.
pub data Priority : Type 0 where
  word : Text → Priority
  score : ℤ → Priority

-- `params` is the text of the parameters.
pub record Payload : Type 0 where
  pub job_type : String
  pub job_id : ℕ
  pub user_id : ℕ
  pub priority : Level
  pub priority_val : ℤ
  pub group_id : Option Text
  pub trace_id : Text
  pub params : Text
  pub enqueued_at : ℕ

-- The Redis client on its state `S`, `queue.PriorityQueue` on its state `Q`, `json`, `str.lower` and
-- the text of an identifier. `put` gives `none` where it raises.
pub record QueueLib (S Q : Type 0) : Type 0 where
  pub connects : S → Bool
  pub rpush : Level → Text → S → Bool × S
  pub lpop : Level → S → Option (Option Text) × S
  pub blpop : List Level → S → Option (Option Text) × S
  pub llen : Level → S → Option ℕ × S
  pub sadd_job : (group_id : Text) → ℕ → S → Bool × S
  pub sadd_group : Text → S → Bool × S
  pub smembers : (group_id : Text) → S → Option (List ℕ) × S
  pub delete_group : Text → S → Bool × S
  pub put : ℤ → ℕ → Payload → Q → Option Q
  pub get : Q → Option (Payload × Q)
  pub qsize : Q → ℕ
  pub dumps : Payload → Text
  pub loads : Text → Option Payload
  pub lower : Text → Text
  pub trace_of : ℕ → Text

pub record JobQueue (S Q : Type 0) : Type 0 where
  pub use_redis_queue : Bool
  pub redis_connected : Bool
  pub redis : S
  pub in_memory_queue : Q
  pub in_memory_groups : Dict Text (List ℕ)
  pub pop_counter : ℕ

-- The string that `enqueue` returns: where the job went.
pub data Dispatched : Type 0 where
  to_redis to_thread : ℕ → Dispatched

abbrev high_word : Text
high_word = b'h' ∷ b'i' ∷ b'g' ∷ b'h' ∷ []

abbrev normal_word : Text
normal_word = b'n' ∷ b'o' ∷ b'r' ∷ b'm' ∷ b'a' ∷ b'l' ∷ []

abbrev low_word : Text
low_word = b'l' ∷ b'o' ∷ b'w' ∷ []

-- `priority <= 3`, `priority >= 8` and the rest
unfoldable pub level_of_score : ℤ → Level
level_of_score (negsuc n) = high
level_of_score (pos n) = if leb n 3 then high else if leb 8 n then low else normal

unfoldable pub level_of_word : Text → Level × ℤ
level_of_word w =
    if equals w high_word
    then (high, pos 1)
    else if equals w normal_word
    then (normal, pos 5)
    else if equals w low_word
    then (low, pos 10)
    else (normal, pos 5)

module _ {S Q : Type 0} (lib : QueueLib S Q) where
  -- `parse_priority`
  unfoldable pub parse_priority : Priority → Level × ℤ
  parse_priority (score n) = (level_of_score n, n)
  parse_priority (word w) = level_of_word (lib.lower w)

  -- `is_redis_active`, with the new connection that it may make
  unfoldable pub is_redis_active : JobQueue S Q → Bool × JobQueue S Q
  is_redis_active q =
      if q.use_redis_queue && q.redis_connected
      then (true, q)
      else if q.use_redis_queue
      then (lib.connects q.redis, record q { redis_connected = lib.connects q.redis })
      else (false, q)

  -- `self._redis_connected = False`, in the state that the client left
  abbrev pub disconnected : S → JobQueue S Q → JobQueue S Q
  disconnected s q = record q { redis = s; redis_connected = false }

  -- The payload of a job.
  abbrev pub payload_of :
      (now : ℕ) → String → ℕ → ℕ → Priority → Option Text → Option Text → Text → Payload
  payload_of now job_type job_id user_id priority group_id trace_id params = record {
    job_type = job_type;
    job_id = job_id;
    user_id = user_id;
    priority = (parse_priority priority).0;
    priority_val = (parse_priority priority).1;
    group_id = group_id;
    trace_id = elim (truthy trace_id) [ none ↦ lib.trace_of job_id | some t ↦ t ];
    params = params;
    enqueued_at = now;
  }

  -- The calls of Redis that enter a job; `false` where one raises.
  unfoldable pub push_to_redis : Payload → S → Bool × S
  push_to_redis p s =
      let (pushed, s') = lib.rpush p.priority (lib.dumps p) s in
      if pushed
      then (elim (truthy p.group_id) [
        | none ↦ (true, s')
        | some g ↦
            let (added, s'') = lib.sadd_job g p.job_id s' in
            if added then lib.sadd_group g s'' else (false, s'')
      ])
      else (false, s')

  abbrev pub add_member : ℕ → List ℕ → List ℕ
  add_member j [] = j ∷ []
  add_member j (k ∷ ks) = let rest = add_member j ks in if k == j then k ∷ ks else k ∷ rest

  abbrev members : Option (List ℕ) → List ℕ
  members none = []
  members (some js) = js

  abbrev pub group_in_memory : Option Text → ℕ → Dict Text (List ℕ) → Dict Text (List ℕ)
  group_in_memory group_id job_id groups = elim (truthy group_id) [
    | none ↦ groups
    | some g ↦ Dict.put groups g (add_member job_id (members (Dict.get groups g)))
  ]

  -- The fallback of `enqueue`; `none` where `put` raises.
  unfoldable pub push_to_memory : Payload → JobQueue S Q → Option Dispatched × JobQueue S Q
  push_to_memory p q = elim (lib.put p.priority_val p.job_id p q.in_memory_queue) [
    | none ↦ (none, q)
    | some mem ↦ (
      some (to_thread p.job_id),
      record q {
        in_memory_queue = mem;
        in_memory_groups = group_in_memory p.group_id p.job_id q.in_memory_groups;
      },
    )
  ]

  -- `enqueue`, from the payload on
  unfoldable pub enqueue_payload : Payload → JobQueue S Q → Option Dispatched × JobQueue S Q
  enqueue_payload p q =
      let (active, q') = is_redis_active q in
      if active
      then (let (ok, s) = push_to_redis p q'.redis in
          if ok
          then (some (to_redis p.job_id), record q' { redis = s })
          else push_to_memory p (disconnected s q'))
      else push_to_memory p q'

  -- `enqueue`
  unfoldable pub enqueue :
      (now : ℕ)
      → String
      → ℕ
      → ℕ
      → Priority
      → Option Text
      → Option Text
      → Text
      → JobQueue S Q
      → Option Dispatched × JobQueue S Q
  enqueue now job_type job_id user_id priority group_id trace_id params q =
      enqueue_payload (payload_of now job_type job_id user_id priority group_id trace_id params) q

  -- `lpop` of the first list that gives an item
  unfoldable pub lpop_first : List Level → S → Option (Option Text) × S
  lpop_first [] s = (some none, s)
  lpop_first (k ∷ ks) s =
      let (answer, s') = lib.lpop k s in
      let rest = lpop_first ks s' in
      elim answer [
        | none ↦ (none, s')
        | some raw ↦ elim (truthy raw) [ none ↦ rest | some item ↦ (some (some item), s') ]
      ]

  -- On each fifth call the other lists come before `high`.
  unfoldable pub fair_round : (pop_count : ℕ) → S → Option (Option Text) × S
  fair_round pop_count s =
      if pop_count % 5 == 0 then lpop_first (normal ∷ low ∷ plain ∷ high ∷ []) s else (some none, s)

  -- The standard order of the lists, where there is no item yet.
  unfoldable pub or_standard : Option (Option Text) × S → Option (Option Text) × S
  or_standard (none, s) = (none, s)
  or_standard (some (some item), s) = (some (some item), s)
  or_standard (some none, s) = lib.blpop (high ∷ normal ∷ low ∷ plain ∷ []) s

  -- The item that Redis gives.
  abbrev pub pop_from_redis : (pop_count : ℕ) → S → Option (Option Text) × S
  pop_from_redis pop_count s = or_standard (fair_round pop_count s)

  unfoldable pub pop_from_memory : JobQueue S Q → Option Payload × JobQueue S Q
  pop_from_memory q = elim (lib.get q.in_memory_queue) [
    | none ↦ (none, q)
    | some (p, mem) ↦ (some p, record q { in_memory_queue = mem })
  ]

  -- What Redis gave, read; an item that does not read is an exception like the others.
  unfoldable pub handed : Option (Option Text) × S → JobQueue S Q → Option Payload × JobQueue S Q
  handed (none, s) q = (none, disconnected s q)
  handed (some none, s) q = pop_from_memory (record q { redis = s })
  handed (some (some item), s) q = elim (lib.loads item) [
    | none ↦ (none, disconnected s q)
    | some p ↦ (some p, record q { redis = s })
  ]

  -- `pop_next_job`
  unfoldable pub pop_next_job : JobQueue S Q → Option Payload × JobQueue S Q
  pop_next_job q =
      let (active, q') = is_redis_active q in
      if active
      then (let counted = suc q'.pop_counter in
          handed (pop_from_redis counted q'.redis) (record q' { pop_counter = counted }))
      else pop_from_memory q'

  -- `pop_batch`
  unfoldable pub pop_batch : (batch_size : ℕ) → JobQueue S Q → List Payload × JobQueue S Q
  pop_batch zero q = ([], q)
  pop_batch (suc n) q =
      let (job, q') = pop_next_job q in
      let (jobs, q'') = pop_batch n q' in elim job [ none ↦ ([], q') | some p ↦ (p ∷ jobs, q'') ]
