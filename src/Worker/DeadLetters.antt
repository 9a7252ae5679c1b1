-- ===== src/Worker/DeadLetters.antt =====
-- `DeadLetterQueue` of backend/dead_letter_queue.py. An operation of Redis gives `none` or `false`
-- where the client raises; a letter's stack trace, time and extra data are left out.
use seo_agent_rct.Prelude.{
  ℕ, Bool, true, false, ◌&&◌, Option, none, some, List, [], ◌∷◌, ◌++◌, length, take, String,
  if◌then◌else◌,
}

pub record DeadLetter : Type 0 where
  pub job_id : ℕ
  pub job_type : String
  pub user_id : ℕ
  pub failure_reason : String
  pub retry_count : ℕ

-- The Redis client on its state `R`, with the list of letters as JSON read and written.
pub record LetterLib (R : Type 0) : Type 0 where
  pub connects : R → Bool
  pub rpush : DeadLetter → R → Bool × R
  pub llen : R → Option ℕ × R
  pub lrange : (limit : ℕ) → R → Option (List DeadLetter) × R
  pub delete : R → Bool × R

pub record DeadLetterQueue (R : Type 0) : Type 0 where
  pub enable_dead_letter_queue : Bool
  pub redis_url_set : Bool
  pub redis_connected : Bool
  pub redis : R
  pub local_dlq : List DeadLetter
  pub dead_letter_jobs : ℕ

module _ {R : Type 0} (lib : LetterLib R) where
  -- `is_redis_active`, with the new connection that it may make
  unfoldable pub is_dlq_active : DeadLetterQueue R → Bool × DeadLetterQueue R
  is_dlq_active d =
      if d.enable_dead_letter_queue && d.redis_connected
      then (true, d)
      else if d.enable_dead_letter_queue && d.redis_url_set
      then (lib.connects d.redis, record d { redis_connected = lib.connects d.redis })
      else (false, d)

  abbrev offline : R → DeadLetterQueue R → DeadLetterQueue R
  offline r d = record d { redis = r; redis_connected = false }

  -- The local store at the end of `push_to_dlq`, and the gauge of the metrics registry.
  abbrev pub store_letter : DeadLetter → DeadLetterQueue R → DeadLetterQueue R
  store_letter letter d = record d {
    local_dlq = d.local_dlq ++ (letter ∷ []);
    dead_letter_jobs = length (d.local_dlq ++ (letter ∷ []));
  }

  -- `push_to_dlq`
  unfoldable pub push_to_dlq : DeadLetter → DeadLetterQueue R → DeadLetterQueue R
  push_to_dlq letter d =
      let (active, d') = is_dlq_active d in
      if active
      then (let (pushed, r) = lib.rpush letter d'.redis in
          let (count, r') = lib.llen r in
          if pushed
          then (elim count [
            | none ↦ store_letter letter (offline r' d')
            | some n ↦ record d' { redis = r'; dead_letter_jobs = n }
          ])
          else store_letter letter (offline r d'))
      else store_letter letter d'

  -- `get_dlq_jobs`
  unfoldable pub get_dlq_jobs : ℕ → DeadLetterQueue R → List DeadLetter × DeadLetterQueue R
  get_dlq_jobs limit d =
      let (active, d') = is_dlq_active d in
      if active
      then (let (items, r) = lib.lrange limit d'.redis in
          elim items [
            | none ↦ (take limit d'.local_dlq, offline r d')
            | some letters ↦ (letters, record d' { redis = r })
          ])
      else (take limit d'.local_dlq, d')

  -- `get_dlq_count`
  unfoldable pub get_dlq_count : DeadLetterQueue R → ℕ × DeadLetterQueue R
  get_dlq_count d =
      let (active, d') = is_dlq_active d in
      if active
      then (let (count, r) = lib.llen d'.redis in
          elim count [
            | none ↦ (length d'.local_dlq, offline r d')
            | some n ↦ (n, record d' { redis = r })
          ])
      else (length d'.local_dlq, d')

  abbrev clear_local : DeadLetterQueue R → ℕ × DeadLetterQueue R
  clear_local d = (length d.local_dlq, record d { local_dlq = []; dead_letter_jobs = 0 })

  -- `clear_dlq`
  unfoldable pub clear_dlq : DeadLetterQueue R → ℕ × DeadLetterQueue R
  clear_dlq d =
      let (active, d') = is_dlq_active d in
      if active
      then (let (count, r) = lib.llen d'.redis in
          let (deleted, r') = lib.delete r in
          elim count [
            | none ↦ clear_local (offline r d')
            | some n ↦
                if deleted
                then (n, record d' { redis = r'; local_dlq = []; dead_letter_jobs = 0 })
                else clear_local (offline r' d')
          ])
      else clear_local d'
