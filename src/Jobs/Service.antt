-- ===== src/Jobs/Service.antt =====
-- `JobService` of backend/services/job_service.py. An operation runs without interference; what
-- other threads do between two operations is a matter of the runner.
pub mod Effects
pub mod Transitions
pub mod Machine
pub mod Lifecycle
use text.Mathlib.Text.{◌==◌ as str_eq}
use seo_agent_rct.Prelude.{
  ℕ, zero, suc, String, Bool, true, false, Option, none, some, List, [], ◌∷◌, ◌++◌, ltb, ◌==◌,
  if◌then◌else◌, ℤ, clamp,
}
use seo_agent_rct.Dict
use seo_agent_rct.Json.{Json, Fields, obj, field, end}
use seo_agent_rct.Jobs.Store.{
  Status, pending, running, completed, failed, cancelled, other, Job, Jobs, Change, no_change,
  get_user_job_by_id, get_job_by_id_unfiltered, update_job, get_stale_jobs, create_job,
  delete_user_job,
}

-- A message of the channel `job:{id}:updates`, without its time stamp.
pub record Update : Type 0 where
  pub job_id : ℕ
  pub status : Status
  pub progress : ℕ
  pub error_message : Option String

-- The table, whether a Redis client is at hand, the messages published, the two counters of the metrics
-- registry that retries move, and the delays slept before them.
pub record World : Type 0 where
  pub db : Jobs
  pub redis_up : Bool
  pub published : List Update
  pub retry_attempts : ℕ
  pub retry_failures : ℕ
  pub slept : List ℕ

-- What SQLAlchemy raises when the row of an instance is gone, the `TypeError` of a call without a
-- required argument, and the text of an exception. `E` has what `except Exception` catches; the
-- exceptions beyond it, which end the thread, are not modelled.
pub record Exceptions (E : Type 0) : Type 0 where
  pub row_gone : E
  pub missing_argument : E
  pub str : E → String

pub data Result (E A : Type 0) : Type 0 where
  ok : A → Result E A
  raise : E → Result E A

-- The argument `job` of the operations: an id, or an instance with the attributes that its session
-- has read. A commit expires the instance, and each operation that commits then reads it again, for
-- its log line and its message; so what an operation returns is an instance with its attributes.
pub data Handle : Type 0 where
  by_id : ℕ → Handle
  loaded : Job → Handle

-- `JobService._publish_job_update`
unfoldable pub publish_job_update : Job → Option String → World → World
publish_job_update job error_message w =
    if w.redis_up
    then record w {
      published =
          w.published
          ++ record {
            job_id = job.id;
            status = job.status;
            progress = job.progress;
            error_message = error_message;
          }
            ∷ [];
    }
    else w

-- `{"payload": payload} if payload else None`
abbrev pub initial_ref : Option Fields → Option Json
initial_ref none = none
initial_ref (some end) = none
initial_ref (some (field name value rest)) =
    some (obj (field "payload" (obj (field name value rest)) end))

-- `JobService.create_job`
unfoldable pub create_job_with :
    ℕ → (user_id : ℕ) → (job_type : String) → Option ℕ → Option Fields → World → Job × World
create_job_with now user_id job_type website_id payload w =
    let (job, db) = create_job now user_id job_type website_id (initial_ref payload) w.db in
    (job, record w { db = db })

-- The lists of statuses in which an operation does nothing.
abbrev pub blocks_start : Status → Bool
blocks_start running = true
blocks_start completed = true
blocks_start cancelled = true
blocks_start failed = true
blocks_start _ = false

abbrev pub blocks_progress : Status → Bool
blocks_progress cancelled = true
blocks_progress completed = true
blocks_progress failed = true
blocks_progress _ = false

abbrev pub blocks_complete : Status → Bool
blocks_complete cancelled = true
blocks_complete failed = true
blocks_complete _ = false

abbrev pub blocks_fail : Status → Bool
blocks_fail cancelled = true
blocks_fail completed = true
blocks_fail _ = false

abbrev pub blocks_nothing : Status → Bool
blocks_nothing _ = false

abbrev is_cancelled_status : Status → Bool
is_cancelled_status cancelled = true
is_cancelled_status _ = false

-- The status that `is_cancelled` reads counts as cancelled if there is no row.
abbrev status_is_cancelled : Option Job → Bool
status_is_cancelled none = true
status_is_cancelled (some job) = is_cancelled_status job.status

-- `JobService.is_cancelled`
unfoldable pub is_cancelled : ℕ → World → Bool
is_cancelled job_id w = status_is_cancelled (get_job_by_id_unfiltered w.db job_id)

-- `JobService.delete_job`
unfoldable pub delete_job : (job_id user_id : ℕ) → World → Bool × World
delete_job job_id user_id w =
    let (found, db) = delete_user_job job_id user_id w.db in (found, record w { db = db })

-- `status or job.status`
abbrev pub or_else : Option Status → Status → Status
or_else none old = old
or_else (some (other text)) old = if str_eq text "" then old else other text
or_else (some new) old = new

-- The arguments of `crud.update_job` in the operations.
abbrev pub starting : ℕ → Change
starting now = record no_change {
  new_status = some running;
  new_progress = some 10;
  new_started = some now;
}

abbrev pub reporting : ℤ → Option Status → Job → Change
reporting progress status job = record no_change {
  new_status = some (or_else status job.status);
  new_progress = some (clamp 100 progress);
}

abbrev pub completing : ℕ → Option Json → Change
completing now result_reference = record no_change {
  new_status = some completed;
  new_progress = some 100;
  new_finished = some now;
  new_result = result_reference;
}

abbrev pub failing : ℕ → String → Change
failing now error_message = record no_change {
  new_status = some failed;
  new_finished = some now;
  new_error = some error_message;
}

abbrev pub cancellation : ℕ → Change
cancellation now = record no_change { new_status = some cancelled; new_finished = some now }

abbrev pub timed_out : ℕ → Change
timed_out now = record no_change {
  new_status = some failed;
  new_finished = some now;
  new_error = some "Job timed out (stale execution cleanup)";
}

-- `JobService._resolve_job`
unfoldable pub resolve_job : Handle → (user_id : ℕ) → Jobs → Option Job
resolve_job (by_id job_id) user_id db = get_user_job_by_id db job_id user_id
resolve_job (loaded job) user_id db = some job

module _ {E : Type 0} (x : Exceptions E) where
  -- The second half of an operation: `crud.update_job`, then the publication if there is one.
  unfoldable pub apply_change :
      ℕ → Change → (publish : Job → World → World) → Job → World → Result E (Option Job) × World
  apply_change now c publish job w = elim (update_job now c job w.db) [
    | none ↦ (raise x.row_gone, w)
    | some (job', db) ↦ (ok (some job'), publish job' (record w { db = db }))
  ]

  -- The common shape: a job that is not found, or whose status is among `blocked`, is returned as
  -- it is.
  unfoldable pub guarded :
      ℕ
      → (blocked : Status → Bool) → (change : Job → Change) → (publish : Job → World → World)
      → Handle
      → ℕ
      → World
      → Result E (Option Job) × World
  unfolding resolve_job
  guarded now blocked change publish handle user_id w = elim (resolve_job handle user_id w.db) [
    | none ↦ (ok none, w)
    | some job ↦
        if blocked job.status
        then (ok (some job), w)
        else apply_change now (change job) publish job w
  ]

  -- `JobService.start_job`
  unfoldable pub start_job : ℕ → Handle → ℕ → World → Result E (Option Job) × World
  unfolding guarded
  start_job now handle user_id w =
      guarded now blocks_start (λ job. starting now) (λ job. publish_job_update job none) handle
        user_id w

  -- `JobService.update_progress`
  unfoldable pub update_progress :
      ℕ → Handle → ℕ → ℤ → Option Status → World → Result E (Option Job) × World
  unfolding guarded
  update_progress now handle user_id progress status w =
      guarded now blocks_progress (reporting progress status) (λ job. publish_job_update job none)
        handle user_id w

  -- `JobService.complete_job`
  unfoldable pub complete_job : ℕ → Handle → ℕ → Option Json → World → Result E (Option Job) × World
  unfolding guarded
  complete_job now handle user_id result_reference w =
      guarded now blocks_complete (λ job. completing now result_reference)
        (λ job. publish_job_update job none) handle user_id w

  -- `JobService.fail_job`
  unfoldable pub fail_job : ℕ → Handle → ℕ → String → World → Result E (Option Job) × World
  unfolding guarded
  fail_job now handle user_id error_message w =
      guarded now blocks_fail (λ job. failing now error_message)
        (λ job. publish_job_update job (some error_message)) handle user_id w

  -- `JobService.cancel_job`: no status blocks it, and nothing is published.
  unfoldable pub cancel_job : ℕ → Handle → ℕ → World → Result E (Option Job) × World
  unfolding guarded
  cancel_job now handle user_id w =
      guarded now blocks_nothing (λ job. cancellation now) (λ job w. w) handle user_id w

  -- The loop of `cleanup_stale_jobs`.
  unfoldable pub cleanup_loop : ℕ → List Job → ℕ → World → Result E ℕ × World
  cleanup_loop now [] count w = (ok count, w)
  cleanup_loop now (job ∷ jobs) count w = elim (update_job now (timed_out now) job w.db) [
    | none ↦ (raise x.row_gone, w)
    | some (_, db) ↦ cleanup_loop now jobs (suc count) (record w { db = db })
  ]

  -- `JobService.cleanup_stale_jobs`
  unfoldable pub cleanup_stale_jobs : ℕ → ℕ → World → Result E ℕ × World
  unfolding cleanup_loop
  cleanup_stale_jobs now max_age w = cleanup_loop now (get_stale_jobs now max_age w.db) 0 w
