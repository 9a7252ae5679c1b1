-- ===== src/Jobs/Store.antt =====
-- The rows of the table `jobs` and the job queries of backend/database/crud.py. The database is the
-- dictionary of its rows by id. A time is a whole number of seconds, and `now` is the clock that
-- an operation reads. The `_async` twin of a query has the same body and is the same function.
use seo_agent_rct.Prelude.{
  ℕ, suc, ◌+◌, String, Bool, true, false, ◌&&◌, Option, none, some, List, ltb, ◌==◌, if◌then◌else◌,
  keep, String_discrete, nat_key, ite, ℕ_discrete,
}
use seo_agent_rct.Dict
use seo_agent_rct.Dict.{Dict}
use seo_agent_rct.Json.{Json}

-- The texts of the column `status`. `other` is any text that is not one of the five.
pub data Status : Type 0 where
  pending running completed failed cancelled : Status
  other : String → Status

pub Status-discrete : Discrete Status
Status-discrete = hlevel String_discrete

pub record Job : Type 0 where
  pub id : ℕ
  pub user_id : ℕ
  pub website_id : Option ℕ
  pub job_type : String
  pub status : Status
  pub progress : ℕ
  pub created_at : Option ℕ
  pub started_at : Option ℕ
  pub finished_at : Option ℕ
  pub updated_at : Option ℕ
  pub error_message : Option String
  pub result_reference : Option Json

-- The table, and the id that the database gives to the next row.
pub record Jobs : Type 0 where
  pub rows : Dict ℕ Job
  pub next_id : ℕ

-- `crud.create_job`
unfoldable pub create_job :
    ℕ → (user_id : ℕ) → (job_type : String) → Option ℕ → Option Json → Jobs → Job × Jobs
create_job now user_id job_type website_id result_reference db =
    let job : Job = record {
      id = db.next_id;
      user_id = user_id;
      website_id = website_id;
      job_type = job_type;
      status = pending;
      progress = 0;
      created_at = some now;
      started_at = none;
      finished_at = none;
      updated_at = some now;
      error_message = none;
      result_reference = result_reference;
    } in
    (job, record { rows = Dict.put db.rows db.next_id job; next_id = suc db.next_id })

-- `crud.get_job_by_id_unfiltered`
unfoldable pub get_job_by_id_unfiltered : Jobs → ℕ → Option Job
get_job_by_id_unfiltered db job_id = Dict.get db.rows job_id

abbrev pub owned_by : ℕ → Option Job → Option Job
owned_by user_id none = none
owned_by user_id (some job) = if job.user_id == user_id then some job else none

-- `crud.get_user_job_by_id`
unfoldable pub get_user_job_by_id : Jobs → (job_id user_id : ℕ) → Option Job
get_user_job_by_id db job_id user_id = owned_by user_id (Dict.get db.rows job_id)

-- The optional arguments of `update_job`.
pub record Change : Type 0 where
  pub new_status : Option Status
  pub new_progress : Option ℕ
  pub new_error : Option String
  pub new_result : Option Json
  pub new_started : Option ℕ
  pub new_finished : Option ℕ

abbrev pub no_change : Change
no_change = record {
  new_status = none;
  new_progress = none;
  new_error = none;
  new_result = none;
  new_started = none;
  new_finished = none;
}

-- `if value is not None: job.field = value`, for a column that may be NULL.
abbrev pub assign_some {ℓ} : {A : Type ℓ} → Option A → Option A → Option A
assign_some none old = old
assign_some (some new) old = some new

-- The value of a column after a flush. An assignment writes the column only if it changes the
-- value that the session has read, `read`; `row` is the value in the database.
abbrev flushed {ℓ} : {A : Type ℓ} → Discrete A → (read : A) → Option A → (row : A) → A
flushed dec read none row = row
flushed dec read (some new) row = ite (dec read new) row new

-- The row after the assignments and the flush of `crud.update_job` by a session that has read
-- `read` of it.
unfoldable pub write_row : ℕ → Change → (read row : Job) → Job
write_row now c read row = record row {
  status = flushed Status-discrete read.status c.new_status row.status;
  progress = flushed ℕ_discrete read.progress c.new_progress row.progress;
  error_message = assign_some c.new_error row.error_message;
  result_reference = assign_some c.new_result row.result_reference;
  started_at = assign_some c.new_started row.started_at;
  finished_at = assign_some c.new_finished row.finished_at;
  updated_at = some now;
}

-- `crud.update_job`, with the row as the session reads it again after the commit. `none` is the
-- error of a flush whose row is gone.
unfoldable pub update_job : ℕ → Change → (read : Job) → Jobs → Option (Job × Jobs)
update_job now c read db = elim (Dict.get db.rows read.id) [
  | none ↦ none
  | some row ↦ some (
    write_row now c read row,
    record db { rows = Dict.put db.rows read.id (write_row now c read row) },
  )
]

-- `crud.delete_job_instance`
unfoldable pub delete_job_instance : Job → Jobs → Jobs
delete_job_instance job db = record db { rows = Dict.remove db.rows job.id }

-- `crud.delete_user_job`
unfoldable pub delete_user_job : (job_id user_id : ℕ) → Jobs → Bool × Jobs
unfolding get_user_job_by_id delete_job_instance
delete_user_job job_id user_id db = elim (get_user_job_by_id db job_id user_id) [
  | none ↦ (false, db)
  | some job ↦ (true, delete_job_instance job db)
]

abbrev is_open : Status → Bool
is_open pending = true
is_open running = true
is_open _ = false

-- `updated_at < now - max_age`; a comparison with NULL does not hold.
abbrev is_before : ℕ → ℕ → Option ℕ → Bool
is_before now max_age none = false
is_before now max_age (some t) = ltb (t + max_age) now

unfoldable pub is_stale : ℕ → ℕ → Job → Bool
is_stale now max_age job = is_open job.status && is_before now max_age job.updated_at

-- `crud.get_stale_jobs`
unfoldable pub get_stale_jobs : ℕ → ℕ → Jobs → List Job
get_stale_jobs now max_age db = keep (is_stale now max_age) (Dict.values db.rows)
