-- ===== src/Jobs/Service/Effects.antt =====
-- What an operation of `JobService` writes: at most one row, that of its job.
use seo_agent_rct.Prelude.{
  ℕ, ◌<◌, ◌≡◌, ◌⊎◌, inl, inr, refl, String, Bool, false, Option, some, arith, ℕ_discrete, nat_key,
  Option-cases, Bool-cases, if◌then◌else◌, ==_iff, ite,
}
use seo_agent_rct.Dict
use seo_agent_rct.Dict.Laws.{get-put}
use seo_agent_rct.Jobs.Store.{Status, Job, Jobs, Change, write_row, update_job, get_user_job_by_id}
use seo_agent_rct.Jobs.Service.{World, Exceptions, by_id, apply_change, guarded, publish_job_update}

-- Every row stands at its id, below the next id to be given.
pub record IsKeyed (db : Jobs) : Type 0 where
  pub id_at : (k : ℕ) (job : Job) → Dict.get db.rows k ≡ some job → job.id ≡ k
  pub below : (k : ℕ) (job : Job) → Dict.get db.rows k ≡ some job → k < db.next_id

-- `publish` leaves the table alone.
abbrev pub LeavesDb : (Job → World → World) → Type 0
LeavesDb publish = (job : Job) (w : World) → (publish job w).db ≡ w.db

pub publish-LeavesDb : (error : Option String) → LeavesDb (λ job. publish_job_update job error)
unfolding publish_job_update
publish-LeavesDb error job w = ground arith

-- The row `k` after a write to the job of row `k`.
pub data RowAfter (now user : ℕ) (blocked : Status → Bool) (change : Job → Change)
    (before after : Option Job) : Type 0 where
  untouched : after ≡ before → RowAfter now user blocked change before after
  written :
      (job : Job)
      → before ≡ some job
      → job.user_id ≡ user
      → blocked job.status ≡ false
      → after ≡ some (write_row now (change job) job job)
      → RowAfter now user blocked change before after

module _ {E : Type 0} (x : Exceptions E) (now : ℕ) (blocked : Status → Bool) (change : Job → Change)
    (publish : Job → World → World) (quiet : LeavesDb publish) where
  apply_change_rows :
      (job : Job) (w : World) (k : ℕ)
      → Dict.get w.db.rows job.id ≡ some job
      → Dict.get (apply_change x now (change job) publish job w).1.db.rows k
        ≡ ite
            (ℕ_discrete job.id k)
            (some (write_row now (change job) job job))
            (Dict.get w.db.rows k)
  unfolding apply_change update_job
  apply_change_rows job w k h =
      rw (h, apply_change, update_job) (rw quiet (get-put w.db.rows job.id k _))

  apply_change-next_id :
      (job : Job) (w : World)
      → (apply_change x now (change job) publish job w).1.db.next_id ≡ w.db.next_id
  unfolding apply_change update_job
  apply_change-next_id job w = elim (Option-cases (Dict.get w.db.rows job.id)) [
    | inl e ↦ rw (e, apply_change, update_job)
    | inr (row, e) ↦ rw (e, apply_change, update_job) (rw quiet)
  ]

  -- The cases of `guarded` at an id: nothing happens, or the change is applied to the row.
  guarded_cases :
      (id user : ℕ) (w : World)
      → ((guarded x now blocked change publish (by_id id) user w).1 ≡ w)
        ⊎ ((job : Job) × (Dict.get w.db.rows id ≡ some job)
            × (job.user_id ≡ user)
            × (blocked job.status ≡ false)
            × (guarded x now blocked change publish (by_id id) user w
                ≡ apply_change x now (change job) publish job w))
  unfolding guarded get_user_job_by_id
  guarded_cases id user w = ground arith

  pub guarded-next_id :
      (id user : ℕ) (w : World)
      → (guarded x now blocked change publish (by_id id) user w).1.db.next_id ≡ w.db.next_id
  guarded-next_id id user w = elim (guarded_cases id user w) [
    | inl e ↦ rw e
    | inr (job, there, mine, free, e) ↦ rw e (apply_change-next_id job w)
  ]

  pub guarded_rows :
      (id user : ℕ) (w : World) (k : ℕ)
      → IsKeyed w.db
      → RowAfter now user blocked change
          (Dict.get w.db.rows k)
          (Dict.get (guarded x now blocked change publish (by_id id) user w).1.db.rows k)
  guarded_rows id user w k keyed = elim (guarded_cases id user w) [
    | inl e ↦ rw e (untouched refl)
    | inr (job, there, mine, free, e) ↦
        let at : job.id ≡ id = keyed.id_at id job there in
        let rows = apply_change_rows job w k (simp at there) in
        elim (ℕ_discrete job.id k) [
          | yes same ↦ written job (ground arith) mine free (ground (arith, e))
          | no apart ↦ untouched (ground (arith, e))
        ]
  ]

  -- On a job of the user, the row after the operation.
  pub guarded_own :
      (id user : ℕ) (w : World) (job : Job)
      → IsKeyed w.db
      → Dict.get w.db.rows id ≡ some job
      → job.user_id ≡ user
      → Dict.get (guarded x now blocked change publish (by_id id) user w).1.db.rows id
        ≡ some (if blocked job.status then job else write_row now (change job) job job)
  unfolding guarded get_user_job_by_id
  guarded_own id user w job keyed there mine =
      let at : job.id ≡ id = keyed.id_at id job there in
      let rows = apply_change_rows job w id (ground arith) in
      elim (Bool-cases (blocked job.status)) [
        | inl stop ↦ rw (there, guarded) (rw ((==_iff _ _).1 mine) (rw stop there))
        | inr free ↦ rw (there, guarded) (rw ((==_iff _ _).1 mine) (rw free (ground arith)))
      ]
