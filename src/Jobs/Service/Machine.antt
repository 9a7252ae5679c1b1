-- ===== src/Jobs/Service/Machine.antt =====
-- The operations of `JobService` on a job of the user follow the state machine `next_status`.
use seo_agent_rct.Prelude.{
  ℕ, ◌≡◌, refl, String, Bool, true, false, Option, none, some, arith, nat_key, if◌then◌else◌,
}
use seo_agent_rct.Dict
use seo_agent_rct.Jobs.Store.{Status, Job, Change, write_row}
use seo_agent_rct.Jobs.Service.{
  World, Exceptions, by_id, guarded, start_job, update_progress, complete_job, fail_job, cancel_job,
  blocks_nothing, blocks_start, blocks_progress, blocks_complete, blocks_fail, cancellation,
  publish_job_update,
}
use seo_agent_rct.Jobs.Service.Effects.{IsKeyed, publish-LeavesDb, guarded_own}
use seo_agent_rct.Jobs.Service.Transitions.{
  Op, create, start, report, complete, fail, cancel, delete, perform, next_status, target,
}

abbrev pub is_delete : Op → Bool
is_delete (delete id) = true
is_delete _ = false

module _ {E : Type 0} (x : Exceptions E) (user : ℕ) where
  own_row :
      (now id : ℕ) (blocked : Status → Bool) (change : Job → Change) (error : Option String)
      (w : World) (job : Job)
      → IsKeyed w.db
      → Dict.get w.db.rows id ≡ some job
      → job.user_id ≡ user
      → Dict.get
          (guarded x now blocked change
            (λ job. publish_job_update job error)
            (by_id id)
            user
            w).1.db.rows
          id
        ≡ some (if blocked job.status then job else write_row now (change job) job job)
  own_row now id blocked change error w job keyed there mine =
      guarded_own x now blocked change (λ job. publish_job_update job error)
        (publish-LeavesDb error) id user w job keyed there mine

  ReachesStatus : Op → ℕ → World → Job → Type 0
  ReachesStatus op id w job =
      (job' : Job) × (Dict.get (perform x user op w).db.rows id ≡ some job')
      × (job'.status ≡ next_status op job.status)

  reaches :
      (op : Op) (id : ℕ) (w : World) (job : Job) (b : Bool) (job' : Job)
      → Dict.get (perform x user op w).db.rows id ≡ some (if b then job else job')
      → (b ≡ true → job.status ≡ next_status op job.status)
      → (b ≡ false → job'.status ≡ next_status op job.status)
      → ReachesStatus op id w job
  unfolding ReachesStatus
  reaches op id w job true job' e h k = (job, e, h refl)
  reaches op id w job false job' e h k = (job', e, k refl)

  reaches_own :
      (op : Op) (id : ℕ) (w : World) (job : Job)
      → IsKeyed w.db
      → target op ≡ some id
      → is_delete op ≡ false
      → Dict.get w.db.rows id ≡ some job
      → job.user_id ≡ user
      → ReachesStatus op id w job
  unfolding perform start_job update_progress complete_job fail_job cancel_job write_row
  reaches_own (create now job_type website_id ref) w id job keyed at d there mine = cc
  reaches_own (delete i) w id job keyed at d there mine = cc
  reaches_own (start now i) id w job keyed at d there mine =
      let e : id ≡ i = cc in
      rw e (
        reaches (start now i) i w job (blocks_start job.status) _
          (own_row now i _ _ none w job keyed (rw e at there) mine) (λ b. ground arith)
          (λ b. ground arith))
  reaches_own (report now i progress status) id w job keyed at d there mine =
      let e : id ≡ i = cc in
      rw e (
        reaches (report now i progress status) i w job (blocks_progress job.status) _
          (own_row now i _ _ none w job keyed (rw e at there) mine) (λ b. ground arith)
          (λ b. ground arith))
  reaches_own (complete now i result) id w job keyed at d there mine =
      let e : id ≡ i = cc in
      rw e (
        reaches (complete now i result) i w job (blocks_complete job.status) _
          (own_row now i _ _ none w job keyed (rw e at there) mine) (λ b. ground arith)
          (λ b. ground arith))
  reaches_own (fail now i message) id w job keyed at d there mine =
      let e : id ≡ i = cc in
      rw e (
        reaches (fail now i message) i w job (blocks_fail job.status) _
          (own_row now i _ _ (some message) w job keyed (rw e at there) mine) (λ b. ground arith)
          (λ b. ground arith))
  reaches_own (cancel now i) id w job keyed at d there mine =
      let e : id ≡ i = cc in
      rw e (
        reaches (cancel now i) i w job (blocks_nothing job.status) _
          (guarded_own x now blocks_nothing (λ job. cancellation now) (λ job w. w) (λ job w. refl) i
            user w job keyed (rw e at there) mine)
          (λ b. cc) (λ b. ground arith))

  -- On a table whose rows are keyed, an operation on a job of the user that names the job by its id, a
  -- deletion excepted, leaves the job with the status that the state machine gives, which is the one
  -- that a report of progress carries, if it carries one and the job has not ended.
  pub perform-status :
      (op : Op) (w : World) (id : ℕ) (job : Job)
      → IsKeyed w.db
      → target op ≡ some id
      → is_delete op ≡ false
      → Dict.get w.db.rows id ≡ some job
      → job.user_id ≡ user
      → (job' : Job) × (Dict.get (perform x user op w).db.rows id ≡ some job')
        × (job'.status ≡ next_status op job.status)
  unfolding ReachesStatus
  perform-status op w id job keyed at d there mine = reaches_own op id w job keyed at d there mine
