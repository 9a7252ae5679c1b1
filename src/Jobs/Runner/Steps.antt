-- ===== src/Jobs/Runner/Steps.antt =====
-- What one operation of a runner does to the row of its job.
use seo_agent_rct.Prelude.{ℕ, ◌≡◌, subst, Bool, false, Option, some, String, nat_key}
use seo_agent_rct.Dict
use seo_agent_rct.Dict.Laws.{get-put_self}
use seo_agent_rct.Jobs.Store.{Job, Change, Status, write_row, update_job}
use seo_agent_rct.Jobs.Service.{
  World, Exceptions, ok, loaded, guarded, apply_change, publish_job_update,
}
use seo_agent_rct.Jobs.Service.Effects.{publish-LeavesDb}
use seo_agent_rct.Jobs.Runner.{Step, go, act}

-- An operation that goes on with the row `next` of the job `id`.
pub record GoesOn {E : Type 0} (id : ℕ) (next : Job) (result : Step E Job × World) : Type 0 where
  pub step : result.0 ≡ go next
  pub row : Dict.get result.1.db.rows id ≡ some next
  pub same_id : next.id ≡ id

module _ {E : Type 0} (x : Exceptions E) (clock : ℕ → ℕ) (env : ℕ → World → World) (id user i : ℕ)
    (blocked : Status → Bool) (change : Job → Change) (error : Option String) where
  pub guarded_loaded :
      (l row : Job) (w : World)
      → l.id ≡ id
      → row.id ≡ id
      → Dict.get w.db.rows id ≡ some row
      → blocked l.status ≡ false
      → let r =
          guarded x
            (clock i)
            blocked
            change
            (λ job. publish_job_update job error)
            (loaded l)
            user
            w in
        (r.0 ≡ ok (some (write_row (clock i) (change l) l row)))
        × (Dict.get r.1.db.rows id ≡ some (write_row (clock i) (change l) l row))
  unfolding guarded apply_change update_job
  guarded_loaded l row w lid rid there free =
      let at : Dict.get w.db.rows l.id ≡ some row = rw lid there in
      (
        rw (free, guarded, apply_change, update_job, at),
        rw (free, guarded, apply_change, update_job, at)
            (rw publish-LeavesDb (
              subst
                (λ k.
                  Dict.get (Dict.put w.db.rows l.id (write_row (clock i) (change l) l row)) k
                  ≡ some (write_row (clock i) (change l) l row))
                lid (get-put_self w.db.rows l.id _))),
      )

  pub act-GoesOn :
      (l row : Job) (w : World)
      → l.id ≡ id
      → row.id ≡ id
      → Dict.get (env i w).db.rows id ≡ some row
      → blocked l.status ≡ false
      → GoesOn id (write_row (clock i) (change l) l row) (
          act env i
            (guarded x
              (clock i)
              blocked
              change
              (λ job. publish_job_update job error)
              (loaded l)
              user)
            l
            w)
  unfolding act write_row
  act-GoesOn l row w lid rid there free =
      let (r, at) = guarded_loaded l row (env i w) lid rid there free in
      record { step = rw (r, act); row = rw (r, act) at; same_id = rid }
