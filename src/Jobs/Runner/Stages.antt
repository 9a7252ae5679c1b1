-- ===== src/Jobs/Runner/Stages.antt =====
-- The stages of a runner while nobody else touches its job.
use seo_agent_rct.Prelude.{ℕ, ◌≤◌, ◌≡◌, ◌≢◌, ◌∙◌, refl, Option, none, some, arith, nat_key, pos}
use seo_agent_rct.Dict
use seo_agent_rct.Json.{Json}
use seo_agent_rct.Jobs.Store.{
  Job, pending, running, completed, cancelled, write_row, get_user_job_by_id,
  get_job_by_id_unfiltered,
}
use seo_agent_rct.Jobs.Service.{
  World, Exceptions, loaded, start_job, update_progress, complete_job, is_cancelled, blocks_start,
  blocks_progress, blocks_complete, starting, reporting, completing,
}
use seo_agent_rct.Jobs.Runner.{
  Step, go, throw, act, load, check, prepare, settled, first_try, execute_with_retry,
}
use seo_agent_rct.Jobs.Runner.Steps.{GoesOn, act-GoesOn}
use seo_agent_rct.Retry.World.{execute-view}
use seo_agent_rct.Retry.{RetryEngine, Answer, Outcome, returns, raises, execute}

-- What the other threads do leaves the row of a job alone.
abbrev pub LeavesRow : (ℕ → World → World) → (id last : ℕ) → Type 0
LeavesRow env id last =
    (i : ℕ) → i ≤ last → (w : World) → Dict.get (env i w).db.rows id ≡ Dict.get w.db.rows id

module _ {E : Type 0} (env : ℕ → World → World) (id user : ℕ) where
  pub load_own :
      (w : World) (job : Job)
      → Dict.get (env 0 w).db.rows id ≡ some job
      → job.user_id ≡ user
      → job.status ≡ pending
      → load {E = E} env id user w ≡ (go job, env 0 w)
  unfolding load get_user_job_by_id
  load_own w job there mine free = ground arith

  pub check_open :
      (i : ℕ) (w : World) (job : Job)
      → Dict.get (env i w).db.rows id ≡ some job
      → job.status ≢ cancelled
      → check {E = E} env id i w ≡ (go tt, env i w)
  unfolding check is_cancelled get_job_by_id_unfiltered
  check_open i w job there open_job = ground arith

-- The instance `job` that the runner holds is the row `id` of the table.
pub record Holds (id user : ℕ) (job : Job) (w : World) : Type 0 where
  pub row : Dict.get w.db.rows id ≡ some job
  pub same_id : job.id ≡ id
  pub mine : job.user_id ≡ user

module _ {E R : Type 0} (x : Exceptions E) (engine : RetryEngine E) (random clock : ℕ → ℕ)
    (env : ℕ → World → World) (work : World → Answer E (Option R) × World) (output : R → Json)
    (id user : ℕ) where
  abbrev pub StepTo : (Step E Job × World) → (Job → Type 0) → Type 0
  StepTo result P = (job : Job) × (w : World) × (result ≡ (go job, w)) × Holds id user job w × P job

  reached :
      (result : Step E Job × World) (P : Job → Type 0) (job : Job)
      → GoesOn id job result
      → job.user_id ≡ user
      → P job
      → StepTo result P
  reached result P job g mine p = (
    job,
    result.1,
    ground (arith, g.step),
    record { row = g.row; same_id = g.same_id; mine = mine },
    p,
  )

  pub step_start :
      (w : World) (job : Job)
      → Holds id user job (env 1 w)
      → job.status ≡ pending
      → StepTo
          (act env 1 (start_job x (clock 1) (loaded job) user) job w)
          (λ job'. (job'.status ≡ running) × (job'.started_at ≡ some (clock 1)))
  unfolding start_job write_row
  step_start w job h p =
      reached _ _ _
        (act-GoesOn x clock env id user 1 blocks_start (λ j. starting (clock 1)) none job job w
          h.same_id h.same_id h.row (rw p))
        h.mine (ground arith, refl)

  pub step_report :
      (i p : ℕ) (w : World) (job : Job)
      → Holds id user job (env i w)
      → job.status ≡ running
      → StepTo
          (act env i (update_progress x (clock i) (loaded job) user (pos p) none) job w)
          (λ job'. (job'.status ≡ running) × (job'.started_at ≡ job.started_at))
  unfolding update_progress write_row
  step_report i p w job h r =
      reached _ _ _
        (act-GoesOn x clock env id user i blocks_progress (reporting (pos p) none) none job job w
          h.same_id h.same_id h.row (rw r))
        h.mine (ground arith, refl)

  pub step_complete :
      (i : ℕ) (result : Json) (w : World) (job : Job)
      → Holds id user job (env i w)
      → job.status ≡ running
      → StepTo (act env i (complete_job x (clock i) (loaded job) user (some result)) job w) (λ job'.
        (job'.status ≡ completed)
        × (job'.progress ≡ 100)
        × (job'.result_reference ≡ some result)
        × (job'.started_at ≡ job.started_at)
        × (job'.finished_at ≡ some (clock i)))
  unfolding complete_job write_row
  step_complete i result w job h r =
      reached _ _ _
        (act-GoesOn x clock env id user i blocks_complete (λ j. completing (clock i) (some result))
          none job job w h.same_id h.same_id h.row (rw r))
        h.mine (ground arith, ground arith, refl, refl, refl)

  pub next_Holds :
      (i last : ℕ) (w : World) (job : Job)
      → LeavesRow env id last
      → i ≤ last
      → Holds id user job w
      → Holds id user job (env i w)
  next_Holds i last w job calm le h = record {
    row = calm i le w ∙ h.row;
    same_id = h.same_id;
    mine = h.mine;
  }

  pub prepare_lem :
      (w : World) (job : Job)
      → LeavesRow env id 3
      → Holds id user job w
      → job.status ≡ pending
      → StepTo
          (prepare x engine random clock env work output id user w)
          (λ job'. (job'.status ≡ running) × (job'.started_at ≡ some (clock 1)))
  unfolding prepare
  prepare_lem w job calm h p =
      let h0 = next_Holds 0 3 w job calm (omega arith) h in
      let h0' = next_Holds 1 3 (env 0 w) job calm (omega arith) h0 in
      let (j1, w1, e1, h1, q1) = step_start (env 0 w) job h0' p in
      let h1' = next_Holds 2 3 w1 j1 calm (omega arith) h1 in
      let (j2, w2, e2, h2, q2) = step_report 2 30 w1 j1 h1' q1.0 in
      let h3 = next_Holds 3 3 w2 j2 calm (omega arith) h2 in
      (
        j2,
        env 3 w2,
        ground (
          arith,
          e1,
          e2,
          load_own {E = E} env id user w job h0.row h.mine p,
          check_open {E = E} env id user 3 w2 j2 h3.row (ground arith),
        ),
        h3,
        (q2.0, q2.1 ∙ q1.1),
      )

  -- Whatever the world, the retried call of the service ends with `outcome`.
  abbrev pub Ends : Outcome E (Option R) → Type 0
  Ends outcome = (w : World) → (execute engine random work (first_try w)).0 ≡ outcome

  -- The service leaves the row of the job alone.
  abbrev pub WorkLeavesRow : Type 0
  WorkLeavesRow = (w : World) → Dict.get (work w).1.db.rows id ≡ Dict.get w.db.rows id

  pub call_row :
      (w : World)
      → WorkLeavesRow
      → Dict.get (execute engine random work (first_try w)).1.world.db.rows id
        ≡ Dict.get w.db.rows id
  call_row w quiet =
      execute-view engine random work (λ v. Dict.get v.db.rows id) quiet (first_try w)

  pub call_returns :
      (w : World) (job : Job) (r : R)
      → Holds id user job (env 4 w)
      → job.status ≡ running
      → Ends (returns (some r))
      → execute_with_retry x engine random clock env work output id user w
        ≡ (go r, settled (execute engine random work (first_try (env 4 w))).1)
  unfolding execute_with_retry is_cancelled get_job_by_id_unfiltered
  call_returns w job r h run ends = ground (arith, ends (env 4 w), h.row)

  pub call_raises :
      (w : World) (job : Job) (e : E)
      → Holds id user job (env 4 w)
      → job.status ≡ running
      → Ends (raises e)
      → execute_with_retry x engine random clock env work output id user w
        ≡ (throw e, settled (execute engine random work (first_try (env 4 w))).1)
  unfolding execute_with_retry is_cancelled get_job_by_id_unfiltered
  call_raises w job e h run ends = ground (arith, ends (env 4 w), h.row)
