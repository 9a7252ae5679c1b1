-- ===== src/Jobs/Runner/Races.antt =====
-- How a runner ends when the service call raises, or when another thread cancels the job.
use seo_agent_rct.Prelude.{ℕ, ◌≡◌, ◌∙◌, refl, Option, none, some, String, arith, nat_key}
use seo_agent_rct.Dict
use seo_agent_rct.Json.{Json}
use seo_agent_rct.Jobs.Store.{
  Job, pending, running, completed, failed, cancelled, get_job_by_id_unfiltered, get_user_job_by_id,
  write_row,
}
use seo_agent_rct.Jobs.Service.{
  World, Exceptions, loaded, by_id, guarded, complete_job, fail_job, is_cancelled, blocks_fail,
  blocks_complete, failing, completing,
}
use seo_agent_rct.Jobs.Runner.{stop, check, conclude, body, run_job, settled, first_try}
use seo_agent_rct.Jobs.Runner.Steps.{guarded_loaded, act-GoesOn}
use seo_agent_rct.Jobs.Runner.Stages.{
  LeavesRow, Holds, next_Holds, check_open, step_report, prepare_lem, Ends, WorkLeavesRow, call_row,
  call_returns, call_raises,
}
use seo_agent_rct.Retry.{RetryEngine, Answer, returns, raises, execute}

-- The row of a job that its runner has given up.
pub record IsFailed (finished : ℕ) (message : String) (job : Job) : Type 0 where
  pub status : job.status ≡ failed
  pub error_message : job.error_message ≡ some message
  pub finished_at : job.finished_at ≡ some finished

check_cancelled :
    {E : Type 0} (env : ℕ → World → World) (id i : ℕ) (w : World) (c : Job)
    → Dict.get (env i w).db.rows id ≡ some c
    → c.status ≡ cancelled
    → check {E = E} env id i w ≡ (stop, env i w)
unfolding check is_cancelled get_job_by_id_unfiltered
check_cancelled env id i w c there h = ground arith

module _ {E R : Type 0} (x : Exceptions E) (engine : RetryEngine E) (random clock : ℕ → ℕ)
    (env : ℕ → World → World) (work : World → Answer E (Option R) × World) (output : R → Json)
    (id user : ℕ) where
  by_id-loaded :
      (now : ℕ) (message : String) (w : World) (job : Job)
      → Holds id user job w
      → fail_job x now (by_id id) user message w ≡ fail_job x now (loaded job) user message w
  unfolding fail_job guarded get_user_job_by_id
  by_id-loaded now message w job h = ground (arith, h.row, h.mine)

  fail_lem :
      (w : World) (job : Job) (message : String)
      → Holds id user job w
      → job.status ≡ running
      → (job' : Job) × (Dict.get (fail_job x (clock 8) (by_id id) user message w).1.db.rows id
          ≡ some job')
        × IsFailed (clock 8) message job'
  unfolding fail_job write_row
  fail_lem w job message h run =
      let (e, row) =
        guarded_loaded x clock env id user 8 blocks_fail (λ j. failing (clock 8) message)
          (some message) job job w h.same_id h.same_id h.row (rw run) in
      (
        write_row (clock 8) (failing (clock 8) message) job job,
        rw (by_id-loaded (clock 8) message w job h) row,
        record { status = ground arith; error_message = refl; finished_at = refl },
      )

  -- If the service call ends with the exception `e`, retries included, and neither the service
  -- nor another thread touches the row of the pending job, then the runner ends with the job
  -- failed, with the text of `e`.
  pub run_job-fails :
      (w : World) (job : Job) (e : E)
      → Holds id user job w
      → job.status ≡ pending
      → LeavesRow env id 8
      → WorkLeavesRow x engine random clock env work output id user
      → Ends x engine random clock env work output id user (raises e)
      → (job' : Job) × (Dict.get
            (run_job x engine random clock env work output id user w).db.rows
            id
          ≡ some job')
        × IsFailed (clock 8) (x.str e) job'
  unfolding run_job body
  run_job-fails w job e h p calm quiet ends =
      let (j3, w3, e3, h3, q3) =
        prepare_lem x engine random clock env work output id user w job
          (λ i le. calm i (omega arith)) h p in
      let leaves = next_Holds x engine random clock env work output id user in
      let h4 = leaves 4 8 w3 j3 calm (omega arith) h3 in
      let w4 : World = settled (execute engine random work (first_try (env 4 w3))).1 in
      let e4 = call_raises x engine random clock env work output id user w3 j3 e h4 q3.0 ends in
      let h4' : Holds id user j3 w4 = record {
        row = call_row x engine random clock env work output id user (env 4 w3) quiet ∙ h4.row;
        same_id = h4.same_id;
        mine = h4.mine;
      } in
      let (j8, row, q8) =
        fail_lem (env 8 w4) j3 (x.str e) (leaves 8 8 w4 j3 calm (omega arith) h4') q3.0 in
      (j8, ground (arith, e3, e4, row), q8)

  -- If the service call returns a result and leaves the row alone, nobody else touches the row of
  -- the pending job until then, and another thread cancels the job meanwhile, so that its row is
  -- the cancelled `c` when the runner checks after the call, then the runner leaves that row
  -- exactly as it is.
  pub run_job-cancelled :
      (w : World) (job c : Job) (r : R)
      → Holds id user job w
      → job.status ≡ pending
      → LeavesRow env id 4
      → ((w' : World) → Dict.get (env 5 w').db.rows id ≡ some c)
      → c.status ≡ cancelled
      → WorkLeavesRow x engine random clock env work output id user
      → Ends x engine random clock env work output id user (returns (some r))
      → Dict.get (run_job x engine random clock env work output id user w).db.rows id ≡ some c
  unfolding run_job body conclude
  run_job-cancelled w job c r h p calm cancels gone quiet ends =
      let (j3, w3, e3, h3, q3) =
        prepare_lem x engine random clock env work output id user w job
          (λ i le. calm i (omega arith)) h p in
      let h4 =
        next_Holds x engine random clock env work output id user 4 4 w3 j3 calm (omega arith) h3 in
      let w4 : World = settled (execute engine random work (first_try (env 4 w3))).1 in
      let e4 = call_returns x engine random clock env work output id user w3 j3 r h4 q3.0 ends in
      ground (arith, e3, e4, check_cancelled {E = E} env id 5 w4 c (cancels w4) gone, cancels w4)

  -- A cancellation between the last check and the completion is lost: if the service call returns
  -- a result and leaves the row alone, and nobody else touches the row of the pending job until
  -- another thread makes it the cancelled `c` just before access 7, then the runner ends with the
  -- job completed all the same.
  pub run_job-loses_cancel :
      (w : World) (job c : Job) (r : R)
      → Holds id user job w
      → job.status ≡ pending
      → LeavesRow env id 6
      → ((w' : World) → Dict.get (env 7 w').db.rows id ≡ some c)
      → c.id ≡ id
      → c.status ≡ cancelled
      → WorkLeavesRow x engine random clock env work output id user
      → Ends x engine random clock env work output id user (returns (some r))
      → (job' : Job) × (Dict.get
            (run_job x engine random clock env work output id user w).db.rows
            id
          ≡ some job')
        × (job'.status ≡ completed)
  unfolding run_job body conclude write_row complete_job
  run_job-loses_cancel w job c r h p calm cancels cid gone quiet ends =
      let (j3, w3, e3, h3, q3) =
        prepare_lem x engine random clock env work output id user w job
          (λ i le. calm i (omega arith)) h p in
      let leaves = next_Holds x engine random clock env work output id user in
      let h4 = leaves 4 6 w3 j3 calm (omega arith) h3 in
      let w4 : World = settled (execute engine random work (first_try (env 4 w3))).1 in
      let e4 = call_returns x engine random clock env work output id user w3 j3 r h4 q3.0 ends in
      let h4' : Holds id user j3 w4 = record {
        row = call_row x engine random clock env work output id user (env 4 w3) quiet ∙ h4.row;
        same_id = h4.same_id;
        mine = h4.mine;
      } in
      let h5 = leaves 5 6 w4 j3 calm (omega arith) h4' in
      let h6 = leaves 6 6 (env 5 w4) j3 calm (omega arith) h5 in
      let (j6, w6, e6, h6', q6) =
        step_report x engine random clock env work output id user 6 80 (env 5 w4) j3 h6 q3.0 in
      let g =
        act-GoesOn x clock env id user 7 blocks_complete
          (λ j. completing (clock 7) (some (output r))) none j6 c w6 h6'.same_id cid (cancels w6)
          (rw q6.0) in
      (
        write_row (clock 7) (completing (clock 7) (some (output r))) j6 c,
        ground (
          arith,
          e3,
          e4,
          e6,
          g.step,
          g.row,
          check_open {E = E} env id user 5 w4 j3 h5.row (ground arith),
        ),
        ground arith,
      )
