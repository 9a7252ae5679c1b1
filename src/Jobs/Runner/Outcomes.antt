-- ===== src/Jobs/Runner/Outcomes.antt =====
-- How a runner ends, by what the service call does and by when the job is cancelled.
use seo_agent_rct.Prelude.{ℕ, ◌≡◌, ◌∙◌, Option, some, arith, nat_key}
use seo_agent_rct.Dict
use seo_agent_rct.Json.{Json}
use seo_agent_rct.Jobs.Store.{Job, pending, running, completed}
use seo_agent_rct.Jobs.Service.{World, Exceptions}
use seo_agent_rct.Jobs.Runner.{conclude, body, run_job, settled, first_try}
use seo_agent_rct.Jobs.Runner.Stages.{
  LeavesRow, Holds, StepTo, next_Holds, check_open, step_report, step_complete, prepare_lem, Ends,
  WorkLeavesRow, call_row, call_returns,
}
use seo_agent_rct.Retry.{RetryEngine, Answer, returns, execute}

-- The row of a job that its runner has completed.
pub record IsCompleted (started finished : ℕ) (result : Json) (job : Job) : Type 0 where
  pub status : job.status ≡ completed
  pub progress : job.progress ≡ 100
  pub result_reference : job.result_reference ≡ some result
  pub started_at : job.started_at ≡ some started
  pub finished_at : job.finished_at ≡ some finished

module _ {E R : Type 0} (x : Exceptions E) (engine : RetryEngine E) (random clock : ℕ → ℕ)
    (env : ℕ → World → World) (work : World → Answer E (Option R) × World) (output : R → Json)
    (id user : ℕ) where
  conclude_lem :
      (w : World) (job : Job) (r : R) (started : ℕ)
      → LeavesRow env id 7
      → Holds id user job w
      → job.status ≡ running
      → job.started_at ≡ some started
      → StepTo x engine random clock env work output id user
          (conclude x engine random clock env work output id user job r w)
          (IsCompleted started (clock 7) (output r))
  unfolding conclude
  conclude_lem w job r started calm h run at =
      let leaves = next_Holds x engine random clock env work output id user in
      let h5 = leaves 5 7 w job calm (omega arith) h in
      let h6 = leaves 6 7 (env 5 w) job calm (omega arith) h5 in
      let (j6, w6, e6, h6', q6) =
        step_report x engine random clock env work output id user 6 80 (env 5 w) job h6 run in
      let h7 = leaves 7 7 w6 j6 calm (omega arith) h6' in
      let (j7, w7, e7, h7', q7) =
        step_complete x engine random clock env work output id user 7 (output r) w6 j6 h7 q6.0 in
      (
        j7,
        w7,
        ground (arith, e6, e7, check_open {E = E} env id user 5 w job h5.row (ground arith)),
        h7',
        record {
          status = q7.0;
          progress = q7.1;
          result_reference = q7.2;
          started_at = q7.3 ∙ q6.1 ∙ at;
          finished_at = q7.4;
        },
      )

  -- If the service call, retries included, returns `r`, and neither the service nor another
  -- thread touches the row of the pending job, then the runner ends with the job completed, its
  -- output stored, and both times set.
  pub run_job-completes :
      (w : World) (job : Job) (r : R)
      → Holds id user job w
      → job.status ≡ pending
      → LeavesRow env id 7
      → WorkLeavesRow x engine random clock env work output id user
      → Ends x engine random clock env work output id user (returns (some r))
      → (job' : Job) × (Dict.get
            (run_job x engine random clock env work output id user w).db.rows
            id
          ≡ some job')
        × IsCompleted (clock 1) (clock 7) (output r) job'
  unfolding run_job body
  run_job-completes w job r h p calm quiet ends =
      let (j3, w3, e3, h3, q3) =
        prepare_lem x engine random clock env work output id user w job
          (λ i le. calm i (omega arith)) h p in
      let h4 =
        next_Holds x engine random clock env work output id user 4 7 w3 j3 calm (omega arith) h3 in
      let w4 : World = settled (execute engine random work (first_try (env 4 w3))).1 in
      let e4 = call_returns x engine random clock env work output id user w3 j3 r h4 q3.0 ends in
      let h4' : Holds id user j3 w4 = record {
        row = call_row x engine random clock env work output id user (env 4 w3) quiet ∙ h4.row;
        same_id = h4.same_id;
        mine = h4.mine;
      } in
      let (j7, w7, e7, h7, q7) = conclude_lem w4 j3 r (clock 1) calm h4' q3.0 q3.1 in
      (j7, ground (arith, e3, e4, e7, h7.row), q7)
