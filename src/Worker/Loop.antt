-- ===== src/Worker/Loop.antt =====
-- `run_worker_loop` and `recover_interrupted_jobs` of backend/worker.py. The loop is modelled by its
-- body; `submits i` is whether the executor takes the `i`-th job of a batch.
use text.Mathlib.Text.{◌==◌ as str_eq}
use seo_agent_rct.Prelude.{
  ℕ, zero, suc, ◌+◌, ◌-◌, ◌≤◌, min, max, Bool, true, false, ◌||◌, Option, none, some, inl, inr,
  List, [], ◌∷◌, length, ltb, ◌==◌, if◌then◌else◌, String, arith, nat_key, Option-cases, keep,
}
use seo_agent_rct.Dict
use seo_agent_rct.Dict.{Dict}
use seo_agent_rct.Dict.Laws.{size-put, size-remove-le}
use seo_agent_rct.Jobs.Store.{Job, Status, running}
use seo_agent_rct.Jobs.Service.{Exceptions, ok, raise, by_id, fail_job}
use seo_agent_rct.Queue.{Payload, QueueLib, JobQueue, pop_next_job, pop_batch}
use seo_agent_rct.Worker.{Task, Worker, submit_job}
use seo_agent_rct.Worker.DeadLetters.{DeadLetter, LetterLib, push_to_dlq}

abbrev task_of : Payload → Task
task_of p = record { job_id = p.job_id; job_type = p.job_type; user_id = p.user_id }

-- `not job_id or not job_type or not user_id`
abbrev pub is_invalid : Payload → Bool
is_invalid p = (p.job_id == 0) || str_eq p.job_type "" || (p.user_id == 0)

module _ {R : Type 0} where
  -- `_dispatch_job_payload`
  unfoldable pub dispatch_job_payload :
      (now : ℕ) → (submitted : Bool) → Payload → Worker R → Worker R
  dispatch_job_payload now submitted p w =
      if is_invalid p then w else submit_job (task_of p) now submitted w

  -- `for job_payload in batch: self._dispatch_job_payload(job_payload)`
  unfoldable pub dispatch_all :
      (now : ℕ) → (submits : ℕ → Bool) → List Payload → Worker R → Worker R
  unfolding dispatch_job_payload
  dispatch_all now submits [] w = w
  dispatch_all now submits (p ∷ ps) w =
      dispatch_all now (λ i. submits (suc i)) ps (dispatch_job_payload now (submits 0) p w)

  running-submit_job-le :
      (task : Task) (now : ℕ) (submitted : Bool) (w : Worker R)
      → Dict.size (submit_job task now submitted w).running_jobs ≤ suc (Dict.size w.running_jobs)
  unfolding submit_job
  running-submit_job-le task now submitted w =
      let added = size-put w.running_jobs task.job_id now in
      let removed = size-remove-le (Dict.put w.running_jobs task.job_id now) task.job_id in
      ground (arith, added, removed)

  running-dispatch-le :
      (now : ℕ) (submitted : Bool) (p : Payload) (w : Worker R)
      → Dict.size (dispatch_job_payload now submitted p w).running_jobs
        ≤ suc (Dict.size w.running_jobs)
  unfolding dispatch_job_payload
  running-dispatch-le now submitted p w =
      ground (arith, running-submit_job-le (task_of p) now submitted w)

  running-dispatch_all-le :
      (now : ℕ) (submits : ℕ → Bool) (ps : List Payload) (w : Worker R)
      → Dict.size (dispatch_all now submits ps w).running_jobs
        ≤ length ps + Dict.size w.running_jobs
  unfolding dispatch_all
  running-dispatch_all-le now submits [] w = omega arith
  running-dispatch_all-le now submits (p ∷ ps) w =
      let w' = dispatch_job_payload now (submits 0) p w in
      let one = running-dispatch-le now (submits 0) p w in
      let rest = running-dispatch_all-le now (λ i. submits (suc i)) ps w' in
      omega (arith, one, rest)

module _ {S Q : Type 0} (lib : QueueLib S Q) where
  length-pop_batch-le : (n : ℕ) (q : JobQueue S Q) → length (pop_batch lib n q).0 ≤ n
  unfolding pop_batch
  length-pop_batch-le zero q = omega arith
  length-pop_batch-le (suc n) q =
      let rest = length-pop_batch-le n (pop_next_job lib q).1 in
      elim (Option-cases (pop_next_job lib q).0) [
        | inl e ↦ rw (pop_batch, e) (omega arith)
        | inr (p, e) ↦ rw (pop_batch, e) (omega (arith, rest))
      ]

module _ {S Q R : Type 0} (lib : QueueLib S Q) (concurrency : ℕ) where
  -- The body of `run_worker_loop`.
  unfoldable pub loop_body :
      (now : ℕ) → (submits : ℕ → Bool) → JobQueue S Q × Worker R → JobQueue S Q × Worker R
  unfolding dispatch_all
  loop_body now submits (q, w) =
      let active_count = Dict.size w.running_jobs in
      let (batch, q') = pop_batch lib (min (concurrency - active_count) 5) q in
      if ltb active_count concurrency then (q', dispatch_all now submits batch w) else (q, w)

  -- A round of the loop never brings the number of running jobs above the concurrency: it is at most
  -- that, or what it was before.
  pub running-loop_body-le :
      (now : ℕ) (submits : ℕ → Bool) (q : JobQueue S Q) (w : Worker R)
      → Dict.size (loop_body now submits (q, w)).1.running_jobs
        ≤ max concurrency (Dict.size w.running_jobs)
  unfolding loop_body
  running-loop_body-le now submits q w =
      let few = length-pop_batch-le lib (min (concurrency - Dict.size w.running_jobs) 5) q in
      let batch = (pop_batch lib (min (concurrency - Dict.size w.running_jobs) 5) q).0 in
      let more = running-dispatch_all-le now submits batch w in ground (arith, few, more)

abbrev is_running : Status → Bool
is_running running = true
is_running _ = false

module _ {E R : Type 0} (x : Exceptions E) (lib : LetterLib R) (clock timeout max_retries : ℕ) where
  -- `elapsed > settings.JOB_TIMEOUT_SECONDS`
  abbrev is_orphan_job : Option ℕ → Bool
  is_orphan_job none = ltb timeout 300
  is_orphan_job (some updated_at) = ltb timeout (clock - updated_at)

  -- The letter of a job that is recovered; `reason` is its text.
  abbrev recovered_letter : (reason : String) → Job → DeadLetter
  recovered_letter reason job = record {
    job_id = job.id;
    job_type = job.job_type;
    user_id = job.user_id;
    failure_reason = reason;
    retry_count = max_retries;
  }

  -- The loop of `recover_interrupted_jobs`; an exception ends it and is logged.
  unfoldable pub recover_all : (reason : Job → String) → List Job → Worker R → Worker R
  recover_all reason [] w = w
  recover_all reason (job ∷ jobs) w =
      let buried = record w {
        dead_letters = push_to_dlq lib (recovered_letter (reason job) job) w.dead_letters;
      } in
      let (r, world) =
        fail_job x clock (by_id job.id) job.user_id "Job recovered after worker crash/timeout"
          w.world in
      let failed : Worker R = record buried { world = world } in
      let skipped = recover_all reason jobs w in
      let rest = recover_all reason jobs failed in
      if is_orphan_job job.updated_at
      then (elim r [ ok job' ↦ rest | raise e ↦ failed ])
      else skipped

  -- `recover_interrupted_jobs`; `reason` is the text of a letter, with the seconds elapsed.
  unfoldable pub recover_interrupted_jobs : (reason : Job → String) → Worker R → Worker R
  unfolding recover_all
  recover_interrupted_jobs reason w =
      recover_all reason (keep (λ job. is_running job.status) (Dict.values w.world.db.rows)) w
