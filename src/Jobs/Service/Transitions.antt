-- ===== src/Jobs/Service/Transitions.antt =====
-- Sequences of the operations of `JobService` on jobs given by their ids, as the routes give them:
-- which rows they may change, and how the status of a job may move. An operation on an instance
-- that is loaded already, as in the runners, is not among them.
use seo_agent_rct.Prelude.{
  ℕ, ◌≤◌, ◌<◌, ◌≡◌, ◌⊎◌, inl, inr, refl, sym, String, Bool, false, Option, none, some, List, [],
  ◌∷◌, arith, ℕ_discrete, nat_key, Option-cases, Bool-cases, ==_iff, ◌==◌, ℤ,
}
use seo_agent_rct.Dict
use seo_agent_rct.Dict.Laws.{get-put, get-remove}
use seo_agent_rct.Json.{Json, Fields}
use seo_agent_rct.Jobs.Store.{
  Status, running, completed, failed, cancelled, pending, other, Job, Jobs, Change, write_row,
  create_job, delete_user_job, delete_job_instance, get_user_job_by_id,
}
use seo_agent_rct.Jobs.Service.{
  World, Exceptions, by_id, guarded, start_job, update_progress, complete_job, fail_job, cancel_job,
  initial_ref, create_job_with, delete_job, blocks_nothing, cancellation, publish_job_update,
  or_else,
}
use seo_agent_rct.Jobs.Service.Effects.{
  IsKeyed, RowAfter, untouched, written, publish-LeavesDb, guarded_rows, guarded-next_id,
}

-- The operations of a user on jobs named by their ids. Each carries the clock that it reads.
pub data Op : Type 0 where
  create : (now : ℕ) (job_type : String) (website_id : Option ℕ) (payload : Option Fields) → Op
  start : (now job_id : ℕ) → Op
  report : (now job_id : ℕ) (progress : ℤ) (status : Option Status) → Op
  complete : (now job_id : ℕ) (result : Option Json) → Op
  fail : (now job_id : ℕ) (error_message : String) → Op
  cancel : (now job_id : ℕ) → Op
  delete : (job_id : ℕ) → Op

module _ {E : Type 0} (x : Exceptions E) (user : ℕ) where
  unfoldable pub perform : Op → World → World
  perform (create now job_type website_id payload) w =
      (create_job_with now user job_type website_id payload w).1
  perform (start now id) w = (start_job x now (by_id id) user w).1
  perform (report now id progress status) w =
      (update_progress x now (by_id id) user progress status w).1
  perform (complete now id result) w = (complete_job x now (by_id id) user result w).1
  perform (fail now id message) w = (fail_job x now (by_id id) user message w).1
  perform (cancel now id) w = (cancel_job x now (by_id id) user w).1
  perform (delete id) w = (delete_job id user w).1

  unfoldable pub perform_all : List Op → World → World
  perform_all [] w = w
  perform_all (op ∷ ops) w = perform_all ops (perform op w)

-- The job that an operation is about.
abbrev pub target : Op → Option ℕ
target (create now job_type website_id payload) = none
target (start now id) = some id
target (report now id progress status) = some id
target (complete now id result) = some id
target (fail now id message) = some id
target (cancel now id) = some id
target (delete id) = some id

-- The state machine of a job, without the table.
abbrev pub next_status : Op → Status → Status
next_status (start now id) pending = running
next_status (start now id) (other text) = running
next_status (report now id progress status) pending = or_else status pending
next_status (report now id progress status) running = or_else status running
next_status (report now id progress status) (other text) = or_else status (other text)
next_status (complete now id result) pending = completed
next_status (complete now id result) running = completed
next_status (complete now id result) (other text) = completed
next_status (fail now id message) pending = failed
next_status (fail now id message) running = failed
next_status (fail now id message) (other text) = failed
next_status (cancel now id) s = cancelled
next_status _ s = s

-- How the row `k` may differ after an operation of `user`.
pub data Moved (op : Op) (user k : ℕ) (db db' : Jobs) : Type 0 where
  same : Dict.get db'.rows k ≡ Dict.get db.rows k → Moved op user k db db'
  fresh :
      (job : Job)
      → k ≡ db.next_id
      → k < db'.next_id
      → job.id ≡ k
      → job.user_id ≡ user
      → job.progress ≡ 0
      → Dict.get db'.rows k ≡ some job
      → Moved op user k db db'
  gone :
      (job : Job)
      → Dict.get db.rows k ≡ some job
      → job.user_id ≡ user
      → Dict.get db'.rows k ≡ none
      → Moved op user k db db'
  changed :
      (job job' : Job)
      → Dict.get db.rows k ≡ some job
      → Dict.get db'.rows k ≡ some job'
      → job.user_id ≡ user
      → job'.user_id ≡ user
      → job'.id ≡ job.id
      → (job'.progress ≤ 100) ⊎ (job'.progress ≡ job.progress)
      → job'.status ≡ next_status op job.status
      → Moved op user k db db'

-- What `Moved` needs of a guarded operation.
IsMove : Op → (ℕ) → (Status → Bool) → (Job → Change) → Type 0
IsMove op now blocked change =
    (job : Job)
    → blocked job.status ≡ false
    → let job' = write_row now (change job) job job in
      ((job'.progress ≤ 100) ⊎ (job'.progress ≡ job.progress))
      × (job'.status ≡ next_status op job.status)

RowAfter-Moved :
    (op : Op) (now user k : ℕ) (blocked : Status → Bool) (change : Job → Change) {db db' : Jobs}
    → IsMove op now blocked change
    → RowAfter now user blocked change (Dict.get db.rows k) (Dict.get db'.rows k)
    → Moved op user k db db'
unfolding IsMove write_row
RowAfter-Moved op now user k blocked change move (untouched e) = same e
RowAfter-Moved op now user k blocked change move (written job b mine free a) =
    changed job (write_row now (change job) job job) b a mine mine refl (move job free).0
      (move job free).1

create_row :
    (op : Op) (now user : ℕ) (job_type : String) (website_id : Option ℕ) (ref : Option Fields)
    (w : World) (k : ℕ)
    → Moved op user k w.db (create_job_with now user job_type website_id ref w).1.db
unfolding create_job_with create_job
create_row op now user job_type website_id ref w k = elim (ℕ_discrete w.db.next_id k) [
  | yes e ↦
      fresh (create_job now user job_type website_id (initial_ref ref) w.db).0 (sym e) (omega arith)
        e refl refl
        (ground (
          arith,
          get-put w.db.rows w.db.next_id k
              (create_job now user job_type website_id (initial_ref ref) w.db).0,
        ))
  | no d ↦ same (
      ground (
        arith,
        get-put w.db.rows w.db.next_id k
            (create_job now user job_type website_id (initial_ref ref) w.db).0,
      ))
]

delete_cases :
    (id user : ℕ) (db : Jobs)
    → ((delete_user_job id user db).1.rows ≡ db.rows)
      ⊎ ((job : Job) × (Dict.get db.rows id ≡ some job)
          × (job.user_id ≡ user)
          × ((delete_user_job id user db).1.rows ≡ Dict.remove db.rows job.id))
unfolding delete_user_job
delete_cases id user db = elim (Option-cases (Dict.get db.rows id)) [
  | inl e ↦ inl (rw (e, delete_user_job))
  | inr (job, e) ↦ elim (Bool-cases (job.user_id == user)) [
    | inl mine ↦ inr (job, e, (==_iff _ _).0 mine, rw (e, delete_user_job) (rw mine))
    | inr other_user ↦ inl (rw (e, delete_user_job) (rw other_user))
  ]
]

delete_row :
    (op : Op) (id user : ℕ) (w : World) (k : ℕ)
    → IsKeyed w.db
    → Moved op user k w.db (delete_job id user w).1.db
unfolding delete_job
delete_row op id user w k keyed = elim (delete_cases id user w.db) [
  | inl e ↦ same (rw e)
  | inr (job, there, mine, e) ↦
      let at : job.id ≡ id = keyed.id_at id job there in
      elim (ℕ_discrete job.id k) [
        | yes p ↦ gone job (ground arith) mine (ground (arith, e, get-remove w.db.rows job.id k))
        | no d ↦ same (ground (arith, e, get-remove w.db.rows job.id k))
      ]
]

module _ {E : Type 0} (x : Exceptions E) (user : ℕ) where
  guarded_row :
      (op : Op) (now id : ℕ) (blocked : Status → Bool) (change : Job → Change)
      (error : Option String) (w : World) (k : ℕ)
      → IsMove op now blocked change
      → IsKeyed w.db
      → Moved op user k w.db
          (guarded x now blocked change
            (λ job. publish_job_update job error)
            (by_id id)
            user
            w).1.db
  guarded_row op now id blocked change error w k move keyed =
      RowAfter-Moved op now user k blocked change move
        (guarded_rows x now blocked change _ (publish-LeavesDb error) id user w k keyed)

  guarded_next :
      (now id : ℕ) (blocked : Status → Bool) (change : Job → Change) (error : Option String)
      (w : World)
      → (guarded x now blocked change
          (λ job. publish_job_update job error)
          (by_id id)
          user
          w).1.db.next_id
        ≡ w.db.next_id
  guarded_next now id blocked change error w =
      guarded-next_id x now blocked change (λ job. publish_job_update job error)
        (publish-LeavesDb error) id user w

  -- Ids are given in rising order.
  pub perform-next_id : (op : Op) (w : World) → w.db.next_id ≤ (perform x user op w).db.next_id
  unfolding perform create_job_with create_job delete_job delete_user_job start_job update_progress
      complete_job fail_job cancel_job
  perform-next_id (create now job_type website_id ref) w = omega arith
  perform-next_id (start now id) w = omega (arith, guarded_next now id _ _ none w)
  perform-next_id (report now id progress status) w = omega (arith, guarded_next now id _ _ none w)
  perform-next_id (complete now id result) w = omega (arith, guarded_next now id _ _ none w)
  perform-next_id (fail now id message) w = omega (arith, guarded_next now id _ _ (some message) w)
  perform-next_id (cancel now id) w = omega (
    arith,
    guarded-next_id x now blocks_nothing (λ job. cancellation now) (λ job w. w) (λ job w. refl) id
        user w,
  )
  perform-next_id (delete id) w = elim (Option-cases (get_user_job_by_id w.db id user)) [
    | inl e ↦ rw (e, delete_job, delete_user_job) (omega arith)
    | inr (job, e) ↦ rw (e, delete_job, delete_user_job) (unfold delete_job_instance in omega arith)
  ]

  pub perform_row :
      (op : Op) (w : World) (k : ℕ) → IsKeyed w.db → Moved op user k w.db (perform x user op w).db
  unfolding perform start_job update_progress complete_job fail_job cancel_job IsMove write_row
  perform_row (create now job_type website_id payload) w k keyed =
      create_row (create now job_type website_id payload) now user job_type website_id payload w k
  perform_row (start now id) w k keyed =
      guarded_row (start now id) now id _ _ none w k (λ job free. ground arith) keyed
  perform_row (report now id progress status) w k keyed =
      guarded_row (report now id progress status) now id _ _ none w k (λ job free. ground arith)
        keyed
  perform_row (complete now id result) w k keyed =
      guarded_row (complete now id result) now id _ _ none w k (λ job free. ground arith) keyed
  perform_row (fail now id message) w k keyed =
      guarded_row (fail now id message) now id _ _ (some message) w k (λ job free. ground arith)
        keyed
  perform_row (cancel now id) w k keyed =
      RowAfter-Moved (cancel now id) now user k blocks_nothing (λ job. cancellation now)
        (λ job free. ground arith)
        (guarded_rows x now blocks_nothing (λ job. cancellation now) (λ job w. w) (λ job w. refl) id
          user w k keyed)
  perform_row (delete id) w k keyed = delete_row (delete id) id user w k keyed
