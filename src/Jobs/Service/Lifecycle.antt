-- ===== src/Jobs/Service/Lifecycle.antt =====
-- The life of a job under sequences of operations.
use seo_agent_rct.Prelude.{
  ℕ, ◌≤◌, ◌<◌, ◌≡◌, refl, Bool, true, false, Option, none, some, List, [], ◌∷◌, arith, nat_key, All,
}
use seo_agent_rct.Dict
use seo_agent_rct.Jobs.Store.{Status, completed, failed, cancelled, Job, Jobs}
use seo_agent_rct.Jobs.Service.{World, Exceptions}
use seo_agent_rct.Jobs.Service.Effects.{IsKeyed}
use seo_agent_rct.Jobs.Service.Transitions.{
  Op, cancel, perform, perform_all, next_status, Moved, same, fresh, gone, changed, perform_row,
  perform-next_id,
}

-- Every row stands at its id, below the next id, with a progress of 100 at most.
pub record IsWell (db : Jobs) : Type 0 where
  pub keyed : IsKeyed db
  pub progress : (k : ℕ) (job : Job) → Dict.get db.rows k ≡ some job → job.progress ≤ 100

-- The facts of `IsWell` at one row.
abbrev IsWellRow : ℕ → ℕ → Job → Type 0
IsWellRow next k job = (job.id ≡ k) × (k < next) × (job.progress ≤ 100)

Moved-IsWellRow :
    (op : Op) (user k : ℕ) (db db' : Jobs)
    → db.next_id ≤ db'.next_id
    → ((job : Job) → Dict.get db.rows k ≡ some job → IsWellRow db.next_id k job)
    → Moved op user k db db'
    → (job : Job) → Dict.get db'.rows k ≡ some job
    → IsWellRow db'.next_id k job
Moved-IsWellRow op user k db db' le old (same e) job here = ground (arith, old job)
Moved-IsWellRow op user k db db' le old (fresh j p q i m z e) job here = ground arith
Moved-IsWellRow op user k db db' le old (gone j b m e) job here = ground arith
Moved-IsWellRow op user k db db' le old (changed j j' b e m m' i p s) job here =
    ground (arith, old j b)

module _ {E : Type 0} (x : Exceptions E) (user : ℕ) where
  well_row :
      (w : World)
      → IsWell w.db
      → (k : ℕ) (job : Job) → Dict.get w.db.rows k ≡ some job
      → IsWellRow w.db.next_id k job
  well_row w v k job h = (v.keyed.id_at k job h, v.keyed.below k job h, v.progress k job h)

  pub perform-IsWell : (op : Op) (w : World) → IsWell w.db → IsWell (perform x user op w).db
  perform-IsWell op w v =
      let row = λ (k : ℕ) (job : Job) (h : Dict.get (perform x user op w).db.rows k ≡ some job).
        Moved-IsWellRow op user k w.db (perform x user op w).db (perform-next_id x user op w)
          (well_row w v k) (perform_row x user op w k v.keyed) job h in
      record {
        keyed = record { id_at = λ k job h. (row k job h).0; below = λ k job h. (row k job h).1 };
        progress = λ k job h. (row k job h).2;
      }

  -- After any operations of a user on jobs named by their ids, on a well-formed table, every row still stands at its own id,
  -- below the next id to be given, and no progress passes 100.
  pub perform_all-IsWell :
      (ops : List Op) (w : World) → IsWell w.db → IsWell (perform_all x user ops w).db
  unfolding perform_all
  perform_all-IsWell [] w v = v
  perform_all-IsWell (op ∷ ops) w v =
      perform_all-IsWell ops (perform x user op w) (perform-IsWell op w v)

-- No job has the id, or the job with the id has the status.
abbrev pub IsStill : Status → Option Job → Type 0
IsStill s none = Unit
IsStill s (some job) = job.status ≡ s

abbrev pub is_cancel : Op → Bool
is_cancel (cancel now id) = true
is_cancel _ = false

abbrev pub is_terminal : Status → Bool
is_terminal completed = true
is_terminal failed = true
is_terminal cancelled = true
is_terminal _ = false

next_status_terminal :
    (op : Op) (s : Status) → is_cancel op ≡ false → is_terminal s ≡ true → next_status op s ≡ s
next_status_terminal op s c t = ground arith

Moved-IsStill :
    (op : Op) (user k : ℕ) (db db' : Jobs) (s : Status)
    → k < db.next_id
    → next_status op s ≡ s
    → IsStill s (Dict.get db.rows k)
    → Moved op user k db db'
    → IsStill s (Dict.get db'.rows k)
Moved-IsStill op user k db db' s lt fix old (same e) = rw e old
Moved-IsStill op user k db db' s lt fix old (fresh j p q i m z e) = absurd (omega arith)
Moved-IsStill op user k db db' s lt fix old (gone j b m e) = rw e tt
Moved-IsStill op user k db db' s lt fix old (changed j j' b e m m' i p t) = rw e (ground arith)

module _ {E : Type 0} (x : Exceptions E) (user k : ℕ) (s : Status) where
  perform_all-IsStill :
      (ops : List Op) (w : World)
      → IsWell w.db
      → k < w.db.next_id
      → All (λ op. next_status op s ≡ s) ops
      → IsStill s (Dict.get w.db.rows k)
      → IsStill s (Dict.get (perform_all x user ops w).db.rows k)
  unfolding perform_all
  perform_all-IsStill [] w v lt fix h = h
  perform_all-IsStill (op ∷ ops) w v lt fix h =
      perform_all-IsStill ops (perform x user op w) (perform-IsWell x user op w v)
        (omega (arith, perform-next_id x user op w)) fix.1
        (Moved-IsStill op user k w.db (perform x user op w).db s lt fix.0 h
          (perform_row x user op w k v.keyed))

  fixed_unless_cancel :
      (ops : List Op)
      → is_terminal s ≡ true
      → All (λ op. is_cancel op ≡ false) ops
      → All (λ op. next_status op s ≡ s) ops
  fixed_unless_cancel [] t h = tt
  fixed_unless_cancel (op ∷ ops) t h =
      (next_status_terminal op s h.0 t, fixed_unless_cancel ops t h.1)

module _ {E : Type 0} (x : Exceptions E) (user k : ℕ) where
  -- On a well-formed table a job that has ended keeps its status, as long as its row is there,
  -- through all operations of a user that name jobs by their ids and are not cancellations, reports
  -- of progress with any status among them. Operations on an instance that was loaded before the end
  -- are not among these.
  pub terminal_stays :
      (ops : List Op) (w : World) (job : Job)
      → IsWell w.db
      → Dict.get w.db.rows k ≡ some job
      → is_terminal job.status ≡ true
      → All (λ op. is_cancel op ≡ false) ops
      → IsStill job.status (Dict.get (perform_all x user ops w).db.rows k)
  terminal_stays ops w job v there t calm =
      perform_all-IsStill x user k job.status ops w v (v.keyed.below k job there)
        (fixed_unless_cancel x user k job.status ops t calm) (rw there refl)
