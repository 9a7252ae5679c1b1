-- ===== src/Queue/Fairness.antt =====
-- No job waits for ever: while Redis answers, a job of the list `normal` is handed out after a
-- number of calls that only its place in the list decides.
use seo_agent_rct.Prelude.{
  ℕ, suc, ◌+◌, ◌-◌, ◌*◌, ◌%◌, ◌≤◌, ◌≡◌, ◌⊎◌, inl, inr, ◌∙◌, ap, Option, none, some, List, [], ◌∷◌,
  ◌++◌, length, All, arith,
}
use mathlib.Core.List.{append_assoc}
use seo_agent_rct.Text.{Text}
use seo_agent_rct.Queue.{Level, normal, Payload, QueueLib, JobQueue, enqueue_payload, pop_next_job}
use seo_agent_rct.Queue.Answers.{IsRedis, IsReady, IsItem, pop_next_job-Hands}
use seo_agent_rct.Queue.Entries.{enqueue_payload-Enters}

-- A call of the queue: a job enters, or one is asked for.
pub data QueueCall : Type 0 where
  enter : Payload → QueueCall
  ask : QueueCall

-- How often a job is asked for.
abbrev pub asks : List QueueCall → ℕ
asks [] = 0
asks (enter p ∷ cs) = asks cs
asks (ask ∷ cs) = suc (asks cs)

abbrev pub with_job : Option Payload → List Payload → List Payload
with_job none ps = ps
with_job (some p) ps = p ∷ ps

abbrev pub IsIn : Payload → List Payload → Type 0
IsIn p [] = ⊥
IsIn p (x ∷ xs) = (x ≡ p) ⊎ IsIn p xs

module _ {S Q : Type 0} (lib : QueueLib S Q) where
  -- The jobs that calls hand out.
  unfoldable pub handed_out : List QueueCall → JobQueue S Q → List Payload
  handed_out [] q = []
  handed_out (enter p ∷ cs) q = handed_out cs (enqueue_payload lib p q).1
  handed_out (ask ∷ cs) q = with_job (pop_next_job lib q).0 (handed_out cs (pop_next_job lib q).1)

module _ {S Q : Type 0} (lib : QueueLib S Q) (list : S → Level → List Text)
    (redis : IsRedis lib list) where
  -- What enters is an item that reads.
  abbrev pub CanRead : QueueCall → Type 0
  CanRead (enter p) = IsItem lib list redis (lib.dumps p)
  CanRead ask = Unit

  handed_out-soon :
      (cs : List QueueCall) (q : JobQueue S Q) (us : List Text) (t : Text) (ws : List Text)
      (p : Payload)
      → All CanRead cs
      → IsReady lib list redis q
      → list q.redis normal ≡ us ++ (t ∷ ws)
      → lib.loads t ≡ some p
      → 5 * length us + (5 - q.pop_counter % 5) ≤ asks cs
      → IsIn p (handed_out lib cs q)
  unfolding handed_out
  handed_out-soon [] q us t ws p z r e l b = ground arith
  handed_out-soon (enter x ∷ cs) q us t ws p z r e l b =
      let w = enqueue_payload-Enters lib list redis x q z.0 r in
      let (more, grown) = w.more in
      rw w.runs (
        handed_out-soon cs w.after us t (ws ++ more) p z.1 w.ready
          (grown ∙ ap (λ z. z ++ more) e ∙ append_assoc us (t ∷ ws) more) l (rw w.counted b))
  handed_out-soon (ask ∷ cs) q [] t ws p z r e l b =
      let h = pop_next_job-Hands lib list redis q t ws r e in
      rw h.runs (elim h.moves [
        | inl (same, rest) ↦ inl (cc)
        | inr (f, rest) ↦ inr (
            handed_out-soon cs h.after [] t ws p z.1 h.ready rest l
              (rw h.counted (ground (arith, b, f))))
      ])
  handed_out-soon (ask ∷ cs) q (u ∷ us) t ws p z r e l b =
      let h = pop_next_job-Hands lib list redis q u (us ++ (t ∷ ws)) r e in
      rw h.runs (elim h.moves [
        | inl (same, rest) ↦ inr (
            handed_out-soon cs h.after us t ws p z.1 h.ready rest l
              (rw h.counted (ground (arith, b))))
        | inr (f, rest) ↦ inr (
            handed_out-soon cs h.after (u ∷ us) t ws p z.1 h.ready rest l
              (rw h.counted (ground (arith, b, f))))
      ])

  -- While Redis answers, from a state where it is connected and holds jobs only, and where `json` reads the jobs that
  -- enter: a job that stands in
  -- the list `normal` behind `length us` others has been handed out when jobs have been asked for
  -- `5 * length us + 5` times, whatever jobs of any priority enter before, between and after.
  pub handed_out-normal :
      (cs : List QueueCall) (q : JobQueue S Q) (us : List Text) (t : Text) (ws : List Text)
      (p : Payload)
      → All CanRead cs
      → IsReady lib list redis q
      → list q.redis normal ≡ us ++ (t ∷ ws)
      → lib.loads t ≡ some p
      → 5 * length us + 5 ≤ asks cs
      → IsIn p (handed_out lib cs q)
  handed_out-normal cs q us t ws p z r e l b =
      handed_out-soon cs q us t ws p z r e l (omega (arith, b))
