-- ===== src/Queue/Entries.antt =====
-- What `enqueue` of backend/queue.py leaves while Redis answers.
use seo_agent_rct.Prelude.{
  ◌≡◌, inl, inr, refl, sym, ◌∙◌, ap, Bool, true, false, List, [], ◌∷◌, ◌++◌, All, All-append, ◌==◌,
  if◌then◌else◌, Option-cases, subst,
}
use mathlib.Core.List.{append-nil}
use seo_agent_rct.Text.{Text, truthy}
use seo_agent_rct.Queue.{Level, normal, Payload, QueueLib, JobQueue, push_to_redis, enqueue_payload}
use seo_agent_rct.Queue.Answers.{place, IsRedis, IsReady, IsItem, IsClean, is_redis_active_ready}

module _ {S Q : Type 0} (lib : QueueLib S Q) (list : S → Level → List Text)
    (redis : IsRedis lib list) where
  -- What a job that enters leaves: the lists with some items more at their ends.
  pub record Enters (p : Payload) (q : JobQueue S Q) : Type 0 where
    pub after : JobQueue S Q
    pub runs : (enqueue_payload lib p q).1 ≡ after
    pub ready : IsReady lib list redis after
    pub counted : after.pop_counter ≡ q.pop_counter
    pub more : (us : List Text) × (list after.redis normal ≡ list q.redis normal ++ us)

  add-All :
      (b : Bool) (t : Text) (ts : List Text)
      → IsItem lib list redis t
      → All (IsItem lib list redis) ts
      → All (IsItem lib list redis) (if b then ts ++ (t ∷ []) else ts)
  add-All true t ts h k = All-append (IsItem lib list redis) ts (t ∷ []) k (h, tt)
  add-All false t ts h k = k

  add-more :
      (b : Bool) (t : Text) (ts : List Text)
      → (us : List Text) × ((if b then ts ++ (t ∷ []) else ts) ≡ ts ++ us)
  add-more true t ts = (t ∷ [], refl)
  add-more false t ts = ([], sym (append-nil ts))

  -- What `push_to_redis` leaves.
  record Pushed (p : Payload) (s : S) (r : Bool × S) : Type 0 where
    state : S
    runs : r ≡ (true, state)
    clean : IsClean lib list redis state
    more : (us : List Text) × (list state normal ≡ list s normal ++ us)

  rpush-Pushed :
      (p : Payload) (s : S)
      → IsItem lib list redis (lib.dumps p)
      → IsClean lib list redis s
      → Pushed p s (lib.rpush p.priority (lib.dumps p) s)
  rpush-Pushed p s h c =
      let (s', runs, lists) = redis.rpush-runs p.priority (lib.dumps p) s in
      let (us, grown) = add-more (place p.priority == place normal) (lib.dumps p) (list s normal) in
      record {
        state = s';
        runs = runs;
        clean = λ j.
            subst (All (IsItem lib list redis)) (sym (lists j))
              (add-All (place p.priority == place j) (lib.dumps p) (list s j) h (c j));
        more = (us, lists normal ∙ grown);
      }

  push_to_redis-Pushed :
      (p : Payload) (s : S)
      → IsItem lib list redis (lib.dumps p)
      → IsClean lib list redis s
      → Pushed p s (push_to_redis lib p s)
  unfolding push_to_redis
  push_to_redis-Pushed p s h c =
      let w = rpush-Pushed p s h c in
      elim (Option-cases (truthy p.group_id)) [
        | inl n ↦ record {
          state = w.state;
          runs = rw (push_to_redis, w.runs, n) (ap (λ r. (true, r.1)) w.runs);
          clean = w.clean;
          more = w.more;
        }
        | inr (g, e) ↦
            let (s₁, runs₁, lists₁) = redis.sadd_job-runs g p.job_id w.state in
            let (s₂, runs₂, lists₂) = redis.sadd_group-runs g s₁ in
            record {
              state = s₂;
              runs = rw (push_to_redis, w.runs, e, ap (λ r. r.1) w.runs, runs₁) runs₂;
              clean =
                  λ j. subst (All (IsItem lib list redis)) (sym (lists₂ j ∙ lists₁ j)) (w.clean j);
              more = (w.more.0, lists₂ normal ∙ lists₁ normal ∙ w.more.1);
            }
      ]

  pub enqueue_payload-Enters :
      (p : Payload) (q : JobQueue S Q)
      → IsItem lib list redis (lib.dumps p)
      → IsReady lib list redis q
      → Enters p q
  unfolding enqueue_payload
  enqueue_payload-Enters p q h r =
      let w = push_to_redis-Pushed p q.redis h r.clean in
      record {
        after = record q { redis = w.state };
        runs = rw (enqueue_payload, is_redis_active_ready lib list redis q r, w.runs) refl;
        ready = record { used = r.used; connected = r.connected; clean = w.clean };
        counted = refl;
        more = w.more;
      }
