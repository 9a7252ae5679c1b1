-- ===== src/Queue/Tests.antt =====
-- Four lists as a Redis that always answers.
use seo_agent_rct.Prelude.{
  ℕ, refl, pos, true, Option, none, some, List, [], ◌∷◌, ◌++◌, All, arith, ◌==◌, if◌then◌else◌,
}
use seo_agent_rct.Text.{Text}
use seo_agent_rct.Queue.{Level, high, normal, low, plain, Payload, QueueLib, JobQueue}
use seo_agent_rct.Queue.Answers.{place, head, tail, IsRedis, IsItem}
use seo_agent_rct.Queue.Fairness.{QueueCall, enter, ask, IsIn, handed_out, handed_out-normal}

abbrev Lists : Type 0
Lists = Level → List Text

abbrev change : (List Text → List Text) → Level → Lists → Lists
change f k s j = if place k == place j then f (s j) else s j

abbrev pop_at : Level → Lists → Option (Option Text) × Lists
pop_at k s = (some (head (s k)), change tail k s)

abbrev pick :
    List Text
    → Option (Option Text) × Lists
    → Option (Option Text) × Lists
    → Option (Option Text) × Lists
pick [] taken rest = rest
pick (t ∷ ts) taken rest = taken

abbrev pop_first : List Level → Lists → Option (Option Text) × Lists
pop_first [] s = (some none, s)
pop_first (k ∷ ks) s = let rest = pop_first ks s in pick (s k) (pop_at k s) rest

-- A job is its number.
abbrev job : ℕ → Payload
job n = record {
  job_type = "crawl";
  job_id = n;
  user_id = 1;
  priority = normal;
  priority_val = pos 5;
  group_id = none;
  trace_id = [];
  params = [];
  enqueued_at = 0;
}

abbrev read : Text → Option Payload
read [] = none
read (n ∷ s) = some (job n)

abbrev answering : QueueLib Lists (List Payload)
answering = record {
  connects = λ s. true;
  rpush = λ k t s. (true, change (λ ts. ts ++ (t ∷ [])) k s);
  lpop = pop_at;
  blpop = pop_first;
  llen = λ k s. (some 0, s);
  sadd_job = λ g j s. (true, s);
  sadd_group = λ g s. (true, s);
  smembers = λ g s. (some [], s);
  delete_group = λ g s. (true, s);
  put = λ v j p mem. some (p ∷ mem);
  get = λ mem. none;
  qsize = λ mem. 0;
  dumps = λ p. p.job_id ∷ [];
  loads = read;
  lower = λ s. s;
  trace_of = λ n. n ∷ [];
}

abbrev lists : Lists → Level → List Text
lists s k = s k

answering-IsRedis : IsRedis answering lists
answering-IsRedis = record {
  rpush-runs = λ k t s. (change (λ ts. ts ++ (t ∷ [])) k s, refl, λ j. refl);
  lpop-runs = λ k s. (change tail k s, refl, λ j. refl);
  blpop-skip = λ k ks s e. rw e refl;
  blpop-take = λ k ks s t ts e. rw e refl;
  sadd_job-runs = λ g j s. (s, refl, λ k. refl);
  sadd_group-runs = λ g s. (s, refl, λ k. refl);
}

-- Two jobs of `high` and two of `normal`.
abbrev queued : Lists
queued high = (1 ∷ []) ∷ (2 ∷ []) ∷ []
queued normal = (3 ∷ []) ∷ (4 ∷ []) ∷ []
queued low = []
queued plain = []

abbrev queue : JobQueue Lists (List Payload)
queue = record {
  use_redis_queue = true;
  redis_connected = true;
  redis = queued;
  in_memory_queue = [];
  in_memory_groups = [];
  pop_counter = 7;
}

abbrev calls : List QueueCall
calls =
    ask ∷ ask ∷ enter (job 5) ∷ ask ∷ ask ∷ ask ∷ ask ∷ enter (job 6) ∷ ask ∷ ask ∷ ask ∷ ask ∷ []

queued-All : (k : Level) → All (IsItem answering lists answering-IsRedis) (queued k)
queued-All high = ((refl, (job 1, refl)), ((refl, (job 2, refl)), tt))
queued-All normal = ((refl, (job 3, refl)), ((refl, (job 4, refl)), tt))
queued-All low = tt
queued-All plain = tt

handed_out-normal_example : IsIn (job 4) (handed_out answering calls queue)
handed_out-normal_example =
    handed_out-normal answering lists answering-IsRedis calls queue ((3 ∷ []) ∷ []) (4 ∷ []) []
      (job 4)
      (
        tt,
        (
          tt,
          (
            (refl, (job 5, refl)),
            (tt, (tt, (tt, (tt, ((refl, (job 6, refl)), (tt, (tt, (tt, (tt, tt))))))))),
          ),
        ),
      )
      (record { used = refl; connected = refl; clean = queued-All }) refl refl (omega arith)
