-- ===== src/BrowserPool/Picking.antt =====
-- Choosing a browser keeps a pool loaded, and a context that gets it does.
use seo_agent_rct.Prelude.{
  ℕ, suc, ◌+◌, ◌≤◌, ◌≡◌, inl, inr, refl, sym, ◌∙◌, ap, subst, Bool, true, false, not, ◌&&◌, Option,
  none, some, List, [], ◌∷◌, ltb, ◌==◌, length, length-append, length-keep-le, max, All, All-append,
  All-weaken, keep-All, arith, Bool-cases,
}
use seo_agent_rct.BrowserPool.{
  BrowserPool, initialize, is_dropped, close_others, sort_by_load, launch, pick, count_up, opened,
  count,
}
use seo_agent_rct.BrowserPool.Calls.{Balanced, Loaded, IsLoaded}
use seo_agent_rct.BrowserPool.Ids.{sort_by_load-known, length-sort_by_load, count_unknown}

pub initialize-Loaded : (p : BrowserPool) (cs : List ℕ) → Loaded p cs → Loaded (initialize p) cs
unfolding initialize
initialize-Loaded p cs l = elim (Bool-cases (not p.playwright && not p.is_closed)) [
  | inr e ↦ rw (initialize, e) l
  | inl e ↦
      let fresh : p.semaphore ≡ none = elim l.begun [
        | inl n ↦ n
        | inr (inl t) ↦ ground arith
        | inr (inr t) ↦ ground arith
      ] in
      let idle : cs ≡ [] = subst (λ o. Balanced p.pool_size o cs) fresh l.balanced in
      rw (initialize, e)
        (record {
          loads = l.loads;
          balanced = omega (arith, ap length idle);
          few = l.few;
          known = l.known;
          known_contexts = l.known_contexts;
          begun = inr (inl refl);
        })
]

-- A pool that has a semaphore has been initialized.
pub initialize_again :
    (p : BrowserPool) (cs : List ℕ) (n : ℕ) → Loaded p cs → p.semaphore ≡ some n → initialize p ≡ p
unfolding initialize
initialize_again p cs n l e = elim l.begun [
  | inl f ↦ ground arith
  | inr (inl t) ↦ ground arith
  | inr (inr t) ↦ ground arith
]

pub close_others-Loaded :
    (stays : ℕ → Bool) (p : BrowserPool) (cs : List ℕ)
    → Loaded p cs
    → Loaded (close_others stays p) cs
close_others-Loaded stays p cs l = record {
  loads = λ id. elim (Bool-cases (is_dropped stays p.browsers id)) [
    | inl e ↦ rw e (l.loads id)
    | inr e ↦ rw e (l.loads id)
  ];
  balanced = l.balanced;
  few = omega (arith, length-keep-le stays p.browsers, l.few);
  known = keep-All (λ id. id ≤ p.counter) stays p.browsers l.known;
  known_contexts = l.known_contexts;
  begun = l.begun;
}

pub sorted-Loaded :
    (p : BrowserPool) (cs : List ℕ)
    → Loaded p cs
    → Loaded (record p { browsers = sort_by_load p.objects p.browsers }) cs
sorted-Loaded p cs l = record {
  loads = l.loads;
  balanced = l.balanced;
  few = subst (λ n. n ≤ max 1 p.pool_size) (sym (length-sort_by_load p.objects p.browsers)) l.few;
  known = sort_by_load-known p.objects p.counter p.browsers l.known;
  known_contexts = l.known_contexts;
  begun = l.begun;
}

-- A browser has been chosen in a pool that is loaded as before.
pub record Picked (p : BrowserPool) (cs : List ℕ) (r : Option ℕ × BrowserPool) : Type 0 where
  pub loaded : Loaded r.1 cs
  pub chosen : (id : ℕ) → r.0 ≡ some id → id ≤ r.1.counter
  pub same_semaphore : r.1.semaphore ≡ p.semaphore

launch-Picked :
    (now : ℕ) (launches : Bool) (p : BrowserPool) (cs : List ℕ)
    → suc (length p.browsers) ≤ max 1 p.pool_size
    → Loaded p cs
    → Picked p cs (launch now launches p)
unfolding launch
launch-Picked now true p cs room l = record {
  loaded = record {
    loads = λ k. elim (Bool-cases (suc p.counter == k)) [
      | inr e ↦ rw e (l.loads k)
      | inl e ↦ rw e (sym (count_unknown p.counter k cs (ground arith) l.known_contexts))
    ];
    balanced = l.balanced;
    few = omega (arith, length-append p.browsers (suc p.counter ∷ []), room);
    known =
        All-append (λ id. id ≤ suc p.counter) p.browsers (suc p.counter ∷ [])
          (All-weaken (λ id. id ≤ p.counter) (λ id. id ≤ suc p.counter) (λ id h. omega arith)
            p.browsers l.known)
          (omega arith, tt);
    known_contexts =
        All-weaken (λ id. id ≤ p.counter) (λ id. id ≤ suc p.counter) (λ id h. omega arith) cs
          l.known_contexts;
    begun = l.begun;
  };
  chosen = λ id e. ground arith;
  same_semaphore = refl;
}
launch-Picked now false p cs room l = record {
  loaded = record {
    loads = l.loads;
    balanced = l.balanced;
    few = l.few;
    known =
        All-weaken (λ id. id ≤ p.counter) (λ id. id ≤ suc p.counter) (λ id h. omega arith)
          p.browsers l.known;
    known_contexts =
        All-weaken (λ id. id ≤ p.counter) (λ id. id ≤ suc p.counter) (λ id h. omega arith) cs
          l.known_contexts;
    begun = l.begun;
  };
  chosen = λ id e. ground arith;
  same_semaphore = refl;
}

pub pick-Picked :
    (now : ℕ) (launches : Bool) (ids : List ℕ) (p : BrowserPool) (cs : List ℕ)
    → p.browsers ≡ ids
    → Loaded p cs
    → Picked p cs (pick now launches ids p)
unfolding pick
pick-Picked now launches [] p cs e l = launch-Picked now launches p cs (rw e (omega arith)) l
pick-Picked now launches (best ∷ rest) p cs e l =
    elim (Bool-cases
      (ltb (length (best ∷ rest)) p.pool_size && ltb 0 (p.objects best).active_contexts)) [
        | inl t ↦
            let room : suc (length p.browsers) ≤ max 1 p.pool_size = rw e (ground arith) in
            rw (pick, t) (launch-Picked now launches p cs room l)
        | inr f ↦
            let all : All (λ id. id ≤ p.counter) (best ∷ rest) =
              subst (All (λ id. id ≤ p.counter)) e l.known in
            rw (pick, f)
              (record {
                loaded = l;
                chosen = λ id h.
                    (let same : best ≡ id = ground arith in subst (λ k. k ≤ p.counter) same all.0);
                same_semaphore = refl;
              })
      ]

-- A permit is taken for the browser that is chosen.
pub opened-IsLoaded :
    (now permits : ℕ) (p : BrowserPool) (cs : List ℕ) (r : Option ℕ × BrowserPool)
    → p.semaphore ≡ some (suc permits)
    → Picked p cs r
    → IsLoaded (opened permits cs (count_up now r))
unfolding count
opened-IsLoaded now permits p cs (none, q) e k = k.loaded
opened-IsLoaded now permits p cs (some id, q) e k =
    let l = k.loaded in
    let full : suc permits + length cs ≡ q.pool_size =
      subst (λ o. Balanced q.pool_size o cs) (k.same_semaphore ∙ e) l.balanced in
    record {
      loads = λ j. elim (Bool-cases (id == j)) [
        | inr f ↦ rw (f, count) (l.loads j)
        | inl t ↦
            let same : id ≡ j = ground arith in
            rw (t, count) (ap suc (ap (λ i. (q.objects i).active_contexts) same ∙ l.loads j))
      ];
      balanced = omega (arith, full);
      few = l.few;
      known = l.known;
      known_contexts = (k.chosen id refl, l.known_contexts);
      begun = elim l.begun [
        | inl n ↦ (let clash : none ≡ some (suc permits) = sym n ∙ k.same_semaphore ∙ e in cc)
        | inr h ↦ inr h
      ];
    }
