-- ===== src/BrowserPool/Loads.antt =====
-- The loads of the browsers under any sequence of calls.
use seo_agent_rct.Prelude.{
  ℕ, zero, suc, ◌-◌, ◌≤◌, ◌≡◌, ◌⊎◌, inl, inr, refl, sym, ◌∙◌, ap, subst, Bool, true, false, Option,
  none, some, List, [], ◌∷◌, ltb, ◌==◌, arith, Bool-cases, Option-cases,
}
use seo_agent_rct.BrowserPool.{
  BrowserPool, Crawls, is_connected, initialize, close_others, recover, sort_by_load, pick,
  acquire_locked, acquire_browser, release_browser, cleanup_idle_browsers, close, ready, opened,
  enter_context, remove_one, count, give_back, mark_failed, leave_context,
}
use seo_agent_rct.BrowserPool.Calls.{
  PoolCall, enter, leave, clean, shut, perform, perform_all, Balanced, Loaded, IsLoaded,
}
use seo_agent_rct.BrowserPool.Ids.{count-remove_one, length-remove_one, remove_one-All}
use seo_agent_rct.BrowserPool.Picking.{
  initialize-Loaded, initialize_again, close_others-Loaded, sorted-Loaded, pick-Picked,
  opened-IsLoaded,
}

locked-IsLoaded :
    (now : ℕ) (connected : ℕ → Bool) (launches : Bool) (permits : ℕ) (p : BrowserPool) (cs : List ℕ)
    → p.semaphore ≡ some (suc permits)
    → Loaded p cs
    → IsLoaded (opened permits cs (acquire_locked now connected launches p))
unfolding acquire_locked recover
locked-IsLoaded now connected launches permits p cs e l =
    let stays = λ (id : ℕ). is_connected connected id (p.objects id) in
    let p' = close_others stays p in
    let sorted = sort_by_load p'.objects p'.browsers in
    opened-IsLoaded now permits (record p' { browsers = sorted }) cs
      (pick now launches sorted (record p' { browsers = sorted })) e
      (pick-Picked now launches sorted (record p' { browsers = sorted }) cs refl
        (sorted-Loaded p' cs (close_others-Loaded stays p cs l)))

acquired-IsLoaded :
    (now : ℕ) (connected : ℕ → Bool) (launches : Bool) (permits : ℕ) (p : BrowserPool) (cs : List ℕ)
    → p.semaphore ≡ some (suc permits)
    → Loaded p cs
    → IsLoaded (opened permits cs (acquire_browser now connected launches p))
unfolding acquire_browser
acquired-IsLoaded now connected launches permits p cs e l = elim (Bool-cases p.is_closed) [
  | inl t ↦
      let eq : acquire_browser now connected launches p ≡ (none, p) = ground arith in
      subst (λ r. IsLoaded (opened permits cs r)) (sym eq) l
  | inr f ↦
      let eq : acquire_browser now connected launches p
          ≡ acquire_locked now connected launches (initialize p) =
        ground arith in
      let again = initialize_again p cs (suc permits) l e in
      subst (λ r. IsLoaded (opened permits cs r))
        (sym (eq ∙ ap (acquire_locked now connected launches) again))
        (locked-IsLoaded now connected launches permits p cs e l)
]

ready-Loaded : (p : BrowserPool) (cs : List ℕ) → Loaded p cs → Loaded (ready p) cs
ready-Loaded p cs l = elim (Option-cases p.semaphore) [
  | inl e ↦ rw (ready, e) (initialize-Loaded p cs l)
  | inr (n, e) ↦ rw (ready, e) l
]

enter_context-IsLoaded :
    (now : ℕ) (connected : ℕ → Bool) (launches : Bool) (c : Crawls)
    → IsLoaded c
    → IsLoaded (enter_context now connected launches c)
unfolding enter_context
enter_context-IsLoaded now connected launches c l =
    let l' = ready-Loaded c.pool c.contexts l in
    elim (Option-cases (ready c.pool).semaphore) [
      | inl e ↦ rw (enter_context, e) l'
      | inr (zero, e) ↦ rw (enter_context, e) l'
      | inr (suc permits, e) ↦
          rw (enter_context, e)
            (acquired-IsLoaded now connected launches permits (ready c.pool) c.contexts e l')
    ]

give_back-Balanced :
    (size id : ℕ) (semaphore : Option ℕ) (cs : List ℕ)
    → 1 ≤ count id cs
    → Balanced size semaphore cs
    → Balanced size (give_back semaphore) (remove_one id cs)
unfolding count remove_one
give_back-Balanced size id none cs h b = rw b refl
give_back-Balanced size id (some n) cs h b = omega (arith, length-remove_one id cs h, b)

give_back-begun :
    (semaphore : Option ℕ) (rest : Type 0)
    → (semaphore ≡ none) ⊎ rest
    → (give_back semaphore ≡ none) ⊎ rest
give_back-begun semaphore rest (inl e) = inl (ap give_back e)
give_back-begun semaphore rest (inr h) = inr h

mark_failed-Loaded :
    (failed : Bool) (id : ℕ) (p : BrowserPool) (cs : List ℕ)
    → Loaded p cs
    → Loaded (mark_failed failed id p) cs
mark_failed-Loaded false id p cs l = l
mark_failed-Loaded true id p cs l = record {
  loads = λ k. elim (Bool-cases (id == k)) [
    | inr f ↦ rw f (l.loads k)
    | inl t ↦
        let same : id ≡ k = ground arith in
        rw t (ap (λ i. (p.objects i).active_contexts) same ∙ l.loads k)
  ];
  balanced = l.balanced;
  few = l.few;
  known = l.known;
  known_contexts = l.known_contexts;
  begun = l.begun;
}

leave_context-IsLoaded :
    (now id : ℕ) (failed : Bool) (c : Crawls)
    → 1 ≤ count id c.contexts
    → IsLoaded c
    → IsLoaded (leave_context now id failed c)
unfolding leave_context release_browser
leave_context-IsLoaded now id failed c h l =
    let p = mark_failed failed id c.pool in
    let m = mark_failed-Loaded failed id c.pool c.contexts l in
    record {
      loads = λ k. elim (Bool-cases (id == k)) [
        | inr f ↦ rw (count-remove_one id k c.contexts, f) (m.loads k)
        | inl t ↦
            let same : id ≡ k = ground arith in
            rw (count-remove_one id k c.contexts, t)
              (ap (λ n. n - 1) (ap (λ i. (p.objects i).active_contexts) same ∙ m.loads k))
      ];
      balanced = give_back-Balanced p.pool_size id p.semaphore c.contexts h m.balanced;
      few = m.few;
      known = m.known;
      known_contexts = remove_one-All (λ i. i ≤ p.counter) id c.contexts m.known_contexts;
      begun = give_back-begun p.semaphore _ m.begun;
    }

close-Loaded : (p : BrowserPool) (cs : List ℕ) → Loaded p cs → Loaded (close p) cs
unfolding close
close-Loaded p cs l =
    let m = close_others-Loaded (λ id. false) p cs l in
    record {
      loads = m.loads;
      balanced = m.balanced;
      few = m.few;
      known = m.known;
      known_contexts = m.known_contexts;
      begun = inr (inr refl);
    }

perform-IsLoaded : (k : PoolCall) (c : Crawls) → IsLoaded c → IsLoaded (perform k c)
unfolding perform cleanup_idle_browsers
perform-IsLoaded (enter now connected launches) c l =
    enter_context-IsLoaded now connected launches c l
perform-IsLoaded (leave now id failed) c l = elim (Bool-cases (ltb 0 (count id c.contexts))) [
  | inl t ↦ rw (perform, t) (leave_context-IsLoaded now id failed c (ground arith) l)
  | inr f ↦ rw (perform, f) l
]
perform-IsLoaded (clean now connected) c l = close_others-Loaded _ c.pool c.contexts l
perform-IsLoaded shut c l = close-Loaded c.pool c.contexts l

-- From a pool that is loaded, such as a new one without contexts, after any calls and whatever the
-- browsers do: the load of every browser is the number of its open contexts, the open contexts are no
-- more than the size of the pool, since the permits that are left make up the rest, and the pool has
-- no more browsers than its size, or one.
pub perform_all-IsLoaded :
    (ks : List PoolCall) (c : Crawls) → IsLoaded c → IsLoaded (perform_all ks c)
unfolding perform_all
perform_all-IsLoaded [] c l = l
perform_all-IsLoaded (k ∷ ks) c l = perform_all-IsLoaded ks (perform k c) (perform-IsLoaded k c l)
