-- ===== src/Sessions/Rotation.antt =====
-- A refresh token works once: what `refresh_tokens` answers to a token that has been rotated.
use seo_agent_rct.Prelude.{
  ℕ, ◌≡◌, ◌⊎◌, inl, inr, refl, sym, ◌∙◌, ap, true, false, Option, none, some, List, [], ◌∷◌, ◌++◌,
  All, All-append, ◌==◌, arith, nat_key, Bool-cases, Option-cases, subst,
}
use seo_agent_rct.Dict
use seo_agent_rct.Dict.{Dict}
use seo_agent_rct.Text.{Text, is_empty, equals}
use seo_agent_rct.Sessions.{
  UserSession, UsedRefreshToken, AuthStore, token_reused, token_missing, refreshed, find_used,
  revoke_all, rotate, breach, compromised, refresh_with, refresh_tokens,
}
use seo_agent_rct.Sessions.Calls.{
  SessionCall, refresh, is_refreshed, refresh_with-Ends, perform, perform_all, Adds-perform,
  user-nonzero,
}

-- Every used token has a user.
abbrev IsOwned : AuthStore → Type 0
IsOwned s = All (λ u. (u.user_id == 0) ≡ false) s.used_tokens

-- No session of a user is active.
abbrev pub IsOut : ℕ → AuthStore → Type 0
IsOut user_id s =
    (id : ℕ) (session : UserSession)
    → Dict.get s.sessions id ≡ some session
    → session.user_id ≡ user_id
    → session.is_active ≡ false

revoke_all-IsOut :
    (user_id : ℕ) (d : Dict ℕ UserSession) (id : ℕ) (session : UserSession)
    → Dict.get (revoke_all user_id none d) id ≡ some session
    → session.user_id ≡ user_id
    → session.is_active ≡ false
unfolding revoke_all Dict.get
revoke_all-IsOut user_id [] id session h e = ground arith
revoke_all-IsOut user_id ((k, s) ∷ d) id session h e =
    ground (arith, revoke_all-IsOut user_id d id session)

find_used-append :
    (h : Text) (us vs : List UsedRefreshToken) (u : UsedRefreshToken)
    → find_used h us ≡ some u
    → find_used h (us ++ vs) ≡ some u
unfolding find_used
find_used-append h [] vs u e = ground arith
find_used-append h (v ∷ us) vs u e = ground (arith, find_used-append h us vs u)

find_used-last :
    (h : Text) (us : List UsedRefreshToken) (u : UsedRefreshToken)
    → find_used h us ≡ none
    → u.token_hash ≡ h
    → find_used h (us ++ (u ∷ [])) ≡ some u
unfolding find_used
find_used-last h [] u e same = ground arith
find_used-last h (v ∷ us) u e same = ground (arith, find_used-last h us u)

find_used-owned :
    (h : Text) (us : List UsedRefreshToken) (u : UsedRefreshToken)
    → All (λ v. (v.user_id == 0) ≡ false) us
    → find_used h us ≡ some u
    → (u.user_id == 0) ≡ false
unfolding find_used
find_used-owned h [] u o e = ground arith
find_used-owned h (v ∷ us) u o e = elim (Bool-cases (equals v.token_hash h)) [
  | inl same ↦ let first : v ≡ u = ground arith in ap (λ w. w.user_id == 0) (sym first) ∙ o.0
  | inr other ↦ find_used-owned h us u o.1 (ground arith)
]

module _ (hash_token : Text → Text) (timeout : ℕ) where
  -- The token has been used up.
  IsSpent : Text → AuthStore → Type 0
  IsSpent token s =
      (u : UsedRefreshToken) × (find_used (hash_token token) s.used_tokens ≡ some u)
      × ((u.user_id == 0) ≡ false)

  perform_all-IsSpent :
      (cs : List SessionCall) (token : Text) (s : AuthStore)
      → IsSpent token s
      → IsSpent token (perform_all hash_token timeout cs s)
  unfolding perform_all IsSpent
  perform_all-IsSpent [] token s h = h
  perform_all-IsSpent (c ∷ cs) token s (u, found, mine) =
      let a = Adds-perform hash_token timeout c s in
      perform_all-IsSpent cs token (perform hash_token timeout c s) (
        u,
        ap (find_used (hash_token token)) a.used
            ∙ find_used-append (hash_token token) s.used_tokens a.more u found,
        mine,
      )

  perform_all-IsOwned :
      (cs : List SessionCall) (s : AuthStore)
      → s.is_user 0 ≡ false
      → IsOwned s
      → IsOwned (perform_all hash_token timeout cs s)
        × ((perform_all hash_token timeout cs s).is_user 0 ≡ false)
  unfolding perform_all
  perform_all-IsOwned [] s z o = (o, z)
  perform_all-IsOwned (c ∷ cs) s z o =
      let a = Adds-perform hash_token timeout c s in
      perform_all-IsOwned cs (perform hash_token timeout c s) (ap (λ f. f 0) a.users ∙ z) (
        subst (All (λ u. (u.user_id == 0) ≡ false)) (sym a.used)
          (All-append _ s.used_tokens a.more o (a.owned z)))

  -- A token whose rotation succeeds is used up.
  rotate-IsSpent :
      (now : ℕ) (ip : Option Text) (token new : Text) (id : ℕ) (session : UserSession)
      (s : AuthStore)
      → IsOwned s
      → (session.user_id == 0) ≡ false
      → IsSpent token (rotate hash_token timeout now ip token new id session s)
  unfolding rotate IsSpent
  rotate-IsSpent now ip token new id session s o k =
      elim (Option-cases (find_used (hash_token token) s.used_tokens)) [
        | inl n ↦ (_, find_used-last (hash_token token) s.used_tokens _ n refl, k)
        | inr (u, e) ↦ (
          u,
          find_used-append (hash_token token) s.used_tokens _ u e,
          find_used-owned (hash_token token) s.used_tokens u o e,
        )
      ]

  spent_reused :
      (now : ℕ) (ip : Option Text) (token new : Text) (s : AuthStore)
      → IsSpent token s
      → (u : ℕ) × (refresh_with hash_token timeout now ip token new s
          ≡ (token_reused u, breach hash_token timeout u s))
  unfolding refresh_with compromised IsSpent
  spent_reused now ip token new s (u, found, mine) =
      (u.user_id, rw (refresh_with, compromised, found, mine) refl)

  with_token :
      (now : ℕ) (ip : Option Text) (token new : Text) (s : AuthStore)
      → (is_empty token ≡ false)
          × (refresh_tokens hash_token timeout now ip (some token) new s
              ≡ refresh_with hash_token timeout now ip token new s)
        ⊎ (is_empty token ≡ true)
          × (refresh_tokens hash_token timeout now ip (some token) new s ≡ (token_missing, s))
  unfolding refresh_tokens
  with_token now ip token new s = elim (Bool-cases (is_empty token)) [
    | inl e ↦ inr (e, rw (refresh_tokens, e) refl)
    | inr e ↦ inl (e, rw (refresh_tokens, e) refl)
  ]

  -- A refresh that is answered with a new token uses its own token up.
  refreshed-IsSpent :
      (now : ℕ) (ip : Option Text) (token new : Text) (s : AuthStore) (id : ℕ) (new' : Text)
      → IsOwned s
      → s.is_user 0 ≡ false
      → (refresh_tokens hash_token timeout now ip (some token) new s).0 ≡ refreshed id new'
      → (is_empty token ≡ false)
        × IsSpent token (refresh_tokens hash_token timeout now ip (some token) new s).1
  refreshed-IsSpent now ip token new s id new' o z h = elim (with_token now ip token new s) [
    | inr (e, r) ↦ let clash : token_missing ≡ refreshed id new' = sym (ap (λ w. w.0) r) ∙ h in cc
    | inl (e, r) ↦ elim (refresh_with-Ends hash_token timeout now ip token new s) [
      | inl (a, u, i) ↦
          let clash : true ≡ false = sym (ap is_refreshed (sym (ap (λ w. w.0) r) ∙ h)) ∙ a in cc
      | inr (k, session, q, yes_user) ↦ (
        e,
        subst (λ w. IsSpent token w.1) (sym (r ∙ q))
            (rotate-IsSpent now ip token new k session s o
              (user-nonzero s.is_user session.user_id z yes_user)),
      )
    ]
  ]

  -- From a store without used tokens, and with no user 0: once a refresh token has been exchanged for
  -- a new one, then whatever calls came before and come after, presenting it again is answered as a
  -- reuse, and after that no session of the user concerned is active.
  pub refresh_tokens-once :
      (calls later : List SessionCall) (s : AuthStore) (now : ℕ) (ip : Option Text)
      (token new : Text) (id : ℕ) (new' : Text) (now' : ℕ) (ip' : Option Text) (new'' : Text)
      → s.used_tokens ≡ []
      → s.is_user 0 ≡ false
      → (refresh_tokens hash_token timeout now ip
          (some token)
          new
          (perform_all hash_token timeout calls s)).0
        ≡ refreshed id new'
      → let s' = perform_all hash_token timeout later (
          perform hash_token timeout
            (refresh now ip (some token) new)
            (perform_all hash_token timeout calls s)) in
        let r = refresh_tokens hash_token timeout now' ip' (some token) new'' s' in
        (u : ℕ) × (r.0 ≡ token_reused u) × IsOut u r.1
  unfolding perform
  refresh_tokens-once calls later s now ip token new id new' now' ip' new'' none_used z h =
      let (o, z') =
        perform_all-IsOwned calls s z
          (subst (All (λ u. (u.user_id == 0) ≡ false)) (sym none_used) tt) in
      let (full, spent) =
        refreshed-IsSpent now ip token new (perform_all hash_token timeout calls s) id new' o z'
          h in
      let spent' =
        perform_all-IsSpent later token
          (perform hash_token timeout (refresh now ip (some token) new)
            (perform_all hash_token timeout calls s))
          spent in
      let s' = perform_all hash_token timeout later (
        perform hash_token timeout (refresh now ip (some token) new)
          (perform_all hash_token timeout calls s)) in
      let (u, e) = spent_reused now' ip' token new'' s' spent' in
      elim (with_token now' ip' token new'' s') [
        | inr (empty, r) ↦ let clash : true ≡ false = sym empty ∙ full in cc
        | inl (_, r) ↦ (
          u,
          ap (λ w. w.0) (r ∙ e),
          subst (λ w. IsOut u w.1) (sym (r ∙ e)) (revoke_all-IsOut u s'.sessions),
        )
      ]
