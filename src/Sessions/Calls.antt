-- ===== src/Sessions/Calls.antt =====
-- The calls that change the tables of the sessions, and what they do to the used tokens.
use seo_agent_rct.Prelude.{
  ℕ, zero, suc, ◌≡◌, ◌⊎◌, inl, inr, refl, sym, ◌∙◌, Bool, true, false, Option, List, [], ◌∷◌, ◌++◌,
  All, ◌==◌, ltb, arith, nat_key, Bool-cases, Option-cases, subst,
}
use mathlib.Core.List.{append-nil}
use seo_agent_rct.Text.{Text, truthy}
use seo_agent_rct.Sessions.{
  UserSession, UsedRefreshToken, AuthStore, RefreshAnswer, refreshed, find_session, revoke_all,
  deactivate, revoke_session, create_session, rotate, is_idle, refresh_session, compromised,
  refresh_with, refresh_tokens,
}

-- A call that changes the tables of the sessions.
pub data SessionCall : Type 0 where
  log_in : (now user_id : ℕ) → Text → (expires_at : ℕ) → Option Text → Bool → SessionCall
  refresh : ℕ → Option Text → Option Text → Text → SessionCall
  revoke : (session_id user_id : ℕ) → SessionCall
  revoke_others : (user_id : ℕ) → (except_session_id : Option ℕ) → SessionCall

abbrev pub is_refreshed : RefreshAnswer → Bool
is_refreshed (refreshed id token) = true
is_refreshed _ = false

-- Used tokens are only added, with users.
pub record Adds (s s' : AuthStore) : Type 0 where
  pub more : List UsedRefreshToken
  pub used : s'.used_tokens ≡ s.used_tokens ++ more
  pub owned : s.is_user 0 ≡ false → All (λ u. (u.user_id == 0) ≡ false) more
  pub users : s'.is_user ≡ s.is_user

Adds-none : (s s' : AuthStore) → s'.used_tokens ≡ s.used_tokens → s'.is_user ≡ s.is_user → Adds s s'
Adds-none s s' u e = record {
  more = [];
  used = u ∙ sym (append-nil s.used_tokens);
  owned = λ h. tt;
  users = e;
}

pub user-nonzero :
    (is_user : ℕ → Bool) (n : ℕ) → is_user 0 ≡ false → is_user n ≡ true → (n == 0) ≡ false
user-nonzero is_user zero h k = ground arith
user-nonzero is_user (suc n) h k = ground arith

module _ (hash_token : Text → Text) (timeout : ℕ) where
  -- How `refresh_tokens` ends: no token is used up, or the session of the token is rotated.
  abbrev pub Ends : ℕ → Option Text → Text → Text → AuthStore → RefreshAnswer × AuthStore → Type 0
  Ends now ip token new s r =
      (is_refreshed r.0 ≡ false) × (r.1.used_tokens ≡ s.used_tokens) × (r.1.is_user ≡ s.is_user)
      ⊎ ((id : ℕ) × (session : UserSession) × (r
            ≡ (refreshed id new, rotate hash_token timeout now ip token new id session s))
          × (s.is_user session.user_id ≡ true))

  refresh_session-Ends :
      (now : ℕ) (ip : Option Text) (token new : Text) (id : ℕ) (session : UserSession)
      (s : AuthStore)
      → Ends now ip token new s (refresh_session hash_token timeout now ip token new id session s)
  unfolding refresh_session deactivate
  refresh_session-Ends now ip token new id session s =
      elim (Bool-cases (ltb session.expires_at now)) [
        | inl e ↦ inl (rw (refresh_session, e) (refl, refl, refl))
        | inr e ↦ elim (Bool-cases (is_idle timeout now session.last_active_at)) [
          | inl f ↦ inl (rw (refresh_session, e, f) (refl, refl, refl))
          | inr f ↦ elim (Bool-cases (s.is_user session.user_id)) [
            | inl g ↦ inr (id, session, rw (refresh_session, e, f, g) refl, g)
            | inr g ↦ inl (rw (refresh_session, e, f, g) (refl, refl, refl))
          ]
        ]
      ]

  pub refresh_with-Ends :
      (now : ℕ) (ip : Option Text) (token new : Text) (s : AuthStore)
      → Ends now ip token new s (refresh_with hash_token timeout now ip token new s)
  unfolding refresh_with
  refresh_with-Ends now ip token new s =
      elim (Option-cases (compromised hash_token timeout token s)) [
        | inr (u, e) ↦ inl (rw (refresh_with, e) (refl, refl, refl))
        | inl e ↦ elim (Option-cases (find_session token s.sessions)) [
          | inl f ↦ inl (rw (refresh_with, e, f) (refl, refl, refl))
          | inr ((id, session), f) ↦
              subst (Ends now ip token new s) (sym (rw (refresh_with, e, f) refl))
                (refresh_session-Ends now ip token new id session s)
        ]
      ]

  -- One call.
  unfoldable pub perform : SessionCall → AuthStore → AuthStore
  perform (log_in now user_id token expires_at ip remember_me) s =
      create_session now user_id token expires_at ip remember_me s
  perform (refresh now ip token new_token) s =
      (refresh_tokens hash_token timeout now ip token new_token s).1
  perform (revoke session_id user_id) s = (revoke_session session_id user_id s).1
  perform (revoke_others user_id except_id) s = record s {
    sessions = revoke_all user_id except_id s.sessions;
  }

  unfoldable pub perform_all : List SessionCall → AuthStore → AuthStore
  perform_all [] s = s
  perform_all (c ∷ cs) s = perform_all cs (perform c s)

  Adds-rotate :
      (now : ℕ) (ip : Option Text) (token new : Text) (id : ℕ) (session : UserSession)
      (s : AuthStore)
      → s.is_user session.user_id ≡ true
      → Adds s (rotate hash_token timeout now ip token new id session s)
  unfolding rotate
  Adds-rotate now ip token new id session s k = record {
    more = _;
    used = refl;
    owned = λ h. (user-nonzero s.is_user session.user_id h k, tt);
    users = refl;
  }

  Adds-Ends :
      (now : ℕ) (ip : Option Text) (token new : Text) (s : AuthStore)
      (r : RefreshAnswer × AuthStore)
      → Ends now ip token new s r
      → Adds s r.1
  Adds-Ends now ip token new s r (inl (a, u, e)) = Adds-none s r.1 u e
  Adds-Ends now ip token new s r (inr (id, session, e, k)) =
      subst (λ z. Adds s z.1) (sym e) (Adds-rotate now ip token new id session s k)

  Adds-refresh :
      (now : ℕ) (ip token : Option Text) (new : Text) (s : AuthStore)
      → Adds s (refresh_tokens hash_token timeout now ip token new s).1
  unfolding refresh_tokens
  Adds-refresh now ip token new s = elim (Option-cases (truthy token)) [
    | inl e ↦ Adds-none s _ (rw (refresh_tokens, e) refl) (rw (refresh_tokens, e) refl)
    | inr (t, e) ↦
        let eq : refresh_tokens hash_token timeout now ip token new s
            ≡ refresh_with hash_token timeout now ip t new s =
          rw (refresh_tokens, e) refl in
        subst (λ z. Adds s z.1) (sym eq)
          (Adds-Ends now ip t new s _ (refresh_with-Ends now ip t new s))
  ]

  Adds-revoke :
      (session_id user_id : ℕ) (s : AuthStore) → Adds s (revoke_session session_id user_id s).1
  unfolding revoke_session deactivate
  Adds-revoke session_id user_id s = Adds-none s _ (ground arith) (ground arith)

  pub Adds-perform : (c : SessionCall) (s : AuthStore) → Adds s (perform c s)
  unfolding perform create_session
  Adds-perform (log_in now user_id token expires_at ip remember_me) s = Adds-none s _ refl refl
  Adds-perform (refresh now ip token new) s = Adds-refresh now ip token new s
  Adds-perform (revoke session_id user_id) s = Adds-revoke session_id user_id s
  Adds-perform (revoke_others user_id except_id) s = Adds-none s _ refl refl
