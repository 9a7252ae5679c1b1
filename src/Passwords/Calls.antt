-- ===== src/Passwords/Calls.antt =====
-- The requests that set passwords, and what they do to the history.
use seo_agent_rct.Prelude.{
  ℕ, suc, ◌≡◌, ◌⊎◌, inl, inr, refl, sym, ◌∙◌, subst, Bool, true, false, ◌||◌, Option, none, some,
  List, [], ◌∷◌, nat_key, Bool-cases, Option-cases,
}
use seo_agent_rct.Dict
use seo_agent_rct.Dict.{Dict}
use seo_agent_rct.Text.{Text}
use seo_agent_rct.Passwords.Hashing.{get_password_hash}
use seo_agent_rct.Passwords.{
  PasswordLib, PasswordHistory, PasswordStore, PasswordAnswer, password_set, no_such_user,
  wrong_password, password_reused, token_refused, password_weak, find_reset_token,
  request_password_reset, validate_password_strength, check_password_history, is_current,
  refuses_current, store_password, set_password, change_password, marked, confirm_password_reset,
  max_password_history,
}

-- A request that may change the tables.
pub data PasswordCall : Type 0 where
  change : Text → (user_id : ℕ) → (current new : Text) → PasswordCall
  reset : ℕ → Text → (token new : Text) → PasswordCall
  ask : ℕ → (user_id : Option ℕ) → (token : Text) → PasswordCall

-- The requests that may set a password.
unfoldable pub settings : List PasswordCall → ℕ
settings [] = 0
settings (change salt user_id current new ∷ cs) = suc (settings cs)
settings (reset now salt token new ∷ cs) = suc (settings cs)
settings (ask now user_id token ∷ cs) = settings cs

-- At most one entry is added, in front.
abbrev pub Grows : PasswordStore → PasswordStore → Type 0
Grows s s' = (s'.history ≡ s.history) ⊎ ((h : PasswordHistory) × (s'.history ≡ h ∷ s.history))

abbrev pub is_set : PasswordAnswer → Bool
is_set password_set = true
is_set _ = false

pub request-history :
    (now : ℕ) (user_id : Option ℕ) (token : Text) (s : PasswordStore)
    → (request_password_reset now user_id token s).history ≡ s.history
unfolding request_password_reset
request-history now none token s = refl
request-history now (some user_id) token s = refl

module _ (lib : PasswordLib) where
  unfoldable pub perform : PasswordCall → PasswordStore → PasswordStore
  perform (change salt user_id current new) s = (change_password lib salt user_id current new s).1
  perform (reset now salt token new) s = (confirm_password_reset lib now salt token new s).1
  perform (ask now user_id token) s = request_password_reset now user_id token s

  unfoldable pub perform_all : List PasswordCall → PasswordStore → PasswordStore
  perform_all [] s = s
  perform_all (c ∷ cs) s = perform_all cs (perform c s)

  Grows-set_password :
      (salt : Text) (user_id : ℕ) (password : Text) (hashed : Option Text) (s : PasswordStore)
      → Grows s (set_password lib salt user_id password hashed s).1
  unfolding set_password store_password
  Grows-set_password salt user_id password hashed s =
      elim (Bool-cases (
        check_password_history lib user_id password max_password_history s
        || is_current lib password hashed)) [
          | inl e ↦ inl (rw (set_password, e) refl)
          | inr e ↦ inr (
            record {
              user_id = user_id;
              hashed_password = get_password_hash lib.pbkdf2_hex salt password;
            },
            rw (set_password, e) refl,
          )
        ]

  pub Grows-change_password :
      (salt : Text) (user_id : ℕ) (current new : Text) (s : PasswordStore)
      → Grows s (change_password lib salt user_id current new s).1
  unfolding change_password
  Grows-change_password salt user_id current new s =
      elim (Option-cases (Dict.get s.passwords user_id)) [
        | inl e ↦ inl (rw (change_password, e) refl)
        | inr (hashed, e) ↦ elim (Bool-cases (refuses_current lib current hashed)) [
          | inl f ↦ inl (rw (change_password, e, f) refl)
          | inr f ↦ elim (Bool-cases (validate_password_strength lib new).0) [
            | inr g ↦ inl (rw (change_password, e, f, g) refl)
            | inl g ↦
                let eq : change_password lib salt user_id current new s
                    ≡ set_password lib salt user_id new hashed s =
                  rw (change_password, e, f, g) refl in
                subst (λ r. Grows s r.1) (sym eq) (Grows-set_password salt user_id new hashed s)
          ]
        ]
      ]

  marked-history :
      (token : Text) (r : PasswordAnswer × PasswordStore)
      → (marked lib token r).1.history ≡ r.1.history
  marked-history token (no_such_user, s) = refl
  marked-history token (wrong_password, s) = refl
  marked-history token (password_reused, s) = refl
  marked-history token (token_refused, s) = refl
  marked-history token (password_set, s) = refl
  marked-history token (password_weak weaknesses, s) = refl

  Grows-marked :
      (token : Text) (s : PasswordStore) (r : PasswordAnswer × PasswordStore)
      → Grows s r.1
      → Grows s (marked lib token r).1
  Grows-marked token s r (inl e) = inl (marked-history token r ∙ e)
  Grows-marked token s r (inr (h, e)) = inr (h, marked-history token r ∙ e)

  pub Grows-confirm_password_reset :
      (now : ℕ) (salt token new : Text) (s : PasswordStore)
      → Grows s (confirm_password_reset lib now salt token new s).1
  unfolding confirm_password_reset
  Grows-confirm_password_reset now salt token new s =
      elim (Bool-cases (validate_password_strength lib new).0) [
        | inr g ↦ inl (rw (confirm_password_reset, g) refl)
        | inl g ↦ elim (Option-cases (find_reset_token now token s.reset_tokens)) [
          | inl e ↦ inl (rw (confirm_password_reset, g, e) refl)
          | inr (t, e) ↦ elim (Option-cases (Dict.get s.passwords t.user_id)) [
            | inl f ↦ inl (rw (confirm_password_reset, g, e, f) refl)
            | inr (hashed, f) ↦
                let eq : confirm_password_reset lib now salt token new s
                    ≡ marked lib token (set_password lib salt t.user_id new hashed s) =
                  rw (confirm_password_reset, g, e, f) refl in
                subst (λ r. Grows s r.1) (sym eq)
                  (Grows-marked token s _ (Grows-set_password salt t.user_id new hashed s))
          ]
        ]
      ]

  -- How `change_password` ends: the store stays as it is, or the password is set by the shared part.
  pub change_password-or-set_password :
      (salt : Text) (user_id : ℕ) (current new : Text) (s : PasswordStore)
      → ((change_password lib salt user_id current new s).1 ≡ s)
          × (is_set (change_password lib salt user_id current new s).0 ≡ false)
        ⊎ ((hashed : Option Text) × (change_password lib salt user_id current new s
              ≡ set_password lib salt user_id new hashed s))
  unfolding change_password
  change_password-or-set_password salt user_id current new s =
      elim (Option-cases (Dict.get s.passwords user_id)) [
        | inl e ↦ inl (rw (change_password, e) (refl, refl))
        | inr (hashed, e) ↦ elim (Bool-cases (refuses_current lib current hashed)) [
          | inl f ↦ inl (rw (change_password, e, f) (refl, refl))
          | inr f ↦ elim (Bool-cases (validate_password_strength lib new).0) [
            | inr g ↦ inl (rw (change_password, e, f, g) (refl, refl))
            | inl g ↦ inr (hashed, rw (change_password, e, f, g) refl)
          ]
        ]
      ]
