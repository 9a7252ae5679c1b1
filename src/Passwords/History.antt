-- ===== src/Passwords/History.antt =====
-- The password history over a sequence of changes: a password is refused while it is recent.
use seo_agent_rct.Prelude.{
  ℕ, zero, suc, ◌+◌, ◌-◌, ◌≤◌, ◌≡◌, inl, inr, refl, sym, ◌∙◌, ap, subst, true, false, ◌||◌, Option,
  List, [], ◌∷◌, ◌==◌, arith, nat_key, Bool-cases, take,
}
use seo_agent_rct.Text.{Text}
use seo_agent_rct.Passwords.Hashing.{
  has_dollar, get_password_hash, verify_password, verify_password-get_password_hash,
}
use seo_agent_rct.Passwords.{
  PasswordLib, PasswordHistory, PasswordStore, password_set, password_reused, hashes_of,
  request_password_reset, verifies_any, check_password_history, is_current, store_password,
  set_password, change_password, confirm_password_reset, max_password_history,
}
use seo_agent_rct.Passwords.Calls.{
  PasswordCall, change, reset, ask, settings, Grows, is_set, perform, perform_all,
  Grows-change_password, Grows-confirm_password_reset, request-history,
  change_password-or-set_password,
}

add_suc : (m k : ℕ) → m + suc k ≡ suc m + k
add_suc m k = omega arith

zero_add : (k : ℕ) → k ≡ 0 + k
zero_add k = omega arith

suc_add : (m k : ℕ) → suc (m + k) ≡ suc m + k
suc_add m k = omega arith

module _ (lib : PasswordLib) where
  -- One of the k newest passwords of the user is this one.
  abbrev IsRecent : ℕ → Text → ℕ → List PasswordHistory → Type 0
  IsRecent user_id password k hs = verifies_any lib password (take k (hashes_of user_id hs)) ≡ true

  verifies_any-take-suc :
      (password : Text) (k : ℕ) (l : List Text)
      → verifies_any lib password (take k l) ≡ true
      → verifies_any lib password (take (suc k) l) ≡ true
  unfolding verifies_any
  verifies_any-take-suc password zero l e = ground arith
  verifies_any-take-suc password (suc k) [] e = e
  verifies_any-take-suc password (suc k) (h ∷ l) e =
      ground (arith, verifies_any-take-suc password k l)

  verifies_any-take_mono :
      (password : Text) (d k : ℕ) (l : List Text)
      → verifies_any lib password (take k l) ≡ true
      → verifies_any lib password (take (d + k) l) ≡ true
  verifies_any-take_mono password zero k l e =
      subst (λ n. verifies_any lib password (take n l) ≡ true) (zero_add k) e
  verifies_any-take_mono password (suc d) k l e =
      subst (λ n. verifies_any lib password (take n l) ≡ true) (suc_add d k)
        (verifies_any-take-suc password (d + k) l (verifies_any-take_mono password d k l e))

  IsRecent-cons :
      (user_id : ℕ) (password : Text) (k : ℕ) (h : PasswordHistory) (hs : List PasswordHistory)
      → IsRecent user_id password k hs
      → IsRecent user_id password (suc k) (h ∷ hs)
  unfolding hashes_of verifies_any
  IsRecent-cons user_id password k h hs e = elim (Bool-cases (h.user_id == user_id)) [
    | inl mine ↦ rw (hashes_of, mine, verifies_any, e) (ground arith)
    | inr other ↦ rw (hashes_of, other) (verifies_any-take-suc password k (hashes_of user_id hs) e)
  ]

  IsRecent-Grows :
      (user_id : ℕ) (password : Text) (k : ℕ) (s s' : PasswordStore)
      → Grows s s'
      → IsRecent user_id password k s.history
      → IsRecent user_id password (suc k) s'.history
  IsRecent-Grows user_id password k s s' (inl e) r =
      subst (IsRecent user_id password (suc k)) (sym e)
        (verifies_any-take-suc password k (hashes_of user_id s.history) r)
  IsRecent-Grows user_id password k s s' (inr (h, e)) r =
      subst (IsRecent user_id password (suc k)) (sym e)
        (IsRecent-cons user_id password k h s.history r)

  perform_all-IsRecent :
      (cs : List PasswordCall) (user_id : ℕ) (password : Text) (k : ℕ) (s : PasswordStore)
      → IsRecent user_id password k s.history
      → IsRecent user_id password (settings cs + k) (perform_all lib cs s).history
  unfolding perform_all perform settings
  perform_all-IsRecent [] user_id password k s r =
      subst (λ n. IsRecent user_id password n s.history) (zero_add k) r
  perform_all-IsRecent (change salt user current new ∷ cs) user_id password k s r =
      let s' = (change_password lib salt user current new s).1 in
      subst (λ n. IsRecent user_id password n (perform_all lib cs s').history)
        (add_suc (settings cs) k)
        (perform_all-IsRecent cs user_id password (suc k) s' (
          IsRecent-Grows user_id password k s s' (Grows-change_password lib salt user current new s)
            r))
  perform_all-IsRecent (reset now salt token new ∷ cs) user_id password k s r =
      let s' = (confirm_password_reset lib now salt token new s).1 in
      subst (λ n. IsRecent user_id password n (perform_all lib cs s').history)
        (add_suc (settings cs) k)
        (perform_all-IsRecent cs user_id password (suc k) s' (
          IsRecent-Grows user_id password k s s'
            (Grows-confirm_password_reset lib now salt token new s) r))
  perform_all-IsRecent (ask now user token ∷ cs) user_id password k s r =
      perform_all-IsRecent cs user_id password k (request_password_reset now user token s)
        (subst (IsRecent user_id password k) (sym (request-history now user token s)) r)

  IsRecent-first :
      (user_id : ℕ) (password hash : Text) (hs : List PasswordHistory)
      → verify_password lib.pbkdf2_hex password hash ≡ true
      → IsRecent user_id password 1 (record { user_id = user_id; hashed_password = hash } ∷ hs)
  unfolding hashes_of verifies_any
  IsRecent-first user_id password hash hs e = ground arith

  -- The password that has just been set is the newest.
  set_password-IsRecent :
      (salt : Text) (user_id : ℕ) (password : Text) (hashed : Option Text) (s : PasswordStore)
      → verify_password lib.pbkdf2_hex password (get_password_hash lib.pbkdf2_hex salt password)
        ≡ true
      → (set_password lib salt user_id password hashed s).0 ≡ password_set
      → IsRecent user_id password 1 (set_password lib salt user_id password hashed s).1.history
  unfolding set_password store_password hashes_of verifies_any
  set_password-IsRecent salt user_id password hashed s law e =
      elim (Bool-cases (
        check_password_history lib user_id password max_password_history s
        || is_current lib password hashed)) [
          | inl f ↦
              let refused : (set_password lib salt user_id password hashed s).0 ≡ password_reused =
                rw (set_password, f) refl in
              let clash : true ≡ false = ap is_set (sym e ∙ refused) in cc
          | inr f ↦
              rw (set_password, f, store_password)
                (IsRecent-first user_id password (get_password_hash lib.pbkdf2_hex salt password)
                  s.history law)
        ]

  change_password-IsRecent :
      (salt : Text) (user_id : ℕ) (current password : Text) (s : PasswordStore)
      → verify_password lib.pbkdf2_hex password (get_password_hash lib.pbkdf2_hex salt password)
        ≡ true
      → (change_password lib salt user_id current password s).0 ≡ password_set
      → IsRecent user_id password 1 (change_password lib salt user_id current password s).1.history
  change_password-IsRecent salt user_id current password s law set =
      elim (change_password-or-set_password lib salt user_id current password s) [
        | inl (same, no_set) ↦ let clash : true ≡ false = sym (ap is_set set) ∙ no_set in cc
        | inr (hashed, e) ↦
            subst (λ r. IsRecent user_id password 1 r.1.history) (sym e)
              (set_password-IsRecent salt user_id password hashed s law
                (sym (ap (λ r. r.0) e) ∙ set))
      ]

  IsRecent-five :
      (user_id : ℕ) (password : Text) (k : ℕ) (hs : List PasswordHistory)
      → k ≤ 5
      → IsRecent user_id password k hs
      → IsRecent user_id password 5 hs
  IsRecent-five user_id password k hs few r =
      let five : (5 - k) + k ≡ 5 = omega arith in
      subst (λ n. IsRecent user_id password n hs) five
        (verifies_any-take_mono password (5 - k) k (hashes_of user_id hs) r)

  -- A recent password is refused.
  set_password-recent :
      (salt : Text) (user_id : ℕ) (password : Text) (hashed : Option Text) (s : PasswordStore)
      → IsRecent user_id password 5 s.history
      → set_password lib salt user_id password hashed s ≡ (password_reused, s)
  unfolding set_password check_password_history
  set_password-recent salt user_id password hashed s r =
      rw (set_password, check_password_history, r) refl

  change_password-recent :
      (salt : Text) (user_id : ℕ) (current password : Text) (s : PasswordStore)
      → IsRecent user_id password 5 s.history
      → let r = change_password lib salt user_id current password s in
        (r.1 ≡ s) × ¬ (r.0 ≡ password_set)
  change_password-recent salt user_id current password s r =
      elim (change_password-or-set_password lib salt user_id current password s) [
        | inl (same, no_set) ↦
            (same, λ set. let clash : true ≡ false = sym (ap is_set set) ∙ no_set in cc)
        | inr (hashed, e) ↦
            let refused = e ∙ set_password-recent salt user_id password hashed s r in
            (
              ap (λ z. z.1) refused,
              λ set.
                  let clash : true ≡ false = sym (ap is_set set) ∙ ap (λ z. is_set z.0) refused in
                  cc,
            )
      ]

  -- If the salt that is drawn and the digits of PBKDF2 have no dollar sign, as hexadecimal digits have
  -- none, then a password that a user has set by changing it cannot be set again: after any requests,
  -- of any users, of which at most four may set a password, a change to it leaves everything as it is
  -- and is not answered as set.
  pub change_password-refuses_recent :
      (salt : Text) (user_id : ℕ) (current password : Text) (s : PasswordStore)
      (cs : List PasswordCall) (salt' current' : Text)
      → has_dollar salt ≡ false
      → ((password' salt'' : Text) → has_dollar (lib.pbkdf2_hex password' salt'') ≡ false)
      → (change_password lib salt user_id current password s).0 ≡ password_set
      → settings cs ≤ 4
      → let s' = perform_all lib cs (change_password lib salt user_id current password s).1 in
        let r = change_password lib salt' user_id current' password s' in
        (r.1 ≡ s') × ¬ (r.0 ≡ password_set)
  change_password-refuses_recent salt user_id current password s cs salt' current' plain_salt hex
        set few =
      let law =
        verify_password-get_password_hash lib.pbkdf2_hex salt password plain_salt
          (hex password salt) in
      let s0 = (change_password lib salt user_id current password s).1 in
      let s' = perform_all lib cs s0 in
      change_password-recent salt' user_id current' password s' (
        IsRecent-five user_id password (settings cs + 1) s'.history (omega arith) (
          perform_all-IsRecent cs user_id password 1 s0
            (change_password-IsRecent salt user_id current password s law set)))
