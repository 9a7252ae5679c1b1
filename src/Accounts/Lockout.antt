-- ===== src/Accounts/Lockout.antt =====
-- Attempts to log in, one after another.
use seo_agent_rct.Prelude.{
  ℕ, zero, suc, ◌+◌, ◌-◌, ◌^◌, ◌≤◌, ◌<◌, ◌≡◌, refl, Bool, true, none, some, List, [], ◌∷◌, arith,
  leb, All, is_some, Bool-cases, inl, inr, length,
}
use native.Mathlib.Nat.{pow-suc}
use seo_agent_rct.Text.{Text}
use seo_agent_rct.Accounts.{
  Account, Attempt, now_locked, lockout_threshold, lockout_seconds, is_account_locked,
  record_login_failure, record_login_success, calculate_progressive_delay, is_wrong, login,
  login_all,
}

-- An account has a time of lockout exactly when it has five failures or more.
abbrev pub IsTallied : Account → Type 0
IsTallied a = is_some a.locked_until ≡ leb lockout_threshold a.failed_login_attempts

module _ (verify_password : (password hashed : Text) → Bool) where
  login-IsTallied :
      (t : Attempt) (a : Account) → IsTallied a → IsTallied (login verify_password t a).2
  unfolding login is_account_locked record_login_failure record_login_success
  login-IsTallied t a h = ground (arith, h)

  -- Through any attempts to log in, an account has a time of lockout exactly when five or more
  -- failures are counted.
  pub login_all-IsTallied :
      (ts : List Attempt) (a : Account) → IsTallied a → IsTallied (login_all verify_password ts a)
  unfolding login_all
  login_all-IsTallied [] a h = h
  login_all-IsTallied (t ∷ ts) a h = login_all-IsTallied ts _ (login-IsTallied t a h)

  login_locked :
      (until : ℕ) (t : Attempt) (a : Account)
      → a.locked_until ≡ some until
      → t.now < until
      → (login verify_password t a).2 ≡ a
  unfolding login is_account_locked
  login_locked until t a h l = ground (arith, h)

  -- While an account is locked, attempts to log in leave it exactly as it is, whatever password
  -- they bring: the lock is neither lifted nor prolonged.
  pub login_all-locked :
      (until : ℕ) (ts : List Attempt) (a : Account)
      → a.locked_until ≡ some until
      → All (λ t. t.now < until) ts
      → login_all verify_password ts a ≡ a
  unfolding login_all
  login_all-locked until [] a h early = refl
  login_all-locked until (t ∷ ts) a h early =
      rw (login_locked until t a h early.0) (login_all-locked until ts a h early.1)

  login_wrong :
      (t : Attempt) (a : Account)
      → a.locked_until ≡ none
      → is_wrong verify_password t.password a.hashed_password ≡ true
      → a.failed_login_attempts < 4
      → (login verify_password t a).2
        ≡ record a { failed_login_attempts = a.failed_login_attempts + 1 }
  unfolding login is_account_locked record_login_failure
  login_wrong t a h w few = ground (arith, h, w)

  few_wrong :
      (ts : List Attempt) (a : Account)
      → a.locked_until ≡ none
      → All (λ t. is_wrong verify_password t.password a.hashed_password ≡ true) ts
      → a.failed_login_attempts + length ts ≤ 4
      → login_all verify_password ts a
        ≡ record a { failed_login_attempts = a.failed_login_attempts + length ts }
  unfolding login_all
  few_wrong [] a h wrong few = ground arith
  few_wrong (t ∷ ts) a h wrong few = rw (login_wrong t a h wrong.0 (omega arith)) (
      ground (
        arith,
        few_wrong ts (record a { failed_login_attempts = a.failed_login_attempts + 1 }) h wrong.1
            (omega arith),
      ))

  -- Four wrong passwords in a row on an account without failures only count; a fifth one, at
  -- whatever time, locks it for fifteen minutes from the time after its progressive delay on.
  pub login_all-fifth :
      (ts : List Attempt) (t : Attempt) (a : Account)
      → a.locked_until ≡ none
      → a.failed_login_attempts ≡ 0
      → length ts ≡ 4
      → All (λ t. is_wrong verify_password t.password a.hashed_password ≡ true) ts
      → is_wrong verify_password t.password a.hashed_password ≡ true
      → let a' = login_all verify_password ts a in
        (a'.locked_until ≡ none)
        × ((login verify_password t a').0 ≡ now_locked)
        × ((login verify_password t a').2.locked_until ≡ some (t.after_delay + lockout_seconds))
  login_all-fifth ts t a h zero_yet four wrong last = rw (few_wrong ts a h wrong (omega arith)) (
      unfold login is_account_locked record_login_failure in
      ground (arith, h, last, zero_yet, four))

four_le_pow : (k : ℕ) → 4 ≤ 2 ^ (k + 2)
four_le_pow zero = omega arith
four_le_pow (suc k) =
    let e : suc k + 2 ≡ suc (k + 2) = omega arith in
    let step = four_le_pow k in rw (e, pow-suc) (omega (arith, step))

delay_top : (n : ℕ) → 5 ≤ n → calculate_progressive_delay n ≡ 20
unfolding calculate_progressive_delay
delay_top n h = let e : n - 3 ≡ (n - 5) + 2 = omega arith in ground (arith, e, four_le_pow (n - 5))

-- The delay never falls when a failure is added, and is two seconds at most.
pub calculate_progressive_delay_mono :
    (n : ℕ)
    → (calculate_progressive_delay n ≤ calculate_progressive_delay (n + 1))
      × (calculate_progressive_delay n ≤ 20)
unfolding calculate_progressive_delay
calculate_progressive_delay_mono n = elim (Bool-cases (leb 5 n)) [
  | inl e ↦
      rw (delay_top n (ground (arith, e)), delay_top (n + 1) (ground (arith, e)))
        (omega arith, omega arith)
  | inr e ↦ ground (arith, e, delay_top 5 (omega arith))
]
