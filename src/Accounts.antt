-- ===== src/Accounts.antt =====
-- Logging in: `login` of backend/api/auth_routes.py once it has found the user, with the lockout
-- functions of backend/database/crud.py and the delay of backend/auth/security.py. A time is a whole
-- number of seconds, and `now` the clock that a request reads. The test of a password is an argument;
-- Passwords/Hashing has that of backend/auth/security.py. Sessions, tokens, cookies and security
-- events are left out.
mod Tests
pub mod Lockout
use seo_agent_rct.Prelude.{
  ℕ, zero, suc, ◌+◌, ◌-◌, ◌*◌, ◌^◌, min, max, Bool, true, false, ◌&&◌, Option, none, some, List, [],
  ◌∷◌, ltb, leb, if◌then◌else◌,
}
use seo_agent_rct.Text.{Text}

-- The columns of a user that logging in reads or writes.
pub record Account : Type 0 where
  pub hashed_password : Option Text
  pub failed_login_attempts : ℕ
  pub locked_until : Option ℕ
  pub last_login_at : Option ℕ
  pub last_login_ip : Option Text

-- `LOCKOUT_THRESHOLD`, and `LOCKOUT_DURATION_MINUTES` in seconds
abbrev pub lockout_threshold : ℕ
lockout_threshold = 5

abbrev pub lockout_seconds : ℕ
lockout_seconds = 15 * 60

-- `is_account_locked`, with the seconds that remain
unfoldable pub is_account_locked : ℕ → Account → Bool × ℕ
is_account_locked now a = elim a.locked_until [
  | none ↦ (false, 0)
  | some t ↦ if ltb now t then (true, max 1 (t - now)) else (false, 0)
]

-- `record_login_failure_async`: whether the account is now locked, and the attempts that remain.
unfoldable pub record_login_failure : ℕ → Account → (Bool × ℕ) × Account
record_login_failure now a =
    let count = a.failed_login_attempts + 1 in
    let a' : Account = record a { failed_login_attempts = count } in
    if leb lockout_threshold count
    then (
      (true, lockout_threshold - count),
      record a' { locked_until = some (now + lockout_seconds) },
    )
    else ((false, lockout_threshold - count), a')

abbrev pub is_given : Option Text → Bool
is_given none = false
is_given (some []) = false
is_given (some (c ∷ s)) = true

abbrev pub new_ip : Option Text → Option Text → Option Text
new_ip ip old = if is_given ip then ip else old

-- `record_login_success_async`
unfoldable pub record_login_success : ℕ → (ip : Option Text) → Account → Account
record_login_success now ip a = record a {
  failed_login_attempts = 0;
  locked_until = none;
  last_login_at = some now;
  last_login_ip = new_ip ip a.last_login_ip;
}

-- `calculate_progressive_delay`, in tenths of a second
unfoldable pub calculate_progressive_delay : ℕ → ℕ
calculate_progressive_delay failed_attempts =
    if leb failed_attempts 1
    then 0
    else if leb failed_attempts 2
    then 2
    else if leb failed_attempts 3
    then 5
    else if leb failed_attempts 4
    then 10
    else min 20 (5 * 2 ^ (failed_attempts - 3))

-- How a login ends: with 423 and the seconds that remain, with 423 at the attempt that locks, with
-- 401 and the attempts that remain, or with the tokens.
pub data Answer : Type 0 where
  locked : ℕ → Answer
  now_locked : Answer
  unauthorized : ℕ → Answer
  logged_in : Answer

-- `now`: when the lock is tested; `after_delay`: when the outcome is recorded, after the
-- progressive delay.
pub record Attempt : Type 0 where
  pub now : ℕ
  pub after_delay : ℕ
  pub password : Option Text
  pub ip : Option Text

module _ (verify_password : (password hashed : Text) → Bool) where
  -- `user.hashed_password and user_in.password` and the password is wrong
  abbrev pub is_wrong : (password hashed : Option Text) → Bool
  is_wrong (some (c ∷ p)) (some (d ∷ h)) = if verify_password (c ∷ p) (d ∷ h) then false else true
  is_wrong _ _ = false

  -- `login`, after the look-up of the user: the answer, the tenths of a second slept, the account.
  unfoldable pub login : Attempt → Account → Answer × ℕ × Account
  unfolding record_login_failure
  login t a =
      let (is_locked, remaining) = is_account_locked t.now a in
      let delay = calculate_progressive_delay a.failed_login_attempts in
      if is_locked
      then (locked remaining, 0, a)
      else if is_wrong t.password a.hashed_password
      then (let ((hit, left), a') = record_login_failure t.after_delay a in
          (if hit then now_locked else unauthorized left, delay, a'))
      else (logged_in, delay, record_login_success t.after_delay t.ip a)

  unfoldable pub login_all : List Attempt → Account → Account
  login_all [] a = a
  login_all (t ∷ ts) a = login_all ts (login t a).2
