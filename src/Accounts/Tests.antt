-- ===== src/Accounts/Tests.antt =====
-- An account with the password "a".
use seo_agent_rct.Prelude.{
  ℕ, ◌+◌, ◌≤◌, ◌≡◌, refl, Bool, true, some, none, List, [], ◌∷◌, arith, ℕ_discrete,
}
use seo_agent_rct.Text.{Text, equals, Text_discrete}
use seo_agent_rct.Accounts.{
  Account, Attempt, now_locked, lockout_seconds, is_wrong, login, login_all,
  calculate_progressive_delay,
}
use seo_agent_rct.Accounts.Lockout.{
  IsTallied, login_all-IsTallied, login_all-locked, login_all-fifth,
  calculate_progressive_delay_mono,
}

abbrev fresh_account : Account
fresh_account = record {
  hashed_password = some (b'a' ∷ []);
  failed_login_attempts = 0;
  locked_until = none;
  last_login_at = none;
  last_login_ip = none;
}

abbrev locked_account : Account
locked_account = record fresh_account { failed_login_attempts = 5; locked_until = some 1000 }

-- A hash that is the password itself.
abbrev verify : Text → Text → Bool
verify password hashed = equals password hashed

abbrev guess : ℕ → Attempt
guess t = record { now = t; after_delay = t + 2; password = some (b'b' ∷ []); ip = none }

abbrev right : ℕ → Attempt
right t = record { now = t; after_delay = t + 2; password = some (b'a' ∷ []); ip = none }

guess_is_wrong : is_wrong verify (some (b'b' ∷ [])) (some (b'a' ∷ [])) ≡ true
unfolding Text_discrete ℕ_discrete
guess_is_wrong = refl

login_all-IsTallied_example :
    IsTallied (login_all verify (guess 1 ∷ right 2 ∷ guess 3 ∷ []) fresh_account)
login_all-IsTallied_example =
    login_all-IsTallied verify (guess 1 ∷ right 2 ∷ guess 3 ∷ []) fresh_account refl

locked_out : login_all verify (guess 100 ∷ right 999 ∷ []) locked_account ≡ locked_account
locked_out =
    login_all-locked verify 1000 (guess 100 ∷ right 999 ∷ []) locked_account refl
      (omega arith, (omega arith, tt))

abbrev four_guesses : List Attempt
four_guesses = guess 1 ∷ guess 2 ∷ guess 3 ∷ guess 4 ∷ []

login_all-fifth_example :
    let a' = login_all verify four_guesses fresh_account in
    (a'.locked_until ≡ none)
    × ((login verify (guess 9) a').0 ≡ now_locked)
    × ((login verify (guess 9) a').2.locked_until ≡ some (11 + lockout_seconds))
login_all-fifth_example =
    login_all-fifth verify four_guesses (guess 9) fresh_account refl refl refl
      (guess_is_wrong, (guess_is_wrong, (guess_is_wrong, (guess_is_wrong, tt)))) guess_is_wrong

delays_no_less :
    (calculate_progressive_delay 4 ≤ calculate_progressive_delay (4 + 1))
    × (calculate_progressive_delay 4 ≤ 20)
delays_no_less = calculate_progressive_delay_mono 4
