-- ===== src/Passwords.antt =====
-- Changing a password: `change_password` and the reset of a password in backend/api/auth_routes.py,
-- with the password history and the reset tokens of backend/database/crud.py and
-- `validate_password_strength` of backend/auth/security.py. A salt and a new token are arguments, and
-- so is the clock. Events and the texts of the answers are left out.
mod Tests
pub mod Hashing
pub mod Calls
pub mod History
use seo_agent_rct.Prelude.{
  ℕ, ◌+◌, Bool, true, false, not, ◌&&◌, ◌||◌, Option, none, some, List, [], ◌∷◌, ◌++◌, ltb, leb,
  ◌==◌, if◌then◌else◌, nat_key, take, length,
}
use seo_agent_rct.Dict
use seo_agent_rct.Dict.{Dict}
use seo_agent_rct.Text.{Text, equals, truthy}
use seo_agent_rct.Passwords.Hashing.{get_password_hash, verify_password}
use seo_agent_rct.Sessions.{UserSession, revoke_all}

-- Python's tests of one character, `lower`, and the digits of PBKDF2 from `hashlib`.
pub record PasswordLib : Type 0 where
  pub isupper : ℕ → Bool
  pub islower : ℕ → Bool
  pub isdigit : ℕ → Bool
  pub lower : Text → Text
  pub pbkdf2_hex : (password salt : Text) → Text

pub record PasswordHistory : Type 0 where
  pub user_id : ℕ
  pub hashed_password : Text

pub record PasswordResetToken : Type 0 where
  pub user_id : ℕ
  pub token : Text
  pub is_used : Bool
  pub expires_at : ℕ

-- The tables; a user has a row in `passwords`. The history has the newest entry first.
pub record PasswordStore : Type 0 where
  pub passwords : Dict ℕ (Option Text)
  pub history : List PasswordHistory
  pub reset_tokens : List PasswordResetToken
  pub sessions : Dict ℕ UserSession

pub data Weakness : Type 0 where
  too_short no_uppercase no_lowercase no_digit no_special too_common : Weakness

-- The ways in which a request ends.
pub data PasswordAnswer : Type 0 where
  no_such_user wrong_password password_reused token_refused password_set : PasswordAnswer
  password_weak : List Weakness → PasswordAnswer

unfoldable pub has : (ℕ → Bool) → Text → Bool
has p [] = false
has p (c ∷ s) = p c || has p s

unfoldable pub is_one_of : Text → List Text → Bool
is_one_of s [] = false
is_one_of s (t ∷ ts) = equals s t || is_one_of s ts

abbrev is_between : (low high : ℕ) → ℕ → Bool
is_between low high c = leb low c && leb c high

-- The characters of the regular expression: the ASCII marks except for the back quote and the tilde.
abbrev is_special : ℕ → Bool
is_special c =
    is_between 33 47 c || is_between 58 64 c || is_between 91 95 c || is_between 123 125 c

-- `COMMON_PASSWORDS`
abbrev common_passwords : List Text
common_passwords =
    (b'p' ∷ b'a' ∷ b's' ∷ b's' ∷ b'w' ∷ b'o' ∷ b'r' ∷ b'd' ∷ [])
    ∷ (b'1' ∷ b'2' ∷ b'3' ∷ b'4' ∷ b'5' ∷ b'6' ∷ b'7' ∷ b'8' ∷ [])
    ∷ (b'1' ∷ b'2' ∷ b'3' ∷ b'4' ∷ b'5' ∷ b'6' ∷ b'7' ∷ b'8' ∷ b'9' ∷ [])
    ∷ (b'1' ∷ b'2' ∷ b'3' ∷ b'4' ∷ b'5' ∷ b'6' ∷ [])
    ∷ (b'a' ∷ b'd' ∷ b'm' ∷ b'i' ∷ b'n' ∷ b'1' ∷ b'2' ∷ b'3' ∷ [])
    ∷ (b'q' ∷ b'w' ∷ b'e' ∷ b'r' ∷ b't' ∷ b'y' ∷ b'1' ∷ b'2' ∷ b'3' ∷ [])
    ∷ (b'l' ∷ b'e' ∷ b't' ∷ b'm' ∷ b'e' ∷ b'i' ∷ b'n' ∷ b'1' ∷ [])
    ∷ (b'w' ∷ b'e' ∷ b'l' ∷ b'c' ∷ b'o' ∷ b'm' ∷ b'e' ∷ b'1' ∷ [])
    ∷ (b'i' ∷ b'l' ∷ b'o' ∷ b'v' ∷ b'e' ∷ b'y' ∷ b'o' ∷ b'u' ∷ [])
    ∷ (b'p' ∷ b'a' ∷ b's' ∷ b's' ∷ b'w' ∷ b'o' ∷ b'r' ∷ b'd' ∷ b'1' ∷ b'2' ∷ b'3' ∷ [])
    ∷ (b's' ∷ b'e' ∷ b'c' ∷ b'r' ∷ b'e' ∷ b't' ∷ b'1' ∷ b'2' ∷ b'3' ∷ [])
    ∷ []

abbrev unless : Bool → Weakness → List Weakness
unless ok weakness = if ok then [] else weakness ∷ []

-- The hashes of a user, the newest first.
unfoldable pub hashes_of : ℕ → List PasswordHistory → List Text
hashes_of user_id [] = []
hashes_of user_id (h ∷ hs) =
    let rest = hashes_of user_id hs in
    if h.user_id == user_id then h.hashed_password ∷ rest else rest

-- `get_password_reset_token_async`
unfoldable pub find_reset_token : ℕ → Text → List PasswordResetToken → Option PasswordResetToken
find_reset_token now token [] = none
find_reset_token now token (t ∷ ts) =
    let rest = find_reset_token now token ts in
    if equals t.token token && not t.is_used && ltb now t.expires_at then some t else rest

-- `mark_password_reset_token_used_async`: the column `token` is unique.
unfoldable pub mark_used : Text → List PasswordResetToken → List PasswordResetToken
mark_used token [] = []
mark_used token (t ∷ ts) =
    let rest = mark_used token ts in
    (if equals t.token token then record t { is_used = true } else t) ∷ rest

-- `MAX_PASSWORD_HISTORY`
abbrev pub max_password_history : ℕ
max_password_history = 5

-- `request_password_reset`, with the user that the look-up of the address gives
unfoldable pub request_password_reset :
    ℕ → (user_id : Option ℕ) → (token : Text) → PasswordStore → PasswordStore
request_password_reset now none token s = s
request_password_reset now (some user_id) token s = record s {
  reset_tokens =
      s.reset_tokens
      ++ (record { user_id = user_id; token = token; is_used = false; expires_at = now + 3600 }
          ∷ []);
}

module _ (lib : PasswordLib) where
  -- `validate_password_strength`
  unfoldable pub validate_password_strength : Text → Bool × List Weakness
  unfolding has is_one_of
  validate_password_strength password =
      let errors =
        unless (leb 8 (length password)) too_short
        ++ unless (has lib.isupper password) no_uppercase
        ++ unless (has lib.islower password) no_lowercase
        ++ unless (has lib.isdigit password) no_digit
        ++ unless (has is_special password) no_special
        ++ unless (not (is_one_of (lib.lower password) common_passwords)) too_common in
      (length errors == 0, errors)

  unfoldable pub verifies_any : Text → List Text → Bool
  unfolding verify_password
  verifies_any password [] = false
  verifies_any password (h ∷ hs) =
      verify_password lib.pbkdf2_hex password h || verifies_any password hs

  -- `check_password_history_async`
  unfoldable pub check_password_history : ℕ → Text → (max_history : ℕ) → PasswordStore → Bool
  unfolding hashes_of verifies_any
  check_password_history user_id password max_history s =
      verifies_any password (take max_history (hashes_of user_id s.history))

  -- `hashed_password and verify_password(password, hashed_password)`
  abbrev pub is_current : Text → Option Text → Bool
  is_current password hashed = elim (truthy hashed) [
    | none ↦ false
    | some h ↦ verify_password lib.pbkdf2_hex password h
  ]

  -- `hashed_password and not verify_password(password, hashed_password)`
  abbrev pub refuses_current : Text → Option Text → Bool
  refuses_current password hashed = elim (truthy hashed) [
    | none ↦ false
    | some h ↦ not (verify_password lib.pbkdf2_hex password h)
  ]

  -- `update_user_password_async`, `add_password_history_async`, and the end of all sessions
  unfoldable pub store_password : Text → ℕ → Text → PasswordStore → PasswordStore
  unfolding revoke_all get_password_hash
  store_password salt user_id password s =
      let new_hash = get_password_hash lib.pbkdf2_hex salt password in
      record s {
        passwords = Dict.put s.passwords user_id (some new_hash);
        history = record { user_id = user_id; hashed_password = new_hash } ∷ s.history;
        sessions = revoke_all user_id none s.sessions;
      }

  -- The part that a change and a reset share: the history, and the new password.
  unfoldable pub set_password :
      Text → ℕ → Text → Option Text → PasswordStore → PasswordAnswer × PasswordStore
  unfolding check_password_history store_password
  set_password salt user_id password hashed s =
      if check_password_history user_id password max_password_history s
        || is_current password hashed
      then (password_reused, s)
      else (password_set, store_password salt user_id password s)

  -- `change_password` of the user who is logged in
  unfoldable pub change_password :
      Text → ℕ → (current new : Text) → PasswordStore → PasswordAnswer × PasswordStore
  unfolding validate_password_strength set_password
  change_password salt user_id current new s = elim (Dict.get s.passwords user_id) [
    | none ↦ (no_such_user, s)
    | some hashed ↦
        if refuses_current current hashed
        then (wrong_password, s)
        else if (validate_password_strength new).0
        then set_password salt user_id new hashed s
        else (password_weak (validate_password_strength new).1, s)
  ]

  -- A token is marked when the password has been set.
  abbrev pub marked : Text → PasswordAnswer × PasswordStore → PasswordAnswer × PasswordStore
  marked token (password_set, s) =
      (password_set, record s { reset_tokens = mark_used token s.reset_tokens })
  marked token (answer, s) = (answer, s)

  -- `confirm_password_reset`
  unfoldable pub confirm_password_reset :
      ℕ → Text → (token new : Text) → PasswordStore → PasswordAnswer × PasswordStore
  unfolding validate_password_strength find_reset_token set_password
  confirm_password_reset now salt token new s =
      if (validate_password_strength new).0
      then elim (find_reset_token now token s.reset_tokens) [
        | none ↦ (token_refused, s)
        | some t ↦ elim (Dict.get s.passwords t.user_id) [
          | none ↦ (no_such_user, s)
          | some hashed ↦ marked token (set_password salt t.user_id new hashed s)
        ]
      ]
      else (password_weak (validate_password_strength new).1, s)
