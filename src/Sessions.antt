-- ===== src/Sessions.antt =====
-- Sessions and the rotation of refresh tokens: `refresh_tokens` of backend/api/auth_routes.py with
-- the functions on sessions and used tokens in backend/database/crud.py. A new token is an argument,
-- and so are the clock, the hash of a token and the idle timeout. Of an event its kind and its user
-- are kept. A token is taken to be new: that the columns are unique is not modelled.
mod Tests
pub mod Calls
pub mod Rotation
use seo_agent_rct.Prelude.{
  ℕ, zero, suc, ◌+◌, ◌-◌, ◌*◌, Bool, true, false, not, ◌&&◌, Option, none, some, List, [], ◌∷◌,
  ◌++◌, ltb, ◌==◌, if◌then◌else◌, is_some, nat_key, ite,
}
use seo_agent_rct.Dict
use seo_agent_rct.Dict.{Dict}
use seo_agent_rct.Text.{Text, equals, truthy}

pub record UserSession : Type 0 where
  pub user_id : ℕ
  pub refresh_token : Text
  pub remember_me : Bool
  pub expires_at : ℕ
  pub last_active_at : Option ℕ
  pub last_ip : Option Text
  pub is_active : Bool

pub record UsedRefreshToken : Type 0 where
  pub user_id : ℕ
  pub session_id : ℕ
  pub token_hash : Text

pub data SecurityEvent : Type 0 where
  reuse_detected token_refreshed : ℕ → SecurityEvent

-- The tables; `next_id` is the identifier of the next session, and `is_user` the users.
pub record AuthStore : Type 0 where
  pub sessions : Dict ℕ UserSession
  pub next_id : ℕ
  pub used_tokens : List UsedRefreshToken
  pub is_user : ℕ → Bool
  pub events : List SecurityEvent

-- The answers of `refresh_tokens`, one for each way out.
pub data RefreshAnswer : Type 0 where
  token_missing token_invalid token_expired session_idle user_missing : RefreshAnswer
  token_reused : (user_id : ℕ) → RefreshAnswer
  refreshed : (session_id : ℕ) → (new_refresh_token : Text) → RefreshAnswer

abbrev hour : ℕ
hour = 3600

-- `timedelta(days=30 if session.remember_me else 7)`
abbrev pub lifetime : Bool → ℕ
lifetime remember_me = if remember_me then 30 * 24 * hour else 7 * 24 * hour

-- The first entry with a hash.
unfoldable pub find_used : Text → List UsedRefreshToken → Option UsedRefreshToken
find_used h [] = none
find_used h (u ∷ us) = let rest = find_used h us in if equals u.token_hash h then some u else rest

-- `get_session_by_refresh_token_async`, with the identifier of the session
unfoldable pub find_session : Text → Dict ℕ UserSession → Option (ℕ × UserSession)
find_session token [] = none
find_session token ((id, session) ∷ sessions) =
    let rest = find_session token sessions in
    if equals session.refresh_token token && session.is_active then some (id, session) else rest

-- `revoke_all_user_sessions_async` on the rows
unfoldable pub revoke_all :
    (user_id : ℕ) → (except_session_id : Option ℕ) → Dict ℕ UserSession → Dict ℕ UserSession
revoke_all user_id except_id [] = []
revoke_all user_id except_id ((id, session) ∷ sessions) =
    let rest = revoke_all user_id except_id sessions in
    let spared : Bool = elim except_id [ none ↦ false | some k ↦ id == k ] in
    let hit : Bool = (session.user_id == user_id) && session.is_active && not spared in
    (id, if hit then record session { is_active = false } else session) ∷ rest

-- `session.is_active = False`
unfoldable pub deactivate : ℕ → UserSession → AuthStore → AuthStore
deactivate id session s = record s {
  sessions = Dict.put s.sessions id (record session { is_active = false });
}

-- `revoke_session_async`
unfoldable pub revoke_session : (session_id user_id : ℕ) → AuthStore → Bool × AuthStore
revoke_session session_id user_id s = elim (Dict.get s.sessions session_id) [
  | none ↦ (false, s)
  | some session ↦
      if session.user_id == user_id then (true, deactivate session_id session s) else (false, s)
]

-- `create_session_async`
unfoldable pub create_session :
    ℕ → (user_id : ℕ) → Text → (expires_at : ℕ) → Option Text → Bool → AuthStore → AuthStore
create_session now user_id refresh_token expires_at ip_address remember_me s = record s {
  next_id = suc s.next_id;
  sessions = Dict.put s.sessions s.next_id (record {
    user_id = user_id;
    refresh_token = refresh_token;
    remember_me = remember_me;
    expires_at = expires_at;
    last_active_at = some now;
    last_ip = ip_address;
    is_active = true;
  });
}

abbrev or_ip : Option Text → Option Text → Option Text
or_ip client_ip old = elim (truthy client_ip) [ none ↦ old | some ip ↦ some ip ]

-- `session.last_active_at and (now - session.last_active_at) > timedelta(hours=…)`
abbrev pub is_idle : (timeout now : ℕ) → Option ℕ → Bool
is_idle timeout now none = false
is_idle timeout now (some at) = ltb (timeout * hour) (now - at)

module _ (hash_token : Text → Text) (idle_timeout_hours : ℕ) where
  -- `register_used_refresh_token_async`
  abbrev register_used_refresh_token :
      (user_id : ℕ) → Text → (session_id : ℕ) → List UsedRefreshToken → List UsedRefreshToken
  register_used_refresh_token user_id token session_id used_tokens =
      used_tokens
      ++ (record { user_id = user_id; session_id = session_id; token_hash = hash_token token } ∷ [])

  -- The steps 4 and 5 of `refresh_tokens`.
  unfoldable pub rotate :
      ℕ → Option Text → (token new_token : Text) → ℕ → UserSession → AuthStore → AuthStore
  rotate now client_ip token new_token id session s = record s {
    used_tokens = register_used_refresh_token session.user_id token id s.used_tokens;
    sessions = Dict.put s.sessions id (record session {
      refresh_token = new_token;
      expires_at = now + lifetime session.remember_me;
      last_active_at = some now;
      last_ip = or_ip client_ip session.last_ip;
    });
    events = s.events ++ (token_refreshed session.user_id ∷ []);
  }

  -- The steps from 3 on, for the session of the token.
  unfoldable pub refresh_session :
      ℕ
      → Option Text
      → (token new_token : Text) → ℕ
      → UserSession
      → AuthStore
      → RefreshAnswer × AuthStore
  unfolding rotate deactivate
  refresh_session now client_ip token new_token id session s =
      if ltb session.expires_at now
      then (token_expired, deactivate id session s)
      else if is_idle idle_timeout_hours now session.last_active_at
      then (session_idle, deactivate id session s)
      else if s.is_user session.user_id
      then (refreshed id new_token, rotate now client_ip token new_token id session s)
      else (user_missing, s)

  -- The step 1: all sessions of the user are revoked.
  abbrev pub breach : ℕ → AuthStore → AuthStore
  breach user_id s = record s {
    sessions = revoke_all user_id none s.sessions;
    events = s.events ++ (reuse_detected user_id ∷ []);
  }

  -- The owner of a used token, where `is_reused and compromised_user_id` holds.
  unfoldable pub compromised : Text → AuthStore → Option ℕ
  compromised token s = elim (find_used (hash_token token) s.used_tokens) [
    | none ↦ none
    | some u ↦ if u.user_id == 0 then none else some u.user_id
  ]

  -- `refresh_tokens` with a token
  unfoldable pub refresh_with :
      ℕ → Option Text → (token new_token : Text) → AuthStore → RefreshAnswer × AuthStore
  unfolding compromised refresh_session
  refresh_with now client_ip token new_token s = elim (compromised token s) [
    | some user_id ↦ (token_reused user_id, breach user_id s)
    | none ↦ elim (find_session token s.sessions) [
      | none ↦ (token_invalid, s)
      | some (id, session) ↦ refresh_session now client_ip token new_token id session s
    ]
  ]

  -- `refresh_tokens`
  unfoldable pub refresh_tokens :
      ℕ → Option Text → Option Text → Text → AuthStore → RefreshAnswer × AuthStore
  unfolding refresh_with
  refresh_tokens now client_ip token new_token s = elim (truthy token) [
    | none ↦ (token_missing, s)
    | some t ↦ refresh_with now client_ip t new_token s
  ]
