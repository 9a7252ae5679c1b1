-- ===== src/Sessions/Tests.antt =====
-- A user with the number 3 who logs in with the token "a".
use seo_agent_rct.Prelude.{ℕ, ◌≡◌, refl, false, not, none, some, List, [], ◌∷◌, ◌==◌, ℕ_discrete}
use seo_agent_rct.Dict
use seo_agent_rct.Dict.{Dict}
use seo_agent_rct.Text.{Text, Text_discrete}
use seo_agent_rct.Sessions.{
  AuthStore, token_reused, refresh_tokens, create_session, refresh_with, refresh_session, rotate,
  compromised, find_used, find_session, deactivate, revoke_all,
}
use seo_agent_rct.Sessions.Calls.{SessionCall, log_in, refresh, perform, perform_all}
use seo_agent_rct.Sessions.Rotation.{IsOut, refresh_tokens-once}

abbrev no_sessions : AuthStore
no_sessions = record {
  sessions = [];
  next_id = 1;
  used_tokens = [];
  is_user = λ n. not (n == 0);
  events = [];
}

abbrev plain : Text → Text
plain token = token

abbrev a_token : Text
a_token = b'a' ∷ []

abbrev logged : List SessionCall
logged = log_in 100 3 a_token 700000 none false ∷ []

abbrev exchanged : AuthStore
exchanged = perform_all plain 72 (refresh 300 none (some (b'b' ∷ [])) (b'c' ∷ []) ∷ []) (
    perform plain 72 (refresh 200 none (some a_token) (b'b' ∷ []))
      (perform_all plain 72 logged no_sessions))

refresh_tokens-once_example :
    let r = refresh_tokens plain 72 400 none (some a_token) (b'd' ∷ []) exchanged in
    (u : ℕ) × (r.0 ≡ token_reused u) × IsOut u r.1
unfolding refresh_tokens refresh_with refresh_session rotate compromised find_used find_session
    create_session perform perform_all deactivate Dict.get Dict.put Text_discrete ℕ_discrete
refresh_tokens-once_example =
    refresh_tokens-once plain 72 logged (refresh 300 none (some (b'b' ∷ [])) (b'c' ∷ []) ∷ [])
      no_sessions 200 none a_token (b'b' ∷ []) 1 (b'b' ∷ []) 400 none (b'd' ∷ []) refl refl refl

-- The user 3 has no active session at the end.
replayed :
    (refresh_tokens plain 72 400 none (some a_token) (b'd' ∷ []) exchanged).0 ≡ token_reused 3
unfolding refresh_tokens refresh_with refresh_session rotate compromised find_used find_session
    create_session perform perform_all deactivate Dict.get Dict.put Text_discrete ℕ_discrete
    revoke_all
replayed = refl
