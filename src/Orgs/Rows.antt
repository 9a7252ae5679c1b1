-- ===== src/Orgs/Rows.antt =====
-- The roles and the rows of an organization. `memberships` has one row for a user, by its unique index.
use seo_agent_rct.Prelude.{ℕ, String, Bool, true, false, List, leb, nat_key}
use seo_agent_rct.Dict.{Dict}
use seo_agent_rct.Text.{Text}

-- The keys of `ROLE_HIERARCHY`; `other` is any text that is not one.
pub data Role : Type 0 where
  owner admin manager member viewer : Role
  other : String → Role

-- `ROLE_HIERARCHY.get(role, 0)`
abbrev pub rank : Role → ℕ
rank owner = 5
rank admin = 4
rank manager = 3
rank member = 2
rank viewer = 1
rank (other text) = 0

-- `ROLE_HIERARCHY.get(role, 99)`
abbrev pub required_rank : Role → ℕ
required_rank (other text) = 99
required_rank role = rank role

-- `check_role_permission`
unfoldable pub check_role_permission : (user_role required_role : Role) → Bool
check_role_permission user_role required_role = leb (required_rank required_role) (rank user_role)

abbrev pub is_owner : Role → Bool
is_owner owner = true
is_owner _ = false

-- `role not in ROLE_HIERARCHY`
abbrev pub is_unknown : Role → Bool
is_unknown (other text) = true
is_unknown _ = false

pub data InvitationStatus : Type 0 where
  pending accepted rejected cancelled : InvitationStatus

pub record Invitation : Type 0 where
  pub id : ℕ
  pub email : Text
  pub role : Role
  pub token : Text
  pub status : InvitationStatus
  pub invited_by_id : ℕ
  pub expires_at : ℕ

pub record Org : Type 0 where
  pub members : Dict ℕ Role
  pub invitations : List Invitation
  pub next_invitation_id : ℕ

-- How a handler ends: with its response, or with the exception that it raises.
pub data Answer : Type 0 where
  ok forbidden invalid not_found conflict : Answer
