-- ===== src/Orgs/Invitations.antt =====
-- The handlers of invitations.
use seo_agent_rct.Prelude.{
  ℕ, suc, ◌+◌, Bool, true, false, ◌&&◌, Option, none, some, List, [], ◌∷◌, ◌++◌, ltb, leb, ◌==◌,
  if◌then◌else◌, nat_key, is_some,
}
use seo_agent_rct.Dict
use seo_agent_rct.Dict.{Dict}
use seo_agent_rct.Text.{Text, equals}
use seo_agent_rct.Orgs.Rows.{
  Role, rank, is_owner, is_unknown, InvitationStatus, Invitation, Org, Answer, manager, pending,
  accepted, rejected, cancelled, ok, forbidden, invalid, not_found, conflict,
}
use seo_agent_rct.Orgs.Members.{as_member, at_least}

abbrev pub is_pending : Invitation → Bool
is_pending inv = elim inv.status [ pending ↦ true | _ ↦ false ]

-- `get_invitation_by_token_async`
unfoldable pub get_invitation_by_token : ℕ → Text → List Invitation → Option Invitation
get_invitation_by_token now token [] = none
get_invitation_by_token now token (inv ∷ invs) =
    let rest = get_invitation_by_token now token invs in
    if equals inv.token token && is_pending inv && ltb now inv.expires_at then some inv else rest

-- `next((inv for inv in invitations if inv.id == invitation_id), None)` on the pending ones
unfoldable pub get_pending : ℕ → List Invitation → Option Invitation
get_pending id [] = none
get_pending id (inv ∷ invs) =
    let rest = get_pending id invs in if (inv.id == id) && is_pending inv then some inv else rest

-- `invitation.status = ...`
unfoldable pub set_status : InvitationStatus → ℕ → List Invitation → List Invitation
set_status s id [] = []
set_status s id (inv ∷ invs) =
    (if inv.id == id then record inv { status = s } else inv) ∷ set_status s id invs

-- `lower` and `strip` of `str`, and the user that has an email.
pub record Emails : Type 0 where
  pub lower : Text → Text
  pub strip : Text → Text
  pub get_user_by_email : Text → Option ℕ

abbrev pub is_member_by : Emails → Text → Dict ℕ Role → Bool
is_member_by emails email members = elim (emails.get_user_by_email email) [
  | none ↦ false
  | some user ↦ is_some (Dict.get members user)
]

-- `create_invitation_async`
unfoldable pub create_invitation :
    Emails → (email : Text) → Role → (token : Text) → (invited_by expires_at : ℕ) → Org → Org
create_invitation emails email role token invited_by expires_at g = record g {
  invitations =
      g.invitations
      ++ record {
        id = g.next_invitation_id;
        email = emails.strip (emails.lower email);
        role = role;
        token = token;
        status = pending;
        invited_by_id = invited_by;
        expires_at = expires_at;
      }
        ∷ [];
  next_invitation_id = suc g.next_invitation_id;
}

abbrev pub week : ℕ
week = 604800

-- `invite_member`
unfoldable pub invite_member :
    Emails → (now actor : ℕ) → (email : Text) → Role → (token : Text) → Org → Answer × Org
unfolding create_invitation
invite_member emails now actor email role token g =
    as_member actor
      (at_least manager (λ actor_role g.
        if is_unknown role
        then (invalid, g)
        else if is_owner role
        then (invalid, g)
        else if leb (rank actor_role) (rank role)
        then (forbidden, g)
        else if is_member_by emails email g.members
        then (conflict, g)
        else (ok, create_invitation emails email role token actor (now + week) g)))
      g

-- `accept_invitation_async`
unfoldable pub accept_into : Invitation → (user : ℕ) → Org → Org
accept_into inv user g = record g {
  members = Dict.put g.members user inv.role;
  invitations = set_status accepted inv.id g.invitations;
}

-- `accept_invitation` and `reject_invitation`: what they do with the invitation of the token.
unfoldable pub with_invitation :
    Emails → (now : ℕ) → (email token : Text) → (Invitation → Org → Org) → Org → Answer × Org
with_invitation emails now email token run g =
    elim (get_invitation_by_token now token g.invitations) [
      | none ↦ (not_found, g)
      | some inv ↦
          if equals (emails.lower inv.email) (emails.lower email)
          then (ok, run inv g)
          else (forbidden, g)
    ]

-- `accept_invitation`
unfoldable pub accept_invitation :
    Emails → (now user : ℕ) → (email token : Text) → Org → Answer × Org
unfolding with_invitation
accept_invitation emails now user email token g =
    with_invitation emails now email token (λ inv g. accept_into inv user g) g

-- `reject_invitation`
unfoldable pub reject_invitation : Emails → (now : ℕ) → (email token : Text) → Org → Answer × Org
unfolding with_invitation
reject_invitation emails now email token g =
    with_invitation emails now email token
      (λ inv g. record g { invitations = set_status rejected inv.id g.invitations }) g

-- `cancel_invitation`
unfoldable pub cancel_invitation : (actor invitation_id : ℕ) → Org → Answer × Org
cancel_invitation actor invitation_id g =
    as_member actor
      (at_least manager (λ role g. elim (get_pending invitation_id g.invitations) [
        | none ↦ (not_found, g)
        | some inv ↦ (ok, record g { invitations = set_status cancelled inv.id g.invitations })
      ]))
      g
