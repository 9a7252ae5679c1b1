-- ===== src/Orgs/Ownership/Branches.antt =====
-- The ways in which each handler of an organization may end.
use seo_agent_rct.Prelude.{ℕ, ◌+◌, ◌≡◌, ◌⊎◌, false, some, arith, nat_key, ℕ_discrete}
use seo_agent_rct.Dict
use seo_agent_rct.Text.{Text}
use seo_agent_rct.Orgs.Rows.{
  Role, check_role_permission, is_owner, Invitation, Org, owner, admin, rejected, cancelled,
}
use seo_agent_rct.Orgs.Members.{
  transfer_org_ownership, transfer_ownership, change_target, change_member_role, remove_target,
  remove_member,
}
use seo_agent_rct.Orgs.Invitations.{
  get_invitation_by_token, get_pending, set_status, Emails, create_invitation, week, invite_member,
  accept_into, with_invitation, accept_invitation, reject_invitation, cancel_invitation,
}

pub transfer_cases :
    (actor n : ℕ) (g : Org)
    → ((transfer_ownership actor n g).1 ≡ g)
      ⊎ ((Dict.get g.members actor ≡ some owner)
          × ((transfer_ownership actor n g).1
              ≡ record g { members = Dict.put (Dict.put g.members actor admin) n owner }))
unfolding transfer_ownership transfer_org_ownership check_role_permission
transfer_cases actor n g = ground arith

pub change_cases :
    (actor u : ℕ) (role : Role) (g : Org)
    → ((change_member_role actor u role g).1 ≡ g)
      ⊎ ((old : Role) × (Dict.get g.members u ≡ some old)
          × (is_owner old ≡ false)
          × (is_owner role ≡ false)
          × ((change_member_role actor u role g).1
              ≡ record g { members = Dict.put g.members u role }))
unfolding change_member_role change_target
change_cases actor u role g = ground arith

pub remove_cases :
    (actor u : ℕ) (g : Org)
    → ((remove_member actor u g).1 ≡ g)
      ⊎ ((old : Role) × (Dict.get g.members u ≡ some old)
          × (is_owner old ≡ false)
          × ((remove_member actor u g).1 ≡ record g { members = Dict.remove g.members u }))
unfolding remove_member remove_target
remove_cases actor u g = elim (ℕ_discrete u actor) [ yes e ↦ ground arith | no n ↦ ground arith ]

pub invite_cases :
    (emails : Emails) (now actor : ℕ) (email : Text) (role : Role) (token : Text) (g : Org)
    → ((invite_member emails now actor email role token g).1 ≡ g)
      ⊎ ((is_owner role ≡ false)
          × ((invite_member emails now actor email role token g).1
              ≡ create_invitation emails email role token actor (now + week) g))
unfolding invite_member
invite_cases emails now actor email role token g = ground arith

pub accept_cases :
    (emails : Emails) (now user : ℕ) (email token : Text) (g : Org)
    → ((accept_invitation emails now user email token g).1 ≡ g)
      ⊎ ((inv : Invitation) × (get_invitation_by_token now token g.invitations ≡ some inv)
          × ((accept_invitation emails now user email token g).1 ≡ accept_into inv user g))
unfolding accept_invitation with_invitation
accept_cases emails now user email token g = ground arith

pub reject_cases :
    (emails : Emails) (now : ℕ) (email token : Text) (g : Org)
    → ((reject_invitation emails now email token g).1 ≡ g)
      ⊎ ((inv : Invitation) × (get_invitation_by_token now token g.invitations ≡ some inv)
          × ((reject_invitation emails now email token g).1
              ≡ record g { invitations = set_status rejected inv.id g.invitations }))
unfolding reject_invitation with_invitation
reject_cases emails now email token g = ground arith

pub cancel_cases :
    (actor id : ℕ) (g : Org)
    → ((cancel_invitation actor id g).1 ≡ g)
      ⊎ ((inv : Invitation) × (get_pending id g.invitations ≡ some inv)
          × ((cancel_invitation actor id g).1
              ≡ record g { invitations = set_status cancelled inv.id g.invitations }))
unfolding cancel_invitation
cancel_cases actor id g = ground arith
