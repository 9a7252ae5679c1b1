-- ===== src/Orgs/Ownership.antt =====
-- An organization keeps exactly one owner, and nobody rises above those who may raise them.
pub mod Effects
pub mod Branches
use seo_agent_rct.Prelude.{
  ℕ, ◌+◌, ◌<◌, ◌≤◌, ◌≡◌, ◌≢◌, ◌⊎◌, inl, inr, refl, true, false, some, List, [], ◌∷◌, arith, nat_key,
  ℕ_discrete, All, All-append,
}
use seo_agent_rct.Dict
use seo_agent_rct.Dict.Laws.{get-put, get-remove}
use seo_agent_rct.Text.{Text, equals}
use seo_agent_rct.Orgs.Rows.{
  Role, rank, required_rank, check_role_permission, is_owner, is_unknown, InvitationStatus,
  Invitation, Org, Answer, owner, admin, manager, member, viewer, pending, accepted, rejected,
  cancelled, ok, forbidden, invalid, not_found, conflict,
}
use seo_agent_rct.Orgs.Members.{
  transfer_org_ownership, as_member, at_least, transfer_ownership, change_target,
  change_member_role, remove_target, remove_member,
}
use seo_agent_rct.Orgs.Invitations.{
  is_pending, get_invitation_by_token, get_pending, set_status, Emails, is_member_by,
  create_invitation, week, invite_member, accept_into, with_invitation, accept_invitation,
  reject_invitation, cancel_invitation,
}
use seo_agent_rct.Orgs.Ownership.Effects.{
  IsOwnedBy, IsOwned, set_status-All, found_offer, Effect, nothing, offered, assigned, dropped,
  moved, Effect-IsOwned,
}
use seo_agent_rct.Orgs.Ownership.Branches.{
  transfer_cases, change_cases, remove_cases, invite_cases, accept_cases, reject_cases,
  cancel_cases,
}

pub data Request : Type 0 where
  transfer : (actor new_owner : ℕ) → Request
  change_role : (actor user : ℕ) (new_role : Role) → Request
  remove : (actor user : ℕ) → Request
  invite : (now actor : ℕ) (email : Text) (role : Role) (token : Text) → Request
  accept : (now user : ℕ) (email token : Text) → Request
  reject : (now : ℕ) (email token : Text) → Request
  cancel : (actor invitation_id : ℕ) → Request

unfoldable pub handle : Emails → Request → Org → Org
handle emails (transfer actor new_owner) g = (transfer_ownership actor new_owner g).1
handle emails (change_role actor user new_role) g = (change_member_role actor user new_role g).1
handle emails (remove actor user) g = (remove_member actor user g).1
handle emails (invite now actor email role token) g =
    (invite_member emails now actor email role token g).1
handle emails (accept now user email token) g = (accept_invitation emails now user email token g).1
handle emails (reject now email token) g = (reject_invitation emails now email token g).1
handle emails (cancel actor invitation_id) g = (cancel_invitation actor invitation_id g).1

unfoldable pub handle_all : Emails → List Request → Org → Org
handle_all emails [] g = g
handle_all emails (r ∷ rs) g = handle_all emails rs (handle emails r g)

-- The request does not let an owner accept an invitation.
abbrev pub MayAsk : Request → Org → Type 0
MayAsk (accept now user email token) g = Dict.get g.members user ≢ some owner
MayAsk _ g = Unit

unfoldable pub MayAskAll : Emails → List Request → Org → Type 0
MayAskAll emails [] g = Unit
MayAskAll emails (r ∷ rs) g = MayAsk r g × MayAskAll emails rs (handle emails r g)

handle-Effect :
    (emails : Emails) (r : Request) (g : Org)
    → MayAsk r g
    → All (λ inv. is_owner inv.role ≡ false) g.invitations
    → Effect g (handle emails r g)
unfolding handle accept_into create_invitation
handle-Effect emails (transfer actor n) g may offers = elim (transfer_cases actor n g) [
  | inl e ↦ nothing e
  | inr (h, e) ↦ moved actor n h e
]
handle-Effect emails (change_role actor u role) g may offers = elim (change_cases actor u role g) [
  | inl e ↦ nothing e
  | inr (old, there, low, plain, e) ↦
      assigned u role g.invitations (λ h. ground (arith, there, low, h)) plain offers e
]
handle-Effect emails (remove actor u) g may offers = elim (remove_cases actor u g) [
  | inl e ↦ nothing e
  | inr (old, there, low, e) ↦ dropped u (λ h. ground (arith, there, low, h)) e
]
handle-Effect emails (invite now actor email role token) g may offers =
    elim (invite_cases emails now actor email role token g) [
      | inl e ↦ nothing e
      | inr (plain, e) ↦ offered _ _ (All-append _ g.invitations _ offers (plain, tt)) e
    ]
handle-Effect emails (accept now user email token) g may offers =
    elim (accept_cases emails now user email token g) [
      | inl e ↦ nothing e
      | inr (inv, found, e) ↦
          assigned user inv.role _ may (found_offer now token g.invitations inv offers found)
            (set_status-All accepted inv.id g.invitations offers) e
    ]
handle-Effect emails (reject now email token) g may offers =
    elim (reject_cases emails now email token g) [
      | inl e ↦ nothing e
      | inr (inv, found, e) ↦
          offered _ g.next_invitation_id (set_status-All rejected inv.id g.invitations offers) e
    ]
handle-Effect emails (cancel actor id) g may offers = elim (cancel_cases actor id g) [
  | inl e ↦ nothing e
  | inr (inv, found, e) ↦
      offered _ g.next_invitation_id (set_status-All cancelled inv.id g.invitations offers) e
]

-- An organization with exactly one owner, and no invitation to become one, has exactly one owner and
-- no such invitation after any requests of any users, as long as the owner accepts no invitation.
pub handle_all-IsOwned :
    (emails : Emails) (rs : List Request) (g : Org)
    → IsOwned g
    → MayAskAll emails rs g
    → IsOwned (handle_all emails rs g)
unfolding handle_all MayAskAll
handle_all-IsOwned emails [] g v may = v
handle_all-IsOwned emails (r ∷ rs) g v may =
    handle_all-IsOwned emails rs (handle emails r g)
      (Effect-IsOwned g (handle emails r g) v (handle-Effect emails r g may.0 v.1.offers)) may.1

-- A member whose role the handler changes had and gets a rank below the actor's, who is a manager
-- at least, and no other member changes.
pub change_member_role-rank :
    (actor u : ℕ) (role : Role) (g : Org)
    → (change_member_role actor u role g).0 ≡ ok
    → (mine old : Role) × (Dict.get g.members actor ≡ some mine)
      × (Dict.get g.members u ≡ some old)
      × (3 ≤ rank mine)
      × (rank old < rank mine)
      × (rank role < rank mine)
      × ((change_member_role actor u role g).1 ≡ record g { members = Dict.put g.members u role })
unfolding change_member_role change_target check_role_permission
change_member_role-rank actor u role g h = ground (arith, h)
