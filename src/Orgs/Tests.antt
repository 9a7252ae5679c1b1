-- ===== src/Orgs/Tests.antt =====
-- An organization of three members with an open invitation.
use seo_agent_rct.Prelude.{
  ◌<◌, ◌≤◌, ◌≡◌, refl, some, none, List, [], ◌∷◌, arith, nat_key, ℕ_discrete,
}
use seo_agent_rct.Dict
use seo_agent_rct.Text.{Text}
use seo_agent_rct.Orgs.Rows.{
  Role, rank, check_role_permission, Invitation, Org, owner, manager, member, viewer, pending, ok,
}
use seo_agent_rct.Orgs.Members.{change_member_role}
use seo_agent_rct.Orgs.Invitations.{Emails}
use seo_agent_rct.Orgs.Ownership.Effects.{IsOwned}
use seo_agent_rct.Orgs.Ownership.{
  Request, transfer, change_role, remove, invite, reject, cancel, MayAskAll, handle_all,
  handle_all-IsOwned, change_member_role-rank,
}

abbrev ann_at : Text
ann_at = b'a' ∷ b'@' ∷ []

abbrev secret : Text
secret = b't' ∷ []

abbrev open_offer : Invitation
open_offer = record {
  id = 1;
  email = ann_at;
  role = viewer;
  token = secret;
  status = pending;
  invited_by_id = 2;
  expires_at = 900;
}

abbrev team : Org
team = record {
  members = (1, owner) ∷ (2, manager) ∷ (3, member) ∷ [];
  invitations = open_offer ∷ [];
  next_invitation_id = 2;
}

abbrev plain_emails : Emails
plain_emails = record { lower = λ s. s; strip = λ s. s; get_user_by_email = λ s. none }

team-IsOwned : IsOwned team
unfolding Dict.get
team-IsOwned = (
  1,
  record { here = ground arith; only = λ u role h m. ground (arith, h, m); offers = (refl, tt) },
)

abbrev a_day : List Request
a_day =
    change_role 2 3 viewer
    ∷ transfer 1 2
    ∷ remove 2 3
    ∷ invite 5 2 ann_at member secret
    ∷ reject 6 ann_at secret
    ∷ cancel 2 2
    ∷ []

handle_all-IsOwned_example : IsOwned (handle_all plain_emails a_day team)
unfolding MayAskAll
handle_all-IsOwned_example =
    handle_all-IsOwned plain_emails a_day team team-IsOwned (tt, (tt, (tt, (tt, (tt, (tt, tt))))))

manager_demotes : (change_member_role 2 3 viewer team).0 ≡ ok
unfolding change_member_role check_role_permission Dict.get ℕ_discrete
manager_demotes = refl

change_member_role-rank_example :
    (mine old : Role) × (Dict.get team.members 2 ≡ some mine)
    × (Dict.get team.members 3 ≡ some old)
    × (3 ≤ rank mine)
    × (rank old < rank mine)
    × (rank viewer < rank mine)
    × ((change_member_role 2 3 viewer team).1
        ≡ record team { members = Dict.put team.members 3 viewer })
change_member_role-rank_example = change_member_role-rank 2 3 viewer team manager_demotes
