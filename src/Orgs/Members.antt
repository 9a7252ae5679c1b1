-- ===== src/Orgs/Members.antt =====
-- The handlers that change the members of an organization.
use seo_agent_rct.Prelude.{
  ℕ, Bool, true, false, not, ◌&&◌, none, some, leb, ◌==◌, if◌then◌else◌, nat_key, is_some,
}
use seo_agent_rct.Dict
use seo_agent_rct.Dict.{Dict}
use seo_agent_rct.Orgs.Rows.{
  Role, rank, check_role_permission, is_owner, is_unknown, Org, Answer, owner, admin, manager, ok,
  forbidden, invalid, not_found,
}

-- `transfer_org_ownership_async`. With one user for both, the second assignment is the one that stays.
unfoldable pub transfer_org_ownership : (current new : ℕ) → Org → Bool × Org
transfer_org_ownership current new g = elim (Dict.get g.members current) [
  | none ↦ (false, g)
  | some role ↦
      if is_owner role && is_some (Dict.get g.members new)
      then (true, record g { members = Dict.put (Dict.put g.members current admin) new owner })
      else (false, g)
]

-- What follows `require_membership`: a handler that gets the role of the actor.
abbrev pub as_member : ℕ → (Role → Org → Answer × Org) → Org → Answer × Org
as_member actor run g = elim (Dict.get g.members actor) [
  | none ↦ (forbidden, g)
  | some role ↦ run role g
]

-- `check_role_min`
abbrev pub at_least : Role → (Role → Org → Answer × Org) → Role → Org → Answer × Org
at_least required run role g =
    if check_role_permission role required then run role g else (forbidden, g)

-- `transfer_ownership`
unfoldable pub transfer_ownership : (actor new_owner : ℕ) → Org → Answer × Org
unfolding transfer_org_ownership
transfer_ownership actor new_owner g =
    as_member actor
      (at_least owner (λ role g.
        if new_owner == actor
        then (invalid, g)
        else let (success, g') = transfer_org_ownership actor new_owner g in
          (if success then ok else not_found, g')))
      g

-- `change_member_role`, after its first checks, with the role of the target.
unfoldable pub change_target : (actor_role new_role target_role : Role) → ℕ → Org → Answer × Org
change_target actor_role new_role target_role user g =
    if is_owner target_role
    then (forbidden, g)
    else if leb (rank actor_role) (rank target_role)
    then (forbidden, g)
    else if leb (rank actor_role) (rank new_role)
    then (forbidden, g)
    else (ok, record g { members = Dict.put g.members user new_role })

-- `change_member_role`
unfoldable pub change_member_role : (actor user : ℕ) → Role → Org → Answer × Org
unfolding change_target
change_member_role actor user new_role g =
    as_member actor
      (at_least manager (λ actor_role g.
        if is_unknown new_role
        then (invalid, g)
        else if is_owner new_role
        then (invalid, g)
        else elim (Dict.get g.members user) [
          | none ↦ (not_found, g)
          | some target_role ↦ change_target actor_role new_role target_role user g
        ]))
      g

-- `remove_member`, after its first checks, with the role of the target.
unfoldable pub remove_target :
    (actor_role target_role : Role) → (actor user : ℕ) → Org → Answer × Org
remove_target actor_role target_role actor user g =
    let removed = record g { members = Dict.remove g.members user } in
    if user == actor
    then (if is_owner actor_role then (invalid, g) else (ok, removed))
    else if not (check_role_permission actor_role manager)
    then (forbidden, g)
    else if is_owner target_role
    then (forbidden, g)
    else if leb (rank actor_role) (rank target_role)
    then (forbidden, g)
    else (ok, removed)

-- `remove_member`
unfoldable pub remove_member : (actor user : ℕ) → Org → Answer × Org
unfolding remove_target
remove_member actor user g =
    as_member actor
      (λ actor_role g. elim (Dict.get g.members user) [
        | none ↦ (not_found, g)
        | some target_role ↦ remove_target actor_role target_role actor user g
      ])
      g
