-- ===== src/Workspaces/Access.antt =====
-- What the requests of a user leave alone.
pub mod Others
pub mod Deletions
use seo_agent_rct.Prelude.{
  ℕ, ◌≡◌, ◌≢◌, ◌↔◌, inl, inr, refl, sym, ◌∙◌, ap, subst, true, Option, some, List, [], ◌∷◌, arith,
  nat_key, ℕ_discrete, All, is_some, Option-cases,
}
use seo_agent_rct.Dict
use seo_agent_rct.Dict.{Dict}
use seo_agent_rct.Dict.Laws.{get-put_ne, get-put, get-remove_ne, get-remove}
use seo_agent_rct.Dict.Rows.{keep_rows, get-keep_rows, get-keep_rows_fits}
use seo_agent_rct.Orgs.Rows.{Role, check_role_permission, member, admin}
use seo_agent_rct.Workspaces.Slugs.{TextLib, default_slug}
use seo_agent_rct.Workspaces.Slugs.Shape.{Joined, is_slug_letter}
use seo_agent_rct.Workspaces.Rows.{Project, Website, Store}
use seo_agent_rct.Workspaces.Projects.{is_outside}
use seo_agent_rct.Workspaces.Requests.{Request, handle, handle_all}
use seo_agent_rct.Workspaces.Steps.{
  HasRole, Step, stays, adds_project, sets_project, removes_project, adds_website, sets_website,
  removes_website,
}
use seo_agent_rct.Workspaces.Steps.Handlers.{dispatch-Step}
use seo_agent_rct.Workspaces.Validity.{IsValid}
use seo_agent_rct.Workspaces.Validity.Kept.{Step-IsValid}
use seo_agent_rct.Workspaces.Access.Others.{
  Untouched, Untouched-refl, Untouched-trans, Step-memberships, Step-Untouched,
}
use seo_agent_rct.Workspaces.Access.Deletions.{
  Survives, Survives-refl, Survives-trans, Step-Survives,
}

module _ (lib : TextLib) (user : ℕ) where
  -- All requests are of one user.
  abbrev pub IsAllOf : List Request → Type 0
  IsAllOf rs = All (λ r. r.user_id ≡ user) rs

  step_of :
      (r : Request) (s : Store)
      → Joined (is_slug_letter lib) default_slug
      → IsValid lib s
      → r.user_id ≡ user
      → Step lib r.org_id user s (handle lib r s).1
  step_of r s letters v e =
      subst (λ u. Step lib r.org_id u s (handle lib r s).1) e
        (dispatch-Step lib letters r.now r.org_id r.user_id r.target s v.projects_distinct
          v.websites_distinct)

  -- If the letters of "project" are word characters and no gaps, then from valid tables, whatever
  -- requests a user makes on projects and websites, and whatever organizations they name: where the
  -- user is not at least a member, the rows of the projects and websites of the organization are the
  -- same before and after, and none is added.
  pub handle_all-Untouched :
      (rs : List Request) (s : Store) (org : ℕ)
      → Joined (is_slug_letter lib) default_slug
      → IsValid lib s
      → IsAllOf rs
      → ¬ HasRole org user member s
      → Untouched org s (handle_all lib rs s)
  unfolding handle_all
  handle_all-Untouched [] s org letters v all none_of = Untouched-refl org s
  handle_all-Untouched (r ∷ rs) s org letters v all none_of =
      let s' = (handle lib r s).1 in
      let step = step_of r s letters v all.0 in
      Untouched-trans org s s' (handle_all lib rs s')
        (Step-Untouched lib r.org_id user s s' org v none_of step)
        (handle_all-Untouched rs s' org letters (Step-IsValid lib r.org_id user s s' step v) all.1 (
          subst
            (λ (m : ℕ → ℕ → Option Role). ¬ (
              (role : Role) × (m org user ≡ some role)
              × (check_role_permission role member ≡ true)))
            (sym (Step-memberships lib r.org_id user s s' step)) none_of))

  -- If the letters of "project" are word characters and no gaps, then from valid tables, whatever
  -- requests a user makes who is an administrator in no organization, every project and every website
  -- is still there.
  pub handle_all-Survives :
      (rs : List Request) (s : Store)
      → Joined (is_slug_letter lib) default_slug
      → IsValid lib s
      → IsAllOf rs
      → ((org : ℕ) → ¬ HasRole org user admin s)
      → Survives s (handle_all lib rs s)
  unfolding handle_all
  handle_all-Survives [] s letters v all none_of = Survives-refl s
  handle_all-Survives (r ∷ rs) s letters v all none_of =
      let s' = (handle lib r s).1 in
      let step = step_of r s letters v all.0 in
      Survives-trans s s' (handle_all lib rs s')
        (Step-Survives lib r.org_id user s s' (none_of r.org_id) step)
        (handle_all-Survives rs s' letters (Step-IsValid lib r.org_id user s s' step v) all.1 (
          subst
            (λ (m : ℕ → ℕ → Option Role).
              (org : ℕ)
              → ¬ (
                  (role : Role) × (m org user ≡ some role)
                  × (check_role_permission role admin ≡ true)))
            (sym (Step-memberships lib r.org_id user s s' step)) none_of))
