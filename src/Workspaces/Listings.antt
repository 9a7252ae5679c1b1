-- ===== src/Workspaces/Listings.antt =====
-- The listings of backend/database/crud.py: what a filter leaves, the newest first, and a page of it.
use seo_agent_rct.Prelude.{
  ℕ, Bool, true, false, not, ◌&&◌, ◌||◌, Option, none, some, List, [], ◌∷◌, ◌==◌, leb, keep, take,
  if◌then◌else◌,
}
use seo_agent_rct.Dict.{Dict}
use seo_agent_rct.Dict.Rows.{keep_rows}
use seo_agent_rct.Pagination.Limits.{drop}
use seo_agent_rct.Text.{Text, equals, truthy}
use seo_agent_rct.Workspaces.Slugs.{TextLib, status_text, strip}
use seo_agent_rct.Workspaces.Domains.{normalize_domain}
use seo_agent_rct.Workspaces.Rows.{Project, Website, Store, AuditLog, project}
use seo_agent_rct.Workspaces.Websites.{is_id}

module _ {A : Type 0} (created_at : A → ℕ) where
  -- A row before the rows that are older than it.
  unfoldable insert_newest : A → List A → List A
  insert_newest x [] = x ∷ []
  insert_newest x (y ∷ ys) =
      let rest = insert_newest x ys in
      if leb (created_at y) (created_at x) then x ∷ y ∷ ys else y ∷ rest

  -- `order_by(created_at.desc())`
  unfoldable pub newest_first : List A → List A
  unfolding insert_newest
  newest_first [] = []
  newest_first (x ∷ xs) = insert_newest x (newest_first xs)

-- One log entry is about a project.
abbrev is_about : ℕ → AuditLog → Bool
is_about id entry =
    elim entry.target_resource [ project k ↦ k == id | other ↦ false ]
    || elim entry.project_id [ none ↦ false | some k ↦ k == id ]

-- `get_project_activity_async`
unfoldable pub get_project_activity : (id limit : ℕ) → Store → List AuditLog
unfolding newest_first
get_project_activity id limit s =
    take limit (newest_first (λ e. e.created_at) (keep (is_about id) s.logs))

module _ (lib : TextLib) where
  -- The filters of `get_org_projects_async`: `search`, `status` and `archived`.
  abbrev matches_project :
      (organization_id : ℕ) → (search status : Option Text) → Option Bool → ℕ → Project → Bool
  matches_project organization_id search status archived_flag id p =
      (p.organization_id == organization_id)
      && elim (truthy search) [
        | none ↦ true
        | some part ↦
            let s = strip lib part in
            lib.ilike s p.name
            || lib.ilike s p.slug
            || elim p.description [ none ↦ false | some d ↦ lib.ilike s d ]
      ]
      && elim (truthy status) [ none ↦ true | some t ↦ equals (status_text p.status) t ]
      && elim archived_flag [
        | none ↦ true
        | some flag ↦ if flag then p.archived else not p.archived
      ]

  -- `get_org_projects_async`, without the total
  unfoldable pub get_org_projects :
      (organization_id : ℕ)
      → (search status : Option Text) → Option Bool
      → (skip limit : ℕ) → Store
      → Dict ℕ Project
  unfolding keep_rows newest_first
  get_org_projects organization_id search status archived_flag skip limit s = take limit (
      drop skip (
        newest_first (λ r. r.1.created_at)
          (keep_rows (matches_project organization_id search status archived_flag) s.projects)))

  -- The filters of `get_project_websites_async`.
  abbrev matches_website :
      (project_id : ℕ) → (search status : Option Text) → Option Bool → ℕ → Website → Bool
  matches_website project_id search status archived_flag id w =
      is_id w.project_id project_id
      && elim (truthy search) [
        | none ↦ true
        | some part ↦
            lib.ilike part w.domain
            || lib.ilike (normalize_domain lib part) w.normalized_domain
            || elim w.company_name [ none ↦ false | some name ↦ lib.ilike part name ]
      ]
      && elim (truthy status) [ none ↦ true | some t ↦ equals w.status t ]
      && elim archived_flag [
        | none ↦ true
        | some flag ↦ if flag then w.archived else not w.archived
      ]

  -- `get_project_websites_async`, without the total
  unfoldable pub get_project_websites :
      (project_id : ℕ)
      → (search status : Option Text) → Option Bool
      → (skip limit : ℕ) → Store
      → Dict ℕ Website
  unfolding keep_rows newest_first normalize_domain
  get_project_websites project_id search status archived_flag skip limit s = take limit (
      drop skip (
        newest_first (λ r. r.1.created_at)
          (keep_rows (matches_website project_id search status archived_flag) s.websites)))
