-- ===== src/Workspaces/Steps.antt =====
-- What a request can do to the tables, as a relation between the store before and after it.
pub mod OnProjects
pub mod OnWebsites
pub mod Handlers
use seo_agent_rct.Prelude.{ℕ, suc, ◌≡◌, ◌⊎◌, Bool, true, false, Option, none, some, List, nat_key}
use seo_agent_rct.Dict
use seo_agent_rct.Dict.{Dict}
use seo_agent_rct.Dict.Rows.{keep_rows}
use seo_agent_rct.Orgs.Rows.{Role, check_role_permission, admin, member}
use seo_agent_rct.Workspaces.Slugs.{TextLib}
use seo_agent_rct.Workspaces.Slugs.Shape.{IsSlug}
use seo_agent_rct.Workspaces.Domains.{is_host}
use seo_agent_rct.Workspaces.Rows.{Project, Website, Store}
use seo_agent_rct.Workspaces.Projects.{has_slug, is_outside}
use seo_agent_rct.Workspaces.Websites.{has_domain}

-- The user has a role in the organization that permits what the required one does.
abbrev pub HasRole : (org_id user_id : ℕ) → Role → Store → Type 0
HasRole org_id user_id required s =
    (role : Role) × (s.memberships org_id user_id ≡ some role)
    × (check_role_permission role required ≡ true)

abbrev pub SameProjects : Store → Store → Type 0
SameProjects s s' = (s'.projects ≡ s.projects) × (s'.next_project ≡ s.next_project)

abbrev pub SameWebsites : Store → Store → Type 0
SameWebsites s s' = (s'.websites ≡ s.websites) × (s'.next_website ≡ s.next_website)

-- No project of the organization has the slug.
abbrev pub FreeSlug : ℕ → (slug : List ℕ) → Store → Type 0
FreeSlug org_id slug s =
    (k : ℕ) (q : Project) → Dict.get s.projects k ≡ some q → has_slug org_id slug k q ≡ false

-- No website of the organization, but for one, has the domain.
abbrev pub FreeDomain : ℕ → (norm : List ℕ) → (exclude : Option ℕ) → Store → Type 0
FreeDomain org_id norm exclude s =
    (k : ℕ) (v : Website)
    → Dict.get s.websites k ≡ some v
    → has_domain org_id norm exclude k v ≡ false

pub data Step (lib : TextLib) (org_id user_id : ℕ) (s s' : Store) : Type 0 where
  stays : s' ≡ s → Step lib org_id user_id s s'
  adds_project :
      HasRole org_id user_id member s
      → (p : Project) → p.organization_id ≡ org_id
      → IsSlug lib p.slug
      → FreeSlug org_id p.slug s
      → s'.projects ≡ Dict.put s.projects s.next_project p
      → s'.next_project ≡ suc s.next_project
      → SameWebsites s s'
      → s'.memberships ≡ s.memberships
      → Step lib org_id user_id s s'
  sets_project :
      HasRole org_id user_id member s
      → (id : ℕ) (p p' : Project) → Dict.get s.projects id ≡ some p
      → p.organization_id ≡ org_id
      → p'.organization_id ≡ org_id
      → (p'.slug ≡ p.slug) ⊎ IsSlug lib p'.slug × FreeSlug org_id p'.slug s
      → s'.projects ≡ Dict.put s.projects id p'
      → s'.next_project ≡ s.next_project
      → SameWebsites s s'
      → s'.memberships ≡ s.memberships
      → Step lib org_id user_id s s'
  removes_project :
      HasRole org_id user_id admin s
      → (id : ℕ) (p : Project) → Dict.get s.projects id ≡ some p
      → p.organization_id ≡ org_id
      → s'.projects ≡ Dict.remove s.projects id
      → s'.next_project ≡ s.next_project
      → s'.websites ≡ keep_rows (is_outside id) s.websites
      → s'.next_website ≡ s.next_website
      → s'.memberships ≡ s.memberships
      → Step lib org_id user_id s s'
  adds_website :
      HasRole org_id user_id member s
      → (project_id : ℕ) (p : Project) (w : Website) → Dict.get s.projects project_id ≡ some p
      → p.organization_id ≡ org_id
      → w.project_id ≡ some project_id
      → w.organization_id ≡ some org_id
      → is_host w.normalized_domain ≡ true
      → FreeDomain org_id w.normalized_domain none s
      → s'.websites ≡ Dict.put s.websites s.next_website w
      → s'.next_website ≡ suc s.next_website
      → SameProjects s s'
      → s'.memberships ≡ s.memberships
      → Step lib org_id user_id s s'
  sets_website :
      HasRole org_id user_id member s
      → (id : ℕ) (w w' : Website) → Dict.get s.websites id ≡ some w
      → w.organization_id ≡ some org_id
      → w'.project_id ≡ w.project_id
      → w'.organization_id ≡ w.organization_id
      → (w'.normalized_domain ≡ w.normalized_domain)
        ⊎ (is_host w'.normalized_domain ≡ true) × FreeDomain org_id w'.normalized_domain (some id) s
      → s'.websites ≡ Dict.put s.websites id w'
      → s'.next_website ≡ s.next_website
      → SameProjects s s'
      → s'.memberships ≡ s.memberships
      → Step lib org_id user_id s s'
  removes_website :
      HasRole org_id user_id admin s
      → (id : ℕ) (w : Website) → Dict.get s.websites id ≡ some w
      → w.organization_id ≡ some org_id
      → s'.websites ≡ Dict.remove s.websites id
      → s'.next_website ≡ s.next_website
      → SameProjects s s'
      → s'.memberships ≡ s.memberships
      → Step lib org_id user_id s s'
