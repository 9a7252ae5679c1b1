-- ===== src/Workspaces/Validity.antt =====
-- The invariant of the tables of projects and websites.
pub mod Tables
pub mod WebsiteTables
pub mod Kept
use seo_agent_rct.Prelude.{ℕ, ◌<◌, ◌≡◌, true, Option, some, nat_key}
use seo_agent_rct.Dict
use seo_agent_rct.Dict.{Dict}
use seo_agent_rct.Dict.Laws.{Distinct}
use seo_agent_rct.Dict.Everywhere.{Everywhere}
use seo_agent_rct.Dict.Unique.{Unique}
use seo_agent_rct.Workspaces.Slugs.{TextLib}
use seo_agent_rct.Workspaces.Slugs.Shape.{IsSlug}
use seo_agent_rct.Workspaces.Domains.{is_host}
use seo_agent_rct.Workspaces.Rows.{Project, Website, Store}

-- Two projects of one organization with one slug.
abbrev pub SameSlug : Project → Project → Type 0
SameSlug p q = (p.organization_id ≡ q.organization_id) × (p.slug ≡ q.slug)

-- Two websites of one organization with one normalized domain.
abbrev pub SameDomain : Website → Website → Type 0
SameDomain w v =
    (org_id : ℕ) × (w.organization_id ≡ some org_id)
    × (v.organization_id ≡ some org_id)
    × (w.normalized_domain ≡ v.normalized_domain)

-- A website of a project belongs to the organization of the project, and has a valid domain.
abbrev pub HasHome : Dict ℕ Project → Website → Type 0
HasHome projects w =
    (project_id : ℕ)
    → w.project_id ≡ some project_id
    → (is_host w.normalized_domain ≡ true)
      × (p : Project) × (Dict.get projects project_id ≡ some p)
      × (w.organization_id ≡ some p.organization_id)

-- Ids are given once; within an organization, slugs and domains are; slugs are well-formed; and
-- every website of a project has its home.
pub record Valid (lib : TextLib) (projects : Dict ℕ Project) (next_project : ℕ)
    (websites : Dict ℕ Website) (next_website : ℕ) : Type 0 where
  pub projects_distinct : Distinct projects
  pub websites_distinct : Distinct websites
  pub projects_below : Everywhere (λ k p. k < next_project) projects
  pub websites_below : Everywhere (λ k w. k < next_website) websites
  pub slugs : Everywhere (λ k p. IsSlug lib p.slug) projects
  pub one_slug : Unique SameSlug projects
  pub one_domain : Unique SameDomain websites
  pub homes : Everywhere (λ k w. HasHome projects w) websites

abbrev pub IsValid : TextLib → Store → Type 0
IsValid lib s = Valid lib s.projects s.next_project s.websites s.next_website
