-- ===== src/Workspaces/Rows.antt =====
-- The rows of `projects`, `websites` and `audit_logs` in backend/database/models.py, the tables that the
-- handlers of projects and websites use, and the answers of these handlers. Of the details of an event
-- only `project_id` is kept, which the query of a project's activity reads.
use seo_agent_rct.Prelude.{ℕ, Bool, Option, List, [], ◌∷◌, ◌++◌}
use seo_agent_rct.Dict.{Dict}
use seo_agent_rct.Json.{Json}
use seo_agent_rct.Text.{Text}
use seo_agent_rct.Orgs.Rows.{Role}
use seo_agent_rct.Workspaces.Slugs.{ProjectStatus}

abbrev pub Settings : Type 0
Settings = Dict Text Json

pub record Project : Type 0 where
  pub organization_id : ℕ
  pub owner_id : ℕ
  pub name : Text
  pub slug : Text
  pub description : Option Text
  pub status : ProjectStatus
  pub color : Option Text
  pub icon : Option Text
  pub timezone : Text
  pub language : Text
  pub settings : Settings
  pub archived : Bool
  pub created_at : ℕ
  pub updated_at : ℕ

-- A website that was made outside a project has neither `project_id` nor `organization_id`.
pub record Website : Type 0 where
  pub project_id : Option ℕ
  pub organization_id : Option ℕ
  pub owner_id : Option ℕ
  pub user_id : Option ℕ
  pub url : Option Text
  pub domain : Text
  pub normalized_domain : Text
  pub protocol : Text
  pub status : Text
  pub verification_status : Text
  pub favicon : Option Text
  pub country : Option Text
  pub language : Text
  pub timezone : Text
  pub settings : Settings
  pub company_name : Option Text
  pub archived : Bool
  pub created_at : ℕ
  pub updated_at : ℕ

-- The texts of `action`.
pub data Action : Type 0 where
  project_created project_updated settings_changed : Action
  project_archived project_restored project_deleted : Action
  website_created website_updated website_settings_changed : Action
  website_archived website_restored website_deleted : Action

-- `project:{id}` and `website:{id}`
pub data Resource : Type 0 where
  project website : ℕ → Resource

pub record AuditLog : Type 0 where
  pub user_id : ℕ
  pub organization_id : ℕ
  pub action : Action
  pub target_resource : Resource
  pub project_id : Option ℕ
  pub created_at : ℕ

pub record OrgEvent : Type 0 where
  pub organization_id : ℕ
  pub action : Action
  pub actor_id : ℕ

-- The tables. `audits_of` and `leads_of` count the rows of a website in `audit_results` and `leads`,
-- `memberships` gives the role of a user in an organization; rows stand under their ids,
-- and the logs have the oldest entry first.
pub record Store : Type 0 where
  pub memberships : (org_id user_id : ℕ) → Option Role
  pub projects : Dict ℕ Project
  pub next_project : ℕ
  pub websites : Dict ℕ Website
  pub next_website : ℕ
  pub audits_of : (website_id : ℕ) → ℕ
  pub leads_of : (website_id : ℕ) → ℕ
  pub logs : List AuditLog
  pub org_events : List OrgEvent

pub record ProjectStats : Type 0 where
  pub project_id : ℕ
  pub created_days_ago : ℕ
  pub settings_keys_count : ℕ
  pub total_activities : ℕ

pub record WebsiteStats : Type 0 where
  pub website_id : ℕ
  pub created_days_ago : ℕ
  pub settings_keys_count : ℕ
  pub total_audits : ℕ
  pub total_leads : ℕ

-- How a handler ends: with its response, or with the exception that it raises.
pub data Answer : Type 0 where
  forbidden not_found conflict invalid raised : Answer
  project_out : ℕ → Project → Answer
  projects_out : Dict ℕ Project → Answer
  website_out : ℕ → Website → Answer
  websites_out : Dict ℕ Website → Answer
  deleted : ℕ → Answer
  settings_out : ℕ → Settings → Answer
  -- `key` is the slug of a project, or the domain of a website.
  metadata_out : (id : ℕ) → (key : Text) → (settings_count : ℕ) → Answer
  stats_out : ProjectStats → Answer
  website_stats_out : WebsiteStats → Answer
  activity_out : List AuditLog → Answer

-- `log_audit_event_async`, which commits
unfoldable pub log_audit_event :
    (now : ℕ)
    → Action
    → (user_id organization_id : ℕ) → Resource
    → (project_id : Option ℕ) → Store
    → Store
log_audit_event now action user_id organization_id target project_id s = record s {
  logs =
      s.logs
      ++ (record {
        user_id = user_id;
        organization_id = organization_id;
        action = action;
        target_resource = target;
        project_id = project_id;
        created_at = now;
      }
          ∷ []);
}

-- `create_org_audit_event_async`
unfoldable pub create_org_audit_event : (org_id : ℕ) → Action → (actor_id : ℕ) → Store → Store
create_org_audit_event org_id action actor_id s = record s {
  org_events =
      s.org_events
      ++ (record { organization_id = org_id; action = action; actor_id = actor_id } ∷ []);
}
