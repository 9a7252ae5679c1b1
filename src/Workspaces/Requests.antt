-- ===== src/Workspaces/Requests.antt =====
-- Requests of users on the projects and websites of organizations, one after the other.
use seo_agent_rct.Prelude.{ℕ, List, [], ◌∷◌}
use seo_agent_rct.Text.{Text}
use seo_agent_rct.Workspaces.Slugs.{TextLib}
use seo_agent_rct.Workspaces.Rows.{Store, Answer}
use seo_agent_rct.Workspaces.ProjectRoutes.{ProjectRequest, handle_project}
use seo_agent_rct.Workspaces.WebsiteRoutes.{WebsiteRequest, handle_website}

pub data Target : Type 0 where
  on_projects : ProjectRequest → Target
  on_websites : (project : Text) → WebsiteRequest → Target

-- A request with its clock, the organization in its path and the user who is logged in.
pub record Request : Type 0 where
  pub now : ℕ
  pub org_id : ℕ
  pub user_id : ℕ
  pub target : Target

module _ (lib : TextLib) where
  -- The handler that a router calls.
  unfoldable pub dispatch : (now org_id user_id : ℕ) → Target → Store → Answer × Store
  unfolding handle_project handle_website
  dispatch now org_id user_id (on_projects request) s =
      handle_project lib now org_id user_id request s
  dispatch now org_id user_id (on_websites project request) s =
      handle_website lib now org_id user_id project request s

  abbrev pub handle : Request → Store → Answer × Store
  handle r s = dispatch r.now r.org_id r.user_id r.target s

  unfoldable pub handle_all : List Request → Store → Store
  unfolding dispatch
  handle_all [] s = s
  handle_all (r ∷ rs) s = handle_all rs (handle r s).1
