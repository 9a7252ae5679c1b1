-- ===== src/Workspaces/ProjectRoutes.antt =====
-- The handlers of backend/api/project_routes.py. A request names the organization and the user who is
-- logged in; the name of a project in the path is its id or its slug.
use seo_agent_rct.Prelude.{ℕ, ◌-◌, ◌/◌, Bool, ◌&&◌, Option, none, some, leb, length, if◌then◌else◌}
use seo_agent_rct.Dict
use seo_agent_rct.Dict.{Dict}
use seo_agent_rct.Text.{Text}
use seo_agent_rct.Orgs.Rows.{Role, check_role_permission, admin, member, viewer}
use seo_agent_rct.Workspaces.Slugs.{TextLib}
use seo_agent_rct.Workspaces.Rows.{
  Settings, Project, Store, Answer, forbidden, not_found, invalid, raised, project_out,
  projects_out, settings_out, metadata_out, stats_out, activity_out,
}
use seo_agent_rct.Workspaces.Projects.{
  ProjectChange, get_project_by_id_or_slug, create_project, update_project, archive_project,
  restore_project, delete_project,
}
use seo_agent_rct.Workspaces.Listings.{get_org_projects, get_project_activity}
use seo_agent_rct.Workspaces.Bodies.{ProjectBody, validate_create, validate_update}

pub data ProjectRequest : Type 0 where
  create_one : ProjectBody → ProjectRequest
  list_all :
      (search status : Option Text) → (archived : Option Bool) → (skip limit : ℕ) → ProjectRequest
  get_one delete_one archive_one restore_one : Text → ProjectRequest
  get_settings get_metadata get_stats : Text → ProjectRequest
  update_one : Text → ProjectBody → ProjectRequest
  update_settings : Text → Settings → ProjectRequest
  get_activity : Text → (limit : ℕ) → ProjectRequest

-- `require_membership` and `check_role_min`, and then the rest of the handler.
abbrev pub with_role :
    (org_id user_id : ℕ) → Role → (Store → Answer × Store) → Store → Answer × Store
with_role org_id user_id required run s = elim (s.memberships org_id user_id) [
  | none ↦ (forbidden, s)
  | some role ↦ if check_role_permission role required then run s else (forbidden, s)
]

-- A change of the settings alone.
abbrev pub settings_change : Settings → ProjectChange
settings_change settings = record {
  name = none;
  slug = none;
  description = none;
  status = none;
  color = none;
  icon = none;
  timezone = none;
  language = none;
  settings = some settings;
}

abbrev pub is_limit : ℕ → Bool
is_limit limit = leb 1 limit && leb limit 100

-- The seconds of a day, for `.days`.
abbrev pub day : ℕ
day = 86400

module _ (lib : TextLib) (now org_id user_id : ℕ) where
  -- `get_project_with_auth_check` after the check of the role, and then the rest of the handler.
  unfoldable pub on_project : Text → (ℕ → Project → Store → Answer × Store) → Store → Answer × Store
  unfolding get_project_by_id_or_slug
  on_project identifier run s = elim (get_project_by_id_or_slug lib org_id identifier s) [
    | none ↦ (raised, s)
    | some none ↦ (not_found, s)
    | some (some (id, p)) ↦ run id p s
  ]

  -- `get_project_with_auth_check`, and then the rest of the handler.
  abbrev pub with_project :
      Text → Role → (ℕ → Project → Store → Answer × Store) → Store → Answer × Store
  with_project identifier required run s =
      with_role org_id user_id required (on_project identifier run) s

  -- The responses of the handlers that only read.
  abbrev pub show_project : ℕ → Project → Store → Answer
  show_project id p s = project_out id p

  -- `get_project_settings`
  abbrev pub show_settings : ℕ → Project → Store → Answer
  show_settings id p s = settings_out id p.settings

  -- `get_project_metadata`
  abbrev pub show_metadata : ℕ → Project → Store → Answer
  show_metadata id p s = metadata_out id p.slug (Dict.size p.settings)

  -- `get_project_stats`
  abbrev pub show_stats : ℕ → Project → Store → Answer
  show_stats id p s = stats_out (record {
    project_id = id;
    created_days_ago = (now - p.created_at) / day;
    settings_keys_count = Dict.size p.settings;
    total_activities = length (get_project_activity id 500 s);
  })

  -- `get_project_activity`
  abbrev pub show_activity : (limit : ℕ) → ℕ → Project → Store → Answer
  show_activity limit id p s = activity_out (get_project_activity id limit s)

  -- `list_organization_projects`
  abbrev pub list_projects :
      (search status : Option Text) → Option Bool → (skip limit : ℕ) → Store → Answer × Store
  list_projects search status archived skip limit s =
      (projects_out (get_org_projects lib org_id search status archived skip limit s), s)

  -- A handler that only reads.
  abbrev pub reads : (ℕ → Project → Store → Answer) → ℕ → Project → Store → Answer × Store
  reads answer id p s = (answer id p s, s)

  -- `create_project`
  abbrev pub create_project_handler : ProjectBody → Store → Answer × Store
  create_project_handler body s = elim (validate_create lib body) [
    | none ↦ (invalid, s)
    | some new ↦ with_role org_id user_id member (create_project lib now org_id user_id new) s
  ]

  -- `list_organization_projects`
  abbrev pub list_projects_handler :
      (search status : Option Text) → Option Bool → (skip limit : ℕ) → Store → Answer × Store
  list_projects_handler search status archived skip limit s =
      if is_limit limit
      then with_role org_id user_id viewer (list_projects search status archived skip limit) s
      else (invalid, s)

  -- `get_project`
  abbrev pub get_project_handler : Text → Store → Answer × Store
  get_project_handler identifier s = with_project identifier viewer (reads show_project) s

  -- `update_project`
  abbrev pub update_project_handler : Text → ProjectBody → Store → Answer × Store
  update_project_handler identifier body s = elim (validate_update lib body) [
    | none ↦ (invalid, s)
    | some change ↦
        with_project identifier member (λ id p s. update_project lib now user_id id change p s) s
  ]

  -- `delete_project`
  abbrev pub delete_project_handler : Text → Store → Answer × Store
  delete_project_handler identifier s = with_project identifier admin (delete_project now user_id) s

  -- `archive_project`
  abbrev pub archive_project_handler : Text → Store → Answer × Store
  archive_project_handler identifier s =
      with_project identifier member (archive_project now user_id) s

  -- `restore_project`
  abbrev pub restore_project_handler : Text → Store → Answer × Store
  restore_project_handler identifier s =
      with_project identifier member (restore_project now user_id) s

  -- `get_project_settings`
  abbrev pub get_settings_handler : Text → Store → Answer × Store
  get_settings_handler identifier s = with_project identifier viewer (reads show_settings) s

  -- `update_project_settings`
  abbrev pub update_settings_handler : Text → Settings → Store → Answer × Store
  update_settings_handler identifier settings s =
      with_project identifier member
        (λ id p s. update_project lib now user_id id (settings_change settings) p s) s

  -- `get_project_metadata`
  abbrev pub get_metadata_handler : Text → Store → Answer × Store
  get_metadata_handler identifier s = with_project identifier viewer (reads show_metadata) s

  -- `get_project_stats`
  abbrev pub get_stats_handler : Text → Store → Answer × Store
  get_stats_handler identifier s = with_project identifier viewer (reads show_stats) s

  -- `get_project_activity`
  abbrev pub get_activity_handler : Text → (limit : ℕ) → Store → Answer × Store
  get_activity_handler identifier limit s =
      if is_limit limit
      then with_project identifier viewer (reads (show_activity limit)) s
      else (invalid, s)

  -- The handlers. A body is validated before its handler runs.
  unfoldable pub handle_project : ProjectRequest → Store → Answer × Store
  unfolding on_project validate_create validate_update get_project_activity get_org_projects
  handle_project (create_one body) s = create_project_handler body s
  handle_project (list_all search status archived skip limit) s =
      list_projects_handler search status archived skip limit s
  handle_project (get_one identifier) s = get_project_handler identifier s
  handle_project (update_one identifier body) s = update_project_handler identifier body s
  handle_project (delete_one identifier) s = delete_project_handler identifier s
  handle_project (archive_one identifier) s = archive_project_handler identifier s
  handle_project (restore_one identifier) s = restore_project_handler identifier s
  handle_project (get_settings identifier) s = get_settings_handler identifier s
  handle_project (update_settings identifier settings) s =
      update_settings_handler identifier settings s
  handle_project (get_metadata identifier) s = get_metadata_handler identifier s
  handle_project (get_stats identifier) s = get_stats_handler identifier s
  handle_project (get_activity identifier limit) s = get_activity_handler identifier limit s
