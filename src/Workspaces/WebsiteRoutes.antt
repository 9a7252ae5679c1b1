-- ===== src/Workspaces/WebsiteRoutes.antt =====
-- The handlers of backend/api/website_routes.py. A website is named in the path by its id or domain.
use seo_agent_rct.Prelude.{
  ℕ, ◌-◌, ◌/◌, Bool, true, false, not, ◌&&◌, Option, none, some, leb, length, if◌then◌else◌,
}
use seo_agent_rct.Dict
use seo_agent_rct.Dict.{Dict}
use seo_agent_rct.Text.{Text, is_empty, truthy}
use seo_agent_rct.Orgs.Rows.{Role, admin, member, viewer}
use seo_agent_rct.Workspaces.Slugs.{TextLib}
use seo_agent_rct.Workspaces.Domains.{is_valid_domain, normalize_domain}
use seo_agent_rct.Workspaces.Rows.{
  Settings, Project, Website, Store, Answer, not_found, invalid, raised, website_out, websites_out,
  settings_out, metadata_out, website_stats_out,
}
use seo_agent_rct.Workspaces.Listings.{get_project_websites}
use seo_agent_rct.Workspaces.Websites.{
  WebsiteBody, is_id, create_website, update_website, archive_website, restore_website,
  delete_website, get_project_website,
}
use seo_agent_rct.Workspaces.ProjectRoutes.{day, is_limit, on_project, with_project}

pub data WebsiteRequest : Type 0 where
  create_one : WebsiteBody → WebsiteRequest
  list_all :
      (search status : Option Text) → (archived : Option Bool) → (skip limit : ℕ) → WebsiteRequest
  get_one delete_one archive_one restore_one : Text → WebsiteRequest
  get_settings get_metadata get_stats : Text → WebsiteRequest
  update_one : Text → WebsiteBody → WebsiteRequest
  update_settings : Text → Settings → WebsiteRequest

abbrev shorter : ℕ → Option Text → Bool
shorter high none = true
shorter high (some t) = leb (length t) high

-- The length limits of both bodies.
abbrev pub lengths_fit : WebsiteBody → Bool
lengths_fit b =
    shorter 255 b.domain
    && shorter 10 b.protocol
    && shorter 50 b.status
    && shorter 50 b.verification_status
    && shorter 500 b.favicon
    && shorter 10 b.country
    && shorter 10 b.language
    && shorter 50 b.timezone

-- `domain` of `WebsiteCreate`: required, and not empty.
abbrev pub required_domain : WebsiteBody → Option Text
required_domain b = if lengths_fit b then truthy b.domain else none

-- A change of the settings alone.
abbrev pub settings_change : Settings → WebsiteBody
settings_change settings = record {
  domain = none;
  protocol = none;
  status = none;
  verification_status = none;
  favicon = none;
  country = none;
  language = none;
  timezone = none;
  settings = some settings;
}

module _ (lib : TextLib) where
  -- `website_in.domain is not None and not crud.is_valid_domain(website_in.domain)`
  abbrev pub is_refused : Option Text → Bool
  is_refused none = false
  is_refused (some domain) = not (is_valid_domain lib domain)

module _ (lib : TextLib) (now org_id user_id : ℕ) where
  -- `get_website_with_auth_check` after its project, and then the rest of the handler.
  unfoldable pub on_website :
      (project_id : ℕ) → Text → (ℕ → Website → Store → Answer × Store) → Store → Answer × Store
  unfolding get_project_website
  on_website project_id name run s = elim (get_project_website lib project_id name s) [
    | none ↦ (raised, s)
    | some none ↦ (not_found, s)
    | some (some (id, w)) ↦ if is_id w.organization_id org_id then run id w s else (not_found, s)
  ]

  -- `get_website_with_auth_check`, and then the rest of the handler.
  abbrev pub with_website :
      (project : Text)
      → Text
      → Role
      → (ℕ → Website → Store → Answer × Store)
      → Store
      → Answer × Store
  with_website project name required run s =
      with_project lib now org_id user_id project required
        (λ project_id p s. on_website project_id name run s) s

  -- `website.normalized_domain or crud.normalize_domain(website.domain)`
  abbrev pub shown_domain : Website → Text
  shown_domain w =
      if is_empty w.normalized_domain then normalize_domain lib w.domain else w.normalized_domain

  -- A handler that only reads.
  abbrev pub reads : (ℕ → Website → Store → Answer) → ℕ → Website → Store → Answer × Store
  reads answer id w s = (answer id w s, s)

  -- `get_website`
  abbrev pub show_website : ℕ → Website → Store → Answer
  show_website id w s = website_out id w

  -- `get_website_settings`
  abbrev pub show_settings : ℕ → Website → Store → Answer
  show_settings id w s = settings_out id w.settings

  -- `get_website_metadata`
  abbrev pub show_metadata : ℕ → Website → Store → Answer
  show_metadata id w s = metadata_out id (shown_domain w) (Dict.size w.settings)

  -- `get_website_stats`
  abbrev pub show_stats : ℕ → Website → Store → Answer
  show_stats id w s = website_stats_out (record {
    website_id = id;
    created_days_ago = (now - w.created_at) / day;
    settings_keys_count = Dict.size w.settings;
    total_audits = s.audits_of id;
    total_leads = s.leads_of id;
  })

  -- `list_websites`
  abbrev pub list_websites :
      (search status : Option Text)
      → Option Bool
      → (skip limit : ℕ) → (id : ℕ) → Project
      → Store
      → Answer × Store
  list_websites search status archived skip limit id p s =
      (websites_out (get_project_websites lib id search status archived skip limit s), s)

  -- `create_website` in its project
  unfoldable pub create_in : (domain : Text) → WebsiteBody → ℕ → Project → Store → Answer × Store
  unfolding is_valid_domain create_website
  create_in domain body project_id p s =
      if is_valid_domain lib domain
      then create_website lib now project_id org_id user_id domain body s
      else (invalid, s)

  -- `update_website` on its row
  unfoldable pub update_row : WebsiteBody → ℕ → Website → Store → Answer × Store
  unfolding is_valid_domain update_website
  update_row body id w s =
      if is_refused lib body.domain
      then (invalid, s)
      else update_website lib now user_id id body w s

  -- `create_website`
  abbrev pub create_website_handler : Text → WebsiteBody → Store → Answer × Store
  create_website_handler project body s = elim (required_domain body) [
    | none ↦ (invalid, s)
    | some domain ↦ with_project lib now org_id user_id project member (create_in domain body) s
  ]

  -- `list_websites`
  abbrev pub list_websites_handler :
      Text → (search status : Option Text) → Option Bool → (skip limit : ℕ) → Store → Answer × Store
  list_websites_handler project search status archived skip limit s =
      if is_limit limit
      then with_project lib now org_id user_id project viewer
          (list_websites search status archived skip limit) s
      else (invalid, s)

  -- `get_website`
  abbrev pub get_website_handler : (project name : Text) → Store → Answer × Store
  get_website_handler project name s = with_website project name viewer (reads show_website) s

  -- `update_website`
  abbrev pub update_website_handler : (project name : Text) → WebsiteBody → Store → Answer × Store
  update_website_handler project name body s =
      if lengths_fit body
      then with_website project name member (update_row body) s
      else (invalid, s)

  -- `delete_website`
  abbrev pub delete_website_handler : (project name : Text) → Store → Answer × Store
  delete_website_handler project name s =
      with_website project name admin (delete_website now user_id) s

  -- `archive_website`
  abbrev pub archive_website_handler : (project name : Text) → Store → Answer × Store
  archive_website_handler project name s =
      with_website project name member (archive_website now user_id) s

  -- `restore_website`
  abbrev pub restore_website_handler : (project name : Text) → Store → Answer × Store
  restore_website_handler project name s =
      with_website project name member (restore_website now user_id) s

  -- `get_website_settings`
  abbrev pub get_website_settings_handler : (project name : Text) → Store → Answer × Store
  get_website_settings_handler project name s =
      with_website project name viewer (reads show_settings) s

  -- `update_website_settings`
  abbrev pub update_website_settings_handler :
      (project name : Text) → Settings → Store → Answer × Store
  update_website_settings_handler project name settings s =
      with_website project name member
        (λ id w s. update_website lib now user_id id (settings_change settings) w s) s

  -- `get_website_metadata`
  abbrev pub get_website_metadata_handler : (project name : Text) → Store → Answer × Store
  get_website_metadata_handler project name s =
      with_website project name viewer (reads show_metadata) s

  -- `get_website_stats`
  abbrev pub get_website_stats_handler : (project name : Text) → Store → Answer × Store
  get_website_stats_handler project name s = with_website project name viewer (reads show_stats) s

  -- The handlers, with the name of the project in the path. A body is validated before its handler
  -- runs.
  unfoldable pub handle_website : Text → WebsiteRequest → Store → Answer × Store
  unfolding on_project on_website create_in update_row get_project_websites normalize_domain
  handle_website project (create_one body) s = create_website_handler project body s
  handle_website project (list_all search status archived skip limit) s =
      list_websites_handler project search status archived skip limit s
  handle_website project (get_one name) s = get_website_handler project name s
  handle_website project (update_one name body) s = update_website_handler project name body s
  handle_website project (delete_one name) s = delete_website_handler project name s
  handle_website project (archive_one name) s = archive_website_handler project name s
  handle_website project (restore_one name) s = restore_website_handler project name s
  handle_website project (get_settings name) s = get_website_settings_handler project name s
  handle_website project (update_settings name settings) s =
      update_website_settings_handler project name settings s
  handle_website project (get_metadata name) s = get_website_metadata_handler project name s
  handle_website project (get_stats name) s = get_website_stats_handler project name s
