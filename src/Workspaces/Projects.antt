-- ===== src/Workspaces/Projects.antt =====
-- The functions on projects in backend/database/crud.py. A function on a row gets its id and the row
-- that the query before it has read; where it raises, the session is rolled back.
use seo_agent_rct.Prelude.{
  ℕ, suc, Bool, true, false, not, ◌&&◌, ◌||◌, Option, none, some, ◌==◌, if◌then◌else◌, nat_key,
  is_some,
}
use seo_agent_rct.Dict
use seo_agent_rct.Dict.{Dict}
use seo_agent_rct.Dict.Rows.{find_row, keep_rows}
use seo_agent_rct.Text.{Text, equals, truthy}
use seo_agent_rct.Workspaces.Slugs.{TextLib, ProjectStatus, active, slugify_text, strip, is_digits}
use seo_agent_rct.Workspaces.Rows.{
  Project, Website, Store, Settings, project, Answer, conflict, project_out, deleted, Action,
  project_created, project_updated, settings_changed, project_archived, project_restored,
  project_deleted, log_audit_event, create_org_audit_event,
}

-- The arguments of `create_project_async` that the request gives.
pub record NewProject : Type 0 where
  pub name : Text
  pub slug : Option Text
  pub description : Option Text
  pub status : ProjectStatus
  pub color : Option Text
  pub icon : Option Text
  pub timezone : Text
  pub language : Text
  pub settings : Settings

-- The arguments of `update_project_async` that the request gives.
pub record ProjectChange : Type 0 where
  pub name : Option Text
  pub slug : Option Text
  pub description : Option Text
  pub status : Option ProjectStatus
  pub color : Option Text
  pub icon : Option Text
  pub timezone : Option Text
  pub language : Option Text
  pub settings : Option Settings

-- `if value is not None: row.value = value`
abbrev pub or_keep {ℓ} : {A : Type ℓ} → Option A → A → A
or_keep none old = old
or_keep (some new) old = new

abbrev pub or_keep_option {ℓ} : {A : Type ℓ} → Option A → Option A → Option A
or_keep_option none old = old
or_keep_option (some new) old = some new

abbrev pub has_slug : ℕ → Text → ℕ → Project → Bool
has_slug organization_id slug id p = (p.organization_id == organization_id) && equals p.slug slug

-- `get_project_by_slug_async`
unfoldable pub get_project_by_slug : (organization_id : ℕ) → Text → Store → Option (ℕ × Project)
unfolding find_row
get_project_by_slug organization_id slug s = find_row (has_slug organization_id slug) s.projects

abbrev pub has_id : ℕ → ℕ → ℕ → Project → Bool
has_id organization_id p_id id p = (p.organization_id == organization_id) && (id == p_id)

-- What two events of one change on a project leave in the logs.
abbrev pub log_both : ℕ → Action → (actor org id : ℕ) → Option ℕ → Store → Store
log_both now action actor org id about s =
    create_org_audit_event org action actor
      (log_audit_event now action actor org (project id) about s)

-- `archive_project_async`
unfoldable pub archive_project : (now actor id : ℕ) → Project → Store → Answer × Store
archive_project now actor id p s =
    let p' : Project = record p {
      archived = true;
      status = ProjectStatus.archived;
      updated_at = now;
    } in
    (
      project_out id p',
      log_both now project_archived actor p.organization_id id (some id)
          (record s { projects = Dict.put s.projects id p' }),
    )

-- `restore_project_async`
unfoldable pub restore_project : (now actor id : ℕ) → Project → Store → Answer × Store
restore_project now actor id p s =
    let p' : Project = record p { archived = false; status = active; updated_at = now } in
    (
      project_out id p',
      log_both now project_restored actor p.organization_id id (some id)
          (record s { projects = Dict.put s.projects id p' }),
    )

-- A website outside a project, for the cascade of its relationship.
abbrev pub is_outside : ℕ → ℕ → Website → Bool
is_outside id k w = elim w.project_id [ none ↦ true | some p ↦ not (p == id) ]

-- `delete_project_async`: the events first, then the row, and with it the project's websites.
unfoldable pub delete_project : (now actor id : ℕ) → Project → Store → Answer × Store
unfolding keep_rows
delete_project now actor id p s =
    let s' = log_both now project_deleted actor p.organization_id id (some id) s in
    (
      deleted id,
      record s' {
        projects = Dict.remove s'.projects id;
        websites = keep_rows (is_outside id) s'.websites;
      },
    )

module _ (lib : TextLib) where
  -- `get_project_by_id_or_slug_async` of a text; the outer `none` is the exception of `int`.
  unfoldable pub get_project_by_id_or_slug :
      (organization_id : ℕ) → Text → Store → Option (Option (ℕ × Project))
  unfolding get_project_by_slug find_row is_digits
  get_project_by_id_or_slug organization_id identifier s =
      let by_slug = get_project_by_slug organization_id identifier s in
      if is_digits lib identifier
      then elim (lib.int identifier) [
        | none ↦ none
        | some p_id ↦ elim (find_row (has_id organization_id p_id) s.projects) [
          | none ↦ some by_slug
          | some found ↦ some (some found)
        ]
      ]
      else some by_slug

  -- The slug of a new project.
  abbrev pub final_slug : NewProject → Text
  final_slug new = elim (truthy new.slug) [
    | none ↦ slugify_text lib (strip lib new.name)
    | some slug ↦ slugify_text lib slug
  ]

  -- `description.strip() if description else None`
  abbrev stripped : Option Text → Option Text
  stripped description = elim (truthy description) [ none ↦ none | some d ↦ some (strip lib d) ]

  -- The row of a new project.
  abbrev pub new_project : (now organization_id owner_id : ℕ) → NewProject → Project
  new_project now organization_id owner_id new = record {
    organization_id = organization_id;
    owner_id = owner_id;
    name = strip lib new.name;
    slug = final_slug new;
    description = stripped new.description;
    status = new.status;
    color = new.color;
    icon = new.icon;
    timezone = new.timezone;
    language = new.language;
    settings = new.settings;
    archived = false;
    created_at = now;
    updated_at = now;
  }

  -- `create_project_async`
  unfoldable pub create_project :
      (now organization_id owner_id : ℕ) → NewProject → Store → Answer × Store
  unfolding get_project_by_slug
  create_project now organization_id owner_id new s =
      if is_some (get_project_by_slug organization_id (final_slug new) s)
      then (conflict, s)
      else let id = s.next_project in
        let p = new_project now organization_id owner_id new in
        (
          project_out id p,
          log_both now project_created owner_id organization_id id (some id)
              (record s { projects = Dict.put s.projects id p; next_project = suc id }),
        )

  -- The slug after a change: `none` where the conflict is raised.
  unfoldable pub changed_slug : (id : ℕ) → Project → Option Text → Store → Option Text
  unfolding get_project_by_slug
  changed_slug id p none s = some p.slug
  changed_slug id p (some slug) s =
      let new_slug = slugify_text lib slug in
      if equals new_slug p.slug
      then some p.slug
      else elim (get_project_by_slug p.organization_id new_slug s) [
        | none ↦ some new_slug
        | some (existing, q) ↦ if existing == id then some new_slug else none
      ]

  -- `is_settings_only`
  abbrev is_settings_only : ProjectChange → Bool
  is_settings_only c =
      is_some c.settings
      && not (
          is_some c.name
          || is_some c.slug
          || is_some c.description
          || is_some c.status
          || is_some c.color
          || is_some c.icon
          || is_some c.timezone
          || is_some c.language)

  -- The row after a change.
  abbrev pub changed_project : (now : ℕ) → ProjectChange → Text → Project → Project
  changed_project now c slug p = record p {
    name = elim c.name [ none ↦ p.name | some name ↦ strip lib name ];
    slug = slug;
    description = or_keep_option c.description p.description;
    status = or_keep c.status p.status;
    color = or_keep_option c.color p.color;
    icon = or_keep_option c.icon p.icon;
    timezone = or_keep c.timezone p.timezone;
    language = or_keep c.language p.language;
    settings = or_keep c.settings p.settings;
    updated_at = now;
  }

  -- `update_project_async`; its event has the changes as its details, and so no `project_id`.
  unfoldable pub update_project :
      (now actor id : ℕ) → ProjectChange → Project → Store → Answer × Store
  unfolding changed_slug
  update_project now actor id c p s = elim (changed_slug id p c.slug s) [
    | none ↦ (conflict, s)
    | some slug ↦
        let p' = changed_project now c slug p in
        let action = if is_settings_only c then settings_changed else project_updated in
        (
          project_out id p',
          log_both now action actor p.organization_id id none
              (record s { projects = Dict.put s.projects id p' }),
        )
  ]
