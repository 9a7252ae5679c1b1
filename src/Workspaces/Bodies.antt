-- ===== src/Workspaces/Bodies.antt =====
-- The bodies of the requests on projects: `ProjectCreate` and `ProjectUpdate` of
-- backend/database/schemas.py, with their length limits and validators, and the defaults of
-- `create_project` in backend/api/project_routes.py.
use seo_agent_rct.Prelude.{
  ℕ, Bool, true, not, ◌&&◌, Option, none, some, [], ◌∷◌, leb, length, if◌then◌else◌, ◌>>=◌,
}
use seo_agent_rct.Text.{Text, truthy}
use seo_agent_rct.Workspaces.Slugs.{
  TextLib, ProjectStatus, active, validate_name, validate_slug, validate_status,
}
use seo_agent_rct.Workspaces.Rows.{Settings}
use seo_agent_rct.Workspaces.Projects.{NewProject, ProjectChange}

-- The fields of either body. In a creation the name is required.
pub record ProjectBody : Type 0 where
  pub name : Option Text
  pub slug : Option Text
  pub description : Option Text
  pub status : Option Text
  pub color : Option Text
  pub icon : Option Text
  pub timezone : Option Text
  pub language : Option Text
  pub settings : Option Settings

-- `min_length` and `max_length` of a field
abbrev fits : (low high : ℕ) → Option Text → Bool
fits low high none = true
fits low high (some t) = leb low (length t) && leb (length t) high

-- The length limits of both bodies.
abbrev lengths_fit : ProjectBody → Bool
lengths_fit b =
    fits 1 100 b.name
    && fits 1 100 b.slug
    && fits 0 1000 b.description
    && fits 0 20 b.status
    && fits 0 30 b.color
    && fits 0 50 b.icon
    && fits 0 50 b.timezone
    && fits 0 10 b.language

-- `value or default`
abbrev pub or_text : Option Text → Text → Text
or_text value default_value = elim (truthy value) [ none ↦ default_value | some t ↦ t ]

abbrev pub or_empty : Option Settings → Settings
or_empty none = []
or_empty (some settings) = settings

abbrev pub utc : Text
utc = b'U' ∷ b'T' ∷ b'C' ∷ []

abbrev pub english : Text
english = b'e' ∷ b'n' ∷ []

-- `project_in.status or "active"`
abbrev or_active : Option ProjectStatus → ProjectStatus
or_active none = active
or_active (some status) = status

module _ (lib : TextLib) where
  -- A validated name, where there is one.
  abbrev validate_optional_name : Option Text → Option (Option Text)
  validate_optional_name none = some none
  validate_optional_name (some name) = validate_name lib name >>= λ v. some (some v)

  -- The arguments of a creation; `none` is the validation error.
  unfoldable pub validate_create : ProjectBody → Option NewProject
  unfolding validate_name validate_slug validate_status
  validate_create b =
      if not (lengths_fit b)
      then none
      else b.name >>= λ name. validate_name lib name >>= λ name'.
          validate_slug lib b.slug >>= λ slug. validate_status lib b.status >>= λ status.
          some (record {
            name = name';
            slug = slug;
            description = b.description;
            status = or_active status;
            color = b.color;
            icon = b.icon;
            timezone = or_text b.timezone utc;
            language = or_text b.language english;
            settings = or_empty b.settings;
          })

  -- The arguments of a change; `none` is the validation error.
  unfoldable pub validate_update : ProjectBody → Option ProjectChange
  unfolding validate_name validate_slug validate_status
  validate_update b =
      if not (lengths_fit b)
      then none
      else validate_optional_name b.name >>= λ name. validate_slug lib b.slug >>= λ slug.
          validate_status lib b.status >>= λ status. some (record {
            name = name;
            slug = slug;
            description = b.description;
            status = status;
            color = b.color;
            icon = b.icon;
            timezone = b.timezone;
            language = b.language;
            settings = b.settings;
          })
