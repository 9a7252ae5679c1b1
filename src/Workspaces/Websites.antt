-- ===== src/Workspaces/Websites.antt =====
-- The functions on the websites of a project in backend/database/crud.py.
use seo_agent_rct.Prelude.{
  ℕ, zero, suc, Bool, true, false, not, ◌&&◌, ◌||◌, Option, none, some, [], ◌∷◌, ◌++◌, ◌==◌,
  if◌then◌else◌, nat_key, is_some,
}
use seo_agent_rct.Dict
use seo_agent_rct.Dict.{Dict}
use seo_agent_rct.Dict.Rows.{find_row}
use seo_agent_rct.Text.{Text, is_empty, equals, starts_with}
use seo_agent_rct.Workspaces.Slugs.{TextLib, ProjectStatus, active, status_text, is_digits, strip}
use seo_agent_rct.Workspaces.Domains.{scheme_end, before, normalize_domain}
use seo_agent_rct.Workspaces.Projects.{or_keep, or_keep_option}
use seo_agent_rct.Workspaces.Bodies.{or_text, or_empty, utc, english}
use seo_agent_rct.Workspaces.Rows.{
  Website, Store, Settings, website, Answer, conflict, website_out, deleted, Action,
  website_created, website_updated, website_settings_changed, website_archived, website_restored,
  website_deleted, log_audit_event, create_org_audit_event,
}

-- The fields of `WebsiteCreate`, where `domain` is required, and of `WebsiteUpdate`.
pub record WebsiteBody : Type 0 where
  pub domain : Option Text
  pub protocol : Option Text
  pub status : Option Text
  pub verification_status : Option Text
  pub favicon : Option Text
  pub country : Option Text
  pub language : Option Text
  pub timezone : Option Text
  pub settings : Option Settings

-- `column == id`, for a column that may be null
abbrev pub is_id : Option ℕ → ℕ → Bool
is_id none id = false
is_id (some k) id = k == id

-- The other websites of an organization with a domain; an id of 0 excludes nothing.
abbrev pub has_domain : ℕ → Text → (exclude : Option ℕ) → ℕ → Website → Bool
has_domain organization_id norm exclude id w =
    is_id w.organization_id organization_id
    && equals w.normalized_domain norm
    && elim exclude [ none ↦ true | some k ↦ (k == 0) || not (id == k) ]

-- `get_org_website_by_normalized_domain_async`
unfoldable pub get_org_website :
    (organization_id : ℕ) → Text → (exclude : Option ℕ) → Store → Option (ℕ × Website)
unfolding find_row
get_org_website organization_id norm exclude s =
    find_row (has_domain organization_id norm exclude) s.websites

-- `s.replace("://", "")`; `skip` counts the characters of an occurrence that are still to be skipped.
unfoldable pub drop_scheme_ends : (skip : ℕ) → Text → Text
unfolding starts_with
drop_scheme_ends skip [] = []
drop_scheme_ends (suc skip) (c ∷ s) = drop_scheme_ends skip s
drop_scheme_ends zero (c ∷ s) =
    let skipped = drop_scheme_ends 2 s in
    let kept = c ∷ drop_scheme_ends 0 s in if starts_with (c ∷ s) scheme_end then skipped else kept

abbrev https : Text
https = b'h' ∷ b't' ∷ b't' ∷ b'p' ∷ b's' ∷ []

abbrev unverified : Text
unverified = b'u' ∷ b'n' ∷ b'v' ∷ b'e' ∷ b'r' ∷ b'i' ∷ b'f' ∷ b'i' ∷ b'e' ∷ b'd' ∷ []

-- The events of a change to a website.
abbrev pub log_website : ℕ → Action → (actor org id : ℕ) → Website → Store → Store
log_website now action actor org id w s =
    create_org_audit_event org action actor
      (log_audit_event now action actor org (website id) w.project_id s)

-- `website.organization_id` of a website that has been found in an organization.
abbrev pub org_of : Website → ℕ
org_of w = or_keep w.organization_id 0

-- `archive_project_website_async`
unfoldable pub archive_website : (now actor id : ℕ) → Website → Store → Answer × Store
archive_website now actor id w s =
    let w' : Website = record w {
      archived = true;
      status = status_text ProjectStatus.archived;
      updated_at = now;
    } in
    (
      website_out id w',
      log_website now website_archived actor (org_of w) id w
          (record s { websites = Dict.put s.websites id w' }),
    )

-- `restore_project_website_async`
unfoldable pub restore_website : (now actor id : ℕ) → Website → Store → Answer × Store
restore_website now actor id w s =
    let w' : Website = record w {
      archived = false;
      status = status_text active;
      updated_at = now;
    } in
    (
      website_out id w',
      log_website now website_restored actor (org_of w) id w
          (record s { websites = Dict.put s.websites id w' }),
    )

-- `delete_project_website_async`, which leaves no event of the organization
unfoldable pub delete_website : (now actor id : ℕ) → Website → Store → Answer × Store
delete_website now actor id w s =
    let s' = log_audit_event now website_deleted actor (org_of w) (website id) w.project_id s in
    (deleted id, record s' { websites = Dict.remove s'.websites id })

module _ (lib : TextLib) where
  -- `protocol.lower().replace("://", "").strip()`
  abbrev pub clean_protocol : Text → Text
  clean_protocol protocol = strip lib (drop_scheme_ends 0 (lib.lower protocol))

  -- The row of a new website.
  abbrev pub new_website :
      (now project_id organization_id owner_id : ℕ) → (norm : Text) → WebsiteBody → Website
  new_website now project_id organization_id owner_id norm body =
      let protocol = clean_protocol (or_text body.protocol https) in
      record {
        project_id = some project_id;
        organization_id = some organization_id;
        owner_id = some owner_id;
        user_id = some owner_id;
        url = some (protocol ++ scheme_end ++ norm);
        domain = norm;
        normalized_domain = norm;
        protocol = protocol;
        status = or_text body.status (status_text active);
        verification_status = or_text body.verification_status unverified;
        favicon = body.favicon;
        country = body.country;
        language = or_text body.language english;
        timezone = or_text body.timezone utc;
        settings = or_empty body.settings;
        company_name = some (lib.upper (before b'.' norm));
        archived = false;
        created_at = now;
        updated_at = now;
      }

  -- `create_project_website_async`
  unfoldable pub create_website :
      (now project_id organization_id owner_id : ℕ)
      → (domain : Text) → WebsiteBody
      → Store
      → Answer × Store
  unfolding get_org_website drop_scheme_ends normalize_domain before
  create_website now project_id organization_id owner_id domain body s =
      let norm = normalize_domain lib domain in
      if is_some (get_org_website organization_id norm none s)
      then (conflict, s)
      else let id = s.next_website in
        let w = new_website now project_id organization_id owner_id norm body in
        (
          website_out id w,
          log_website now website_created owner_id organization_id id w
              (record s { websites = Dict.put s.websites id w; next_website = suc id }),
        )

  -- `domain is not None and domain != website.domain`
  abbrev pub domain_change : Option Text → Website → Option Text
  domain_change none w = none
  domain_change (some domain) w = if equals domain w.domain then none else some domain

  -- The website with its new domain: `none` where the conflict is raised.
  unfoldable pub with_domain : (id : ℕ) → Option Text → Website → Store → Option Website
  unfolding get_org_website normalize_domain
  with_domain id none w s = some w
  with_domain id (some domain) w s =
      let norm = normalize_domain lib domain in
      if is_some (get_org_website (org_of w) norm (some id) s)
      then none
      else some (record w { domain = domain; normalized_domain = norm })

  -- `f"{protocol}://{normalized_domain}"`, where both are there
  abbrev url_of : Text → Text → Option Text → Option Text
  url_of protocol norm old =
      if is_empty norm || is_empty protocol then old else some (protocol ++ scheme_end ++ norm)

  -- The other fields after a change.
  abbrev pub changed_website : (now : ℕ) → WebsiteBody → Website → Website
  changed_website now b w =
      let protocol : Text = elim b.protocol [ none ↦ w.protocol | some p ↦ clean_protocol p ] in
      record w {
        protocol = protocol;
        url = url_of protocol w.normalized_domain w.url;
        status = or_keep b.status w.status;
        verification_status = or_keep b.verification_status w.verification_status;
        favicon = or_keep_option b.favicon w.favicon;
        country = or_keep_option b.country w.country;
        language = or_keep b.language w.language;
        timezone = or_keep b.timezone w.timezone;
        settings = or_keep b.settings w.settings;
        updated_at = now;
      }

  -- `settings_updated and len(changed_keys) == 1`
  abbrev only_settings : (domain : Option Text) → WebsiteBody → Bool
  only_settings domain b =
      is_some b.settings
      && not (
          is_some domain
          || is_some b.protocol
          || is_some b.status
          || is_some b.verification_status
          || is_some b.favicon
          || is_some b.country
          || is_some b.language
          || is_some b.timezone)

  -- `update_project_website_async`
  unfoldable pub update_website :
      (now actor id : ℕ) → WebsiteBody → Website → Store → Answer × Store
  unfolding with_domain drop_scheme_ends
  update_website now actor id b w s =
      let domain = domain_change b.domain w in
      elim (with_domain id domain w s) [
        | none ↦ (conflict, s)
        | some found ↦
            let w' = changed_website now b found in
            let action =
              if only_settings domain b then website_settings_changed else website_updated in
            (
              website_out id w',
              log_website now action actor (org_of w) id w
                  (record s { websites = Dict.put s.websites id w' }),
            )
      ]

  -- The condition of `get_project_website_by_id_or_domain_async`; `number` is the id in the text.
  abbrev pub is_named : (project_id : ℕ) → Text → (number : Option ℕ) → ℕ → Website → Bool
  is_named project_id name number id w =
      is_id w.project_id project_id
      && (is_id number id
          || equals w.domain name
          || equals w.normalized_domain (normalize_domain lib name))

  -- `get_project_website_by_id_or_domain_async`; the outer `none` is the exception of `int`.
  unfoldable pub get_project_website :
      (project_id : ℕ) → Text → Store → Option (Option (ℕ × Website))
  unfolding find_row is_digits normalize_domain
  get_project_website project_id name s =
      if is_digits lib name
      then elim (lib.int name) [
        | none ↦ none
        | some number ↦ some (find_row (is_named project_id name (some number)) s.websites)
      ]
      else some (find_row (is_named project_id name none) s.websites)
