-- ===== src/Workspaces/Tests.antt =====
-- An organization 1 with an administrator 5, a member 6 and a viewer 7.
use seo_agent_rct.Prelude.{
  ℕ, ◌≡◌, refl, sym, subst, Bool, true, ◌&&◌, ◌||◌, Option, none, some, List, [], ◌∷◌, ◌==◌, leb,
  arith, inl, ℕ_discrete, if◌then◌else◌,
}
use seo_agent_rct.Dict
use seo_agent_rct.Dict.{Dict}
use seo_agent_rct.Dict.Rows.{find_row}
use seo_agent_rct.Text.{Text, Text_discrete, starts_with, has_infix}
use seo_agent_rct.Orgs.Rows.{Role, admin, member, viewer, check_role_permission}
use seo_agent_rct.Workspaces.Slugs.{
  TextLib, default_slug, slugify_text, strip_class, strip_start, strip_end, join_gaps,
  validate_name, validate_slug, validate_status, is_digits, all_digits,
}
use seo_agent_rct.Workspaces.Slugs.Shape.{Joined, is_slug_letter, IsSlug, slugify_text-IsSlug}
use seo_agent_rct.Workspaces.Domains.{
  normalize_domain, is_valid_domain, after_first, before, is_host, matches_domain_regex,
  labels_from, domain_labels, is_label, label_rest, all_letters,
}
use seo_agent_rct.Workspaces.Domains.Shape.{Lacks, is_mark, normalize_domain-Lacks}
use seo_agent_rct.Workspaces.Rows.{Store, log_audit_event, create_org_audit_event}
use seo_agent_rct.Workspaces.Bodies.{ProjectBody, validate_create}
use seo_agent_rct.Workspaces.Projects.{
  create_project, get_project_by_slug, get_project_by_id_or_slug,
}
use seo_agent_rct.Workspaces.Websites.{
  WebsiteBody, create_website, get_org_website, drop_scheme_ends,
}
use seo_agent_rct.Workspaces.ProjectRoutes.{create_one, delete_one, handle_project, on_project}
use seo_agent_rct.Workspaces.WebsiteRoutes.{WebsiteRequest, handle_website, create_in}
use seo_agent_rct.Workspaces.Requests.{Request, on_projects, on_websites, dispatch, handle_all}
use seo_agent_rct.Workspaces.Validity.{IsValid}
use seo_agent_rct.Workspaces.Validity.Kept.{handle_all-IsValid}
use seo_agent_rct.Workspaces.Access.Others.{Untouched}
use seo_agent_rct.Workspaces.Access.Deletions.{Survives}
use seo_agent_rct.Workspaces.Access.{handle_all-Untouched, handle_all-Survives}

abbrev is_lower : ℕ → Bool
is_lower c = leb b'a' c && leb c b'z'

abbrev ascii : TextLib
ascii = record {
  is_word = λ c. is_lower c || (c == b'_');
  is_space = λ c. c == 32;
  isdigit = λ c. leb b'0' c && leb c b'9';
  lower = λ s. s;
  upper = λ s. s;
  int = λ s. some 0;
  ilike = λ part text. true;
}

letters : Joined (is_slug_letter ascii) default_slug
letters = (inl refl, (inl refl, (inl refl, (inl refl, (inl refl, (inl refl, (inl refl, tt)))))))

abbrev role_of : (org_id user_id : ℕ) → Option Role
role_of org_id user_id =
    if org_id == 1
    then (if user_id == 5 then some admin else if user_id == 6 then some member else some viewer)
    else none

abbrev no_rows : Store
no_rows = record {
  memberships = role_of;
  projects = [];
  next_project = 1;
  websites = [];
  next_website = 1;
  audits_of = λ id. 0;
  leads_of = λ id. 0;
  logs = [];
  org_events = [];
}

no_rows-IsValid : IsValid ascii no_rows
unfolding Dict.get
no_rows-IsValid = record {
  projects_distinct = tt;
  websites_distinct = tt;
  projects_below = λ k p g. ground arith;
  websites_below = λ k p g. ground arith;
  slugs = λ k p g. ground arith;
  one_slug = λ i j p q g h r. ground arith;
  one_domain = λ i j p q g h r. ground arith;
  homes = λ k w g. ground arith;
}

abbrev shop : ProjectBody
shop = record {
  name = some (b's' ∷ b'h' ∷ 32 ∷ b'o' ∷ b'p' ∷ []);
  slug = none;
  description = none;
  status = none;
  color = none;
  icon = none;
  timezone = none;
  language = none;
  settings = none;
}

abbrev site : WebsiteBody
site = record {
  domain = some (b'a' ∷ b'.' ∷ b'i' ∷ b'o' ∷ b'/' ∷ []);
  protocol = none;
  status = none;
  verification_status = none;
  favicon = none;
  country = none;
  language = none;
  timezone = none;
  settings = none;
}

abbrev shop_slug : Text
shop_slug = b's' ∷ b'h' ∷ b'-' ∷ b'o' ∷ b'p' ∷ []

abbrev calls : (user : ℕ) → List Request
calls user =
    record { now = 10; org_id = 1; user_id = user; target = on_projects (create_one shop) }
    ∷ record {
      now = 20;
      org_id = 1;
      user_id = user;
      target = on_websites shop_slug (WebsiteRequest.create_one site);
    }
    ∷ record { now = 30; org_id = 1; user_id = user; target = on_projects (delete_one shop_slug) }
    ∷ []

handle_all-IsValid_example : IsValid ascii (handle_all ascii (calls 5) no_rows)
handle_all-IsValid_example = handle_all-IsValid ascii (calls 5) no_rows letters no_rows-IsValid

abbrev used : Store
used = handle_all ascii (calls 6) no_rows

used-IsValid : IsValid ascii used
used-IsValid = handle_all-IsValid ascii (calls 6) no_rows letters no_rows-IsValid

used_memberships : used.memberships ≡ role_of
unfolding handle_all dispatch handle_project handle_website on_project create_in create_project
    create_website get_project_by_slug get_org_website validate_create validate_name validate_slug
    validate_status slugify_text strip_class strip_start strip_end join_gaps find_row Dict.get
    Dict.put Text_discrete ℕ_discrete is_valid_domain normalize_domain after_first before is_host
    matches_domain_regex labels_from domain_labels is_label label_rest all_letters starts_with
    has_infix drop_scheme_ends log_audit_event create_org_audit_event check_role_permission
    get_project_by_id_or_slug is_digits all_digits
used_memberships = refl

-- A user has no role of a kind among the given ones.
abbrev LacksRole : (org_id user_id : ℕ) → Role → (ℕ → ℕ → Option Role) → Type 0
LacksRole org_id user_id required roles = ¬ (
    (role : Role) × (roles org_id user_id ≡ some role)
    × (check_role_permission role required ≡ true))

viewer_lacks : LacksRole 1 7 member role_of
unfolding check_role_permission
viewer_lacks h = ground arith

member_lacks : (org_id : ℕ) → LacksRole org_id 6 admin role_of
unfolding check_role_permission
member_lacks org_id h = ground arith

handle_all-Untouched_example : Untouched 1 used (handle_all ascii (calls 7) used)
handle_all-Untouched_example =
    handle_all-Untouched ascii 7 (calls 7) used 1 letters used-IsValid (refl, (refl, (refl, tt)))
      (subst (LacksRole 1 7 member) (sym used_memberships) viewer_lacks)

handle_all-Survives_example : Survives used (handle_all ascii (calls 6) used)
handle_all-Survives_example =
    handle_all-Survives ascii 6 (calls 6) used letters used-IsValid (refl, (refl, (refl, tt)))
      (λ org_id. subst (LacksRole org_id 6 admin) (sym used_memberships) (member_lacks org_id))

slugify_text-IsSlug_example : IsSlug ascii (slugify_text ascii (b'-' ∷ b'a' ∷ 32 ∷ b'_' ∷ []))
slugify_text-IsSlug_example = slugify_text-IsSlug ascii (b'-' ∷ b'a' ∷ 32 ∷ b'_' ∷ []) letters

no_port : Lacks is_mark (normalize_domain ascii (b'a' ∷ b':' ∷ b'1' ∷ []))
no_port = normalize_domain-Lacks ascii (b'a' ∷ b':' ∷ b'1' ∷ [])

-- The member makes a project and a website, and cannot delete the project.
used_rows : (Dict.size used.projects ≡ 1) × (Dict.size used.websites ≡ 1)
unfolding handle_all dispatch handle_project handle_website on_project create_in create_project
    create_website get_project_by_slug get_org_website validate_create validate_name validate_slug
    validate_status slugify_text strip_class strip_start strip_end join_gaps find_row Dict.get
    Dict.put Text_discrete ℕ_discrete is_valid_domain normalize_domain after_first before is_host
    matches_domain_regex labels_from domain_labels is_label label_rest all_letters starts_with
    has_infix drop_scheme_ends log_audit_event create_org_audit_event check_role_permission
    get_project_by_id_or_slug is_digits all_digits
used_rows = (refl, refl)
