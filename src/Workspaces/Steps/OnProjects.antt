-- ===== src/Workspaces/Steps/OnProjects.antt =====
-- The functions on projects take steps.
use seo_agent_rct.Prelude.{
  ℕ, ◌≡◌, ◌⊎◌, inl, inr, refl, sym, subst, Bool, true, Option, none, some, arith, nat_key,
  Bool-cases, Option-cases,
}
use seo_agent_rct.Dict
use seo_agent_rct.Dict.{Dict}
use seo_agent_rct.Dict.Laws.{Distinct}
use seo_agent_rct.Dict.Rows.{find_row, find_row-none, find_row-fits, find_row-get}
use seo_agent_rct.Text.{Text, equals, truthy}
use seo_agent_rct.Orgs.Rows.{Role, check_role_permission, admin, member}
use seo_agent_rct.Workspaces.Slugs.{TextLib, default_slug, slugify_text, strip, is_digits}
use seo_agent_rct.Workspaces.Slugs.Shape.{Joined, is_slug_letter, IsSlug, slugify_text-IsSlug}
use seo_agent_rct.Workspaces.Rows.{Project, Store, Answer, log_audit_event, create_org_audit_event}
use seo_agent_rct.Workspaces.Projects.{
  NewProject, ProjectChange, has_slug, has_id, get_project_by_slug, get_project_by_id_or_slug,
  archive_project, restore_project, delete_project, final_slug, new_project, create_project,
  changed_slug, changed_project, update_project,
}
use seo_agent_rct.Workspaces.ProjectRoutes.{with_role, on_project, with_project}
use seo_agent_rct.Workspaces.Steps.{
  HasRole, FreeSlug, Step, stays, adds_project, sets_project, removes_project,
}

module _ (lib : TextLib) (letters : Joined (is_slug_letter lib) default_slug) where
  final_slug-IsSlug : (new : NewProject) → IsSlug lib (final_slug lib new)
  final_slug-IsSlug new = elim (Option-cases (truthy new.slug)) [
    | inl e ↦ rw (final_slug, e) (slugify_text-IsSlug lib (strip lib new.name) letters)
    | inr (slug, e) ↦ rw (final_slug, e) (slugify_text-IsSlug lib slug letters)
  ]

  get_project_by_slug-FreeSlug :
      (org_id : ℕ) (slug : Text) (s : Store)
      → get_project_by_slug org_id slug s ≡ none
      → FreeSlug org_id slug s
  unfolding get_project_by_slug
  get_project_by_slug-FreeSlug org_id slug s e k q g =
      find_row-none (has_slug org_id slug) s.projects k q e g

  pub create_project-Step :
      (now org_id user_id : ℕ) (new : NewProject) (s : Store)
      → HasRole org_id user_id member s
      → Step lib org_id user_id s (create_project lib now org_id user_id new s).1
  unfolding create_project log_audit_event create_org_audit_event
  create_project-Step now org_id user_id new s role =
      elim (Option-cases (get_project_by_slug org_id (final_slug lib new) s)) [
        | inr (existing, e) ↦ stays (rw (create_project, e) refl)
        | inl e ↦
            adds_project role (new_project lib now org_id user_id new) refl (final_slug-IsSlug new)
              (get_project_by_slug-FreeSlug org_id (final_slug lib new) s e)
              (rw (create_project, e) refl) (rw (create_project, e) refl)
              (rw (create_project, e) refl, rw (create_project, e) refl)
              (rw (create_project, e) refl)
      ]

  pub archive_project-Step :
      (now org_id user_id id : ℕ) (p : Project) (s : Store)
      → HasRole org_id user_id member s
      → Dict.get s.projects id ≡ some p
      → p.organization_id ≡ org_id
      → Step lib org_id user_id s (archive_project now user_id id p s).1
  unfolding archive_project log_audit_event create_org_audit_event
  archive_project-Step now org_id user_id id p s role g o =
      sets_project role id p _ g o o (inl refl) refl refl (refl, refl) refl

  pub restore_project-Step :
      (now org_id user_id id : ℕ) (p : Project) (s : Store)
      → HasRole org_id user_id member s
      → Dict.get s.projects id ≡ some p
      → p.organization_id ≡ org_id
      → Step lib org_id user_id s (restore_project now user_id id p s).1
  unfolding restore_project log_audit_event create_org_audit_event
  restore_project-Step now org_id user_id id p s role g o =
      sets_project role id p _ g o o (inl refl) refl refl (refl, refl) refl

  pub delete_project-Step :
      (now org_id user_id id : ℕ) (p : Project) (s : Store)
      → HasRole org_id user_id admin s
      → Dict.get s.projects id ≡ some p
      → p.organization_id ≡ org_id
      → Step lib org_id user_id s (delete_project now user_id id p s).1
  unfolding delete_project log_audit_event create_org_audit_event
  delete_project-Step now org_id user_id id p s role g o =
      removes_project role id p g o refl refl refl refl refl

  -- A change keeps the slug, or takes one that is free in the organization.
  changed_slug-IsSlug :
      (id : ℕ) (p : Project) (slug : Option Text) (s : Store) (slug' : Text)
      → Distinct s.projects
      → Dict.get s.projects id ≡ some p
      → changed_slug lib id p slug s ≡ some slug'
      → (slug' ≡ p.slug) ⊎ IsSlug lib slug' × FreeSlug p.organization_id slug' s
  unfolding changed_slug get_project_by_slug
  changed_slug-IsSlug id p none s slug' u g e = inl (ground arith)
  changed_slug-IsSlug id p (some slug) s slug' u g e =
      elim (Bool-cases (equals (slugify_text lib slug) p.slug)) [
        | inl same ↦ inl (ground arith)
        | inr other ↦
            elim (Option-cases (get_project_by_slug p.organization_id (slugify_text lib slug) s)) [
              | inl n ↦
                  let same : slugify_text lib slug ≡ slug' = ground arith in
                  inr (
                    subst (IsSlug lib) same (slugify_text-IsSlug lib slug letters),
                    subst (λ t. FreeSlug p.organization_id t s) same
                        (get_project_by_slug-FreeSlug p.organization_id (slugify_text lib slug) s
                          n),
                  )
              | inr ((existing, q), n) ↦
                  let fits =
                    find_row-fits (has_slug p.organization_id (slugify_text lib slug)) s.projects
                      existing q n in
                  let found =
                    find_row-get (has_slug p.organization_id (slugify_text lib slug)) s.projects
                      existing q u n in
                  inl (ground arith)
            ]
      ]

  pub update_project-Step :
      (now org_id user_id id : ℕ) (c : ProjectChange) (p : Project) (s : Store)
      → Distinct s.projects
      → HasRole org_id user_id member s
      → Dict.get s.projects id ≡ some p
      → p.organization_id ≡ org_id
      → Step lib org_id user_id s (update_project lib now user_id id c p s).1
  unfolding update_project log_audit_event create_org_audit_event
  update_project-Step now org_id user_id id c p s u role g o =
      elim (Option-cases (changed_slug lib id p c.slug s)) [
        | inl e ↦ stays (rw (update_project, e) refl)
        | inr (slug, e) ↦
            sets_project role id p (changed_project lib now c slug p) g o o
              (subst (λ k. (slug ≡ p.slug) ⊎ IsSlug lib slug × FreeSlug k slug s) o
                (changed_slug-IsSlug id p c.slug s slug u g e))
              (rw (update_project, e) refl) (rw (update_project, e) refl)
              (rw (update_project, e) refl, rw (update_project, e) refl)
              (rw (update_project, e) refl)
      ]

module _ (lib : TextLib) where
  -- A row of the organization that a query finds.
  row_found :
      (test : ℕ → Project → Bool) (org_id : ℕ) (s : Store) (id : ℕ) (p : Project)
      → Distinct s.projects
      → ((k : ℕ) (q : Project) → test k q ≡ true → q.organization_id ≡ org_id)
      → find_row test s.projects ≡ some (id, p)
      → (Dict.get s.projects id ≡ some p) × (p.organization_id ≡ org_id)
  row_found test org_id s id p u own e =
      (find_row-get test s.projects id p u e, own id p (find_row-fits test s.projects id p e))

  -- A project that is found stands in its table, and in the organization.
  get_project-org :
      (org_id : ℕ) (identifier : Text) (s : Store) (id : ℕ) (p : Project)
      → Distinct s.projects
      → get_project_by_id_or_slug lib org_id identifier s ≡ some (some (id, p))
      → (Dict.get s.projects id ≡ some p) × (p.organization_id ≡ org_id)
  unfolding get_project_by_id_or_slug get_project_by_slug
  get_project-org org_id identifier s id p u e =
      let by_slug =
        row_found (has_slug org_id identifier) org_id s id p u (λ k q t. ground arith) in
      elim (Bool-cases (is_digits lib identifier)) [
        | inr f ↦ by_slug (ground arith)
        | inl d ↦ elim (Option-cases (lib.int identifier)) [
          | inl n ↦ ground arith
          | inr (p_id, n) ↦ elim (Option-cases (find_row (has_id org_id p_id) s.projects)) [
            | inl m ↦ by_slug (ground arith)
            | inr (found, m) ↦
                row_found (has_id org_id p_id) org_id s id p u (λ k q t. ground arith)
                  (ground arith)
          ]
        ]
      ]

  -- What follows the check of the role.
  pub with_role-Step :
      (org_id user_id : ℕ) (required : Role) (run : Store → Answer × Store) (s : Store)
      → (HasRole org_id user_id required s → Step lib org_id user_id s (run s).1)
      → Step lib org_id user_id s (with_role org_id user_id required run s).1
  with_role-Step org_id user_id required run s next =
      elim (Option-cases (s.memberships org_id user_id)) [
        | inl e ↦ stays (rw (with_role, e) refl)
        | inr (role, e) ↦ elim (Bool-cases (check_role_permission role required)) [
          | inr f ↦ stays (rw (with_role, e, f) refl)
          | inl f ↦
              let eq : with_role org_id user_id required run s ≡ run s =
                rw (with_role, e, f) refl in
              subst (λ r. Step lib org_id user_id s r.1) (sym eq) (next (role, e, f))
        ]
      ]

  -- What follows the look-up of the project.
  pub with_project-Step :
      (now org_id user_id : ℕ) (identifier : Text) (required : Role)
      (run : ℕ → Project → Store → Answer × Store) (s : Store)
      → Distinct s.projects
      → ((id : ℕ) (p : Project)
          → HasRole org_id user_id required s
          → Dict.get s.projects id ≡ some p
          → p.organization_id ≡ org_id
          → Step lib org_id user_id s (run id p s).1)
      → Step lib org_id user_id s (with_project lib now org_id user_id identifier required run s).1
  unfolding on_project
  with_project-Step now org_id user_id identifier required run s u next =
      with_role-Step org_id user_id required (on_project lib now org_id user_id identifier run) s
        (λ role. elim (Option-cases (get_project_by_id_or_slug lib org_id identifier s)) [
          | inl e ↦ stays (rw (on_project, e) refl)
          | inr (none, e) ↦ stays (rw (on_project, e) refl)
          | inr (some (id, p), e) ↦
              let (g, o) = get_project-org org_id identifier s id p u e in
              let eq : on_project lib now org_id user_id identifier run s ≡ run id p s =
                rw (on_project, e) refl in
              subst (λ r. Step lib org_id user_id s r.1) (sym eq) (next id p role g o)
        ])
