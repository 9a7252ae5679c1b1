-- ===== src/Workspaces/Steps/Handlers.antt =====
-- Every request takes a step.
use seo_agent_rct.Prelude.{
  ℕ, ◌≡◌, inl, inr, refl, sym, subst, Bool, true, false, some, nat_key, Option-cases, if◌then◌else◌,
}
use seo_agent_rct.Dict
use seo_agent_rct.Dict.Laws.{Distinct}
use seo_agent_rct.Text.{Text}
use seo_agent_rct.Orgs.Rows.{Role, viewer, member, admin}
use seo_agent_rct.Workspaces.Slugs.{TextLib, default_slug}
use seo_agent_rct.Workspaces.Slugs.Shape.{Joined, is_slug_letter}
use seo_agent_rct.Workspaces.Rows.{Project, Website, Store, Answer, invalid}
use seo_agent_rct.Workspaces.Projects.{
  create_project, update_project, delete_project, archive_project, restore_project,
}
use seo_agent_rct.Workspaces.Websites.{
  update_website, delete_website, archive_website, restore_website,
}
use seo_agent_rct.Workspaces.Bodies.{validate_create, validate_update}
use seo_agent_rct.Workspaces.ProjectRoutes.{
  ProjectRequest, create_one, list_all, get_one, delete_one, archive_one, restore_one, get_settings,
  get_metadata, get_stats, update_one, update_settings, get_activity, is_limit, settings_change,
  list_projects, show_activity, reads, with_role, with_project, create_project_handler,
  update_project_handler, handle_project,
}
use seo_agent_rct.Workspaces.WebsiteRoutes.{
  WebsiteRequest, list_websites, lengths_fit, required_domain, on_website, with_website, create_in,
  update_row, create_website_handler, handle_website,
}
use seo_agent_rct.Workspaces.WebsiteRoutes
use seo_agent_rct.Workspaces.ProjectRoutes
use seo_agent_rct.Workspaces.Requests.{Target, on_projects, on_websites, dispatch}
use seo_agent_rct.Workspaces.Steps.{HasRole, Step, stays}
use seo_agent_rct.Workspaces.Steps.OnProjects.{
  create_project-Step, archive_project-Step, restore_project-Step, delete_project-Step,
  update_project-Step, with_role-Step, with_project-Step,
}
use seo_agent_rct.Workspaces.Steps.OnWebsites.{
  create_in-Step, archive_website-Step, restore_website-Step, delete_website-Step,
  update_website-Step, update_row-Step, on_website-Step,
}

module _ (lib : TextLib) (letters : Joined (is_slug_letter lib) default_slug)
    (now org_id user_id : ℕ) where
  -- A guard in front of a handler.
  guarded :
      (test : Bool) (s : Store) (run : Answer × Store) (answer : Answer)
      → Step lib org_id user_id s run.1
      → Step lib org_id user_id s (if test then run else (answer, s)).1
  guarded true s run answer h = h
  guarded false s run answer h = stays refl

  shows :
      (identifier : Text) (answer : ℕ → Project → Store → Answer) (s : Store)
      → Distinct s.projects
      → Step lib org_id user_id s
          (with_project lib now org_id user_id identifier viewer
            (reads lib now org_id user_id answer)
            s).1
  shows identifier answer s u =
      with_project-Step lib now org_id user_id identifier viewer
        (reads lib now org_id user_id answer) s u (λ id p role g o. stays refl)

  handle_project-Step :
      (request : ProjectRequest) (s : Store)
      → Distinct s.projects
      → Step lib org_id user_id s (handle_project lib now org_id user_id request s).1
  unfolding handle_project
  handle_project-Step (create_one body) s u = elim (Option-cases (validate_create lib body)) [
    | inl e ↦ stays (rw (handle_project, create_project_handler, e) refl)
    | inr (new, e) ↦
        let eq : handle_project lib now org_id user_id (create_one body) s
            ≡ with_role org_id user_id member (create_project lib now org_id user_id new) s =
          rw (handle_project, create_project_handler, e) refl in
        subst (λ r. Step lib org_id user_id s r.1) (sym eq)
          (with_role-Step lib org_id user_id member (create_project lib now org_id user_id new) s
            (create_project-Step lib letters now org_id user_id new s))
  ]
  handle_project-Step (list_all search status archived skip limit) s u =
      guarded (is_limit limit) s
        (with_role org_id user_id viewer
          (list_projects lib now org_id user_id search status archived skip limit) s)
        invalid
        (with_role-Step lib org_id user_id viewer
          (list_projects lib now org_id user_id search status archived skip limit) s
          (λ role. stays refl))
  handle_project-Step (get_one identifier) s u =
      shows identifier (ProjectRoutes.show_project lib now org_id user_id) s u
  handle_project-Step (update_one identifier body) s u =
      elim (Option-cases (validate_update lib body)) [
        | inl e ↦ stays (rw (handle_project, update_project_handler, e) refl)
        | inr (change, e) ↦
            let eq : handle_project lib now org_id user_id (update_one identifier body) s
                ≡ with_project lib now org_id user_id identifier member
                    (λ id p s. update_project lib now user_id id change p s) s =
              rw (handle_project, update_project_handler, e) refl in
            subst (λ r. Step lib org_id user_id s r.1) (sym eq)
              (with_project-Step lib now org_id user_id identifier member
                (λ id p s. update_project lib now user_id id change p s) s u
                (λ id p. update_project-Step lib letters now org_id user_id id change p s u))
      ]
  handle_project-Step (delete_one identifier) s u =
      with_project-Step lib now org_id user_id identifier admin (delete_project now user_id) s u
        (λ id p. delete_project-Step lib letters now org_id user_id id p s)
  handle_project-Step (archive_one identifier) s u =
      with_project-Step lib now org_id user_id identifier member (archive_project now user_id) s u
        (λ id p. archive_project-Step lib letters now org_id user_id id p s)
  handle_project-Step (restore_one identifier) s u =
      with_project-Step lib now org_id user_id identifier member (restore_project now user_id) s u
        (λ id p. restore_project-Step lib letters now org_id user_id id p s)
  handle_project-Step (get_settings identifier) s u =
      shows identifier (ProjectRoutes.show_settings lib now org_id user_id) s u
  handle_project-Step (update_settings identifier settings) s u =
      with_project-Step lib now org_id user_id identifier member
        (λ id p s. update_project lib now user_id id (settings_change settings) p s) s u
        (λ id p.
          update_project-Step lib letters now org_id user_id id (settings_change settings) p s u)
  handle_project-Step (get_metadata identifier) s u =
      shows identifier (ProjectRoutes.show_metadata lib now org_id user_id) s u
  handle_project-Step (get_stats identifier) s u =
      shows identifier (ProjectRoutes.show_stats lib now org_id user_id) s u
  handle_project-Step (get_activity identifier limit) s u =
      guarded (is_limit limit) s
        (with_project lib now org_id user_id identifier viewer
          (reads lib now org_id user_id (show_activity lib now org_id user_id limit)) s)
        invalid (shows identifier (show_activity lib now org_id user_id limit) s u)

  -- What follows the look-up of a website in its project.
  with_website-Step :
      (project name : Text) (required : Role) (run : ℕ → Website → Store → Answer × Store)
      (s : Store)
      → Distinct s.projects
      → Distinct s.websites
      → ((id : ℕ) (w : Website)
          → HasRole org_id user_id required s
          → Dict.get s.websites id ≡ some w
          → w.organization_id ≡ some org_id
          → Step lib org_id user_id s (run id w s).1)
      → Step lib org_id user_id s
          (with_website lib now org_id user_id project name required run s).1
  with_website-Step project name required run s u v next =
      with_project-Step lib now org_id user_id project required
        (λ project_id p s. on_website lib now org_id user_id project_id name run s) s u
        (λ project_id p role g o.
          on_website-Step lib now org_id user_id project_id name run s v (λ id w. next id w role))

  shows_website :
      (project name : Text) (answer : ℕ → Website → Store → Answer) (s : Store)
      → Distinct s.projects
      → Distinct s.websites
      → Step lib org_id user_id s
          (with_website lib now org_id user_id project name viewer
            (WebsiteRoutes.reads lib now org_id user_id answer)
            s).1
  shows_website project name answer s u v =
      with_website-Step project name viewer (WebsiteRoutes.reads lib now org_id user_id answer) s u
        v (λ id w role g o. stays refl)

  handle_website-Step :
      (project : Text) (request : WebsiteRequest) (s : Store)
      → Distinct s.projects
      → Distinct s.websites
      → Step lib org_id user_id s (handle_website lib now org_id user_id project request s).1
  unfolding handle_website
  handle_website-Step project (WebsiteRequest.create_one body) s u v =
      elim (Option-cases (required_domain body)) [
        | inl e ↦ stays (rw (handle_website, create_website_handler, e) refl)
        | inr (domain, e) ↦
            let eq : handle_website lib now org_id user_id project (WebsiteRequest.create_one body)
                  s
                ≡ with_project lib now org_id user_id project member
                    (create_in lib now org_id user_id domain body) s =
              rw (handle_website, create_website_handler, e) refl in
            subst (λ r. Step lib org_id user_id s r.1) (sym eq)
              (with_project-Step lib now org_id user_id project member
                (create_in lib now org_id user_id domain body) s u
                (λ id p. create_in-Step lib now org_id user_id id p domain body s))
      ]
  handle_website-Step project (WebsiteRequest.list_all search status archived skip limit) s u v =
      guarded (is_limit limit) s
        (with_project lib now org_id user_id project viewer
          (list_websites lib now org_id user_id search status archived skip limit) s)
        invalid
        (with_project-Step lib now org_id user_id project viewer
          (list_websites lib now org_id user_id search status archived skip limit) s u
          (λ id p role g o. stays refl))
  handle_website-Step project (WebsiteRequest.get_one name) s u v =
      shows_website project name (WebsiteRoutes.show_website lib now org_id user_id) s u v
  handle_website-Step project (WebsiteRequest.update_one name body) s u v =
      guarded (lengths_fit body) s
        (with_website lib now org_id user_id project name member
          (update_row lib now org_id user_id body) s)
        invalid
        (with_website-Step project name member (update_row lib now org_id user_id body) s u v
          (λ id w. update_row-Step lib now org_id user_id id body w s))
  handle_website-Step project (WebsiteRequest.delete_one name) s u v =
      with_website-Step project name admin (delete_website now user_id) s u v
        (λ id w. delete_website-Step lib now org_id user_id id w s)
  handle_website-Step project (WebsiteRequest.archive_one name) s u v =
      with_website-Step project name member (archive_website now user_id) s u v
        (λ id w. archive_website-Step lib now org_id user_id id w s)
  handle_website-Step project (WebsiteRequest.restore_one name) s u v =
      with_website-Step project name member (restore_website now user_id) s u v
        (λ id w. restore_website-Step lib now org_id user_id id w s)
  handle_website-Step project (WebsiteRequest.get_settings name) s u v =
      shows_website project name (WebsiteRoutes.show_settings lib now org_id user_id) s u v
  handle_website-Step project (WebsiteRequest.update_settings name settings) s u v =
      with_website-Step project name member
        (λ id w s. update_website lib now user_id id (WebsiteRoutes.settings_change settings) w s) s
        u v
        (λ id w.
          update_website-Step lib now org_id user_id id (WebsiteRoutes.settings_change settings) w s
            refl)
  handle_website-Step project (WebsiteRequest.get_metadata name) s u v =
      shows_website project name (WebsiteRoutes.show_metadata lib now org_id user_id) s u v
  handle_website-Step project (WebsiteRequest.get_stats name) s u v =
      shows_website project name (WebsiteRoutes.show_stats lib now org_id user_id) s u v

  pub dispatch-Step :
      (target : Target) (s : Store)
      → Distinct s.projects
      → Distinct s.websites
      → Step lib org_id user_id s (dispatch lib now org_id user_id target s).1
  unfolding dispatch
  dispatch-Step (on_projects request) s u v = handle_project-Step request s u
  dispatch-Step (on_websites project request) s u v = handle_website-Step project request s u v
