-- ===== src/Crawls/Routes/Guards.antt =====
-- What the checks before a handler let through.
use seo_agent_rct.Prelude.{
  ℕ, ◌≡◌, refl, Option, none, some, inl, inr, Bool-cases, Option-cases, nat_key,
}
use seo_agent_rct.Dict
use seo_agent_rct.Orgs.Rows.{Role, check_role_permission}
use seo_agent_rct.Workspaces.Websites.{is_id}
use seo_agent_rct.Workspaces.Steps.{HasRole}
use seo_agent_rct.Crawls.Rows.{CrawlJob}
use seo_agent_rct.Crawls.Tables.{CrawlStore}
use seo_agent_rct.Crawls.Stats.{CrawlLib}
use seo_agent_rct.Crawls.Routes.{with_role_in, in_project, with_website_in, with_crawl, Handler}
use seo_agent_rct.Crawls.Routes.Changes.{Allowed}

module _ {F : Type 0} (lib : CrawlLib F) (now user_id : ℕ) where
  module _ (P : CrawlStore → Type 0) where
    -- What holds before and after the rest of a handler holds after the handler.
    with_role_in-elim :
        (o : Option ℕ) (required : Role) (run : Handler lib now user_id) (s : CrawlStore)
        → P s
        → ((org_id : ℕ) → o ≡ some org_id → HasRole org_id user_id required s.base → P (run s).1)
        → P (with_role_in lib now user_id o required run s).1
    with_role_in-elim none required run s h k = h
    with_role_in-elim (some org_id) required run s h k =
        elim (Option-cases (s.base.memberships org_id user_id)) [
          | inl e ↦ rw (with_role_in, e) h
          | inr (role, e) ↦ elim (Bool-cases (check_role_permission role required)) [
            | inl t ↦ rw (with_role_in, e, t) (k org_id refl (role, e, t))
            | inr f ↦ rw (with_role_in, e, f) h
          ]
        ]

    in_project-elim :
        (project_id : ℕ) (run : Handler lib now user_id) (s : CrawlStore)
        → P s
        → P (run s).1
        → P (in_project lib now user_id project_id run s).1
    in_project-elim project_id run s h k =
        elim (Option-cases (Dict.get s.base.projects project_id)) [
          | inl e ↦ rw (in_project, e) h
          | inr (p, e) ↦ rw (in_project, e) k
        ]

    pub with_website_in-elim :
        (project_id website_id : ℕ) (required : Role) (run : Handler lib now user_id)
        (s : CrawlStore)
        → P s
        → (Allowed user_id website_id required s → P (run s).1)
        → P (with_website_in lib now user_id project_id website_id required run s).1
    with_website_in-elim project_id website_id required run s h k =
        elim (Option-cases (Dict.get s.base.websites website_id)) [
          | inl e ↦ rw (with_website_in, e) h
          | inr (w, e) ↦ elim (Bool-cases (is_id w.project_id project_id)) [
            | inr f ↦ rw (with_website_in, e, f) h
            | inl t ↦
                rw (with_website_in, e, t)
                  (with_role_in-elim w.organization_id required
                    (in_project lib now user_id project_id run) s h
                    (λ org_id own role. in_project-elim project_id run s h (
                      k (record {
                        website = w;
                        org_id = org_id;
                        row = e;
                        own = own;
                        role = role;
                      }))))
          ]
        ]

    pub with_crawl-elim :
        (id : ℕ) (required : Role) (run : CrawlJob → Handler lib now user_id) (s : CrawlStore)
        → P s
        → ((job : CrawlJob)
            → Dict.get s.crawls id ≡ some job
            → Allowed user_id job.website_id required s
            → P (run job s).1)
        → P (with_crawl lib now user_id id required run s).1
    with_crawl-elim id required run s h k = elim (Option-cases (Dict.get s.crawls id)) [
      | inl e ↦ rw (with_crawl, e) h
      | inr (job, e) ↦ elim (Option-cases (Dict.get s.base.websites job.website_id)) [
        | inl f ↦ rw (with_crawl, e, f) h
        | inr (w, f) ↦
            rw (with_crawl, e, f)
              (with_role_in-elim w.organization_id required (run job) s h (λ org_id own role.
                k job e (record { website = w; org_id = org_id; row = f; own = own; role = role })))
      ]
    ]
