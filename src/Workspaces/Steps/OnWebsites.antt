-- ===== src/Workspaces/Steps/OnWebsites.antt =====
-- The functions on websites take steps.
use seo_agent_rct.Prelude.{
  ℕ, ◌≡◌, ◌⊎◌, inl, inr, refl, sym, subst, true, false, Option, none, some, arith, nat_key,
  Bool-cases, Option-cases,
}
use seo_agent_rct.Dict
use seo_agent_rct.Dict.{Dict}
use seo_agent_rct.Dict.Laws.{Distinct}
use seo_agent_rct.Dict.Rows.{find_row-none, find_row-get}
use seo_agent_rct.Text.{Text, equals}
use seo_agent_rct.Orgs.Rows.{admin, member}
use seo_agent_rct.Workspaces.Slugs.{TextLib, is_digits}
use seo_agent_rct.Workspaces.Domains.{is_host, normalize_domain, is_valid_domain}
use seo_agent_rct.Workspaces.Rows.{
  Project, Website, Store, Answer, log_audit_event, create_org_audit_event,
}
use seo_agent_rct.Workspaces.Websites.{
  WebsiteBody, is_id, org_of, has_domain, get_org_website, archive_website, restore_website,
  delete_website, new_website, create_website, domain_change, with_domain, changed_website,
  update_website, is_named, get_project_website,
}
use seo_agent_rct.Workspaces.WebsiteRoutes.{is_refused, on_website, create_in, update_row}
use seo_agent_rct.Workspaces.Steps.{
  HasRole, FreeDomain, Step, stays, adds_website, sets_website, removes_website,
}

module _ (lib : TextLib) where
  get_org_website-FreeDomain :
      (org_id : ℕ) (norm : Text) (exclude : Option ℕ) (s : Store)
      → get_org_website org_id norm exclude s ≡ none
      → FreeDomain org_id norm exclude s
  unfolding get_org_website
  get_org_website-FreeDomain org_id norm exclude s e k v g =
      find_row-none (has_domain org_id norm exclude) s.websites k v e g

  valid-is_host :
      (domain : Text)
      → is_valid_domain lib domain ≡ true
      → is_host (normalize_domain lib domain) ≡ true
  unfolding is_valid_domain
  valid-is_host domain e = ground arith

  create_website-Step :
      (now org_id user_id project_id : ℕ) (p : Project) (domain : Text) (body : WebsiteBody)
      (s : Store)
      → HasRole org_id user_id member s
      → Dict.get s.projects project_id ≡ some p
      → p.organization_id ≡ org_id
      → is_valid_domain lib domain ≡ true
      → Step lib org_id user_id s (create_website lib now project_id org_id user_id domain body s).1
  unfolding create_website log_audit_event create_org_audit_event
  create_website-Step now org_id user_id project_id p domain body s role g o valid =
      let norm = normalize_domain lib domain in
      elim (Option-cases (get_org_website org_id norm none s)) [
        | inr (existing, e) ↦ stays (rw (create_website, e) refl)
        | inl e ↦
            adds_website role project_id p (new_website lib now project_id org_id user_id norm body)
              g o refl refl (valid-is_host domain valid)
              (get_org_website-FreeDomain org_id norm none s e) (rw (create_website, e) refl)
              (rw (create_website, e) refl)
              (rw (create_website, e) refl, rw (create_website, e) refl)
              (rw (create_website, e) refl)
      ]

  pub create_in-Step :
      (now org_id user_id project_id : ℕ) (p : Project) (domain : Text) (body : WebsiteBody)
      (s : Store)
      → HasRole org_id user_id member s
      → Dict.get s.projects project_id ≡ some p
      → p.organization_id ≡ org_id
      → Step lib org_id user_id s (create_in lib now org_id user_id domain body project_id p s).1
  unfolding create_in
  create_in-Step now org_id user_id project_id p domain body s role g o =
      elim (Bool-cases (is_valid_domain lib domain)) [
        | inr f ↦ stays (rw (create_in, f) refl)
        | inl t ↦
            let eq : create_in lib now org_id user_id domain body project_id p s
                ≡ create_website lib now project_id org_id user_id domain body s =
              rw (create_in, t) refl in
            subst (λ r. Step lib org_id user_id s r.1) (sym eq)
              (create_website-Step now org_id user_id project_id p domain body s role g o t)
      ]

  pub archive_website-Step :
      (now org_id user_id id : ℕ) (w : Website) (s : Store)
      → HasRole org_id user_id member s
      → Dict.get s.websites id ≡ some w
      → w.organization_id ≡ some org_id
      → Step lib org_id user_id s (archive_website now user_id id w s).1
  unfolding archive_website log_audit_event create_org_audit_event
  archive_website-Step now org_id user_id id w s role g o =
      sets_website role id w _ g o refl refl (inl refl) refl refl (refl, refl) refl

  pub restore_website-Step :
      (now org_id user_id id : ℕ) (w : Website) (s : Store)
      → HasRole org_id user_id member s
      → Dict.get s.websites id ≡ some w
      → w.organization_id ≡ some org_id
      → Step lib org_id user_id s (restore_website now user_id id w s).1
  unfolding restore_website log_audit_event create_org_audit_event
  restore_website-Step now org_id user_id id w s role g o =
      sets_website role id w _ g o refl refl (inl refl) refl refl (refl, refl) refl

  pub delete_website-Step :
      (now org_id user_id id : ℕ) (w : Website) (s : Store)
      → HasRole org_id user_id admin s
      → Dict.get s.websites id ≡ some w
      → w.organization_id ≡ some org_id
      → Step lib org_id user_id s (delete_website now user_id id w s).1
  unfolding delete_website log_audit_event
  delete_website-Step now org_id user_id id w s role g o =
      removes_website role id w g o refl refl (refl, refl) refl

  -- What a change of the domain keeps, and what it asks of the new one.
  record Renamed (org_id id : ℕ) (w w' : Website) (s : Store) : Type 0 where
    same_project : w'.project_id ≡ w.project_id
    same_org : w'.organization_id ≡ w.organization_id
    free :
        (w'.normalized_domain ≡ w.normalized_domain)
        ⊎ (is_host w'.normalized_domain ≡ true) × FreeDomain org_id w'.normalized_domain (some id) s

  with_domain-Renamed :
      (org_id id : ℕ) (domain : Option Text) (w w' : Website) (s : Store)
      → w.organization_id ≡ some org_id
      → is_refused lib domain ≡ false
      → with_domain lib id (domain_change lib domain w) w s ≡ some w'
      → Renamed org_id id w w' s
  unfolding with_domain
  with_domain-Renamed org_id id none w w' s o v e =
      let same : w ≡ w' = ground arith in
      subst (λ z. Renamed org_id id w z s) same
        (record { same_project = refl; same_org = refl; free = inl refl })
  with_domain-Renamed org_id id (some domain) w w' s o v e =
      elim (Bool-cases (equals domain w.domain)) [
        | inl t ↦
            let same : w ≡ w' = ground arith in
            subst (λ z. Renamed org_id id w z s) same
              (record { same_project = refl; same_org = refl; free = inl refl })
        | inr f ↦
            elim (Option-cases
              (get_org_website (org_of w) (normalize_domain lib domain) (some id) s)) [
                | inr (x, n) ↦ ground arith
                | inl n ↦
                    let home : org_of w ≡ org_id = ground arith in
                    let same : record w {
                      domain = domain;
                      normalized_domain = normalize_domain lib domain;
                    }
                        ≡ w' =
                      ground arith in
                    subst (λ z. Renamed org_id id w z s) same
                      (record {
                        same_project = refl;
                        same_org = refl;
                        free = inr (
                          valid-is_host domain (ground arith),
                          subst (λ k. FreeDomain k (normalize_domain lib domain) (some id) s) home
                              (get_org_website-FreeDomain (org_of w) (normalize_domain lib domain)
                                (some id) s n),
                        );
                      })
              ]
      ]

  pub update_website-Step :
      (now org_id user_id id : ℕ) (body : WebsiteBody) (w : Website) (s : Store)
      → is_refused lib body.domain ≡ false
      → HasRole org_id user_id member s
      → Dict.get s.websites id ≡ some w
      → w.organization_id ≡ some org_id
      → Step lib org_id user_id s (update_website lib now user_id id body w s).1
  unfolding update_website log_audit_event create_org_audit_event
  update_website-Step now org_id user_id id body w s valid role g o =
      elim (Option-cases (with_domain lib id (domain_change lib body.domain w) w s)) [
        | inl e ↦ stays (rw (update_website, e) refl)
        | inr (w', e) ↦
            let r = with_domain-Renamed org_id id body.domain w w' s o valid e in
            sets_website role id w (changed_website lib now body w') g o r.same_project r.same_org
              r.free (rw (update_website, e) refl) (rw (update_website, e) refl)
              (rw (update_website, e) refl, rw (update_website, e) refl)
              (rw (update_website, e) refl)
      ]

  pub update_row-Step :
      (now org_id user_id id : ℕ) (body : WebsiteBody) (w : Website) (s : Store)
      → HasRole org_id user_id member s
      → Dict.get s.websites id ≡ some w
      → w.organization_id ≡ some org_id
      → Step lib org_id user_id s (update_row lib now org_id user_id body id w s).1
  unfolding update_row
  update_row-Step now org_id user_id id body w s role g o =
      elim (Bool-cases (is_refused lib body.domain)) [
        | inl t ↦ stays (rw (update_row, t) refl)
        | inr f ↦
            let eq : update_row lib now org_id user_id body id w s
                ≡ update_website lib now user_id id body w s =
              rw (update_row, f) refl in
            subst (λ r. Step lib org_id user_id s r.1) (sym eq)
              (update_website-Step now org_id user_id id body w s f role g o)
      ]

  -- A website that is found stands in its table.
  get_project_website-get :
      (project_id : ℕ) (name : Text) (s : Store) (id : ℕ) (w : Website)
      → Distinct s.websites
      → get_project_website lib project_id name s ≡ some (some (id, w))
      → Dict.get s.websites id ≡ some w
  unfolding get_project_website
  get_project_website-get project_id name s id w u e = elim (Bool-cases (is_digits lib name)) [
    | inr f ↦ find_row-get (is_named lib project_id name none) s.websites id w u (ground arith)
    | inl d ↦ elim (Option-cases (lib.int name)) [
      | inl n ↦ ground arith
      | inr (number, n) ↦
          find_row-get (is_named lib project_id name (some number)) s.websites id w u (ground arith)
    ]
  ]

  is_id_same : (column : Option ℕ) (id : ℕ) → is_id column id ≡ true → column ≡ some id
  is_id_same none id e = ground arith
  is_id_same (some k) id e = ground arith

  -- What follows the look-up of the website.
  pub on_website-Step :
      (now org_id user_id project_id : ℕ) (name : Text) (run : ℕ → Website → Store → Answer × Store)
      (s : Store)
      → Distinct s.websites
      → ((id : ℕ) (w : Website)
          → Dict.get s.websites id ≡ some w
          → w.organization_id ≡ some org_id
          → Step lib org_id user_id s (run id w s).1)
      → Step lib org_id user_id s (on_website lib now org_id user_id project_id name run s).1
  unfolding on_website
  on_website-Step now org_id user_id project_id name run s u next =
      elim (Option-cases (get_project_website lib project_id name s)) [
        | inl e ↦ stays (rw (on_website, e) refl)
        | inr (none, e) ↦ stays (rw (on_website, e) refl)
        | inr (some (id, w), e) ↦ elim (Bool-cases (is_id w.organization_id org_id)) [
          | inr f ↦ stays (rw (on_website, e, f) refl)
          | inl t ↦
              let eq : on_website lib now org_id user_id project_id name run s ≡ run id w s =
                rw (on_website, e, t) refl in
              subst (λ r. Step lib org_id user_id s r.1) (sym eq)
                (next id w (get_project_website-get project_id name s id w u e)
                  (is_id_same w.organization_id org_id t))
        ]
      ]
