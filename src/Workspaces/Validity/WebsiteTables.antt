-- ===== src/Workspaces/Validity/WebsiteTables.antt =====
-- Each change of the websites keeps the tables valid.
use seo_agent_rct.Prelude.{
  ℕ, suc, ◌<◌, ◌≡◌, ◌≢◌, ◌⊎◌, inl, inr, refl, sym, ◌∙◌, ap, true, false, Option, none, some, arith,
  nat_key,
}
use seo_agent_rct.Dict
use seo_agent_rct.Dict.{Dict}
use seo_agent_rct.Dict.Laws.{Distinct-put, Distinct-remove}
use seo_agent_rct.Dict.Everywhere.{Everywhere-put, Everywhere-remove}
use seo_agent_rct.Dict.Unique.{Unique-sub, Unique-put, get-remove_sub}
use seo_agent_rct.Workspaces.Slugs.{TextLib}
use seo_agent_rct.Workspaces.Domains.{is_host}
use seo_agent_rct.Workspaces.Rows.{Project, Website}
use seo_agent_rct.Workspaces.Websites.{has_domain}
use seo_agent_rct.Workspaces.Validity.{SameDomain, HasHome, Valid}

SameDomain-sym : (w v : Website) → SameDomain w v → SameDomain v w
SameDomain-sym w v (org_id, o, o', e) = (org_id, o', o, sym e)

FreeDomain-SameDomain :
    (org_id id k : ℕ) (exclude : Option ℕ) (w v : Website)
    → w.organization_id ≡ some org_id
    → (exclude ≡ none) ⊎ (exclude ≡ some id)
    → id ≢ k
    → has_domain org_id w.normalized_domain exclude k v ≡ false
    → ¬ SameDomain w v
FreeDomain-SameDomain org_id id k none w v o x n f (org, a, b, t) = ground arith
FreeDomain-SameDomain org_id id k (some j) w v o x n f (org, a, b, t) = ground arith

module _ (lib : TextLib) where
  -- A new website of a project.
  pub Valid-adds_website :
      (ps : Dict ℕ Project) (np : ℕ) (ws : Dict ℕ Website) (nw : ℕ) (org_id project_id : ℕ)
      (p : Project) (w : Website)
      → Valid lib ps np ws nw
      → Dict.get ps project_id ≡ some p
      → p.organization_id ≡ org_id
      → w.project_id ≡ some project_id
      → w.organization_id ≡ some org_id
      → is_host w.normalized_domain ≡ true
      → ((k : ℕ) (u : Website)
          → Dict.get ws k ≡ some u
          → has_domain org_id w.normalized_domain none k u ≡ false)
      → Valid lib ps np (Dict.put ws nw w) (suc nw)
  Valid-adds_website ps np ws nw org_id project_id p w v g o home own host free = record {
    projects_distinct = v.projects_distinct;
    websites_distinct = Distinct-put ws nw w v.websites_distinct;
    projects_below = v.projects_below;
    websites_below =
        Everywhere-put (λ k q. k < suc nw) ws nw w
          (λ k q h. (let b = v.websites_below k q h in omega (arith, b))) (omega arith);
    slugs = v.slugs;
    one_slug = v.one_slug;
    one_domain =
        Unique-put SameDomain ws nw w SameDomain-sym
          (λ k u n h. FreeDomain-SameDomain org_id nw k none w u own (inl refl) n (free k u h))
          v.one_domain;
    homes =
        Everywhere-put (λ k u. HasHome ps u) ws nw w v.homes
          (λ pid e.
            let same : project_id ≡ pid = ground arith in
            (host, p, ap (Dict.get ps) (sym same) ∙ g, own ∙ ap some (sym o)));
  }

  -- A changed website.
  pub Valid-sets_website :
      (ps : Dict ℕ Project) (np : ℕ) (ws : Dict ℕ Website) (nw : ℕ) (org_id id : ℕ) (w w' : Website)
      → Valid lib ps np ws nw
      → Dict.get ws id ≡ some w
      → w.organization_id ≡ some org_id
      → w'.project_id ≡ w.project_id
      → w'.organization_id ≡ w.organization_id
      → (w'.normalized_domain ≡ w.normalized_domain)
        ⊎ (is_host w'.normalized_domain ≡ true)
          × ((k : ℕ) (u : Website)
              → Dict.get ws k ≡ some u
              → has_domain org_id w'.normalized_domain (some id) k u ≡ false)
      → Valid lib ps np (Dict.put ws id w') nw
  Valid-sets_website ps np ws nw org_id id w w' v g o project same_org domain = record {
    projects_distinct = v.projects_distinct;
    websites_distinct = Distinct-put ws id w' v.websites_distinct;
    projects_below = v.projects_below;
    websites_below =
        Everywhere-put (λ k q. k < nw) ws id w' v.websites_below (v.websites_below id w g);
    slugs = v.slugs;
    one_slug = v.one_slug;
    one_domain =
        Unique-put SameDomain ws id w' SameDomain-sym
          (elim domain [
            | inl same ↦ λ k u n h alike. n (
                v.one_domain id k w u g h
                  (alike.0, sym same_org ∙ alike.1, alike.2, sym same ∙ alike.3))
            | inr (host, free) ↦ λ k u n h.
                FreeDomain-SameDomain org_id id k (some id) w' u (same_org ∙ o) (inr refl) n
                  (free k u h)
          ])
          v.one_domain;
    homes =
        Everywhere-put (λ k u. HasHome ps u) ws id w' v.homes
          (λ pid e.
            let (host, p, f, own) = v.homes id w g pid (sym project ∙ e) in
            (
              elim domain [ inl same ↦ ap is_host same ∙ host | inr (host', free) ↦ host' ],
              p,
              f,
              same_org ∙ own,
            ));
  }

  -- A website is removed.
  pub Valid-removes_website :
      (ps : Dict ℕ Project) (np : ℕ) (ws : Dict ℕ Website) (nw : ℕ) (id : ℕ)
      → Valid lib ps np ws nw
      → Valid lib ps np (Dict.remove ws id) nw
  Valid-removes_website ps np ws nw id v = record {
    projects_distinct = v.projects_distinct;
    websites_distinct = Distinct-remove ws id v.websites_distinct;
    projects_below = v.projects_below;
    websites_below = Everywhere-remove (λ k q. k < nw) ws id v.websites_below;
    slugs = v.slugs;
    one_slug = v.one_slug;
    one_domain =
        Unique-sub SameDomain ws (Dict.remove ws id) (get-remove_sub SameDomain ws id) v.one_domain;
    homes = Everywhere-remove (λ k u. HasHome ps u) ws id v.homes;
  }
