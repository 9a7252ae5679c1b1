-- ===== src/Workspaces/Validity/Tables.antt =====
-- Each change of the projects keeps the tables valid.
use seo_agent_rct.Prelude.{
  ℕ, suc, ◌<◌, ◌≡◌, ◌≢◌, ◌⊎◌, inl, inr, sym, ◌∙◌, ap, subst, true, false, some, arith, nat_key,
  ℕ_discrete,
}
use seo_agent_rct.Dict
use seo_agent_rct.Dict.{Dict}
use seo_agent_rct.Dict.Laws.{Distinct-put, Distinct-remove, get-put_ne, get-put_self, get-remove_ne}
use seo_agent_rct.Dict.Everywhere.{Everywhere-put, Everywhere-remove}
use seo_agent_rct.Dict.Rows.{keep_rows, get-keep_rows, Distinct-keep_rows}
use seo_agent_rct.Dict.Unique.{Unique-sub, Unique-put, get-remove_sub}
use seo_agent_rct.Workspaces.Slugs.{TextLib}
use seo_agent_rct.Workspaces.Slugs.Shape.{IsSlug}
use seo_agent_rct.Workspaces.Rows.{Project, Website, Store}
use seo_agent_rct.Workspaces.Projects.{has_slug, is_outside}
use seo_agent_rct.Workspaces.Validity.{SameSlug, SameDomain, HasHome, Valid, IsValid}

SameSlug-sym : (p q : Project) → SameSlug p q → SameSlug q p
SameSlug-sym p q (o, e) = (sym o, sym e)

-- A free slug is the slug of no project.
FreeSlug-SameSlug :
    (org_id : ℕ) (p q : Project)
    → p.organization_id ≡ org_id
    → has_slug org_id p.slug 0 q ≡ false
    → ¬ SameSlug p q
FreeSlug-SameSlug org_id p q o f (e, t) = ground arith

-- A home stays where the project keeps its organization.
HasHome-put :
    (projects : Dict ℕ Project) (k : ℕ) (p' : Project) (w : Website)
    → ((p : Project) → Dict.get projects k ≡ some p → p'.organization_id ≡ p.organization_id)
    → HasHome projects w
    → HasHome (Dict.put projects k p') w
HasHome-put projects k p' w same h pid e =
    let (host, p, g, o) = h pid e in
    elim (ℕ_discrete k pid) [
      | no other ↦ (host, p, get-put_ne projects k pid p' other ∙ g, o)
      | yes here ↦ (
        host,
        p',
        subst (λ j. Dict.get (Dict.put projects k p') j ≡ some p') here
            (get-put_self projects k p'),
        o ∙ ap some (sym (same p (ap (Dict.get projects) here ∙ g))),
      )
    ]

HasHome-remove :
    (projects : Dict ℕ Project) (id k : ℕ) (w : Website)
    → is_outside id k w ≡ true
    → HasHome projects w
    → HasHome (Dict.remove projects id) w
HasHome-remove projects id k w out h pid e =
    let (host, p, g, o) = h pid e in
    let other : id ≢ pid = λ same. ground arith in
    (host, p, get-remove_ne projects id pid other ∙ g, o)

module _ (lib : TextLib) where
  -- Valid tables under other names.
  pub Valid-same :
      (s s' : Store) (ps : Dict ℕ Project) (np : ℕ) (ws : Dict ℕ Website) (nw : ℕ)
      → s'.projects ≡ ps
      → s'.next_project ≡ np
      → s'.websites ≡ ws
      → s'.next_website ≡ nw
      → Valid lib ps np ws nw
      → IsValid lib s'
  Valid-same s s' ps np ws nw a b c d v = rw (a, b, c, d) v

  -- A new project.
  pub Valid-adds_project :
      (ps : Dict ℕ Project) (np : ℕ) (ws : Dict ℕ Website) (nw : ℕ) (org_id : ℕ) (p : Project)
      → Valid lib ps np ws nw
      → p.organization_id ≡ org_id
      → IsSlug lib p.slug
      → ((k : ℕ) (q : Project) → Dict.get ps k ≡ some q → has_slug org_id p.slug k q ≡ false)
      → Valid lib (Dict.put ps np p) (suc np) ws nw
  Valid-adds_project ps np ws nw org_id p v o slug free = record {
    projects_distinct = Distinct-put ps np p v.projects_distinct;
    websites_distinct = v.websites_distinct;
    projects_below =
        Everywhere-put (λ k q. k < suc np) ps np p
          (λ k q g. (let b = v.projects_below k q g in omega (arith, b))) (omega arith);
    websites_below = v.websites_below;
    slugs = Everywhere-put (λ k q. IsSlug lib q.slug) ps np p v.slugs slug;
    one_slug =
        Unique-put SameSlug ps np p SameSlug-sym
          (λ k q n g. FreeSlug-SameSlug org_id p q o (free k q g)) v.one_slug;
    one_domain = v.one_domain;
    homes = λ k w g.
        HasHome-put ps np p w (λ q h. let low = v.projects_below np q h in ground arith)
          (v.homes k w g);
  }

  -- A changed project.
  pub Valid-sets_project :
      (ps : Dict ℕ Project) (np : ℕ) (ws : Dict ℕ Website) (nw : ℕ) (org_id id : ℕ) (p p' : Project)
      → Valid lib ps np ws nw
      → Dict.get ps id ≡ some p
      → p.organization_id ≡ org_id
      → p'.organization_id ≡ org_id
      → (p'.slug ≡ p.slug)
        ⊎ IsSlug lib p'.slug
          × ((k : ℕ) (q : Project) → Dict.get ps k ≡ some q → has_slug org_id p'.slug k q ≡ false)
      → Valid lib (Dict.put ps id p') np ws nw
  Valid-sets_project ps np ws nw org_id id p p' v g o o' slug = record {
    projects_distinct = Distinct-put ps id p' v.projects_distinct;
    websites_distinct = v.websites_distinct;
    projects_below =
        Everywhere-put (λ k q. k < np) ps id p' v.projects_below (v.projects_below id p g);
    websites_below = v.websites_below;
    slugs =
        Everywhere-put (λ k q. IsSlug lib q.slug) ps id p' v.slugs
          (elim slug [
            | inl same ↦ subst (IsSlug lib) (sym same) (v.slugs id p g)
            | inr (proper, free) ↦ proper
          ]);
    one_slug =
        Unique-put SameSlug ps id p' SameSlug-sym
          (elim slug [
            | inl same ↦ λ k q n h alike.
                n (v.one_slug id k p q g h (o ∙ sym o' ∙ alike.0, sym same ∙ alike.1))
            | inr (proper, free) ↦ λ k q n h. FreeSlug-SameSlug org_id p' q o' (free k q h)
          ])
          v.one_slug;
    one_domain = v.one_domain;
    homes = λ k w h.
        HasHome-put ps id p' w
          (λ q f. let same : p ≡ q = ground arith in o' ∙ sym o ∙ ap (λ z. z.organization_id) same)
          (v.homes k w h);
  }

  -- A project is removed with its websites.
  pub Valid-removes_project :
      (ps : Dict ℕ Project) (np : ℕ) (ws : Dict ℕ Website) (nw : ℕ) (id : ℕ)
      → Valid lib ps np ws nw
      → Valid lib (Dict.remove ps id) np (keep_rows (is_outside id) ws) nw
  Valid-removes_project ps np ws nw id v =
      let sub = λ (k : ℕ) (w : Website) (g : Dict.get (keep_rows (is_outside id) ws) k ≡ some w).
        get-keep_rows (is_outside id) ws k w v.websites_distinct g in
      record {
        projects_distinct = Distinct-remove ps id v.projects_distinct;
        websites_distinct = Distinct-keep_rows (is_outside id) ws v.websites_distinct;
        projects_below = Everywhere-remove (λ k q. k < np) ps id v.projects_below;
        websites_below = λ k w g. v.websites_below k w (sub k w g).0;
        slugs = Everywhere-remove (λ k q. IsSlug lib q.slug) ps id v.slugs;
        one_slug =
            Unique-sub SameSlug ps (Dict.remove ps id) (get-remove_sub SameSlug ps id) v.one_slug;
        one_domain =
            Unique-sub SameDomain ws (keep_rows (is_outside id) ws) (λ k w g. (sub k w g).0)
              v.one_domain;
        homes = λ k w g. HasHome-remove ps id k w (sub k w g).1 (v.homes k w (sub k w g).0);
      }
