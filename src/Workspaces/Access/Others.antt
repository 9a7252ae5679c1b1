-- ===== src/Workspaces/Access/Others.antt =====
-- A step leaves the rows of an organization alone in which the user is no member.
use seo_agent_rct.Prelude.{
  ℕ, ◌≡◌, ◌≢◌, ◌↔◌, inl, inr, refl, sym, ◌∙◌, ap, subst, true, some, arith, nat_key, ℕ_discrete,
  Option-cases,
}
use seo_agent_rct.Dict
use seo_agent_rct.Dict.{Dict}
use seo_agent_rct.Dict.Laws.{get-put_ne, get-put, get-remove_ne, get-remove}
use seo_agent_rct.Dict.Rows.{keep_rows, get-keep_rows, get-keep_rows_fits}
use seo_agent_rct.Orgs.Rows.{Role, check_role_permission, member, admin}
use seo_agent_rct.Workspaces.Slugs.{TextLib}
use seo_agent_rct.Workspaces.Rows.{Project, Website, Store}
use seo_agent_rct.Workspaces.Projects.{is_outside}
use seo_agent_rct.Workspaces.Steps.{
  HasRole, Step, stays, adds_project, sets_project, removes_project, adds_website, sets_website,
  removes_website,
}
use seo_agent_rct.Workspaces.Validity.{IsValid}

-- The rows of an organization are the same before and after.
pub record Untouched (org_id : ℕ) (s s' : Store) : Type 0 where
  pub same_projects :
      (k : ℕ) (p : Project)
      → p.organization_id ≡ org_id
      → (Dict.get s.projects k ≡ some p) ↔ (Dict.get s'.projects k ≡ some p)
  pub same_websites :
      (k : ℕ) (w : Website)
      → w.organization_id ≡ some org_id
      → (Dict.get s.websites k ≡ some w) ↔ (Dict.get s'.websites k ≡ some w)

pub Untouched-refl : (org_id : ℕ) (s : Store) → Untouched org_id s s
Untouched-refl org_id s = record {
  same_projects = λ k p o. (λ g. g, λ g. g);
  same_websites = λ k w o. (λ g. g, λ g. g);
}

pub Untouched-trans :
    (org_id : ℕ) (s t u : Store)
    → Untouched org_id s t
    → Untouched org_id t u
    → Untouched org_id s u
Untouched-trans org_id s t u a b = record {
  same_projects = λ k p o. (
    λ g. (b.same_projects k p o).0 ((a.same_projects k p o).0 g),
    λ g. (a.same_projects k p o).1 ((b.same_projects k p o).1 g),
  );
  same_websites = λ k w o. (
    λ g. (b.same_websites k w o).0 ((a.same_websites k w o).0 g),
    λ g. (a.same_websites k w o).1 ((b.same_websites k w o).1 g),
  );
}

-- A role that permits what an administrator may do permits what a member may.
admin-member :
    (role : Role)
    → check_role_permission role admin ≡ true
    → check_role_permission role member ≡ true
unfolding check_role_permission
admin-member role e = ground arith

module _ {V : Type 0} (P : V → Type 0) where
  -- Rows with a property are the same after a write of a row without it over none with it.
  pub put_elsewhere :
      (d : Dict ℕ V) (id : ℕ) (x : V)
      → ¬ P x
      → ((v : V) → Dict.get d id ≡ some v → ¬ P v)
      → (k : ℕ) (v : V) → P v
      → (Dict.get d k ≡ some v) ↔ (Dict.get (Dict.put d id x) k ≡ some v)
  put_elsewhere d id x new old k v o = elim (ℕ_discrete id k) [
    | no other ↦ (λ g. get-put_ne d id k x other ∙ g, λ g. sym (get-put_ne d id k x other) ∙ g)
    | yes here ↦ (
      λ g. elim (old v (ap (Dict.get d) here ∙ g) o) [ ],
      λ g.
          let same : x ≡ v = ground (arith, get-put d id k x) in
          elim (new (subst P (sym same) o)) [ ],
    )
  ]

  remove_elsewhere :
      (d : Dict ℕ V) (id : ℕ)
      → ((v : V) → Dict.get d id ≡ some v → ¬ P v)
      → (k : ℕ) (v : V) → P v
      → (Dict.get d k ≡ some v) ↔ (Dict.get (Dict.remove d id) k ≡ some v)
  remove_elsewhere d id old k v o = elim (ℕ_discrete id k) [
    | no other ↦ (λ g. get-remove_ne d id k other ∙ g, λ g. sym (get-remove_ne d id k other) ∙ g)
    | yes here ↦
        (λ g. elim (old v (ap (Dict.get d) here ∙ g) o) [ ], λ g. ground (arith, get-remove d id k))
  ]

-- A website of another organization is outside a project.
outside :
    (lib : TextLib) (s : Store) (org_id org id : ℕ) (p : Project)
    → IsValid lib s
    → Dict.get s.projects id ≡ some p
    → p.organization_id ≡ org_id
    → org_id ≢ org
    → (k : ℕ) (w : Website) → w.organization_id ≡ some org
    → Dict.get s.websites k ≡ some w
    → is_outside id k w ≡ true
outside lib s org_id org id p v g o differ k w own h = elim (Option-cases w.project_id) [
  | inl e ↦ rw (is_outside, e) refl
  | inr (q, e) ↦ elim (ℕ_discrete q id) [
    | no n ↦ rw (is_outside, e) (ground arith)
    | yes same ↦
        let (host, p', f, own') = v.homes k w h q e in
        let row : p' ≡ p = ground arith in
        let org_same : some p'.organization_id ≡ some org = sym own' ∙ own in
        elim (differ (sym o ∙ ap (λ z. z.organization_id) (sym row) ∙ ground arith)) [ ]
  ]
]

-- Rows that are kept, but for those of a removed project.
keep_elsewhere :
    (lib : TextLib) (s : Store) (org_id org id : ℕ) (p : Project)
    → IsValid lib s
    → Dict.get s.projects id ≡ some p
    → p.organization_id ≡ org_id
    → org_id ≢ org
    → (k : ℕ) (w : Website) → w.organization_id ≡ some org
    → (Dict.get s.websites k ≡ some w)
      ↔ (Dict.get (keep_rows (is_outside id) s.websites) k ≡ some w)
keep_elsewhere lib s org_id org id p v g o differ k w own = (
  λ h.
      get-keep_rows_fits (is_outside id) s.websites k w h
        (outside lib s org_id org id p v g o differ k w own h),
  λ h. (get-keep_rows (is_outside id) s.websites k w v.websites_distinct h).0,
)

module _ (lib : TextLib) (org_id user_id : ℕ) where
  -- A step of a user in one organization leaves the rows of another alone.
  Step-Untouched_other :
      (s s' : Store) (org : ℕ)
      → IsValid lib s
      → org_id ≢ org
      → Step lib org_id user_id s s'
      → Untouched org s s'
  Step-Untouched_other s s' org v differ (stays e) =
      subst (Untouched org s) (sym e) (Untouched-refl org s)
  Step-Untouched_other s s' org v differ (adds_project r p o slug free a b (c, d) m) = record {
    same_projects = rw a (
        put_elsewhere (λ q. q.organization_id ≡ org) s.projects s.next_project p
          (λ e. differ (sym o ∙ e))
          (λ q g. let low = v.projects_below s.next_project q g in ground arith));
    same_websites = rw c (Untouched-refl org s).same_websites;
  }
  Step-Untouched_other s s' org v differ (sets_project r id p p' g o o' slug a b (c, d) m) =
      record {
        same_projects = rw a (
            put_elsewhere (λ q. q.organization_id ≡ org) s.projects id p' (λ e. differ (sym o' ∙ e))
              (λ q h e.
                differ (
                  let same : p ≡ q = ground arith in
                  sym o ∙ ap (λ z. z.organization_id) same ∙ e)));
        same_websites = rw c (Untouched-refl org s).same_websites;
      }
  Step-Untouched_other s s' org v differ (removes_project r id p g o a b c d m) = record {
    same_projects = rw a (
        remove_elsewhere (λ q. q.organization_id ≡ org) s.projects id
          (λ q h e.
            differ
              (let same : p ≡ q = ground arith in sym o ∙ ap (λ z. z.organization_id) same ∙ e)));
    same_websites = rw c (keep_elsewhere lib s org_id org id p v g o differ);
  }
  Step-Untouched_other s s' org v differ
        (adds_website r pid p w g o home own host free c d (a, b) m) =
      record {
        same_projects = rw a (Untouched-refl org s).same_projects;
        same_websites = rw c (
            put_elsewhere (λ u. u.organization_id ≡ some org) s.websites s.next_website w
              (λ e. differ (ground arith))
              (λ u h. let low = v.websites_below s.next_website u h in ground arith));
      }
  Step-Untouched_other s s' org v differ (sets_website r id w w' g o x y domain c d (a, b) m) =
      record {
        same_projects = rw a (Untouched-refl org s).same_projects;
        same_websites = rw c (
            put_elsewhere (λ u. u.organization_id ≡ some org) s.websites id w'
              (λ e. differ (ground arith)) (λ u h e. differ (ground arith)));
      }
  Step-Untouched_other s s' org v differ (removes_website r id w g o c d (a, b) m) = record {
    same_projects = rw a (Untouched-refl org s).same_projects;
    same_websites = rw c (
        remove_elsewhere (λ u. u.organization_id ≡ some org) s.websites id
          (λ u h e. differ (ground arith)));
  }

  pub Step-memberships :
      (s s' : Store) → Step lib org_id user_id s s' → s'.memberships ≡ s.memberships
  Step-memberships s s' (stays e) = ap (λ z. z.memberships) e
  Step-memberships s s' (adds_project r p o slug free a b x m) = m
  Step-memberships s s' (sets_project r id p p' g o o' slug a b x m) = m
  Step-memberships s s' (removes_project r id p g o a b c d m) = m
  Step-memberships s s' (adds_website r pid p w g o home own host free c d x m) = m
  Step-memberships s s' (sets_website r id w w' g o x y domain c d z m) = m
  Step-memberships s s' (removes_website r id w g o c d x m) = m

  -- A user who is not at least a member changes nothing.
  Step-same :
      (s s' : Store) → ¬ HasRole org_id user_id member s → Step lib org_id user_id s s' → s' ≡ s
  Step-same s s' none_of (stays e) = e
  Step-same s s' none_of (adds_project r p o slug free a b x m) = elim (none_of r) [ ]
  Step-same s s' none_of (sets_project r id p p' g o o' slug a b x m) = elim (none_of r) [ ]
  Step-same s s' none_of (removes_project (role, e, t) id p g o a b c d m) =
      elim (none_of (role, e, admin-member role t)) [ ]
  Step-same s s' none_of (adds_website r pid p w g o home own host free c d x m) =
      elim (none_of r) [ ]
  Step-same s s' none_of (sets_website r id w w' g o x y domain c d z m) = elim (none_of r) [ ]
  Step-same s s' none_of (removes_website (role, e, t) id w g o c d x m) =
      elim (none_of (role, e, admin-member role t)) [ ]

  pub Step-Untouched :
      (s s' : Store) (org : ℕ)
      → IsValid lib s
      → ¬ HasRole org user_id member s
      → Step lib org_id user_id s s'
      → Untouched org s s'
  Step-Untouched s s' org v none_of step = elim (ℕ_discrete org_id org) [
    | no differ ↦ Step-Untouched_other s s' org v differ step
    | yes same ↦
        let none_here : ¬ HasRole org_id user_id member s =
          subst (λ k. ¬ HasRole k user_id member s) (sym same) none_of in
        subst (Untouched org s) (sym (Step-same s s' none_here step)) (Untouched-refl org s)
  ]
