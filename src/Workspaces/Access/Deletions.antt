-- ===== src/Workspaces/Access/Deletions.antt =====
-- A step of a user who is no administrator removes nothing.
use seo_agent_rct.Prelude.{ℕ, ◌≡◌, sym, subst, true, arith, nat_key, is_some}
use seo_agent_rct.Dict
use seo_agent_rct.Dict.{Dict}
use seo_agent_rct.Dict.Laws.{get-put}
use seo_agent_rct.Orgs.Rows.{admin}
use seo_agent_rct.Workspaces.Slugs.{TextLib}
use seo_agent_rct.Workspaces.Rows.{Store}
use seo_agent_rct.Workspaces.Steps.{
  HasRole, Step, stays, adds_project, sets_project, removes_project, adds_website, sets_website,
  removes_website,
}

-- The rows that are there stay there.
pub record Survives (s s' : Store) : Type 0 where
  pub projects_stay :
      (k : ℕ) → is_some (Dict.get s.projects k) ≡ true → is_some (Dict.get s'.projects k) ≡ true
  pub websites_stay :
      (k : ℕ) → is_some (Dict.get s.websites k) ≡ true → is_some (Dict.get s'.websites k) ≡ true

pub Survives-refl : (s : Store) → Survives s s
Survives-refl s = record { projects_stay = λ k e. e; websites_stay = λ k e. e }

pub Survives-trans : (s t u : Store) → Survives s t → Survives t u → Survives s u
Survives-trans s t u a b = record {
  projects_stay = λ k e. b.projects_stay k (a.projects_stay k e);
  websites_stay = λ k e. b.websites_stay k (a.websites_stay k e);
}

put_stays :
    {V : Type 0} (d : Dict ℕ V) (id : ℕ) (x : V) (k : ℕ)
    → is_some (Dict.get d k) ≡ true
    → is_some (Dict.get (Dict.put d id x) k) ≡ true
put_stays d id x k e = ground (arith, get-put d id k x)

module _ (lib : TextLib) (org_id user_id : ℕ) where
  pub Step-Survives :
      (s s' : Store)
      → ¬ HasRole org_id user_id admin s
      → Step lib org_id user_id s s'
      → Survives s s'
  Step-Survives s s' none_of (stays e) = subst (Survives s) (sym e) (Survives-refl s)
  Step-Survives s s' none_of (adds_project r p o slug free a b (c, d) m) = record {
    projects_stay = rw a (put_stays s.projects s.next_project p);
    websites_stay = rw c (λ k e. e);
  }
  Step-Survives s s' none_of (sets_project r id p p' g o o' slug a b (c, d) m) = record {
    projects_stay = rw a (put_stays s.projects id p');
    websites_stay = rw c (λ k e. e);
  }
  Step-Survives s s' none_of (removes_project r id p g o a b c d m) = elim (none_of r) [ ]
  Step-Survives s s' none_of (adds_website r pid p w g o home own host free c d (a, b) m) = record {
    projects_stay = rw a (λ k e. e);
    websites_stay = rw c (put_stays s.websites s.next_website w);
  }
  Step-Survives s s' none_of (sets_website r id w w' g o x y domain c d (a, b) m) = record {
    projects_stay = rw a (λ k e. e);
    websites_stay = rw c (put_stays s.websites id w');
  }
  Step-Survives s s' none_of (removes_website r id w g o c d x m) = elim (none_of r) [ ]
