-- ===== src/Workspaces/Validity/Kept.antt =====
-- Requests keep the tables valid.
use seo_agent_rct.Prelude.{ℕ, sym, subst, List, [], ◌∷◌, nat_key}
use seo_agent_rct.Workspaces.Slugs.{TextLib, default_slug}
use seo_agent_rct.Workspaces.Slugs.Shape.{Joined, is_slug_letter}
use seo_agent_rct.Workspaces.Rows.{Store}
use seo_agent_rct.Workspaces.Requests.{Request, handle, handle_all}
use seo_agent_rct.Workspaces.Steps.{
  Step, stays, adds_project, sets_project, removes_project, adds_website, sets_website,
  removes_website,
}
use seo_agent_rct.Workspaces.Steps.Handlers.{dispatch-Step}
use seo_agent_rct.Workspaces.Validity.{IsValid}
use seo_agent_rct.Workspaces.Validity.Tables.{
  Valid-same, Valid-adds_project, Valid-sets_project, Valid-removes_project,
}
use seo_agent_rct.Workspaces.Validity.WebsiteTables.{
  Valid-adds_website, Valid-sets_website, Valid-removes_website,
}

module _ (lib : TextLib) where
  pub Step-IsValid :
      (org_id user_id : ℕ) (s s' : Store)
      → Step lib org_id user_id s s'
      → IsValid lib s
      → IsValid lib s'
  Step-IsValid org_id user_id s s' (stays e) v = subst (IsValid lib) (sym e) v
  Step-IsValid org_id user_id s s' (adds_project r p o slug free a b (c, d) m) v =
      Valid-same lib s s' _ _ _ _ a b c d (Valid-adds_project lib _ _ _ _ org_id p v o slug free)
  Step-IsValid org_id user_id s s' (sets_project r id p p' g o o' slug a b (c, d) m) v =
      Valid-same lib s s' _ _ _ _ a b c d
        (Valid-sets_project lib _ _ _ _ org_id id p p' v g o o' slug)
  Step-IsValid org_id user_id s s' (removes_project r id p g o a b c d m) v =
      Valid-same lib s s' _ _ _ _ a b c d (Valid-removes_project lib _ _ _ _ id v)
  Step-IsValid org_id user_id s s' (adds_website r pid p w g o home own host free c d (a, b) m) v =
      Valid-same lib s s' _ _ _ _ a b c d
        (Valid-adds_website lib _ _ _ _ org_id pid p w v g o home own host free)
  Step-IsValid org_id user_id s s' (sets_website r id w w' g o x y domain c d (a, b) m) v =
      Valid-same lib s s' _ _ _ _ a b c d
        (Valid-sets_website lib _ _ _ _ org_id id w w' v g o x y domain)
  Step-IsValid org_id user_id s s' (removes_website r id w g o c d (a, b) m) v =
      Valid-same lib s s' _ _ _ _ a b c d (Valid-removes_website lib _ _ _ _ id v)

  -- If the letters of "project" are word characters and no gaps, then from valid tables, after any
  -- requests of any users on any projects and websites, the tables are valid: ids are given once, no
  -- two projects of an organization share a slug and no two websites of it a normalized domain, every
  -- slug consists of words joined by single dashes, and every website of a project has a valid domain
  -- and belongs to the organization of that project, which is there.
  pub handle_all-IsValid :
      (rs : List Request) (s : Store)
      → Joined (is_slug_letter lib) default_slug
      → IsValid lib s
      → IsValid lib (handle_all lib rs s)
  unfolding handle_all
  handle_all-IsValid [] s letters v = v
  handle_all-IsValid (r ∷ rs) s letters v = handle_all-IsValid rs (handle lib r s).1 letters (
      Step-IsValid r.org_id r.user_id s (handle lib r s).1
        (dispatch-Step lib letters r.now r.org_id r.user_id r.target s v.projects_distinct
          v.websites_distinct)
        v)
