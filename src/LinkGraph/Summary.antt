-- ===== src/LinkGraph/Summary.antt =====
-- `get_summary` of backend/services/link_graph_service.py.
use seo_agent_rct.Prelude.{
  ℕ, suc, ◌+◌, ◌≤◌, ◌<◌, ◌≡◌, refl, ap, Bool, not, Option, none, some, List, [], ◌∷◌, length, keep,
  map, is_some, arith, length-keep-le, ◌>>=◌,
}
use seo_agent_rct.Dict
use seo_agent_rct.Dict.{Dict}
use seo_agent_rct.Dict.Laws.{Distinct}
use seo_agent_rct.Text.{Text, truthy, text_key, UrlLib}
use seo_agent_rct.LinkGraph.{
  LinkGraph, PageNode, is_orphan, get_internal_links, get_external_links, get_broken_links,
  get_orphan_pages,
}
use seo_agent_rct.LinkGraph.Redirects.{Chain, get_redirect_chains}
use seo_agent_rct.LinkGraph.Redirects.Ends.{get_redirect_chains-ends, redirecting}

pub record Summary : Type 0 where
  pub total_nodes : ℕ
  pub internal_nodes_count : ℕ
  pub external_nodes_count : ℕ
  pub total_edges : ℕ
  pub internal_edges_count : ℕ
  pub external_edges_count : ℕ
  pub broken_edges_count : ℕ
  pub orphan_pages_count : ℕ
  pub redirect_chains_count : ℕ

-- The counts, with the redirect chains at hand.
abbrev summary_of : UrlLib → LinkGraph → List Chain → Summary
summary_of lib g chains = record {
  total_nodes = Dict.size g.pages;
  internal_nodes_count = length (keep (λ p. not p.is_external) (Dict.values g.pages));
  external_nodes_count = length (keep (λ p. p.is_external) (Dict.values g.pages));
  total_edges = length g.edges;
  internal_edges_count = length (get_internal_links lib none g);
  external_edges_count = length (get_external_links lib none g);
  broken_edges_count = length (get_broken_links g);
  orphan_pages_count = length (get_orphan_pages lib g);
  redirect_chains_count = length chains;
}

-- `get_summary`
unfoldable pub get_summary : UrlLib → ℕ → LinkGraph → Option Summary
get_summary lib fuel g = do chains ← get_redirect_chains fuel g; some (summary_of lib g chains)

module _ {ℓ} {A : Type ℓ} where
  length-keep_parts :
      (p : A → Bool) (xs : List A)
      → length (keep p xs) + length (keep (λ x. not (p x)) xs) ≡ length xs
  length-keep_parts p [] = refl
  length-keep_parts p (x ∷ xs) = ground (arith, length-keep_parts p xs)

length-map {ℓ κ} :
    {A : Type ℓ} {B : Type κ} (f : A → B) (xs : List A) → length (map f xs) ≡ length xs
length-map f [] = refl
length-map f (x ∷ xs) = ap suc (length-map f xs)

orphans-le :
    (lib : UrlLib) (g : LinkGraph) (items : Dict Text PageNode)
    → length (keep (is_orphan lib g) items)
      ≤ length (keep (λ p. not p.is_external) (Dict.values items))
unfolding is_orphan
orphans-le lib g [] = omega arith
orphans-le lib g ((url, node) ∷ items) = ground (arith, orphans-le lib g items)

chains-le :
    (cs : List Chain) (items : Dict Text PageNode)
    → map (λ c. c.start_url) cs ≡ redirecting items
    → length cs ≤ Dict.size items
chains-le cs items e =
    let redirects : Text × PageNode → Bool = λ p. is_some (truthy p.1.redirect_target) in
    let starts = length-map (λ (c : Chain). c.start_url) cs in
    let urls = length-map (λ (p : Text × PageNode). p.0) (keep redirects items) in
    let few = length-keep-le redirects items in
    let same = ap length e in omega (arith, starts, urls, few, same)

-- The counts of a summary agree with each other.
pub record AddsUp (s : Summary) : Type 0 where
  nodes : s.internal_nodes_count + s.external_nodes_count ≡ s.total_nodes
  edges : s.internal_edges_count + s.external_edges_count ≡ s.total_edges
  broken : s.broken_edges_count ≤ s.total_edges
  orphans : s.orphan_pages_count ≤ s.internal_nodes_count
  chains : s.redirect_chains_count ≤ s.total_nodes

-- With more fuel than there are pages, the summary is computed, and its counts agree: internal and
-- external pages, and links, make up the totals, orphans are internal pages, broken links are links,
-- and there are no more redirect chains than pages.
pub get_summary-AddsUp :
    (lib : UrlLib) (fuel : ℕ) (g : LinkGraph)
    → Dict.size g.pages < fuel
    → Distinct g.pages
    → (s : Summary) × (get_summary lib fuel g ≡ some s) × AddsUp s
unfolding get_summary
get_summary-AddsUp lib fuel g f d =
    let (cs, runs, good, from) = get_redirect_chains-ends fuel g f d in
    (
      summary_of lib g cs,
      rw runs refl,
      record {
        nodes = ground (
          arith,
          length-keep_parts (λ p. p.is_external) (Dict.values g.pages),
          length-map (λ (p : Text × PageNode). p.1) g.pages,
        );
        edges = length-keep_parts (λ e. e.is_internal) g.edges;
        broken = length-keep-le _ g.edges;
        orphans = ground (
          arith,
          orphans-le lib g g.pages,
          length-map (λ (p : Text × PageNode). p.1) (keep (is_orphan lib g) g.pages),
        );
        chains = chains-le cs g.pages from;
      },
    )
