-- ===== src/LinkGraph/Redirects.antt =====
-- `get_redirect_chains` of backend/services/link_graph_service.py. Its `while` runs on fuel.
pub mod Ends
use seo_agent_rct.Prelude.{
  ℕ, zero, suc, ◌-◌, Bool, true, false, ◌||◌, Option, none, some, List, [], ◌∷◌, ◌++◌, length, leb,
  ◌>>=◌, if◌then◌else◌,
}
use seo_agent_rct.Dict
use seo_agent_rct.Dict.{Dict}
use seo_agent_rct.Text.{Text, truthy, text_key, equals}
use seo_agent_rct.LinkGraph.{LinkGraph, PageNode}

pub record Chain : Type 0 where
  pub start_url : Text
  pub chain : List Text
  pub final_url : Text
  pub final_status_code : Option ℕ
  pub hop_count : ℕ
  pub is_loop : Bool

-- `url in visited`
unfoldable pub is_member : Text → List Text → Bool
is_member url [] = false
is_member url (v ∷ vs) = equals v url || is_member url vs

-- `next_node.redirect_target` of a page, if it is there and has one.
unfoldable pub redirect_of : Dict Text PageNode → Text → Option Text
redirect_of pages url = elim (Dict.get pages url) [
  | none ↦ none
  | some node ↦ truthy node.redirect_target
]

unfoldable pub status_of : Dict Text PageNode → Text → Option ℕ
status_of pages url = elim (Dict.get pages url) [ none ↦ none | some node ↦ some node.status_code ]

-- What is stored for a walk that has ended.
abbrev pub chain_of : Text → List Text → Text → Option ℕ → Bool → Chain
chain_of url hops final final_status is_loop = record {
  start_url = url;
  chain = hops;
  final_url = final;
  final_status_code = final_status;
  hop_count = length hops - 1;
  is_loop = is_loop;
}

module _ (pages : Dict Text PageNode) (url : Text) where
  -- The `while` loop, from `curr_url` on.
  unfoldable pub follow : ℕ → (visited hops : List Text) → (curr_url : Text) → Option Chain
  follow zero visited hops curr = none
  follow (suc fuel) visited hops curr =
      let hops' : List Text = hops ++ (curr ∷ []) in
      if is_member curr visited
      then some (chain_of url hops' curr none true)
      else elim (redirect_of pages curr) [
        | some target ↦ follow fuel (curr ∷ visited) hops' target
        | none ↦ some (chain_of url hops' curr (status_of pages curr) false)
      ]

-- `if len(hop_list) >= 2: chains.append(...)`
abbrev pub add_chain : Chain → List Chain → List Chain
add_chain c cs = if leb 2 (length c.chain) then c ∷ cs else cs

-- The `for` loop over the pages; `none` where a `while` loop runs out of fuel.
unfoldable pub chains_from : ℕ → Dict Text PageNode → Dict Text PageNode → Option (List Chain)
chains_from fuel pages [] = some []
chains_from fuel pages ((url, node) ∷ items) =
    let rest = chains_from fuel pages items in
    elim (truthy node.redirect_target) [
      | none ↦ rest
      | some curr ↦ do
        chain ← follow pages url fuel (url ∷ []) (url ∷ []) curr
        chains ← rest
        some (add_chain chain chains)
    ]

-- `get_redirect_chains`
unfoldable pub get_redirect_chains : ℕ → LinkGraph → Option (List Chain)
get_redirect_chains fuel g = chains_from fuel g.pages g.pages
