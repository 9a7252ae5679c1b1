-- ===== src/LinkGraph.antt =====
-- `LinkGraphService` of backend/services/link_graph_service.py: pages and the links between them.
-- `uid` is what `uuid4` gives for a new edge. A page is one shared node in the source, so that a
-- link from a page to itself counts in both of its counters.
mod Tests
pub mod Redirects
pub mod Counts
pub mod Summary
use seo_agent_rct.Prelude.{
  ℕ, zero, suc, ◌+◌, ◌-◌, Bool, true, false, not, ◌||◌, ◌&&◌, Option, none, some, List, [], ◌∷◌,
  ◌++◌, length, keep, leb, ◌==◌, if◌then◌else◌,
}
use seo_agent_rct.Dict
use seo_agent_rct.Dict.{Dict}
use seo_agent_rct.Text.{Text, truthy, text_key, is_empty, equals, ends_with, UrlLib, normalize_url}

pub record PageNode : Type 0 where
  pub url : Text
  pub status_code : ℕ
  pub redirect_target : Option Text
  pub is_external : Bool
  pub inbound_count : ℕ
  pub outbound_count : ℕ

pub record LinkEdge : Type 0 where
  pub id : Text
  pub source_url : Text
  pub target_url : Text
  pub anchor_text : Text
  pub rel : Text
  pub is_internal : Bool
  pub is_broken : Bool

pub record LinkGraph : Type 0 where
  pub base_url : Text
  pub pages : Dict Text PageNode
  pub edges : List LinkEdge

-- `PageNode.__init__`
abbrev pub new_page : Text → ℕ → Option Text → Bool → PageNode
new_page url status_code redirect_target is_external = record {
  url = url;
  status_code = status_code;
  redirect_target = redirect_target;
  is_external = is_external;
  inbound_count = 0;
  outbound_count = 0;
}

-- A page that is not there, or one that is and gets the new values.
abbrev pub page_or_new : Option PageNode → Text → ℕ → Option Text → Bool → PageNode
page_or_new none url status_code redirect_target is_external =
    new_page url status_code redirect_target is_external
page_or_new (some node) url status_code redirect_target is_external = record node {
  status_code = status_code;
  redirect_target = redirect_target;
  is_external = is_external;
}

-- A change of the page at a key, if there is one.
unfoldable pub adjust : (PageNode → PageNode) → Text → Dict Text PageNode → Dict Text PageNode
adjust f url pages = elim (Dict.get pages url) [
  | none ↦ pages
  | some node ↦ Dict.put pages url (f node)
]

abbrev pub count_outbound : PageNode → PageNode
count_outbound node = record node { outbound_count = suc node.outbound_count }

abbrev pub count_inbound : PageNode → PageNode
count_inbound node = record node { inbound_count = suc node.inbound_count }

abbrev status_at : LinkGraph → Text → ℕ
status_at g key = elim (Dict.get g.pages key) [ none ↦ 0 | some node ↦ node.status_code ]

-- The two counters and the edge at the end of `add_link`.
unfoldable pub record_link : (source target : Text) → LinkEdge → LinkGraph → LinkGraph
record_link source target edge g = record g {
  edges = g.edges ++ (edge ∷ []);
  pages = adjust count_inbound target (adjust count_outbound source g.pages);
}

module _ (lib : UrlLib) where
  -- `LinkGraphService.__init__`
  abbrev pub new_graph : Text → LinkGraph
  new_graph base_url = record { base_url = normalize_url lib base_url; pages = []; edges = [] }

  -- `is_internal_url`
  unfoldable pub is_internal_url : LinkGraph → Text → Bool
  is_internal_url g url = elim (lib.urlparse url) [
    | none ↦ false
    | some target ↦ elim (lib.urlparse g.base_url) [
      | none ↦ false
      | some base ↦
          equals (lib.lower target.netloc) (lib.lower base.netloc)
          || ends_with (lib.lower target.netloc) (b'.' ∷ lib.lower base.netloc)
    ]
  ]

  abbrev is_external_or : Option Bool → LinkGraph → Text → Bool
  is_external_or (some b) g url = b
  is_external_or none g url = not (is_internal_url g url)

  abbrev normalized_target : Option Text → Option Text
  normalized_target target = elim (truthy target) [
    | none ↦ none
    | some s ↦ some (normalize_url lib s)
  ]

  -- `add_page`, with the key of the page that it returns.
  unfoldable pub add_page : Text → ℕ → Option Text → Option Bool → LinkGraph → Text × LinkGraph
  add_page url status_code redirect_target is_external g =
      let key : Text = normalize_url lib url in
      (
        key,
        record g {
          pages = Dict.put g.pages key (
              page_or_new (Dict.get g.pages key) key status_code (normalized_target redirect_target)
                (is_external_or is_external g key));
        },
      )

  -- `self.pages.get(norm_target) or self.add_page(norm_target, 200)`, by its key
  unfoldable pub find_or_add : Text → LinkGraph → Text × LinkGraph
  find_or_add key g = if Dict.contains g.pages key then (key, g) else add_page key 200 none none g

  -- `add_link`
  unfoldable pub add_link : (uid : Text) → Text → Text → Text → Text → LinkGraph → LinkGraph
  add_link uid source_url target_url anchor_text rel g =
      let norm_source : Text = normalize_url lib source_url in
      let norm_target : Text = normalize_url lib target_url in
      let g' : LinkGraph = (add_page norm_source 200 none none g).1 in
      let (target, g'') = find_or_add norm_target g' in
      record_link norm_source target
        (record {
          id = uid;
          source_url = norm_source;
          target_url = norm_target;
          anchor_text = lib.strip anchor_text;
          rel = lib.strip rel;
          is_internal = is_internal_url g'' norm_target;
          is_broken = leb 400 (status_at g'' target);
        })
        g''

  abbrev of_source : Option Text → List LinkEdge → List LinkEdge
  of_source source_url es = elim (truthy source_url) [
    | none ↦ es
    | some s ↦ keep (λ e. equals e.source_url (normalize_url lib s)) es
  ]

  -- `get_internal_links`
  abbrev pub get_internal_links : Option Text → LinkGraph → List LinkEdge
  get_internal_links source_url g = of_source source_url (keep (λ e. e.is_internal) g.edges)

  -- `get_external_links`
  abbrev pub get_external_links : Option Text → LinkGraph → List LinkEdge
  get_external_links source_url g = of_source source_url (keep (λ e. not e.is_internal) g.edges)

  -- `url` of a page without a link from the site itself.
  unfoldable pub is_orphan : LinkGraph → Text × PageNode → Bool
  is_orphan g (url, node) =
      not node.is_external
      && not (equals url (normalize_url lib g.base_url))
      && (length (keep (λ e. equals e.target_url url && e.is_internal) g.edges) == 0)

  -- `get_orphan_pages`
  abbrev pub get_orphan_pages : LinkGraph → List PageNode
  get_orphan_pages g = Dict.values (keep (is_orphan g) g.pages)

unfoldable pub is_dead : Option PageNode → Bool
is_dead none = false
is_dead (some node) = leb 400 node.status_code

-- `get_broken_links`
abbrev pub get_broken_links : LinkGraph → List LinkEdge
get_broken_links g = keep (λ e. e.is_broken || is_dead (Dict.get g.pages e.target_url)) g.edges
