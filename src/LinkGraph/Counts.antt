-- ===== src/LinkGraph/Counts.antt =====
-- The counters of the pages of `LinkGraphService`, against the edges that it stores.
use seo_agent_rct.Prelude.{
  ℕ, suc, ◌≡◌, refl, Bool, true, ◌||◌, Option, none, some, inl, inr, ◌∙◌, ◌⊎◌, subst, sym, List, [],
  ◌∷◌, ◌++◌, length, keep, All, if◌then◌else◌, arith, Option-cases,
}
use seo_agent_rct.Dict
use seo_agent_rct.Dict.{Dict}
use seo_agent_rct.Dict.Laws.{get-put, get-put_self}
use seo_agent_rct.Text.{Text, text_key, equals, UrlLib, normalize_url}
use seo_agent_rct.LinkGraph.{
  LinkGraph, PageNode, LinkEdge, new_graph, add_page, add_link, find_or_add, record_link, adjust,
  count_inbound, count_outbound, page_or_new, new_page,
}

-- `outbound_count` and `inbound_count` of the page at a URL, 0 where there is none.
unfoldable pub outbound_at : Dict Text PageNode → Text → ℕ
outbound_at pages url = elim (Dict.get pages url) [ none ↦ 0 | some node ↦ node.outbound_count ]

unfoldable pub inbound_at : Dict Text PageNode → Text → ℕ
inbound_at pages url = elim (Dict.get pages url) [ none ↦ 0 | some node ↦ node.inbound_count ]

unfoldable pub links_from : Text → List LinkEdge → ℕ
links_from url es = length (keep (λ e. equals e.source_url url) es)

unfoldable pub links_to : Text → List LinkEdge → ℕ
links_to url es = length (keep (λ e. equals e.target_url url) es)

-- The counters are the numbers of edges.
abbrev pub IsCounted : LinkGraph → Type 0
IsCounted g =
    (url : Text)
    → (outbound_at g.pages url ≡ links_from url g.edges)
      × (inbound_at g.pages url ≡ links_to url g.edges)

-- A call of the service.
pub data GraphCall : Type 0 where
  page : Text → ℕ → Option Text → Option Bool → GraphCall
  link : (uid source_url target_url anchor_text rel : Text) → GraphCall

keep-snoc :
    (p : LinkEdge → Bool) (es : List LinkEdge) (e : LinkEdge)
    → length (keep p (es ++ (e ∷ [])))
      ≡ (if p e then suc (length (keep p es)) else length (keep p es))
keep-snoc p [] e = ground arith
keep-snoc p (f ∷ es) e = ground (arith, keep-snoc p es e)

adjust-counts :
    (key url : Text) (pages : Dict Text PageNode)
    → Dict.contains pages key ≡ true
    → (outbound_at (adjust count_outbound key pages) url
        ≡ (if equals key url then suc (outbound_at pages url) else outbound_at pages url))
      × (inbound_at (adjust count_outbound key pages) url ≡ inbound_at pages url)
      × (outbound_at (adjust count_inbound key pages) url ≡ outbound_at pages url)
      × (inbound_at (adjust count_inbound key pages) url
          ≡ (if equals key url then suc (inbound_at pages url) else inbound_at pages url))
unfolding outbound_at inbound_at adjust
adjust-counts key url pages h = elim (Option-cases (Dict.get pages key)) [
  | inl n ↦ ground arith
  | inr (node, e) ↦
      let put_out = get-put pages key url (count_outbound node) in
      let put_in = get-put pages key url (count_inbound node) in
      rw (adjust, e)
        (
          ground (arith, e, put_out),
          ground (arith, e, put_out),
          ground (arith, e, put_in),
          ground (arith, e, put_in),
        )
]

contains-adjust :
    (f : PageNode → PageNode) (key url : Text) (pages : Dict Text PageNode)
    → Dict.contains (adjust f key pages) url ≡ Dict.contains pages url
unfolding adjust
contains-adjust f key url pages = elim (Option-cases (Dict.get pages key)) [
  | inl n ↦ rw (adjust, n) refl
  | inr (node, e) ↦ rw (adjust, e) (ground (arith, e, get-put pages key url (f node)))
]

-- A page that is written anew keeps its counters, and a new one has none.
put-counts :
    (pages : Dict Text PageNode) (key : Text) (status : ℕ) (target : Option Text) (external : Bool)
    (url : Text)
    → let pages' =
        Dict.put pages key (page_or_new (Dict.get pages key) key status target external) in
      (outbound_at pages' url ≡ outbound_at pages url)
      × (inbound_at pages' url ≡ inbound_at pages url)
      × (Dict.contains pages' url ≡ equals key url || Dict.contains pages url)
unfolding outbound_at inbound_at
put-counts pages key status target external url = elim (Option-cases (Dict.get pages key)) [
  | inl n ↦
      let written = get-put pages key url (new_page key status target external) in
      rw n (ground (arith, n, written), ground (arith, n, written), ground (arith, n, written))
  | inr (node, e) ↦
      let written = get-put pages key url (page_or_new (some node) key status target external) in
      rw e (ground (arith, e, written), ground (arith, e, written), ground (arith, e, written))
]

-- Pages are added and nothing is counted.
record Grows (g g' : LinkGraph) : Type 0 where
  edges : g'.edges ≡ g.edges
  outbound : (url : Text) → outbound_at g'.pages url ≡ outbound_at g.pages url
  inbound : (url : Text) → inbound_at g'.pages url ≡ inbound_at g.pages url
  kept : (url : Text) → Dict.contains g.pages url ≡ true → Dict.contains g'.pages url ≡ true

Grows-refl : (g : LinkGraph) → Grows g g
Grows-refl g = record { edges = refl; outbound = λ u. refl; inbound = λ u. refl; kept = λ u h. h }

IsCounted-Grows : (g g' : LinkGraph) → Grows g g' → IsCounted g → IsCounted g'
IsCounted-Grows g g' w c url = rw (w.edges, w.outbound url, w.inbound url) (c url)

record_link-IsCounted :
    (source target : Text) (edge : LinkEdge) (g : LinkGraph)
    → Dict.contains g.pages source ≡ true
    → Dict.contains g.pages target ≡ true
    → edge.source_url ≡ source
    → edge.target_url ≡ target
    → IsCounted g
    → IsCounted (record_link source target edge g)
unfolding record_link links_from links_to
record_link-IsCounted source target edge g s t es et c url =
    let held = contains-adjust count_outbound source target g.pages in
    let first = adjust-counts source url g.pages s in
    let second = adjust-counts target url (adjust count_outbound source g.pages) (held ∙ t) in
    let froms = keep-snoc (λ e. equals e.source_url url) g.edges edge in
    let tos = keep-snoc (λ e. equals e.target_url url) g.edges edge in
    rw (froms, tos, es, et, second.2, second.3, first.0, first.1, (c url).0, (c url).1) (refl, refl)

module _ (lib : UrlLib) where
  add_page-Grows :
      (key : Text) (status : ℕ) (target : Option Text) (external : Option Bool) (g : LinkGraph)
      → Grows g (add_page lib key status target external g).1
  unfolding add_page
  add_page-Grows key status target external g =
      let counts = put-counts g.pages (normalize_url lib key) status _ _ in
      record {
        edges = refl;
        outbound = λ u. (counts u).0;
        inbound = λ u. (counts u).1;
        kept = λ u h. ground (arith, (counts u).2, h);
      }

  add_page-contains :
      (key : Text) (status : ℕ) (target : Option Text) (external : Option Bool) (g : LinkGraph)
      → Dict.contains (add_page lib key status target external g).1.pages (normalize_url lib key)
        ≡ true
  unfolding add_page
  add_page-contains key status target external g =
      rw (get-put_self g.pages (normalize_url lib key) _) refl

  -- A URL that normalizing leaves as it is.
  abbrev pub IsStable : Text → Type 0
  IsStable url = normalize_url lib url ≡ url

  stable-contains :
      (key : Text) (g : LinkGraph)
      → IsStable key
      → Dict.contains (add_page lib key 200 none none g).1.pages key ≡ true
  stable-contains key g s =
      subst (λ k. Dict.contains (add_page lib key 200 none none g).1.pages k ≡ true) s
        (add_page-contains key 200 none none g)

  find_or_add_cases :
      (key : Text) (g : LinkGraph)
      → (find_or_add lib key g ≡ (key, g)) × (Dict.contains g.pages key ≡ true)
        ⊎ (find_or_add lib key g ≡ add_page lib key 200 none none g)
  unfolding find_or_add
  find_or_add_cases key g = ground arith

  abbrev IsFound : Text → LinkGraph → Text × LinkGraph → Type 0
  IsFound key g r = Grows g r.1 × (r.0 ≡ key) × (Dict.contains r.1.pages key ≡ true)

  find_or_add-IsFound :
      (key : Text) (g : LinkGraph) → IsStable key → IsFound key g (find_or_add lib key g)
  unfolding add_page
  find_or_add-IsFound key g s = elim (find_or_add_cases key g) [
    | inl (e, h) ↦ subst (λ r. IsFound key g r) (sym e) (Grows-refl g, refl, h)
    | inr e ↦
        subst (λ r. IsFound key g r) (sym e)
          (add_page-Grows key 200 none none g, s, stable-contains key g s)
  ]

  add_link-IsCounted :
      (uid source target anchor rel : Text) (g : LinkGraph)
      → IsStable (normalize_url lib source)
      → IsStable (normalize_url lib target)
      → IsCounted g
      → IsCounted (add_link lib uid source target anchor rel g)
  unfolding add_link
  add_link-IsCounted uid source target anchor rel g s t c =
      let from = normalize_url lib source in
      let to = normalize_url lib target in
      let g' = (add_page lib from 200 none none g).1 in
      let grown = add_page-Grows from 200 none none g in
      let (more, key, there) = find_or_add-IsFound to g' t in
      record_link-IsCounted from (find_or_add lib to g').0 _ (find_or_add lib to g').1
        (more.kept from (stable-contains from g s)) (rw key there) refl (sym key)
        (IsCounted-Grows g' _ more (IsCounted-Grows g g' grown c))

  -- One call.
  unfoldable pub apply : GraphCall → LinkGraph → LinkGraph
  apply (page url status_code redirect_target is_external) g =
      (add_page lib url status_code redirect_target is_external g).1
  apply (link uid source_url target_url anchor_text rel) g =
      add_link lib uid source_url target_url anchor_text rel g

  -- Normalizing once more leaves the two ends of a link as they are.
  abbrev pub HasStableEnds : GraphCall → Type 0
  HasStableEnds (page url status_code redirect_target is_external) = Unit
  HasStableEnds (link uid source_url target_url anchor_text rel) =
      IsStable (normalize_url lib source_url) × IsStable (normalize_url lib target_url)

  unfoldable pub apply_all : List GraphCall → LinkGraph → LinkGraph
  apply_all [] g = g
  apply_all (c ∷ cs) g = apply_all cs (apply c g)

  apply-IsCounted :
      (c : GraphCall) (g : LinkGraph) → HasStableEnds c → IsCounted g → IsCounted (apply c g)
  unfolding apply
  apply-IsCounted (page url status_code redirect_target is_external) g h c =
      IsCounted-Grows g _ (add_page-Grows url status_code redirect_target is_external g) c
  apply-IsCounted (link uid source_url target_url anchor_text rel) g h c =
      add_link-IsCounted uid source_url target_url anchor_text rel g h.0 h.1 c

  changed-IsCounted :
      (cs : List GraphCall) (g : LinkGraph)
      → All HasStableEnds cs
      → IsCounted g
      → IsCounted (apply_all cs g)
  unfolding apply_all
  changed-IsCounted [] g h c = c
  changed-IsCounted (x ∷ cs) g h c =
      changed-IsCounted cs (apply x g) h.1 (apply-IsCounted x g h.0 c)

  -- After any calls of `add_page` and `add_link` on a new graph, if normalizing once more leaves the
  -- two ends of each link as they are, the counters of each page are the numbers of edges that leave
  -- it and that reach it, and a URL without a page has no edge.
  pub apply_all-IsCounted :
      (base_url : Text) (cs : List GraphCall)
      → All HasStableEnds cs
      → IsCounted (apply_all cs (new_graph lib base_url))
  unfolding outbound_at inbound_at links_from links_to Dict.get
  apply_all-IsCounted base_url cs h =
      changed-IsCounted cs (new_graph lib base_url) h (λ url. (refl, refl))
