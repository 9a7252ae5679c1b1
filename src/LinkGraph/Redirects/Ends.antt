-- ===== src/LinkGraph/Redirects/Ends.antt =====
-- The loop over redirects ends, and what the chains that it stores are.
use seo_agent_rct.Prelude.{
  ℕ, zero, suc, ◌≤◌, ◌<◌, ◌≡◌, ◌∙◌, ap, refl, ◌⊎◌, inl, inr, true, false, not, none, some, List, [],
  ◌∷◌, ◌++◌, length, keep, map, is_some, All, if◌then◌else◌, arith, Bool-cases, Option-cases,
  length-append, length-keep-le,
}
use seo_agent_rct.Dict
use seo_agent_rct.Dict.{Dict}
use seo_agent_rct.Dict.Laws.{Distinct, All-entries}
use seo_agent_rct.Text.{Text, truthy, text_key, equals}
use seo_agent_rct.LinkGraph.{LinkGraph, PageNode}
use seo_agent_rct.LinkGraph.Redirects.{
  Chain, is_member, redirect_of, status_of, chain_of, follow, add_chain, chains_from,
  get_redirect_chains,
}

-- How often a URL stands in a list.
unfoldable pub times : Text → List Text → ℕ
times url [] = 0
times url (v ∷ vs) = let rest = times url vs in if equals v url then suc rest else rest

times-snoc :
    (url v : Text) (vs : List Text)
    → times url (vs ++ (v ∷ [])) ≡ (if equals v url then suc (times url vs) else times url vs)
unfolding times
times-snoc url v [] = refl
times-snoc url v (w ∷ vs) = ground (arith, times-snoc url v vs)

equals_refl : (a : Text) → equals a a ≡ true
equals_refl a = ground arith

-- The pages that the walk has not visited.
abbrev unvisited : List Text → Dict Text PageNode → ℕ
unvisited visited pages = length (keep (λ p. not (is_member p.0 visited)) pages)

unvisited-le :
    (curr : Text) (visited : List Text) (pages : Dict Text PageNode)
    → unvisited (curr ∷ visited) pages ≤ unvisited visited pages
unfolding is_member
unvisited-le curr visited [] = omega arith
unvisited-le curr visited ((url, node) ∷ pages) = ground (arith, unvisited-le curr visited pages)

unvisited-lt :
    (curr : Text) (visited : List Text) (pages : Dict Text PageNode)
    → is_member curr visited ≡ false
    → Dict.contains pages curr ≡ true
    → suc (unvisited (curr ∷ visited) pages) ≤ unvisited visited pages
unfolding is_member Dict.get
unvisited-lt curr visited [] h k = ground arith
unvisited-lt curr visited ((url, node) ∷ pages) h k =
    ground (arith, unvisited-lt curr visited pages, unvisited-le curr visited pages)

abbrev starts : List Chain → List Text
starts cs = map (λ c. c.start_url) cs

-- The URLs of the pages that redirect.
abbrev pub redirecting : Dict Text PageNode → List Text
redirecting items = map (λ p. p.0) (keep (λ p. is_some (truthy p.1.redirect_target)) items)

module _ (pages : Dict Text PageNode) where
  -- A walk along redirects from a URL, with its last URL.
  pub data Walk (url : Text) : List Text → Text → Type 0 where
    start : Walk url (url ∷ []) url
    hop :
        {us : List Text} {a b : Text}
        → Walk url us a
        → redirect_of pages a ≡ some b
        → Walk url (us ++ (b ∷ [])) b

  -- What `get_redirect_chains` promises of a chain.
  pub record IsRedirectChain (c : Chain) : Type 0 where
    pub walk : Walk c.start_url c.chain c.final_url
    pub counted : (1 ≤ c.hop_count) × (suc c.hop_count ≡ length c.chain)
    pub ends :
        (c.is_loop ≡ true) × (times c.final_url c.chain ≡ 2)
        ⊎ (c.is_loop ≡ false)
          × (redirect_of pages c.final_url ≡ none)
          × ((u : Text) → times u c.chain ≤ 1)
          × (c.final_status_code ≡ status_of pages c.final_url)

  redirect_of-contains :
      (url target : Text) → redirect_of pages url ≡ some target → Dict.contains pages url ≡ true
  unfolding redirect_of
  redirect_of-contains url target h = ground arith

  -- `visited` is the set of the hops, and no hop stands twice.
  abbrev IsSetOf : List Text → List Text → Type 0
  IsSetOf visited hops = (u : Text) → times u hops ≡ (if is_member u visited then 1 else 0)

  IsSetOf-visit :
      (curr : Text) (visited hops : List Text)
      → IsSetOf visited hops
      → is_member curr visited ≡ false
      → IsSetOf (curr ∷ visited) (hops ++ (curr ∷ []))
  unfolding is_member
  IsSetOf-visit curr visited hops s h u = ground (arith, s u, times-snoc u curr hops)

  follow-ends :
      (url : Text) (fuel : ℕ) (visited hops : List Text) (last curr : Text)
      → unvisited visited pages < fuel
      → IsSetOf visited hops
      → Walk url hops last
      → 1 ≤ length hops
      → redirect_of pages last ≡ some curr
      → (c : Chain) × (follow pages url fuel visited hops curr ≡ some c)
        × IsRedirectChain c
        × (c.start_url ≡ url)
  unfolding follow
  follow-ends url zero visited hops last curr f s w l r = ground arith
  follow-ends url (suc fuel) visited hops last curr f s w l r =
      let long : length (hops ++ (curr ∷ [])) ≡ suc (length hops) =
        ground (arith, length-append hops (curr ∷ [])) in
      elim (Bool-cases (is_member curr visited)) [
        | inl e ↦ (
          chain_of url (hops ++ (curr ∷ [])) curr none true,
          rw e refl,
          record {
            walk = hop w r;
            counted = ground arith;
            ends = inl (refl, ground (arith, times-snoc curr curr hops, equals_refl curr, s curr));
          },
          refl,
        )
        | inr e ↦ elim (Option-cases (redirect_of pages curr)) [
          | inl n ↦ (
            chain_of url (hops ++ (curr ∷ [])) curr (status_of pages curr) false,
            rw (e, n) refl,
            record {
              walk = hop w r;
              counted = ground arith;
              ends =
                  inr (refl, n, λ u. ground (arith, IsSetOf-visit curr visited hops s e u), refl);
            },
            refl,
          )
          | inr (target, t) ↦
              let (c, runs, good, from) =
                follow-ends url fuel (curr ∷ visited) (hops ++ (curr ∷ [])) curr target
                  (omega (
                    arith,
                    f,
                    unvisited-lt curr visited pages e (redirect_of-contains curr target t),
                  ))
                  (IsSetOf-visit curr visited hops s e) (hop w r) (omega (arith, long)) t in
              (c, rw (e, t) runs, good, from)
        ]
      ]

  -- The entries are entries of `pages`.
  abbrev AreIn : Dict Text PageNode → Type 0
  AreIn items = All (λ p. Dict.get pages p.0 ≡ some p.1) items

  first-ends :
      (fuel : ℕ) (url curr : Text)
      → Dict.size pages < fuel
      → redirect_of pages url ≡ some curr
      → (c : Chain) × (follow pages url fuel (url ∷ []) (url ∷ []) curr ≡ some c)
        × IsRedirectChain c
        × (c.start_url ≡ url)
  unfolding is_member times
  first-ends fuel url curr f r =
      let few = length-keep-le (λ p. not (is_member p.0 (url ∷ []))) pages in
      follow-ends url fuel (url ∷ []) (url ∷ []) url curr (omega (arith, few)) (λ u. ground arith)
        start (omega arith) r

  add_chain_kept : (c : Chain) (cs : List Chain) → IsRedirectChain c → add_chain c cs ≡ c ∷ cs
  add_chain_kept c cs h = let long = h.counted in ground arith

  redirect_of-entry :
      (url : Text) (node : PageNode)
      → Dict.get pages url ≡ some node
      → redirect_of pages url ≡ truthy node.redirect_target
  unfolding redirect_of
  redirect_of-entry url node h = rw (redirect_of, h) refl

  chains_from-ends :
      (fuel : ℕ) (items : Dict Text PageNode)
      → Dict.size pages < fuel
      → AreIn items
      → (cs : List Chain) × (chains_from fuel pages items ≡ some cs)
        × All IsRedirectChain cs
        × (starts cs ≡ redirecting items)
  unfolding chains_from
  chains_from-ends fuel [] f i = ([], refl, tt, refl)
  chains_from-ends fuel ((url, node) ∷ items) f (i, is) =
      let (cs, runs, good, from) = chains_from-ends fuel items f is in
      elim (Option-cases (truthy node.redirect_target)) [
        | inl n ↦ (cs, rw (n, chains_from) runs, good, rw n from)
        | inr (curr, e) ↦
            let (c, walks, fine, begins) =
              first-ends fuel url curr f (redirect_of-entry url node i ∙ e) in
            (
              c ∷ cs,
              rw (e, chains_from, walks, runs) (ap some (add_chain_kept c cs fine)),
              (fine, good),
              rw (e, begins, from) refl,
            )
      ]

-- With more fuel than there are pages, the loops end: there is one chain for each page that
-- redirects, in the order of the pages, and each of them is the walk along the redirects from that
-- page, which stops where a page does not redirect, or at the first URL that it has met before.
pub get_redirect_chains-ends :
    (fuel : ℕ) (g : LinkGraph)
    → Dict.size g.pages < fuel
    → Distinct g.pages
    → (cs : List Chain) × (get_redirect_chains fuel g ≡ some cs)
      × All (IsRedirectChain g.pages) cs
      × (map (λ c. c.start_url) cs ≡ redirecting g.pages)
unfolding get_redirect_chains
get_redirect_chains-ends fuel g f d =
    chains_from-ends g.pages fuel g.pages f (All-entries g.pages d)
