-- ===== src/Robots/Longest.antt =====
-- `is_allowed` of backend/services/robots_service.py against a description without its loops.
use seo_agent_rct.Prelude.{
  ℕ, suc, ◌≤◌, ◌≡◌, ◌↔◌, ◌⊎◌, inl, inr, refl, max, Bool, true, false, ◌&&◌, some, List, [], ◌∷◌,
  length, All, ltb, leb, if◌then◌else◌, arith, Bool-cases, Option-cases, subst,
}
use seo_agent_rct.Text.{Text}
use seo_agent_rct.Robots.{
  RobotsLib, RobotsRule, Robots, path_matches, disallow_loop, allow_loop, is_allowed,
  get_rule_for_agent,
}

-- Some element satisfies a predicate.
abbrev pub Any {ℓ} : {A : Type ℓ} → (A → Type 0) → List A → Type 0
Any P [] = ⊥
Any P (x ∷ xs) = P x ⊎ Any P xs

module _ (lib : RobotsLib) (path : Text) where
  -- One more than the length of the longest pattern that matches, 0 where none does.
  longest : List Text → ℕ
  longest [] = 0
  longest (p ∷ ps) =
      let rest = longest ps in if path_matches lib path p then max (suc (length p)) rest else rest

  disallow_loop-longest :
      (ps : List Text) (n : ℕ) (a : Bool)
      → disallow_loop lib path ps (n, a)
        ≡ (max n (longest ps), if ltb n (longest ps) then false else a)
  unfolding disallow_loop longest
  disallow_loop-longest [] n a = ground arith
  disallow_loop-longest (p ∷ ps) n a = elim (Bool-cases (path_matches lib path p)) [
    | inl e ↦ elim (Bool-cases (ltb n (suc (length p)))) [
      | inl l ↦ rw (e, l) (ground (arith, l, disallow_loop-longest ps (suc (length p)) false))
      | inr g ↦ rw (e, g) (ground (arith, g, disallow_loop-longest ps n a))
    ]
    | inr e ↦ rw e (disallow_loop-longest ps n a)
  ]

  allow_loop-longest :
      (ps : List Text) (n : ℕ) (a : Bool)
      → (allow_loop lib path ps (n, a)).1
        ≡ (if leb n (longest ps) && ltb 0 (longest ps) then true else a)
  unfolding allow_loop longest
  allow_loop-longest [] n a = ground arith
  allow_loop-longest (p ∷ ps) n a = elim (Bool-cases (path_matches lib path p)) [
    | inl e ↦ elim (Bool-cases (leb n (suc (length p)))) [
      | inl l ↦
          rw (allow_loop, e, l) (ground (arith, l, allow_loop-longest ps (suc (length p)) true))
      | inr g ↦ rw (allow_loop, e, g) (ground (arith, g, allow_loop-longest ps n a))
    ]
    | inr e ↦ rw (allow_loop, e) (allow_loop-longest ps n a)
  ]

  abbrev IsBelow : ℕ → Text → Type 0
  IsBelow n p = path_matches lib path p ≡ true → suc (length p) ≤ n

  longest-le : (ps : List Text) (n : ℕ) → (longest ps ≤ n) ↔ All (IsBelow n) ps
  unfolding longest
  longest-le [] n = ((λ h. tt), (λ h. omega arith))
  longest-le (p ∷ ps) n = ground (arith, longest-le ps n)

  abbrev MatchesAtLeast : ℕ → Text → Type 0
  MatchesAtLeast k p = (path_matches lib path p ≡ true) × (k ≤ length p)

  le-longest : (ps : List Text) (k : ℕ) → (suc k ≤ longest ps) ↔ Any (MatchesAtLeast k) ps
  unfolding longest
  le-longest [] k = ((λ h. ground arith), (λ h. absurd h))
  le-longest (p ∷ ps) k = ground (arith, le-longest ps k)

  -- A rule lets the path through: no pattern of `disallow` that matches is longer than every pattern
  -- of `allow` that does.
  abbrev pub Permits : RobotsRule lib → Type 0
  Permits rule =
      All (λ d. path_matches lib path d ≡ true → Any (MatchesAtLeast (length d)) rule.allow)
        rule.disallow

  le-Permits :
      (allow : List Text) (ds : List Text)
      → (longest ds ≤ longest allow)
        ↔ All (λ d. path_matches lib path d ≡ true → Any (MatchesAtLeast (length d)) allow) ds
  unfolding longest
  le-Permits allow [] = ((λ h. tt), (λ h. omega arith))
  le-Permits allow (d ∷ ds) = ground (arith, le-Permits allow ds, le-longest allow (length d))

  loops-Permits :
      (rule : RobotsRule lib)
      → ((allow_loop lib path rule.allow (disallow_loop lib path rule.disallow (0, true))).1 ≡ true)
        ↔ Permits rule
  loops-Permits rule =
      rw
        (
          disallow_loop-longest rule.disallow 0 true,
          allow_loop-longest rule.allow (max 0 (longest rule.disallow))
              (if ltb 0 (longest rule.disallow) then false else true),
        )
        (ground (arith, le-Permits rule.allow rule.disallow))

-- A path may be fetched if and only if the rule for the agent, if there is one, permits it: for each
-- pattern of `disallow` that matches the path, some pattern of `allow` that matches is as long.
pub is_allowed-Permits :
    (lib : RobotsLib) (path user_agent : Text) (r : Robots lib)
    → (is_allowed lib path user_agent r ≡ true) ↔ (
        (rule : RobotsRule lib)
        → get_rule_for_agent lib user_agent r ≡ some rule
        → Permits lib path rule)
unfolding is_allowed
is_allowed-Permits lib path user_agent r =
    elim (Option-cases (get_rule_for_agent lib user_agent r)) [
      | inl n ↦ rw (is_allowed, n) ((λ h rule e. cc), (λ h. refl))
      | inr (rule, e) ↦
          let (sound, complete) = loops-Permits lib path rule in
          rw (is_allowed, e)
            (
              (λ h other e'.
                  let same : rule ≡ other = cc in subst (Permits lib path) same (sound h)),
              (λ h. complete (h rule refl)),
            )
    ]
