-- ===== src/Robots/Parsing.antt =====
-- `parse` of backend/services/robots_service.py never looks up an agent that it has not entered.
use seo_agent_rct.Prelude.{
  ◌≡◌, ◌⊎◌, inl, inr, refl, ◌∙◌, true, false, some, List, [], ◌∷◌, All, All-append, All-weaken,
  if◌then◌else◌, ◌>>=◌, arith, subst, Bool-cases, Option-cases,
}
use seo_agent_rct.Dict
use seo_agent_rct.Dict.{Dict}
use seo_agent_rct.Dict.Laws.{get-put}
use seo_agent_rct.Dict.Everywhere.{Everywhere, Everywhere-empty, Everywhere-put}
use seo_agent_rct.Text.{Text, text_key, is_empty, equals}
use seo_agent_rct.Robots.{
  before, after, allow_key, disallow_key, crawl_delay_key, user_agent_key, sitemap_key,
  direct_current,
}
use seo_agent_rct.Robots.{
  RobotsLib, RobotsRule, Robots, Parser, new_parser, new_rule, add_rules, append_value, directed,
  direct_all, on_agent, on_sitemap, on_directive, on_pair, on_line, on_lines, parse,
}

abbrev IsPattern : Text → Type 0
IsPattern s = is_empty s ≡ false

module _ (lib : RobotsLib) where
  -- No pattern is empty.
  pub record HasPatterns (rule : RobotsRule lib) : Type 0 where
    pub allow : All IsPattern rule.allow
    pub disallow : All IsPattern rule.disallow

  abbrev Known : Dict Text (RobotsRule lib) → List Text → Type 0
  Known rules agents = All (λ ag. Dict.contains rules ag ≡ true) agents

  abbrev AllPatterns : Dict Text (RobotsRule lib) → Type 0
  AllPatterns rules = Everywhere (λ ag rule. HasPatterns rule) rules

  -- The invariant of the parser.
  record Inv (p : Parser lib) : Type 0 where
    known : Known p.robots.rules p.current_agents
    patterns : AllPatterns p.robots.rules

  append_value-All :
      (value : Text) (values : List Text)
      → All IsPattern values
      → All IsPattern (append_value lib value values)
  append_value-All value values h = elim (Bool-cases (is_empty value)) [
    | inl e ↦ rw e h
    | inr e ↦ rw e (All-append IsPattern values (value ∷ []) h (e, tt))
  ]

  directed-HasPatterns :
      (key value : Text) (rule : RobotsRule lib)
      → HasPatterns rule
      → HasPatterns (directed lib key value rule)
  unfolding directed
  directed-HasPatterns key value rule h = elim (Bool-cases (equals key allow_key)) [
    | inl e ↦
        rw (directed, e)
          (record { allow = append_value-All value rule.allow h.allow; disallow = h.disallow })
    | inr e ↦ elim (Bool-cases (equals key disallow_key)) [
      | inl f ↦
          rw (directed, e, f)
            (record { allow = h.allow; disallow = append_value-All value rule.disallow h.disallow })
      | inr f ↦ elim (Bool-cases (equals key crawl_delay_key)) [
        | inl g ↦ elim (Option-cases (lib.float value)) [
          | inl n ↦ rw (directed, e, f, g, n) h
          | inr (delay, d) ↦
              rw (directed, e, f, g, d) (record { allow = h.allow; disallow = h.disallow })
        ]
        | inr g ↦ rw (directed, e, f, g) h
      ]
    ]
  ]

  Known-put :
      (rules : Dict Text (RobotsRule lib)) (ag : Text) (rule : RobotsRule lib) (agents : List Text)
      → Known rules agents
      → Known (Dict.put rules ag rule) agents
  Known-put rules ag rule agents =
      All-weaken _ (λ a. Dict.contains (Dict.put rules ag rule) a ≡ true)
        (λ a h. ground (arith, h, get-put rules ag a rule)) agents

  direct_all-total :
      (key value : Text) (agents : List Text) (rules : Dict Text (RobotsRule lib))
      (kept : List Text)
      → Known rules agents
      → Known rules kept
      → AllPatterns rules
      → (rules' : Dict Text (RobotsRule lib)) × (direct_all lib key value agents rules
          ≡ some rules')
        × Known rules' kept
        × AllPatterns rules'
  unfolding direct_all
  direct_all-total key value [] rules kept k m a = (rules, refl, m, a)
  direct_all-total key value (ag ∷ agents) rules kept k m a =
      elim (Option-cases (Dict.get rules ag)) [
        | inl n ↦ ground (arith, k.0, n)
        | inr (rule, e) ↦
            let new = directed lib key value rule in
            let (rules', runs, m', a') =
              direct_all-total key value agents (Dict.put rules ag new) kept
                (Known-put rules ag new agents k.1) (Known-put rules ag new kept m)
                (Everywhere-put _ rules ag new a
                  (directed-HasPatterns key value rule (a ag rule e))) in
            (rules', rw (direct_all, e) runs, m', a')
      ]

  enter : Text → Dict Text (RobotsRule lib) → Dict Text (RobotsRule lib)
  enter ag rules = if Dict.contains rules ag then rules else Dict.put rules ag (new_rule lib ag)

  enter-Known :
      (ag : Text) (rules : Dict Text (RobotsRule lib)) (kept : List Text)
      → Known rules kept
      → AllPatterns rules
      → Known (enter ag rules) (ag ∷ kept) × AllPatterns (enter ag rules)
  unfolding enter
  enter-Known ag rules kept k a = elim (Bool-cases (Dict.contains rules ag)) [
    | inl e ↦ subst (λ r. Known r (ag ∷ kept) × AllPatterns r) (rw (enter, e) refl) ((e, k), a)
    | inr e ↦
        let new = new_rule lib ag in
        let there : Dict.contains (Dict.put rules ag new) ag ≡ true =
          ground (arith, get-put rules ag ag new) in
        subst (λ r. Known r (ag ∷ kept) × AllPatterns r) (rw (enter, e) refl)
          (
            (there, Known-put rules ag new kept k),
            Everywhere-put _ rules ag new a (record { allow = tt; disallow = tt }),
          )
  ]

  add_rules-Known :
      (agents : List Text) (rules : Dict Text (RobotsRule lib)) (kept : List Text)
      → Known rules kept
      → AllPatterns rules
      → Known (add_rules lib agents rules) kept
        × Known (add_rules lib agents rules) agents
        × AllPatterns (add_rules lib agents rules)
  unfolding add_rules enter
  add_rules-Known [] rules kept k a = (k, tt, a)
  add_rules-Known (ag ∷ agents) rules kept k a =
      let (k', a') = enter-Known ag rules kept k a in
      let (kept', known, all) = add_rules-Known agents (enter ag rules) (ag ∷ kept) k' a' in
      (kept'.1, (kept'.0, known), all)

  on_agent-Inv : (agent : Text) (p : Parser lib) → Inv p → Inv (on_agent lib agent p)
  unfolding on_agent
  on_agent-Inv agent p i =
      let (_, known, all) = add_rules-Known _ p.robots.rules [] tt i.patterns in
      record { known = known; patterns = all }

  on_sitemap-Inv : (value : Text) (p : Parser lib) → Inv p → Inv (on_sitemap lib value p)
  unfolding on_sitemap
  on_sitemap-Inv value p i = elim (Bool-cases (is_empty value)) [
    | inl e ↦ rw e i
    | inr e ↦ rw e (record { known = i.known; patterns = i.patterns })
  ]

  -- The parser after a directive on the rules of its agents.
  abbrev with_rules : Parser lib → Dict Text (RobotsRule lib) → Parser lib
  with_rules p rules = record p {
    robots = record p.robots { rules = rules };
    expecting_directives = true;
  }

  on_directive_cases :
      (key value : Text) (agents : List Text) (p : Parser lib)
      → (direct_current lib key value agents p ≡ some p)
        ⊎ (direct_current lib key value agents p ≡ (
            direct_all lib key value agents p.robots.rules >>= λ rules. some (with_rules p rules)))
  unfolding direct_current
  on_directive_cases key value [] p = inl refl
  on_directive_cases key value (ag ∷ agents) p = inr refl

  on_directive-Inv :
      (key value : Text) (p : Parser lib)
      → Inv p
      → (p' : Parser lib) × (on_directive lib key value p ≡ some p') × Inv p'
  on_directive-Inv key value p i = elim (on_directive_cases key value p.current_agents p) [
    | inl e ↦ (p, e, i)
    | inr e ↦
        let (rules, runs, known, all) =
          direct_all-total key value p.current_agents p.robots.rules p.current_agents i.known
            i.known i.patterns in
        (with_rules p rules, e ∙ rw runs refl, record { known = known; patterns = all })
  ]

  on_pair-Inv :
      (key value : Text) (p : Parser lib)
      → Inv p
      → (p' : Parser lib) × (on_pair lib key value p ≡ some p') × Inv p'
  unfolding on_pair
  on_pair-Inv key value p i = elim (Bool-cases (equals key user_agent_key)) [
    | inl e ↦
        (on_agent lib (lib.lower value) p, rw (on_pair, e) refl, on_agent-Inv (lib.lower value) p i)
    | inr e ↦ elim (Bool-cases (equals key sitemap_key)) [
      | inl f ↦ (on_sitemap lib value p, rw (on_pair, e, f) refl, on_sitemap-Inv value p i)
      | inr f ↦
          let (p', runs, i') = on_directive-Inv key value p i in (p', rw (on_pair, e, f) runs, i')
    ]
  ]

  on_line-Inv :
      (line : Text) (p : Parser lib)
      → Inv p
      → (p' : Parser lib) × (on_line lib line p ≡ some p') × Inv p'
  unfolding on_line
  on_line-Inv line p i =
      let text = lib.strip (before b'#' line) in
      let key = lib.lower (lib.strip (before b':' text)) in
      elim (Option-cases (after b':' text)) [
        | inl n ↦ (p, rw (on_line, n) refl, i)
        | inr (value, e) ↦
            let (p', runs, i') = on_pair-Inv key (lib.strip value) p i in
            (p', rw (on_line, e) runs, i')
      ]

  on_lines-Inv :
      (lines : List Text) (p : Parser lib)
      → Inv p
      → (p' : Parser lib) × (on_lines lib lines p ≡ some p') × Inv p'
  unfolding on_lines
  on_lines-Inv [] p i = (p, refl, i)
  on_lines-Inv (line ∷ lines) p i =
      let (p₁, runs, i₁) = on_line-Inv line p i in
      let (p₂, rest, i₂) = on_lines-Inv lines p₁ i₁ in (p₂, rw (on_lines, runs) rest, i₂)

  -- On any text, `parse` gives rules: it never looks up an agent that has no rule (which would be a
  -- `KeyError`), and no rule that it gives has an empty pattern.
  pub parse-HasPatterns :
      (content : Text)
      → (r : Robots lib) × (parse lib content ≡ some r)
        × ((agent : Text) (rule : RobotsRule lib)
            → Dict.get r.rules agent ≡ some rule
            → HasPatterns rule)
  unfolding parse
  parse-HasPatterns content =
      let (p, runs, i) =
        on_lines-Inv (lib.splitlines content) (new_parser lib)
          (record { known = tt; patterns = Everywhere-empty _ }) in
      (p.robots, rw (parse, runs) refl, i.patterns)
