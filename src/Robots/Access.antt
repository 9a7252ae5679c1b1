-- ===== src/Robots/Access.antt =====
-- From the text of a robots.txt to the answer of `is_allowed`.
use seo_agent_rct.Prelude.{◌≡◌, ◌↔◌, true, some}
use seo_agent_rct.Dict
use seo_agent_rct.Text.{Text, text_key}
use seo_agent_rct.Robots.{RobotsLib, RobotsRule, Robots, parse, get_rule_for_agent, is_allowed}
use seo_agent_rct.Robots.Longest.{Permits, is_allowed-Permits}
use seo_agent_rct.Robots.Parsing.{HasPatterns, parse-HasPatterns}

-- What a parsed robots.txt answers.
pub record IsAnswered (lib : RobotsLib) (r : Robots lib) : Type 0 where
  pub patterns :
      (agent : Text) (rule : RobotsRule lib)
      → Dict.get r.rules agent ≡ some rule
      → HasPatterns lib rule
  pub access :
      (path user_agent : Text)
      → (is_allowed lib path user_agent r ≡ true) ↔ (
          (rule : RobotsRule lib)
          → get_rule_for_agent lib user_agent r ≡ some rule
          → Permits lib path rule)

-- On any text, `parse` gives rules: it never looks up an agent that has no rule (which would be a
-- `KeyError`), and no rule that it gives has an empty pattern. With these rules, a path may be
-- fetched if and only if the rule for the agent, if there is one, permits it: for each pattern of
-- `disallow` that matches the path, some pattern of `allow` that matches is as long.
pub parse-IsAnswered :
    (lib : RobotsLib) (content : Text)
    → (r : Robots lib) × (parse lib content ≡ some r) × IsAnswered lib r
parse-IsAnswered lib content =
    let (r, runs, patterns) = parse-HasPatterns lib content in
    (
      r,
      runs,
      record {
        patterns = patterns;
        access = λ path user_agent. is_allowed-Permits lib path user_agent r;
      },
    )
