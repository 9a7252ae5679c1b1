-- ===== src/Robots.antt =====
-- `RobotsService` of backend/services/robots_service.py: the rules of a robots.txt, and whether a
-- path may be fetched. A delay is what `float` gives.
mod Tests
pub mod Longest
pub mod Parsing
pub mod Access
use seo_agent_rct.Prelude.{
  ℕ, zero, suc, ◌+◌, Bool, true, false, not, ◌||◌, Option, none, some, List, [], ◌∷◌, ◌++◌, length,
  ltb, leb, ◌==◌, if◌then◌else◌, ◌>>=◌, String,
}
use seo_agent_rct.Dict
use seo_agent_rct.Dict.{Dict}
use seo_agent_rct.Text.{Text, text_key, is_empty, equals, ends_with, drop_last}

-- The parts of the standard library that the service calls; `float` gives `none` where it raises.
pub record RobotsLib : Type 1 where
  pub Float : Type 0
  pub splitlines : Text → List Text
  pub strip : Text → Text
  pub lower : Text → Text
  pub float : Text → Option Float
  pub escape : Text → Text
  pub replace : (old new : Text) → Text → Text
  pub search : (pattern : Text) → Text → Bool

-- `s.split(c, 1)[0]` and, where `c` occurs, `s.split(c, 1)[1]`
unfoldable pub before : ℕ → Text → Text
before c [] = []
before c (d ∷ s) = let rest = before c s in if d == c then [] else d ∷ rest

unfoldable pub after : ℕ → Text → Option Text
after c [] = none
after c (d ∷ s) = let rest = after c s in if d == c then some s else rest

-- `text in texts`
unfoldable pub is_member : Text → List Text → Bool
is_member s [] = false
is_member s (t ∷ ts) = equals t s || is_member s ts

-- `if text not in texts: texts.append(text)`
unfoldable pub add_new : Text → List Text → List Text
add_new s ts = if is_member s ts then ts else ts ++ (s ∷ [])

-- The directives that the parser tells apart.
abbrev pub user_agent_key : Text
user_agent_key = b'u' ∷ b's' ∷ b'e' ∷ b'r' ∷ b'-' ∷ b'a' ∷ b'g' ∷ b'e' ∷ b'n' ∷ b't' ∷ []

abbrev pub sitemap_key : Text
sitemap_key = b's' ∷ b'i' ∷ b't' ∷ b'e' ∷ b'm' ∷ b'a' ∷ b'p' ∷ []

abbrev pub allow_key : Text
allow_key = b'a' ∷ b'l' ∷ b'l' ∷ b'o' ∷ b'w' ∷ []

abbrev pub disallow_key : Text
disallow_key = b'd' ∷ b'i' ∷ b's' ∷ allow_key

abbrev pub crawl_delay_key : Text
crawl_delay_key = b'c' ∷ b'r' ∷ b'a' ∷ b'w' ∷ b'l' ∷ b'-' ∷ b'd' ∷ b'e' ∷ b'l' ∷ b'a' ∷ b'y' ∷ []

abbrev star : Text
star = b'*' ∷ []

module _ (lib : RobotsLib) where
  pub record RobotsRule : Type 0 where
    pub user_agent : Text
    pub allow : List Text
    pub disallow : List Text
    pub crawl_delay : Option lib.Float

  pub record Robots : Type 0 where
    pub sitemaps : List Text
    pub rules : Dict Text RobotsRule

  -- The state of `parse` between two lines.
  pub record Parser : Type 0 where
    pub robots : Robots
    pub current_agents : List Text
    pub expecting_directives : Bool

  -- `RobotsRule.__init__`
  abbrev pub new_rule : Text → RobotsRule
  new_rule agent = record {
    user_agent = lib.lower (lib.strip agent);
    allow = [];
    disallow = [];
    crawl_delay = none;
  }

  -- `for ag in current_agents: if ag not in self.rules: self.rules[ag] = RobotsRule(ag)`
  unfoldable pub add_rules : List Text → Dict Text RobotsRule → Dict Text RobotsRule
  add_rules [] rules = rules
  add_rules (ag ∷ agents) rules =
      add_rules agents (if Dict.contains rules ag then rules else Dict.put rules ag (new_rule ag))

  abbrev pub append_value : Text → List Text → List Text
  append_value value values = if is_empty value then values else values ++ (value ∷ [])

  -- One directive on one rule.
  unfoldable pub directed : Text → Text → RobotsRule → RobotsRule
  directed key value rule =
      if equals key allow_key
      then record rule { allow = append_value value rule.allow }
      else if equals key disallow_key
      then record rule { disallow = append_value value rule.disallow }
      else if equals key crawl_delay_key
      then (elim (lib.float value) [
        | none ↦ rule
        | some delay ↦ record rule { crawl_delay = some delay }
      ])
      else rule

  -- `for ag in current_agents: rule = self.rules[ag] …`; `none` is the `KeyError`.
  unfoldable pub direct_all :
      Text → Text → List Text → Dict Text RobotsRule → Option (Dict Text RobotsRule)
  direct_all key value [] rules = some rules
  direct_all key value (ag ∷ agents) rules = do
    rule ← Dict.get rules ag
    direct_all key value agents (Dict.put rules ag (directed key value rule))

  -- A `user-agent` line.
  unfoldable pub on_agent : Text → Parser → Parser
  unfolding add_new
  on_agent agent p =
      let agents : List Text =
        if p.expecting_directives then agent ∷ [] else add_new agent p.current_agents in
      record {
        robots = record p.robots { rules = add_rules agents p.robots.rules };
        current_agents = agents;
        expecting_directives = false;
      }

  -- A `sitemap` line.
  unfoldable pub on_sitemap : Text → Parser → Parser
  unfolding add_new
  on_sitemap value p =
      if is_empty value
      then p
      else record p { robots = record p.robots { sitemaps = add_new value p.robots.sitemaps } }

  -- Any other directive, for the current agents.
  unfoldable pub direct_current : Text → Text → List Text → Parser → Option Parser
  direct_current key value [] p = some p
  direct_current key value (ag ∷ agents) p = do
    rules ← direct_all key value (ag ∷ agents) p.robots.rules
    some (record p { robots = record p.robots { rules = rules }; expecting_directives = true })

  abbrev pub on_directive : Text → Text → Parser → Option Parser
  on_directive key value p = direct_current key value p.current_agents p

  -- A line with its key and its value.
  unfoldable pub on_pair : Text → Text → Parser → Option Parser
  on_pair key value p =
      if equals key user_agent_key
      then some (on_agent (lib.lower value) p)
      else if equals key sitemap_key
      then some (on_sitemap value p)
      else on_directive key value p

  -- The body of the loop over the lines.
  unfoldable pub on_line : Text → Parser → Option Parser
  on_line raw_line p =
      let line : Text = lib.strip (before b'#' raw_line) in
      elim (after b':' line) [
        | none ↦ some p
        | some value ↦ on_pair (lib.lower (lib.strip (before b':' line))) (lib.strip value) p
      ]

  unfoldable pub on_lines : List Text → Parser → Option Parser
  on_lines [] p = some p
  on_lines (line ∷ lines) p = do next ← on_line line p; on_lines lines next

  abbrev pub new_parser : Parser
  new_parser = record {
    robots = record { sitemaps = []; rules = [] };
    current_agents = [];
    expecting_directives = false;
  }

  -- `parse`
  unfoldable pub parse : Text → Option Robots
  parse content = do p ← on_lines (lib.splitlines content) new_parser; some p.robots

  -- `get_rule_for_agent`
  unfoldable pub get_rule_for_agent : Text → Robots → Option RobotsRule
  get_rule_for_agent user_agent r = elim (Dict.get r.rules (lib.lower user_agent)) [
    | some rule ↦ some rule
    | none ↦ Dict.get r.rules star
  ]

  -- `_path_matches`
  unfoldable pub path_matches : (path pattern : Text) → Bool
  path_matches path pattern =
      let regex : Text = lib.replace (b'\\' ∷ b'*' ∷ []) (b'.' ∷ b'*' ∷ []) (lib.escape pattern) in
      if is_empty pattern
      then false
      else if ends_with regex (b'\\' ∷ b'$' ∷ [])
      then lib.search (drop_last (drop_last regex) ++ (b'$' ∷ [])) path
      else lib.search (b'^' ∷ regex) path

  -- The two loops of `is_allowed`, on `longest_match_len + 1` and `allowed`.
  unfoldable pub disallow_loop : Text → List Text → ℕ × Bool → ℕ × Bool
  disallow_loop path [] s = s
  disallow_loop path (dis ∷ patterns) (longest, allowed) = disallow_loop path patterns (
      if path_matches path dis
      then (if ltb longest (suc (length dis))
          then (suc (length dis), false)
          else (longest, allowed))
      else (longest, allowed))

  unfoldable pub allow_loop : Text → List Text → ℕ × Bool → ℕ × Bool
  allow_loop path [] s = s
  allow_loop path (pattern ∷ patterns) (longest, allowed) = allow_loop path patterns (
      if path_matches path pattern
      then (if leb longest (suc (length pattern))
          then (suc (length pattern), true)
          else (longest, allowed))
      else (longest, allowed))

  -- `is_allowed`
  unfoldable pub is_allowed : Text → Text → Robots → Bool
  is_allowed path user_agent r = elim (get_rule_for_agent user_agent r) [
    | none ↦ true
    | some rule ↦ (allow_loop path rule.allow (disallow_loop path rule.disallow (0, true))).1
  ]

  -- `get_crawl_delay`
  unfoldable pub get_crawl_delay : Text → Robots → Option lib.Float
  get_crawl_delay user_agent r = do rule ← get_rule_for_agent user_agent r; rule.crawl_delay
