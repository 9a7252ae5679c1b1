-- ===== src/Robots/Tests.antt =====
-- A robots.txt of four lines, with a search for prefixes.
use seo_agent_rct.Prelude.{ℕ, ◌≡◌, Bool, true, none, some, List, [], ◌∷◌, ◌++◌, if◌then◌else◌, ◌==◌}
use seo_agent_rct.Text.{Text, text_key, starts_with}
use seo_agent_rct.Robots.{RobotsLib, Robots, parse, user_agent_key, allow_key, disallow_key}
use seo_agent_rct.Robots.Access.{IsAnswered, parse-IsAnswered}

-- The lines of a text, at its line feeds.
abbrev extend : ℕ → List Text → List Text
extend c [] = (c ∷ []) ∷ []
extend c (l ∷ ls) = (c ∷ l) ∷ ls

abbrev lines : Text → List Text
lines [] = []
lines (c ∷ s) = let rest = lines s in if c == b'\n' then [] ∷ rest else extend c rest

abbrev prefix_search : Text → Text → Bool
prefix_search [] s = true
prefix_search (c ∷ p) s = starts_with s p

abbrev plain : RobotsLib
plain = record {
  Float = ℕ;
  splitlines = lines;
  strip = λ s. s;
  lower = λ s. s;
  float = λ s. none;
  escape = λ s. s;
  replace = λ old new s. s;
  search = prefix_search;
}

abbrev a : Text
a = b'/' ∷ b'a' ∷ []

abbrev ab : Text
ab = b'/' ∷ b'a' ∷ b'b' ∷ []

abbrev content : Text
content =
    user_agent_key
    ++ (b':' ∷ b'*' ∷ b'\n' ∷ [])
    ++ disallow_key
    ++ (b':' ∷ [])
    ++ a
    ++ (b'\n' ∷ [])
    ++ allow_key
    ++ (b':' ∷ [])
    ++ ab
    ++ (b'\n' ∷ [])

parse-IsAnswered_example : (r : Robots plain) × (parse plain content ≡ some r) × IsAnswered plain r
parse-IsAnswered_example = parse-IsAnswered plain content
