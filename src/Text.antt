-- ===== src/Text.antt =====
-- Python's `str` as the list of its code points, and the parts of the standard library that the
-- URL code calls: they are parameters, since their source is not in the repository.
use seo_agent_rct.Prelude.{
  ℕ, ◌≡◌, refl, ℕ_discrete, Bool, true, false, ◌||◌, ◌&&◌, Option, none, some, List, [], ◌∷◌, ◌++◌,
  Key, ite, if◌then◌else◌, ◌==◌, ltb, length,
}

abbrev pub Text : Type 0
Text = List ℕ

join : (c d : ℕ) (s t : Text) → Dec (c ≡ d) → Dec (s ≡ t) → Dec (◌≡◌ {A = Text} (c ∷ s) (d ∷ t))
join c d s t (yes p) (yes q) = yes (cc)
join c d s t (yes p) (no n) = no (λ e. n (cc))
join c d s t (no n) q = no (λ e. n (cc))

unfoldable pub Text_discrete : Discrete Text
unfolding join
Text_discrete [] [] = yes refl
Text_discrete [] (d ∷ t) = no (λ e. cc)
Text_discrete (c ∷ s) [] = no (λ e. cc)
Text_discrete (c ∷ s) (d ∷ t) = join c d s t (ℕ_discrete c d) (Text_discrete s t)

instance abbrev pub text_key : Key Text
text_key = record { dec = Text_discrete }

abbrev pub is_empty : Text → Bool
is_empty [] = true
is_empty (c ∷ s) = false

-- `if text:` for a text that may be `None`
abbrev pub truthy : Option Text → Option Text
truthy none = none
truthy (some s) = if is_empty s then none else some s

-- `a == b`
abbrev pub equals : Text → Text → Bool
equals a b = ite (Text_discrete a b) true false

-- `s.endswith(suffix)`
unfoldable pub ends_with : Text → Text → Bool
ends_with [] suffix = is_empty suffix
ends_with (c ∷ s) suffix = equals (c ∷ s) suffix || ends_with s suffix

-- `s.startswith(prefix)`
unfoldable pub starts_with : Text → Text → Bool
starts_with s [] = true
starts_with [] (c ∷ prefix) = false
starts_with (d ∷ s) (c ∷ prefix) = (c == d) && starts_with s prefix

-- `infix in s`
unfoldable pub has_infix : Text → Text → Bool
has_infix part [] = is_empty part
has_infix part (c ∷ s) = starts_with (c ∷ s) part || has_infix part s

-- `s[:-1]`
unfoldable pub drop_last : Text → Text
drop_last [] = []
drop_last (c ∷ []) = []
drop_last (c ∷ d ∷ s) = c ∷ drop_last (d ∷ s)

-- The parts of the result of `urllib.parse.urlparse` that the program reads.
pub record ParsedUrl : Type 0 where
  pub scheme : Text
  pub netloc : Text
  pub path : Text
  pub query : Text

-- `urlparse` and `urljoin` give `none` where they raise.
pub record UrlLib : Type 0 where
  pub urlparse : Text → Option ParsedUrl
  pub urljoin : Text → Text → Option Text
  pub lower : Text → Text
  pub strip : Text → Text

abbrev slash : Text
slash = b'/' ∷ []

abbrev http : Text
http = b'h' ∷ b't' ∷ b't' ∷ b'p' ∷ []

abbrev scheme_end : Text
scheme_end = b':' ∷ b'/' ∷ b'/' ∷ []

abbrev or_http : Text → Text
or_http scheme = if is_empty scheme then http else scheme

-- The path without a slash at its end.
unfoldable pub trim_path : Text → Text
unfolding ends_with drop_last
trim_path path =
    if equals path slash
    then []
    else if ltb 1 (length path) && ends_with path slash
    then drop_last path
    else path

abbrev query_part : Text → Text
query_part query = if is_empty query then [] else b'?' ∷ query

-- `normalize_url` of URLDiscoveryService and of LinkGraphService.
unfoldable pub normalize_url : UrlLib → Text → Text
unfolding trim_path
normalize_url lib raw_url = if is_empty raw_url then [] else elim (lib.urlparse raw_url) [
  | none ↦ lib.strip raw_url
  | some parsed ↦
      or_http (lib.lower parsed.scheme)
      ++ scheme_end
      ++ lib.lower parsed.netloc
      ++ trim_path parsed.path
      ++ query_part parsed.query
]
