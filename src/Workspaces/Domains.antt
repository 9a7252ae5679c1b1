-- ===== src/Workspaces/Domains.antt =====
-- Domains: `normalize_domain`, `is_valid_domain` and `DOMAIN_REGEX` of backend/database/crud.py.
pub mod Shape
use seo_agent_rct.Prelude.{
  ℕ, Bool, true, false, not, ◌&&◌, ◌||◌, List, [], ◌∷◌, ◌++◌, ◌==◌, leb, ltb, length, if◌then◌else◌,
}
use seo_agent_rct.Text.{Text, is_empty, equals, starts_with, has_infix}
use seo_agent_rct.Pagination.Limits.{drop}
use seo_agent_rct.Workspaces.Slugs.{TextLib, strip, strip_class}

abbrev pub scheme_end : Text
scheme_end = b':' ∷ b'/' ∷ b'/' ∷ []

-- What follows the first occurrence of a text, or the whole text: `s.split(part, 1)[-1]`
unfoldable pub after_first : Text → Text → Text
unfolding starts_with
after_first part [] = []
after_first part (c ∷ s) =
    if starts_with (c ∷ s) part
    then drop (length part) (c ∷ s)
    else if has_infix part s
    then after_first part s
    else c ∷ s

-- `s.split(c, 1)[0]`
unfoldable pub before : ℕ → Text → Text
before mark [] = []
before mark (c ∷ s) = let rest = before mark s in if c == mark then [] else c ∷ rest

abbrev pub www : Text
www = b'w' ∷ b'w' ∷ b'w' ∷ b'.' ∷ []

-- `d[4:]` after `www.`
abbrev pub without_www : Text → Text
without_www d = if starts_with d www then drop 4 d else d

abbrev pub host_part : Text → Text
host_part d = before b':' (before b'#' (before b'?' (before b'/' d)))

-- `s.split('.')`
unfoldable pub labels_from : (start : Text) → Text → List Text
labels_from start [] = start ∷ []
labels_from start (c ∷ s) =
    let next = labels_from [] s in
    let same = labels_from (start ++ (c ∷ [])) s in if c == b'.' then start ∷ next else same

abbrev is_letter : ℕ → Bool
is_letter c = (leb b'a' c && leb c b'z') || (leb b'A' c && leb c b'Z')

abbrev is_alnum : ℕ → Bool
is_alnum c = is_letter c || (leb b'0' c && leb c b'9')

unfoldable pub all_letters : Text → Bool
all_letters [] = true
all_letters (c ∷ s) = is_letter c && all_letters s

-- `[a-zA-Z0-9-]*[a-zA-Z0-9]`
unfoldable pub label_rest : Text → Bool
label_rest [] = false
label_rest (c ∷ []) = is_alnum c
label_rest (c ∷ d ∷ s) = (is_alnum c || (c == b'-')) && label_rest (d ∷ s)

-- `[a-zA-Z0-9](?:[a-zA-Z0-9-]{0,61}[a-zA-Z0-9])?`
unfoldable pub is_label : Text → Bool
unfolding label_rest
is_label [] = false
is_label (c ∷ []) = is_alnum c
is_label (c ∷ d ∷ s) = is_alnum c && label_rest (d ∷ s) && leb (length s) 61

-- The labels of a domain: one or more labels, and then the top level.
unfoldable pub domain_labels : List Text → Bool
unfolding is_label all_letters
domain_labels [] = false
domain_labels (t ∷ []) = false
domain_labels (t ∷ u ∷ []) = is_label t && all_letters u && leb 2 (length u)
domain_labels (t ∷ u ∷ v ∷ ts) = is_label t && domain_labels (u ∷ v ∷ ts)

-- `DOMAIN_REGEX.match` of a text that does not end in a line break
unfoldable pub matches_domain_regex : Text → Bool
unfolding labels_from domain_labels
matches_domain_regex s = domain_labels (labels_from [] s)

abbrev pub localhost : Text
localhost = b'l' ∷ b'o' ∷ b'c' ∷ b'a' ∷ b'l' ∷ b'h' ∷ b'o' ∷ b's' ∷ b't' ∷ []

-- What a normalized domain must be.
unfoldable pub is_host : Text → Bool
unfolding matches_domain_regex
is_host norm = not (is_empty norm) && (equals norm localhost || matches_domain_regex norm)

module _ (lib : TextLib) where
  -- `normalize_domain`
  unfoldable pub normalize_domain : Text → Text
  unfolding strip_class after_first before
  normalize_domain domain =
      if is_empty domain
      then []
      else strip lib
          (without_www (host_part (after_first scheme_end (lib.lower (strip lib domain)))))

  -- `is_valid_domain`
  unfoldable pub is_valid_domain : Text → Bool
  unfolding normalize_domain is_host
  is_valid_domain domain =
      not (is_empty domain) && leb (length domain) 253 && is_host (normalize_domain domain)
