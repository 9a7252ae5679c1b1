-- ===== src/Workspaces/Slugs.antt =====
-- Slugs: `slugify_text` of backend/database/crud.py, and the validators of `ProjectCreate` and
-- `ProjectUpdate` in backend/database/schemas.py. The character classes of `re` and of `str.strip`,
-- and `str.lower`, are parameters.
pub mod Shape
use seo_agent_rct.Prelude.{
  ℕ, Bool, true, false, not, ◌&&◌, ◌||◌, Option, none, some, List, [], ◌∷◌, ◌==◌, ltb, leb, keep,
  length, if◌then◌else◌,
}
use seo_agent_rct.Text.{Text, is_empty, equals}

-- `\w`, `\s` (which is also what `strip` takes away), `str.isdigit` of a character, `str.lower` and
-- `str.upper`, `int`, which gives `none` where it raises, and the test `ilike`
-- that a text contains another, whatever the case of their letters.
pub record TextLib : Type 0 where
  pub is_word : ℕ → Bool
  pub is_space : ℕ → Bool
  pub isdigit : ℕ → Bool
  pub lower : Text → Text
  pub upper : Text → Text
  pub int : Text → Option ℕ
  pub ilike : (part text : Text) → Bool

-- The default slug, `"project"`
abbrev pub default_slug : Text
default_slug = b'p' ∷ b'r' ∷ b'o' ∷ b'j' ∷ b'e' ∷ b'c' ∷ b't' ∷ []

-- A text without the characters of a class at its start.
unfoldable pub strip_start : (ℕ → Bool) → Text → Text
strip_start p [] = []
strip_start p (c ∷ s) = let rest = strip_start p s in if p c then rest else c ∷ s

-- One character in front of a text that has been stripped at its end.
abbrev pub before_end : (ℕ → Bool) → ℕ → Text → Text
before_end p c [] = if p c then [] else c ∷ []
before_end p c (d ∷ s) = c ∷ d ∷ s

-- A text without the characters of a class at its end.
unfoldable pub strip_end : (ℕ → Bool) → Text → Text
strip_end p [] = []
strip_end p (c ∷ s) = before_end p c (strip_end p s)

-- A text without the characters of a class at either end.
unfoldable pub strip_class : (ℕ → Bool) → Text → Text
unfolding strip_start strip_end
strip_class p s = strip_end p (strip_start p s)

abbrev pub is_dash : ℕ → Bool
is_dash c = c == b'-'

-- `ProjectStatus`
pub data ProjectStatus : Type 0 where
  active draft paused archived completed : ProjectStatus

-- The value of a status.
abbrev pub status_text : ProjectStatus → Text
status_text active = b'a' ∷ b'c' ∷ b't' ∷ b'i' ∷ b'v' ∷ b'e' ∷ []
status_text draft = b'd' ∷ b'r' ∷ b'a' ∷ b'f' ∷ b't' ∷ []
status_text paused = b'p' ∷ b'a' ∷ b'u' ∷ b's' ∷ b'e' ∷ b'd' ∷ []
status_text archived = b'a' ∷ b'r' ∷ b'c' ∷ b'h' ∷ b'i' ∷ b'v' ∷ b'e' ∷ b'd' ∷ []
status_text completed = b'c' ∷ b'o' ∷ b'm' ∷ b'p' ∷ b'l' ∷ b'e' ∷ b't' ∷ b'e' ∷ b'd' ∷ []

-- The first status of a list with a text.
unfoldable pub status_among : Text → List ProjectStatus → Option ProjectStatus
status_among v [] = none
status_among v (status ∷ rest) =
    let later = status_among v rest in if equals v (status_text status) then some status else later

abbrev pub all_statuses : List ProjectStatus
all_statuses = active ∷ draft ∷ paused ∷ archived ∷ completed ∷ []

module _ (lib : TextLib) where
  -- `s.strip()`
  abbrev pub strip : Text → Text
  strip s = strip_class lib.is_space s

  -- `[\w\s-]`
  abbrev pub is_kept : ℕ → Bool
  is_kept c = lib.is_word c || lib.is_space c || is_dash c

  -- `[\s_-]`
  abbrev pub is_gap : ℕ → Bool
  is_gap c = lib.is_space c || (c == b'_') || is_dash c

  -- `re.sub(r'[\s_-]+', '-', s)`; `in_gap` tells whether the run has begun before.
  unfoldable pub join_gaps : (in_gap : Bool) → Text → Text
  join_gaps in_gap [] = []
  join_gaps in_gap (c ∷ s) =
      let rest = join_gaps (is_gap c) s in
      if is_gap c then (if in_gap then rest else b'-' ∷ rest) else c ∷ rest

  abbrev pub or_default : Text → Text
  or_default s = if is_empty s then default_slug else s

  -- `slugify_text`
  unfoldable pub slugify_text : Text → Text
  unfolding join_gaps strip_class
  slugify_text text =
      or_default (strip_class is_dash (join_gaps false (keep is_kept (strip (lib.lower text)))))

  -- The validator of `name`: `none` is its exception.
  unfoldable pub validate_name : Text → Option Text
  unfolding strip_class
  validate_name v = let v' = strip v in if is_empty v' then none else some v'

  -- `[a-z0-9-]`
  abbrev pub is_slug_char : ℕ → Bool
  is_slug_char c = (leb b'a' c && leb c b'z') || (leb b'0' c && leb c b'9') || is_dash c

  -- `re.match(r"^[a-z0-9-]+$", v)` of a text that is not empty and does not end in a line break
  unfoldable pub all_slug_chars : Text → Bool
  all_slug_chars [] = true
  all_slug_chars (c ∷ s) = is_slug_char c && all_slug_chars s

  -- The validator of `slug`, which may turn the text into `None`.
  unfoldable pub validate_slug : Option Text → Option (Option Text)
  unfolding strip_class all_slug_chars
  validate_slug none = some none
  validate_slug (some v) =
      let v' = lib.lower (strip v) in
      if is_empty v' then some none else if all_slug_chars v' then some (some v') else none

  -- The validator of `status` of a change: the inner `none` is `None`, the outer its exception.
  unfoldable pub validate_status : Option Text → Option (Option ProjectStatus)
  unfolding status_among strip_class
  validate_status none = some none
  validate_status (some v) = elim (status_among (lib.lower (strip v)) all_statuses) [
    | none ↦ none
    | some status ↦ some (some status)
  ]

  unfoldable pub all_digits : Text → Bool
  all_digits [] = true
  all_digits (c ∷ s) = lib.isdigit c && all_digits s

  -- `s.isdigit()`
  unfoldable pub is_digits : Text → Bool
  unfolding all_digits
  is_digits s = not (is_empty s) && all_digits s
