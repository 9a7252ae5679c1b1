-- ===== src/Pagination.antt =====
-- backend/database/pagination.py: the limits of a page, pages by offset, and pages by cursor. The
-- asynchronous functions have the same bodies. `none` stands for the `ValueError` of a bad cursor.
mod Tests
pub mod Limits
pub mod Cursors
pub mod Offsets
use seo_agent_rct.Prelude.{
  ℕ, zero, suc, ◌+◌, ◌-◌, ◌/◌, ℤ, pos, negsuc, max, min, Bool, true, false, Option, none, some,
  List, [], ◌∷◌, length, take, keep, ltb, if◌then◌else◌, ◌>>=◌,
}
use seo_agent_rct.Text.{Text, is_empty}

-- `max(1, min(limit, max_limit))`
unfoldable pub effective_limit : ℤ → ℕ → ℕ
effective_limit (pos n) max_limit = max 1 (min n max_limit)
effective_limit (negsuc n) max_limit = 1

-- `max(0, skip)`
unfoldable pub effective_skip : ℤ → ℕ
effective_skip (pos n) = n
effective_skip (negsuc n) = 0

pub record PaginatedResponse {ℓ} (A : Type ℓ) : Type ℓ where
  pub items : List A
  pub total : ℕ
  pub skip : ℕ
  pub limit : ℕ
  pub pages : ℕ

pub data Order : Type 0 where
  asc desc : Order

-- A decoded cursor: an `int` if it reads as one, else the text itself.
pub data CursorValue : Type 0 where
  int_value : ℕ → CursorValue
  text_value : Text → CursorValue

-- `str`, `int` and the base 64 of the standard library; `none` where they raise.
pub record CursorLib : Type 0 where
  pub str : ℕ → Text
  pub int : Text → Option ℕ
  pub b64encode : Text → Text
  pub b64decode : Text → Option Text

-- What SQLAlchemy answers of a query: its rows by offset and limit, their number, and the first
-- rows in the order of a column, of all of them or of those beyond a value.
pub record Query {ℓ} (A : Type ℓ) : Type ℓ where
  pub offset_limit : ℕ → ℕ → List A
  pub count : ℕ
  pub first : Order → ℕ → List A
  pub first_beyond : Order → CursorValue → ℕ → List A

-- The result of `cursor_paginate`: the items, `next_cursor` and `has_more`.
pub record Page {ℓ} (A : Type ℓ) : Type ℓ where
  pub items : List A
  pub next_cursor : Option Text
  pub has_more : Bool

-- `items[-1]`
unfoldable pub last {ℓ} : {A : Type ℓ} → List A → Option A
last [] = none
last (x ∷ []) = some x
last (x ∷ y ∷ xs) = last (y ∷ xs)

module _ (lib : CursorLib) where
  -- `encode_cursor`
  unfoldable pub encode_cursor : ℕ → Text
  encode_cursor n = lib.b64encode (lib.str n)

  -- `decode_cursor`, and the conversion after it
  unfoldable pub decode_value : Text → Option CursorValue
  decode_value cursor = do
    decoded ← lib.b64decode cursor
    some (elim (lib.int decoded) [ none ↦ text_value decoded | some n ↦ int_value n ])

module _ {ℓ} {A : Type ℓ} where
  -- `paginate`
  unfoldable pub paginate : Query A → ℤ → ℤ → ℕ → List A
  paginate q skip limit max_limit =
      q.offset_limit (effective_skip skip) (effective_limit limit max_limit)

  -- `get_paginated_response`
  unfoldable pub get_paginated_response : Query A → ℤ → ℤ → ℕ → PaginatedResponse A
  unfolding paginate
  get_paginated_response q skip limit max_limit =
      let size : ℕ = effective_limit limit max_limit in
      record {
        items = paginate q skip limit max_limit;
        total = q.count;
        skip = effective_skip skip;
        limit = size;
        pages = if ltb 0 size then (q.count + size - 1) / size else 1;
      }

  module _ (lib : CursorLib) where
    -- The rows that are asked for, one more than a page has.
    unfoldable pub fetch : Query A → Order → Option Text → ℕ → Option (List A)
    fetch q order none n = some (q.first order n)
    fetch q order (some cursor) n =
        if is_empty cursor
        then some (q.first order n)
        else do value ← decode_value lib cursor; some (q.first_beyond order value n)

    -- The page that the fetched rows make.
    unfoldable pub page_of : (A → ℕ) → ℕ → List A → Option (Page A)
    page_of column size items =
        if ltb size (length items)
        then (do
          last_item ← last (take size items)
          some (record {
            items = take size items;
            next_cursor = some (encode_cursor lib (column last_item));
            has_more = true;
          }))
        else some (record { items = items; next_cursor = none; has_more = false })

    -- `cursor_paginate`, for a column of integers
    unfoldable pub cursor_paginate :
        Query A → (A → ℕ) → Option Text → ℤ → ℕ → Order → Option (Page A)
    cursor_paginate q column cursor limit max_limit order =
        let size : ℕ = effective_limit limit max_limit in
        do items ← fetch q order cursor (size + 1); page_of column size items
