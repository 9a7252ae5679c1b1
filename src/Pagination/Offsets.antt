-- ===== src/Pagination/Offsets.antt =====
-- Reading the pages of `get_paginated_response` one after the other.
use seo_agent_rct.Prelude.{
  ℕ, zero, suc, ◌+◌, ◌-◌, ◌*◌, ◌/◌, ◌≤◌, ◌≡◌, refl, sym, ◌∙◌, ap, ℤ, pos, List, [], ◌++◌, length,
  take, arith, lt→ltb,
}
use seo_agent_rct.Pagination.Limits.{
  effective_limit-suc, take_all, drop, take-plus, drop-plus, zero-times, suc-times, times-suc,
}
use seo_agent_rct.Pagination.{
  Query, effective_limit, effective_skip, paginate, get_paginated_response,
}

-- The pages of the response are enough.
pages-enough : (t s : ℕ) → t ≤ (t + suc s - 1) / suc s * suc s
pages-enough t s = omega arith

module _ {ℓ} {A : Type ℓ} where
  -- What the program relies on in the database.
  pub record IsTable (q : Query A) (rows : List A) : Type ℓ where
    pub offset_limit : (skip n : ℕ) → q.offset_limit skip n ≡ take n (drop skip rows)
    pub count : q.count ≡ length rows

  -- The items of `n` pages from page `k` on.
  unfoldable pub read_pages : Query A → ℤ → ℕ → (n k : ℕ) → List A
  read_pages q limit max_limit zero k = []
  read_pages q limit max_limit (suc n) k =
      (get_paginated_response q (pos (k * effective_limit limit max_limit)) limit max_limit).items
      ++ read_pages q limit max_limit n (suc k)

  read_pages-take :
      (q : Query A) (limit : ℤ) (max_limit : ℕ) (rows : List A) (n k : ℕ)
      → IsTable q rows
      → let size = effective_limit limit max_limit in
        read_pages q limit max_limit n k ≡ take (n * size) (drop (k * size) rows)
  unfolding read_pages get_paginated_response paginate effective_skip
  read_pages-take q limit max_limit rows zero k t =
      rw (zero-times (effective_limit limit max_limit)) refl
  read_pages-take q limit max_limit rows (suc n) k t =
      let size = effective_limit limit max_limit in
      let rest = read_pages-take q limit max_limit rows n (suc k) t in
      rw
        (
          suc-times n size,
          take-plus size (n * size) (drop (k * size) rows),
          t.offset_limit (k * size) size,
          rest,
          times-suc k size,
        )
        (ap (λ r. take size (drop (k * size) rows) ++ take (n * size) r)
          (sym (drop-plus (k * size) size rows)))

  -- If the database answers from the rows of a table, then the items of the pages 0, 1, … up to the
  -- number `pages` of the response are all rows of the table, each once and in order.
  pub read_pages-all :
      (q : Query A) (limit skip : ℤ) (max_limit : ℕ) (rows : List A)
      → IsTable q rows
      → read_pages q limit max_limit (get_paginated_response q skip limit max_limit).pages 0 ≡ rows
  unfolding get_paginated_response
  read_pages-all q limit skip max_limit rows t =
      let size = effective_limit limit max_limit in
      let (m, l) = effective_limit-suc limit max_limit in
      let pages = (get_paginated_response q skip limit max_limit).pages in
      let enough : length rows ≤ pages * size =
        rw (t.count, l, lt→ltb 0 (suc m) (omega arith)) (pages-enough (length rows) m) in
      read_pages-take q limit max_limit rows pages 0 t
      ∙ rw (zero-times size) (take_all (pages * size) rows enough)
