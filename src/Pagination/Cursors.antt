-- ===== src/Pagination/Cursors.antt =====
-- Following the cursors of `cursor_paginate`.
use seo_agent_rct.Prelude.{
  ℕ, zero, suc, ◌+◌, ◌≤◌, ◌<◌, ◌≡◌, ◌⊎◌, inl, inr, refl, sym, ◌∙◌, ap, ℤ, Bool, true, false, Option,
  none, some, List, [], ◌∷◌, ◌++◌, length, take, keep, All, ltb, ◌>>=◌, arith, Bool-cases, subst,
}
use mathlib.Core.List.{append_assoc}
use seo_agent_rct.Text.{Text, is_empty}
use seo_agent_rct.Pagination.Limits.{effective_limit-suc, length-take-le, take-take, take_all}
use seo_agent_rct.Pagination.{
  Order, asc, desc, CursorLib, int_value, Query, Page, last, effective_limit, encode_cursor,
  decode_value, fetch, page_of, cursor_paginate,
}

-- What the program relies on in the standard library: a cursor reads back, and is not empty.
pub record IsCodec (lib : CursorLib) : Type 0 where
  pub reads_base64 : (s : Text) → lib.b64decode (lib.b64encode s) ≡ some s
  pub reads_int : (n : ℕ) → lib.int (lib.str n) ≡ some n
  pub not_empty : (n : ℕ) → is_empty (lib.b64encode (lib.str n)) ≡ false

-- `column > v` or `column < v`
abbrev pub beyond : Order → ℕ → ℕ → Bool
beyond asc v n = ltb v n
beyond desc v n = ltb n v

beyond_not : (order : Order) (v : ℕ) → beyond order v v ≡ false
beyond_not asc v = ground arith
beyond_not desc v = ground arith

beyond_back : (order : Order) (v w : ℕ) → beyond order v w ≡ true → beyond order w v ≡ false
beyond_back asc v w h = ground arith
beyond_back desc v w h = ground arith

module _ {ℓ} {A : Type ℓ} where
  -- A full page: its last row, and the rows after it.
  take-split :
      (n : ℕ) (xs : List A)
      → n < length xs
      → (us : List A) × (y : A) × (zs : List A) × (take (suc n) xs ≡ us ++ (y ∷ []))
        × (xs ≡ us ++ (y ∷ zs))
        × (last (take (suc n) xs) ≡ some y)
        × (length zs + suc n ≡ length xs)
  unfolding last
  take-split n [] h = ground arith
  take-split zero (x ∷ xs) h = ([], x, xs, refl, refl, refl, omega arith)
  take-split (suc n) (x ∷ []) h = ground arith
  take-split (suc n) (x ∷ w ∷ xs) h =
      let (us, y, zs, t, s, l, c) = take-split n (w ∷ xs) (omega (arith, h)) in
      (x ∷ us, y, zs, ap (λ r. x ∷ r) t, ap (λ r. x ∷ r) s, l, omega (arith, c))

module _ {ℓ} {A : Type ℓ} (column : A → ℕ) (order : Order) where
  -- Each row stands strictly beyond the ones before it: no value of the column occurs twice.
  abbrev pub IsOrdered : List A → Type 0
  IsOrdered [] = Unit
  IsOrdered (x ∷ xs) = All (λ y. beyond order (column x) (column y) ≡ true) xs × IsOrdered xs

  keep-after :
      (v : ℕ) (xs : List A)
      → All (λ y. beyond order v (column y) ≡ true) xs
      → keep (λ y. beyond order v (column y)) xs ≡ xs
  keep-after v [] h = refl
  keep-after v (x ∷ xs) h = rw (h.0, keep-after v xs h.1) refl

  All-middle : (P : A → Type 0) (us : List A) (y : A) (zs : List A) → All P (us ++ (y ∷ zs)) → P y
  All-middle P [] y zs h = h.0
  All-middle P (u ∷ us) y zs h = All-middle P us y zs h.1

  -- The rows beyond the value of a row are those after it.
  keep-beyond :
      (us : List A) (y : A) (zs : List A)
      → IsOrdered (us ++ (y ∷ zs))
      → keep (λ x. beyond order (column y) (column x)) (us ++ (y ∷ zs)) ≡ zs
  keep-beyond [] y zs h = rw (beyond_not order (column y)) (keep-after (column y) zs h.0)
  keep-beyond (u ∷ us) y zs h =
      rw (beyond_back order (column u) (column y) (All-middle _ us y zs h.0))
        (keep-beyond us y zs h.1)

-- What the program relies on in the database: it lists the rows in the strict order of the column.
pub record IsListing {ℓ} {A : Type ℓ} (q : Query A) (column : A → ℕ) (order : Order) (rows : List A)
    : Type ℓ where
  pub ordered : IsOrdered column order rows
  pub first : (n : ℕ) → q.first order n ≡ take n rows
  pub first_beyond :
      (v n : ℕ)
      → q.first_beyond order (int_value v) n ≡ take n (keep (λ x. beyond order v (column x)) rows)

-- The page that the rows `zs` from here on make: a full one with more to come, or the last one.
pub record FullPage {ℓ} {A : Type ℓ} (lib : CursorLib) (column : A → ℕ) (size : ℕ) (zs : List A)
    (o : Option (Page A)) : Type ℓ where
  pub earlier : List A
  pub end : A
  pub later : List A
  pub parts : zs ≡ earlier ++ (end ∷ later)
  pub count : length later + size ≡ length zs
  pub page :
      o
      ≡ some (record {
        items = earlier ++ (end ∷ []);
        next_cursor = some (encode_cursor lib (column end));
        has_more = true;
      })

module _ {ℓ} {A : Type ℓ} (lib : CursorLib) (column : A → ℕ) where
  page_of-cases :
      (m : ℕ) (zs : List A)
      → FullPage lib column (suc m) zs (page_of lib column (suc m) (take (suc (suc m)) zs))
        ⊎ (length zs ≤ suc m)
          × (page_of lib column (suc m) (take (suc (suc m)) zs)
              ≡ some (record { items = zs; next_cursor = none; has_more = false }))
  unfolding page_of
  page_of-cases m zs =
      let long = length-take-le (suc (suc m)) zs in
      elim (Bool-cases (ltb (suc m) (length (take (suc (suc m)) zs)))) [
        | inl e ↦
            let (us, y, ws, t, s, l, c) = take-split m zs (ground arith) in
            inl (record {
              earlier = us;
              end = y;
              later = ws;
              parts = s;
              count = c;
              page = rw (e, take-take (suc m) zs, l, t) refl;
            })
        | inr e ↦
            inr (ground arith, rw (e, take_all (suc (suc m)) zs (ground (arith, e, long))) refl)
      ]

module _ {ℓ} {A : Type ℓ} (lib : CursorLib) (codec : IsCodec lib) (q : Query A) (column : A → ℕ)
    (order : Order) where
  -- Reading all pages, from a cursor on; `none` where the fuel runs out or a cursor is bad.
  unfoldable pub follow_cursors : ℤ → ℕ → ℕ → Option Text → Option (List A)
  follow_cursors limit max_limit zero cursor = none
  follow_cursors limit max_limit (suc fuel) cursor = do
    page ← cursor_paginate lib q column cursor limit max_limit order
    elim page.next_cursor [
      | none ↦ some page.items
      | some next ↦ do
        rest ← follow_cursors limit max_limit fuel (some next)
        some (page.items ++ rest)
    ]

  fetch-after :
      (rows us : List A) (y : A) (zs : List A) (n : ℕ)
      → IsListing q column order rows
      → rows ≡ us ++ (y ∷ zs)
      → fetch lib q order (some (encode_cursor lib (column y))) n ≡ some (take n zs)
  unfolding fetch encode_cursor decode_value
  fetch-after rows us y zs n w e =
      let beyonds = keep-beyond column order us y zs (subst (IsOrdered column order) e w.ordered) in
      rw
        (
          codec.not_empty (column y),
          codec.reads_base64 (lib.str (column y)),
          codec.reads_int (column y),
          w.first_beyond (column y) n,
          e,
          beyonds,
        )
        refl

  cursor_paginate_fetched :
      (limit : ℤ) (max_limit m : ℕ) (zs : List A) (cursor : Option Text)
      → effective_limit limit max_limit ≡ suc m
      → ((n : ℕ) → fetch lib q order cursor n ≡ some (take n zs))
      → cursor_paginate lib q column cursor limit max_limit order
        ≡ page_of lib column (suc m) (take (suc (suc m)) zs)
  unfolding cursor_paginate
  cursor_paginate_fetched limit max_limit m zs cursor l a =
      let plus : suc m + 1 ≡ suc (suc m) = omega arith in rw (l, plus, a (suc (suc m))) refl

  follow_cursors-from :
      (limit : ℤ) (max_limit m fuel : ℕ) (rows us zs : List A) (cursor : Option Text)
      → effective_limit limit max_limit ≡ suc m
      → IsListing q column order rows
      → rows ≡ us ++ zs
      → ((n : ℕ) → fetch lib q order cursor n ≡ some (take n zs))
      → length zs < fuel
      → follow_cursors limit max_limit fuel cursor ≡ some zs
  unfolding follow_cursors
  follow_cursors-from limit max_limit m zero rows us zs cursor l w e a f = ground arith
  follow_cursors-from limit max_limit m (suc fuel) rows us zs cursor l w e a f =
      let fetched = cursor_paginate_fetched limit max_limit m zs cursor l a in
      elim (page_of-cases lib column m zs) [
        | inl p ↦
            let here : rows ≡ us ++ p.earlier ++ (p.end ∷ p.later) =
              e ∙ ap (λ r. us ++ r) p.parts ∙ sym (append_assoc us p.earlier (p.end ∷ p.later)) in
            let there : us ++ p.earlier ++ (p.end ∷ []) ++ p.later
                ≡ us ++ p.earlier ++ (p.end ∷ p.later) =
              append_assoc (us ++ p.earlier) (p.end ∷ []) p.later in
            let rest =
              follow_cursors-from limit max_limit m fuel rows (us ++ p.earlier ++ (p.end ∷ []))
                p.later (some (encode_cursor lib (column p.end))) l w (here ∙ sym there)
                (λ n. fetch-after rows (us ++ p.earlier) p.end p.later n w here)
                (omega (arith, f, p.count)) in
            rw (fetched, p.page, rest)
              (ap some (append_assoc p.earlier (p.end ∷ []) p.later ∙ sym p.parts))
        | inr (few, p) ↦ rw (fetched, p) refl
      ]

  -- If the database lists the rows in the strict order of the column, in either direction, and
  -- cursors read back as they were written, then following `next_cursor` from no cursor on, with
  -- more fuel than there are rows, ends and reads the whole listing, each row once and in order,
  -- whatever limits are asked for.
  pub follow_cursors-listing :
      (limit : ℤ) (max_limit fuel : ℕ) (rows : List A)
      → IsListing q column order rows
      → length rows < fuel
      → follow_cursors limit max_limit fuel none ≡ some rows
  unfolding fetch
  follow_cursors-listing limit max_limit fuel rows w f =
      let (m, l) = effective_limit-suc limit max_limit in
      follow_cursors-from limit max_limit m fuel rows [] rows none l w refl
        (λ n. ap some (w.first n)) f
