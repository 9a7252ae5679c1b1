-- ===== src/BrowserPool/Ids.antt =====
-- Lists of ids: sorting by load, counting, and taking one away.
use seo_agent_rct.Prelude.{
  ℕ, suc, ◌-◌, ◌≤◌, ◌≡◌, inl, inr, refl, ◌∙◌, ap, List, [], ◌∷◌, ◌==◌, length, All, arith,
  if◌then◌else◌, Bool-cases,
}
use seo_agent_rct.BrowserPool.{PooledBrowser, insert_by_load, sort_by_load, remove_one, count}

module _ (objects : ℕ → PooledBrowser) where
  insert_by_load-known :
      (n x : ℕ) (ys : List ℕ)
      → x ≤ n
      → All (λ id. id ≤ n) ys
      → All (λ id. id ≤ n) (insert_by_load objects x ys)
  unfolding insert_by_load
  insert_by_load-known n x [] h k = (h, tt)
  insert_by_load-known n x (y ∷ ys) h k = ground (arith, insert_by_load-known n x ys)

  pub sort_by_load-known :
      (n : ℕ) (xs : List ℕ) → All (λ id. id ≤ n) xs → All (λ id. id ≤ n) (sort_by_load objects xs)
  unfolding sort_by_load
  sort_by_load-known n [] k = tt
  sort_by_load-known n (x ∷ xs) k =
      insert_by_load-known n x (sort_by_load objects xs) k.0 (sort_by_load-known n xs k.1)

  length-insert_by_load :
      (x : ℕ) (ys : List ℕ) → length (insert_by_load objects x ys) ≡ suc (length ys)
  unfolding insert_by_load
  length-insert_by_load x [] = refl
  length-insert_by_load x (y ∷ ys) = ground (arith, length-insert_by_load x ys)

  pub length-sort_by_load : (xs : List ℕ) → length (sort_by_load objects xs) ≡ length xs
  unfolding sort_by_load
  length-sort_by_load [] = refl
  length-sort_by_load (x ∷ xs) =
      length-insert_by_load x (sort_by_load objects xs) ∙ ap suc (length-sort_by_load xs)

-- An id beyond the known ones has no context.
pub count_unknown : (n id : ℕ) (xs : List ℕ) → suc n ≤ id → All (λ x. x ≤ n) xs → count id xs ≡ 0
unfolding count
count_unknown n id [] h k = refl
count_unknown n id (x ∷ xs) h k = ground (arith, count_unknown n id xs)

pub count-remove_one :
    (id k : ℕ) (xs : List ℕ)
    → count k (remove_one id xs) ≡ (if id == k then count k xs - 1 else count k xs)
unfolding count remove_one
count-remove_one id k [] = ground arith
count-remove_one id k (x ∷ xs) = ground (arith, count-remove_one id k xs)

pub length-remove_one :
    (id : ℕ) (xs : List ℕ) → 1 ≤ count id xs → suc (length (remove_one id xs)) ≡ length xs
unfolding count remove_one
length-remove_one id [] h = ground arith
length-remove_one id (x ∷ xs) h = ground (arith, length-remove_one id xs)

pub remove_one-All : (P : ℕ → Type 0) (id : ℕ) (xs : List ℕ) → All P xs → All P (remove_one id xs)
unfolding remove_one
remove_one-All P id [] h = tt
remove_one-All P id (x ∷ xs) h = elim (Bool-cases (x == id)) [
  | inl e ↦ rw (remove_one, e) h.1
  | inr e ↦ rw (remove_one, e) (h.0, remove_one-All P id xs h.1)
]
