-- ===== src/Pagination/Limits.antt =====
-- The size of a page is positive, and laws of `take`, `drop` and the arithmetic of pages.
use seo_agent_rct.Prelude.{
  ℕ, zero, suc, ◌+◌, ◌-◌, ◌*◌, ◌≤◌, ◌≡◌, refl, ap, ℤ, pos, negsuc, max, min, List, [], ◌∷◌, ◌++◌,
  length, take, arith,
}
use seo_agent_rct.Pagination.{effective_limit}

pub effective_limit-suc :
    (limit : ℤ) (max_limit : ℕ) → (m : ℕ) × (effective_limit limit max_limit ≡ suc m)
unfolding effective_limit
effective_limit-suc (pos n) max_limit = (max 1 (min n max_limit) - 1, omega arith)
effective_limit-suc (negsuc n) max_limit = (0, refl)

suc-plus : (a b : ℕ) → suc a + b ≡ suc (a + b)
suc-plus a b = omega arith

zero-plus : (b : ℕ) → 0 + b ≡ b
zero-plus b = omega arith

pub zero-times : (b : ℕ) → 0 * b ≡ 0
zero-times b = omega arith

pub suc-times : (a b : ℕ) → suc a * b ≡ b + a * b
suc-times a b = omega arith

pub times-suc : (a b : ℕ) → suc a * b ≡ a * b + b
times-suc a b = omega arith

module _ {ℓ} {A : Type ℓ} where
  pub length-take-le : (n : ℕ) (xs : List A) → length (take n xs) ≡ min n (length xs)
  length-take-le zero xs = omega arith
  length-take-le (suc n) [] = omega arith
  length-take-le (suc n) (x ∷ xs) = omega (arith, length-take-le n xs)

  pub take-take : (n : ℕ) (xs : List A) → take n (take (suc n) xs) ≡ take n xs
  take-take zero xs = refl
  take-take (suc n) [] = refl
  take-take (suc n) (x ∷ xs) = ap (λ r. x ∷ r) (take-take n xs)

  pub take_all : (n : ℕ) (xs : List A) → length xs ≤ n → take n xs ≡ xs
  take_all zero [] h = refl
  take_all zero (x ∷ xs) h = ground arith
  take_all (suc n) [] h = refl
  take_all (suc n) (x ∷ xs) h = ap (λ r. x ∷ r) (take_all n xs (omega (arith, h)))

  abbrev pub drop : ℕ → List A → List A
  drop zero xs = xs
  drop (suc n) [] = []
  drop (suc n) (x ∷ xs) = drop n xs

  take-nil : (n : ℕ) → take {A = A} n [] ≡ []
  take-nil zero = refl
  take-nil (suc n) = refl

  drop-nil : (n : ℕ) → drop n [] ≡ []
  drop-nil zero = refl
  drop-nil (suc n) = refl

  pub take-plus : (a b : ℕ) (xs : List A) → take (a + b) xs ≡ take a xs ++ take b (drop a xs)
  take-plus zero b xs = rw (zero-plus b) refl
  take-plus (suc a) b [] = rw (suc-plus a b, take-nil b) refl
  take-plus (suc a) b (x ∷ xs) = rw (suc-plus a b) (ap (λ r. x ∷ r) (take-plus a b xs))

  pub drop-plus : (a b : ℕ) (xs : List A) → drop b (drop a xs) ≡ drop (a + b) xs
  drop-plus zero b xs = rw (zero-plus b) refl
  drop-plus (suc a) b [] = rw (suc-plus a b, drop-nil b) refl
  drop-plus (suc a) b (x ∷ xs) = rw (suc-plus a b) (drop-plus a b xs)
