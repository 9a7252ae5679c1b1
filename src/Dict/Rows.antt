-- ===== src/Dict/Rows.antt =====
-- Queries on a table of rows by id: the first row that fits, and the rows that fit.
use seo_agent_rct.Prelude.{
  ◌≡◌, refl, Bool, true, false, Option, none, some, [], ◌∷◌, if◌then◌else◌, arith, Key, Bool-cases,
  inl, inr,
}
use seo_agent_rct.Dict.{Dict, get}
use seo_agent_rct.Dict.Laws.{Distinct}

module _ {ℓ} {K V : Type ℓ} where
  -- `select(…).where(p)` and `first()`
  unfoldable pub find_row : (K → V → Bool) → Dict K V → Option (K × V)
  find_row p [] = none
  find_row p ((k, v) ∷ d) = let rest = find_row p d in if p k v then some (k, v) else rest

  -- `select(…).where(p)` and `all()`
  unfoldable pub keep_rows : (K → V → Bool) → Dict K V → Dict K V
  keep_rows p [] = []
  keep_rows p ((k, v) ∷ d) = let rest = keep_rows p d in if p k v then (k, v) ∷ rest else rest

module _ {ℓ} {K V : Type ℓ} ⦃e : Key K⦄ (p : K → V → Bool) where
  pub find_row-none :
      (d : Dict K V) (k : K) (v : V) → find_row p d ≡ none → get d k ≡ some v → p k v ≡ false
  unfolding find_row get
  find_row-none [] k v h g = cc
  find_row-none ((j, w) ∷ d) k v h g = elim (Bool-cases (p j w)) [
    | inl t ↦ ground arith
    | inr f ↦ elim (e.dec j k) [
      | yes same ↦ ground arith
      | no other ↦ find_row-none d k v (ground arith) (ground arith)
    ]
  ]

  pub find_row-fits : (d : Dict K V) (k : K) (v : V) → find_row p d ≡ some (k, v) → p k v ≡ true
  unfolding find_row
  find_row-fits [] k v h = cc
  find_row-fits ((j, w) ∷ d) k v h = elim (Bool-cases (p j w)) [
    | inl t ↦ ground arith
    | inr f ↦ find_row-fits d k v (ground arith)
  ]

  pub find_row-get :
      (d : Dict K V) (k : K) (v : V) → Distinct d → find_row p d ≡ some (k, v) → get d k ≡ some v
  unfolding find_row get
  find_row-get [] k v u h = cc
  find_row-get ((j, w) ∷ d) k v u h = elim (Bool-cases (p j w)) [
    | inl t ↦ ground arith
    | inr f ↦ ground (arith, find_row-get d k v)
  ]

  pub get-keep_rows-none : (d : Dict K V) (k : K) → get d k ≡ none → get (keep_rows p d) k ≡ none
  unfolding keep_rows get
  get-keep_rows-none [] k g = refl
  get-keep_rows-none ((j, w) ∷ d) k g = ground (arith, get-keep_rows-none d k)

  -- Reading a key of the rows that fit.
  pub get-keep_rows :
      (d : Dict K V) (k : K) (v : V)
      → Distinct d
      → get (keep_rows p d) k ≡ some v
      → (get d k ≡ some v) × (p k v ≡ true)
  unfolding keep_rows get
  get-keep_rows [] k v u g = cc
  get-keep_rows ((j, w) ∷ d) k v u g = ground (arith, get-keep_rows d k v, get-keep_rows-none d j)

  pub get-keep_rows_fits :
      (d : Dict K V) (k : K) (v : V)
      → get d k ≡ some v
      → p k v ≡ true
      → get (keep_rows p d) k ≡ some v
  unfolding keep_rows get
  get-keep_rows_fits [] k v g t = cc
  get-keep_rows_fits ((j, w) ∷ d) k v g t = ground (arith, get-keep_rows_fits d k v)

  pub Distinct-keep_rows : (d : Dict K V) → Distinct d → Distinct (keep_rows p d)
  unfolding keep_rows
  Distinct-keep_rows [] u = u
  Distinct-keep_rows ((j, w) ∷ d) u = ground (arith, Distinct-keep_rows d, get-keep_rows-none d j)
