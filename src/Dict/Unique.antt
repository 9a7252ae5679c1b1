-- ===== src/Dict/Unique.antt =====
-- Tables in which no two rows are alike, for a relation of rows such as an equal value of a column.
use seo_agent_rct.Prelude.{◌≡◌, ◌≢◌, sym, ◌∙◌, some, subst, arith, Key}
use seo_agent_rct.Dict.{Dict, get, put, remove}
use seo_agent_rct.Dict.Laws.{get-put, get-remove}

module _ {ℓ} {K V : Type ℓ} ⦃e : Key K⦄ (R : V → V → Type ℓ) where
  abbrev pub Unique : Dict K V → Type ℓ
  Unique d = (i j : K) (v w : V) → get d i ≡ some v → get d j ≡ some w → R v w → i ≡ j

  -- A table whose rows all stand in another one.
  pub Unique-sub :
      (d d' : Dict K V)
      → ((k : K) (v : V) → get d' k ≡ some v → get d k ≡ some v)
      → Unique d
      → Unique d'
  Unique-sub d d' sub u i j v w g h r = u i j v w (sub i v g) (sub j w h) r

  pub get-remove_sub :
      (d : Dict K V) (k j : K) (v : V) → get (remove d k) j ≡ some v → get d j ≡ some v
  get-remove_sub d k j v g = ground (arith, get-remove d k j)

  put_rows :
      (d : Dict K V) (k : K) (x : V) (i j : K) (v w : V)
      → Dec (k ≡ i)
      → Dec (k ≡ j)
      → ((a b : V) → R a b → R b a)
      → ((m : K) (y : V) → k ≢ m → get d m ≡ some y → ¬ R x y)
      → Unique d
      → get (put d k x) i ≡ some v
      → get (put d k x) j ≡ some w
      → R v w
      → i ≡ j
  put_rows d k x i j v w (yes p) (yes q) swap free u g h r = sym p ∙ q
  put_rows d k x i j v w (no p) (no q) swap free u g h r =
      u i j v w (ground (arith, get-put d k i x)) (ground (arith, get-put d k j x)) r
  put_rows d k x i j v w (yes p) (no q) swap free u g h r =
      let same : v ≡ x = ground (arith, get-put d k i x) in
      let old : get d j ≡ some w = ground (arith, get-put d k j x) in
      elim (free j w q old (subst (λ z. R z w) same r)) [ ]
  put_rows d k x i j v w (no p) (yes q) swap free u g h r =
      let same : w ≡ x = ground (arith, get-put d k j x) in
      let old : get d i ≡ some v = ground (arith, get-put d k i x) in
      elim (free i v p old (subst (λ z. R z v) same (swap v w r))) [ ]

  pub Unique-put :
      (d : Dict K V) (k : K) (x : V)
      → ((a b : V) → R a b → R b a)
      → ((m : K) (y : V) → k ≢ m → get d m ≡ some y → ¬ R x y)
      → Unique d
      → Unique (put d k x)
  Unique-put d k x swap free u i j v w g h r =
      put_rows d k x i j v w (e.dec k i) (e.dec k j) swap free u g h r
