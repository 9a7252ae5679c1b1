-- ===== src/Dict/Everywhere.antt =====
-- A property of all the entries of a dictionary.
use seo_agent_rct.Prelude.{◌≡◌, some, [], arith, Key}
use mathlib.Core.Path.{subst₂}
use seo_agent_rct.Dict.{Dict, get, put, remove}
use seo_agent_rct.Dict.Laws.{get-put, get-remove}

module _ {ℓ} {K V : Type ℓ} ⦃e : Key K⦄ (P : K → V → Type ℓ) where
  abbrev pub Everywhere : Dict K V → Type ℓ
  Everywhere d = (k : K) (v : V) → get d k ≡ some v → P k v

module _ {ℓ} {K V : Type ℓ} ⦃e : Key K⦄ (P : K → V → Type ℓ) where
  pub Everywhere-empty : Everywhere P []
  unfolding get
  Everywhere-empty k v h = cc

  put_at :
      (d : Dict K V) (k : K) (v : V) (j : K) (w : V)
      → Dec (k ≡ j)
      → P k v
      → Everywhere P d
      → get (put d k v) j ≡ some w
      → P j w
  put_at d k v j w (yes p) h all g =
      let same : v ≡ w = ground (arith, get-put d k j v) in subst₂ P p same h
  put_at d k v j w (no n) h all g = all j w (ground (arith, get-put d k j v))

  pub Everywhere-put :
      (d : Dict K V) (k : K) (v : V) → Everywhere P d → P k v → Everywhere P (put d k v)
  Everywhere-put d k v all h = λ j w g. put_at d k v j w (e.dec k j) h all g

  pub Everywhere-remove : (d : Dict K V) (k : K) → Everywhere P d → Everywhere P (remove d k)
  Everywhere-remove d k all = λ j w g. all j w (ground (arith, get-remove d k j))
