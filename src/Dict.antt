-- ===== src/Dict.antt =====
-- Python's `dict`: an association list in insertion order.
pub mod Laws
pub mod Everywhere
pub mod Rows
pub mod Unique
use seo_agent_rct.Prelude.{
  ℕ, Bool, Option, none, some, List, [], ◌∷◌, map, Key, ite, length, is_some,
}

abbrev pub Dict {ℓ} : Type ℓ → Type ℓ → Type ℓ
Dict K V = List (K × V)

module _ {ℓ} {K V : Type ℓ} ⦃e : Key K⦄ where
  -- `d.get(k)`
  unfoldable pub get : Dict K V → K → Option V
  get [] k = none
  get ((j, v) ∷ d) k = ite (e.dec j k) (some v) (get d k)

  -- `d[k] = v`: a key that is there keeps its place, a new one goes to the end.
  unfoldable pub put : Dict K V → K → V → Dict K V
  put [] k v = (k, v) ∷ []
  put ((j, w) ∷ d) k v = ite (e.dec j k) ((j, v) ∷ d) ((j, w) ∷ put d k v)

  -- `d.pop(k, None)`, `del d[k]`
  unfoldable pub remove : Dict K V → K → Dict K V
  remove [] k = []
  remove ((j, v) ∷ d) k = let rest = remove d k in ite (e.dec j k) rest ((j, v) ∷ rest)

  -- `k in d`
  abbrev pub contains : Dict K V → K → Bool
  contains d k = is_some (get d k)

module _ {ℓ} {K V : Type ℓ} where
  -- `d.values()`
  abbrev pub values : Dict K V → List V
  values d = map (λ p. p.1) d

  -- `len(d)`
  abbrev pub size : Dict K V → ℕ
  size = length
