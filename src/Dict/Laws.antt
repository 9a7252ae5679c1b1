-- ===== src/Dict/Laws.antt =====
-- The laws of dictionaries: what reading sees after a write or a removal, and the sizes.
use seo_agent_rct.Prelude.{
  suc, ◌≤◌, ◌≡◌, ◌≢◌, refl, none, some, [], ◌∷◌, Key, ite, arith, if◌then◌else◌, true, All,
  All-weaken,
}
use seo_agent_rct.Dict.{Dict, get, put, remove, contains, size}

module _ {ℓ} {K V : Type ℓ} ⦃e : Key K⦄ where
  pub get-put :
      (d : Dict K V) (k j : K) (v : V) → get (put d k v) j ≡ ite (e.dec k j) (some v) (get d j)
  unfolding get put
  get-put [] k j v = refl
  get-put ((i, w) ∷ d) k j v = ground (arith, get-put d k j v)

  pub get-remove : (d : Dict K V) (k j : K) → get (remove d k) j ≡ ite (e.dec k j) none (get d j)
  unfolding get remove
  get-remove [] k j = ground arith
  get-remove ((i, w) ∷ d) k j = ground (arith, get-remove d k j)

  pub get-put_self : (d : Dict K V) (k : K) (v : V) → get (put d k v) k ≡ some v
  get-put_self d k v = ground (arith, get-put d k k v)

  pub get-put_ne : (d : Dict K V) (k j : K) (v : V) → k ≢ j → get (put d k v) j ≡ get d j
  get-put_ne d k j v h = ground (arith, get-put d k j v)

  pub get-remove_self : (d : Dict K V) (k : K) → get (remove d k) k ≡ none
  get-remove_self d k = ground (arith, get-remove d k k)

  pub get-remove_ne : (d : Dict K V) (k j : K) → k ≢ j → get (remove d k) j ≡ get d j
  get-remove_ne d k j h = ground (arith, get-remove d k j)

  pub remove_absent : (d : Dict K V) (k : K) → get d k ≡ none → remove d k ≡ d
  unfolding get remove
  remove_absent [] k h = refl
  remove_absent ((i, w) ∷ d) k h = ground (arith, remove_absent d k)

  pub size-put :
      (d : Dict K V) (k : K) (v : V)
      → size (put d k v) ≡ (if contains d k then size d else suc (size d))
  unfolding get put
  size-put [] k v = refl
  size-put ((i, w) ∷ d) k v = ground (arith, size-put d k v)

  pub size-remove-le : (d : Dict K V) (k : K) → size (remove d k) ≤ size d
  unfolding remove
  size-remove-le [] k = omega arith
  size-remove-le ((i, w) ∷ d) k = ground (arith, size-remove-le d k)

  pub size-remove-lt :
      (d : Dict K V) (k : K) → contains d k ≡ true → suc (size (remove d k)) ≤ size d
  unfolding get remove
  size-remove-lt [] k h = ground arith
  size-remove-lt ((i, w) ∷ d) k h = ground (arith, size-remove-lt d k, size-remove-le d k)

  -- No key twice, as in every Python dictionary.
  abbrev pub Distinct : Dict K V → Type ℓ
  Distinct [] = Unit
  Distinct ((k, v) ∷ d) = (get d k ≡ none) × Distinct d

  pub Distinct-put : (d : Dict K V) (k : K) (v : V) → Distinct d → Distinct (put d k v)
  unfolding get put
  Distinct-put [] k v h = (refl, tt)
  Distinct-put ((i, w) ∷ d) k v h = ground (arith, Distinct-put d k v, get-put d k i v)

  pub Distinct-remove : (d : Dict K V) (k : K) → Distinct d → Distinct (remove d k)
  unfolding get remove
  Distinct-remove [] k h = h
  Distinct-remove ((i, w) ∷ d) k h = ground (arith, Distinct-remove d k, get-remove d k i)

  pub size-remove :
      (d : Dict K V) (k : K)
      → Distinct d
      → size d ≡ (if contains d k then suc (size (remove d k)) else size (remove d k))
  unfolding get remove
  size-remove [] k h = refl
  size-remove ((i, w) ∷ d) k h = ground (arith, size-remove d k, remove_absent d k)

  -- Every entry is what reading its key gives.
  pub All-entries : (d : Dict K V) → Distinct d → All (λ p. get d p.0 ≡ some p.1) d
  unfolding get
  All-entries [] h = tt
  All-entries ((i, w) ∷ d) h = (
    ground arith,
    All-weaken (λ p. get d p.0 ≡ some p.1) (λ p. get ((i, w) ∷ d) p.0 ≡ some p.1)
        (λ (j, v) g. ground arith) d (All-entries d h.1),
  )
