-- ===== src/Prelude/Keys.antt =====
-- Keys of dictionaries: types with a decidable equality, as an interface.
use Prim.Native.Nat.{ℕ}
use Prim.Native.String.{String}
use native.Mathlib.Decide.{ℕ_discrete}
use mathlib.Core.Logic.{inl, inr}
use text.Mathlib.Text.{◌==◌ as str_eq}
use text.Mathlib.TextEquality.{eq_iff}
use seo_agent_rct.Prelude.Tests.{Bool-cases}

pub record Key {ℓ} (K : Type ℓ) : Type ℓ where
  pub dec : Discrete K

unfoldable pub String_discrete : Discrete String
unfolding Bool-cases
String_discrete a b = elim (Bool-cases (str_eq a b)) [
  | inl e ↦ yes ((eq_iff a b).0 e)
  | inr e ↦ no (λ p. cc ((eq_iff a b).1 p))
]

instance abbrev pub nat_key : Key ℕ
nat_key = record { dec = ℕ_discrete }

instance abbrev pub string_key : Key String
string_key = record { dec = String_discrete }
