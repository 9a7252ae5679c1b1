-- ===== src/Prelude/Int.antt =====
-- Python's integers.
use Prim.Native.Nat.{ℕ, ◌-◌, min}
use seo_agent_rct.Prelude.Tests.{leb, if◌then◌else◌}

-- `negsuc n` is -(n + 1).
pub data ℤ : Type 0 where
  pos : ℕ → ℤ
  negsuc : ℕ → ℤ

-- `max(0, min(top, n))`
abbrev pub clamp : ℕ → ℤ → ℕ
clamp top (pos n) = min top n
clamp top (negsuc n) = 0

-- `a - b`, of two numbers that are not negative
abbrev pub difference : ℕ → ℕ → ℤ
difference a b = if leb b a then pos (a - b) else negsuc (b - a - 1)
