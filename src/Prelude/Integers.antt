-- ===== src/Prelude/Integers.antt =====
-- The integers over the native numbers, for differences that may be negative.
use Prim.Native.Nat.{ℕ, ◌-◌}
use live_system_intelligence.Prelude.Tests.{leb, if◌then◌else◌}

pub data ℤ : Type 0 where
  pos negsuc : ℕ → ℤ

-- `a - b`
abbrev pub difference : ℕ → ℕ → ℤ
difference a b = if leb b a then pos (a - b) else negsuc (b - a - 1)
