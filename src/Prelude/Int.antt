-- ===== src/Prelude/Int.antt =====
-- Go's int as a mathematical integer over the native numbers, as far as the rings use it.
use Prim.Native.Nat.{ℕ, ◌+◌, ◌-◌}

-- `negsuc n` is -(n + 1).
pub data ℤ : Type 0 where
  pos : ℕ → ℤ
  negsuc : ℕ → ℤ

-- `n + step`, or 0 where that is negative.
abbrev pub add_clamped : ℕ → ℤ → ℕ
add_clamped n (pos k) = n + k
add_clamped n (negsuc k) = n - (k + 1)
