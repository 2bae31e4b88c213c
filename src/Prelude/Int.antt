-- ===== src/Prelude/Int.antt =====
-- Signed integers over the native numbers; `negsuc n` is -(n + 1).
use Prim.Native.Nat.{ℕ}
use mathlib.Core.Bool.{Bool, true}
use plsf.Prelude.Tests.{leb}

pub data ℤ : Type 0 where
  pos : ℕ → ℤ
  negsuc : ℕ → ℤ

-- `a <= b` for a number `b` that is not negative.
abbrev pub leb_pos : ℤ → ℕ → Bool
leb_pos (pos a) b = leb a b
leb_pos (negsuc _) b = true
