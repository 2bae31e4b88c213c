-- ===== src/Prelude/Arrays.antt =====
-- An array of cells as a function of the index, with a write to one cell.
use Prim.Native.Nat.{ℕ}
use mathlib.Core.Path.{◌≡◌}
use mathlib.Core.Logic.{◌≢◌}
use native.Mathlib.Omega.{arith}
use plsf.Prelude.Tests.{◌==◌, if◌then◌else◌}

module _ {ℓ} {A : Type ℓ} where
  unfoldable pub update : (ℕ → A) → ℕ → A → ℕ → A
  update f i a j = if i == j then a else f j

  pub update_lem :
      (f : ℕ → A) (i : ℕ) (a : A) (j : ℕ) → update f i a j ≡ (if i == j then a else f j)
  unfolding update
  update_lem f i a j = ground arith

  pub update_self : (f : ℕ → A) (i : ℕ) (a : A) → update f i a i ≡ a
  unfolding update
  update_self f i a = ground arith

  pub update_ne : (f : ℕ → A) (i : ℕ) (a : A) (j : ℕ) → i ≢ j → update f i a j ≡ f j
  unfolding update
  update_ne f i a j h = ground arith
