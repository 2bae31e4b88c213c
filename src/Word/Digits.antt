-- ===== src/Word/Digits.antt =====
-- `bit_or` and `bit_and` by their lowest digit.
use Prim.Native.Nat.{digits, bitwise, bit_and-bitwise, bit_or-bitwise}
use plsf.Prelude.{
  ℕ, zero, suc, ◌+◌, ◌*◌, ◌/◌, ◌%◌, ◌≤◌, min, max, bit_and, bit_or, ◌≡◌, refl, arith,
}

-- The count of digits to go does not matter once it covers the first number.
module _ (rest : ℕ → ℕ) (join : ℕ → ℕ → ℕ) where
  enough_digits : (k l a b : ℕ) → a ≤ k → a ≤ l → digits rest join k a b ≡ digits rest join l a b
  enough_digits zero l (suc a) b p q = absurd (omega arith)
  enough_digits (suc k) zero (suc a) b p q = absurd (omega arith)
  enough_digits (suc k) (suc l) (suc a) b p q =
      omega (arith, enough_digits k l (suc a / 2) (b / 2) (omega arith) (omega arith))
  enough_digits zero zero zero b p q = refl
  enough_digits zero (suc l) zero b p q = refl
  enough_digits (suc k) zero zero b p q = refl
  enough_digits (suc k) (suc l) zero b p q = refl

  lowest_digit :
      (n a b : ℕ)
      → a ≡ suc n
      → bitwise rest join a b ≡ bitwise rest join (a / 2) (b / 2) * 2 + join (a % 2) (b % 2)
  lowest_digit n zero b e = absurd (omega arith)
  lowest_digit n (suc a) b e =
      omega (arith, enough_digits a (suc a / 2) (suc a / 2) (b / 2) (omega arith) (omega arith))

pub bit_or_digit : (a b : ℕ) → bit_or a b ≡ bit_or (a / 2) (b / 2) * 2 + max (a % 2) (b % 2)
bit_or_digit zero b = simp bit_or-bitwise (omega arith)
bit_or_digit (suc a) b = simp bit_or-bitwise (lowest_digit (λ y. y) max a (suc a) b refl)

pub bit_and_digit : (a b : ℕ) → bit_and a b ≡ bit_and (a / 2) (b / 2) * 2 + min (a % 2) (b % 2)
bit_and_digit zero b = simp bit_and-bitwise (omega arith)
bit_and_digit (suc a) b = simp bit_and-bitwise (lowest_digit (λ y. 0) min a (suc a) b refl)
