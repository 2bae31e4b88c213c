-- ===== src/Word.antt =====
-- Bits of a word of memory, for stms/2PLSF.hpp: the laws of `|` and `&` with a mask of one bit.
pub mod Digits
pub mod Fields
use Digits.{bit_or_digit, bit_and_digit}
use native.Mathlib.Nat.{pow-suc, one-le-pow}
use plsf.Prelude.{
  ℕ, zero, suc, ◌+◌, ◌-◌, ◌*◌, ◌/◌, ◌%◌, ◌^◌, ◌≤◌, ◌<◌, bit_and, bit_or, ◌≡◌, ◌≢◌, refl, ap, arith,
  min, max, Bool, true, false, not, ◌==◌, if◌then◌else◌, ℕ_discrete, ◌∙◌, ==_of_ne,
}

pub two-pow_lt : (k w : ℕ) → k < w → 2 ^ k < 2 ^ w
two-pow_lt k zero h = absurd (omega arith)
two-pow_lt zero (suc w) h = omega (arith, pow-suc 2 w, one-le-pow w 2)
two-pow_lt (suc k) (suc w) h = omega (arith, pow-suc 2 w, pow-suc 2 k, two-pow_lt k w (omega arith))

-- Bit `k` of `x`, counted from the lowest.
unfoldable pub bit : ℕ → ℕ → ℕ
bit zero x = x % 2
bit (suc k) x = bit k (x / 2)

-- `~m` of a word of `w` bits.
abbrev pub not_word : ℕ → ℕ → ℕ
not_word w m = 2 ^ w - 1 - m

pub bit-le-one : (k x : ℕ) → bit k x ≤ 1
unfolding bit
bit-le-one zero x = omega arith
bit-le-one (suc k) x = bit-le-one k (x / 2)

pub bit-zero : (k : ℕ) → bit k 0 ≡ 0
unfolding bit
bit-zero zero = refl
bit-zero (suc k) = bit-zero k

two-pow_half : (k : ℕ) → (2 ^ suc k / 2 ≡ 2 ^ k) × (2 ^ suc k % 2 ≡ 0)
two-pow_half k = omega (arith, pow-suc 2 k)

bit_or_half :
    (x y : ℕ) → (bit_or x y / 2 ≡ bit_or (x / 2) (y / 2)) × (bit_or x y % 2 ≡ max (x % 2) (y % 2))
bit_or_half x y = omega (arith, bit_or_digit x y)

bit_and_half :
    (x y : ℕ)
    → (bit_and x y / 2 ≡ bit_and (x / 2) (y / 2)) × (bit_and x y % 2 ≡ min (x % 2) (y % 2))
bit_and_half x y = omega (arith, bit_and_digit x y)

-- Each bit of `x | y` and of `x & y`.
bit-bit_or : (k x y : ℕ) → bit k (bit_or x y) ≡ max (bit k x) (bit k y)
unfolding bit
bit-bit_or zero x y = (bit_or_half x y).1
bit-bit_or (suc k) x y = rw ((bit_or_half x y).0) (bit-bit_or k (x / 2) (y / 2))

pub bit-bit_and : (k x y : ℕ) → bit k (bit_and x y) ≡ min (bit k x) (bit k y)
unfolding bit
bit-bit_and zero x y = (bit_and_half x y).1
bit-bit_and (suc k) x y = rw ((bit_and_half x y).0) (bit-bit_and k (x / 2) (y / 2))

pub bit-two-pow_self : (k : ℕ) → bit k (2 ^ k) ≡ 1
unfolding bit
bit-two-pow_self zero = refl
bit-two-pow_self (suc k) = rw ((two-pow_half k).0) (bit-two-pow_self k)

pub bit-two-pow_ne : (j k : ℕ) → j ≢ k → bit j (2 ^ k) ≡ 0
unfolding bit
bit-two-pow_ne zero zero h = absurd (h refl)
bit-two-pow_ne zero (suc k) h = (two-pow_half k).1
bit-two-pow_ne (suc j) zero h = bit-zero j
bit-two-pow_ne (suc j) (suc k) h = rw ((two-pow_half k).0) (bit-two-pow_ne j k (λ e. h (ap suc e)))

not_word_half :
    (w m : ℕ)
    → m < 2 ^ suc w
    → (not_word (suc w) m / 2 ≡ not_word w (m / 2)) × (not_word (suc w) m % 2 ≡ 1 - m % 2)
not_word_half w m h = omega (arith, pow-suc 2 w)

pub bit-not_word : (j w m : ℕ) → j < w → m < 2 ^ w → bit j (not_word w m) ≡ 1 - bit j m
unfolding bit
bit-not_word j zero m p q = absurd (omega arith)
bit-not_word zero (suc w) m p q = (not_word_half w m q).1
bit-not_word (suc j) (suc w) m p q =
    rw ((not_word_half w m q).0)
      (bit-not_word j w (m / 2) (omega arith) (omega (arith, pow-suc 2 w)))

bit_or-nothing : (k x : ℕ) → x ≤ k → bit_or x 0 ≡ x
bit_or-nothing k zero h = refl
bit_or-nothing zero (suc x) h = absurd (omega arith)
bit_or-nothing (suc k) (suc x) h =
    omega (arith, bit_or_digit (suc x) 0, bit_or-nothing k (suc x / 2) (omega arith))

pub bit_and-nothing : (k x : ℕ) → x ≤ k → bit_and x 0 ≡ 0
bit_and-nothing k zero h = refl
bit_and-nothing zero (suc x) h = absurd (omega arith)
bit_and-nothing (suc k) (suc x) h =
    omega (arith, bit_and_digit (suc x) 0, bit_and-nothing k (suc x / 2) (omega arith))

-- `x | (1 << k)`, where the bit is set already.
pub bit_or_of_bit : (k x : ℕ) → bit k x ≡ 1 → bit_or x (2 ^ k) ≡ x
unfolding bit
bit_or_of_bit zero x h = omega (arith, bit_or_digit x 1, bit_or-nothing (x / 2) (x / 2))
bit_or_of_bit (suc k) x h = omega (
  arith,
  bit_or_digit x (2 ^ suc k),
  two-pow_half k,
  bit_or_of_bit k (x / 2) h,
  ap (λ t. bit_or (x / 2) t) ((two-pow_half k).0),
)

-- `x & (1 << k)` tests bit `k`.
pub bit_and_two-pow : (k x : ℕ) → bit_and x (2 ^ k) ≡ bit k x * 2 ^ k
unfolding bit
bit_and_two-pow zero x = omega (arith, bit_and_digit x 1, bit_and-nothing (x / 2) (x / 2))
bit_and_two-pow (suc k) x =
    bit_and_digit x (2 ^ suc k)
    ∙ omega (
      arith,
      two-pow_half k,
      pow-suc 2 k,
      bit_and_two-pow k (x / 2),
      ap (λ t. bit_and (x / 2) t) ((two-pow_half k).0),
      ap (λ (t : ℕ). bit k (x / 2) * t) (pow-suc 2 k),
    )

-- Whether bit `k` of `x` is set.
unfoldable pub has_bit : ℕ → ℕ → Bool
has_bit k x = bit k x == 1

pub has_bit-bit_or :
    (j k x : ℕ) → has_bit j (bit_or x (2 ^ k)) ≡ (if j == k then true else has_bit j x)
unfolding has_bit
has_bit-bit_or j k x = elim (ℕ_discrete j k) [
  | yes e ↦ rw e (ground (arith, bit-bit_or k x (2 ^ k), bit-two-pow_self k, bit-le-one k x))
  | no h ↦ ground (arith, bit-bit_or j x (2 ^ k), bit-two-pow_ne j k h, bit-le-one j x)
]

pub has_bit-clear :
    (w j k x : ℕ)
    → j < w
    → k < w
    → has_bit j (bit_and x (not_word w (2 ^ k))) ≡ (if j == k then false else has_bit j x)
unfolding has_bit
has_bit-clear w j k x p q = elim (ℕ_discrete j k) [
  | yes e ↦ rw e (
      ground (
        arith,
        bit-bit_and k x (not_word w (2 ^ k)),
        bit-not_word k w (2 ^ k) q (two-pow_lt k w q),
        bit-two-pow_self k,
        bit-le-one k x,
      ))
  | no h ↦ ground (
    arith,
    bit-bit_and j x (not_word w (2 ^ k)),
    bit-not_word j w (2 ^ k) p (two-pow_lt k w q),
    bit-two-pow_ne j k h,
    bit-le-one j x,
  )
]

-- The three ways in which the code tests a bit.
pub bit_or_eq : (k x : ℕ) → (bit_or x (2 ^ k) == x) ≡ has_bit k x
unfolding has_bit
bit_or_eq k x = elim (ℕ_discrete (bit k x) 1) [
  | yes e ↦ ground (arith, bit_or_of_bit k x e)
  | no h ↦
      rw
        (==_of_ne (bit_or x (2 ^ k)) x (λ e. h (
          omega (arith, ap (bit k) e, bit-bit_or k x (2 ^ k), bit-two-pow_self k, bit-le-one k x))))
        (ground arith)
]

bit_and_of_bit : (k x : ℕ) → bit k x ≡ 1 → bit_and x (2 ^ k) ≡ 2 ^ k
bit_and_of_bit k x e = bit_and_two-pow k x ∙ rw e (omega arith)

bit_and_of_no_bit : (k x : ℕ) → bit k x ≢ 1 → bit_and x (2 ^ k) ≡ 0
bit_and_of_no_bit k x h =
    let e : bit k x ≡ 0 = omega (arith, bit-le-one k x) in bit_and_two-pow k x ∙ rw e (omega arith)

pub bit_and_eq_zero : (k x : ℕ) → (bit_and x (2 ^ k) == 0) ≡ not (has_bit k x)
unfolding has_bit
bit_and_eq_zero k x = elim (ℕ_discrete (bit k x) 1) [
  | yes e ↦ ground (arith, bit_and_of_bit k x e, one-le-pow k 2)
  | no h ↦ ground (arith, bit_and_of_no_bit k x h)
]

pub bit_and_eq_self : (k x : ℕ) → (bit_and x (2 ^ k) == 2 ^ k) ≡ has_bit k x
unfolding has_bit
bit_and_eq_self k x = elim (ℕ_discrete (bit k x) 1) [
  | yes e ↦ ground (arith, bit_and_of_bit k x e)
  | no h ↦ ground (arith, bit_and_of_no_bit k x h, one-le-pow k 2)
]

pub has_bit-zero : (k : ℕ) → has_bit k 0 ≡ false
unfolding has_bit
has_bit-zero k = rw (bit-zero k)
