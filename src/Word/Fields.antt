-- ===== src/Word/Fields.antt =====
-- Words that hold several fields, as the lock word of stms/2PLUndo.hpp does: one bit added or taken
-- away, and the digits above and below a place.
use native.Mathlib.Nat.{pow-suc, one-le-pow, div-div-eq-div-mul, mod-add-div', mul_comm}
use plsf.Prelude.{
  ℕ, zero, suc, ◌+◌, ◌-◌, ◌*◌, ◌/◌, ◌%◌, ◌^◌, ◌≤◌, ◌<◌, bit_and, bit_or, ◌≡◌, ap, arith, true,
  false, ◌==◌, if◌then◌else◌, ◌∙◌,
}
use Prim.Native.Nat.{bit_or-bitwise, bit_and-bitwise}
use plsf.Word.Digits.{bit_or_digit, bit_and_digit}
use plsf.Word.{bit, has_bit, bit-le-one, bit_and-nothing}

-- Halves of a sum with a power of two.
add_half : (k x : ℕ) → ((x + 2 ^ suc k) / 2 ≡ x / 2 + 2 ^ k) × ((x + 2 ^ suc k) % 2 ≡ x % 2)
add_half k x = omega (arith, pow-suc 2 k)

pub le_of_bit : (k x : ℕ) → bit k x ≡ 1 → 2 ^ k ≤ x
unfolding bit
le_of_bit zero x h = omega arith
le_of_bit (suc k) x h = omega (arith, pow-suc 2 k, le_of_bit k (x / 2) h)

-- Adding `1 << k` to a word with bit `k` clear sets that bit and no other.
bit-add_two-pow : (j k x : ℕ) → bit k x ≡ 0 → bit j (x + 2 ^ k) ≡ (if j == k then 1 else bit j x)
unfolding bit
bit-add_two-pow zero zero x h = omega arith
bit-add_two-pow (suc j) zero x h = let e : (x + 1) / 2 ≡ x / 2 = omega arith in rw e (ground arith)
bit-add_two-pow zero (suc k) x h = (add_half k x).1 ∙ ground arith
bit-add_two-pow (suc j) (suc k) x h =
    rw ((add_half k x).0) (bit-add_two-pow j k (x / 2) h ∙ ground arith)

pub has_bit-add :
    (j k x : ℕ)
    → has_bit k x ≡ false
    → has_bit j (x + 2 ^ k) ≡ (if j == k then true else has_bit j x)
unfolding has_bit
has_bit-add j k x h =
    ground (arith, bit-add_two-pow j k x (ground (arith, bit-le-one k x)), bit-le-one k x)

sub_half :
    (k x : ℕ)
    → 2 ^ k ≤ x / 2
    → ((x - 2 ^ suc k) / 2 ≡ x / 2 - 2 ^ k) × ((x - 2 ^ suc k) % 2 ≡ x % 2)
sub_half k x h = omega (arith, pow-suc 2 k)

-- Taking `1 << k` from a word with bit `k` set clears that bit and no other.
bit-sub_two-pow : (j k x : ℕ) → bit k x ≡ 1 → bit j (x - 2 ^ k) ≡ (if j == k then 0 else bit j x)
unfolding bit
bit-sub_two-pow zero zero x h = omega arith
bit-sub_two-pow (suc j) zero x h = let e : (x - 1) / 2 ≡ x / 2 = omega arith in rw e (ground arith)
bit-sub_two-pow zero (suc k) x h = (sub_half k x (le_of_bit k (x / 2) h)).1 ∙ ground arith
bit-sub_two-pow (suc j) (suc k) x h =
    rw ((sub_half k x (le_of_bit k (x / 2) h)).0) (bit-sub_two-pow j k (x / 2) h ∙ ground arith)

pub has_bit-sub :
    (j k x : ℕ)
    → has_bit k x ≡ true
    → has_bit j (x - 2 ^ k) ≡ (if j == k then false else has_bit j x)
unfolding has_bit
has_bit-sub j k x h = ground (arith, bit-sub_two-pow j k x (ground arith))

double_parts :
    (p q r x t : ℕ) → r + q * (p * 2) ≡ x → t + q * p ≡ x / 2 → (r / 2 ≡ t) × (r % 2 ≡ x % 2)
double_parts p q r x t e f = let m : q * (p * 2) ≡ q * p * 2 = omega arith in omega (arith, m, e, f)

mod_double : (p x : ℕ) → ((x % (p * 2)) / 2 ≡ (x / 2) % p) × ((x % (p * 2)) % 2 ≡ x % 2)
mod_double p x =
    let e : x / 2 / p ≡ x / (p * 2) = div-div-eq-div-mul x 2 p ∙ ap (λ m. x / m) (mul_comm 2 p) in
    double_parts p (x / 2 / p) (x % (p * 2)) x ((x / 2) % p)
      (omega (arith, mod-add-div' x (p * 2), ap (λ t. t * (p * 2)) e)) (mod-add-div' (x / 2) p)

-- The digits below place `n`.
mod_half : (n x : ℕ) → ((x % 2 ^ suc n) / 2 ≡ (x / 2) % 2 ^ n) × ((x % 2 ^ suc n) % 2 ≡ x % 2)
mod_half n x = rw (pow-suc 2 n) (mod_double (2 ^ n) x)

pub bit-mod : (j n x : ℕ) → j < n → bit j (x % 2 ^ n) ≡ bit j x
unfolding bit
bit-mod j zero x h = absurd (omega arith)
bit-mod zero (suc n) x h = (mod_half n x).1
bit-mod (suc j) (suc n) x h = rw ((mod_half n x).0) (bit-mod j n (x / 2) (omega arith))

mask_half : (n : ℕ) → (2 ^ suc n - 1) / 2 ≡ 2 ^ n - 1
mask_half n = omega (arith, pow-suc 2 n, one-le-pow n 2)

pub bit_and-mask : (n x : ℕ) → bit_and x (2 ^ n - 1) ≡ x % 2 ^ n
bit_and-mask zero x = bit_and-nothing x x (omega arith) ∙ omega arith
bit_and-mask (suc n) x = omega (
  arith,
  bit_and_digit x (2 ^ suc n - 1),
  pow-suc 2 n,
  one-le-pow n 2,
  mod_half n x,
  bit_and-mask n (x / 2),
  ap (λ t. bit_and (x / 2) t) (mask_half n),
)

-- A clear bit below place `n` leaves room for itself.
pub add_two-pow-lt : (k n x : ℕ) → k < n → x < 2 ^ n → bit k x ≡ 0 → x + 2 ^ k < 2 ^ n
unfolding bit
add_two-pow-lt k zero x p q h = absurd (omega arith)
add_two-pow-lt zero (suc n) x p q h = omega (arith, pow-suc 2 n)
add_two-pow-lt (suc k) (suc n) x p q h = omega (
  arith,
  pow-suc 2 n,
  pow-suc 2 k,
  add_two-pow-lt k n (x / 2) (omega arith) (omega (arith, pow-suc 2 n)) h,
)

bit_or-zero : (r w : ℕ) → r ≡ 0 → bit_or r (w * 1) ≡ r + w * 1
bit_or-zero zero w h = simp bit_or-bitwise (omega arith)
bit_or-zero (suc r) w h = absurd (omega arith)

field_half :
    (n w : ℕ)
    → ((w * 2 ^ suc n) / 2 ≡ w * 2 ^ n)
      × ((w * 2 ^ suc n) % 2 ≡ 0)
      × (w * 2 ^ suc n ≡ w * 2 ^ n * 2)
field_half n w =
    let e : w * 2 ^ suc n ≡ w * 2 ^ n * 2 = rw (pow-suc 2 n) (omega arith) in omega (arith, e)

-- `r | (w << n)` of a number `r` below place `n`.
pub bit_or-field : (n r w : ℕ) → r < 2 ^ n → bit_or r (w * 2 ^ n) ≡ r + w * 2 ^ n
bit_or-field zero r w h = omega (arith, bit_or-zero r w (omega arith))
bit_or-field (suc n) r w h = omega (
  arith,
  bit_or_digit r (w * 2 ^ suc n),
  field_half n w,
  pow-suc 2 n,
  bit_or-field n (r / 2) w (omega (arith, pow-suc 2 n)),
  ap (λ t. bit_or (r / 2) t) ((field_half n w).0),
)

pub bit_and_zero : (y : ℕ) → bit_and 0 y ≡ 0
bit_and_zero y = simp bit_and-bitwise (omega arith)

two-pow_half : (k : ℕ) → 2 ^ suc k / 2 ≡ 2 ^ k
two-pow_half k = omega (arith, pow-suc 2 k)

-- `(1 << k) & y` has no other bit than bit `k`.
pub two-pow_bit_and : (k y : ℕ) → bit k y ≡ 0 → bit_and (2 ^ k) y ≡ 0
unfolding bit
two-pow_bit_and zero y h = omega (arith, bit_and_digit 1 y, bit_and_zero (y / 2))
two-pow_bit_and (suc k) y h = omega (
  arith,
  bit_and_digit (2 ^ suc k) y,
  pow-suc 2 k,
  two-pow_bit_and k (y / 2) h,
  ap (λ t. bit_and t (y / 2)) (two-pow_half k),
)
