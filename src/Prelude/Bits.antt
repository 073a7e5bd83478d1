-- ===== src/Prelude/Bits.antt =====
-- `&` and `|` of C on unsigned words: each splits at any bit position into the same operation on
-- the high and on the low parts. A mask `low k` has the k lowest bits set.
use Prim.Native.Nat.{bit_and, bit_or, digits, bit_and-bitwise, bit_or-bitwise, min, max}
use native.Mathlib.Nat.{pow-suc, one-le-pow}
use luascript.Prelude.{
  ℕ, zero, suc, ◌+◌, ◌-◌, ◌*◌, ◌/◌, ◌%◌, ◌^◌, ◌≤◌, ◌<◌, ◌≡◌, refl, ap, ◌∙◌, sym, arith,
}

-- An operation on digits as a recursion on a width, which is enough where the two numbers fit it.
module _ (z : ℕ → ℕ) (f : ℕ → ℕ → ℕ) (run_out : (b : ℕ) → z b ≡ z (b / 2) * 2 + f 0 (b % 2)) where
  by_width : ℕ → ℕ → ℕ → ℕ
  by_width zero a b = z b
  by_width (suc w) a b = by_width w (a / 2) (b / 2) * 2 + f (a % 2) (b % 2)

  next_digit :
      (w a b t : ℕ)
      → t ≡ by_width w (a / 2) (b / 2)
      → t * 2 + f (a % 2) (b % 2) ≡ by_width (suc w) a b
  unfolding by_width
  next_digit w a b t e = ap (λ (u : ℕ). u * 2 + f (a % 2) (b % 2)) e

  only_second : (w b : ℕ) → b ≤ w → z b ≡ by_width w 0 b
  unfolding by_width
  only_second zero b h = refl
  only_second (suc w) b h =
      run_out b ∙ ap (λ (u : ℕ). u * 2 + f 0 (b % 2)) (only_second w (b / 2) (omega arith))

  digits-by_width : (w a b n : ℕ) → a + b ≤ w → a ≤ n → digits z f n a b ≡ by_width w a b
  digits-by_width w zero b zero h k = only_second w b (omega arith)
  digits-by_width w (suc a) b zero h k = absurd (omega arith)
  digits-by_width w zero b (suc n) h k = only_second w b (omega arith)
  digits-by_width zero (suc a) b (suc n) h k = absurd (omega arith)
  digits-by_width (suc w) (suc a) b (suc n) h k =
      next_digit w (suc a) b _ (digits-by_width w (suc a / 2) (b / 2) n (omega arith) (omega arith))

  -- so the lowest digit splits off
  digits_lowest :
      (a b : ℕ) → digits z f a a b ≡ digits z f (a / 2) (a / 2) (b / 2) * 2 + f (a % 2) (b % 2)
  digits_lowest a b =
      digits-by_width (suc (a + b)) a b a (omega arith) (omega arith)
      ∙ sym (
          next_digit (a + b) a b _
            (digits-by_width (a + b) (a / 2) (b / 2) (a / 2) (omega arith) (omega arith)))

pub bit_and_halves : (x y : ℕ) → bit_and x y ≡ bit_and (x / 2) (y / 2) * 2 + min (x % 2) (y % 2)
bit_and_halves x y =
    let lowest = digits_lowest (λ c. zero) min (λ c. omega arith) x y in
    omega (arith, lowest, bit_and-bitwise x y, bit_and-bitwise (x / 2) (y / 2))

pub bit_or_halves : (x y : ℕ) → bit_or x y ≡ bit_or (x / 2) (y / 2) * 2 + max (x % 2) (y % 2)
bit_or_halves x y =
    let lowest = digits_lowest (λ c. c) max (λ c. omega arith) x y in
    omega (arith, lowest, bit_or-bitwise x y, bit_or-bitwise (x / 2) (y / 2))

pub zero-bit_and : (b : ℕ) → bit_and 0 b ≡ 0
zero-bit_and b = bit_and-bitwise 0 b

pub zero-bit_or : (b : ℕ) → bit_or 0 b ≡ b
zero-bit_or b = bit_or-bitwise 0 b

-- a * 2 ^ (k + 1), as omega reads it
shift_suc : (a k : ℕ) → a * 2 ^ suc k ≡ 2 * (a * 2 ^ k)
shift_suc a k = omega (arith, ap (λ (t : ℕ). a * t) (pow-suc 2 k))

pub bit_and_split :
    (k a b c d : ℕ)
    → b < 2 ^ k
    → d < 2 ^ k
    → bit_and (a * 2 ^ k + b) (c * 2 ^ k + d) ≡ bit_and a c * 2 ^ k + bit_and b d
bit_and_split zero a b c d p q = ground (arith, zero-bit_and 0)
bit_and_split (suc k) a b c d p q = ground (
  arith,
  bit_and_halves (a * 2 ^ suc k + b) (c * 2 ^ suc k + d),
  bit_and_halves b d,
  shift_suc a k,
  shift_suc c k,
  shift_suc (bit_and a c) k,
  pow-suc 2 k,
  bit_and_split k a (b / 2) c (d / 2) (omega arith) (omega arith),
)

pub bit_or_split :
    (k a b c d : ℕ)
    → b < 2 ^ k
    → d < 2 ^ k
    → bit_or (a * 2 ^ k + b) (c * 2 ^ k + d) ≡ bit_or a c * 2 ^ k + bit_or b d
bit_or_split zero a b c d p q = ground (arith, zero-bit_or 0)
bit_or_split (suc k) a b c d p q = ground (
  arith,
  bit_or_halves (a * 2 ^ suc k + b) (c * 2 ^ suc k + d),
  bit_or_halves b d,
  shift_suc a k,
  shift_suc c k,
  shift_suc (bit_or a c) k,
  pow-suc 2 k,
  bit_or_split k a (b / 2) c (d / 2) (omega arith) (omega arith),
)

pub bit_and_zero : (k a : ℕ) → a < 2 ^ k → bit_and a 0 ≡ 0
bit_and_zero zero a h = ground (arith, zero-bit_and 0)
bit_and_zero (suc k) a h =
    ground (arith, pow-suc 2 k, bit_and_halves a 0, bit_and_zero k (a / 2) (omega arith))

pub bit_or_zero : (k a : ℕ) → a < 2 ^ k → bit_or a 0 ≡ a
bit_or_zero zero a h = ground (arith, zero-bit_or 0)
bit_or_zero (suc k) a h =
    ground (arith, pow-suc 2 k, bit_or_halves a 0, bit_or_zero k (a / 2) (omega arith))

-- A number of k bits is kept by the mask of k ones.
pub bit_and_low : (k a : ℕ) → a < 2 ^ k → bit_and a (2 ^ k - 1) ≡ a
bit_and_low zero a h = ground (arith, zero-bit_and 0)
bit_and_low (suc k) a h = ground (
  arith,
  pow-suc 2 k,
  one-le-pow k 2,
  bit_and_halves a (2 ^ suc k - 1),
  bit_and_low k (a / 2) (omega arith),
)
