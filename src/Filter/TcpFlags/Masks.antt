-- ===== src/Filter/TcpFlags/Masks.antt =====
-- Masks of bits: which flags a test by a bitwise and finds.
use Prim.Native.Nat.{
  bit_and, bit_or, bit_and-bitwise, bit_or-bitwise, bitwise, digits, min, max, ◌/◌,
}
use cloud_run_tcpdump.Prelude.{
  ◌==◌, ℕ, zero, suc, ◌+◌, ◌*◌, ◌%◌, ◌≤◌, ◌<◌, ◌≡◌, refl, ap, ◌∙◌, ◌&&◌, arith,
}

module _ (z : ℕ → ℕ) (f : ℕ → ℕ → ℕ) where
  -- Two counts that reach as far as the first number give the same.
  digits_enough : (k l a b : ℕ) → a ≤ k → a ≤ l → digits z f k a b ≡ digits z f l a b
  digits_enough zero zero a b p q = refl
  digits_enough zero (suc l) zero b p q = refl
  digits_enough zero (suc l) (suc a) b p q = absurd (omega arith)
  digits_enough (suc k) zero zero b p q = refl
  digits_enough (suc k) zero (suc a) b p q = absurd (omega arith)
  digits_enough (suc k) (suc l) zero b p q = refl
  digits_enough (suc k) (suc l) (suc a) b p q =
      ap (λ r. r * 2 + f (suc a % 2) (b % 2))
        (digits_enough k l (suc a / 2) (b / 2) (omega arith) (omega arith))

  bitwise_half :
      (a b : ℕ)
      → bitwise z f (suc a) b ≡ bitwise z f (suc a / 2) (b / 2) * 2 + f (suc a % 2) (b % 2)
  bitwise_half a b =
      ap (λ r. r * 2 + f (suc a % 2) (b % 2))
        (digits_enough a (suc a / 2) (suc a / 2) (b / 2) (omega arith) (omega arith))

pub bit_and_half :
    (a b : ℕ) → bit_and (suc a) b ≡ bit_and (suc a / 2) (b / 2) * 2 + min (suc a % 2) (b % 2)
bit_and_half a b =
    rw (bit_and-bitwise (suc a) b, bit_and-bitwise (suc a / 2) (b / 2))
      (bitwise_half (λ y. 0) min a b)

pub bit_and_zero : (b : ℕ) → bit_and 0 b ≡ 0
bit_and_zero b = bit_and-bitwise 0 b

pub bit_or_half : (a b : ℕ) → bit_or a b ≡ bit_or (a / 2) (b / 2) * 2 + max (a % 2) (b % 2)
bit_or_half zero b = ground (arith, bit_or-bitwise 0 b, bit_or-bitwise 0 (b / 2))
bit_or_half (suc a) b =
    rw (bit_or-bitwise (suc a) b, bit_or-bitwise (suc a / 2) (b / 2))
      (bitwise_half (λ y. y) max a b)

min_max :
    (m a b : ℕ) → m < 2 → a < 2 → b < 2 → (min m (max a b) == 0) ≡ (min m a == 0 && min m b == 0)
min_max m a b p q r = ground arith

both_zero : (x y : ℕ) → (x * 2 + y == 0) ≡ (x == 0 && y == 0)
both_zero x y = ground arith

bit_or_parts :
    (a b : ℕ) → (bit_or a b / 2 ≡ bit_or (a / 2) (b / 2)) × (bit_or a b % 2 ≡ max (a % 2) (b % 2))
bit_or_parts a b =
    let small : max (a % 2) (b % 2) < 2 = ground arith in
    (omega (arith, bit_or_half a b), omega (arith, bit_or_half a b))

bit_and_is_zero :
    (m x : ℕ)
    → (bit_and (suc m) x == 0) ≡ (bit_and (suc m / 2) (x / 2) == 0 && min (suc m % 2) (x % 2) == 0)
bit_and_is_zero m x =
    ap (λ r. r == 0) (bit_and_half m x)
    ∙ both_zero (bit_and (suc m / 2) (x / 2)) (min (suc m % 2) (x % 2))

bit_and-bit_or_within :
    (k m a b : ℕ) → m ≤ k → (bit_and m (bit_or a b) == 0) ≡ (bit_and m a == 0 && bit_and m b == 0)
bit_and-bit_or_within k zero a b h =
    ground (arith, bit_and_zero (bit_or a b), bit_and_zero a, bit_and_zero b)
bit_and-bit_or_within zero (suc m) a b h = absurd (omega arith)
bit_and-bit_or_within (suc k) (suc m) a b h =
    let lower = bit_and-bit_or_within k (suc m / 2) (a / 2) (b / 2) (omega arith) in
    let pairs = min_max (suc m % 2) (a % 2) (b % 2) (omega arith) (omega arith) (omega arith) in
    let (rest, last) = bit_or_parts a b in
    bit_and_is_zero m (bit_or a b)
    ∙ rw (rest, last, lower, pairs) (ground (arith, bit_and_is_zero m a, bit_and_is_zero m b))

-- A mask meets the bits of either of two numbers exactly if it meets those of one.
pub bit_and-bit_or :
    (m a b : ℕ) → (bit_and m (bit_or a b) == 0) ≡ (bit_and m a == 0 && bit_and m b == 0)
bit_and-bit_or m a b = bit_and-bit_or_within m m a b (omega arith)
