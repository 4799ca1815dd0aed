-- ===== src/Prelude/Bits.antt =====
-- `&` with a low mask, `|` of disjoint fields and `^` undone by itself, at every width: each from
-- one law for the lowest binary digit.
use Prim.Native.Nat.{
  ℕ, zero, suc, ◌+◌, ◌-◌, ◌*◌, ◌/◌, ◌%◌, ◌^◌, ◌≤◌, ◌<◌, min, max, bit_and, bit_or, bit_xor, digits,
  bitwise, differ, bit_and-bitwise, bit_or-bitwise, bit_xor-bitwise,
}
use mathlib.Core.Path.{◌≡◌, refl, ap}
use native.Mathlib.Omega.{arith}
use native.Mathlib.Nat.{pow-suc, one-le-pow}

-- Any two counts of digits that are large enough give one result.
enough_digits :
    (last : ℕ → ℕ) (f : ℕ → ℕ → ℕ) (n k a b : ℕ)
    → (a ≤ n) × (a ≤ k)
    → digits last f n a b ≡ digits last f k a b
enough_digits last f zero zero a b h = refl
enough_digits last f zero (suc k) zero b h = refl
enough_digits last f zero (suc k) (suc a) b h = absurd (omega arith)
enough_digits last f (suc n) zero zero b h = refl
enough_digits last f (suc n) zero (suc a) b h = absurd (omega arith)
enough_digits last f (suc n) (suc k) zero b h = refl
enough_digits last f (suc n) (suc k) (suc a) b h =
    ap (λ (t : ℕ). t * 2 + f (suc a % 2) (b % 2))
      (enough_digits last f n k (suc a / 2) (b / 2) (omega arith))

lowest_digit :
    (last : ℕ → ℕ) (f : ℕ → ℕ → ℕ) (a b : ℕ)
    → bitwise last f (suc a) b ≡ bitwise last f (suc a / 2) (b / 2) * 2 + f (suc a % 2) (b % 2)
lowest_digit last f a b =
    ap (λ (t : ℕ). t * 2 + f (suc a % 2) (b % 2))
      (enough_digits last f a (suc a / 2) (suc a / 2) (b / 2) (omega arith))

bit_and_digit : (a b : ℕ) → bit_and a b ≡ bit_and (a / 2) (b / 2) * 2 + min (a % 2) (b % 2)
bit_and_digit zero b = simp bit_and-bitwise (omega arith)
bit_and_digit (suc a) b = simp bit_and-bitwise (lowest_digit (λ y. 0) min a b)

bit_or_digit : (a b : ℕ) → bit_or a b ≡ bit_or (a / 2) (b / 2) * 2 + max (a % 2) (b % 2)
bit_or_digit zero b = simp bit_or-bitwise (omega arith)
bit_or_digit (suc a) b = simp bit_or-bitwise (lowest_digit (λ y. y) max a b)

bit_xor-zero_left : (b : ℕ) → bit_xor 0 b ≡ b
bit_xor-zero_left b = bit_xor-bitwise 0 b

differ_below : (d e : ℕ) → d < 2 → e < 2 → differ d e ≡ (d + e) % 2
differ_below zero zero h k = refl
differ_below zero (suc zero) h k = refl
differ_below (suc zero) zero h k = refl
differ_below (suc zero) (suc zero) h k = refl
differ_below zero (suc (suc e)) h k = absurd (omega arith)
differ_below (suc zero) (suc (suc e)) h k = absurd (omega arith)
differ_below (suc (suc d)) e h k = absurd (omega arith)

bit_xor_digit : (a b : ℕ) → bit_xor a b ≡ bit_xor (a / 2) (b / 2) * 2 + (a + b) % 2
bit_xor_digit zero b = omega (arith, bit_xor-zero_left b, bit_xor-zero_left (b / 2))
bit_xor_digit (suc a) b = simp bit_xor-bitwise (
    omega (
      arith,
      lowest_digit (λ y. y) differ a b,
      differ_below (suc a % 2) (b % 2) (omega arith) (omega arith),
    ))

-- Induction on a bound for the first number, halved at each step.
bit_and-zero_below : (n a : ℕ) → a ≤ n → bit_and a 0 ≡ 0
bit_and-zero_below n zero h = refl
bit_and-zero_below zero (suc a) h = absurd (omega arith)
bit_and-zero_below (suc n) (suc a) h =
    omega (arith, bit_and_digit (suc a) 0, bit_and-zero_below n (suc a / 2) (omega arith))

bit_or-zero_below : (n a : ℕ) → a ≤ n → bit_or a 0 ≡ a
bit_or-zero_below n zero h = refl
bit_or-zero_below zero (suc a) h = absurd (omega arith)
bit_or-zero_below (suc n) (suc a) h =
    omega (arith, bit_or_digit (suc a) 0, bit_or-zero_below n (suc a / 2) (omega arith))

double_pow : (q k : ℕ) → q * 2 ^ suc k ≡ 2 * (q * 2 ^ k)
double_pow q k = ground (arith, pow-suc 2 k, ap (λ (p : ℕ). q * p) (pow-suc 2 k))

-- `(q << k) | r` is a sum where `r` has at most `k` bits.
pub bit_or_fields : (k q r : ℕ) → r < 2 ^ k → bit_or (q * 2 ^ k) r ≡ q * 2 ^ k + r
bit_or_fields zero q r h = ground (arith, bit_or-zero_below q q)
bit_or_fields (suc k) q r h =
    ground (
      arith,
      bit_or_digit (q * 2 ^ suc k) r,
      double_pow q k,
      pow-suc 2 k,
      bit_or_fields k q (r / 2),
    )

-- Four bytes joined by shifts, highest first: how a 32-bit word is read.
pub bit_or_bytes :
    (a b c d : ℕ)
    → b < 256
    → c < 256
    → d < 256
    → bit_or (bit_or (bit_or (a * 2 ^ 24) (b * 2 ^ 16)) (c * 2 ^ 8)) d
      ≡ a * 2 ^ 24 + b * 2 ^ 16 + c * 2 ^ 8 + d
bit_or_bytes a b c d hb hc hd = rw (bit_or_fields 24 a (b * 2 ^ 16) (omega arith)) (
    let high : a * 2 ^ 24 + b * 2 ^ 16 ≡ (a * 256 + b) * 2 ^ 16 = omega arith in
    rw high (
      rw (bit_or_fields 16 (a * 256 + b) (c * 2 ^ 8) (omega arith)) (
        let low : (a * 256 + b) * 2 ^ 16 + c * 2 ^ 8 ≡ (a * 65536 + b * 256 + c) * 2 ^ 8 =
          omega arith in
        rw low (rw (bit_or_fields 8 (a * 65536 + b * 256 + c) d hd) (omega arith)))))

bit_and_low : (k q r : ℕ) → r < 2 ^ k → bit_and (q * 2 ^ k + r) (2 ^ k - 1) ≡ r
bit_and_low zero q r h = omega (arith, bit_and-zero_below (q * 1 + r) (q * 1 + r))
bit_and_low (suc k) q r h = ground (
  arith,
  bit_and_digit (q * 2 ^ suc k + r) (2 ^ suc k - 1),
  double_pow q k,
  pow-suc 2 k,
  one-le-pow k 2,
  bit_and_low k q (r / 2),
)

-- A mask of `k` ones keeps the remainder by `2 ^ k`.
pub bit_and_mask : (k a : ℕ) → bit_and a (2 ^ k - 1) ≡ a % 2 ^ k
bit_and_mask k a = ground (arith, one-le-pow k 2, bit_and_low k (a / 2 ^ k) (a % 2 ^ k))

bit_and_even : (a m : ℕ) → bit_and a (2 * m) ≡ 2 * bit_and (a / 2) m
bit_and_even a m =
    let half : 2 * m / 2 ≡ m = omega arith in
    omega (arith, bit_and_digit a (2 * m), ap (λ (t : ℕ). bit_and (a / 2) t) half)

-- The high byte of a 16-bit number, under its mask.
pub bit_and_high_byte : (a : ℕ) → bit_and a 0xFF00 / 256 ≡ a / 256 % 256
bit_and_high_byte a = ground (
  arith,
  bit_and_even a 0x7F80,
  bit_and_even (a / 2) 0x3FC0,
  bit_and_even (a / 2 / 2) 0x1FE0,
  bit_and_even (a / 2 / 2 / 2) 0xFF0,
  bit_and_even (a / 2 / 2 / 2 / 2) 0x7F8,
  bit_and_even (a / 2 / 2 / 2 / 2 / 2) 0x3FC,
  bit_and_even (a / 2 / 2 / 2 / 2 / 2 / 2) 0x1FE,
  bit_and_even (a / 2 / 2 / 2 / 2 / 2 / 2 / 2) 0xFF,
  bit_and_mask 8 (a / 2 / 2 / 2 / 2 / 2 / 2 / 2 / 2),
)

-- `^` with one key twice gives the number back.
xor_twice_below : (n a m : ℕ) → a ≤ n → m ≤ n → bit_xor (bit_xor a m) m ≡ a
xor_twice_below zero zero zero h k = refl
xor_twice_below zero zero (suc m) h k = absurd (omega arith)
xor_twice_below zero (suc a) m h k = absurd (omega arith)
xor_twice_below (suc n) a m h k =
    let half : bit_xor a m / 2 ≡ bit_xor (a / 2) (m / 2) = omega (arith, bit_xor_digit a m) in
    omega (
      arith,
      bit_xor_digit (bit_xor a m) m,
      bit_xor_digit a m,
      ap (λ (t : ℕ). bit_xor t (m / 2)) half,
      xor_twice_below n (a / 2) (m / 2) (omega arith) (omega arith),
    )

pub bit_xor-bit_xor : (a m : ℕ) → bit_xor (bit_xor a m) m ≡ a
bit_xor-bit_xor a m = xor_twice_below (a + m) a m (omega arith) (omega arith)

-- `^` of two numbers of `k` bits has at most `k` bits.
pub bit_xor-lt : (k a m : ℕ) → a < 2 ^ k → m < 2 ^ k → bit_xor a m < 2 ^ k
bit_xor-lt zero zero zero h l = omega arith
bit_xor-lt zero zero (suc m) h l = absurd (omega arith)
bit_xor-lt zero (suc a) m h l = absurd (omega arith)
bit_xor-lt (suc k) a m h l =
    ground (arith, bit_xor_digit a m, pow-suc 2 k, bit_xor-lt k (a / 2) (m / 2))
