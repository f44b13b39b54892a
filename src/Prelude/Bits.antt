-- ===== src/Prelude/Bits.antt =====
-- `|` and `&` of the native numbers as arithmetic: fields that do not overlap, and low masks.
use Prim.Native.Nat.{min, max, digits, bitwise, bit_and, bit_or, bit_and-bitwise, bit_or-bitwise}
use Prim.Native.Nat.{ℕ, zero, suc, ◌+◌, ◌-◌, ◌*◌, ◌/◌, ◌%◌, ◌^◌, ◌≤◌, ◌<◌}
use mathlib.Core.Path.{◌≡◌, refl, ap}
use native.Mathlib.Nat.{pow-suc, one-le-pow}
use native.Mathlib.Omega.{arith}

module _ (z : ℕ → ℕ) (f : ℕ → ℕ → ℕ) where
  -- Any number of rounds that is enough gives the same.
  rounds_same : (b a j k : ℕ) → a ≤ j → a ≤ k → digits z f j a b ≡ digits z f k a b
  rounds_same b zero zero zero p q = refl
  rounds_same b zero zero (suc k) p q = refl
  rounds_same b zero (suc j) zero p q = refl
  rounds_same b zero (suc j) (suc k) p q = refl
  rounds_same b (suc a) zero k p q = absurd (omega arith)
  rounds_same b (suc a) (suc j) zero p q = absurd (omega arith)
  rounds_same b (suc a) (suc j) (suc k) p q =
      ap (λ n. n * 2 + f (suc a % 2) (b % 2))
        (rounds_same (b / 2) (suc a / 2) j k (omega arith) (omega arith))

  halve-bitwise :
      (a b : ℕ) → 0 < a → bitwise z f a b ≡ bitwise z f (a / 2) (b / 2) * 2 + f (a % 2) (b % 2)
  halve-bitwise zero b h = absurd (omega arith)
  halve-bitwise (suc a) b h =
      ap (λ n. n * 2 + f (suc a % 2) (b % 2))
        (rounds_same (b / 2) (suc a / 2) a (suc a / 2) (omega arith) (omega arith))

-- the lowest digits, and the others
pub halve-bit_or : (a b : ℕ) → bit_or a b ≡ bit_or (a / 2) (b / 2) * 2 + max (a % 2) (b % 2)
halve-bit_or zero b = simp bit_or-bitwise (omega arith)
halve-bit_or (suc a) b = simp bit_or-bitwise (halve-bitwise (λ y. y) max (suc a) b (omega arith))

pub halve-bit_and : (a b : ℕ) → bit_and a b ≡ bit_and (a / 2) (b / 2) * 2 + min (a % 2) (b % 2)
halve-bit_and zero b = simp bit_and-bitwise (omega arith)
halve-bit_and (suc a) b = simp bit_and-bitwise (halve-bitwise (λ y. 0) min (suc a) b (omega arith))

or_zero_bound : (n a : ℕ) → a ≤ n → bit_or a 0 ≡ a
or_zero_bound n zero h = refl
or_zero_bound zero (suc a) h = absurd (omega arith)
or_zero_bound (suc n) (suc a) h =
    omega (arith, halve-bit_or (suc a) 0, or_zero_bound n (suc a / 2) (omega arith))

and_zero_bound : (n a : ℕ) → a ≤ n → bit_and a 0 ≡ 0
and_zero_bound n zero h = refl
and_zero_bound zero (suc a) h = absurd (omega arith)
and_zero_bound (suc n) (suc a) h =
    omega (arith, halve-bit_and (suc a) 0, and_zero_bound n (suc a / 2) (omega arith))

double_pow : (q k : ℕ) → q * 2 ^ suc k ≡ 2 * (q * 2 ^ k)
double_pow q k = omega (arith, ap (λ (t : ℕ). q * t) (pow-suc 2 k))

-- A field of k bits below another number is added to it.
pub bit_or-field : (k q r : ℕ) → r < 2 ^ k → bit_or (q * 2 ^ k) r ≡ q * 2 ^ k + r
bit_or-field zero q r h = ground (arith, or_zero_bound q q)
bit_or-field (suc k) q r h =
    ground (arith, halve-bit_or (q * 2 ^ suc k) r, double_pow q k, bit_or-field k q (r / 2))

and_field : (k q r : ℕ) → r < 2 ^ k → bit_and (q * 2 ^ k + r) (2 ^ k - 1) ≡ r
and_field zero q r h = ground (arith, and_zero_bound (q * 2 ^ zero + r) (q * 2 ^ zero + r))
and_field (suc k) q r h = ground (
  arith,
  halve-bit_and (q * 2 ^ suc k + r) (2 ^ suc k - 1),
  double_pow q k,
  pow-suc 2 k,
  and_field k q (r / 2),
)

-- The mask of the k lowest bits gives the remainder.
pub bit_and-mask : (k a : ℕ) → bit_and a (2 ^ k - 1) ≡ a % 2 ^ k
bit_and-mask k a = ground (arith, one-le-pow k 2, and_field k (a / 2 ^ k) (a % 2 ^ k))

-- The same for a number that is known to end in k zeros.
pub or_add : (k n q r : ℕ) → n ≡ q * 2 ^ k → r < 2 ^ k → bit_or n r ≡ n + r
or_add k n q r e h = rw e (bit_or-field k q r h)

top_bit : (k q r : ℕ) → r < 2 ^ k → q < 2 → bit_and (q * 2 ^ k + r) (2 ^ k) ≡ q * 2 ^ k
top_bit zero q r h l = ground (
  arith,
  halve-bit_and (q * 2 ^ zero + r) 1,
  and_zero_bound ((q * 2 ^ zero + r) / 2) ((q * 2 ^ zero + r) / 2),
)
top_bit (suc k) q r h l = ground (
  arith,
  halve-bit_and (q * 2 ^ suc k + r) (2 ^ suc k),
  double_pow q k,
  pow-suc 2 k,
  top_bit k q (r / 2),
)

-- The highest bit of a byte.
pub bit_and-top_bit : (b : ℕ) → b < 256 → bit_and b 0x80 ≡ b / 128 * 128
bit_and-top_bit b h =
    let split : b / 128 * 128 + b % 128 ≡ b = omega arith in
    rw split at (top_bit 7 (b / 128) (b % 128) (omega arith) (omega (arith, h)))

or_below_zero : (b : ℕ) → bit_or 0 b ≡ b
or_below_zero b = simp bit_or-bitwise refl

-- The same with the operands the other way round.
pub bit_or-field_below : (k q r : ℕ) → r < 2 ^ k → bit_or r (q * 2 ^ k) ≡ r + q * 2 ^ k
bit_or-field_below zero q zero h = ground (arith, or_below_zero (q * 2 ^ zero))
bit_or-field_below zero q (suc r) h = absurd (omega arith)
bit_or-field_below (suc k) q r h =
    ground (arith, halve-bit_or r (q * 2 ^ suc k), double_pow q k, bit_or-field_below k q (r / 2))
