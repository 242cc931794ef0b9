-- ===== src/Prelude/Bits.antt =====
-- Words of `n` bits, lowest bit first: `|`, `&`, `~` and the single bits of a word.
use Prim.Native.Nat.{ℕ, zero, suc, ◌+◌, ◌-◌, ◌*◌, ◌/◌, ◌%◌, ◌^◌, ◌≤◌, ◌<◌, min, max}
use mathlib.Core.Path.{◌≡◌, refl, ◌∙◌}
use native.Mathlib.Nat.{pow-suc, one-le-pow}
use native.Mathlib.Omega.{arith}
use dis_store.Prelude.Tests.{◌==◌, if◌then◌else◌}

-- `a | b`, `a & b` and `~a` on words of `n` bits.
unfoldable pub or_bits : ℕ → ℕ → ℕ → ℕ
or_bits zero a b = 0
or_bits (suc n) a b = 2 * or_bits n (a / 2) (b / 2) + max (a % 2) (b % 2)

unfoldable pub and_bits : ℕ → ℕ → ℕ → ℕ
and_bits zero a b = 0
and_bits (suc n) a b = 2 * and_bits n (a / 2) (b / 2) + min (a % 2) (b % 2)

unfoldable pub not_bits : ℕ → ℕ → ℕ
not_bits zero a = 0
not_bits (suc n) a = 2 * not_bits n (a / 2) + (1 - a % 2)

-- Bit `k` of `w`, 0 or 1.
pub bit_at : ℕ → ℕ → ℕ
bit_at w zero = w % 2
bit_at w (suc k) = bit_at (w / 2) k

pub bit_at-le : (w k : ℕ) → bit_at w k ≤ 1
unfolding bit_at
bit_at-le w zero = omega arith
bit_at-le w (suc k) = bit_at-le (w / 2) k

pub zero-bit_at : (k : ℕ) → bit_at 0 k ≡ 0
unfolding bit_at
zero-bit_at zero = refl
zero-bit_at (suc k) = zero-bit_at k

half : (x d : ℕ) → d ≤ 1 → (2 * x + d) / 2 ≡ x
half x d h = omega arith

pub bit_at-or_bits :
    (n k a b : ℕ) → k < n → bit_at (or_bits n a b) k ≡ max (bit_at a k) (bit_at b k)
unfolding bit_at or_bits
bit_at-or_bits zero k a b h = absurd (omega arith)
bit_at-or_bits (suc n) zero a b h = omega arith
bit_at-or_bits (suc n) (suc k) a b h =
    rw (half (or_bits n (a / 2) (b / 2)) (max (a % 2) (b % 2)) (omega arith))
      (bit_at-or_bits n k (a / 2) (b / 2) (omega arith))

pub bit_at-and_bits :
    (n k a b : ℕ) → k < n → bit_at (and_bits n a b) k ≡ min (bit_at a k) (bit_at b k)
unfolding bit_at and_bits
bit_at-and_bits zero k a b h = absurd (omega arith)
bit_at-and_bits (suc n) zero a b h = omega arith
bit_at-and_bits (suc n) (suc k) a b h =
    rw (half (and_bits n (a / 2) (b / 2)) (min (a % 2) (b % 2)) (omega arith))
      (bit_at-and_bits n k (a / 2) (b / 2) (omega arith))

pub bit_at-not_bits : (n k a : ℕ) → k < n → bit_at (not_bits n a) k ≡ 1 - bit_at a k
unfolding bit_at not_bits
bit_at-not_bits zero k a h = absurd (omega arith)
bit_at-not_bits (suc n) zero a h = omega arith
bit_at-not_bits (suc n) (suc k) a h =
    rw (half (not_bits n (a / 2)) (1 - a % 2) (omega arith))
      (bit_at-not_bits n k (a / 2) (omega arith))

half-pow : (j : ℕ) → 2 ^ suc j / 2 ≡ 2 ^ j
half-pow j = omega (arith, pow-suc 2 j)

-- `1 << j` has the one bit `j`.
pub bit_at-pow : (j k : ℕ) → bit_at (2 ^ j) k ≡ (if j == k then 1 else 0)
unfolding bit_at
bit_at-pow zero zero = refl
bit_at-pow zero (suc k) = zero-bit_at k ∙ (ground arith)
bit_at-pow (suc j) zero = ground (arith, pow-suc 2 j)
bit_at-pow (suc j) (suc k) = rw (half-pow j) (ground (arith, bit_at-pow j k))

pub and_bits-zero : (n a : ℕ) → and_bits n a 0 ≡ 0
unfolding and_bits
and_bits-zero zero a = refl
and_bits-zero (suc n) a = omega (arith, and_bits-zero n (a / 2))

doubled : (x p q m : ℕ) → q ≡ 2 * p → 2 * (x * p) + min m (q % 2) ≡ x * q
doubled x p q m e = rw e (omega arith)

-- `w & (1 << k)` is the bit `k`, in its place.
pub and_bits-pow : (n k w : ℕ) → k < n → and_bits n w (2 ^ k) ≡ bit_at w k * 2 ^ k
unfolding and_bits bit_at
and_bits-pow zero k w h = absurd (omega arith)
and_bits-pow (suc n) zero w h = omega (arith, and_bits-zero n (w / 2))
and_bits-pow (suc n) (suc k) w h =
    rw (half-pow k, and_bits-pow n k (w / 2) (omega arith))
      (doubled (bit_at (w / 2) k) (2 ^ k) (2 ^ suc k) (w % 2) (omega (arith, pow-suc 2 k)))

zero_iff : (x p : ℕ) → 1 ≤ p → (x * p == 0) ≡ (x == 0)
zero_iff zero p h = ground arith
zero_iff (suc x) p h = ground arith

-- The test `(w & (1 << k)) != 0` reads the bit `k`.
pub and_bits-pow_eq_zero : (n k w : ℕ) → k < n → (and_bits n w (2 ^ k) == 0) ≡ (bit_at w k == 0)
and_bits-pow_eq_zero n k w h =
    rw (and_bits-pow n k w h) (zero_iff (bit_at w k) (2 ^ k) (one-le-pow k 2 (omega arith)))

-- The mask 0x1f keeps the five lowest bits.
pub and_bits_0x1f : (n a : ℕ) → and_bits (suc (suc (suc (suc (suc n))))) a 0x1f ≡ a % 32
unfolding and_bits
and_bits_0x1f n a = omega (arith, and_bits-zero n (a / 2 / 2 / 2 / 2 / 2))
