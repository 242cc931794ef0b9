-- ===== src/Wire/RoundTrip.antt =====
-- What one side puts on the wire the other side reads.
use dis_store.Prelude.{ℕ, zero, suc, ◌+◌, ◌*◌, ◌/◌, ◌%◌, ◌^◌, ◌≡◌, ◌<◌, refl, ap, ◌∙◌, arith}
use native.Mathlib.Nat.{pow-suc}
use dis_store.Prelude.Bits.{or_bits}
use dis_store.Wire.{ntohl, ntohll, htonll}

zero-or_bits : (n r : ℕ) → r < 2 ^ n → or_bits n 0 r ≡ r
unfolding or_bits
zero-or_bits zero r h = omega arith
zero-or_bits (suc n) r h =
    omega (arith, zero-or_bits n (r / 2) (omega (arith, pow-suc 2 n)), pow-suc 2 n)

or_bits-zero : (n r : ℕ) → r < 2 ^ n → or_bits n r 0 ≡ r
unfolding or_bits
or_bits-zero zero r h = omega arith
or_bits-zero (suc n) r h =
    omega (arith, or_bits-zero n (r / 2) (omega (arith, pow-suc 2 n)), pow-suc 2 n)

-- Two fields that share no bit: `|` is the sum.
or_bits-fields :
    (k n w q r : ℕ) → w ≡ k + n → r < 2 ^ k → q < 2 ^ n → or_bits w (q * 2 ^ k) r ≡ q * 2 ^ k + r
unfolding or_bits
or_bits-fields zero n w q r e h g =
    let r0 : r ≡ 0 = omega arith in
    let wn : w ≡ n = omega arith in
    rw (r0, wn) (ap (λ x. or_bits n x 0) (omega arith) ∙ or_bits-zero n q g ∙ (omega arith))
or_bits-fields (suc k) n zero q r e h g = absurd (omega arith)
or_bits-fields (suc k) n (suc w) q r e h g =
    let twice : q * 2 ^ suc k ≡ 2 * (q * 2 ^ k) =
      omega (arith, ap (λ (t : ℕ). q * t) (pow-suc 2 k)) in
    let half : q * 2 ^ suc k / 2 ≡ q * 2 ^ k = omega arith in
    rw half
      (omega (arith, or_bits-fields k n w q (r / 2) (omega arith) (omega (arith, pow-suc 2 k)) g))

pub ntohl-lt : (x : ℕ) → ntohl x < 2 ^ 32
unfolding ntohl
ntohl-lt x = omega arith

ntohl-ntohl : (x : ℕ) → x < 2 ^ 32 → ntohl (ntohl x) ≡ x
unfolding ntohl
ntohl-ntohl x h = omega arith

htonll_sum : (v : ℕ) → v < 2 ^ 64 → htonll v ≡ ntohl (v % 2 ^ 32) * 2 ^ 32 + ntohl (v / 2 ^ 32)
unfolding htonll
htonll_sum v h =
    let e : v / 2 ^ 32 % 2 ^ 32 ≡ v / 2 ^ 32 = omega arith in
    rw e (
      or_bits-fields 32 32 64 (ntohl (v % 2 ^ 32)) (ntohl (v / 2 ^ 32)) refl (ntohl-lt (v / 2 ^ 32))
        (ntohl-lt (v % 2 ^ 32)))

ntohll_sum : (x : ℕ) → x < 2 ^ 64 → ntohll x ≡ ntohl (x % 2 ^ 32) * 2 ^ 32 + ntohl (x / 2 ^ 32)
unfolding ntohll
ntohll_sum x h =
    let e : x * 2 ^ 32 % 2 ^ 64 / 2 ^ 32 ≡ x % 2 ^ 32 = omega arith in
    rw e (
      or_bits-fields 32 32 64 (ntohl (x % 2 ^ 32)) (ntohl (x / 2 ^ 32)) refl (ntohl-lt (x / 2 ^ 32))
        (ntohl-lt (x % 2 ^ 32)))

join :
    (hi lo : ℕ)
    → lo < 2 ^ 32
    → ((hi * 2 ^ 32 + lo) % 2 ^ 32 ≡ lo) × ((hi * 2 ^ 32 + lo) / 2 ^ 32 ≡ hi)
join hi lo h = omega arith

-- The client reads with `ntohll` the 64-bit value that the server wrote with `htonll`: an address
-- of a region arrives as it was sent.
pub ntohll-htonll : (v : ℕ) → v < 2 ^ 64 → ntohll (htonll v) ≡ v
ntohll-htonll v h =
    let hi = ntohl (v % 2 ^ 32) in
    let lo = ntohl (v / 2 ^ 32) in
    let (low, high) = join hi lo (ntohl-lt (v / 2 ^ 32)) in
    rw
      (
        htonll_sum v h,
        ntohll_sum (hi * 2 ^ 32 + lo) (omega (arith, ntohl-lt (v % 2 ^ 32), ntohl-lt (v / 2 ^ 32))),
        low,
        high,
      )
      (omega
        (arith, ntohl-ntohl (v / 2 ^ 32) (omega arith), ntohl-ntohl (v % 2 ^ 32) (omega arith)))
