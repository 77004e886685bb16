-- ===== src/Base/Join.antt =====
-- Words put together from two halves with `&`, `|` and a shift, as numbers.
use Prim.Native.Nat.{
  ℕ, zero, suc, ◌+◌, ◌*◌, ◌/◌, ◌%◌, ◌^◌, ◌≤◌, ◌<◌, max, min, bit_and, bit_or, digits,
  bit_or-bitwise,
}
use mathlib.Core.Path.{◌≡◌, refl, ◌∙◌, ap}
use native.Mathlib.Nat.{pow-succ', le_refl}
use native.Mathlib.Omega.{arith}
use ikgt_usage.Base.Bits.{bit, bit-at_zero, bit-at_suc, bit-of_zero, bit-join_suc, bit-and, bit-ext}

bit-or_digits : (n a b k : ℕ) → a ≤ n → bit (digits (λ y. y) max n a b) k ≡ max (bit a k) (bit b k)
bit-or_digits zero zero b k h = omega (arith, bit-of_zero k)
bit-or_digits zero (suc a) b k h = absurd (omega arith)
bit-or_digits (suc n) zero b k h = omega (arith, bit-of_zero k)
bit-or_digits (suc n) (suc a) b zero h = omega (
  arith,
  bit-at_zero (digits (λ y. y) max n (suc a / 2) (b / 2) * 2 + max (suc a % 2) (b % 2)),
  bit-at_zero (suc a),
  bit-at_zero b,
)
bit-or_digits (suc n) (suc a) b (suc k) h = omega (
  arith,
  bit-join_suc (digits (λ y. y) max n (suc a / 2) (b / 2)) (max (suc a % 2) (b % 2)) k
      (omega arith),
  bit-or_digits n (suc a / 2) (b / 2) k (omega arith),
  bit-at_suc (suc a) k,
  bit-at_suc b k,
)

bit-or : (a b k : ℕ) → bit (bit_or a b) k ≡ max (bit a k) (bit b k)
bit-or a b k = simp bit_or-bitwise (bit-or_digits a a b k (le_refl a))

half-or : (a b : ℕ) → bit_or a b / 2 ≡ bit_or (a / 2) (b / 2)
half-or a b = bit-ext (bit_or a b / 2) (bit_or (a / 2) (b / 2)) (λ k. omega (
  arith,
  bit-at_suc (bit_or a b) k,
  bit-or a b (suc k),
  bit-at_suc a k,
  bit-at_suc b k,
  bit-or (a / 2) (b / 2) k,
))

half-and : (a b : ℕ) → bit_and a b / 2 ≡ bit_and (a / 2) (b / 2)
half-and a b = bit-ext (bit_and a b / 2) (bit_and (a / 2) (b / 2)) (λ k. omega (
  arith,
  bit-at_suc (bit_and a b) k,
  bit-and a b (suc k),
  bit-at_suc a k,
  bit-at_suc b k,
  bit-and (a / 2) (b / 2) k,
))

low-or : (a b : ℕ) → bit_or a b % 2 ≡ max (a % 2) (b % 2)
low-or a b = omega (arith, bit-at_zero (bit_or a b), bit-or a b 0, bit-at_zero a, bit-at_zero b)

low-and : (a b : ℕ) → bit_and a b % 2 ≡ min (a % 2) (b % 2)
low-and a b = omega (arith, bit-at_zero (bit_and a b), bit-and a b 0, bit-at_zero a, bit-at_zero b)

or_zero : (a : ℕ) → bit_or a 0 ≡ a
or_zero a = bit-ext (bit_or a 0) a (λ k. omega (arith, bit-or a 0 k, bit-of_zero k))

and_zero : (a : ℕ) → bit_and a 0 ≡ 0
and_zero a = bit-ext (bit_and a 0) 0 (λ k. omega (arith, bit-and a 0 k, bit-of_zero k))

-- `n` moved by one digit more.
double : (w n : ℕ) → n * 2 ^ suc w ≡ n * 2 ^ w * 2
double w n = rw (pow-succ' 2 w) (omega arith)

-- The lowest `w` digits of a number.
and_mask : (w q r mask : ℕ) → mask + 1 ≡ 2 ^ w → r < 2 ^ w → bit_and (q * 2 ^ w + r) mask ≡ r
and_mask zero q r mask h l =
    let nothing : mask ≡ 0 = omega arith in rw nothing (and_zero (q * 1 + r) ∙ omega arith)
and_mask (suc w) q r mask h l =
    let x : ℕ = q * 2 ^ suc w + r in
    let p : 2 ^ suc w ≡ 2 * 2 ^ w = omega (arith, pow-succ' 2 w) in
    let half : x / 2 ≡ q * 2 ^ w + r / 2 = omega (arith, double w q) in
    let low : x % 2 ≡ r % 2 = omega (arith, double w q) in
    let rest : bit_and (q * 2 ^ w + r / 2) (mask / 2) ≡ r / 2 =
      and_mask w q (r / 2) (mask / 2) (omega (arith, h, p)) (omega (arith, l, p)) in
    let halves : bit_and x mask / 2 ≡ r / 2 =
      half-and x mask ∙ ap (λ y. bit_and y (mask / 2)) half ∙ rest in
    omega (arith, halves, low-and x mask, low, h, p)

-- Two numbers side by side.
or_join : (w a b : ℕ) → b < 2 ^ w → bit_or (a * 2 ^ w) b ≡ a * 2 ^ w + b
or_join zero a b l = let nothing : b ≡ 0 = omega arith in rw nothing (or_zero (a * 1) ∙ omega arith)
or_join (suc w) a b l =
    let x : ℕ = a * 2 ^ suc w in
    let p : 2 ^ suc w ≡ 2 * 2 ^ w = omega (arith, pow-succ' 2 w) in
    let half : x / 2 ≡ a * 2 ^ w = omega (arith, double w a) in
    let halves : bit_or x b / 2 ≡ a * 2 ^ w + b / 2 =
      half-or x b ∙ ap (λ y. bit_or y (b / 2)) half ∙ or_join w a (b / 2) (omega (arith, l, p)) in
    omega (arith, halves, low-or x b, double w a)

-- The number with the lower 32 digits of `hi` above those of `lo`.
unfoldable pub join : ℕ → ℕ → ℕ
join hi lo = hi % 2 ^ 32 * 2 ^ 32 + lo % 2 ^ 32

low_half : (x : ℕ) → bit_and x 0xffffffff ≡ x % 2 ^ 32
low_half x =
    ap (λ y. bit_and y 0xffffffff) (omega arith)
    ∙ and_mask 32 (x / 2 ^ 32) (x % 2 ^ 32) 0xffffffff refl (omega arith)

pub join_lem :
    (hi lo : ℕ) → bit_or (bit_and hi 0xffffffff * 2 ^ 32) (bit_and lo 0xffffffff) ≡ join hi lo
unfolding join
join_lem hi lo =
    rw (low_half hi, low_half lo) (or_join 32 (hi % 2 ^ 32) (lo % 2 ^ 32) (omega arith))
