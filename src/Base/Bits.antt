-- ===== src/Base/Bits.antt =====
-- The binary digits of a number, and what `&` and `^` do to each of them, at every width.
use Prim.Native.Nat.{
  ℕ, zero, suc, ◌+◌, ◌-◌, ◌*◌, ◌/◌, ◌%◌, ◌^◌, ◌≤◌, ◌<◌, min, bit_and, bit_xor, digits, differ,
  bit_and-bitwise, bit_xor-bitwise,
}
use mathlib.Core.Path.{◌≡◌, refl, sym, ◌∙◌, ap, subst}
use mathlib.Core.Logic.{◌≢◌}
use native.Mathlib.Nat.{pow-succ', div-div-eq-div-mul, le_refl}
use native.Mathlib.Decide.{ℕ_discrete}
use native.Mathlib.Omega.{arith}
use ikgt_usage.Base.Tests.{◌==◌}

-- digit `k` of `x`
pub bit : ℕ → ℕ → ℕ
bit x k = x / 2 ^ k % 2

pub bit-lt-two : (x k : ℕ) → bit x k < 2
unfolding bit
bit-lt-two x k = omega arith

-- The lowest digit, and the others as the digits of the half.
pub bit-at_zero : (x : ℕ) → bit x 0 ≡ x % 2
unfolding bit
bit-at_zero x = omega arith

pub bit-at_suc : (x k : ℕ) → bit x (suc k) ≡ bit (x / 2) k
unfolding bit
bit-at_suc x k = rw (pow-succ' 2 k, ← div-div-eq-div-mul x 2 (2 ^ k))

pub bit-of_zero : (k : ℕ) → bit 0 k ≡ 0
bit-of_zero zero = bit-at_zero 0
bit-of_zero (suc k) = bit-at_suc 0 k ∙ bit-of_zero k

-- A number put together from its half and its lowest digit.
pub bit-join_suc : (d e k : ℕ) → e < 2 → bit (d * 2 + e) (suc k) ≡ bit d k
bit-join_suc d e k h = bit-at_suc (d * 2 + e) k ∙ ap (λ n. bit n k) (omega arith)

differ-digits : (a b : ℕ) → a < 2 → b < 2 → differ a b ≡ (a + b) % 2
differ-digits zero b p q = omega arith
differ-digits (suc zero) zero p q = refl
differ-digits (suc zero) (suc zero) p q = refl
differ-digits (suc zero) (suc (suc b)) p q = absurd (omega arith)
differ-digits (suc (suc a)) b p q = absurd (omega arith)

bit-xor_digits :
    (n a b k : ℕ) → a ≤ n → bit (digits (λ y. y) differ n a b) k ≡ (bit a k + bit b k) % 2
bit-xor_digits zero zero b k h = omega (arith, bit-of_zero k, bit-lt-two b k)
bit-xor_digits zero (suc a) b k h = absurd (omega arith)
bit-xor_digits (suc n) zero b k h = omega (arith, bit-of_zero k, bit-lt-two b k)
bit-xor_digits (suc n) (suc a) b zero h = omega (
  arith,
  bit-at_zero (digits (λ y. y) differ n (suc a / 2) (b / 2) * 2 + differ (suc a % 2) (b % 2)),
  bit-at_zero (suc a),
  bit-at_zero b,
  differ-digits (suc a % 2) (b % 2) (omega arith) (omega arith),
)
bit-xor_digits (suc n) (suc a) b (suc k) h = omega (
  arith,
  bit-join_suc (digits (λ y. y) differ n (suc a / 2) (b / 2)) (differ (suc a % 2) (b % 2)) k
      (omega (arith, differ-digits (suc a % 2) (b % 2) (omega arith) (omega arith))),
  bit-xor_digits n (suc a / 2) (b / 2) k (omega arith),
  bit-at_suc (suc a) k,
  bit-at_suc b k,
)

pub bit-xor : (a b k : ℕ) → bit (bit_xor a b) k ≡ (bit a k + bit b k) % 2
bit-xor a b k = simp bit_xor-bitwise (bit-xor_digits a a b k (le_refl a))

bit-and_digits : (n a b k : ℕ) → a ≤ n → bit (digits (λ y. 0) min n a b) k ≡ min (bit a k) (bit b k)
bit-and_digits zero zero b k h = omega (arith, bit-of_zero k)
bit-and_digits zero (suc a) b k h = absurd (omega arith)
bit-and_digits (suc n) zero b k h = omega (arith, bit-of_zero k)
bit-and_digits (suc n) (suc a) b zero h = omega (
  arith,
  bit-at_zero (digits (λ y. 0) min n (suc a / 2) (b / 2) * 2 + min (suc a % 2) (b % 2)),
  bit-at_zero (suc a),
  bit-at_zero b,
)
bit-and_digits (suc n) (suc a) b (suc k) h = omega (
  arith,
  bit-join_suc (digits (λ y. 0) min n (suc a / 2) (b / 2)) (min (suc a % 2) (b % 2)) k
      (omega arith),
  bit-and_digits n (suc a / 2) (b / 2) k (omega arith),
  bit-at_suc (suc a) k,
  bit-at_suc b k,
)

pub bit-and : (a b k : ℕ) → bit (bit_and a b) k ≡ min (bit a k) (bit b k)
bit-and a b k = simp bit_and-bitwise (bit-and_digits a a b k (le_refl a))

-- A power of two has one digit.
pub bit-pow_self : (j : ℕ) → bit (2 ^ j) j ≡ 1
bit-pow_self zero = bit-at_zero 1
bit-pow_self (suc j) =
    bit-at_suc (2 ^ suc j) j ∙ ap (λ n. bit n j) (omega (arith, pow-succ' 2 j)) ∙ bit-pow_self j

pub bit-pow_ne : (j k : ℕ) → j ≢ k → bit (2 ^ j) k ≡ 0
bit-pow_ne zero zero h = absurd (h refl)
bit-pow_ne zero (suc k) h = bit-at_suc 1 k ∙ bit-of_zero k
bit-pow_ne (suc j) zero h = omega (arith, bit-at_zero (2 ^ suc j), pow-succ' 2 j)
bit-pow_ne (suc j) (suc k) h =
    bit-at_suc (2 ^ suc j) k
    ∙ ap (λ n. bit n k) (omega (arith, pow-succ' 2 j))
    ∙ bit-pow_ne j k (λ e. h (ap suc e))

-- Numbers with the same digits are equal.
bit-ext_fuel : (n x y : ℕ) → x ≤ n → y ≤ n → ((k : ℕ) → bit x k ≡ bit y k) → x ≡ y
bit-ext_fuel zero x y p q h = omega arith
bit-ext_fuel (suc n) x y p q h = omega (
  arith,
  h 0,
  bit-at_zero x,
  bit-at_zero y,
  bit-ext_fuel n (x / 2) (y / 2) (omega arith) (omega arith)
      (λ k. sym (bit-at_suc x k) ∙ h (suc k) ∙ bit-at_suc y k),
)

pub bit-ext : (x y : ℕ) → ((k : ℕ) → bit x k ≡ bit y k) → x ≡ y
bit-ext x y h = bit-ext_fuel (x + y) x y (omega arith) (omega arith) h

-- `2 ^ j & x` is zero exactly when digit `j` of `x` is.
pub bit_and-pow_zero : (j x : ℕ) → bit x j ≡ 0 → bit_and (2 ^ j) x ≡ 0
bit_and-pow_zero j x h = bit-ext (bit_and (2 ^ j) x) 0 digit
  where
    digit : (k : ℕ) → bit (bit_and (2 ^ j) x) k ≡ bit 0 k
    digit k = elim (ℕ_discrete j k) [
      | yes e ↦ omega (arith, bit-and (2 ^ j) x k, bit-of_zero k, subst (λ i. bit x i ≡ 0) e h)
      | no ne ↦ omega (arith, bit-and (2 ^ j) x k, bit-of_zero k, bit-pow_ne j k ne)
    ]

pub bit_and-pow_one : (j x : ℕ) → bit x j ≡ 1 → bit_and (2 ^ j) x ≢ 0
bit_and-pow_one j x h e =
    omega (arith, bit-and (2 ^ j) x j, bit-pow_self j, bit-of_zero j, ap (λ n. bit n j) e)

pub bit_and_comm : (a b : ℕ) → bit_and a b ≡ bit_and b a
bit_and_comm a b =
    bit-ext (bit_and a b) (bit_and b a) (λ k. omega (arith, bit-and a b k, bit-and b a k))

-- C's test of one digit by a mask.
pub mask_test : (j x : ℕ) → (bit_and (2 ^ j) x == 0) ≡ (bit x j == 0)
mask_test j x = elim (ℕ_discrete (bit x j) 0) [
  | yes e ↦ ground (arith, bit_and-pow_zero j x e)
  | no ne ↦ ground (arith, bit_and-pow_one j x (omega (arith, bit-lt-two x j)))
]

pub mask_test_right : (j x : ℕ) → (bit_and x (2 ^ j) == 0) ≡ (bit x j == 0)
mask_test_right j x = rw (bit_and_comm x (2 ^ j)) (mask_test j x)

-- `x & 1` and `x ^ 2 ^ j`
pub low_test : (x : ℕ) → (bit_and x 1 == 0) ≡ (x % 2 == 0)
low_test x = ground (arith, mask_test_right 0 x, bit-at_zero x)

pub bit-flip_self : (x j : ℕ) → bit (bit_xor x (2 ^ j)) j ≡ 1 - bit x j
bit-flip_self x j = omega (arith, bit-xor x (2 ^ j) j, bit-pow_self j, bit-lt-two x j)

pub bit-flip_ne : (x j k : ℕ) → j ≢ k → bit (bit_xor x (2 ^ j)) k ≡ bit x k
bit-flip_ne x j k ne = omega (arith, bit-xor x (2 ^ j) k, bit-pow_ne j k ne, bit-lt-two x k)

-- The numbers below `2 ^ n` are those without a digit from `n` on.
pub bit-of_less : (n x k : ℕ) → x < 2 ^ n → n ≤ k → bit x k ≡ 0
bit-of_less zero x k lt le = let nothing : x ≡ 0 = omega (arith, lt) in rw nothing (bit-of_zero k)
bit-of_less (suc n) x zero lt le = absurd (omega (arith, le))
bit-of_less (suc n) x (suc k) lt le =
    bit-at_suc x k ∙ bit-of_less n (x / 2) k (omega (arith, lt, pow-succ' 2 n)) (omega (arith, le))

pub less_of_bits : (n x : ℕ) → ((k : ℕ) → n ≤ k → bit x k ≡ 0) → x < 2 ^ n
less_of_bits zero x h =
    let nothing : x ≡ 0 = bit-ext x 0 (λ k. h k (omega arith) ∙ sym (bit-of_zero k)) in
    rw nothing (omega arith)
less_of_bits (suc n) x h = omega (
  arith,
  pow-succ' 2 n,
  less_of_bits n (x / 2) (λ k le. sym (bit-at_suc x k) ∙ h (suc k) (omega (arith, le))),
)
