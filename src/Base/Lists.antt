-- ===== src/Base/Lists.antt =====
-- C arrays as lists with native indices, and predicates on all their elements.
use Prim.Native.Nat.{ℕ, zero, suc, ◌+◌, ◌<◌}
use mathlib.Core.Bool.{Bool, true, ◌&&◌}
use mathlib.Core.Path.{◌≡◌, refl, ap, subst, sym}
use mathlib.Core.List.{List, [], ◌∷◌, ◌++◌}
use mathlib.Core.Option.{Option, none, some}
use native.Mathlib.Decide.{ℕ_discrete}
use native.Mathlib.Omega.{arith}

module _ {ℓ} {A : Type ℓ} where
  abbrev pub length : List A → ℕ
  length [] = 0
  length (_ ∷ xs) = suc (length xs)

  abbrev pub get_elem? : List A → ℕ → Option A
  get_elem? [] _ = none
  get_elem? (x ∷ _) zero = some x
  get_elem? (_ ∷ xs) (suc i) = get_elem? xs i

  abbrev pub replicate : ℕ → A → List A
  replicate zero _ = []
  replicate (suc n) a = a ∷ replicate n a

  pub length-append : (xs ys : List A) → length (xs ++ ys) ≡ length xs + length ys
  length-append [] ys = omega arith
  length-append (x ∷ xs) ys = omega (arith, length-append xs ys)

  pub length-replicate : (n : ℕ) (a : A) → length (replicate n a) ≡ n
  length-replicate zero a = refl
  length-replicate (suc n) a = ap suc (length-replicate n a)

abbrev pub All {ℓ κ} : {A : Type ℓ} → (A → Type κ) → List A → Type κ
All P [] = Unit
All P (x ∷ xs) = P x × All P xs

-- A test on all numbers below a bound, and what it shows.
unfoldable pub all_less : (ℕ → Bool) → ℕ → Bool
all_less p zero = true
all_less p (suc n) = all_less p n && p n

pub of_all_less : (p : ℕ → Bool) (n : ℕ) → all_less p n ≡ true → (i : ℕ) → i < n → p i ≡ true
unfolding all_less
of_all_less p zero h i lt = absurd (omega arith)
of_all_less p (suc n) h i lt = elim (ℕ_discrete i n) [
  | yes e ↦ subst (λ k. p k ≡ true) (sym e) (ground arith)
  | no ne ↦ of_all_less p n (ground arith) i (omega arith)
]
