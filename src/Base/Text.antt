-- ===== src/Base/Text.antt =====
-- C strings as lists of bytes, and what the driver uses of the C library on them.
use Prim.Native.Nat.{ℕ, zero, suc, ◌+◌, ◌-◌, ◌/◌, ◌%◌}
use Prim.Native.Char.{code}
use Prim.Native.String.{String}
use mathlib.Core.Bool.{Bool, true, false, ◌&&◌}
use mathlib.Core.List.{List, [], ◌∷◌}
use ikgt_usage.Base.Tests.{ltb, leb, ◌==◌, if◌then◌else◌}

abbrev pub codes : String → List ℕ
codes String.[] = []
codes (String.◌∷◌ c s) = code c ∷ codes s

-- `tolower` in the C locale
unfoldable pub tolower : ℕ → ℕ
tolower c = if leb b'A' c && leb c b'Z' then c + 32 else c

-- `strcasecmp(a, b) == 0`
unfoldable pub eq_ignoring_case : List ℕ → List ℕ → Bool
unfolding tolower
eq_ignoring_case [] [] = true
eq_ignoring_case [] (_ ∷ _) = false
eq_ignoring_case (_ ∷ _) [] = false
eq_ignoring_case (a ∷ s) (b ∷ s') = (tolower a == tolower b) && eq_ignoring_case s s'

-- an upper-case digit of printf
unfoldable pub digit_char : ℕ → ℕ
digit_char d = if ltb d 10 then b'0' + d else b'A' + d - 10

-- The digits of `n` in a base of two or more, before `rest`; fuel of one more than their number.
unfoldable pub print_digits : ℕ → ℕ → ℕ → List ℕ → List ℕ
unfolding digit_char
print_digits zero radix n rest = rest
print_digits (suc fuel) radix n rest =
    let more = print_digits fuel radix (n / radix) (digit_char (n % radix) ∷ rest) in
    if n / radix == 0 then digit_char (n % radix) ∷ rest else more

-- `%u` and `%llu` of a number below 10 ^ 20, and `%X` and `%llX` of one below 16 ^ 16
unfoldable pub print_decimal : ℕ → List ℕ
unfolding print_digits
print_decimal n = print_digits 20 10 n []

unfoldable pub print_hex : ℕ → List ℕ
unfolding print_digits
print_hex n = print_digits 16 16 n []

-- The bytes that `strncpy(_, s, n)` writes: the string cut at `n`, or padded with NUL.
unfoldable pub strncpy : ℕ → List ℕ → List ℕ
strncpy zero s = []
strncpy (suc n) [] = 0 ∷ strncpy n []
strncpy (suc n) (c ∷ s) = c ∷ strncpy n s

-- The first `n` bytes.
unfoldable pub cut : ℕ → List ℕ → List ℕ
cut zero s = []
cut (suc n) [] = []
cut (suc n) (c ∷ s) = c ∷ cut n s
