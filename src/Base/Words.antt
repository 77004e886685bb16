-- ===== src/Base/Words.antt =====
-- Fixed-width unsigned integers: a value is a number, and wrap-around is written out.
use Prim.Native.Nat.{ℕ, ◌+◌, ◌-◌, ◌%◌, ◌^◌}

abbrev pub u8 : ℕ → ℕ
u8 n = n % 2 ^ 8

abbrev pub u32 : ℕ → ℕ
u32 n = n % 2 ^ 32

abbrev pub u64 : ℕ → ℕ
u64 n = n % 2 ^ 64

-- `a - b` on uint64_t and on uint32_t, for operands in range
abbrev pub sub64 : ℕ → ℕ → ℕ
sub64 a b = (a + 2 ^ 64 - b) % 2 ^ 64

abbrev pub sub32 : ℕ → ℕ → ℕ
sub32 a b = (a + 2 ^ 32 - b) % 2 ^ 32

-- `x++` on a uint64_t and on a uint32_t
abbrev pub inc64 : ℕ → ℕ
inc64 n = u64 (n + 1)

abbrev pub inc32 : ℕ → ℕ
inc32 n = u32 (n + 1)

-- `BIT(k)`, that is `1 << k`, as the unsigned value that it is converted to
abbrev pub bit_mask : ℕ → ℕ
bit_mask k = 2 ^ k
