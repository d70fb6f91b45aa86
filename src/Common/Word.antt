-- ===== src/Common/Word.antt =====
-- Machine words as native numbers below a power of two; every wrap is written out.
use Prim.Native.Nat.{ℕ, ◌+◌, ◌-◌, ◌*◌, ◌/◌, ◌%◌, ◌^◌, ◌<◌}
use kdebugger.Common.Tests.{ltb, if◌then◌else◌}

abbrev pub u8_mod : ℕ
u8_mod = 256

abbrev pub u64_mod : ℕ
u64_mod = 2 ^ 64

abbrev pub IsU8 : ℕ → Type 0
IsU8 b = b < 256

abbrev pub IsU64 : ℕ → Type 0
IsU64 v = v < 2 ^ 64

-- std::uint64_t sums and differences.
abbrev pub add64 : ℕ → ℕ → ℕ
add64 a b = (a + b) % u64_mod

abbrev pub sub64 : ℕ → ℕ → ℕ
sub64 a b = (a + u64_mod - b % u64_mod) % u64_mod

abbrev pub mul64 : ℕ → ℕ → ℕ
mul64 a b = a * b % u64_mod

-- A value of a signed type of `m` values, converted to std::uint64_t: the sign is extended.
abbrev pub sign_extend : ℕ → ℕ → ℕ
sign_extend m v = if ltb v (m / 2) then v else u64_mod - m + v
