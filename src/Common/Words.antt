-- ===== src/Common/Words.antt =====
-- Casts to the fixed widths of C++, shifts, and the two readings of a signed word.
-- A word of w bits is a number below 2 ^ w; each place where the source wraps says so by a cast.
use Prim.Native.Nat.{ℕ, ◌+◌, ◌-◌, ◌*◌, ◌/◌, ◌%◌, ◌^◌}
use nsemu.Common.Tests.{ltb, if◌then◌else◌}

abbrev pub u8 : ℕ → ℕ
u8 n = n % 2 ^ 8

abbrev pub u16 : ℕ → ℕ
u16 n = n % 2 ^ 16

abbrev pub u32 : ℕ → ℕ
u32 n = n % 2 ^ 32

abbrev pub u64 : ℕ → ℕ
u64 n = n % 2 ^ 64

-- The result of -x at 64 bits, for x < 2 ^ 64.
abbrev pub neg64 : ℕ → ℕ
neg64 x = (2 ^ 64 - x) % 2 ^ 64

-- The bits of ~x at 64 bits, for x < 2 ^ 64.
abbrev pub not64 : ℕ → ℕ
not64 x = 2 ^ 64 - 1 - x

-- (int64_t)(int32_t)x as a 64-bit word, for any x: the low 32 bits, sign extended.
abbrev pub sext32 : ℕ → ℕ
sext32 x = if ltb (x % 2 ^ 32) (2 ^ 31) then x % 2 ^ 32 else x % 2 ^ 32 + (2 ^ 64 - 2 ^ 32)

abbrev pub sext16 : ℕ → ℕ
sext16 x = if ltb (x % 2 ^ 16) (2 ^ 15) then x % 2 ^ 16 else x % 2 ^ 16 + (2 ^ 64 - 2 ^ 16)

abbrev pub sext8 : ℕ → ℕ
sext8 x = if ltb (x % 2 ^ 8) (2 ^ 7) then x % 2 ^ 8 else x % 2 ^ 8 + (2 ^ 64 - 2 ^ 8)

infixl 75 ◌<<<◌ ◌>>>◌
-- A left shift before the cast to its width, and an unsigned right shift.
abbrev pub ◌<<<◌ : ℕ → ℕ → ℕ
x <<< k = x * 2 ^ k

abbrev pub ◌>>>◌ : ℕ → ℕ → ℕ
x >>> k = x / 2 ^ k

-- (int64_t)x >> k as a 64-bit word, for x < 2 ^ 64 and k < 64: the floor of the signed value.
abbrev pub asr64 : ℕ → ℕ → ℕ
asr64 x k = if ltb x (2 ^ 63) then x / 2 ^ k else 2 ^ 64 - 1 - (2 ^ 64 - 1 - x) / 2 ^ k
