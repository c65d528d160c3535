-- ===== src/Cpu/Bitfield.antt =====
-- ARMv8/Interpreter.cpp: bit-field extraction, sign extension, reversals and leading-bit counts.
pub mod Extract
use nsemu.Common.{
  ℕ, zero, suc, ◌+◌, ◌-◌, ◌*◌, ◌/◌, ◌%◌, ◌^◌, Bool, true, false, u32, u64, not64, sext32, ◌<<<◌,
  ◌>>>◌, bit_and, bit_or, ltb, leb, ◌==◌, if◌then◌else◌, Outcome, ok, ◌>>=◌,
}
use nsemu.Machine.{Arm, gpr_dummy}
use nsemu.Util.{byte_swap16_uint, byte_swap32_uint, byte_swap64_uint}
use nsemu.Cpu.{x, w, set_x, xw}
use nsemu.Cpu.Alu.{OpType}
use nsemu.Cpu.Arith.{shift_i64}

-- SExtractI64 and UExtractI64 before the label `fin`. The amounts are unsigned int, so a field that
-- ends past bit 64 gives a shift that is far too large.
shifted_field : OpType → ℕ → ℕ → ℕ → ℕ → Arm → Outcome Arm
shifted_field right rd_idx rn_idx pos len a =
    if u32 (pos + len) == 64
    then shift_i64 rd_idx rn_idx right (u32 (64 + 2 ^ 32 - len)) true a
    else do
      a' ← shift_i64 gpr_dummy rn_idx OpType.lsl (u32 (64 + 2 ^ 32 + 2 ^ 32 - len - pos)) true a
      shift_i64 rd_idx gpr_dummy right (u32 (64 + 2 ^ 32 - len)) true a'

unfoldable pub sextract_i64 : ℕ → ℕ → ℕ → ℕ → Bool → Arm → Outcome Arm
unfolding shifted_field
sextract_i64 rd_idx rn_idx pos len bit64 a = do
  a' ← shifted_field OpType.asr rd_idx rn_idx pos len a
  ok (if bit64 then a' else set_x rd_idx (sext32 (x a' rd_idx)) a')

unfoldable pub uextract_i64 : ℕ → ℕ → ℕ → ℕ → Bool → Arm → Outcome Arm
unfolding shifted_field
uextract_i64 rd_idx rn_idx pos len bit64 a = do
  a' ← shifted_field OpType.lsr rd_idx rn_idx pos len a
  ok (if bit64 then a' else set_x rd_idx (bit_and (x a' rd_idx) 0xffffffff) a')

unfoldable pub sext_32 : ℕ → ℕ → Arm → Outcome Arm
sext_32 rd_idx rn_idx a = ok (set_x rd_idx (sext32 (w a rn_idx)) a)

-- ReverseBit64: bytes, then nibbles, then bits.
unfoldable pub reverse_bit64 : ℕ → ℕ
reverse_bit64 v =
    let b = byte_swap64_uint v in
    let n =
      bit_or (bit_and b 0xf0f0f0f0f0f0f0f0 >>> 4) (u64 (bit_and b 0x0f0f0f0f0f0f0f0f <<< 4)) in
    bit_or
      (bit_or (bit_or (bit_and n 0x8888888888888888 >>> 3) (bit_and n 0x4444444444444444 >>> 1))
        (u64 (bit_and n 0x2222222222222222 <<< 1)))
      (u64 (bit_and n 0x1111111111111111 <<< 3))

unfoldable pub rev_bit : ℕ → ℕ → Bool → Arm → Outcome Arm
rev_bit rd_idx rn_idx bit64 a = ok (set_x rd_idx (reverse_bit64 (xw bit64 a rn_idx)) a)

-- The argument of byte_swap16_uint is a uint16_t, that of byte_swap32_uint a uint32_t.
unfoldable pub rev_byte16 : ℕ → ℕ → Bool → Arm → Outcome Arm
rev_byte16 rd_idx rn_idx bit64 a =
    ok (set_x rd_idx (byte_swap16_uint (xw bit64 a rn_idx % 2 ^ 16)) a)

unfoldable pub rev_byte32 : ℕ → ℕ → Bool → Arm → Outcome Arm
rev_byte32 rd_idx rn_idx bit64 a =
    ok (set_x rd_idx (byte_swap32_uint (xw bit64 a rn_idx % 2 ^ 32)) a)

unfoldable pub rev_byte64 : ℕ → ℕ → Bool → Arm → Outcome Arm
rev_byte64 rd_idx rn_idx bit64 a = ok (set_x rd_idx (byte_swap64_uint (x a rn_idx)) a)

-- The number of binary digits of `v`, for v < 2 ^ n.
unfoldable pub bit_length : ℕ → ℕ → ℕ
bit_length zero v = 0
bit_length (suc n) v = if v == 0 then 0 else bit_length n (v / 2) + 1

-- __builtin_clz and __builtin_clzll count the zeros above the highest digit.
unfoldable pub clz32 : ℕ → ℕ
unfolding bit_length
clz32 val = if val == 0 then 32 else 32 - bit_length 32 val

unfoldable pub clz64 : ℕ → ℕ
unfolding bit_length
clz64 val = if val == 0 then 64 else 64 - bit_length 64 val

-- __builtin_clrsb counts the digits below the sign that repeat it.
unfoldable pub cls32 : ℕ → ℕ
unfolding bit_length
cls32 val =
    if val == 0 then 32 else 31 - bit_length 32 (if ltb val (2 ^ 31) then val else 2 ^ 32 - 1 - val)

unfoldable pub cls64 : ℕ → ℕ
unfolding bit_length
cls64 val =
    if val == 0 then 64 else 63 - bit_length 64 (if ltb val (2 ^ 63) then val else not64 val)

unfoldable pub cnt_lead_zero : ℕ → ℕ → Bool → Arm → Outcome Arm
unfolding clz32 clz64
cnt_lead_zero rd_idx rn_idx bit64 a =
    ok (set_x rd_idx (if bit64 then clz64 (x a rn_idx) else clz32 (w a rn_idx)) a)

unfoldable pub cnt_lead_sign : ℕ → ℕ → Bool → Arm → Outcome Arm
unfolding cls32 cls64
cnt_lead_sign rd_idx rn_idx bit64 a =
    ok (set_x rd_idx (if bit64 then cls64 (x a rn_idx) else cls32 (w a rn_idx)) a)
