-- ===== src/Disas/Field.antt =====
-- ARMv8/Disassembler.cpp: the fields of an instruction word. The decoders call extract32, sextract32
-- and sextract64 on fields that lie inside the word, where their assertions hold; `field` and
-- `signed_field` are the values that they return there.
use nsemu.Common.{ℕ, ◌+◌, ◌-◌, ◌/◌, ◌%◌, ◌^◌, ◌<◌, Bool, ltb, ◌==◌, if◌then◌else◌, arith}

-- extract32 (insn, from, len).
unfoldable pub field : ℕ → ℕ → ℕ → ℕ
field insn from len = insn / 2 ^ from % 2 ^ len

-- A field of one bit, as a test.
abbrev pub bit : ℕ → ℕ → Bool
bit insn from = field insn from 1 == 1

-- sextract32 or sextract64 (insn, from, len), converted to uint64_t.
unfoldable pub signed_field : ℕ → ℕ → ℕ → ℕ
unfolding field
signed_field insn from len =
    if ltb (field insn from len) (2 ^ (len - 1))
    then field insn from len
    else field insn from len + (2 ^ 64 - 2 ^ len)

pub field-lt : (insn from len : ℕ) → 0 < 2 ^ len → field insn from len < 2 ^ len
unfolding field
field-lt insn from len h = omega arith
