-- ===== src/Disas/Encode.antt =====
-- The A64 encodings of the instructions whose decoding is stated below, as the architecture lays out
-- their fields: an independent description for the decoders of ARMv8/Disassembler.cpp.
use nsemu.Common.{ℕ, ◌+◌, ◌*◌, ◌^◌}

-- ADD, ADDS, SUB, SUBS (immediate).
unfoldable pub add_sub_imm_word : ℕ → ℕ → ℕ → ℕ → ℕ → ℕ → ℕ → ℕ
add_sub_imm_word sf op s sh imm12 rn rd =
    sf * 2 ^ 31
    + op * 2 ^ 30
    + s * 2 ^ 29
    + 0b100010 * 2 ^ 23
    + sh * 2 ^ 22
    + imm12 * 2 ^ 10
    + rn * 2 ^ 5
    + rd

-- MOVN, MOVZ and MOVK, for an `opc` of 0, 2 and 3.
unfoldable pub movw_imm_word : ℕ → ℕ → ℕ → ℕ → ℕ → ℕ
movw_imm_word sf opc hw imm16 rd =
    sf * 2 ^ 31 + opc * 2 ^ 29 + 0b100101 * 2 ^ 23 + hw * 2 ^ 21 + imm16 * 2 ^ 5 + rd

-- B, and BL for an `op` of 1.
unfoldable pub b_word : ℕ → ℕ → ℕ
b_word op imm26 = op * 2 ^ 31 + 0b00101 * 2 ^ 26 + imm26

-- CBZ, and CBNZ for an `op` of 1.
unfoldable pub cb_word : ℕ → ℕ → ℕ → ℕ → ℕ
cb_word sf op imm19 rt = sf * 2 ^ 31 + 0b011010 * 2 ^ 25 + op * 2 ^ 24 + imm19 * 2 ^ 5 + rt

-- B.cond.
unfoldable pub b_cond_word : ℕ → ℕ → ℕ
b_cond_word imm19 cond = 0b01010100 * 2 ^ 24 + imm19 * 2 ^ 5 + cond

-- BR, BLR and RET, for an `opc` of 0, 1 and 2.
unfoldable pub br_word : ℕ → ℕ → ℕ
br_word opc rn = 0b1101011 * 2 ^ 25 + opc * 2 ^ 21 + 0b11111 * 2 ^ 16 + rn * 2 ^ 5

-- STR, STRB, STRH (`opc` 0), LDR, LDRB, LDRH (1) and LDRSB, LDRSH, LDRSW (2, 3), of a general
-- register with an unsigned offset.
unfoldable pub ldst_imm_word : ℕ → ℕ → ℕ → ℕ → ℕ → ℕ
ldst_imm_word size opc imm12 rn rt =
    size * 2 ^ 30 + 0b111001 * 2 ^ 24 + opc * 2 ^ 22 + imm12 * 2 ^ 10 + rn * 2 ^ 5 + rt

-- ADD, ADDS, SUB, SUBS (shifted register).
unfoldable pub add_sub_reg_word : ℕ → ℕ → ℕ → ℕ → ℕ → ℕ → ℕ → ℕ → ℕ
add_sub_reg_word sf op s shift rm imm6 rn rd =
    sf * 2 ^ 31
    + op * 2 ^ 30
    + s * 2 ^ 29
    + 0b01011 * 2 ^ 24
    + shift * 2 ^ 22
    + rm * 2 ^ 16
    + imm6 * 2 ^ 10
    + rn * 2 ^ 5
    + rd
