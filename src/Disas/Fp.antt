-- ===== src/Disas/Fp.antt =====
-- ARMv8/Disassembler.cpp: scalar floating point, of which the moves alone are supported.
use nsemu.Common.{ℕ, ◌||◌, ltb, leb, ◌==◌, if◌then◌else◌, Outcome, ok, abort, List, [], ◌∷◌}
use nsemu.Util.Count.{ctz32}
use nsemu.Disas.Callback.{Call, fmov_reg, fmov_conv}
use nsemu.Disas.Field.{field, bit}

-- DisasFp1Src: the opcodes 4, 5, 7, 14 and 15 call nothing, of the others FMOV is supported.
unfoldable pub disas_fp_1src : ℕ → Outcome (List Call)
disas_fp_1src insn =
    let opcode = field insn 15 6 in
    if opcode == 0x4 || opcode == 0x5 || opcode == 0x7
    then ok []
    else if opcode == 0x0
    then ok (fmov_reg (field insn 0 5) (field insn 5 5) (field insn 22 2) ∷ [])
    else if opcode == 0xe || opcode == 0xf
    then ok []
    else abort

unfoldable pub disas_fp_int_conv : ℕ → Outcome (List Call)
disas_fp_int_conv insn =
    let opcode = field insn 16 3 in
    if bit insn 29
    then abort
    else if ltb 5 opcode
    then if leb 2 (field insn 19 2)
      then abort
      else ok (fmov_conv (field insn 0 5) (field insn 5 5) (field insn 22 2) (bit opcode 0) ∷ [])
    else abort

unfoldable pub disas_data_proc_fp : ℕ → Outcome (List Call)
unfolding disas_fp_1src disas_fp_int_conv ctz32
disas_data_proc_fp insn =
    let low = ctz32 (field insn 12 4) in
    if bit insn 24
    then abort
    else if field insn 21 1 == 0
    then abort
    else if field insn 10 2 == 0
    then if low == 0 || low == 1
      then abort
      else if low == 2
      then disas_fp_1src insn
      else if low == 3
      then abort
      else disas_fp_int_conv insn
    else abort
