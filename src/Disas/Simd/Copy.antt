-- ===== src/Disas/Simd/Copy.antt =====
-- ARMv8/Disassembler.cpp: DUP, INS, UMOV and SMOV. The position of the lowest one of imm5 gives the
-- size of the element; the digits above it are its index.
use nsemu.Common.{
  ℕ, ◌+◌, ◌-◌, Bool, not, ◌&&◌, ◌||◌, ◌>>>◌, ltb, ◌==◌, if◌then◌else◌, Outcome, ok, abort, List, [],
  ◌∷◌,
}
use nsemu.Machine.{gpr_dummy}
use nsemu.Util.Count.{ctz32}
use nsemu.Disas.Callback.{
  Call, read_vec_reg, read_vec_elem, write_vec_elem, dup_vec_reg, dup_vec_reg_from_gen, sext_32,
}
use nsemu.Disas.Field.{field, bit}

unfoldable pub disas_simd_inse : ℕ → ℕ → ℕ → ℕ → Outcome (List Call)
unfolding ctz32
disas_simd_inse rd rn imm4 imm5 =
    let size = ctz32 imm5 in
    if ltb 3 size
    then abort
    else ok (
        read_vec_elem gpr_dummy rn (field imm4 size 4) size
        ∷ write_vec_elem rd gpr_dummy (field imm5 (1 + size) 5) size
        ∷ [])

unfoldable pub disas_simd_insg : ℕ → ℕ → ℕ → Outcome (List Call)
unfolding ctz32
disas_simd_insg rd rn imm5 =
    let size = ctz32 imm5 in
    if ltb 3 size
    then abort
    else ok (write_vec_elem rd rn (field imm5 (1 + size) (4 - size)) size ∷ [])

unfoldable pub disas_simd_dupe : Bool → ℕ → ℕ → ℕ → Outcome (List Call)
unfolding ctz32
disas_simd_dupe is_q rd rn imm5 =
    let size = ctz32 imm5 in
    if ltb 3 size || size == 3 && not is_q
    then abort
    else ok
        (dup_vec_reg rd rn (imm5 >>> (size + 1)) size (if imm5 >>> 4 == 0 then 64 else 128) ∷ [])

unfoldable pub disas_simd_dupg : Bool → ℕ → ℕ → ℕ → Outcome (List Call)
unfolding ctz32
disas_simd_dupg is_q rd rn imm5 =
    let size = ctz32 imm5 in
    if ltb 3 size || size == 3 && not is_q
    then abort
    else ok (dup_vec_reg_from_gen rd rn size (if is_q then 128 else 64) ∷ [])

unfoldable pub disas_simd_umov_smov : Bool → Bool → ℕ → ℕ → ℕ → Outcome (List Call)
unfolding ctz32
disas_simd_umov_smov is_q is_signed rn rd imm5 =
    let size = ctz32 imm5 in
    let element = field imm5 (1 + size) 4 in
    let unallocated =
      if is_signed
      then ltb 2 size || size == 2 && not is_q
      else ltb 3 size || ltb size 3 && is_q || size == 3 && not is_q in
    let extension = if is_signed && not is_q then sext_32 rd rd ∷ [] else [] in
    if unallocated then abort else ok (read_vec_elem rd rn element size ∷ extension)

unfoldable pub disas_simd_copy : ℕ → Outcome (List Call)
unfolding disas_simd_inse disas_simd_insg disas_simd_dupe disas_simd_dupg disas_simd_umov_smov
disas_simd_copy insn =
    let rd = field insn 0 5 in
    let rn = field insn 5 5 in
    let imm4 = field insn 11 4 in
    let is_q = bit insn 30 in
    let imm5 = field insn 16 5 in
    if bit insn 29
    then if is_q then disas_simd_inse rd rn imm4 imm5 else abort
    else if imm4 == 0
    then disas_simd_dupe is_q rd rn imm5
    else if imm4 == 1
    then disas_simd_dupg is_q rd rn imm5
    else if imm4 == 3
    then if is_q then disas_simd_insg rd rn imm5 else abort
    else if imm4 == 5 || imm4 == 7
    then disas_simd_umov_smov is_q (imm4 == 5) rn rd imm5
    else abort

unfoldable pub disas_simd_scalar_copy : ℕ → Outcome (List Call)
unfolding ctz32
disas_simd_scalar_copy insn =
    let imm5 = field insn 16 5 in
    let size = ctz32 imm5 in
    if bit insn 29 || not (field insn 11 4 == 0)
    then abort
    else if ltb 3 size
    then abort
    else ok (read_vec_reg (field insn 0 5) (field insn 5 5) (imm5 >>> (size + 1)) size ∷ [])
