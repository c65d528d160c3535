-- ===== src/Disas/Simd/Three.antt =====
-- ARMv8/Disassembler.cpp: vector operations on three registers.
use nsemu.Common.{
  ℕ, zero, suc, ◌+◌, ◌-◌, ◌*◌, ◌/◌, Bool, true, false, not, ◌&&◌, ◌||◌, ltb, leb, ◌==◌,
  if◌then◌else◌, Outcome, ok, abort, ◌>>=◌, List, [], ◌∷◌, ◌++◌,
}
use nsemu.Machine.{gpr_dummy}
use nsemu.Disas.Callback.{
  Call, add_reg, and_vec_reg, bic_vec_reg, orr_vec_reg, eor_vec_reg, not_vec_reg, read_vec_elem,
  write_vec_elem, compare_equal_vec, compare_test_bits_vec,
}
use nsemu.Disas.Field.{field, bit}
use nsemu.Disas.LdStVec.{elements_of}

abbrev pub gpr_dummy2 : ℕ
gpr_dummy2 = 35

abbrev pub vreg_dummy : ℕ
vreg_dummy = 32

-- Handle3Same: of its operations CMEQ and CMTST are supported.
unfoldable pub handle_3same : ℕ → Bool → ℕ → ℕ → ℕ → ℕ → ℕ → Outcome (List Call)
handle_3same opcode u rd rn rm index size =
    if opcode == 0x11
    then if u
      then ok (compare_equal_vec rd rn rm index size ∷ [])
      else ok (compare_test_bits_vec rd rn rm index size ∷ [])
    else abort

-- The body of the loop of Handle3SamePair. An opcode that its switch does not list, as those of the
-- pairwise maxima and minima, does nothing between the reads and the write.
unfoldable pub pair_element : ℕ → ℕ → ℕ → ℕ → ℕ → ℕ → ℕ → Outcome (List Call)
pair_element opcode elements rd rn rm size e =
    let half = elements / 2 in
    let reg_idx = if ltb e half then rn else rm in
    let base = if ltb e half then e else e - half in
    let sum =
      if opcode == 0x17 then add_reg gpr_dummy gpr_dummy gpr_dummy2 false true ∷ [] else [] in
    if opcode == 0x58 || opcode == 0x5a || opcode == 0x5e || opcode == 0x78 || opcode == 0x7e
    then abort
    else ok (
        read_vec_elem gpr_dummy reg_idx (2 * base) size
          ∷ read_vec_elem gpr_dummy2 reg_idx (2 * base + 1) size
          ∷ sum
        ++ write_vec_elem vreg_dummy gpr_dummy e size ∷ [])

-- A loop that calls `body` for `left` elements, from `e` on.
unfoldable pub for_elements : ℕ → ℕ → (ℕ → Outcome (List Call)) → Outcome (List Call)
for_elements zero e body = ok []
for_elements (suc left) e body = do
  calls ← body e
  rest ← for_elements left (e + 1) body
  ok (calls ++ rest)

unfoldable pub handle_3same_pair : Bool → ℕ → ℕ → ℕ → ℕ → ℕ → Outcome (List Call)
unfolding pair_element for_elements
handle_3same_pair is_q opcode rd rn rm size = do
  let elements = elements_of is_q size
  calls ← for_elements elements 0 (pair_element opcode elements rd rn rm size)
  ok (
      calls
      ++ read_vec_elem gpr_dummy vreg_dummy 0 3
        ∷ write_vec_elem rd gpr_dummy 0 3
        ∷ read_vec_elem gpr_dummy vreg_dummy 1 3
        ∷ write_vec_elem rd gpr_dummy 1 3
        ∷ [])

unfoldable pub disas_simd_3same_logic : ℕ → Outcome (List Call)
disas_simd_3same_logic insn =
    let rd = field insn 0 5 in
    let rn = field insn 5 5 in
    let rm = field insn 16 5 in
    let op = field insn 22 2 + 4 * field insn 29 1 in
    if op == 0
    then ok (and_vec_reg rd rn rm ∷ [])
    else if op == 1
    then ok (bic_vec_reg rd rn rm ∷ [])
    else if op == 2
    then ok (orr_vec_reg rd rn rm ∷ [])
    else if op == 3
    then ok (not_vec_reg vreg_dummy rm ∷ orr_vec_reg rd rn vreg_dummy ∷ [])
    else if op == 4
    then ok (eor_vec_reg rd rn rm ∷ [])
    else abort

unfoldable pub disas_simd_3same_int : ℕ → Outcome (List Call)
unfolding for_elements handle_3same
disas_simd_3same_int insn =
    let size = field insn 22 2 in
    for_elements (elements_of (bit insn 30) size) 0 (λ e.
      handle_3same (field insn 11 5) (bit insn 29) (field insn 0 5) (field insn 5 5)
        (field insn 16 5) e size)

-- The pairwise operations of DisasSimdThreeRegSame.
unfoldable pub three_reg_pair : ℕ → ℕ → Outcome (List Call)
unfolding handle_3same_pair
three_reg_pair insn opcode =
    let is_q = bit insn 30 in
    let size = field insn 22 2 in
    let unallocated = if opcode == 0x17 then bit insn 29 || size == 3 && not is_q else size == 3 in
    if unallocated
    then abort
    else handle_3same_pair is_q opcode (field insn 0 5) (field insn 5 5) (field insn 16 5) size

unfoldable pub disas_simd_three_reg_same : ℕ → Outcome (List Call)
unfolding disas_simd_3same_logic three_reg_pair disas_simd_3same_int
disas_simd_three_reg_same insn =
    let opcode = field insn 11 5 in
    if opcode == 0x3
    then disas_simd_3same_logic insn
    else if opcode == 0x17 || opcode == 0x14 || opcode == 0x15
    then three_reg_pair insn opcode
    else if leb 0x18 opcode && leb opcode 0x31
    then abort
    else disas_simd_3same_int insn

-- The sizes that the switch of DisasSimdScalarThreeRegSame lets through. The floating-point
-- operations, from 0x18 on, end in an abort on every path.
abbrev scalar_allocated : ℕ → ℕ → Bool
scalar_allocated opcode size =
    if opcode == 0x1 || opcode == 0x5 || opcode == 0x9 || opcode == 0xb
    then true
    else if opcode == 0x8
        || opcode == 0xa
        || opcode == 0x6
        || opcode == 0x7
        || opcode == 0x11
        || opcode == 0x10
    then size == 3
    else if opcode == 0x16
    then size == 1 || size == 2
    else false

unfoldable pub disas_simd_scalar_three_reg_same : ℕ → Outcome (List Call)
unfolding handle_3same
disas_simd_scalar_three_reg_same insn =
    let opcode = field insn 11 5 in
    let size = field insn 22 2 in
    if leb 0x18 opcode
    then abort
    else if scalar_allocated opcode size
    then handle_3same opcode (bit insn 29) (field insn 0 5) (field insn 5 5) (field insn 16 5) 0
        size
    else abort
