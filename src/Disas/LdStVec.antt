-- ===== src/Disas/LdStVec.antt =====
-- ARMv8/Disassembler.cpp: loads and stores of vector structures, and the switch of DisasLdSt.
use nsemu.Common.{
  ℕ, zero, suc, ◌+◌, ◌/◌, ◌%◌, ◌^◌, Bool, true, false, not, ◌&&◌, ◌||◌, ◌<<<◌, ◌>>>◌, bit_or, ◌==◌,
  if◌then◌else◌, Outcome, ok, abort, Option, none, some, List, [], ◌∷◌, ◌++◌,
}
use nsemu.Machine.{gpr_dummy}
use nsemu.Disas.Callback.{Call, mov_reg, movi_i64, add_i64, add_reg, load_vec_reg, store_vec_reg}
use nsemu.Disas.Field.{field, bit}
use nsemu.Disas.LdSt.{disas_ldst_excl, disas_ld_lit, disas_ldst_reg, disas_ldst_pair}

-- rpt and selem, by the opcode of DisasLdStMulti.
unfoldable pub multi_shape : ℕ → Option (ℕ × ℕ)
multi_shape opcode =
    if opcode == 0x0
    then some (1, 4)
    else if opcode == 0x2
    then some (4, 1)
    else if opcode == 0x4
    then some (1, 3)
    else if opcode == 0x6
    then some (3, 1)
    else if opcode == 0x7
    then some (1, 1)
    else if opcode == 0x8
    then some (1, 2)
    else if opcode == 0xa
    then some (2, 1)
    else none

abbrev access_lane : Bool → ℕ → ℕ → ℕ → Call
access_lane is_store vreg e size =
    if is_store then store_vec_reg gpr_dummy e vreg size else load_vec_reg vreg e gpr_dummy size

abbrev next_lane : ℕ → Call
next_lane size = add_i64 gpr_dummy gpr_dummy (2 ^ size) false true

-- The loop over `col`, with `left` rounds to go.
unfoldable pub multi_cols : ℕ → Bool → ℕ → ℕ → ℕ → List Call
multi_cols zero is_store size e vreg = []
multi_cols (suc left) is_store size e vreg =
    access_lane is_store vreg e size
    ∷ next_lane size
    ∷ multi_cols left is_store size e ((vreg + 1) % 32)

-- The loop over `e`.
unfoldable pub multi_elements : ℕ → ℕ → Bool → ℕ → ℕ → ℕ → List Call
unfolding multi_cols
multi_elements zero selem is_store size vreg e = []
multi_elements (suc left) selem is_store size vreg e =
    multi_cols selem is_store size e vreg ++ multi_elements left selem is_store size vreg (e + 1)

-- The loop over `r`.
unfoldable pub multi_regs : ℕ → ℕ → ℕ → Bool → ℕ → ℕ → ℕ → List Call
unfolding multi_elements
multi_regs zero elements selem is_store size rt r = []
multi_regs (suc left) elements selem is_store size rt r =
    multi_elements elements selem is_store size ((rt + r) % 32) 0
    ++ multi_regs left elements selem is_store size rt (r + 1)

abbrev pub elements_of : Bool → ℕ → ℕ
elements_of is_q size = (if is_q then 128 else 64) / (8 <<< size)

-- The switch and what follows it.
unfoldable pub multi_of_shape : ℕ → Option (ℕ × ℕ) → Outcome (List Call)
unfolding multi_regs
multi_of_shape insn none = abort
multi_of_shape insn (some (rpt, selem)) =
    let rt = field insn 0 5 in
    let rn = field insn 5 5 in
    let size = field insn 10 2 in
    let is_store = not (bit insn 22) in
    let is_q = bit insn 30 in
    let rm = field insn 16 5 in
    let after =
      if not (bit insn 23)
      then []
      else if rm == 31
      then mov_reg rn gpr_dummy true ∷ []
      else add_reg rn rn rm false true ∷ [] in
    if size == 3 && not is_q && not (selem == 1)
    then abort
    else ok (
        mov_reg gpr_dummy rn true ∷ multi_regs rpt (elements_of is_q size) selem is_store size rt 0
        ++ after)

unfoldable pub disas_ld_st_multi : ℕ → Outcome (List Call)
unfolding multi_shape multi_of_shape
disas_ld_st_multi insn =
    if bit insn 31 || bit insn 21
    then abort
    else multi_of_shape insn (multi_shape (field insn 12 4))

-- The switch of DisasLdStSingle on `scale`: the scale, the index and whether to replicate.
unfoldable pub single_shape : ℕ → ℕ → ℕ → Bool → Bool → Option (ℕ × ℕ × Bool)
single_shape scale index size is_load s =
    if scale == 3
    then if not is_load || s then none else some (size, index, true)
    else if scale == 0
    then some (scale, index, false)
    else if scale == 1
    then if bit size 0 then none else some (scale, index >>> 1, false)
    else if scale == 2
    then if bit size 1
      then none
      else if not (bit size 0)
      then some (scale, index >>> 2, false)
      else if s
      then none
      else some (3, index >>> 3, false)
    else none

-- The loop over `e` that loads every element.
unfoldable pub single_replicate : ℕ → ℕ → ℕ → ℕ → List Call
single_replicate zero rt scale e = []
single_replicate (suc left) rt scale e =
    load_vec_reg rt e gpr_dummy scale ∷ single_replicate left rt scale (e + 1)

abbrev single_access : Bool → Bool → ℕ → ℕ → ℕ → ℕ → List Call
single_access true is_load elements rt index scale = single_replicate elements rt scale 0
single_access false true elements rt index scale = load_vec_reg rt index gpr_dummy scale ∷ []
single_access false false elements rt index scale = store_vec_reg gpr_dummy index rt scale ∷ []

-- The loop over `xs`.
unfoldable pub single_regs : ℕ → Bool → Bool → ℕ → ℕ → ℕ → ℕ → List Call
unfolding single_replicate
single_regs zero replicate is_load elements rt index scale = []
single_regs (suc left) replicate is_load elements rt index scale =
    single_access replicate is_load elements rt index scale
    ++ add_i64 gpr_dummy gpr_dummy (2 ^ scale) false true
      ∷ single_regs left replicate is_load elements ((rt + 1) % 32) index scale

unfoldable pub single_of_shape : ℕ → Option (ℕ × ℕ × Bool) → Outcome (List Call)
unfolding single_regs
single_of_shape insn none = abort
single_of_shape insn (some (scale, index, replicate)) =
    let rn = field insn 5 5 in
    let opc = field insn 13 3 in
    let rm = field insn 16 5 in
    let selem = bit_or (field opc 0 1 <<< 1) (field insn 21 1) + 1 in
    let after =
      if not (bit insn 23)
      then []
      else if rm == 31
      then movi_i64 rn gpr_dummy true ∷ []
      else add_reg rn rn rm false true ∷ [] in
    ok (
      mov_reg gpr_dummy rn true
        ∷ single_regs selem replicate (bit insn 22) (elements_of (bit insn 30) (field insn 10 2))
            (field insn 0 5) index scale
      ++ after)

unfoldable pub disas_ld_st_single : ℕ → Outcome (List Call)
unfolding single_shape single_of_shape
disas_ld_st_single insn =
    let size = field insn 10 2 in
    let index = bit_or (bit_or (field insn 30 1 <<< 3) (field insn 12 1 <<< 2)) size in
    single_of_shape insn
      (single_shape (field (field insn 13 3) 1 2) index size (bit insn 22) (bit insn 12))

unfoldable pub disas_ld_st : ℕ → Outcome (List Call)
unfolding disas_ldst_excl disas_ld_lit disas_ldst_pair disas_ldst_reg disas_ld_st_multi
    disas_ld_st_single
disas_ld_st insn =
    let group = field insn 24 6 in
    if group == 0x08
    then disas_ldst_excl insn
    else if group == 0x18 || group == 0x1c
    then disas_ld_lit insn
    else if group == 0x28 || group == 0x29 || group == 0x2c || group == 0x2d
    then disas_ldst_pair insn
    else if group == 0x38 || group == 0x39 || group == 0x3c || group == 0x3d
    then disas_ldst_reg insn
    else if group == 0x0c
    then disas_ld_st_multi insn
    else if group == 0x0d
    then disas_ld_st_single insn
    else abort
