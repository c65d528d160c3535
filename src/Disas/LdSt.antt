-- ===== src/Disas/LdSt.antt =====
-- ARMv8/Disassembler.cpp: loads and stores of registers. What a decoder computes and never uses, as
-- `sf` of DisasLdstCompute64bit, is left out.
use nsemu.Common.{
  ℕ, ◌+◌, ◌-◌, ◌*◌, ◌^◌, Bool, true, false, not, ◌&&◌, ◌||◌, u64, ◌<<<◌, bit_and, bit_or, ltb, ◌==◌,
  if◌then◌else◌, Outcome, ok, abort, List, [], ◌∷◌, ◌++◌,
}
use nsemu.Machine.{gpr_dummy, pc_idx}
use nsemu.Cpu.{handle_as_sp}
use nsemu.Disas.Callback.{
  Call, mov_reg, movi_i64, add_i64, extend_reg, shift_i64, load_reg_i64, store_reg_i64, load_reg,
  store_reg, load_fp_reg, store_fp_reg, load_fp_reg_i64, store_fp_reg_i64,
}
use nsemu.Disas.Field.{field, bit, signed_field}
use nsemu.Disas.Imm.{shift_type_lsl}

-- A pair of accesses to adjacent addresses, from the address in the dummy register on.
abbrev pair_i64 : Bool → ℕ → ℕ → ℕ → Bool → List Call
pair_i64 is_store rt rt2 size is_signed =
    if is_store
    then store_reg_i64 rt gpr_dummy size is_signed false
      ∷ add_i64 gpr_dummy gpr_dummy (2 ^ size) false true
      ∷ store_reg_i64 rt2 gpr_dummy size is_signed false
      ∷ []
    else load_reg_i64 rt gpr_dummy size is_signed false
      ∷ add_i64 gpr_dummy gpr_dummy (2 ^ size) false true
      ∷ load_reg_i64 rt2 gpr_dummy size is_signed false
      ∷ []

abbrev single_i64 : Bool → ℕ → ℕ → ℕ → Call
single_i64 is_store rt rn size =
    if is_store then store_reg_i64 rt rn size false false else load_reg_i64 rt rn size false false

unfoldable pub disas_ldst_excl : ℕ → Outcome (List Call)
disas_ldst_excl insn =
    let rt = field insn 0 5 in
    let rn = handle_as_sp (field insn 5 5) in
    let rt2 = field insn 10 5 in
    let is_lasr = bit insn 15 in
    let rs = field insn 16 5 in
    let is_pair = bit insn 21 in
    let is_store = not (bit insn 22) in
    let is_excl = not (bit insn 23) in
    let size = field insn 30 2 in
    let status = if is_store then movi_i64 rs 0 true ∷ [] else [] in
    if not is_excl && not is_pair && not is_lasr || not is_excl && is_pair || is_pair && ltb size 2
    then abort
    else if is_excl
    then ok (
        mov_reg gpr_dummy rn true
          ∷ (if is_pair
              then pair_i64 is_store rt rt2 size false
              else single_i64 is_store rt rn size ∷ [])
        ++ status)
    else ok (single_i64 is_store rt rn size ∷ [])

unfoldable pub disas_ld_lit : ℕ → Outcome (List Call)
disas_ld_lit insn =
    let rt = field insn 0 5 in
    let imm = u64 (signed_field insn 5 19 * 4) in
    let is_vector = bit insn 26 in
    let opc = field insn 30 2 in
    let size = if is_vector then opc + 2 else 2 + field opc 0 1 in
    let is_signed = not is_vector && bit opc 1 in
    if not is_vector && opc == 3
    then ok []
    else ok (
        add_i64 rt pc_idx (u64 (imm + (2 ^ 64 - 4))) false true
        ∷ load_reg_i64 rt rt size is_signed false
        ∷ [])

-- The opening tests of the three decoders below, on a register that is no vector register: `none`
-- where all is well, else the value.
pub data Guard : Type 0 where
  go nothing unallocated : Guard

abbrev pub guard_gpr : ℕ → ℕ → Guard
guard_gpr opc size =
    if size == 3 && opc == 2 then nothing else if opc == 3 && ltb 1 size then unallocated else go

abbrev pub guarded : Guard → List Call → Outcome (List Call)
guarded go calls = ok calls
guarded nothing calls = ok []
guarded unallocated calls = abort

-- The access with an address in a register: (is_vector, is_store).
abbrev access_i64 : Bool → Bool → ℕ → ℕ → Bool → Bool → Call
access_i64 true true rt size is_signed is_extended = store_fp_reg_i64 rt gpr_dummy size
access_i64 true false rt size is_signed is_extended = load_fp_reg_i64 rt gpr_dummy size
access_i64 false true rt size is_signed is_extended =
    store_reg_i64 rt gpr_dummy size is_signed is_extended
access_i64 false false rt size is_signed is_extended =
    load_reg_i64 rt gpr_dummy size is_signed is_extended

-- size |= (opc & 2) << 1.
abbrev vector_size : ℕ → ℕ → ℕ
vector_size size opc = bit_or size (bit_and opc 2 <<< 1)

-- The size of the access, and whether it stores, is signed and is extended.
abbrev access_size : Bool → ℕ → ℕ → ℕ
access_size is_vector opc size = if is_vector then vector_size size opc else size

abbrev access_stores : Bool → ℕ → Bool
access_stores is_vector opc = if is_vector then not (bit opc 0) else opc == 0

abbrev access_signed : Bool → ℕ → Bool
access_signed is_vector opc = not is_vector && bit opc 1

abbrev access_extended : Bool → ℕ → Bool
access_extended is_vector size = not is_vector && ltb size 3

-- The four accesses with a base and an index.
abbrev access_indexed : Bool → Bool → ℕ → ℕ → ℕ → Bool → Bool → Bool → Call
access_indexed true true rt rn size is_signed is_extended sf =
    store_fp_reg rt rn gpr_dummy size false sf
access_indexed true false rt rn size is_signed is_extended sf =
    load_fp_reg rt rn gpr_dummy size false sf
access_indexed false true rt rn size is_signed is_extended sf =
    store_reg rt rn gpr_dummy size is_signed is_extended false sf
access_indexed false false rt rn size is_signed is_extended sf =
    load_reg rt rn gpr_dummy size is_signed is_extended false sf

unfoldable pub disas_ldst_reg_roffset : ℕ → ℕ → ℕ → ℕ → Bool → Outcome (List Call)
disas_ldst_reg_roffset insn opc size₀ rt is_vector =
    let rn = field insn 5 5 in
    let rm = handle_as_sp (field insn 16 5) in
    let opt = field insn 13 3 in
    let size = access_size is_vector opc size₀ in
    let sf = bit opt 0 in
    if not (bit opt 1)
    then abort
    else guarded (if is_vector then go else guard_gpr opc size₀) (
        extend_reg gpr_dummy rm opt sf
        ∷ shift_i64 gpr_dummy gpr_dummy shift_type_lsl (if bit insn 12 then size else 0) sf
        ∷ access_indexed is_vector (access_stores is_vector opc) rt rn size
            (access_signed is_vector opc) (access_extended is_vector size₀) sf
        ∷ [])

-- The tests of DisasLdstRegImm9; idx is 2 for an unprivileged access.
abbrev guard_imm9 : ℕ → ℕ → ℕ → Bool → Guard
guard_imm9 idx opc size is_vector =
    if is_vector
    then if ltb 4 (vector_size size opc) && idx == 2 then unallocated else go
    else if size == 3 && opc == 2
    then if idx == 2 then unallocated else nothing
    else if opc == 3 && ltb 1 size
    then unallocated
    else go

unfoldable pub disas_ldst_reg_imm9 : ℕ → ℕ → ℕ → ℕ → Bool → Outcome (List Call)
disas_ldst_reg_imm9 insn opc size₀ rt is_vector =
    let rn = handle_as_sp (field insn 5 5) in
    let imm9 = signed_field insn 12 9 in
    let idx = field insn 10 2 in
    let size = access_size is_vector opc size₀ in
    let post_index = idx == 1 in
    let writeback = idx == 1 || idx == 3 in
    let before = if post_index then [] else add_i64 gpr_dummy rn imm9 false true ∷ [] in
    let after = if writeback then add_i64 rn rn imm9 false true ∷ [] else [] in
    guarded (guard_imm9 idx opc size₀ is_vector) (
      mov_reg gpr_dummy rn true ∷ before
      ++ access_i64 is_vector (access_stores is_vector opc) rt size (access_signed is_vector opc)
          (access_extended is_vector size₀)
        ∷ after)

unfoldable pub disas_ldst_reg_unsigned_imm : ℕ → ℕ → ℕ → ℕ → Bool → Outcome (List Call)
disas_ldst_reg_unsigned_imm insn opc size₀ rt is_vector =
    let rn = handle_as_sp (field insn 5 5) in
    let size = access_size is_vector opc size₀ in
    let offset = u64 (field insn 10 12 <<< size) in
    guarded (if is_vector then if ltb 4 size then unallocated else go else guard_gpr opc size₀) (
      add_i64 gpr_dummy rn offset false true
      ∷ access_i64 is_vector (access_stores is_vector opc) rt size (access_signed is_vector opc)
          (access_extended is_vector size₀)
      ∷ [])

unfoldable pub disas_ldst_reg : ℕ → Outcome (List Call)
unfolding disas_ldst_reg_roffset disas_ldst_reg_imm9 disas_ldst_reg_unsigned_imm
disas_ldst_reg insn =
    let rt = field insn 0 5 in
    let opc = field insn 22 2 in
    let is_vector = bit insn 26 in
    let size = field insn 30 2 in
    let form = field insn 24 2 in
    if form == 0
    then if bit insn 21 && field insn 10 2 == 2
      then disas_ldst_reg_roffset insn opc size rt is_vector
      else disas_ldst_reg_imm9 insn opc size rt is_vector
    else if form == 1
    then disas_ldst_reg_unsigned_imm insn opc size rt is_vector
    else abort

-- DisasLdstPair. A pair of vector registers too is moved by LoadRegI64 and StoreRegI64.
unfoldable pub disas_ldst_pair : ℕ → Outcome (List Call)
disas_ldst_pair insn =
    let rt = field insn 0 5 in
    let rn = handle_as_sp (field insn 5 5) in
    let rt2 = field insn 10 5 in
    let index = field insn 23 2 in
    let is_vector = bit insn 26 in
    let is_load = bit insn 22 in
    let opc = field insn 30 2 in
    let size = if is_vector then 2 + opc else 2 + field opc 1 1 in
    let is_signed = not is_vector && bit opc 0 in
    let offset = u64 (signed_field insn 15 7 <<< size) in
    let post_index = index == 1 in
    let writeback = index == 1 || index == 3 in
    let before = if post_index then [] else add_i64 gpr_dummy rn offset false true ∷ [] in
    let after = if writeback then add_i64 rn rn offset false true ∷ [] else [] in
    if opc == 3 || not is_load && is_signed || index == 0 && is_signed
    then abort
    else ok (
        mov_reg gpr_dummy rn true ∷ before ++ pair_i64 (not is_load) rt rt2 size is_signed ++ after)
