-- ===== src/Disas/Decode/LdSt.antt =====
-- ARMv8/Disassembler.cpp: decoding of loads and stores with an unsigned offset, and of additions and
-- subtractions of a shifted register.
use nsemu.Common.{
  ℕ, zero, suc, ◌+◌, ◌*◌, ◌^◌, ◌<◌, ◌≡◌, refl, ◌∙◌, ◌⊎◌, inl, inr, true, false, ltb, leb, ◌==◌,
  if◌then◌else◌, ok, [], ◌∷◌, arith,
}
use nsemu.Machine.{gpr_dummy}
use nsemu.Cpu.{handle_as_sp}
use nsemu.Disas.{disas_a64}
use nsemu.Disas.Callback.{
  add_i64, load_reg_i64, store_reg_i64, mov_reg, shift_i64, add_reg, sub_reg,
}
use nsemu.Disas.Field.{field}
use nsemu.Disas.LdSt.{disas_ldst_reg, disas_ldst_reg_unsigned_imm}
use nsemu.Disas.LdStVec.{disas_ld_st}
use nsemu.Disas.Reg.{disas_add_sub_reg, disas_data_proc_reg}
use nsemu.Disas.Encode.{ldst_imm_word, add_sub_reg_word}

-- The offset of the access is scaled by its size.
scaled_lt : (imm size : ℕ) → imm < 2 ^ 12 → size < 4 → imm * 2 ^ size < 2 ^ 64
scaled_lt imm zero h k = omega arith
scaled_lt imm (suc zero) h k = omega arith
scaled_lt imm (suc (suc zero)) h k = omega arith
scaled_lt imm (suc (suc (suc zero))) h k = omega arith
scaled_lt imm (suc (suc (suc (suc size)))) h k = absurd (omega arith)

-- An access of a general register that the architecture allocates: a store, a load, or a load that
-- extends the sign of 8, 16 or 32 bits.
abbrev pub Allocated : ℕ → ℕ → Type 0
Allocated size opc = (opc < 2) ⊎ ((opc ≡ 2) × (size < 3)) ⊎ ((opc ≡ 3) × (size < 2))

unsigned_imm :
    (i size opc rt rn imm : ℕ)
    → field i 10 12 ≡ imm
    → field i 5 5 ≡ rn
    → imm < 2 ^ 12
    → size < 4
    → Allocated size opc
    → disas_ldst_reg_unsigned_imm i opc size rt false
      ≡ ok (
          add_i64 gpr_dummy (handle_as_sp rn) (imm * 2 ^ size) false true
          ∷ (if opc == 0
              then store_reg_i64 rt gpr_dummy size false (ltb size 3)
              else load_reg_i64 rt gpr_dummy size (leb 2 opc) (ltb size 3))
          ∷ [])
unfolding disas_ldst_reg_unsigned_imm field
unsigned_imm i size opc rt rn imm h10 h5 himm hs alloc =
    rw (h10, h5) (ground (arith, scaled_lt imm size himm hs))

-- DisasA64 of a load or store of a general register with an unsigned offset, as the architecture
-- allocates them, adds the offset scaled by the size of the access to the base, register 31 being
-- SP, and stores or loads there; the loads with an `opc` of 2 or 3 are the ones that extend a sign.
pub disas_a64-ldst_imm :
    (size opc imm12 rn rt pc : ℕ)
    → size < 4
    → Allocated size opc
    → imm12 < 2 ^ 12
    → rn < 32
    → rt < 32
    → disas_a64 (ldst_imm_word size opc imm12 rn rt) pc
      ≡ ok (
          add_i64 gpr_dummy (handle_as_sp rn) (imm12 * 2 ^ size) false true
          ∷ (if opc == 0
              then store_reg_i64 rt gpr_dummy size false (ltb size 3)
              else load_reg_i64 rt gpr_dummy size (leb 2 opc) (ltb size 3))
          ∷ [])
unfolding disas_a64 disas_ldst_reg field ldst_imm_word
disas_a64-ldst_imm size opc imm12 rn rt pc hs alloc himm hrn hrt =
    let i : ℕ = ldst_imm_word size opc imm12 rn rt in
    let opc_lt : opc < 4 = ground arith in
    let group : field i 24 6 ≡ 0x39 = omega arith in
    let form : field i 24 2 ≡ 1 = omega arith in
    let size_bits : field i 30 2 ≡ size = omega arith in
    let vector : field i 26 1 ≡ 0 = omega arith in
    let opc_bits : field i 22 2 ≡ opc = omega arith in
    let target : field i 0 5 ≡ rt = omega arith in
    let upper : (field i 25 4 ≡ 4) ⊎ (field i 25 4 ≡ 0xc) = ground arith in
    let taken : disas_a64 i pc ≡ disas_ld_st i = elim upper [
      | inl e ↦ rw e refl
      | inr e ↦ rw e refl
    ] in
    let access : disas_ld_st i ≡ disas_ldst_reg_unsigned_imm i opc size rt false =
      rw (group, form, size_bits, vector, opc_bits, target) refl in
    taken ∙ (access ∙ unsigned_imm i size opc rt rn imm12 (omega arith) (omega arith) himm hs alloc)

add_sub_reg_fields :
    (i sf op s shift rm imm6 rn rd : ℕ)
    → field i 31 1 ≡ sf
    → field i 30 1 ≡ op
    → field i 29 1 ≡ s
    → field i 22 2 ≡ shift
    → field i 16 5 ≡ rm
    → field i 10 6 ≡ imm6
    → field i 5 5 ≡ rn
    → field i 0 5 ≡ rd
    → sf < 2
    → shift < 3
    → imm6 < 32 + 32 * sf
    → disas_add_sub_reg i
      ≡ ok (
          mov_reg gpr_dummy rm true
          ∷ shift_i64 gpr_dummy gpr_dummy shift imm6 (sf == 1)
          ∷ (if op == 1 then sub_reg else add_reg) rd rn gpr_dummy (s == 1) (sf == 1)
          ∷ [])
unfolding disas_add_sub_reg
add_sub_reg_fields i sf op s shift rm imm6 rn rd h31 h30 h29 h22 h16 h10 h5 h0 hsf hshift himm =
    rw (h31, h30, h29, h22, h16, h10, h5, h0) (ground arith)

-- DisasA64 of ADD, ADDS, SUB or SUBS (shifted register) copies the second operand into the dummy
-- register, shifts it there by the amount of the word, and adds or subtracts it.
pub disas_a64-add_sub_reg :
    (sf op s shift rm imm6 rn rd pc : ℕ)
    → sf < 2
    → op < 2
    → s < 2
    → shift < 3
    → rm < 32
    → imm6 < 32 + 32 * sf
    → rn < 32
    → rd < 32
    → disas_a64 (add_sub_reg_word sf op s shift rm imm6 rn rd) pc
      ≡ ok (
          mov_reg gpr_dummy rm true
          ∷ shift_i64 gpr_dummy gpr_dummy shift imm6 (sf == 1)
          ∷ (if op == 1 then sub_reg else add_reg) rd rn gpr_dummy (s == 1) (sf == 1)
          ∷ [])
unfolding disas_a64 field add_sub_reg_word
disas_a64-add_sub_reg sf op s shift rm imm6 rn rd pc hsf hop hs hshift hrm himm hrn hrd =
    let i : ℕ = add_sub_reg_word sf op s shift rm imm6 rn rd in
    let upper : (field i 25 4 ≡ 5) ⊎ (field i 25 4 ≡ 0xd) = ground arith in
    let group : field i 24 5 ≡ 0xb = omega arith in
    let form : field i 21 1 ≡ 0 = omega arith in
    let f31 : field i 31 1 ≡ sf = omega arith in
    let f30 : field i 30 1 ≡ op = omega arith in
    let f29 : field i 29 1 ≡ s = omega arith in
    let f22 : field i 22 2 ≡ shift = omega arith in
    let f16 : field i 16 5 ≡ rm = omega arith in
    let f10 : field i 10 6 ≡ imm6 = omega arith in
    let f5 : field i 5 5 ≡ rn = omega arith in
    let f0 : field i 0 5 ≡ rd = omega arith in
    let taken : disas_a64 i pc ≡ disas_data_proc_reg i = elim upper [
      | inl e ↦ rw e refl
      | inr e ↦ rw e refl
    ] in
    let decoder : disas_data_proc_reg i ≡ disas_add_sub_reg i = rw (group, form) refl in
    taken
    ∙ (decoder
        ∙ add_sub_reg_fields i sf op s shift rm imm6 rn rd f31 f30 f29 f22 f16 f10 f5 f0 hsf hshift
            himm)
