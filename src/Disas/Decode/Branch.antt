-- ===== src/Disas/Decode/Branch.antt =====
-- ARMv8/Disassembler.cpp: decoding of branches.
use nsemu.Common.{
  ℕ, ◌*◌, ◌^◌, ◌<◌, ◌≡◌, refl, ◌∙◌, ◌⊎◌, inl, inr, true, false, u64, ◌==◌, if◌then◌else◌, ok, [],
  ◌∷◌, arith,
}
use nsemu.Machine.{gpr_lr, gpr_dummy, pc_idx}
use nsemu.Cpu.Branch.{cond_type_eq, cond_type_ne}
use nsemu.Disas.{disas_a64}
use nsemu.Disas.Callback.{add_i64, branch_condi_i64, branch_flag, set_pc_reg}
use nsemu.Disas.Field.{field, signed_field}
use nsemu.Disas.Branch.{
  branch_target, disas_uncond_br_imm, disas_comp_br_imm, disas_cond_br_imm, disas_uncond_br_reg,
  disas_branch_exc_sys,
}
use nsemu.Disas.Encode.{b_word, cb_word, b_cond_word, br_word}

-- Bits 26 to 28 of a branch are 101.
to_branch : (i pc : ℕ) → field i 26 3 ≡ 5 → disas_a64 i pc ≡ disas_branch_exc_sys i pc
unfolding disas_a64 field
to_branch i pc h = elim (let e : (field i 25 4 ≡ 0xa) ⊎ (field i 25 4 ≡ 0xb) = ground arith in e) [
  | inl e ↦ rw e refl
  | inr e ↦ rw e refl
]

to_uncond_br_imm : (i pc : ℕ) → field i 26 5 ≡ 5 → disas_branch_exc_sys i pc ≡ disas_uncond_br_imm i
unfolding disas_branch_exc_sys field
to_uncond_br_imm i pc h =
    let g : ℕ = field i 25 7 in
    elim (let e : (g ≡ 0xa) ⊎ ((g ≡ 0xb) ⊎ ((g ≡ 0x4a) ⊎ (g ≡ 0x4b))) = ground arith in e) [
      | inl e ↦ rw e refl
      | inr (inl e) ↦ rw e refl
      | inr (inr (inl e)) ↦ rw e refl
      | inr (inr (inr e)) ↦ rw e refl
    ]

pub disas_a64-b :
    (op imm26 pc : ℕ)
    → op < 2
    → imm26 < 2 ^ 26
    → disas_a64 (b_word op imm26) pc
      ≡ ok (
          add_i64 gpr_dummy pc_idx (u64 (signed_field imm26 0 26 * 4)) false true
          ∷ (if op == 1
              then add_i64 gpr_lr pc_idx 4 false true ∷ set_pc_reg gpr_dummy ∷ []
              else set_pc_reg gpr_dummy ∷ []))
unfolding b_word field disas_uncond_br_imm signed_field
disas_a64-b op imm26 pc hop himm =
    let i : ℕ = b_word op imm26 in
    let op_bit : field i 31 1 ≡ op = omega arith in
    let imm : field i 0 26 ≡ imm26 = omega arith in
    let imm' : field imm26 0 26 ≡ imm26 = omega arith in
    to_branch i pc (omega arith)
    ∙ (to_uncond_br_imm i pc (omega arith) ∙ rw (op_bit, imm, imm') (ground arith))

cond_type-op : (op : ℕ) → op < 2 → (if op == 1 then cond_type_ne else cond_type_eq) ≡ op
cond_type-op op h = ground arith

pub disas_a64-cb :
    (sf op imm19 rt pc : ℕ)
    → sf < 2
    → op < 2
    → imm19 < 2 ^ 19
    → rt < 32
    → disas_a64 (cb_word sf op imm19 rt) pc
      ≡ ok (branch_condi_i64 op rt 0 (branch_target pc (signed_field imm19 0 19)) (sf == 1) ∷ [])
unfolding cb_word field disas_comp_br_imm disas_branch_exc_sys signed_field
disas_a64-cb sf op imm19 rt pc hsf hop himm hrt =
    let i : ℕ = cb_word sf op imm19 rt in
    let sf_bit : field i 31 1 ≡ sf = omega arith in
    let op_bit : field i 24 1 ≡ op = omega arith in
    let imm : field i 5 19 ≡ imm19 = omega arith in
    let imm' : field imm19 0 19 ≡ imm19 = omega arith in
    let reg : field i 0 5 ≡ rt = omega arith in
    let group : (field i 25 7 ≡ 0x1a) ⊎ (field i 25 7 ≡ 0x5a) = ground arith in
    let taken : disas_branch_exc_sys i pc ≡ disas_comp_br_imm i pc = elim group [
      | inl e ↦ rw e refl
      | inr e ↦ rw e refl
    ] in
    to_branch i pc (omega arith)
    ∙ (taken ∙ rw (sf_bit, op_bit, imm, imm', reg, cond_type-op op hop) refl)

pub disas_a64-b_cond :
    (imm19 cond pc : ℕ)
    → imm19 < 2 ^ 19
    → cond < 14
    → disas_a64 (b_cond_word imm19 cond) pc
      ≡ ok (branch_flag cond (branch_target pc (signed_field imm19 0 19)) ∷ [])
unfolding b_cond_word field disas_cond_br_imm disas_branch_exc_sys signed_field
disas_a64-b_cond imm19 cond pc himm hcond =
    let i : ℕ = b_cond_word imm19 cond in
    let low : field i 4 1 ≡ 0 = omega arith in
    let high : field i 24 1 ≡ 0 = omega arith in
    let imm : field i 5 19 ≡ imm19 = omega arith in
    let imm' : field imm19 0 19 ≡ imm19 = omega arith in
    let code : field i 0 4 ≡ cond = omega arith in
    let group : field i 25 7 ≡ 0x2a = omega arith in
    let taken : disas_branch_exc_sys i pc ≡ disas_cond_br_imm i pc = rw group refl in
    to_branch i pc (omega arith) ∙ (taken ∙ rw (low, high, imm, imm', code) (ground arith))

pub disas_a64-br :
    (opc rn pc : ℕ)
    → opc < 3
    → rn < 32
    → disas_a64 (br_word opc rn) pc
      ≡ ok (
          if opc == 1
          then add_i64 gpr_lr pc_idx 4 false true ∷ set_pc_reg rn ∷ []
          else set_pc_reg rn ∷ [])
unfolding br_word field disas_uncond_br_reg disas_branch_exc_sys
disas_a64-br opc rn pc hopc hrn =
    let i : ℕ = br_word opc rn in
    let op_bits : field i 21 4 ≡ opc = omega arith in
    let reg : field i 5 5 ≡ rn = omega arith in
    let op4 : field i 0 5 ≡ 0 = omega arith in
    let op3 : field i 10 6 ≡ 0 = omega arith in
    let op2 : field i 16 5 ≡ 0x1f = omega arith in
    let group : field i 25 7 ≡ 0x6b = omega arith in
    let taken : disas_branch_exc_sys i pc ≡ disas_uncond_br_reg i = rw group refl in
    to_branch i pc (omega arith) ∙ (taken ∙ rw (op_bits, reg, op4, op3, op2) (ground arith))
