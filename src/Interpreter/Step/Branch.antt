-- ===== src/Interpreter/Step/Branch.antt =====
-- ARMv8/Interpreter.cpp: the branches, decoded and run.
use nsemu.Common.{
  zero, suc, not, ap, ℕ, ◌+◌, ◌*◌, ◌^◌, ◌<◌, ◌≡◌, ◌≢◌, refl, ◌∙◌, Bool, true, false, u64, ◌==◌,
  if◌then◌else◌, ok, ◌>>=◌, [], ◌∷◌, arith, Bool-cases, inl, inr,
}
use nsemu.Machine.{Machine, IsArm, gpr_lr, gpr_zero, gpr_dummy, pc_idx}
use nsemu.Cpu.{x, xw, set_x}
use nsemu.Cpu.Flags.{cond_hold}
use nsemu.Disas.Branch.{branch_target}
use nsemu.Cpu.Flags.Conditions.{cond_hold-total}
use nsemu.Cpu.Arith
use nsemu.Cpu.Alu
use nsemu.Cpu.Branch
use nsemu.Disas.Callback.{Call}
use nsemu.Disas.Field.{field, signed_field}
use nsemu.Disas.Encode.{b_word, cb_word, b_cond_word, br_word}
use nsemu.Disas.Decode.Branch.{disas_a64-b, disas_a64-cb, disas_a64-b_cond, disas_a64-br}
use nsemu.Interpreter.{run_inst, advance}
use nsemu.Interpreter.Exec.{Handlers, exec, exec_all}
use nsemu.Interpreter.Step.{displaced, Keeps}

-- The callbacks of B and BL.
b_run :
    (h : Handlers) (link : Bool) (off : ℕ) (m : Machine)
    → x m.cpu pc_idx < 2 ^ 64
    → (m' : Machine) × ((exec_all h
            (Call.add_i64 gpr_dummy pc_idx off false true
              ∷ (if link
                  then Call.add_i64 gpr_lr pc_idx 4 false true ∷ Call.set_pc_reg gpr_dummy ∷ []
                  else Call.set_pc_reg gpr_dummy ∷ []))
            m
          >>= λ m'. ok (advance m'))
        ≡ ok m')
      × (x m'.cpu pc_idx ≡ u64 (x m.cpu pc_idx + off))
      × (x m'.cpu gpr_lr ≡ (if link then u64 (x m.cpu pc_idx + 4) else x m.cpu gpr_lr))
      × Keeps gpr_lr gpr_dummy m m'
unfolding exec_all exec nsemu.Cpu.Arith.add_i64 nsemu.Cpu.Alu.arithmetic_logic
    nsemu.Cpu.Branch.set_pc_reg
b_run h true off m hpc = (
  _,
  refl,
  ground arith,
  ground arith,
  (λ k a b c d. ground arith, refl, refl, refl, refl, refl, refl),
)
b_run h false off m hpc = (
  _,
  refl,
  ground arith,
  ground arith,
  (λ k a b c d. ground arith, refl, refl, refl, refl, refl, refl),
)

-- B and BL: PC is moved by the word's offset of 26 bits, read as a signed number of words, and BL
-- leaves the address of the next instruction in register 30. Only the first dummy and the zero
-- register change besides: every other general register, the vector and system registers, the flags,
-- the memory, the stub and the kernel stay.
pub run_inst-b :
    (h : Handlers) (op imm26 : ℕ) (m : Machine)
    → op < 2
    → imm26 < 2 ^ 26
    → x m.cpu pc_idx < 2 ^ 64
    → (m' : Machine) × (run_inst h (b_word op imm26) m ≡ ok m')
      × (x m'.cpu pc_idx ≡ displaced 26 imm26 (x m.cpu pc_idx))
      × (x m'.cpu gpr_lr ≡ (if op == 1 then u64 (x m.cpu pc_idx + 4) else x m.cpu gpr_lr))
      × Keeps gpr_lr gpr_dummy m m'
unfolding run_inst signed_field field
run_inst-b h op imm26 m hop himm hpc =
    let off : ℕ = u64 (signed_field imm26 0 26 * 4) in
    let (m', ran, pc', lr, keeps) = b_run h (op == 1) off m hpc in
    (m', rw (disas_a64-b op imm26 (x m.cpu pc_idx) hop himm) ran, pc' ∙ ground arith, lr, keeps)

-- The machine after a callback that has set PC or left it, advanced.
advance_jump :
    (taken : Bool) (addr : ℕ) (m : Machine)
    → (m' : Machine) × (advance
          (record m { cpu = if taken then set_x pc_idx addr m.cpu else m.cpu })
        ≡ m')
      × (x m'.cpu pc_idx ≡ u64 ((if taken then addr else x m.cpu pc_idx) + 4))
      × Keeps gpr_zero gpr_zero m m'
advance_jump true addr m =
    (_, refl, ground arith, (λ k a b c d. ground arith, refl, refl, refl, refl, refl, refl))
advance_jump false addr m =
    (_, refl, ground arith, (λ k a b c d. ground arith, refl, refl, refl, refl, refl, refl))

-- PC + offset * 4 - 4, advanced.
target_lem :
    (taken : Bool) (imm19 pc : ℕ)
    → imm19 < 2 ^ 19
    → pc < 2 ^ 64
    → u64 ((if taken then branch_target pc (signed_field imm19 0 19) else pc) + 4)
      ≡ (if taken then displaced 19 imm19 pc else u64 (pc + 4))
unfolding signed_field field
target_lem true imm19 pc h k = ground arith
target_lem false imm19 pc h k = ground arith

-- Whether CBZ (`op` 0) or CBNZ (1) of a register with this value is taken.
abbrev pub cb_taken : ℕ → ℕ → Bool
cb_taken op value = if op == 1 then not (value == 0) else value == 0

cb_exec :
    (h : Handlers) (op rt addr : ℕ) (b : Bool) (m : Machine)
    → op < 2
    → exec h (Call.branch_condi_i64 op rt 0 addr b) m
      ≡ ok (record m {
        cpu = if cb_taken op (xw b m.cpu rt) then set_x pc_idx addr m.cpu else m.cpu;
      })
unfolding exec nsemu.Cpu.Branch.branch_condi_i64
cb_exec h zero rt addr b m hop = elim (Bool-cases (xw b m.cpu rt == 0)) [
  | inl e ↦ rw e refl
  | inr e ↦ rw e refl
]
cb_exec h (suc zero) rt addr b m hop = elim (Bool-cases (xw b m.cpu rt == 0)) [
  | inl e ↦ rw e refl
  | inr e ↦ rw e refl
]
cb_exec h (suc (suc op)) rt addr b m hop = absurd (omega arith)

-- CBZ and CBNZ: PC is moved by the word's offset of 19 bits where the register of 64 bits (`sf` 1), or
-- its low 32, is 0, for CBNZ where it is not 0, and by 4 otherwise; every other part of the machine
-- stays but the zero register.
pub run_inst-cb :
    (h : Handlers) (sf op imm19 rt : ℕ) (m : Machine)
    → sf < 2
    → op < 2
    → imm19 < 2 ^ 19
    → rt < 32
    → x m.cpu pc_idx < 2 ^ 64
    → (m' : Machine) × (run_inst h (cb_word sf op imm19 rt) m ≡ ok m')
      × (x m'.cpu pc_idx ≡ (
          if cb_taken op (xw (sf == 1) m.cpu rt)
          then displaced 19 imm19 (x m.cpu pc_idx)
          else u64 (x m.cpu pc_idx + 4)))
      × Keeps gpr_zero gpr_zero m m'
unfolding run_inst exec_all
run_inst-cb h sf op imm19 rt m hsf hop himm hrt hpc =
    let addr : ℕ = branch_target (x m.cpu pc_idx) (signed_field imm19 0 19) in
    let taken : Bool = cb_taken op (xw (sf == 1) m.cpu rt) in
    let (m', same, pc', keeps) = advance_jump taken addr m in
    (
      m',
      rw
          (
            disas_a64-cb sf op imm19 rt (x m.cpu pc_idx) hsf hop himm hrt,
            cb_exec h op rt addr (sf == 1) m hop,
          )
          (ap ok same),
      pc' ∙ target_lem taken imm19 (x m.cpu pc_idx) himm hpc,
      keeps,
    )

-- B.cond for the conditions EQ to LE: the condition is decided by the flags, PC is moved by the word's
-- offset where it holds and by 4 where it does not. Every other general register but the zero register,
-- the vector and system registers, the flags, the memory, the stub and the kernel stay.
pub run_inst-b_cond :
    (h : Handlers) (imm19 cond : ℕ) (m : Machine)
    → imm19 < 2 ^ 19
    → cond < 14
    → x m.cpu pc_idx < 2 ^ 64
    → (hold : Bool) × (m' : Machine) × (cond_hold cond m.cpu.nzcv ≡ ok hold)
      × (run_inst h (b_cond_word imm19 cond) m ≡ ok m')
      × (x m'.cpu pc_idx
          ≡ (if hold then displaced 19 imm19 (x m.cpu pc_idx) else u64 (x m.cpu pc_idx + 4)))
      × Keeps gpr_zero gpr_zero m m'
unfolding run_inst exec_all exec nsemu.Cpu.Branch.branch_flag
run_inst-b_cond h imm19 cond m himm hcond hpc =
    let (hold, decided) = cond_hold-total cond m.cpu.nzcv hcond in
    let addr : ℕ = branch_target (x m.cpu pc_idx) (signed_field imm19 0 19) in
    let (m', same, pc', keeps) = advance_jump hold addr m in
    (
      hold,
      m',
      decided,
      rw (disas_a64-b_cond imm19 cond (x m.cpu pc_idx) himm hcond, decided) (ap ok same),
      pc' ∙ target_lem hold imm19 (x m.cpu pc_idx) himm hpc,
      keeps,
    )

-- The callbacks of BR, RET and BLR.
br_run :
    (h : Handlers) (link : Bool) (rn : ℕ) (m : Machine)
    → rn < 32
    → ((link ≡ true) → rn ≢ gpr_lr)
    → IsArm m.cpu
    → (m' : Machine) × ((exec_all h
            (if link
              then Call.add_i64 gpr_lr pc_idx 4 false true ∷ Call.set_pc_reg rn ∷ []
              else Call.set_pc_reg rn ∷ [])
            m
          >>= λ m'. ok (advance m'))
        ≡ ok m')
      × (x m'.cpu pc_idx ≡ x m.cpu rn)
      × (x m'.cpu gpr_lr ≡ (if link then u64 (x m.cpu pc_idx + 4) else x m.cpu gpr_lr))
      × Keeps gpr_lr gpr_zero m m'
unfolding exec_all exec nsemu.Cpu.Arith.add_i64 nsemu.Cpu.Alu.arithmetic_logic
    nsemu.Cpu.Branch.set_pc_reg
br_run h true rn m hrn apart arm =
    let other : rn ≢ gpr_lr = apart refl in
    (
      _,
      refl,
      ground (arith, arm.gpr_lt rn),
      ground arith,
      (λ k a b c d. ground arith, refl, refl, refl, refl, refl, refl),
    )
br_run h false rn m hrn apart arm = (
  _,
  refl,
  ground (arith, arm.gpr_lt rn),
  ground arith,
  (λ k a b c d. ground arith, refl, refl, refl, refl, refl, refl),
)

-- BR and RET (`opc` 0 and 2) set PC to the register; BLR (1) of a register other than 30 too, and
-- leaves the address of the next instruction in register 30. Every other general register but the
-- zero register, the vector and system registers, the flags, the memory, the stub and the kernel stay.
pub run_inst-br :
    (h : Handlers) (opc rn : ℕ) (m : Machine)
    → opc < 3
    → rn < 32
    → ((opc ≡ 1) → rn ≢ gpr_lr)
    → IsArm m.cpu
    → (m' : Machine) × (run_inst h (br_word opc rn) m ≡ ok m')
      × (x m'.cpu pc_idx ≡ x m.cpu rn)
      × (x m'.cpu gpr_lr ≡ (if opc == 1 then u64 (x m.cpu pc_idx + 4) else x m.cpu gpr_lr))
      × Keeps gpr_lr gpr_zero m m'
unfolding run_inst
run_inst-br h opc rn m hopc hrn apart arm =
    let (m', ran, pc', lr, keeps) = br_run h (opc == 1) rn m hrn (λ o. apart (ground arith)) arm in
    (m', rw (disas_a64-br opc rn (x m.cpu pc_idx) hopc hrn) ran, pc', lr, keeps)
