-- ===== src/Interpreter/Step.antt =====
-- ARMv8/Interpreter.cpp: SingleStep on the instructions of Disas/Encode, from the fetch to the registers.
pub mod Branch
pub mod Data
use nsemu.Common.{
  ℕ, ◌+◌, ◌-◌, ◌*◌, ◌%◌, ◌^◌, ◌<◌, ◌≤◌, ◌≡◌, ◌≢◌, refl, ◌∙◌, Bool, true, false, u64, ltb, ◌==◌,
  if◌then◌else◌, Outcome, ok, ◌>>=◌, List, [], ◌∷◌, arith, Bool-cases, inl, inr,
}
use nsemu.Common.Bytes.{read_le}
use nsemu.Machine.{Arm, Machine, IsArm, gpr_lr, gpr_zero, gpr_dummy, pc_idx}
use nsemu.Mmu.{read_inst, notify}
use nsemu.Mmu.RoundTrip.{Maps, read_from_ram-Maps}
use nsemu.Cpu.{x}
use nsemu.Cpu.Alu.{arithmetic_logic}
use nsemu.Disas.Callback.{Call}
use nsemu.Disas.Field.{field, signed_field}
use nsemu.Disas.{disas_a64}
use nsemu.Disas.Encode.{b_word, cb_word, b_cond_word, br_word}
use nsemu.Disas.Decode.Branch.{disas_a64-b, disas_a64-cb, disas_a64-b_cond, disas_a64-br}
use nsemu.Interpreter.{run_inst, single_step, advance}
use nsemu.Interpreter.Exec.{Handlers, exec_all}

-- The address `4 * imm` bytes from `pc`, for an offset of `w` bits read as a signed number.
abbrev pub displaced : ℕ → ℕ → ℕ → ℕ
displaced w imm pc =
    if ltb imm (2 ^ (w - 1)) then u64 (pc + 4 * imm) else u64 (pc + 4 * imm + (2 ^ 64 - 4 * 2 ^ w))

-- Where the four bytes at PC are mapped, SingleStep runs the word that they are, the lowest byte
-- first, on the machine that the watchpoints' check of this read has left.
pub single_step-Maps :
    (h : Handlers) (f : ℕ → ℕ) (m : Machine)
    → Maps m.mem (x m.cpu pc_idx) 4 f
    → ((j : ℕ) → j < 4 → f j < 256)
    → single_step h m
      ≡ run_inst h (read_le 4 f 0) (record m { gdb = notify (x m.cpu pc_idx) 4 true m.gdb })
unfolding single_step read_inst
single_step-Maps h f m maps bytes =
    rw (read_from_ram-Maps 4 (x m.cpu pc_idx) f m (omega arith) maps bytes) refl

-- The registers other than PC, the zero register, `r` and `d` are kept, and so are the vector registers,
-- the flags, the system registers, the memory, the stub and the kernel.
abbrev pub Keeps : ℕ → ℕ → Machine → Machine → Type 0
Keeps r d m m' =
    ((k : ℕ) → k ≢ pc_idx → k ≢ gpr_zero → k ≢ r → k ≢ d → x m'.cpu k ≡ x m.cpu k)
    × (m'.cpu.vreg ≡ m.cpu.vreg)
    × (m'.cpu.nzcv ≡ m.cpu.nzcv)
    × (m'.cpu.sysr ≡ m.cpu.sysr)
    × (m'.mem ≡ m.mem)
    × (m'.gdb ≡ m.gdb)
    × (m'.kernel ≡ m.kernel)
