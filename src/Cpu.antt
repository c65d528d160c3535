-- ===== src/Cpu.antt =====
-- ARMv8/Interpreter.cpp: the callbacks that the disassembler calls for each instruction, with the
-- registers of include/ARMv8/ARMv8.hpp. The children follow the groups of that file.
pub mod Flags
pub mod Alu
pub mod Arith
pub mod Compare
pub mod CompareNarrow
pub mod Mul
pub mod Bitfield
pub mod LoadStore
pub mod Vector
pub mod Branch
use nsemu.Common.{ℕ, ◌%◌, ◌*◌, ◌+◌, ◌^◌, Bool, u32, u64, ◌==◌, if◌then◌else◌}
use nsemu.Common.Lists.{update}
use nsemu.Common.Bytes.{read_le, write_le}
use nsemu.Machine.{Arm, gpr_zero, gpr_sp, pc_idx}

-- X(r) and W(r).
abbrev pub x : Arm → ℕ → ℕ
x a r = a.gpr r

abbrev pub w : Arm → ℕ → ℕ
w a r = u32 (a.gpr r)

-- X(r) = v.
abbrev pub set_x : ℕ → ℕ → Arm → Arm
set_x r v a = record a { gpr = update a.gpr r v }

-- X(r) or W(r), as every callback with a `bit64` argument reads its operands.
abbrev pub xw : Bool → Arm → ℕ → ℕ
xw bit64 a r = if bit64 then x a r else w a r

abbrev pub set_nzcv : ℕ → Arm → Arm
set_nzcv v a = record a { nzcv = v }

abbrev pub handle_as_sp : ℕ → ℕ
handle_as_sp r_idx = if r_idx == gpr_zero then gpr_sp else r_idx

-- The view of a vector register as elements of `n` bytes: b, h, s and d for 1, 2, 4 and 8.
abbrev pub lane : ℕ → Arm → ℕ → ℕ → ℕ
lane n a v e = read_le n (a.vreg v) (n * e)

abbrev pub set_lane : ℕ → ℕ → ℕ → ℕ → Arm → Arm
set_lane n v e value a = record a { vreg = update a.vreg v (write_le n (a.vreg v) (n * e) value) }
