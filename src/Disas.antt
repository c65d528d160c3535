-- ===== src/Disas.antt =====
-- ARMv8/Disassembler.cpp: DisasA64, which looks at bits 25 to 28 and calls the decoder of the group.
-- A decoder's value is the list of the callbacks that it calls, in order; where it calls ns_abort the
-- program ends, and the value is `abort`. Of the processor's state a decoder reads PC alone.
pub mod Callback
pub mod Field
pub mod Imm
pub mod System
pub mod Branch
pub mod Reg
pub mod LdSt
pub mod LdStVec
pub mod Fp
pub mod Simd
pub mod Encode
pub mod Decode
pub mod Bounds
use nsemu.Common.{ℕ, ◌||◌, ◌==◌, leb, if◌then◌else◌, Outcome, abort, List}
use nsemu.Disas.Callback.{Call}
use nsemu.Disas.Field.{field}
use nsemu.Disas.Imm.{disas_data_proc_imm}
use nsemu.Disas.Branch.{disas_branch_exc_sys}
use nsemu.Disas.Reg.{disas_data_proc_reg}
use nsemu.Disas.LdStVec.{disas_ld_st}
use nsemu.Disas.Simd.{disas_data_proc_simd_fp}

unfoldable pub disas_a64 : ℕ → ℕ → Outcome (List Call)
unfolding disas_data_proc_imm disas_branch_exc_sys disas_ld_st disas_data_proc_reg
    disas_data_proc_simd_fp
disas_a64 insn pc =
    let group = field insn 25 4 in
    if leb group 0x3
    then abort
    else if group == 0x8 || group == 0x9
    then disas_data_proc_imm insn
    else if group == 0xa || group == 0xb
    then disas_branch_exc_sys insn pc
    else if group == 0x4 || group == 0x6 || group == 0xc || group == 0xe
    then disas_ld_st insn
    else if group == 0x5 || group == 0xd
    then disas_data_proc_reg insn
    else if group == 0x7 || group == 0xf
    then disas_data_proc_simd_fp insn
    else abort
