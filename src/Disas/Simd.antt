-- ===== src/Disas/Simd.antt =====
-- ARMv8/Disassembler.cpp: vector operations, with the switch of DisasDataProcSimdFp. Here are the
-- decoders that copy elements and the table; the child has those on three registers.
pub mod Copy
pub mod ModImm
pub mod Three
use nsemu.Common.{
  ℕ, ◌-◌, Bool, not, ◌&&◌, bit_and, ◌==◌, if◌then◌else◌, Outcome, ok, abort, Option, none, some,
  List, [], ◌∷◌,
}
use nsemu.Disas.Callback.{Call}
use nsemu.Disas.Field.{field, bit}
use nsemu.Disas.Fp.{disas_data_proc_fp}
use nsemu.Disas.Simd.Copy.{disas_simd_copy, disas_simd_scalar_copy}
use nsemu.Disas.Simd.ModImm.{disas_simd_mod_imm}
use nsemu.Disas.Simd.Three.{disas_simd_three_reg_same, disas_simd_scalar_three_reg_same}

-- A64DecodeTable.
pub record DecodeEntry : Type 0 where
  pub pattern : ℕ
  pub mask : ℕ
  pub disas_fn : ℕ → Outcome (List Call)

abbrev entry : ℕ → ℕ → (ℕ → Outcome (List Call)) → DecodeEntry
entry pattern mask disas_fn = record { pattern = pattern; mask = mask; disas_fn = disas_fn }

-- The rows of the table before its end.
unfoldable pub data_proc_simd : List DecodeEntry
data_proc_simd =
    entry 0x0e200400 0x9f200400 disas_simd_three_reg_same
    ∷ entry 0x0e000400 0x9fe08400 disas_simd_copy
    ∷ entry 0x0f000400 0x9ff80400 disas_simd_mod_imm
    ∷ entry 0x5e200400 0xdf200400 disas_simd_scalar_three_reg_same
    ∷ entry 0x5e000400 0xdfe08400 disas_simd_scalar_copy
    ∷ []

unfoldable pub lookup_disas_fn : List DecodeEntry → ℕ → Option (ℕ → Outcome (List Call))
lookup_disas_fn [] insn = none
lookup_disas_fn (row ∷ table) insn =
    let rest = lookup_disas_fn table insn in
    if bit_and insn row.mask == row.pattern then some row.disas_fn else rest

unfoldable pub disas_data_proc_simd : ℕ → Outcome (List Call)
unfolding lookup_disas_fn data_proc_simd
disas_data_proc_simd insn = elim (lookup_disas_fn data_proc_simd insn) [
  | none ↦ abort
  | some fn ↦ fn insn
]

unfoldable pub disas_data_proc_simd_fp : ℕ → Outcome (List Call)
unfolding disas_data_proc_fp disas_data_proc_simd
disas_data_proc_simd_fp insn =
    if bit insn 28 && not (bit insn 30) then disas_data_proc_fp insn else disas_data_proc_simd insn
