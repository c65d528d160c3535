-- ===== src/Disas/Bounds/Imm.antt =====
-- ARMv8/Disassembler.cpp: data processing with an immediate stays inside the register file.
use nsemu.Common.{
  ℕ, ◌+◌, ◌-◌, ◌^◌, ◌>>=◌, Option, none, some, bit_and, bit_or, ok, ◌*◌, if◌then◌else◌, arith,
}
use nsemu.Disas.Field.{field, bit}
use nsemu.Util.{bitmask64, replicate64}
use nsemu.Util.Count.{clz32}
use nsemu.Disas.Imm.{
  disas_pc_rel_addr, disas_add_sub_imm, disas_movw_imm, disas_bitfield, disas_extract,
  disas_log_imm, log_imm, log_imm_decoded, element_mask, decode_mask, logic_imm_decode,
  disas_data_proc_imm,
}
use nsemu.Disas.Bounds.{Decodes, Decodes-bind, IsDefined, IsDefined-bind, reg-lt}

module _ (insn : ℕ) where
  disas_pc_rel_addr-Decodes : Decodes (disas_pc_rel_addr insn)
  unfolding disas_pc_rel_addr
  disas_pc_rel_addr-Decodes = ground (arith, reg-lt insn 0)

  disas_add_sub_imm-Decodes : Decodes (disas_add_sub_imm insn)
  unfolding disas_add_sub_imm
  disas_add_sub_imm-Decodes = ground (arith, reg-lt insn 0, reg-lt insn 5)

  disas_movw_imm-Decodes : Decodes (disas_movw_imm insn)
  unfolding disas_movw_imm
  disas_movw_imm-Decodes = ground (arith, reg-lt insn 0)

  disas_bitfield-Decodes : Decodes (disas_bitfield insn)
  unfolding disas_bitfield
  disas_bitfield-Decodes = ground (arith, reg-lt insn 0, reg-lt insn 5)

  disas_extract-Decodes : Decodes (disas_extract insn)
  unfolding disas_extract
  disas_extract-Decodes = ground (arith, reg-lt insn 0, reg-lt insn 5, reg-lt insn 16)

  log_imm-Decodes : (wmask : ℕ) → Decodes (log_imm insn wmask)
  unfolding log_imm
  log_imm-Decodes wmask = ground (arith, reg-lt insn 0, reg-lt insn 5)

  log_imm_decoded-Decodes : (decoded : Option ℕ) → Decodes (log_imm_decoded insn decoded)
  unfolding log_imm_decoded
  log_imm_decoded-Decodes none = tt
  log_imm_decoded-Decodes (some wmask) =
      log_imm-Decodes (if bit insn 31 then wmask else bit_and wmask 0xffffffff)

bitmask64-IsDefined : (length : ℕ) → IsDefined (bitmask64 length)
unfolding bitmask64
bitmask64-IsDefined length = ground arith

replicate64-IsDefined : (mask e : ℕ) → IsDefined (replicate64 mask e)
unfolding replicate64
replicate64-IsDefined mask e = ground arith

element_mask-IsDefined : (e s r : ℕ) → IsDefined (element_mask e s r)
unfolding element_mask
element_mask-IsDefined e s r =
    IsDefined-bind (bitmask64 (s + 1)) _ (bitmask64-IsDefined (s + 1))
      (λ mask. ground (arith, bitmask64-IsDefined e))

decode_mask-IsDefined : (len imms immr : ℕ) → IsDefined (decode_mask len imms immr)
unfolding decode_mask
decode_mask-IsDefined len imms immr =
    let e : ℕ = 2 ^ len in
    let s : ℕ = bit_and imms (e - 1) in
    let r : ℕ = bit_and immr (e - 1) in
    let step : IsDefined
        (element_mask e s r >>= λ mask. replicate64 mask e >>= λ wmask. ok (some wmask)) =
      IsDefined-bind (element_mask e s r) _ (element_mask-IsDefined e s r)
        (λ mask. ground (arith, replicate64-IsDefined mask e)) in
    ground arith

logic_imm_decode-IsDefined : (n s r : ℕ) → IsDefined (logic_imm_decode n s r)
unfolding logic_imm_decode
logic_imm_decode-IsDefined n s r =
    let zeros : ℕ = clz32 (bit_or (n * 2 ^ 6) (bit_and (2 ^ 32 - 1 - s) 0x3f)) in
    ground (arith, decode_mask-IsDefined (31 - zeros) s r)

module _ (insn : ℕ) where
  disas_log_imm-Decodes : Decodes (disas_log_imm insn)
  unfolding disas_log_imm
  disas_log_imm-Decodes =
      Decodes-bind (logic_imm_decode (field insn 22 1) (field insn 10 6) (field insn 16 6)) _
        (logic_imm_decode-IsDefined (field insn 22 1) (field insn 10 6) (field insn 16 6))
        (log_imm_decoded-Decodes insn)

  pub disas_data_proc_imm-Decodes : Decodes (disas_data_proc_imm insn)
  unfolding disas_data_proc_imm
  disas_data_proc_imm-Decodes = ground (
    arith,
    disas_pc_rel_addr-Decodes insn,
    disas_add_sub_imm-Decodes insn,
    disas_log_imm-Decodes,
    disas_movw_imm-Decodes insn,
    disas_bitfield-Decodes insn,
    disas_extract-Decodes insn,
  )
