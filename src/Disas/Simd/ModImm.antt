-- ===== src/Disas/Simd/ModImm.antt =====
-- ARMv8/Disassembler.cpp: DisasSimdModImm, which expands an 8-bit immediate over a vector register.
use nsemu.Common.{
  ℕ, zero, suc, ◌+◌, ◌*◌, ◌^◌, Bool, not, ◌&&◌, ◌||◌, u64, not64, ◌<<<◌, bit_and, bit_or, leb, ◌==◌,
  if◌then◌else◌, Outcome, ok, abort, ◌>>=◌, List, [], ◌∷◌,
}
use nsemu.Util.{replicate_loop}
use nsemu.Disas.Callback.{Call, dup_vec_imm_i64}
use nsemu.Disas.Field.{field, bit}

-- BitfieldReplicate, whose loop is that of replicate64; from a width of 8 bits it has three rounds.
unfoldable pub bitfield_replicate : ℕ → ℕ → ℕ
unfolding replicate_loop
bitfield_replicate mask e = replicate_loop 7 mask e

-- A byte of ones for each one of abcdefgh: the loop over `i`, with `left` rounds to go.
unfoldable pub byte_mask : ℕ → ℕ → ℕ → ℕ → ℕ
byte_mask zero i abcdefgh imm = imm
byte_mask (suc left) i abcdefgh imm =
    byte_mask left (i + 1) abcdefgh
      (if bit_and abcdefgh (2 ^ i) == 0 then imm else bit_or imm (0xff <<< (i * 8)))

-- The case 7 of the switch with cmode_0 set.
unfoldable pub fp_imm : Bool → Bool → ℕ → Outcome ℕ
fp_imm is_neg o2 abcdefgh =
    let low = bit_and abcdefgh 0x3f in
    let double =
      if bit_and abcdefgh 0x80 == 0 then low <<< 48 else bit_or (low <<< 48) 0x8000000000000000 in
    let single =
      if bit_and abcdefgh 0x80 == 0 then low <<< 19 else bit_or (low <<< 19) 0x80000000 in
    let half = bit_or single (if bit_and abcdefgh 0x40 == 0 then 0x40000000 else 0x3e000000) in
    if is_neg
    then ok (
        bit_or double
          (if bit_and abcdefgh 0x40 == 0 then 0x4000000000000000 else 0x3fc0000000000000))
    else if o2
    then abort
    else ok (bit_or half (u64 (half <<< 32)))

-- The switch on the three high digits of cmode.
unfoldable pub expand_imm : ℕ → Bool → Bool → Bool → ℕ → Outcome ℕ
unfolding bitfield_replicate byte_mask fp_imm
expand_imm cmode_3_1 cmode_0 is_neg o2 abcdefgh =
    if leb cmode_3_1 3
    then ok (bitfield_replicate (abcdefgh <<< (cmode_3_1 * 8)) 32)
    else if leb cmode_3_1 5
    then ok (bitfield_replicate (abcdefgh <<< (bit_and cmode_3_1 1 * 8)) 16)
    else if cmode_3_1 == 6
    then ok (
        bitfield_replicate
          (if cmode_0 then bit_or (abcdefgh <<< 16) 0xffff else bit_or (abcdefgh <<< 8) 0xff) 32)
    else if cmode_3_1 == 7
    then if cmode_0
      then fp_imm is_neg o2 abcdefgh
      else if is_neg
      then ok (byte_mask 8 0 abcdefgh 0)
      else ok (bitfield_replicate abcdefgh 8)
    else abort

unfoldable pub disas_simd_mod_imm : ℕ → Outcome (List Call)
unfolding expand_imm
disas_simd_mod_imm insn = do
  let cmode = field insn 12 4
  let cmode_3_1 = field cmode 1 3
  let is_neg = bit insn 29
  imm ←
      expand_imm cmode_3_1 (bit cmode 0) is_neg (bit insn 11)
        (bit_or (field insn 5 5) (field insn 16 3 <<< 5))
  let whole = if not (cmode_3_1 == 7) && is_neg then not64 imm else imm
  if not (bit_and cmode 0x9 == 0x1 || bit_and cmode 0xd == 0x9)
      then ok (dup_vec_imm_i64 (field insn 0 5) whole 3 (if bit insn 30 then 128 else 64) ∷ [])
      else abort
