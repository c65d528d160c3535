-- ===== src/Disas/Bounds/Simd.antt =====
-- ARMv8/Disassembler.cpp: floating-point and vector operations stay inside the register files, and
-- every element inside its register.
use nsemu.Common.{
  ℕ, zero, suc, ◌+◌, ◌-◌, ◌*◌, ◌/◌, ◌^◌, ◌≤◌, ◌<◌, Bool, true, false, bit_or, ◌<<<◌, if◌then◌else◌,
  ltb, Outcome, ok, abort, fault, ◌>>=◌, List, ◌++◌, arith,
}
use nsemu.Disas.Callback.{Call}
use nsemu.Disas.Field.{field, bit, field-lt}
use nsemu.Disas.Fp.{disas_fp_1src, disas_fp_int_conv, disas_data_proc_fp}
use nsemu.Disas.Simd.ModImm.{disas_simd_mod_imm, expand_imm, fp_imm}
use nsemu.Disas.Simd.Three.{
  handle_3same, pair_element, for_elements, handle_3same_pair, disas_simd_3same_logic,
  disas_simd_3same_int, three_reg_pair, disas_simd_three_reg_same, disas_simd_scalar_three_reg_same,
}
use nsemu.Disas.LdStVec.{elements_of}
use nsemu.Disas.Simd.{
  lookup_disas_fn, data_proc_simd, disas_data_proc_simd, disas_data_proc_simd_fp,
}
use nsemu.Disas.Bounds.{
  Decodes, Decodes-bind, IsDefined, AllInRange, AllInRange-append, IsLane, reg-lt,
}
use nsemu.Disas.Bounds.LdStVec.{elements_of_fit, IsLane-below}
use nsemu.Disas.Bounds.Copy.{disas_simd_copy-Decodes, disas_simd_scalar_copy-Decodes}

module _ (insn : ℕ) where
  disas_fp_1src-Decodes : Decodes (disas_fp_1src insn)
  unfolding disas_fp_1src
  disas_fp_1src-Decodes = ground (arith, reg-lt insn 0, reg-lt insn 5)

  disas_fp_int_conv-Decodes : Decodes (disas_fp_int_conv insn)
  unfolding disas_fp_int_conv
  disas_fp_int_conv-Decodes = ground (arith, reg-lt insn 0, reg-lt insn 5)

  disas_data_proc_fp-Decodes : Decodes (disas_data_proc_fp insn)
  unfolding disas_data_proc_fp
  disas_data_proc_fp-Decodes = ground (arith, disas_fp_1src-Decodes, disas_fp_int_conv-Decodes)

handle_3same-Decodes :
    (opcode : ℕ) (u : Bool) (rd rn rm index size : ℕ)
    → rd < 32
    → rn < 32
    → rm < 32
    → IsLane index size
    → Decodes (handle_3same opcode u rd rn rm index size)
unfolding handle_3same
handle_3same-Decodes opcode u rd rn rm index size hd hn hm lane = ground arith

-- The lanes that one round of Handle3SamePair reads and writes.
pair_lanes :
    (is_q : Bool) (size e : ℕ)
    → size < 4
    → e < elements_of is_q size
    → (let half : ℕ = elements_of is_q size / 2 in
        let base : ℕ = if ltb e half then e else e - half in
        IsLane (2 * base) size × IsLane (2 * base + 1) size × IsLane e size)
pair_lanes true zero e h g = ground arith
pair_lanes true (suc zero) e h g = ground arith
pair_lanes true (suc (suc zero)) e h g = ground arith
pair_lanes true (suc (suc (suc zero))) e h g = ground arith
pair_lanes false zero e h g = ground arith
pair_lanes false (suc zero) e h g = ground arith
pair_lanes false (suc (suc zero)) e h g = ground arith
pair_lanes false (suc (suc (suc zero))) e h g = ground arith
pair_lanes is_q (suc (suc (suc (suc size)))) e h g = absurd (omega arith)

pair_element-Decodes :
    (opcode rd rn rm size e : ℕ) (is_q : Bool)
    → rn < 32
    → rm < 32
    → size < 4
    → e < elements_of is_q size
    → Decodes (pair_element opcode (elements_of is_q size) rd rn rm size e)
unfolding pair_element
pair_element-Decodes opcode rd rn rm size e is_q hn hm hs he =
    ground (arith, pair_lanes is_q size e hs he)

both :
    (s t : Outcome (List Call))
    → Decodes s
    → Decodes t
    → Decodes (s >>= λ calls. t >>= λ rest. ok (calls ++ rest))
both (ok cs) (ok ds) h g = AllInRange-append cs ds h g
both (ok cs) abort h g = tt
both (ok cs) fault h g = absurd g
both abort t h g = tt
both fault t h g = absurd h

followed :
    (s : Outcome (List Call)) (ds : List Call)
    → Decodes s
    → AllInRange ds
    → Decodes (s >>= λ calls. ok (calls ++ ds))
followed (ok cs) ds h g = AllInRange-append cs ds h g
followed abort ds h g = tt
followed fault ds h g = absurd h

-- A loop whose bodies are in range.
for_elements-Decodes :
    (left e : ℕ) (body : ℕ → Outcome (List Call))
    → ((j : ℕ) → j < e + left → Decodes (body j))
    → Decodes (for_elements left e body)
unfolding for_elements
for_elements-Decodes zero e body h = tt
for_elements-Decodes (suc left) e body h =
    both (body e) (for_elements left (e + 1) body) (h e (omega arith))
      (for_elements-Decodes left (e + 1) body (λ j k. h j (omega arith)))

handle_3same_pair-Decodes :
    (is_q : Bool) (opcode rd rn rm size : ℕ)
    → rd < 32
    → rn < 32
    → rm < 32
    → size < 4
    → Decodes (handle_3same_pair is_q opcode rd rn rm size)
unfolding handle_3same_pair
handle_3same_pair-Decodes is_q opcode rd rn rm size hd hn hm hs =
    let elements : ℕ = elements_of is_q size in
    followed (for_elements elements 0 (pair_element opcode elements rd rn rm size)) _
      (for_elements-Decodes elements 0 (pair_element opcode elements rd rn rm size)
        (λ j k. pair_element-Decodes opcode rd rn rm size j is_q hn hm hs (omega arith)))
      (ground arith)

expand_imm-IsDefined :
    (cmode_3_1 : ℕ) (cmode_0 is_neg o2 : Bool) (abcdefgh : ℕ)
    → IsDefined (expand_imm cmode_3_1 cmode_0 is_neg o2 abcdefgh)
unfolding expand_imm fp_imm
expand_imm-IsDefined cmode_3_1 cmode_0 is_neg o2 abcdefgh = ground arith

-- Element 0 fits for every size.
first-IsLane : (size : ℕ) → size < 4 → IsLane 0 size
first-IsLane zero h = omega arith
first-IsLane (suc zero) h = omega arith
first-IsLane (suc (suc zero)) h = omega arith
first-IsLane (suc (suc (suc zero))) h = omega arith
first-IsLane (suc (suc (suc (suc size)))) h = absurd (omega arith)

module _ (insn : ℕ) where
  disas_simd_3same_logic-Decodes : Decodes (disas_simd_3same_logic insn)
  unfolding disas_simd_3same_logic
  disas_simd_3same_logic-Decodes = ground (arith, reg-lt insn 0, reg-lt insn 5, reg-lt insn 16)

  disas_simd_3same_int-Decodes : Decodes (disas_simd_3same_int insn)
  unfolding disas_simd_3same_int
  disas_simd_3same_int-Decodes =
      let size : ℕ = field insn 22 2 in
      let n : ℕ = elements_of (bit insn 30) size in
      let fit : n * 2 ^ size ≤ 16 =
        elements_of_fit (bit insn 30) size (field-lt insn 22 2 (omega arith)) in
      for_elements-Decodes n 0 _ (λ j k.
        handle_3same-Decodes (field insn 11 5) (bit insn 29) (field insn 0 5) (field insn 5 5)
          (field insn 16 5) j size (reg-lt insn 0) (reg-lt insn 5) (reg-lt insn 16)
          (IsLane-below j n size (omega arith) fit))

  three_reg_pair-Decodes : (opcode : ℕ) → Decodes (three_reg_pair insn opcode)
  unfolding three_reg_pair
  three_reg_pair-Decodes opcode = ground (
    arith,
    handle_3same_pair-Decodes (bit insn 30) opcode (field insn 0 5) (field insn 5 5)
        (field insn 16 5) (field insn 22 2) (reg-lt insn 0) (reg-lt insn 5) (reg-lt insn 16)
        (field-lt insn 22 2 (omega arith)),
  )

  disas_simd_three_reg_same-Decodes : Decodes (disas_simd_three_reg_same insn)
  unfolding disas_simd_three_reg_same
  disas_simd_three_reg_same-Decodes = ground (
    arith,
    disas_simd_3same_logic-Decodes,
    three_reg_pair-Decodes (field insn 11 5),
    disas_simd_3same_int-Decodes,
  )

  disas_simd_scalar_three_reg_same-Decodes : Decodes (disas_simd_scalar_three_reg_same insn)
  unfolding disas_simd_scalar_three_reg_same
  disas_simd_scalar_three_reg_same-Decodes =
      let size : ℕ = field insn 22 2 in
      ground (
        arith,
        handle_3same-Decodes (field insn 11 5) (bit insn 29) (field insn 0 5) (field insn 5 5)
            (field insn 16 5) 0 size (reg-lt insn 0) (reg-lt insn 5) (reg-lt insn 16)
            (first-IsLane size (field-lt insn 22 2 (omega arith))),
      )

  disas_simd_mod_imm-Decodes : Decodes (disas_simd_mod_imm insn)
  unfolding disas_simd_mod_imm
  disas_simd_mod_imm-Decodes =
      Decodes-bind
        (expand_imm (field (field insn 12 4) 1 3) (bit (field insn 12 4) 0) (bit insn 29)
          (bit insn 11) (bit_or (field insn 5 5) (field insn 16 3 <<< 5)))
        _
        (expand_imm-IsDefined (field (field insn 12 4) 1 3) (bit (field insn 12 4) 0) (bit insn 29)
          (bit insn 11) (bit_or (field insn 5 5) (field insn 16 3 <<< 5)))
        (λ imm. ground (arith, reg-lt insn 0))

  disas_data_proc_simd-Decodes : Decodes (disas_data_proc_simd insn)
  unfolding disas_data_proc_simd lookup_disas_fn data_proc_simd
  disas_data_proc_simd-Decodes = ground (
    arith,
    disas_simd_three_reg_same-Decodes,
    disas_simd_copy-Decodes insn,
    disas_simd_mod_imm-Decodes,
    disas_simd_scalar_three_reg_same-Decodes,
    disas_simd_scalar_copy-Decodes insn,
  )

  pub disas_data_proc_simd_fp-Decodes : Decodes (disas_data_proc_simd_fp insn)
  unfolding disas_data_proc_simd_fp
  disas_data_proc_simd_fp-Decodes =
      ground (arith, disas_data_proc_fp-Decodes insn, disas_data_proc_simd-Decodes)
