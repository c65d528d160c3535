-- ===== src/Disas/Bounds/LdStVec.antt =====
-- ARMv8/Disassembler.cpp: loads and stores of vector structures stay inside the register file, and
-- every element inside its register.
use nsemu.Common.{
  ℕ, zero, suc, ◌+◌, ◌*◌, ◌%◌, ◌^◌, ◌≤◌, ◌<◌, ◌≡◌, refl, Bool, true, false, not, Option, none, some,
  bit_or, ◌<<<◌, ◌==◌, List, [], ◌∷◌, ◌++◌, if◌then◌else◌, arith,
}
use native.Mathlib.Nat.{le_trans, mul-le-mul_right}
use nsemu.Common.Bits.{bit_or-lt}
use nsemu.Disas.Callback.{Call}
use nsemu.Machine.{gpr_dummy}
use nsemu.Disas.Field.{field, bit, field-lt}
use nsemu.Disas.LdStVec.{
  multi_shape, multi_cols, multi_elements, multi_regs, multi_of_shape, disas_ld_st_multi,
  elements_of, single_shape, single_replicate, single_regs, single_of_shape, disas_ld_st_single,
  disas_ld_st,
}
use nsemu.Disas.Bounds.{Decodes, AllInRange, AllInRange-append, IsLane, reg-lt}
use nsemu.Disas.Bounds.LdSt.{
  disas_ldst_excl-Decodes, disas_ld_lit-Decodes, disas_ldst_pair-Decodes, disas_ldst_reg-Decodes,
}

multi_cols-AllInRange :
    (left : ℕ) (is_store : Bool) (size e vreg : ℕ)
    → IsLane e size
    → vreg < 32
    → AllInRange (multi_cols left is_store size e vreg)
unfolding multi_cols
multi_cols-AllInRange zero is_store size e vreg lane h = tt
multi_cols-AllInRange (suc left) is_store size e vreg lane h =
    ground (arith, multi_cols-AllInRange left is_store size e ((vreg + 1) % 32) lane (omega arith))

-- An element below the number of elements that fit.
pub IsLane-below : (e n size : ℕ) → e < n → n * 2 ^ size ≤ 16 → IsLane e size
IsLane-below e n size h fits = le_trans (mul-le-mul_right (2 ^ size) (omega arith)) fits

pub elements_of_fit : (is_q : Bool) (size : ℕ) → size < 4 → elements_of is_q size * 2 ^ size ≤ 16
elements_of_fit true zero h = ground arith
elements_of_fit true (suc zero) h = ground arith
elements_of_fit true (suc (suc zero)) h = ground arith
elements_of_fit true (suc (suc (suc zero))) h = ground arith
elements_of_fit false zero h = ground arith
elements_of_fit false (suc zero) h = ground arith
elements_of_fit false (suc (suc zero)) h = ground arith
elements_of_fit false (suc (suc (suc zero))) h = ground arith
elements_of_fit is_q (suc (suc (suc (suc size)))) h = absurd (omega arith)

multi_elements-AllInRange :
    (left selem : ℕ) (is_store : Bool) (size vreg e : ℕ)
    → (e + left) * 2 ^ size ≤ 16
    → vreg < 32
    → AllInRange (multi_elements left selem is_store size vreg e)
unfolding multi_elements
multi_elements-AllInRange zero selem is_store size vreg e fits h = tt
multi_elements-AllInRange (suc left) selem is_store size vreg e fits h =
    AllInRange-append (multi_cols selem is_store size e vreg)
      (multi_elements left selem is_store size vreg (e + 1))
      (multi_cols-AllInRange selem is_store size e vreg
        (IsLane-below e (e + suc left) size (omega arith) fits) h)
      (multi_elements-AllInRange left selem is_store size vreg (e + 1)
        (rw (let q : e + 1 + left ≡ e + suc left = omega arith in q) fits) h)

multi_regs-AllInRange :
    (left elements selem : ℕ) (is_store : Bool) (size rt r : ℕ)
    → elements * 2 ^ size ≤ 16
    → AllInRange (multi_regs left elements selem is_store size rt r)
unfolding multi_regs
multi_regs-AllInRange zero elements selem is_store size rt r fits = tt
multi_regs-AllInRange (suc left) elements selem is_store size rt r fits =
    AllInRange-append (multi_elements elements selem is_store size ((rt + r) % 32) 0)
      (multi_regs left elements selem is_store size rt (r + 1))
      (multi_elements-AllInRange elements selem is_store size ((rt + r) % 32) 0
        (rw (let q : 0 + elements ≡ elements = omega arith in q) fits) (omega arith))
      (multi_regs-AllInRange left elements selem is_store size rt (r + 1) fits)

multi_of_shape-Decodes : (insn : ℕ) (shape : Option (ℕ × ℕ)) → Decodes (multi_of_shape insn shape)
unfolding multi_of_shape
multi_of_shape-Decodes insn none = tt
multi_of_shape-Decodes insn (some (rpt, selem)) =
    let size : ℕ = field insn 10 2 in
    let elements : ℕ = elements_of (bit insn 30) size in
    let is_store : Bool = not (bit insn 22) in
    let after : List Call =
      if not (bit insn 23)
      then []
      else if field insn 16 5 == 31
      then Call.mov_reg (field insn 5 5) gpr_dummy true ∷ []
      else Call.add_reg (field insn 5 5) (field insn 5 5) (field insn 16 5) false true ∷ [] in
    let size_lt : size < 4 = field-lt insn 10 2 (omega arith) in
    let after_in : AllInRange after = ground (arith, reg-lt insn 5, reg-lt insn 16) in
    let calls : AllInRange
        (multi_regs rpt elements selem is_store size (field insn 0 5) 0 ++ after) =
      AllInRange-append (multi_regs rpt elements selem is_store size (field insn 0 5) 0) after
        (multi_regs-AllInRange rpt elements selem is_store size (field insn 0 5) 0
          (elements_of_fit (bit insn 30) size size_lt))
        after_in in
    ground (arith, reg-lt insn 5, calls)

-- The shape of an access of single elements: the scale and the index fit the register.
abbrev FitsSingle : ℕ → Option (ℕ × ℕ × Bool) → Type 0
FitsSingle size none = Unit {0}
FitsSingle size (some (scale, index, true)) = scale ≡ size
FitsSingle size (some (scale, index, false)) = IsLane index scale

single_shape-FitsSingle :
    (scale index size : ℕ) (is_load s : Bool)
    → index < 16
    → FitsSingle size (single_shape scale index size is_load s)
unfolding single_shape
single_shape-FitsSingle scale index size is_load s h = ground arith

single_replicate-AllInRange :
    (left rt size e : ℕ)
    → (e + left) * 2 ^ size ≤ 16
    → rt < 32
    → AllInRange (single_replicate left rt size e)
unfolding single_replicate
single_replicate-AllInRange zero rt size e fits h = tt
single_replicate-AllInRange (suc left) rt size e fits h = ground (
  arith,
  IsLane-below e (e + suc left) size (omega arith) fits,
  single_replicate-AllInRange left rt size (e + 1)
      (rw (let q : e + 1 + left ≡ e + suc left = omega arith in q) fits) h,
)

-- The loop over the registers, for elements that fit.
single_regs-AllInRange :
    (left : ℕ) (replicate is_load : Bool) (elements rt index scale : ℕ)
    → ((replicate ≡ true) → elements * 2 ^ scale ≤ 16)
    → ((replicate ≡ false) → IsLane index scale)
    → rt < 32
    → AllInRange (single_regs left replicate is_load elements rt index scale)
unfolding single_regs
single_regs-AllInRange zero replicate is_load elements rt index scale all one h = tt
single_regs-AllInRange (suc left) true is_load elements rt index scale all one h =
    AllInRange-append (single_replicate elements rt scale 0) _
      (single_replicate-AllInRange elements rt scale 0
        (rw (let q : 0 + elements ≡ elements = omega arith in q) (all refl)) h)
      (
        (ground arith, ground arith),
        single_regs-AllInRange left true is_load elements ((rt + 1) % 32) index scale all one
            (omega arith),
      )
single_regs-AllInRange (suc left) false true elements rt index scale all one h = ground (
  arith,
  one refl,
  single_regs-AllInRange left false true elements ((rt + 1) % 32) index scale all one (omega arith),
)
single_regs-AllInRange (suc left) false false elements rt index scale all one h = ground (
  arith,
  one refl,
  single_regs-AllInRange left false false elements ((rt + 1) % 32) index scale all one
      (omega arith),
)

replicated_size :
    (size scale index : ℕ) (replicate : Bool)
    → FitsSingle size (some (scale, index, replicate))
    → replicate ≡ true
    → scale ≡ size
replicated_size size scale index true fits e = fits
replicated_size size scale index false fits e = absurd (ground arith)

single-IsLane :
    (size scale index : ℕ) (replicate : Bool)
    → FitsSingle size (some (scale, index, replicate))
    → replicate ≡ false
    → IsLane index scale
single-IsLane size scale index true fits e = absurd (ground arith)
single-IsLane size scale index false fits e = fits

single_of_shape-Decodes :
    (insn : ℕ) (shape : Option (ℕ × ℕ × Bool))
    → FitsSingle (field insn 10 2) shape
    → Decodes (single_of_shape insn shape)
unfolding single_of_shape
single_of_shape-Decodes insn none fits = tt
single_of_shape-Decodes insn (some (scale, index, replicate)) fits =
    let elements : ℕ = elements_of (bit insn 30) (field insn 10 2) in
    let is_load : Bool = bit insn 22 in
    let selem : ℕ = bit_or (field (field insn 13 3) 0 1 <<< 1) (field insn 21 1) + 1 in
    let after : List Call =
      if not (bit insn 23)
      then []
      else if field insn 16 5 == 31
      then Call.movi_i64 (field insn 5 5) gpr_dummy true ∷ []
      else Call.add_reg (field insn 5 5) (field insn 5 5) (field insn 16 5) false true ∷ [] in
    let after_in : AllInRange after = ground (arith, reg-lt insn 5, reg-lt insn 16) in
    let size_lt : field insn 10 2 < 4 = field-lt insn 10 2 (omega arith) in
    let regs : AllInRange
        (single_regs selem replicate is_load elements (field insn 0 5) index scale) =
      single_regs-AllInRange selem replicate is_load elements (field insn 0 5) index scale
        (λ e.
          rw (replicated_size (field insn 10 2) scale index replicate fits e)
            (elements_of_fit (bit insn 30) (field insn 10 2) size_lt))
        (single-IsLane (field insn 10 2) scale index replicate fits) (reg-lt insn 0) in
    (
      (ground (arith, reg-lt insn 5), ground (arith, reg-lt insn 5)),
      AllInRange-append (single_regs selem replicate is_load elements (field insn 0 5) index scale)
          after regs after_in,
    )

-- The index that DisasLdStSingle puts together from Q, S and the size.
single_index-lt :
    (q s size : ℕ) → q < 2 → s < 2 → size < 4 → bit_or (bit_or (q <<< 3) (s <<< 2)) size < 16
single_index-lt q s size h g k =
    bit_or-lt 4 (bit_or (q * 2 ^ 3) (s * 2 ^ 2)) size
      (bit_or-lt 4 (q * 2 ^ 3) (s * 2 ^ 2) (omega arith) (omega arith)) (omega arith)

module _ (insn : ℕ) where
  disas_ld_st_multi-Decodes : Decodes (disas_ld_st_multi insn)
  unfolding disas_ld_st_multi
  disas_ld_st_multi-Decodes =
      ground (arith, multi_of_shape-Decodes insn (multi_shape (field insn 12 4)))

  disas_ld_st_single-Decodes : Decodes (disas_ld_st_single insn)
  unfolding disas_ld_st_single
  disas_ld_st_single-Decodes =
      let size : ℕ = field insn 10 2 in
      let index : ℕ = bit_or (bit_or (field insn 30 1 <<< 3) (field insn 12 1 <<< 2)) size in
      let index_lt : index < 16 =
        single_index-lt (field insn 30 1) (field insn 12 1) size (field-lt insn 30 1 (omega arith))
          (field-lt insn 12 1 (omega arith)) (field-lt insn 10 2 (omega arith)) in
      let scale : ℕ = field (field insn 13 3) 1 2 in
      single_of_shape-Decodes insn (single_shape scale index size (bit insn 22) (bit insn 12))
        (single_shape-FitsSingle scale index size (bit insn 22) (bit insn 12) index_lt)

  pub disas_ld_st-Decodes : Decodes (disas_ld_st insn)
  unfolding disas_ld_st
  disas_ld_st-Decodes = ground (
    arith,
    disas_ldst_excl-Decodes insn,
    disas_ld_lit-Decodes insn,
    disas_ldst_pair-Decodes insn,
    disas_ldst_reg-Decodes insn,
    disas_ld_st_multi-Decodes,
    disas_ld_st_single-Decodes,
  )
