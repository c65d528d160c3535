-- ===== src/Disas/Bounds.antt =====
-- ARMv8/Disassembler.cpp: the registers and the vector elements that the calls of a decoder name lie
-- inside gpr[37], vreg[33] and the 16 bytes of a vector register of include/ARMv8/ARMv8.hpp.
pub mod Imm
pub mod Branch
pub mod Reg
pub mod LdSt
pub mod LdStVec
pub mod Copy
pub mod Simd
pub mod Word
use nsemu.Common.{
  ℕ, ◌+◌, ◌*◌, ◌^◌, ◌≤◌, ◌<◌, ◌≡◌, Bool, true, false, if◌then◌else◌, Outcome, ok, abort, fault,
  ◌>>=◌, List, [], ◌∷◌, ◌++◌, arith,
}
use nsemu.Disas.Callback.{Call}
use nsemu.Disas.Field.{field, field-lt}

abbrev pub IsGpr : ℕ → Type 0
IsGpr r = r < 37

abbrev pub IsVreg : ℕ → Type 0
IsVreg r = r < 33

-- Element `e` of 2 ^ size bytes.
abbrev pub IsLane : ℕ → ℕ → Type 0
IsLane e size = (e + 1) * 2 ^ size ≤ 16

abbrev pub InRange : Call → Type 0
InRange (Call.movi_i64 r1 _ _) = IsGpr r1
InRange (Call.deposit_i64 r1 _ _ _ _) = IsGpr r1
InRange (Call.deposit_reg r1 r2 _ _ _) = IsGpr r1 × IsGpr r2
InRange (Call.deposit_zero_reg r1 r2 _ _ _) = IsGpr r1 × IsGpr r2
InRange (Call.mov_reg r1 r2 _) = IsGpr r1 × IsGpr r2
InRange (Call.cond_mov_reg _ r1 r2 r3 _) = IsGpr r1 × IsGpr r2 × IsGpr r3
InRange (Call.add_i64 r1 r2 _ _ _) = IsGpr r1 × IsGpr r2
InRange (Call.sub_i64 r1 r2 _ _ _) = IsGpr r1 × IsGpr r2
InRange (Call.add_reg r1 r2 r3 _ _) = IsGpr r1 × IsGpr r2 × IsGpr r3
InRange (Call.sub_reg r1 r2 r3 _ _) = IsGpr r1 × IsGpr r2 × IsGpr r3
InRange (Call.mul_reg r1 r2 r3 _ _ _) = IsGpr r1 × IsGpr r2 × IsGpr r3
InRange (Call.mul2_reg r1 r2 r3 r4 _) = IsGpr r1 × IsGpr r2 × IsGpr r3 × IsGpr r4
InRange (Call.div_reg r1 r2 r3 _ _) = IsGpr r1 × IsGpr r2 × IsGpr r3
InRange (Call.shift_reg r1 r2 r3 _ _) = IsGpr r1 × IsGpr r2 × IsGpr r3
InRange (Call.addc_reg r1 r2 r3 _ _) = IsGpr r1 × IsGpr r2 × IsGpr r3
InRange (Call.subc_reg r1 r2 r3 _ _) = IsGpr r1 × IsGpr r2 × IsGpr r3
InRange (Call.and_i64 r1 r2 _ _ _) = IsGpr r1 × IsGpr r2
InRange (Call.orr_i64 r1 r2 _ _) = IsGpr r1 × IsGpr r2
InRange (Call.eor_i64 r1 r2 _ _) = IsGpr r1 × IsGpr r2
InRange (Call.shift_i64 r1 r2 _ _ _) = IsGpr r1 × IsGpr r2
InRange (Call.and_reg r1 r2 r3 _ _) = IsGpr r1 × IsGpr r2 × IsGpr r3
InRange (Call.bic_reg r1 r2 r3 _ _) = IsGpr r1 × IsGpr r2 × IsGpr r3
InRange (Call.orr_reg r1 r2 r3 _) = IsGpr r1 × IsGpr r2 × IsGpr r3
InRange (Call.eor_reg r1 r2 r3 _) = IsGpr r1 × IsGpr r2 × IsGpr r3
InRange (Call.not_reg r1 r2 _) = IsGpr r1 × IsGpr r2
InRange (Call.extend_reg r1 r2 _ _) = IsGpr r1 × IsGpr r2
InRange (Call.load_reg r1 r2 r3 _ _ _ _ _) = IsGpr r1 × IsGpr r2 × IsGpr r3
InRange (Call.store_reg r1 r2 r3 _ _ _ _ _) = IsGpr r1 × IsGpr r2 × IsGpr r3
InRange (Call.load_reg_i64 r1 r2 size _ _) = IsGpr r1 × IsGpr r2 × (size ≡ 4 → IsVreg r1)
InRange (Call.store_reg_i64 r1 r2 size _ _) = IsGpr r1 × IsGpr r2 × (size ≡ 4 → IsVreg r1)
InRange (Call.sextract_i64 r1 r2 _ _ _) = IsGpr r1 × IsGpr r2
InRange (Call.uextract_i64 r1 r2 _ _ _) = IsGpr r1 × IsGpr r2
InRange (Call.sext_32 r1 r2) = IsGpr r1 × IsGpr r2
InRange (Call.rev_bit r1 r2 _) = IsGpr r1 × IsGpr r2
InRange (Call.rev_byte16 r1 r2 _) = IsGpr r1 × IsGpr r2
InRange (Call.rev_byte32 r1 r2 _) = IsGpr r1 × IsGpr r2
InRange (Call.rev_byte64 r1 r2 _) = IsGpr r1 × IsGpr r2
InRange (Call.cnt_lead_zero r1 r2 _) = IsGpr r1 × IsGpr r2
InRange (Call.cnt_lead_sign r1 r2 _) = IsGpr r1 × IsGpr r2
InRange (Call.cond_cmp_i64 r1 _ _ _ _ _) = IsGpr r1
InRange (Call.cond_cmp_reg r1 r2 _ _ _ _) = IsGpr r1 × IsGpr r2
InRange (Call.branch_i64 _) = Unit {0}
InRange (Call.branch_condi_i64 _ r1 _ _ _) = IsGpr r1
InRange (Call.branch_flag _ _) = Unit {0}
InRange (Call.set_pc_reg r1) = IsGpr r1
InRange (Call.svc _) = Unit {0}
InRange (Call.brk _) = Unit {0}
InRange (Call.read_write_sys_reg r1 _ _) = IsGpr r1
InRange (Call.read_write_nzcv r1 _) = IsGpr r1
InRange (Call.fmov_reg r1 r2 _) = IsVreg r1 × IsVreg r2
InRange (Call.fmov_conv rd rn type itof) =
    if itof then IsVreg rd × IsGpr rn else IsGpr rd × IsVreg rn
InRange (Call.and_vec_reg r1 r2 r3) = IsVreg r1 × IsVreg r2 × IsVreg r3
InRange (Call.orr_vec_reg r1 r2 r3) = IsVreg r1 × IsVreg r2 × IsVreg r3
InRange (Call.eor_vec_reg r1 r2 r3) = IsVreg r1 × IsVreg r2 × IsVreg r3
InRange (Call.bic_vec_reg r1 r2 r3) = IsVreg r1 × IsVreg r2 × IsVreg r3
InRange (Call.not_vec_reg r1 r2) = IsVreg r1 × IsVreg r2
InRange (Call.load_vec_reg r1 e r2 size) = IsVreg r1 × IsGpr r2 × IsLane e size
InRange (Call.store_vec_reg r1 e r2 size) = IsGpr r1 × IsVreg r2 × IsLane e size
InRange (Call.load_fp_reg r1 r2 r3 _ _ _) = IsVreg r1 × IsGpr r2 × IsGpr r3
InRange (Call.store_fp_reg r1 r2 r3 _ _ _) = IsVreg r1 × IsGpr r2 × IsGpr r3
InRange (Call.load_fp_reg_i64 r1 r2 _) = IsVreg r1 × IsGpr r2
InRange (Call.store_fp_reg_i64 r1 r2 _) = IsVreg r1 × IsGpr r2
InRange (Call.read_vec_reg r1 r2 e size) = IsVreg r1 × IsVreg r2 × IsLane e size
InRange (Call.read_vec_elem r1 r2 e size) = IsGpr r1 × IsVreg r2 × IsLane e size
InRange (Call.write_vec_elem r1 r2 e size) = IsVreg r1 × IsGpr r2 × IsLane e size
InRange (Call.dup_vec_imm_i64 r1 _ _ _) = IsVreg r1
InRange (Call.dup_vec_reg r1 r2 e size _) = IsVreg r1 × IsVreg r2 × IsLane e size
InRange (Call.dup_vec_reg_from_gen r1 r2 _ _) = IsVreg r1 × IsGpr r2
InRange (Call.compare_equal_vec r1 r2 r3 e size) = IsVreg r1 × IsVreg r2 × IsVreg r3 × IsLane e size
InRange (Call.compare_test_bits_vec r1 r2 r3 e size) =
    IsVreg r1 × IsVreg r2 × IsVreg r3 × IsLane e size

abbrev pub AllInRange : List Call → Type 0
AllInRange [] = Unit {0}
AllInRange (c ∷ cs) = InRange c × AllInRange cs

-- A decoder aborts, or makes calls in range; it never leaves C++'s defined behaviour.
abbrev pub Decodes : Outcome (List Call) → Type 0
Decodes (ok calls) = AllInRange calls
Decodes abort = Unit {0}
Decodes fault = ⊥

pub AllInRange-append : (cs ds : List Call) → AllInRange cs → AllInRange ds → AllInRange (cs ++ ds)
AllInRange-append [] ds h g = g
AllInRange-append (c ∷ cs) ds (h, hs) g = (h, AllInRange-append cs ds hs g)

pub reg-lt : (insn from : ℕ) → field insn from 5 < 32
reg-lt insn from = field-lt insn from 5 (omega arith)

-- An outcome inside C++'s defined behaviour.
abbrev pub IsDefined : {A : Type 0} → Outcome A → Type 0
IsDefined (ok v) = Unit {0}
IsDefined abort = Unit {0}
IsDefined fault = ⊥

pub Decodes-bind :
    {A : Type 0} (o : Outcome A) (k : A → Outcome (List Call))
    → IsDefined o
    → ((v : A) → Decodes (k v))
    → Decodes (o >>= k)
Decodes-bind (ok v) k h g = g v
Decodes-bind abort k h g = tt
Decodes-bind fault k h g = absurd h

pub IsDefined-bind :
    {A B : Type 0} (o : Outcome A) (k : A → Outcome B)
    → IsDefined o
    → ((v : A) → IsDefined (k v))
    → IsDefined (o >>= k)
IsDefined-bind (ok v) k h g = g v
IsDefined-bind abort k h g = tt
IsDefined-bind fault k h g = absurd h
