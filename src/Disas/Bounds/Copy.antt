-- ===== src/Disas/Bounds/Copy.antt =====
-- ARMv8/Disassembler.cpp: DUP, INS, UMOV and SMOV name elements inside their registers.
use nsemu.Common.{
  ℕ, zero, suc, ◌+◌, ◌-◌, ◌/◌, ◌^◌, ◌≤◌, ◌<◌, ◌≡◌, Bool, false, not, ◌&&◌, ◌>>>◌, ◌==◌,
  if◌then◌else◌, ltb, ◌||◌, Bool-cases, inl, inr, [], ◌∷◌, arith,
}
use native.Mathlib.Nat.{le_trans, mul-le-mul_right, mod-le}
use nsemu.Util.Count.{ctz32}
use nsemu.Disas.Callback.{Call}
use nsemu.Disas.Field.{field, bit, field-lt}
use nsemu.Disas.Simd.Copy.{
  disas_simd_inse, disas_simd_insg, disas_simd_dupe, disas_simd_dupg, disas_simd_umov_smov,
  disas_simd_copy, disas_simd_scalar_copy,
}
use nsemu.Disas.Bounds.{Decodes, AllInRange, IsLane, reg-lt}

-- An element's index in imm5 or imm4, above the digits that give its size.
index-IsLane : (size imm : ℕ) → size < 4 → imm < 16 → IsLane (imm / 2 ^ size) size
index-IsLane zero imm h g = omega arith
index-IsLane (suc zero) imm h g = omega arith
index-IsLane (suc (suc zero)) imm h g = omega arith
index-IsLane (suc (suc (suc zero))) imm h g = omega arith
index-IsLane (suc (suc (suc (suc size)))) imm h g = absurd (omega arith)

index-IsLane_above : (size imm : ℕ) → size < 4 → imm < 32 → IsLane (imm / 2 ^ (size + 1)) size
index-IsLane_above zero imm h g = omega arith
index-IsLane_above (suc zero) imm h g = omega arith
index-IsLane_above (suc (suc zero)) imm h g = omega arith
index-IsLane_above (suc (suc (suc zero))) imm h g = omega arith
index-IsLane_above (suc (suc (suc (suc size)))) imm h g = absurd (omega arith)

-- The same index cut to `len` digits.
IsLane-le : (e n size : ℕ) → e ≤ n → IsLane n size → IsLane e size
IsLane-le e n size h fits = le_trans (mul-le-mul_right (2 ^ size) (omega arith)) fits

field-IsLane : (size imm len : ℕ) → size < 4 → imm < 16 → IsLane (field imm size len) size
unfolding field
field-IsLane size imm len h g =
    IsLane-le (field imm size len) (imm / 2 ^ size) size (mod-le (imm / 2 ^ size) (2 ^ len))
      (index-IsLane size imm h g)

field-IsLane_above :
    (size imm len : ℕ) → size < 4 → imm < 32 → IsLane (field imm (1 + size) len) size
unfolding field
field-IsLane_above size imm len h g =
    let same : 1 + size ≡ size + 1 = omega arith in
    rw same (
      IsLane-le (field imm (size + 1) len) (imm / 2 ^ (size + 1)) size
        (mod-le (imm / 2 ^ (size + 1)) (2 ^ len)) (index-IsLane_above size imm h g))

-- The size that the decoders take from imm5 is at most 3 where they go on.
small : (size : ℕ) → ltb 3 size ≡ false → size < 4
small size h = ground arith

disas_simd_inse-Decodes :
    (rd rn imm4 imm5 : ℕ)
    → rd < 32
    → rn < 32
    → imm4 < 16
    → imm5 < 32
    → Decodes (disas_simd_inse rd rn imm4 imm5)
unfolding disas_simd_inse
disas_simd_inse-Decodes rd rn imm4 imm5 h g k l = elim (Bool-cases (ltb 3 (ctz32 imm5))) [
  | inl e ↦ rw e tt
  | inr e ↦
      let size : ℕ = ctz32 imm5 in
      rw e (
        (omega arith, omega arith, field-IsLane size imm4 4 (small size e) k),
        ((omega arith, omega arith, field-IsLane_above size imm5 5 (small size e) l), tt),
      )
]

disas_simd_insg-Decodes :
    (rd rn imm5 : ℕ) → rd < 32 → rn < 32 → imm5 < 32 → Decodes (disas_simd_insg rd rn imm5)
unfolding disas_simd_insg
disas_simd_insg-Decodes rd rn imm5 h g l = elim (Bool-cases (ltb 3 (ctz32 imm5))) [
  | inl e ↦ rw e tt
  | inr e ↦
      let size : ℕ = ctz32 imm5 in
      rw e
        ((omega arith, omega arith, field-IsLane_above size imm5 (4 - size) (small size e) l), tt)
]

disas_simd_dupe-Decodes :
    (is_q : Bool) (rd rn imm5 : ℕ)
    → rd < 32
    → rn < 32
    → imm5 < 32
    → Decodes (disas_simd_dupe is_q rd rn imm5)
unfolding disas_simd_dupe
disas_simd_dupe-Decodes is_q rd rn imm5 h g l = elim (Bool-cases (ltb 3 (ctz32 imm5))) [
  | inl e ↦ rw e tt
  | inr e ↦
      let size : ℕ = ctz32 imm5 in
      let lane : IsLane (imm5 >>> (size + 1)) size =
        index-IsLane_above size imm5 (small size e) l in
      elim (Bool-cases (ltb 3 size || size == 3 && not is_q)) [
        | inl a ↦ rw a tt
        | inr a ↦ rw a ((omega arith, omega arith, lane), tt)
      ]
]

disas_simd_dupg-Decodes :
    (is_q : Bool) (rd rn imm5 : ℕ) → rd < 32 → rn < 32 → Decodes (disas_simd_dupg is_q rd rn imm5)
unfolding disas_simd_dupg
disas_simd_dupg-Decodes is_q rd rn imm5 h g = ground arith

-- The test of DisasSimdUmovSmov lets no size above 3 through.
umov_small :
    (is_q is_signed : Bool) (size : ℕ)
    → (if is_signed
        then ltb 2 size || size == 2 && not is_q
        else ltb 3 size || ltb size 3 && is_q || size == 3 && not is_q)
      ≡ false
    → size < 4
umov_small is_q is_signed size h = ground arith

disas_simd_umov_smov-Decodes :
    (is_q is_signed : Bool) (rn rd imm5 : ℕ)
    → rd < 32
    → rn < 32
    → imm5 < 32
    → Decodes (disas_simd_umov_smov is_q is_signed rn rd imm5)
unfolding disas_simd_umov_smov
disas_simd_umov_smov-Decodes is_q is_signed rn rd imm5 h g l =
    let size : ℕ = ctz32 imm5 in
    let refused : Bool =
      if is_signed
      then ltb 2 size || size == 2 && not is_q
      else ltb 3 size || ltb size 3 && is_q || size == 3 && not is_q in
    let rest : AllInRange (if is_signed && not is_q then Call.sext_32 rd rd ∷ [] else []) =
      ground arith in
    elim (Bool-cases refused) [
      | inl e ↦ rw e tt
      | inr e ↦
          let lane = field-IsLane_above size imm5 4 (umov_small is_q is_signed size e) l in
          rw e ((omega arith, omega arith, lane), rest)
    ]

pub disas_simd_scalar_copy-Decodes : (insn : ℕ) → Decodes (disas_simd_scalar_copy insn)
unfolding disas_simd_scalar_copy
disas_simd_scalar_copy-Decodes insn =
    elim (Bool-cases (bit insn 29 || not (field insn 11 4 == 0))) [
      | inl a ↦ rw a tt
      | inr a ↦ elim (Bool-cases (ltb 3 (ctz32 (field insn 16 5)))) [
        | inl e ↦ rw (a, e) tt
        | inr e ↦
            let size : ℕ = ctz32 (field insn 16 5) in
            rw (a, e)
              (
                (
                  ground (arith, reg-lt insn 0),
                  ground (arith, reg-lt insn 5),
                  index-IsLane_above size (field insn 16 5) (small size e) (reg-lt insn 16),
                ),
                tt,
              )
      ]
    ]

pub disas_simd_copy-Decodes : (insn : ℕ) → Decodes (disas_simd_copy insn)
unfolding disas_simd_copy
disas_simd_copy-Decodes insn =
    let rd : ℕ = field insn 0 5 in
    let rn : ℕ = field insn 5 5 in
    let imm5 : ℕ = field insn 16 5 in
    let imm4 : ℕ = field insn 11 4 in
    let is_q : Bool = bit insn 30 in
    let hd : rd < 32 = reg-lt insn 0 in
    let hn : rn < 32 = reg-lt insn 5 in
    let h5 : imm5 < 32 = reg-lt insn 16 in
    ground (
      arith,
      disas_simd_inse-Decodes rd rn imm4 imm5 hd hn (field-lt insn 11 4 (omega arith)) h5,
      disas_simd_insg-Decodes rd rn imm5 hd hn h5,
      disas_simd_dupe-Decodes is_q rd rn imm5 hd hn h5,
      disas_simd_dupg-Decodes is_q rd rn imm5 hd hn,
      disas_simd_umov_smov-Decodes is_q (imm4 == 5) rn rd imm5 hd hn h5,
    )
