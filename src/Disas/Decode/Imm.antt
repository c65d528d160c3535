-- ===== src/Disas/Decode/Imm.antt =====
-- ARMv8/Disassembler.cpp: decoding of arithmetic with an immediate, and of wide moves.
use nsemu.Common.{
  ℕ, zero, suc, ap, sym, ◌-◌, ◌*◌, ◌^◌, ◌<◌, ◌≡◌, refl, ◌∙◌, ◌⊎◌, inl, inr, Bool, true, false, ◌==◌,
  if◌then◌else◌, ok, [], ◌∷◌, arith,
}
use nsemu.Common.Bits.{bit_and_mask}
use nsemu.Disas.{disas_a64}
use nsemu.Disas.Callback.{Call, movi_i64, deposit_i64, add_i64, sub_i64}
use nsemu.Disas.Field.{field}
use nsemu.Disas.Imm.{disas_add_sub_imm, disas_movw_imm}
use nsemu.Disas.Encode.{add_sub_imm_word, movw_imm_word}

add_sub_fields :
    (i sf op s sh imm rn rd : ℕ)
    → field i 31 1 ≡ sf
    → field i 30 1 ≡ op
    → field i 29 1 ≡ s
    → field i 22 2 ≡ sh
    → field i 10 12 ≡ imm
    → field i 5 5 ≡ rn
    → field i 0 5 ≡ rd
    → sh < 2
    → imm < 2 ^ 12
    → disas_add_sub_imm i
      ≡ ok (
          (if op == 1 then sub_i64 else add_i64) rd rn
            (if sh == 1 then imm * 2 ^ 12 else imm)
            (s == 1)
            (sf == 1)
          ∷ [])
unfolding disas_add_sub_imm
add_sub_fields i sf op s sh imm rn rd h31 h30 h29 h22 h10 h5 h0 hsh himm =
    rw (h31, h30, h29, h22, h10, h5, h0) (ground arith)

-- DisasA64 of ADD, ADDS, SUB or SUBS (immediate) calls AddI64 or SubI64 once, with the registers of
-- the word, its immediate (times 2 ^ 12 where `sh` is set), whether flags are set, and the width.
pub disas_a64-add_sub_imm :
    (sf op s sh imm12 rn rd pc : ℕ)
    → sf < 2
    → op < 2
    → s < 2
    → sh < 2
    → imm12 < 2 ^ 12
    → rn < 32
    → rd < 32
    → disas_a64 (add_sub_imm_word sf op s sh imm12 rn rd) pc
      ≡ ok (
          (if op == 1 then sub_i64 else add_i64) rd rn
            (if sh == 1 then imm12 * 2 ^ 12 else imm12)
            (s == 1)
            (sf == 1)
          ∷ [])
unfolding disas_a64 field add_sub_imm_word
disas_a64-add_sub_imm sf op s sh imm12 rn rd pc hsf hop hs hsh himm hrn hrd =
    let i : ℕ = add_sub_imm_word sf op s sh imm12 rn rd in
    let upper : field i 25 4 ≡ 8 = omega arith in
    let group : field i 23 6 ≡ 0x22 = omega arith in
    rw (upper, group)
      (add_sub_fields i sf op s sh imm12 rn rd (omega arith) (omega arith) (omega arith)
        (omega arith) (omega arith) (omega arith) (omega arith) hsh himm)

-- A wide move's immediate fits its register.
wide_lt : (imm hw : ℕ) → imm < 2 ^ 16 → hw < 4 → imm * 2 ^ (hw * 2 ^ 4) < 2 ^ 64
wide_lt imm zero h k = omega arith
wide_lt imm (suc zero) h k = omega arith
wide_lt imm (suc (suc zero)) h k = omega arith
wide_lt imm (suc (suc (suc zero))) h k = omega arith
wide_lt imm (suc (suc (suc (suc hw)))) h k = absurd (omega arith)

narrow_lt : (imm hw : ℕ) → imm < 2 ^ 16 → hw < 2 → imm * 2 ^ (hw * 2 ^ 4) < 2 ^ 32
narrow_lt imm zero h k = omega arith
narrow_lt imm (suc zero) h k = omega arith
narrow_lt imm (suc (suc hw)) h k = absurd (omega arith)

-- The value that MOVZ (`opc` 2), or MOVN (0), puts into a register of `width` bits.
abbrev pub wide : ℕ → ℕ → ℕ → ℕ → ℕ
wide width opc hw imm16 =
    let v = imm16 * 2 ^ (hw * 2 ^ 4) in if opc == 2 then v else 2 ^ width - 1 - v

abbrev pub movw_call : ℕ → Bool → ℕ → ℕ → ℕ → ℕ → Call
movw_call width sf opc hw imm rd =
    if opc == 3
    then deposit_i64 rd imm (hw * 2 ^ 4) 16 sf
    else movi_i64 rd (wide width opc hw imm) sf

movw_fields :
    (i sf opc hw imm rd : ℕ)
    → field i 31 1 ≡ sf
    → field i 29 2 ≡ opc
    → field i 21 2 ≡ hw
    → field i 5 16 ≡ imm
    → field i 0 5 ≡ rd
    → (opc ≡ 0) ⊎ ((opc ≡ 2) ⊎ (opc ≡ 3))
    → imm < 2 ^ 16
    → ((sf ≡ 1) → (hw < 4) → disas_movw_imm i ≡ ok (movw_call 64 true opc hw imm rd ∷ []))
      × ((sf ≡ 0) → (hw < 2) → disas_movw_imm i ≡ ok (movw_call 32 false opc hw imm rd ∷ []))
unfolding disas_movw_imm
movw_fields i sf opc hw imm rd h31 h29 h21 h5 h0 hopc himm =
    let v = imm * 2 ^ (hw * 2 ^ 4) in
    elim hopc [
      | inl o ↦ (
        λ e k. rw (h31, h29, h21, h5, h0, e, o) (ground (arith, wide_lt imm hw himm k)),
        λ e k.
            rw (h31, h29, h21, h5, h0, e, o)
              (ground (arith, narrow_lt imm hw himm k, bit_and_mask 32 (2 ^ 64 - 1 - v))),
      )
      | inr (inl o) ↦ (
        λ e k. rw (h31, h29, h21, h5, h0, e, o) (ground (arith, wide_lt imm hw himm k)),
        λ e k.
            rw (h31, h29, h21, h5, h0, e, o)
              (ground (arith, narrow_lt imm hw himm k, bit_and_mask 32 v)),
      )
      | inr (inr o) ↦ (
        λ e k. rw (h31, h29, h21, h5, h0, e, o) (ground (arith, wide_lt imm hw himm k)),
        λ e k. rw (h31, h29, h21, h5, h0, e, o) (ground (arith, narrow_lt imm hw himm k)),
      )
    ]

movw_imm_decoded :
    (sf opc hw imm16 rd pc : ℕ)
    → (opc ≡ 0) ⊎ ((opc ≡ 2) ⊎ (opc ≡ 3))
    → imm16 < 2 ^ 16
    → rd < 32
    → ((sf ≡ 1)
        → hw < 4
        → disas_a64 (movw_imm_word sf opc hw imm16 rd) pc
          ≡ ok (movw_call 64 true opc hw imm16 rd ∷ []))
      × ((sf ≡ 0)
          → hw < 2
          → disas_a64 (movw_imm_word sf opc hw imm16 rd) pc
            ≡ ok (movw_call 32 false opc hw imm16 rd ∷ []))
unfolding disas_a64 field movw_imm_word
movw_imm_decoded sf opc hw imm16 rd pc hopc himm hrd =
    let i : ℕ = movw_imm_word sf opc hw imm16 rd in
    let opc_lt : opc < 4 = ground arith in
    let decode : sf < 2 → hw < 4 → disas_a64 i pc ≡ disas_movw_imm i = λ hsf hhw.
      let upper : field i 25 4 ≡ 9 = omega arith in
      let group : field i 23 6 ≡ 0x25 = omega arith in rw (upper, group) refl in
    let fields : sf < 2 → hw < 4 → _ = λ hsf hhw.
      movw_fields i sf opc hw imm16 rd (omega arith) (omega arith) (omega arith) (omega arith)
        (omega arith) hopc himm in
    (
      λ e k. decode (omega arith) k ∙ (fields (omega arith) k).0 e k,
      λ e k. decode (omega arith) (omega arith) ∙ (fields (omega arith) (omega arith)).1 e k,
    )

-- DisasA64 of MOVN, MOVZ and MOVK (`opc` 0, 2, 3) with a shift inside the register: MOVZ and MOVN move
-- the shifted immediate, or its complement at 64 bits (`sf` 1) or at 32 (`sf` 0); MOVK deposits
-- the 16 bits at their place.
pub disas_a64-movw_imm :
    (sf opc hw imm16 rd pc : ℕ)
    → (opc ≡ 0) ⊎ ((opc ≡ 2) ⊎ (opc ≡ 3))
    → (sf ≡ 1) × (hw < 4) ⊎ (sf ≡ 0) × (hw < 2)
    → imm16 < 2 ^ 16
    → rd < 32
    → disas_a64 (movw_imm_word sf opc hw imm16 rd) pc
      ≡ ok (movw_call (if sf == 1 then 64 else 32) (sf == 1) opc hw imm16 rd ∷ [])
disas_a64-movw_imm sf opc hw imm16 rd pc hopc (inl (e, k)) himm hrd =
    (movw_imm_decoded sf opc hw imm16 rd pc hopc himm hrd).0 e k
    ∙ ap (λ w. ok (movw_call (if w == 1 then 64 else 32) (w == 1) opc hw imm16 rd ∷ [])) (sym e)
disas_a64-movw_imm sf opc hw imm16 rd pc hopc (inr (e, k)) himm hrd =
    (movw_imm_decoded sf opc hw imm16 rd pc hopc himm hrd).1 e k
    ∙ ap (λ w. ok (movw_call (if w == 1 then 64 else 32) (w == 1) opc hw imm16 rd ∷ [])) (sym e)
