-- ===== src/Cpu/Bitfield/Extract.antt =====
-- ARMv8/Interpreter.cpp: SExtractI64 and UExtractI64 at 64 bits compute the bit field that UBFM and
-- SBFM name, although they go through two shifts and a dummy register.
use nsemu.Common.{
  ℕ, ◌+◌, ◌-◌, ◌*◌, ◌/◌, ◌%◌, ◌^◌, ◌≤◌, ◌<◌, ◌≡◌, refl, ap, ◌∙◌, ◌≢◌, ◌↔◌, inl, inr, true, u32, u64,
  asr64, ltb, ◌==◌, if◌then◌else◌, Bool-cases, ok, arith,
}
use nsemu.Common.Bits.{pow-add}
use nsemu.Common.Division.{field_shift, asr64_lem}
use nsemu.Machine.{Arm, IsArm, gpr_dummy}
use nsemu.Cpu.{x, set_x}
use nsemu.Cpu.Alu.{OpType, arithmetic_logic}
use nsemu.Cpu.Arith.{shift_i64}
use nsemu.Cpu.Bitfield.{shifted_field, sextract_i64, uextract_i64}
use native.Mathlib.Nat.{one-le-pow, div-lt_iff_lt-mul}

-- The right shift by which a field is brought down.
abbrev down : OpType → ℕ → ℕ → ℕ
down OpType.asr v k = asr64 v k
down _ v k = v / 2 ^ k

data IsRight : OpType → Type 0 where
  asr : IsRight OpType.asr
  lsr : IsRight OpType.lsr

shift_right :
    {op : OpType} (rd rn k : ℕ) (a : Arm)
    → IsRight op
    → k < 64
    → shift_i64 rd rn op k true a ≡ ok (set_x rd (down op (x a rn) k) a)
unfolding shift_i64 arithmetic_logic
shift_right rd rn k a asr h = ground arith
shift_right rd rn k a lsr h = ground arith

shift_left :
    (rd rn k : ℕ) (a : Arm)
    → k < 64
    → shift_i64 rd rn OpType.lsl k true a ≡ ok (set_x rd (u64 (x a rn * 2 ^ k)) a)
unfolding shift_i64 arithmetic_logic
shift_left rd rn k a h = ground arith

-- A field at the top needs no left shift; written as one by nothing, it is the general case.
top_shift : (v len pos : ℕ) → v < 2 ^ 64 → pos + len ≡ 64 → u64 (v * 2 ^ (64 - len - pos)) ≡ v
top_shift v len pos h e = rw (let z : 64 - len - pos ≡ 0 = omega arith in z) (omega arith)

-- The general registers but `rd` and the first dummy, the vector and system registers and the flags are
-- kept.
abbrev pub Others : ℕ → Arm → Arm → Type 0
Others rd a a' =
    ((r : ℕ) → r ≢ rd → r ≢ gpr_dummy → x a' r ≡ x a r)
    × (a'.vreg ≡ a.vreg)
    × (a'.nzcv ≡ a.nzcv)
    × (a'.sysr ≡ a.sysr)

-- Both callbacks before the last cut: the field, shifted to the top of the word and down again.
shifted_field_lem :
    {op : OpType} (rd rn pos len : ℕ) (a : Arm)
    → IsRight op
    → IsArm a
    → 0 < len
    → pos + len ≤ 64
    → (a' : Arm) × (shifted_field op rd rn pos len a ≡ ok a')
      × (x a' rd ≡ down op (u64 (x a rn * 2 ^ (64 - len - pos))) (64 - len))
      × Others rd a a'
unfolding shifted_field
shifted_field_lem {op} rd rn pos len a right is h g =
    let amount : u32 (64 + 2 ^ 32 - len) ≡ 64 - len = omega arith in
    let left : u32 (64 + 2 ^ 32 + 2 ^ 32 - len - pos) ≡ 64 - len - pos = omega arith in
    let moved : Arm = set_x gpr_dummy (u64 (x a rn * 2 ^ (64 - len - pos))) a in
    elim (Bool-cases (u32 (pos + len) == 64)) [
      | inl e ↦ (
        set_x rd (down op (x a rn) (64 - len)) a,
        rw (e, amount) (shift_right rd rn (64 - len) a right (omega arith)),
        rw (top_shift (x a rn) len pos (is.gpr_lt rn) (ground arith)) (ground arith),
        (λ r p q. ground arith, refl, refl, refl),
      )
      | inr e ↦ (
        set_x rd (down op (x moved gpr_dummy) (64 - len)) moved,
        rw (e, amount, left, shift_left gpr_dummy rn (64 - len - pos) a (ground arith))
            (shift_right rd gpr_dummy (64 - len) moved right (omega arith)),
        ground arith,
        (λ r p q. ground arith, refl, refl, refl),
      )
    ]

-- For a field of one bit or more inside the word, UExtractI64 at 64 bits leaves the field in the
-- destination, with zeros above, and changes nothing else but the first dummy register.
pub uextract_i64_lem :
    (rd rn pos len : ℕ) (a : Arm)
    → IsArm a
    → 0 < len
    → pos + len ≤ 64
    → (a' : Arm) × (uextract_i64 rd rn pos len true a ≡ ok a')
      × (x a' rd ≡ x a rn / 2 ^ pos % 2 ^ len)
      × Others rd a a'
unfolding uextract_i64
uextract_i64_lem rd rn pos len a is h g =
    let (a', runs, value, others) = shifted_field_lem rd rn pos len a lsr is h g in
    (a', rw runs refl, value ∙ field_shift (x a rn) pos len g, others)

ltb_congr : (a b c d : ℕ) → (a < b) ↔ (c < d) → ltb a b ≡ ltb c d
ltb_congr a b c d h = ground (arith, h.0, h.1)

-- The sign of the moved word is the sign of the field.
field_sign :
    (v pos len : ℕ)
    → 0 < len
    → pos + len ≤ 64
    → ltb (u64 (v * 2 ^ (64 - len - pos))) (2 ^ 63) ≡ ltb (v / 2 ^ pos % 2 ^ len) (2 ^ (len - 1))
field_sign v pos len h g =
    let top : 2 ^ 63 ≡ 2 ^ (len - 1) * 2 ^ (64 - len) =
      ap (λ (t : ℕ). 2 ^ t) (let e : 63 ≡ len - 1 + (64 - len) = omega arith in e)
      ∙ pow-add (len - 1) (64 - len) in
    let iff =
      div-lt_iff_lt-mul {k = 2 ^ (64 - len)} {x = u64 (v * 2 ^ (64 - len - pos))}
        {y = 2 ^ (len - 1)} (one-le-pow (64 - len) 2 (omega arith)) in
    ap (λ (t : ℕ). ltb (u64 (v * 2 ^ (64 - len - pos))) t) top
    ∙ ltb_congr (u64 (v * 2 ^ (64 - len - pos))) (2 ^ (len - 1) * 2 ^ (64 - len))
        (u64 (v * 2 ^ (64 - len - pos)) / 2 ^ (64 - len)) (2 ^ (len - 1)) (iff.1, iff.0)
    ∙ ap (λ (t : ℕ). ltb t (2 ^ (len - 1))) (field_shift v pos len g)

-- For such a field SExtractI64 at 64 bits leaves the field sign extended: with ones above where its
-- highest bit is set. Every other general register but the first dummy, the vector and system
-- registers and the flags stay.
pub sextract_i64_lem :
    (rd rn pos len : ℕ) (a : Arm)
    → IsArm a
    → 0 < len
    → pos + len ≤ 64
    → let field = x a rn / 2 ^ pos % 2 ^ len in
      (a' : Arm) × (sextract_i64 rd rn pos len true a ≡ ok a')
      × (x a' rd ≡ (if ltb field (2 ^ (len - 1)) then field else field + (2 ^ 64 - 2 ^ len)))
      × Others rd a a'
unfolding sextract_i64
sextract_i64_lem rd rn pos len a is h g =
    let (a', runs, value, others) = shifted_field_lem rd rn pos len a asr is h g in
    let back : 64 - (64 - len) ≡ len = omega arith in
    (
      a',
      rw runs refl,
      value
          ∙ rw
              (
                asr64_lem (u64 (x a rn * 2 ^ (64 - len - pos))) (64 - len) (omega arith)
                    (omega arith),
                field_sign (x a rn) pos len h g,
                field_shift (x a rn) pos len g,
                back,
              )
              refl,
      others,
    )
