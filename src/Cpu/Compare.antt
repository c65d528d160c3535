-- ===== src/Cpu/Compare.antt =====
-- ARMv8/Interpreter.cpp: what the conditions say after a compare, that is a subtraction that sets
-- the flags (SubReg and SubI64 with setflags, then CondHold).
use nsemu.Common.{
  ℕ, ◌+◌, ◌-◌, ◌*◌, ◌/◌, ◌%◌, ◌^◌, ◌<◌, ◌≡◌, refl, ap, ◌≢◌, Bool, true, false, not, ◌&&◌, ◌||◌, u32,
  u64, neg64, bit_and, bit_or, bit_xor, ltb, leb, ◌==◌, if◌then◌else◌, ok, arith, Bool-cases, inl,
  inr,
}
use nsemu.Common.Bits.{half_adder, bit_and_field}
use nsemu.Machine.{Arm, IsArm}
use nsemu.Cpu.{x, set_x, set_nzcv}
use nsemu.Cpu.Flags.{
  c_mask, nzcv_of, cond_hold, is_negative32, is_negative64, update_flag32, update_flag64,
}
use nsemu.Cpu.Alu.{OpType, arithmetic_logic, flags_after}
use nsemu.Cpu.Arith.{sub_reg}

-- What each condition reads off the four flags.
pub cond_table :
    (n z c v : Bool)
    → let nzcv = nzcv_of n z c v in
      (cond_hold 0 nzcv ≡ ok z)
      × (cond_hold 1 nzcv ≡ ok (not z))
      × (cond_hold 2 nzcv ≡ ok c)
      × (cond_hold 3 nzcv ≡ ok (not c))
      × (cond_hold 8 nzcv ≡ ok (c && not z))
      × (cond_hold 9 nzcv ≡ ok (not (c && not z)))
      × (cond_hold 10 nzcv ≡ ok (if n then v else not v))
      × (cond_hold 11 nzcv ≡ ok (not (if n then v else not v)))
      × (cond_hold 12 nzcv ≡ ok ((if n then v else not v) && not z))
      × (cond_hold 13 nzcv ≡ ok (not ((if n then v else not v) && not z)))
unfolding cond_hold
cond_table n z c v = ground arith

is_negative64_lem : (v : ℕ) → v < 2 ^ 64 → is_negative64 v ≡ leb (2 ^ 63) v
unfolding is_negative64
is_negative64_lem v h = ground (arith, bit_and_field 63 1 v)

is_negative32_lem : (v : ℕ) → v < 2 ^ 32 → is_negative32 v ≡ leb (2 ^ 31) v
unfolding is_negative32
is_negative32_lem v h = ground (arith, bit_and_field 31 1 v)

-- The flags of an addition, as tests on the numbers.
abbrev pub added_flags : ℕ → ℕ → ℕ → ℕ → ℕ
added_flags half res a b = nzcv_of (leb half res) (res == 0) (leb (2 * half) (a + b)) (
    (leb half a && leb half b && not (leb half res))
    || (not (leb half a) && not (leb half b) && leb half res))

update_flag64_lem :
    (res a b : ℕ)
    → res < 2 ^ 64
    → a < 2 ^ 64
    → b < 2 ^ 64
    → update_flag64 res a b ≡ added_flags (2 ^ 63) res a b
unfolding update_flag64
update_flag64_lem res a b h p q =
    let carry : not ((bit_and a b + bit_xor a b / 2) % 2 ^ 64 / 2 ^ 63 == 0)
        ≡ leb (2 ^ 64) (a + b) =
      ground (arith, half_adder a b) in
    rw (is_negative64_lem res h, is_negative64_lem a p, is_negative64_lem b q, carry) refl

pub update_flag32_lem :
    (res a b : ℕ)
    → res < 2 ^ 32
    → a < 2 ^ 32
    → b < 2 ^ 32
    → update_flag32 res a b ≡ added_flags (2 ^ 31) res a b
unfolding update_flag32
update_flag32_lem res a b h p q =
    let carry : not (u32 (bit_and a b + bit_xor a b / 2) / 2 ^ 31 == 0) ≡ leb (2 ^ 32) (a + b) =
      ground (arith, half_adder a b) in
    rw (is_negative32_lem res h, is_negative32_lem a p, is_negative32_lem b q, carry) refl

set_carry : (n z v : Bool) → bit_or (nzcv_of n z false v) c_mask ≡ nzcv_of n z true v
set_carry n z v = ground arith

-- The order of two's complement at a width of `2 * half`: the keys of the values compare as the
-- signed numbers do.
abbrev pub key : ℕ → ℕ → ℕ
key half v = (v + half) % (2 * half)

-- After comparing p with q: equality, the unsigned order, given by whether the carry says that p
-- is not below q, and the signed order.
pub record Compares (half : ℕ) (carry : Bool) (p q nzcv : ℕ) : Type 0 where
  pub eq : cond_hold 0 nzcv ≡ ok (p == q)
  pub ne : cond_hold 1 nzcv ≡ ok (not (p == q))
  pub hs : cond_hold 2 nzcv ≡ ok carry
  pub lo : cond_hold 3 nzcv ≡ ok (not carry)
  pub hi : cond_hold 8 nzcv ≡ ok (carry && not (p == q))
  pub ls : cond_hold 9 nzcv ≡ ok (not (carry && not (p == q)))
  pub ge : cond_hold 10 nzcv ≡ ok (leb (key half q) (key half p))
  pub lt : cond_hold 11 nzcv ≡ ok (ltb (key half p) (key half q))
  pub gt : cond_hold 12 nzcv ≡ ok (ltb (key half q) (key half p))
  pub le : cond_hold 13 nzcv ≡ ok (leb (key half p) (key half q))

-- The four flags that a right subtraction leaves.
abbrev pub overflow : ℕ → ℕ → ℕ → ℕ → Bool
overflow half res p b =
    (leb half p && leb half b && not (leb half res))
    || (not (leb half p) && not (leb half b) && leb half res)

pub Compares-flags :
    (half : ℕ) (carry n v : Bool) (p q : ℕ)
    → (if n then v else not v) ≡ leb (key half q) (key half p)
    → ((p == q) ≡ (key half p == key half q))
    → Compares half carry p q (nzcv_of n (p == q) carry v)
Compares-flags half carry n v p q signed same =
    let (t₀, t₁, t₂, t₃, t₄, t₅, t₆, t₇, t₈, t₉) = cond_table n (p == q) carry v in
    record {
      eq = t₀;
      ne = t₁;
      hs = t₂;
      lo = t₃;
      hi = t₄;
      ls = t₅;
      ge = rw t₆ (ap ok signed);
      lt = rw (t₇, signed) (ground arith);
      gt = rw (t₈, signed, same) (ground arith);
      le = rw (t₉, signed, same) (ground arith);
    }

pub flags64 :
    (p q : ℕ)
    → p < 2 ^ 64
    → q < 2 ^ 64
    → let res = u64 (p + neg64 q) in
      flags_after true OpType.sub res p (neg64 q)
      ≡ nzcv_of (leb (2 ^ 63) res) (p == q) (leb q p) (overflow (2 ^ 63) res p (neg64 q))
flags64 p q h g =
    let zero : (u64 (p + neg64 q) == 0) ≡ (p == q) = ground arith in
    rw (update_flag64_lem (u64 (p + neg64 q)) p (neg64 q) (omega arith) h (omega arith), zero)
      (elim (Bool-cases (neg64 q == 0)) [
        | inl e ↦
            let none_out : leb (2 * 2 ^ 63) (p + neg64 q) ≡ false = ground arith in
            let above : leb q p ≡ true = ground arith in
            rw (e, none_out, above)
              (set_carry (leb (2 ^ 63) (u64 (p + neg64 q))) (p == q)
                (overflow (2 ^ 63) (u64 (p + neg64 q)) p (neg64 q)))
        | inr e ↦
            let carries : leb (2 * 2 ^ 63) (p + neg64 q) ≡ leb q p = ground arith in
            rw (e, carries) refl
      ])

signed64 :
    (p q : ℕ)
    → p < 2 ^ 64
    → q < 2 ^ 64
    → q ≢ 2 ^ 63
    → let res = u64 (p + neg64 q) in
      (if leb (2 ^ 63) res
        then overflow (2 ^ 63) res p (neg64 q)
        else not (overflow (2 ^ 63) res p (neg64 q)))
      ≡ leb (key (2 ^ 63) q) (key (2 ^ 63) p)
signed64 p q h g ne = ground arith

same_key64 : (p q : ℕ) → p < 2 ^ 64 → q < 2 ^ 64 → (p == q) ≡ (key (2 ^ 63) p == key (2 ^ 63) q)
same_key64 p q h g = ground arith

-- SUBS and CMP at 64 bits, on registers whose values fit: the destination gets the difference modulo
-- 2 ^ 64, and every condition on equality and on the unsigned or signed order holds exactly when the
-- operands are so related, unless the second operand is the least signed value.
pub sub_reg-Compares :
    (rd rn rm : ℕ) (a : Arm)
    → IsArm a
    → x a rm ≢ 2 ^ 63
    → (a' : Arm) × (sub_reg rd rn rm true true a ≡ ok a')
      × (x a' rd ≡ u64 (x a rn + 2 ^ 64 - x a rm))
      × Compares (2 ^ 63) (leb (x a rm) (x a rn)) (x a rn) (x a rm) a'.nzcv
unfolding sub_reg arithmetic_logic
sub_reg-Compares rd rn rm a is ne =
    let p = x a rn in
    let q = x a rm in
    let res = u64 (p + neg64 q) in
    let sound : (q == 2 ^ 63) ≡ false = ground (arith, ne) in
    (
      set_x rd res (set_nzcv (flags_after true OpType.sub res p (neg64 q)) a),
      rw sound refl,
      ground (arith, is.gpr_lt rn, is.gpr_lt rm),
      rw (flags64 p q (is.gpr_lt rn) (is.gpr_lt rm)) (
          Compares-flags (2 ^ 63) (leb q p) (leb (2 ^ 63) res) (overflow (2 ^ 63) res p (neg64 q)) p
            q (signed64 p q (is.gpr_lt rn) (is.gpr_lt rm) ne)
            (same_key64 p q (is.gpr_lt rn) (is.gpr_lt rm))),
    )
