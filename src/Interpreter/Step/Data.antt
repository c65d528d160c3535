-- ===== src/Interpreter/Step/Data.antt =====
-- ARMv8/Interpreter.cpp: additions with an immediate, loads and stores, decoded and run.
use nsemu.Common.{
  ℕ, zero, suc, ◌+◌, ◌*◌, ◌%◌, ◌^◌, ◌<◌, ◌≤◌, ◌≡◌, ◌≢◌, refl, ap, ◌∙◌, inl, Bool, true, false, u64,
  neg64, ltb, ◌==◌, if◌then◌else◌, ok, arith,
}
use native.Mathlib.Nat.{pow-le-pow_right}
use nsemu.Common.Bytes.{read_le, write_le, read_le-write_le, write_le_inside}
use nsemu.Machine.{Machine, gpr_zero, gpr_dummy, pc_idx}
use nsemu.Mmu.{notify}
use nsemu.Mmu.RoundTrip.{Maps, Accessible, Accessible-Shows, read_from_ram-Maps, write_to_ram-Maps}
use nsemu.Cpu.{x, set_x, handle_as_sp}
use nsemu.Cpu.Arith
use nsemu.Cpu.Alu
use nsemu.Cpu.LoadStore.{on_cpu, load_reg_at, load_reg_i64, store_reg_i64}
use nsemu.Cpu.LoadStore.RoundTrip.{width, store_reg_at-as, load_reg_at-as}
use nsemu.Disas.Callback.{Call}
use nsemu.Disas.Encode.{add_sub_imm_word, ldst_imm_word}
use nsemu.Disas.Decode.Imm.{disas_a64-add_sub_imm}
use nsemu.Disas.Decode.LdSt.{disas_a64-ldst_imm}
use nsemu.Interpreter.{run_inst, advance}
use nsemu.Interpreter.Exec.{Handlers, exec, exec_all}
use nsemu.Interpreter.Step.{Keeps}

-- AddI64 at 64 bits without flags, register 31 being SP on both sides.
add_i64-exec :
    (h : Handlers) (rd rn off : ℕ) (m : Machine)
    → exec h (Call.add_i64 rd rn off false true) m
      ≡ ok (on_cpu (λ a. set_x (handle_as_sp rd) (u64 (x a (handle_as_sp rn) + off)) a) m)
unfolding exec nsemu.Cpu.Arith.add_i64 nsemu.Cpu.Alu.arithmetic_logic
add_i64-exec h rd rn off m = refl

sub_i64-exec :
    (h : Handlers) (rd rn off : ℕ) (m : Machine)
    → off < 2 ^ 63
    → exec h (Call.sub_i64 rd rn off false true) m
      ≡ ok (on_cpu (λ a. set_x (handle_as_sp rd) (u64 (x a (handle_as_sp rn) + neg64 off)) a) m)
unfolding exec nsemu.Cpu.Arith.sub_i64 nsemu.Cpu.Alu.arithmetic_logic
sub_i64-exec h rd rn off m small =
    let sound : (off == 2 ^ 63) ≡ false = ground arith in rw sound refl

-- The dummy register as the base of an access plus its offset.
dummy_sum :
    (h : Handlers) (rn off : ℕ) (m : Machine)
    → exec h (Call.add_i64 gpr_dummy (handle_as_sp rn) off false true) m
      ≡ ok (on_cpu (set_x gpr_dummy (u64 (x m.cpu (handle_as_sp rn) + off))) m)
dummy_sum h rn off m =
    let same : handle_as_sp (handle_as_sp rn) ≡ handle_as_sp rn = ground arith in
    rw (add_i64-exec h gpr_dummy (handle_as_sp rn) off m, same) refl

-- The second operand of an addition, for ADD (`op` 0) and SUB (1) of an immediate.
abbrev pub addend : ℕ → ℕ → ℕ
addend op imm = if op == 1 then neg64 imm else imm

add_sub_exec :
    (h : Handlers) (op rd rn imm : ℕ) (m : Machine)
    → op < 2
    → imm < 2 ^ 63
    → exec h ((if op == 1 then Call.sub_i64 else Call.add_i64) rd rn imm false true) m
      ≡ ok (on_cpu (λ a. set_x (handle_as_sp rd) (u64 (x a (handle_as_sp rn) + addend op imm)) a) m)
add_sub_exec h zero rd rn imm m hop small = add_i64-exec h rd rn imm m
add_sub_exec h (suc zero) rd rn imm m hop small = sub_i64-exec h rd rn imm m small
add_sub_exec h (suc (suc op)) rd rn imm m hop small = absurd (omega arith)

-- A register set, and the advance.
advance_set :
    (r v : ℕ) (m : Machine)
    → r ≢ pc_idx
    → r ≢ gpr_zero
    → (x (advance (on_cpu (set_x r v) m)).cpu r ≡ v)
      × (x (advance (on_cpu (set_x r v) m)).cpu pc_idx ≡ u64 (x m.cpu pc_idx + 4))
      × Keeps r gpr_zero m (advance (on_cpu (set_x r v) m))
advance_set r v m hpc hz =
    (ground arith, ground arith, (λ k a b c d. ground arith, refl, refl, refl, refl, refl, refl))

-- ADD and SUB (immediate) of 64 bits without flags: the destination holds the sum or the difference
-- modulo 2 ^ 64 with the immediate, shifted by 12 where `sh` is set; register 31 is SP on both
-- sides. PC goes on by 4; every other general register but the zero register, the vector and system
-- registers, the flags, the memory, the stub and the kernel stay.
pub run_inst-add_sub_imm :
    (h : Handlers) (op sh imm12 rn rd : ℕ) (m : Machine)
    → op < 2
    → sh < 2
    → imm12 < 2 ^ 12
    → rn < 32
    → rd < 32
    → (m' : Machine) × (run_inst h (add_sub_imm_word 1 op 0 sh imm12 rn rd) m ≡ ok m')
      × (x m'.cpu (handle_as_sp rd)
          ≡ u64 (x m.cpu (handle_as_sp rn) + addend op (if sh == 1 then imm12 * 2 ^ 12 else imm12)))
      × (x m'.cpu pc_idx ≡ u64 (x m.cpu pc_idx + 4))
      × Keeps (handle_as_sp rd) gpr_zero m m'
unfolding run_inst exec_all
run_inst-add_sub_imm h op sh imm12 rn rd m hop hsh himm hrn hrd =
    let imm : ℕ = if sh == 1 then imm12 * 2 ^ 12 else imm12 in
    let value : ℕ = u64 (x m.cpu (handle_as_sp rn) + addend op imm) in
    let r : ℕ = handle_as_sp rd in
    let (set, pc', keeps) = advance_set r value m (ground arith) (ground arith) in
    (
      advance (on_cpu (set_x r value) m),
      rw
          (
            disas_a64-add_sub_imm 1 op 0 sh imm12 rn rd (x m.cpu pc_idx) (omega arith) hop
                (omega arith) hsh himm hrn hrd,
            add_sub_exec h op rd rn imm m hop (ground arith),
          )
          refl,
      set,
      pc',
      keeps,
    )

width_le : (size : ℕ) → size < 4 → width size ≤ 8
width_le size h = pow-le-pow_right {n = 2} (omega arith) {j = 3} (omega arith)

-- The store of STR, STRB and STRH with an unsigned offset, decoded and run on a mapped address.
str_run :
    (h : Handlers) (size imm12 rn rs : ℕ) (m : Machine)
    → size < 4
    → imm12 < 2 ^ 12
    → rn < 32
    → rs < 32
    → Accessible m.mem (u64 (x m.cpu (handle_as_sp rn) + imm12 * 2 ^ size)) (width size)
    → (m' : Machine) × (f : ℕ → ℕ) × (run_inst h (ldst_imm_word size 0 imm12 rn rs) m ≡ ok m')
      × Maps m'.mem (u64 (x m.cpu (handle_as_sp rn) + imm12 * 2 ^ size)) (width size) f
      × ((j : ℕ) → j < width size → f j < 256)
      × (read_le (width size) f 0 ≡ x m.cpu rs % 256 ^ width size)
      × (x m'.cpu pc_idx ≡ u64 (x m.cpu pc_idx + 4))
      × (x m'.cpu (handle_as_sp rn) ≡ x m.cpu (handle_as_sp rn))
unfolding run_inst exec_all exec store_reg_i64
str_run h size imm12 rn rs m hs himm hrn hrs mapped =
    let addr : ℕ = u64 (x m.cpu (handle_as_sp rn) + imm12 * 2 ^ size) in
    let m₁ : Machine = on_cpu (set_x gpr_dummy addr) m in
    let kept : x m₁.cpu rs ≡ x m.cpu rs = ground arith in
    let (value, stored, same) = store_reg_at-as rs addr size m₁ (omega arith) in
    let (p, f, ptr, shows, top) = Accessible-Shows m.mem addr (width size) mapped in
    let (mem', wrote, maps) = write_to_ram-Maps (width size) addr value f m₁ (p, ptr, shows, top) in
    let m₂ : Machine = record m₁ { mem = mem'; gdb = notify addr (width size) false m.gdb } in
    (
      advance m₂,
      write_le (width size) f 0 value,
      rw
          (
            disas_a64-ldst_imm size 0 imm12 rn rs (x m.cpu pc_idx) hs (inl (omega arith)) himm hrn
                hrs,
            dummy_sum h rn (imm12 * 2 ^ size) m,
          )
          (rw (stored, wrote) refl),
      maps,
      λ j k. write_le_inside (width size) f 0 value j (omega arith) (omega arith),
      read_le-write_le (width size) f 0 value ∙ (same ∙ ap (λ v. v % 256 ^ width size) kept),
      ground arith,
      ground arith,
    )

load_extended :
    (rd addr size : ℕ) (extend : Bool) (m : Machine)
    → load_reg_at rd addr size false extend m ≡ load_reg_at rd addr size false false m
unfolding load_reg_at
load_extended rd addr size true m = refl
load_extended rd addr size false m = refl

-- The load of LDR, LDRB and LDRH with an unsigned offset, decoded and run where `f` shows.
ldr_run :
    (h : Handlers) (size imm12 rn rt addr : ℕ) (f : ℕ → ℕ) (m : Machine)
    → size < 4
    → imm12 < 2 ^ 12
    → rn < 32
    → rt < 31
    → u64 (x m.cpu (handle_as_sp rn) + imm12 * 2 ^ size) ≡ addr
    → Maps m.mem addr (width size) f
    → ((j : ℕ) → j < width size → f j < 256)
    → (m' : Machine) × (run_inst h (ldst_imm_word size 1 imm12 rn rt) m ≡ ok m')
      × (x m'.cpu rt ≡ read_le (width size) f 0)
      × (x m'.cpu pc_idx ≡ u64 (x m.cpu pc_idx + 4))
unfolding run_inst exec_all exec load_reg_i64
ldr_run h size imm12 rn rt addr f m hs himm hrn hrt at maps bytes =
    let m₁ : Machine = on_cpu (set_x gpr_dummy addr) m in
    let value : ℕ = read_le (width size) f 0 in
    let m₂ : Machine = record m₁ { gdb = notify addr (width size) true m.gdb } in
    (
      advance (on_cpu (set_x rt value) m₂),
      rw
          (
            disas_a64-ldst_imm size 1 imm12 rn rt (x m.cpu pc_idx) hs (inl (omega arith)) himm hrn
                (omega arith),
            dummy_sum h rn (imm12 * 2 ^ size) m,
            at,
            load_extended rt addr size (ltb size 3) m₁,
            load_reg_at-as rt addr size false m₁ (omega arith),
            read_from_ram-Maps (width size) addr f m₁ (width_le size hs) maps bytes,
          )
          refl,
      ground arith,
      ground arith,
    )

-- A register stored by STR, STRB or STRH with an unsigned offset to a mapped address is what LDR, LDRB
-- or LDRH of the same base and offset, run next, leaves in its register, cut to the bytes of the
-- access. Both instructions succeed, and PC is behind the second.
pub run_inst-str-ldr :
    (h : Handlers) (size imm12 rn rs rt : ℕ) (m : Machine)
    → size < 4
    → imm12 < 2 ^ 12
    → rn < 32
    → rs < 32
    → rt < 31
    → Accessible m.mem (u64 (x m.cpu (handle_as_sp rn) + imm12 * 2 ^ size)) (width size)
    → (m' : Machine) × (m'' : Machine) × (run_inst h (ldst_imm_word size 0 imm12 rn rs) m ≡ ok m')
      × (run_inst h (ldst_imm_word size 1 imm12 rn rt) m' ≡ ok m'')
      × (x m''.cpu rt ≡ x m.cpu rs % 256 ^ width size)
      × (x m''.cpu pc_idx ≡ u64 (x m.cpu pc_idx + 8))
run_inst-str-ldr h size imm12 rn rs rt m hs himm hrn hrs hrt mapped =
    let addr : ℕ = u64 (x m.cpu (handle_as_sp rn) + imm12 * 2 ^ size) in
    let (m', f, ran, maps, bytes, value, pc', base) =
      str_run h size imm12 rn rs m hs himm hrn hrs mapped in
    let (m'', ran', loaded, pc'') =
      ldr_run h size imm12 rn rt addr f m' hs himm hrn hrt
        (ap (λ b. u64 (b + imm12 * 2 ^ size)) base) maps bytes in
    (m', m'', ran, ran', loaded ∙ value, omega (arith, pc', pc''))
