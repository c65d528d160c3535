-- ===== src/Tests/Instructions.antt =====
-- The results on decoding and running instructions.
use nsemu.Common.{
  ℕ, ◌+◌, ◌-◌, ◌*◌, ◌%◌, ◌^◌, ◌≡◌, refl, ap, ◌∙◌, ◌==◌, inl, Bool, true, false, [], ◌∷◌, ◌++◌, none,
  ok, u64, if◌then◌else◌, arith,
}
use nsemu.Common.Bytes.{read_le}
use nsemu.Machine.{Machine, Gdb, getline, gpr_dummy, gpr_lr, pc_idx}
use nsemu.Memory.{in_ram, get_raw_ptr, load_host}
use nsemu.Mmu.{notify}
use nsemu.Mmu.RoundTrip.{straight, Maps}
use nsemu.Cpu.{x}
use nsemu.Cpu.Flags.{cond_hold}
use nsemu.Gdb.Send.{packet}
use nsemu.Gdb.Break.{on_gdb}
use nsemu.Gdb.Stub.{handle_packet}
use nsemu.Gdb.Stub.Registers.{handle_packet-cpu}
use nsemu.Disas.{disas_a64}
use nsemu.Disas.Callback.{Call}
use nsemu.Disas.Encode.{
  add_sub_imm_word, movw_imm_word, b_word, b_cond_word, br_word, ldst_imm_word, add_sub_reg_word,
}
use nsemu.Disas.Decode.Imm.{disas_a64-movw_imm}
use nsemu.Disas.Decode.LdSt.{disas_a64-add_sub_reg}
use nsemu.Disas.Bounds.{Decodes}
use nsemu.Disas.Bounds.Word.{disas_a64-Decodes}
use nsemu.Interpreter.{single_step, run_inst, Rounds}
use nsemu.Interpreter.Exec.{Handlers}
use nsemu.Interpreter.Step.{displaced, Keeps, single_step-Maps}
use nsemu.Interpreter.Step.Branch.{run_inst-b, run_inst-b_cond, run_inst-br}
use nsemu.Interpreter.Step.Data.{run_inst-add_sub_imm, run_inst-str-ldr}
use nsemu.Interpreter.Run.OneStep.{at_rest, after_packet, Rounds-step}
use nsemu.Tests.Machines.{test_arm-IsArm, test_machine}

abbrev no_handlers : Handlers
no_handlers n = none

-- LD1 of four registers from V31 on, which wraps to V0.
disas_a64-Decodes_example : Decodes (disas_a64 0x4c4020bf 0)
disas_a64-Decodes_example = disas_a64-Decodes 0x4c4020bf 0

-- STR W2, [X5, #0x1000] and LDR W3, [X5, #0x1000].
run_inst-str-ldr_example :
    (m' : Machine) × (m'' : Machine) × (run_inst no_handlers
        (ldst_imm_word 2 0 0x400 5 2)
        test_machine
      ≡ ok m')
    × (run_inst no_handlers (ldst_imm_word 2 1 0x400 5 3) m' ≡ ok m'')
    × (x m''.cpu 3 ≡ 0xffff_ffff_ffff_fffe % 256 ^ 4)
    × (x m''.cpu pc_idx ≡ 8)
run_inst-str-ldr_example =
    run_inst-str-ldr no_handlers 2 0x400 5 2 3 test_machine (ground arith) (ground arith)
      (ground arith) (ground arith) (ground arith) (straight (ground arith))

-- BL to the instruction before this one, at address 0.
run_inst-b_example :
    (m' : Machine) × (run_inst no_handlers (b_word 1 0x3ff_ffff) test_machine ≡ ok m')
    × (x m'.cpu pc_idx ≡ 2 ^ 64 - 4)
    × (x m'.cpu gpr_lr ≡ 4)
    × Keeps gpr_lr gpr_dummy test_machine m'
run_inst-b_example =
    run_inst-b no_handlers 1 0x3ff_ffff test_machine (ground arith) (ground arith) (ground arith)

-- B.NE #8.
run_inst-b_cond_example :
    (hold : Bool) × (m' : Machine) × (cond_hold 1 0 ≡ ok hold)
    × (run_inst no_handlers (b_cond_word 2 1) test_machine ≡ ok m')
    × (x m'.cpu pc_idx ≡ (if hold then displaced 19 2 0 else u64 (0 + 4)))
    × Keeps 31 31 test_machine m'
run_inst-b_cond_example =
    run_inst-b_cond no_handlers 2 1 test_machine (ground arith) (ground arith) (ground arith)

-- BLR X1.
run_inst-br_example :
    (m' : Machine) × (run_inst no_handlers (br_word 1 1) test_machine ≡ ok m')
    × (x m'.cpu pc_idx ≡ 7)
    × (x m'.cpu gpr_lr ≡ 4)
    × Keeps gpr_lr 31 test_machine m'
run_inst-br_example =
    run_inst-br no_handlers 1 1 test_machine (ground arith) (ground arith) (λ e. ground arith)
      test_arm-IsArm

-- SUB SP, X1, #3.
run_inst-add_sub_imm_example :
    (m' : Machine) × (run_inst no_handlers (add_sub_imm_word 1 1 0 0 3 1 31) test_machine ≡ ok m')
    × (x m'.cpu 32 ≡ 4)
    × (x m'.cpu pc_idx ≡ 4)
    × Keeps 32 31 test_machine m'
run_inst-add_sub_imm_example =
    run_inst-add_sub_imm no_handlers 1 0 3 1 31 test_machine (ground arith) (ground arith)
      (ground arith) (ground arith) (ground arith)

-- MOVN X0, #2, LSL #48.
disas_a64-movw_imm_example :
    disas_a64 (movw_imm_word 1 0 3 2 0) 0 ≡ ok (Call.movi_i64 0 (2 ^ 64 - 1 - 2 * 2 ^ 48) true ∷ [])
disas_a64-movw_imm_example =
    disas_a64-movw_imm 1 0 3 2 0 0 (inl refl) (inl (refl, ground arith)) (ground arith)
      (ground arith)

-- SUBS W0, W1, W2, LSR #31.
disas_a64-add_sub_reg_example :
    disas_a64 (add_sub_reg_word 0 1 1 1 2 31 1 0) 0
    ≡ ok (
        Call.mov_reg gpr_dummy 2 true
        ∷ Call.shift_i64 gpr_dummy gpr_dummy 1 31 false
        ∷ Call.sub_reg 0 1 gpr_dummy true false
        ∷ [])
disas_a64-add_sub_reg_example =
    disas_a64-add_sub_reg 0 1 1 1 2 31 1 0 0 (ground arith) (ground arith) (ground arith)
      (ground arith) (ground arith) (ground arith) (ground arith) (ground arith)

abbrev dollar_machine : Machine
dollar_machine =
    on_gdb (λ g. record g { buf_index = 0; line_sum = 0; state = getline }) test_machine

dollar_taken : handle_packet b'$' test_machine ≡ ok dollar_machine
unfolding handle_packet
dollar_taken = refl

handle_packet-cpu_example : dollar_machine.cpu ≡ test_machine.cpu
handle_packet-cpu_example = handle_packet-cpu b'$' test_machine dollar_taken

-- B to itself, at address 0, without a debugger.
abbrev loop_bytes : ℕ → ℕ
loop_bytes i = if i == 3 then 0x14 else 0

abbrev loop_machine : Machine
loop_machine = record test_machine {
  mem = record (test_machine.mem) { ram = loop_bytes };
  gdb = record (test_machine.gdb) { enabled = false };
}

loop_mapped : Maps loop_machine.mem 0 4 loop_bytes
unfolding get_raw_ptr load_host
loop_mapped = (in_ram 0, refl, λ k h. ground arith, ground arith)

abbrev loop_under : Gdb → Machine
loop_under g = record loop_machine { gdb = g }

loop_word : read_le 4 loop_bytes 0 ≡ b_word 0 0
unfolding read_le b_word
loop_word = refl

-- The machine runs its branch whatever the stub's state is.
loop_step : (g : Gdb) → (n : Machine) × (single_step no_handlers (loop_under g) ≡ ok n)
loop_step g =
    let (n, ran, target, link, keeps) =
      run_inst-b no_handlers 0 0 (loop_under (notify 0 4 true g)) (ground arith) (ground arith)
        (ground arith) in
    (
      n,
      single_step-Maps no_handlers loop_bytes (loop_under g) loop_mapped (λ j h. ground arith)
          ∙ (ap (λ w. run_inst no_handlers w (loop_under (notify 0 4 true g))) loop_word ∙ ran),
    )

Rounds-step_example :
    (m' : Machine) × Rounds no_handlers
      (packet (b's' ∷ []) ++ b'+' ∷ [], on_gdb at_rest loop_machine)
      (b'+' ∷ [], m')
    × (m'.cpu ≡ ((loop_step (after_packet loop_machine.gdb)).0).cpu)
    × (m'.mem ≡ ((loop_step (after_packet loop_machine.gdb)).0).mem)
    × (m'.gdb.step ≡ false)
    × (m'.gdb.cont ≡ false)
Rounds-step_example =
    Rounds-step no_handlers loop_machine ((loop_step (after_packet loop_machine.gdb)).0) (b'+' ∷ [])
      ((loop_step (after_packet loop_machine.gdb)).1)
