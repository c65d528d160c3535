-- ===== src/Interpreter.antt =====
-- ARMv8/Interpreter.cpp: IntprCallback as the receiver of a decoder's calls, SingleStep, and the
-- rounds of Run. The supervisor calls of Svc.cpp are the parameter `handlers`: svc_handlers, whose
-- entries may be empty.
pub mod Exec
pub mod Step
pub mod Run
use nsemu.Common.{
  ℕ, ◌+◌, ◌^◌, ◌≡◌, Bool, true, false, u64, if◌then◌else◌, Outcome, ok, ◌>>=◌, List, [], ◌∷◌,
}
use nsemu.Machine.{Gdb, Machine, gpr_zero, pc_idx}
use nsemu.Mmu.{read_inst}
use nsemu.Gdb.Send.{trap}
use nsemu.Gdb.Break.{on_gdb}
use nsemu.Gdb.Stub.{handle_packet}
use nsemu.Cpu.{x, set_x}
use nsemu.Cpu.LoadStore.{on_cpu}
use nsemu.Disas.{disas_a64}
use nsemu.Interpreter.Exec.{Handlers, exec_all}

-- PC += sizeof(uint32_t), and the reset of the zero register.
abbrev pub advance : Machine → Machine
advance = on_cpu (λ a. set_x gpr_zero 0 (set_x pc_idx (u64 (x a pc_idx + 4)) a))

-- What SingleStep does with the word fetched: decoding, with each callback run, and the advance.
unfoldable pub run_inst : Handlers → ℕ → Machine → Outcome Machine
unfolding exec_all
run_inst handlers inst m = do
  calls ← disas_a64 inst (x m.cpu pc_idx)
  m' ← exec_all handlers calls m
  ok (advance m')

unfoldable pub single_step : Handlers → Machine → Outcome Machine
unfolding run_inst
single_step handlers m = do (inst, m') ← read_inst (x m.cpu pc_idx) m; run_inst handlers inst m'

-- What Run does after a packet while the client has asked for a step.
unfoldable pub stepped : Handlers → Machine → Outcome Machine
unfolding single_step trap
stepped handlers m =
    if m.gdb.step
    then (do m' ← single_step handlers m; ok (on_gdb (λ g. trap (record g { step = false })) m'))
    else ok m

-- A round of the loop of Run, with the bytes that the client has still to send before and after it.
pub data Round (handlers : Handlers) : List ℕ × Machine → List ℕ × Machine → Type 0 where
  alone :
      {input : List ℕ} {m m' : Machine}
      → m.gdb.enabled ≡ false
      → single_step handlers m ≡ ok m'
      → Round handlers (input, m) (input, m')
  continued :
      {input : List ℕ} {m m' : Machine}
      → m.gdb.enabled ≡ true
      → m.gdb.cont ≡ true
      → single_step handlers m ≡ ok m'
      → Round handlers (input, m) (input, m')
  stopped :
      {ch : ℕ} {input : List ℕ} {m m' m'' : Machine}
      → m.gdb.enabled ≡ true
      → m.gdb.cont ≡ false
      → handle_packet ch m ≡ ok m'
      → stepped handlers m' ≡ ok m''
      → Round handlers (ch ∷ input, m) (input, m'')

-- Any number of rounds.
pub data Rounds (handlers : Handlers) (s : List ℕ × Machine) : List ℕ × Machine → Type 0 where
  here : Rounds handlers s s
  next : {t u : List ℕ × Machine} → Rounds handlers s t → Round handlers t u → Rounds handlers s u
