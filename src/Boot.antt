-- ===== src/Boot.antt =====
-- Nsemu.cpp, Cpu.cpp, ARMv8/ARMv8.cpp, Thread.cpp and Service/Dispdrv.cpp: the machine that BootUp makes
-- before the processor runs.
pub mod Ready
use nsemu.Common.{
  ℕ, ◌+◌, ◌*◌, ◌==◌, if◌then◌else◌, none, some, List, [], ◌∷◌, ◌++◌, Outcome, ok, ◌>>=◌,
}
use nsemu.Common.Lists.{update}
use nsemu.Machine.{Arm, Machine, Kernel, Display, event, gpr_sp, pc_idx}
use nsemu.Memory.{init_memmap, add_memmap}
use nsemu.Cpu.{set_x}
use nsemu.Kernel.{codes, new_object, create_thread, init_threads, init_ipc, first_handle}
use nsemu.Loader.{Lz4, File, load_nso}

abbrev pub tls_base : ℕ
tls_base = 0x1001000

abbrev pub tls_size : ℕ
tls_size = 0xfff

-- The registers that ARMv8::Init sets; tpidrro_el and tczid_el follow the four of tpidr_el.
abbrev pub start_arm : ℕ → Arm → Arm
start_arm handle a =
    let a₁ = set_x 1 handle (set_x gpr_sp 0x3100000 (set_x pc_idx 0 a)) in
    record a₁ { sysr = update (update a₁.sysr 32 tls_base) 40 0x4 }

-- ARMv8::Init.
unfoldable pub init_arm : (ℕ → ℕ) → Machine → Machine
init_arm raw m =
    let (handle, k) = create_thread m.kernel in
    record m {
      cpu = start_arm handle m.cpu;
      mem = add_memmap raw tls_base tls_size m.mem;
      kernel = k;
    }

-- NVFlinger::Init, with the constructor of Display.
unfoldable pub init_displays : Kernel → Kernel
init_displays k =
    let (ptr, k₁) = new_object event k in
    record k₁ {
      displays = k₁.displays ++ record { id = 0; name = codes "Default"; vsync_event = ptr } ∷ [];
    }

-- Cpu::Init. SVC::Init only fills its table.
unfoldable pub init_cpu : (ℕ → ℕ) → Machine → Machine
unfolding init_arm init_displays
init_cpu raw m =
    let m₁ = init_arm raw m in record m₁ { kernel = init_displays (init_threads m₁.kernel) }

-- BootUp up to Cpu::Run, and CpuThread's part of it.
unfoldable pub boot_up : Lz4 → File → (ℕ → ℕ) → Machine → Outcome Machine
unfolding init_cpu
boot_up lz4 file raw m = do
  (size, mem) ← load_nso lz4 file (init_memmap m.mem)
  let kernel = init_ipc m.kernel
  ok (init_cpu raw (record m { mem = mem; kernel = record kernel { handle_id = first_handle } }))
