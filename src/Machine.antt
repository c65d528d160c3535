-- ===== src/Machine.antt =====
-- The state of the emulator, after include/ARMv8/ARMv8.hpp, include/Memory.hpp, Memory.cpp,
-- GdbStub.cpp, Ipc.cpp, Nsemu.cpp and Thread.cpp: the globals of each namespace as a record, and one
-- record that holds them all.
use nsemu.Common.{ℕ, ◌^◌, ◌<◌, Bool, Option, List}
use nsemu.Common.Bytes.{AreBytes}
use Prim.Native.String.{String}

-- ARMv8State. `gpr` is indexed by the register number (31 zero, 32 SP, 33 PC, 34 to 36 dummies);
-- a vector register is its 16 bytes, which `b`, `h`, `s` and `d` view; `sysr` is indexed by the
-- byte offset of the 64-bit system register.
pub record Arm : Type 0 where
  pub gpr : ℕ → ℕ
  pub vreg : ℕ → ℕ → ℕ
  pub nzcv : ℕ
  pub sysr : ℕ → ℕ

abbrev pub gpr_lr : ℕ
gpr_lr = 30

abbrev pub gpr_zero : ℕ
gpr_zero = 31

abbrev pub gpr_sp : ℕ
gpr_sp = 32

abbrev pub pc_idx : ℕ
pc_idx = 33

abbrev pub gpr_dummy : ℕ
gpr_dummy = 34

-- RAMBlock. `block` is the host buffer of an anonymous block, `length` bytes long; `none` is the
-- null pointer of a block inside the straight mapping.
pub record RamBlock : Type 0 where
  pub name : String
  pub addr : ℕ
  pub length : ℕ
  pub perm : ℕ
  pub block : Option (ℕ → ℕ)

-- The globals of namespace Memory that change. `ram` is what pRAM points to.
pub record Memory : Type 0 where
  pub ram : ℕ → ℕ
  pub regions : List RamBlock
  pub heap_size : ℕ

-- RSState.
pub data RsState : Type 0 where
  inactive idle getline getline_esc getline_rle chksum1 chksum2 : RsState

pub record Breakpoint : Type 0 where
  pub addr : ℕ
  pub oldop : ℕ
  pub len : ℕ
  pub type : ℕ

pub record Watchpoint : Type 0 where
  pub addr : ℕ
  pub len : ℕ
  pub type : ℕ

-- The globals of namespace GdbStub. `sent` lists the byte strings given to send, oldest first.
pub record Gdb : Type 0 where
  pub enabled : Bool
  pub step : Bool
  pub cont : Bool
  pub bp_list : List Breakpoint
  pub wp_list : List Watchpoint
  pub state : RsState
  pub cmd_buf : ℕ → ℕ
  pub buf_index : ℕ
  pub line_sum : ℕ
  pub checksum : ℕ
  pub sent : List (List ℕ)

-- What a KObject is: a Thread, the SmService, a plain IpcService, or an interface of IpcStubs.hpp; and a
-- Kernel::Event, which is none but is passed for one.
pub data KObject : Type 0 where
  thread sm_service ipc_service event : KObject
  interface : String → KObject

-- Display of Service/Dispdrv.hpp. No display has a layer.
pub record Display : Type 0 where
  pub id : ℕ
  pub name : List ℕ
  pub vsync_event : ℕ

-- The globals of Nsemu.cpp, Thread.cpp and Ipc.cpp that stand for the guest's kernel. A pointer to an
-- object is a number; `objects` says what lives behind it, and `next_object` is what `new` gives next.
pub record Kernel : Type 0 where
  pub handle_id : ℕ
  pub handles : ℕ → Option ℕ
  pub services : List ℕ → Option ℕ
  pub is_domainobj : Bool
  pub threads : ℕ → Option ℕ
  pub thread_id : ℕ
  pub objects : ℕ → Option KObject
  pub next_object : ℕ
  pub displays : List Display

pub record Machine : Type 0 where
  pub cpu : Arm
  pub mem : Memory
  pub gdb : Gdb
  pub kernel : Kernel

-- Every register holds a value of its width.
pub record IsArm (a : Arm) : Type 0 where
  pub gpr_lt : (r : ℕ) → a.gpr r < 2 ^ 64
  pub vreg_lt : (v : ℕ) → AreBytes (a.vreg v)
  pub nzcv_lt : a.nzcv < 2 ^ 32
  pub sysr_lt : (o : ℕ) → a.sysr o < 2 ^ 64
