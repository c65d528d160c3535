-- ===== src/Kernel.antt =====
-- include/Nsemu.hpp, Nsemu.cpp, Thread.cpp and Ipc.cpp: the objects of the guest's kernel, their handles,
-- and the services by name. An unordered_map is a function.
pub mod Mapping
pub mod Start
use nsemu.Common.{
  ℕ, zero, suc, ◌+◌, ◌^◌, Bool, true, false, ◌&&◌, u32, u64, ◌==◌, if◌then◌else◌, Option, none,
  some, List, [], ◌∷◌, Outcome, ok, abort, fault,
}
use nsemu.Common.Lists.{update}
use nsemu.Machine.{KObject, thread, sm_service, ipc_service, interface, Kernel}
use nsemu.Kernel.Mapping.{service_mapping}
use Prim.Native.Char.{code}
use Prim.Native.String.{String}

-- The bytes of an ASCII text.
abbrev pub codes : String → List ℕ
codes String.[] = []
codes (String.◌∷◌ c s) = code c ∷ codes s

abbrev pub name_eq : List ℕ → List ℕ → Bool
name_eq [] [] = true
name_eq (a ∷ xs) (b ∷ ys) = a == b && name_eq xs ys
name_eq _ _ = false

-- services[name] = ptr, and erase.
abbrev pub set_service : List ℕ → Option ℕ → Kernel → Kernel
set_service name ptr k = record k {
  services = λ other. if name_eq other name then ptr else k.services other;
}

-- `new`: the object, and where it is.
unfoldable pub new_object : KObject → Kernel → ℕ × Kernel
new_object obj k = (
  k.next_object,
  record k { objects = update k.objects k.next_object (some obj); next_object = k.next_object + 1 },
)

-- NewHandle. The counter is a uint32_t.
unfoldable pub new_handle : ℕ → Kernel → ℕ × Kernel
new_handle ptr k = (
  k.handle_id,
  record k { handles = update k.handles k.handle_id (some ptr); handle_id = u32 (k.handle_id + 1) },
)

-- GetHandle; `none` is the null pointer. What lies behind the pointer is not looked at.
unfoldable pub get_handle : ℕ → Kernel → Option ℕ
get_handle handle k = k.handles handle

-- ThreadManager::Init and Create, which returns the handle of the thread. The counter is an unsigned
-- long, a key of the table a uint32_t.
unfoldable pub init_threads : Kernel → Kernel
init_threads k = record k { thread_id = 0 }

unfoldable pub create_thread : Kernel → ℕ × Kernel
unfolding new_object new_handle
create_thread k =
    let (ptr, k₁) = new_object thread k in
    new_handle ptr (record k₁ {
      threads = update k₁.threads (u32 k₁.thread_id) (some ptr);
      thread_id = u64 (k₁.thread_id + 1);
    })

-- The static SmService, which stands at address 0, and the array hid_shared_mem, at address 1.
abbrev pub sm : ℕ
sm = 0

abbrev pub hid_shared_mem : ℕ
hid_shared_mem = 1

-- The loop of SERVICE over the mapping.
unfoldable pub make_services : List (String × String) → Kernel → Kernel
unfolding new_object
make_services [] k = k
make_services ((name, class) ∷ rest) k =
    let (ptr, k₁) = new_object (interface class) k in
    make_services rest (set_service (codes name) (some ptr) k₁)

-- InitIPC, and the handles from which BootUp lets the guest's start.
unfoldable pub init_ipc : Kernel → Kernel
unfolding make_services
init_ipc k = make_services service_mapping k

abbrev pub first_handle : ℕ
first_handle = 0xde00

-- The kernel before InitIPC.
abbrev pub no_kernel : Kernel
no_kernel = record {
  handle_id = 0;
  handles = λ h. none;
  services = λ name. none;
  is_domainobj = false;
  threads = λ t. none;
  thread_id = 0;
  objects = λ p. if p == sm then some sm_service else none;
  next_object = 2;
  displays = [];
}

-- IPC::ConnectToPort.
unfoldable pub connect_to_port : List ℕ → Kernel → Outcome (ℕ × Kernel)
unfolding new_handle
connect_to_port name k = if name_eq name (codes "sm:") then ok (new_handle sm k) else abort
