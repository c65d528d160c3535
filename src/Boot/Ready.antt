-- ===== src/Boot/Ready.antt =====
-- Nsemu.cpp and Cpu.cpp: what the guest finds when it starts.
use nsemu.Common.{ℕ, ◌+◌, ◌≤◌, ◌<◌, ◌≡◌, refl, ◌∙◌, false, some, List, [], ◌∷◌, ok, arith}
use nsemu.Machine.{Machine, Kernel, Memory, sm_service, thread, interface}
use nsemu.Memory.{init_memmap, add_memmap}
use nsemu.Cpu.{x}
use nsemu.Kernel.{
  sm, codes, set_service, no_kernel, new_object, new_handle, get_handle, create_thread,
  init_threads, init_ipc, make_services, first_handle,
}
use nsemu.Kernel.Mapping.{service_mapping}
use nsemu.Kernel.Start.{AllServe, AllServe-grows, init_ipc-AllServe, old_objects, next_grows}
use nsemu.Ipc.Command.{find_name}
use nsemu.Loader.{Lz4, File, load_nso}
use nsemu.Svc.{get_tls}
use native.Mathlib.Nat.{le_refl, le_trans, le-add_right}
use Prim.Native.String.{String}
use nsemu.Boot.{tls_base, tls_size, init_arm, init_displays, init_cpu, boot_up}

-- What a guest can rely on at its start.
pub record IsReady (m : Machine) : Type 0 where
  pub pc : x m.cpu 33 ≡ 0
  pub sp : x m.cpu 32 ≡ 0x3100000
  pub tls : get_tls m ≡ tls_base
  pub main_thread :
      (p : ℕ) × (get_handle (x m.cpu 1) m.kernel ≡ some p) × (m.kernel.objects p ≡ some thread)
  pub services : AllServe m.kernel service_mapping
  pub sessions : m.kernel.objects sm ≡ some sm_service
  pub plain : m.kernel.is_domainobj ≡ false
  pub display : find_name (codes "Default") m.kernel.displays ≡ ok 0

-- The kernel behind InitIPC, as far as the rest of the start needs it.
record IsServing (k : Kernel) : Type 0 where
  all : AllServe k service_mapping
  some_objects : 2 ≤ k.next_object
  sm_there : k.objects sm ≡ some sm_service
  no_domain : k.is_domainobj ≡ false
  no_display : k.displays ≡ []

one-le-two : ◌≤◌ 1 2
one-le-two = omega arith

make_services-keeps :
    (l : List (String × String)) (k : Kernel)
    → ((make_services l k).is_domainobj ≡ k.is_domainobj)
      × ((make_services l k).displays ≡ k.displays)
unfolding make_services new_object
make_services-keeps [] k = (refl, refl)
make_services-keeps ((name, class) ∷ rest) k =
    let k₁ = (new_object (interface class) k).1 in
    make_services-keeps rest (set_service (codes name) (some k.next_object) k₁)

init_ipc-IsServing : IsServing (init_ipc no_kernel)
init_ipc-IsServing =
    let kept = make_services-keeps service_mapping no_kernel in
    record {
      all = init_ipc-AllServe no_kernel;
      some_objects = unfold init_ipc in next_grows service_mapping no_kernel;
      sm_there = unfold init_ipc in old_objects service_mapping no_kernel sm (omega arith);
      no_domain = unfold init_ipc in kept.0;
      no_display = unfold init_ipc in kept.1;
    }

init_cpu-thread :
    (raw : ℕ → ℕ) (m : Machine)
    → (p : ℕ) × (get_handle (x (init_cpu raw m).cpu 1) (init_cpu raw m).kernel ≡ some p)
      × ((init_cpu raw m).kernel.objects p ≡ some thread)
unfolding init_cpu init_arm init_displays init_threads create_thread new_object new_handle
    get_handle
init_cpu-thread raw m = (m.kernel.next_object, ground arith, ground arith)

-- The start makes objects and changes none.
init_cpu-objects :
    (raw : ℕ → ℕ) (m : Machine) (p : ℕ)
    → p < m.kernel.next_object
    → (init_cpu raw m).kernel.objects p ≡ m.kernel.objects p
unfolding init_cpu init_arm init_displays init_threads create_thread new_object new_handle
init_cpu-objects raw m p below = ground arith

init_cpu-IsReady : (raw : ℕ → ℕ) (m : Machine) → IsServing m.kernel → IsReady (init_cpu raw m)
unfolding init_cpu init_arm init_displays init_threads create_thread new_object new_handle
    get_handle find_name
init_cpu-IsReady raw m s =
    let two : 2 ≤ m.kernel.next_object = s.some_objects in
    record {
      pc = refl;
      sp = refl;
      tls = refl;
      main_thread = init_cpu-thread raw m;
      services =
          AllServe-grows service_mapping m.kernel (init_cpu raw m).kernel s.all
            (le_trans (le-add_right m.kernel.next_object 1)
              (le-add_right (m.kernel.next_object + 1) 1))
            refl (init_cpu-objects raw m);
      sessions = init_cpu-objects raw m sm (le_trans one-le-two two) ∙ s.sm_there;
      plain = s.no_domain;
      display = rw s.no_display refl;
    }

-- Once the file is loaded, BootUp makes a machine that is ready: PC, the stack pointer and the thread-local
-- storage are set, X1 holds a handle of the main thread, every service of SERVICE_MAPPING and the
-- SmService are there, sessions are outside a domain, and the display named Default opens as display 0.
-- The storage of the thread is mapped behind what the file needed.
pub boot_up-IsReady :
    (lz4 : Lz4) (file : File) (raw : ℕ → ℕ) (m : Machine) (size : ℕ) (mem : Memory)
    → m.kernel ≡ no_kernel
    → load_nso lz4 file (init_memmap m.mem) ≡ ok (size, mem)
    → (m' : Machine) × (boot_up lz4 file raw m ≡ ok m')
      × IsReady m'
      × (m'.mem ≡ add_memmap raw tls_base tls_size mem)
unfolding boot_up
boot_up-IsReady lz4 file raw m size mem fresh loaded =
    let k : Kernel = record (init_ipc m.kernel) { handle_id = first_handle } in
    let serving = init_ipc-IsServing in
    (
      init_cpu raw (record m { mem = mem; kernel = k }),
      rw loaded refl,
      init_cpu-IsReady raw (record m { mem = mem; kernel = k })
          (rw fresh record {
            all =
                AllServe-grows service_mapping (init_ipc no_kernel)
                  (record (init_ipc no_kernel) { handle_id = first_handle }) serving.all (le_refl _)
                  refl (λ p below. refl);
            some_objects = serving.some_objects;
            sm_there = serving.sm_there;
            no_domain = serving.no_domain;
            no_display = serving.no_display;
          }),
      unfold init_cpu init_arm create_thread new_object new_handle in refl,
    )
