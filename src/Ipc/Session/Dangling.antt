-- ===== src/Ipc/Session/Dangling.antt =====
-- Service/Sm.cpp and Ipc.cpp: what UnregisterService does to the sessions of the service.
use nsemu.Common.{ℕ, ◌≡◌, refl, some, none, List, fault, arith}
use nsemu.Common.Lists.{update}
use nsemu.Machine.{Kernel, Machine}
use nsemu.Kernel.{get_handle, set_service}
use nsemu.Kernel.Start.{name_eq_self}
use nsemu.Ipc.{Message}
use nsemu.Ipc.Command.{Host}
use nsemu.Ipc.Session.{get_service, unregister_service, call_dispatch, handle_message}

-- What UnregisterService leaves, for a name that is registered.
unregister_found :
    (name : List ℕ) (srv : ℕ) (k : Kernel)
    → k.services name ≡ some srv
    → unregister_service name k
      ≡ (0, set_service name none (record k { objects = update k.objects srv none }))
unfolding unregister_service
unregister_found name srv k h = ground arith

-- UnregisterService deletes the service and takes its name away, but not its handles: one that stood
-- for the service still does, and the next request through it uses an object that is gone.
pub unregister_service-dangles :
    (host : Host) (handle srv : ℕ) (name : List ℕ) (m : Machine) (req resp : Message)
    → m.kernel.services name ≡ some srv
    → get_handle handle m.kernel ≡ some srv
    → req.type ≡ 4
    → ((unregister_service name m.kernel).0 ≡ 0)
      × ((get_service name (unregister_service name m.kernel).1).0 ≡ 0x415)
      × (get_handle handle (unregister_service name m.kernel).1 ≡ some srv)
      × (handle_message host srv req resp
            (record m { kernel = (unregister_service name m.kernel).1 })
          ≡ fault)
unfolding get_service get_handle handle_message call_dispatch
unregister_service-dangles host handle srv name m req resp registered stands normal =
    let gone = unregister_found name srv m.kernel registered in
    (
      rw gone refl,
      rw gone (ground (arith, name_eq_self name)),
      rw gone stands,
      rw (gone, normal) (ground arith),
    )
