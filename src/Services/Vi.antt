-- ===== src/Services/Vi.antt =====
-- Service/Vi.cpp and include/IpcStubs.hpp: the commands of the classes that the former implements, from
-- their Dispatch; a method without an implementation is a stub.
pub mod Display
use nsemu.Common.{[], ◌∷◌}
use nsemu.Ipc.Command.{
  Table, makes, stub, open_display, get_display_vsync_event, output, moved, values,
}

abbrev application_display_service_2 : Table
application_display_service_2 =
    (2460, values 16 []) ∷ (5202, moved [] get_display_vsync_event) ∷ (5203, moved [] stub) ∷ []

abbrev pub application_display_service : Table
application_display_service =
    (100, moved [] (makes "nns::hosbinder::IHOSBinderDriver"))
    ∷ (101, moved [] (makes "nn::visrv::sf::ISystemDisplayService"))
    ∷ (102, moved [] (makes "nn::visrv::sf::IManagerDisplayService"))
    ∷ (103, moved [] (makes "nns::hosbinder::IHOSBinderDriver"))
    ∷ (1000, values 8 (output 6 0 ∷ []))
    ∷ (1010, record (values 8 []) { method = open_display })
    ∷ (1011, values 8 [])
    ∷ (1020, values 0 [])
    ∷ (1101, values 0 [])
    ∷ (1102, values 16 [])
    ∷ (2020, values 8 (output 6 0 ∷ []))
    ∷ (2021, values 0 [])
    ∷ (2030, values 16 (output 6 0 ∷ []))
    ∷ (2031, values 0 [])
    ∷ (2101, values 0 [])
    ∷ (2450, values 16 (output 70 0 ∷ []))
    ∷ (2451, values 16 (output 70 0 ∷ []))
    ∷ application_display_service_2

abbrev pub manager_root_service : Table
manager_root_service =
    (2, moved [] (makes "nn::visrv::sf::IApplicationDisplayService")) ∷ (3, moved [] stub) ∷ []

abbrev pub system_root_service : Table
system_root_service =
    (1, moved [] (makes "nn::visrv::sf::IApplicationDisplayService")) ∷ (3, moved [] stub) ∷ []
