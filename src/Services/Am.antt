-- ===== src/Services/Am.antt =====
-- Service/Am.cpp and include/IpcStubs.hpp: the commands of the classes that the former implements, from
-- their Dispatch; a method without an implementation is a stub.
pub mod Proxies
pub mod Applets
pub mod Functions
use nsemu.Common.{[], ◌∷◌}
use nsemu.Ipc.Command.{Table, makes, sets, stub, moved, copied, values}

abbrev pub application_proxy : Table
application_proxy =
    (0, moved [] (makes "nn::am::service::ICommonStateGetter"))
    ∷ (1, moved [] (makes "nn::am::service::ISelfController"))
    ∷ (2, moved [] (makes "nn::am::service::IWindowController"))
    ∷ (3, moved [] (makes "nn::am::service::IAudioController"))
    ∷ (4, moved [] (makes "nn::am::service::IDisplayController"))
    ∷ (10, moved [] (makes "nn::am::service::IProcessWindingController"))
    ∷ (11, moved [] (makes "nn::am::service::ILibraryAppletCreator"))
    ∷ (20, moved [] (makes "nn::am::service::IApplicationFunctions"))
    ∷ (1000, moved [] (makes "nn::am::service::IDebugFunctions"))
    ∷ []

abbrev pub application_proxy_service : Table
application_proxy_service = (0, moved [] (makes "nn::am::service::IApplicationProxy")) ∷ []

abbrev common_state_getter_2 : Table
common_state_getter_2 = (60, values 8 []) ∷ (61, copied stub) ∷ []

abbrev pub common_state_getter : Table
common_state_getter =
    (0, copied stub)
    ∷ (1, record (values 4 []) { method = sets 4 15 })
    ∷ (2, values 8 [])
    ∷ (3, values 0 [])
    ∷ (4, values 0 [])
    ∷ (5, values 1 [])
    ∷ (6, values 4 [])
    ∷ (7, values 1 [])
    ∷ (8, values 1 [])
    ∷ (9, record (values 1 []) { method = sets 1 1 })
    ∷ (10, values 0 [])
    ∷ (11, values 0 [])
    ∷ (12, values 0 [])
    ∷ (13, copied stub)
    ∷ (20, values 0 [])
    ∷ (30, moved [] stub)
    ∷ (31, moved [] stub)
    ∷ (40, values 16 [])
    ∷ (50, values 1 [])
    ∷ (51, values 0 [])
    ∷ (55, values 1 [])
    ∷ common_state_getter_2

abbrev self_controller_2 : Table
self_controller_2 =
    (64, values 0 []) ∷ (65, values 0 []) ∷ (66, values 4 []) ∷ (67, values 1 []) ∷ []

abbrev pub self_controller : Table
self_controller =
    (0, values 0 [])
    ∷ (1, values 0 [])
    ∷ (2, values 0 [])
    ∷ (3, values 0 [])
    ∷ (4, values 0 [])
    ∷ (9, copied stub)
    ∷ (10, values 0 [])
    ∷ (11, values 0 [])
    ∷ (12, values 0 [])
    ∷ (13, values 0 [])
    ∷ (14, values 0 [])
    ∷ (15, values 0 [])
    ∷ (16, values 0 [])
    ∷ (17, values 0 [])
    ∷ (18, values 0 [])
    ∷ (19, values 0 [])
    ∷ (40, values 8 [])
    ∷ (50, values 0 [])
    ∷ (51, values 0 [])
    ∷ (60, values 0 [])
    ∷ (61, values 0 [])
    ∷ (62, values 0 [])
    ∷ (63, values 4 [])
    ∷ self_controller_2
