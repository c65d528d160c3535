-- ===== src/Services/Vi/Display.antt =====
-- include/IpcStubs.hpp: the commands of the classes of nn::visrv::sf beside the application's display service,
-- from their Dispatch. Every method is a stub.
use nsemu.Common.{[], ◌∷◌}
use nsemu.Ipc.Command.{Table, stub, output, moved, copied, values}

abbrev pub application_root_service : Table
application_root_service = (0, moved [] stub) ∷ []

abbrev pub manager_display_service : Table
manager_display_service =
    (1102, values 16 [])
    ∷ (2010, values 8 [])
    ∷ (2011, values 0 [])
    ∷ (2050, values 8 [])
    ∷ (2051, values 0 [])
    ∷ (2052, values 8 [])
    ∷ (2053, values 0 [])
    ∷ (2054, values 8 [])
    ∷ (2055, values 0 [])
    ∷ (2300, copied stub)
    ∷ (2301, values 0 [])
    ∷ (2302, copied stub)
    ∷ (2402, values 4 [])
    ∷ (4201, values 0 [])
    ∷ (4203, values 0 [])
    ∷ (4205, values 0 [])
    ∷ (6000, values 0 [])
    ∷ (6001, values 0 [])
    ∷ (6002, values 0 [])
    ∷ (7000, values 0 [])
    ∷ (8000, values 0 [])
    ∷ (8100, values 0 [])
    ∷ []

abbrev system_display_service_2 : Table
system_display_service_2 =
    (3202, values 8 [])
    ∷ (3203, values 0 [])
    ∷ (3204, values 4 [])
    ∷ (3205, values 0 [])
    ∷ (3206, values 4 [])
    ∷ (3207, values 0 [])
    ∷ (3208, values 4 [])
    ∷ (3209, values 0 [])
    ∷ (3210, values 4 [])
    ∷ (3211, values 0 [])
    ∷ (3214, values 4 [])
    ∷ (3215, values 0 [])
    ∷ (3216, values 4 [])
    ∷ (3217, values 0 [])
    ∷ []

abbrev pub system_display_service : Table
system_display_service =
    (1200, values 8 [])
    ∷ (1202, values 8 [])
    ∷ (1203, values 8 [])
    ∷ (1204, values 0 [])
    ∷ (2201, values 0 [])
    ∷ (2203, values 0 [])
    ∷ (2204, values 8 [])
    ∷ (2205, values 0 [])
    ∷ (2207, values 0 [])
    ∷ (2209, values 0 [])
    ∷ (2312, values 16 (output 6 0 ∷ []))
    ∷ (2400, values 8 (output 6 0 ∷ []))
    ∷ (2401, values 0 [])
    ∷ (2402, values 0 [])
    ∷ (3000, values 8 (output 6 0 ∷ []))
    ∷ (3001, values 8 (output 6 0 ∷ []))
    ∷ (3002, values 8 (output 6 0 ∷ []))
    ∷ (3200, values 16 [])
    ∷ (3201, values 0 [])
    ∷ system_display_service_2
