-- ===== src/Services/Am/Applets.antt =====
-- include/IpcStubs.hpp: the commands of the classes of the applets of nn::am::service,
-- from their Dispatch. Every method is a stub.
use nsemu.Common.{[], ◌∷◌}
use nsemu.Ipc.Command.{Table, stub, input, output, moved, copied, values}

abbrev pub all_system_applet_proxies_service : Table
all_system_applet_proxies_service =
    (100, moved [] stub)
    ∷ (200, moved [] stub)
    ∷ (201, moved (input 0x15 0 ∷ []) stub)
    ∷ (300, moved [] stub)
    ∷ (350, moved [] stub)
    ∷ (400, moved [] stub)
    ∷ []

abbrev pub applet_accessor : Table
applet_accessor =
    (0, copied stub)
    ∷ (1, values 1 [])
    ∷ (10, values 0 [])
    ∷ (20, values 0 [])
    ∷ (25, values 0 [])
    ∷ (30, values 0 [])
    ∷ []

abbrev pub library_applet_accessor : Table
library_applet_accessor =
    (0, copied stub)
    ∷ (1, values 1 [])
    ∷ (10, values 0 [])
    ∷ (20, values 0 [])
    ∷ (25, values 0 [])
    ∷ (30, values 0 [])
    ∷ (50, values 0 [])
    ∷ (100, values 0 [])
    ∷ (101, moved [] stub)
    ∷ (102, values 0 [])
    ∷ (103, values 0 [])
    ∷ (104, moved [] stub)
    ∷ (105, copied stub)
    ∷ (106, copied stub)
    ∷ (110, values 1 [])
    ∷ (120, values 8 [])
    ∷ (150, values 0 [])
    ∷ (160, values 8 [])
    ∷ []

abbrev pub library_applet_creator : Table
library_applet_creator =
    (0, moved [] stub)
    ∷ (1, values 0 [])
    ∷ (2, values 1 [])
    ∷ (10, moved [] stub)
    ∷ (11, moved [] stub)
    ∷ (12, moved [] stub)
    ∷ []

abbrev library_applet_self_accessor_2 : Table
library_applet_self_accessor_2 = (40, values 8 []) ∷ (50, values 0 []) ∷ []

abbrev pub library_applet_self_accessor : Table
library_applet_self_accessor =
    (0, moved [] stub)
    ∷ (1, values 0 [])
    ∷ (2, moved [] stub)
    ∷ (3, values 0 [])
    ∷ (5, copied stub)
    ∷ (6, copied stub)
    ∷ (10, values 0 [])
    ∷ (11, values 8 [])
    ∷ (12, values 16 [])
    ∷ (13, values 1 [])
    ∷ (14, values 16 [])
    ∷ (15, values 0 (output 0x16 0 ∷ []))
    ∷ (16, values 1 [])
    ∷ (17, values 4 (output 6 0 ∷ []))
    ∷ (20, moved [] stub)
    ∷ (25, copied stub)
    ∷ (30, values 0 [])
    ∷ (31, values 0 [])
    ∷ library_applet_self_accessor_2
