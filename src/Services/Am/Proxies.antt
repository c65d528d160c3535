-- ===== src/Services/Am/Proxies.antt =====
-- include/IpcStubs.hpp: the commands of the classes of the applets' proxies of nn::am::service,
-- from their Dispatch. Every method is a stub.
use nsemu.Common.{[], ◌∷◌}
use nsemu.Ipc.Command.{Table, stub, moved}

abbrev pub library_applet_proxy : Table
library_applet_proxy =
    (0, moved [] stub)
    ∷ (1, moved [] stub)
    ∷ (2, moved [] stub)
    ∷ (3, moved [] stub)
    ∷ (4, moved [] stub)
    ∷ (10, moved [] stub)
    ∷ (11, moved [] stub)
    ∷ (20, moved [] stub)
    ∷ (1000, moved [] stub)
    ∷ []

abbrev pub overlay_applet_proxy : Table
overlay_applet_proxy =
    (0, moved [] stub)
    ∷ (1, moved [] stub)
    ∷ (2, moved [] stub)
    ∷ (3, moved [] stub)
    ∷ (4, moved [] stub)
    ∷ (10, moved [] stub)
    ∷ (11, moved [] stub)
    ∷ (20, moved [] stub)
    ∷ (1000, moved [] stub)
    ∷ []

abbrev pub system_applet_proxy : Table
system_applet_proxy =
    (0, moved [] stub)
    ∷ (1, moved [] stub)
    ∷ (2, moved [] stub)
    ∷ (3, moved [] stub)
    ∷ (4, moved [] stub)
    ∷ (10, moved [] stub)
    ∷ (11, moved [] stub)
    ∷ (20, moved [] stub)
    ∷ (21, moved [] stub)
    ∷ (22, moved [] stub)
    ∷ (1000, moved [] stub)
    ∷ []
