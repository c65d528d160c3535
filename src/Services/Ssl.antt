-- ===== src/Services/Ssl.antt =====
-- include/IpcStubs.hpp: the commands of the classes of nn::ssl::sf,
-- from their Dispatch. Every method is a stub.
use nsemu.Common.{[], ◌∷◌}
use nsemu.Ipc.Command.{Table, stub, input, output, moved, values}

abbrev ssl_connection_2 : Table
ssl_connection_2 =
    (18, values 4 [])
    ∷ (19, values 0 [])
    ∷ (20, values 0 [])
    ∷ (21, values 4 [])
    ∷ (22, values 0 [])
    ∷ (23, values 1 [])
    ∷ (24, values 8 (output 6 0 ∷ []))
    ∷ []

abbrev pub ssl_connection : Table
ssl_connection =
    (0, values 4 [])
    ∷ (1, values 0 (input 5 0 ∷ []))
    ∷ (2, values 0 [])
    ∷ (3, values 0 [])
    ∷ (4, values 4 [])
    ∷ (5, values 4 (output 6 0 ∷ []))
    ∷ (6, values 4 [])
    ∷ (7, values 4 [])
    ∷ (8, values 0 [])
    ∷ (9, values 8 (output 6 0 ∷ []))
    ∷ (10, values 4 (output 6 0 ∷ []))
    ∷ (11, values 4 (input 5 0 ∷ []))
    ∷ (12, values 4 [])
    ∷ (13, values 4 (output 6 0 ∷ []))
    ∷ (14, values 4 [])
    ∷ (15, values 0 [])
    ∷ (16, values 4 [])
    ∷ (17, values 0 [])
    ∷ ssl_connection_2

abbrev pub ssl_context : Table
ssl_context =
    (0, values 0 [])
    ∷ (1, values 4 [])
    ∷ (2, moved [] stub)
    ∷ (3, values 4 [])
    ∷ (4, values 8 (input 5 0 ∷ []))
    ∷ (5, values 8 (input 5 0 ∷ input 5 1 ∷ []))
    ∷ (6, values 0 [])
    ∷ (7, values 0 [])
    ∷ (8, values 8 [])
    ∷ (9, values 0 (input 5 0 ∷ []))
    ∷ (10, values 8 (input 5 0 ∷ []))
    ∷ (11, values 0 [])
    ∷ []

abbrev pub ssl_service : Table
ssl_service =
    (0, moved [] stub)
    ∷ (1, values 4 [])
    ∷ (2, values 4 (input 5 0 ∷ output 6 0 ∷ []))
    ∷ (3, values 4 (input 5 0 ∷ []))
    ∷ (4, values 0 (input 5 0 ∷ output 6 0 ∷ []))
    ∷ (5, values 0 [])
    ∷ []
