-- ===== src/Services/Ncm.antt =====
-- include/IpcStubs.hpp: the commands of the classes of nn::ncm,
-- from their Dispatch. Every method is a stub.
use nsemu.Common.{[], ◌∷◌}
use nsemu.Ipc.Command.{Table, output, values}

abbrev pub content_manager : Table
content_manager =
    (0, values 0 [])
    ∷ (1, values 0 [])
    ∷ (2, values 0 [])
    ∷ (3, values 0 [])
    ∷ (4, values 0 [])
    ∷ (5, values 0 [])
    ∷ (8, values 0 [])
    ∷ (9, values 0 [])
    ∷ (10, values 0 [])
    ∷ (11, values 0 [])
    ∷ (12, values 0 [])
    ∷ []

abbrev pub content_meta_database : Table
content_meta_database =
    (0, values 0 [])
    ∷ (1, values 0 [])
    ∷ (2, values 0 [])
    ∷ (3, values 0 [])
    ∷ (4, values 0 [])
    ∷ (5, values 0 [])
    ∷ (6, values 0 [])
    ∷ (7, values 0 [])
    ∷ (8, values 0 [])
    ∷ (9, values 0 [])
    ∷ (10, values 0 [])
    ∷ (11, values 0 [])
    ∷ (12, values 0 [])
    ∷ (13, values 0 [])
    ∷ (14, values 0 [])
    ∷ (15, values 0 [])
    ∷ (16, values 0 [])
    ∷ (17, values 0 [])
    ∷ (18, values 0 [])
    ∷ (19, values 0 [])
    ∷ []

abbrev content_storage_2 : Table
content_storage_2 = (22, values 8 []) ∷ (23, values 8 []) ∷ (24, values 0 []) ∷ []

abbrev pub content_storage : Table
content_storage =
    (0, values 16 [])
    ∷ (1, values 0 [])
    ∷ (2, values 0 [])
    ∷ (3, values 0 [])
    ∷ (4, values 0 [])
    ∷ (5, values 0 [])
    ∷ (6, values 0 [])
    ∷ (7, values 0 [])
    ∷ (8, values 0 [])
    ∷ (9, values 0 [])
    ∷ (10, values 0 [])
    ∷ (11, values 4 (output 6 0 ∷ []))
    ∷ (12, values 4 [])
    ∷ (13, values 0 [])
    ∷ (14, values 0 [])
    ∷ (15, values 0 [])
    ∷ (16, values 0 [])
    ∷ (17, values 0 [])
    ∷ (18, values 0 [])
    ∷ (19, values 0 [])
    ∷ (20, values 0 [])
    ∷ (21, values 0 [])
    ∷ content_storage_2
