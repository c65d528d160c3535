-- ===== src/Services/Nfp.antt =====
-- include/IpcStubs.hpp: the commands of the classes of nn::nfp::detail,
-- from their Dispatch. Every method is a stub.
use nsemu.Common.{[], ◌∷◌}
use nsemu.Ipc.Command.{Table, stub, input, output, moved, copied, values}

abbrev debug_4 : Table
debug_4 =
    (309, values 4 [])
    ∷ (310, values 4 [])
    ∷ (311, values 4 [])
    ∷ (312, values 0 [])
    ∷ (313, values 0 [])
    ∷ (314, copied stub)
    ∷ []

abbrev debug_3 : Table
debug_3 =
    (201, values 0 (input 0x19 0 ∷ []))
    ∷ (202, values 0 [])
    ∷ (203, values 0 [])
    ∷ (204, values 4 (output 6 0 ∷ []))
    ∷ (205, values 0 (input 5 0 ∷ []))
    ∷ (206, values 0 (input 5 0 ∷ []))
    ∷ (300, values 0 (input 5 0 ∷ []))
    ∷ (301, values 0 [])
    ∷ (302, values 4 (output 0xa 0 ∷ []))
    ∷ (303, values 0 [])
    ∷ (304, values 0 [])
    ∷ (305, values 4 (input 5 0 ∷ output 6 0 ∷ []))
    ∷ (306, values 0 (output 0x1a 0 ∷ []))
    ∷ (307, copied stub)
    ∷ (308, copied stub)
    ∷ debug_4

abbrev debug_2 : Table
debug_2 =
    (16, values 0 (output 0x1a 0 ∷ []))
    ∷ (17, copied stub)
    ∷ (18, copied stub)
    ∷ (19, values 4 [])
    ∷ (20, values 4 [])
    ∷ (21, values 4 [])
    ∷ (22, values 4 [])
    ∷ (23, copied stub)
    ∷ (24, values 0 (input 5 0 ∷ []))
    ∷ (100, values 0 [])
    ∷ (101, values 0 (output 0x1a 0 ∷ []))
    ∷ (102, values 0 (output 0x1a 0 ∷ []))
    ∷ (103, values 0 (input 0x19 0 ∷ []))
    ∷ (104, values 0 [])
    ∷ (105, values 0 [])
    ∷ (106, values 1 [])
    ∷ (200, values 0 (output 0x1a 0 ∷ []))
    ∷ debug_3

abbrev pub debug : Table
debug =
    (0, values 0 (input 5 0 ∷ []))
    ∷ (1, values 0 [])
    ∷ (2, values 4 (output 0xa 0 ∷ []))
    ∷ (3, values 0 [])
    ∷ (4, values 0 [])
    ∷ (5, values 0 [])
    ∷ (6, values 0 [])
    ∷ (7, values 0 [])
    ∷ (8, values 4 (output 6 0 ∷ []))
    ∷ (9, values 0 (input 5 0 ∷ []))
    ∷ (10, values 0 [])
    ∷ (11, values 0 [])
    ∷ (12, values 0 (input 5 0 ∷ []))
    ∷ (13, values 0 (output 0x1a 0 ∷ []))
    ∷ (14, values 0 (output 0x1a 0 ∷ []))
    ∷ (15, values 0 (output 0x1a 0 ∷ []))
    ∷ debug_2

abbrev pub debug_manager : Table
debug_manager = (0, moved [] stub) ∷ []

abbrev system_2 : Table
system_2 =
    (21, values 4 [])
    ∷ (23, copied stub)
    ∷ (100, values 0 [])
    ∷ (101, values 0 (output 0x1a 0 ∷ []))
    ∷ (102, values 0 (output 0x1a 0 ∷ []))
    ∷ (103, values 0 (input 0x19 0 ∷ []))
    ∷ (104, values 0 [])
    ∷ (105, values 0 [])
    ∷ (106, values 1 [])
    ∷ []

abbrev pub system : Table
system =
    (0, values 0 (input 5 0 ∷ []))
    ∷ (1, values 0 [])
    ∷ (2, values 4 (output 0xa 0 ∷ []))
    ∷ (3, values 0 [])
    ∷ (4, values 0 [])
    ∷ (5, values 0 [])
    ∷ (6, values 0 [])
    ∷ (10, values 0 [])
    ∷ (11, values 0 [])
    ∷ (13, values 0 (output 0x1a 0 ∷ []))
    ∷ (14, values 0 (output 0x1a 0 ∷ []))
    ∷ (15, values 0 (output 0x1a 0 ∷ []))
    ∷ (16, values 0 (output 0x1a 0 ∷ []))
    ∷ (17, copied stub)
    ∷ (18, copied stub)
    ∷ (19, values 4 [])
    ∷ (20, values 4 [])
    ∷ system_2

abbrev pub system_manager : Table
system_manager = (0, moved [] stub) ∷ []

abbrev user_2 : Table
user_2 =
    (16, values 0 (output 0x1a 0 ∷ []))
    ∷ (17, copied stub)
    ∷ (18, copied stub)
    ∷ (19, values 4 [])
    ∷ (20, values 4 [])
    ∷ (21, values 4 [])
    ∷ (22, values 4 [])
    ∷ (23, copied stub)
    ∷ (24, values 0 (input 5 0 ∷ []))
    ∷ []

abbrev pub user : Table
user =
    (0, values 0 (input 5 0 ∷ []))
    ∷ (1, values 0 [])
    ∷ (2, values 4 (output 0xa 0 ∷ []))
    ∷ (3, values 0 [])
    ∷ (4, values 0 [])
    ∷ (5, values 0 [])
    ∷ (6, values 0 [])
    ∷ (7, values 0 [])
    ∷ (8, values 4 (output 6 0 ∷ []))
    ∷ (9, values 0 (input 5 0 ∷ []))
    ∷ (10, values 0 [])
    ∷ (11, values 0 [])
    ∷ (12, values 0 (input 5 0 ∷ []))
    ∷ (13, values 0 (output 0x1a 0 ∷ []))
    ∷ (14, values 0 (output 0x1a 0 ∷ []))
    ∷ (15, values 0 (output 0x1a 0 ∷ []))
    ∷ user_2

abbrev pub user_manager : Table
user_manager = (0, moved [] stub) ∷ []
