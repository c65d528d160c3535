-- ===== src/Services/Nim.antt =====
-- include/IpcStubs.hpp: the commands of the classes of nn::nim::detail,
-- from their Dispatch. Every method is a stub.
use nsemu.Common.{[], ◌∷◌}
use nsemu.Ipc.Command.{Table, output, values}

abbrev pub async_data : Table
async_data =
    (0, values 0 [])
    ∷ (1, values 0 [])
    ∷ (2, values 8 [])
    ∷ (3, values 0 [])
    ∷ (4, values 0 [])
    ∷ []

abbrev pub async_progress_result : Table
async_progress_result = (0, values 0 []) ∷ (1, values 0 []) ∷ (2, values 16 []) ∷ []

abbrev pub nim_async_result : Table
nim_async_result = (0, values 0 []) ∷ (1, values 0 []) ∷ []

abbrev pub nim_async_value : Table
nim_async_value = (0, values 8 []) ∷ (1, values 0 (output 6 0 ∷ [])) ∷ (2, values 0 []) ∷ []

abbrev network_install_manager_3 : Table
network_install_manager_3 = (44, values 0 []) ∷ (45, values 0 []) ∷ (46, values 0 []) ∷ []

abbrev network_install_manager_2 : Table
network_install_manager_2 =
    (22, values 16 [])
    ∷ (23, values 0 [])
    ∷ (24, values 0 [])
    ∷ (25, values 0 [])
    ∷ (26, values 0 [])
    ∷ (27, values 0 [])
    ∷ (28, values 0 [])
    ∷ (29, values 0 [])
    ∷ (30, values 0 [])
    ∷ (31, values 0 [])
    ∷ (32, values 0 [])
    ∷ (33, values 0 [])
    ∷ (34, values 0 [])
    ∷ (35, values 0 [])
    ∷ (36, values 0 [])
    ∷ (37, values 0 [])
    ∷ (38, values 0 [])
    ∷ (39, values 0 [])
    ∷ (40, values 4 (output 6 0 ∷ []))
    ∷ (41, values 0 [])
    ∷ (42, values 0 [])
    ∷ (43, values 16 [])
    ∷ network_install_manager_3

abbrev pub network_install_manager : Table
network_install_manager =
    (0, values 0 [])
    ∷ (1, values 0 [])
    ∷ (2, values 4 (output 6 0 ∷ []))
    ∷ (3, values 0 [])
    ∷ (4, values 0 [])
    ∷ (5, values 0 [])
    ∷ (6, values 0 [])
    ∷ (7, values 0 [])
    ∷ (8, values 4 (output 6 0 ∷ []))
    ∷ (9, values 0 [])
    ∷ (10, values 0 [])
    ∷ (11, values 0 [])
    ∷ (12, values 0 [])
    ∷ (14, values 0 [])
    ∷ (15, values 0 [])
    ∷ (16, values 0 [])
    ∷ (17, values 0 [])
    ∷ (18, values 0 [])
    ∷ (19, values 0 [])
    ∷ (20, values 0 [])
    ∷ (21, values 0 [])
    ∷ network_install_manager_2

abbrev pub shop_service_manager : Table
shop_service_manager =
    (0, values 0 [])
    ∷ (1, values 0 [])
    ∷ (100, values 0 [])
    ∷ (101, values 0 [])
    ∷ (102, values 0 [])
    ∷ (103, values 32 [])
    ∷ (104, values 0 [])
    ∷ (105, values 0 [])
    ∷ (106, values 0 [])
    ∷ (107, values 1 [])
    ∷ (200, values 0 [])
    ∷ (300, values 0 [])
    ∷ (301, values 0 [])
    ∷ (302, values 0 [])
    ∷ (303, values 0 [])
    ∷ (400, values 0 [])
    ∷ (500, values 0 [])
    ∷ (501, values 0 [])
    ∷ []
