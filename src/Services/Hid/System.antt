-- ===== src/Services/Hid/System.antt =====
-- include/IpcStubs.hpp: the commands of the classes of nn::hid beside the server,
-- from their Dispatch. Every method is a stub.
use nsemu.Common.{[], ◌∷◌}
use nsemu.Ipc.Command.{Table, stub, input, output, copied, values}

abbrev pub active_vibration_device_list : Table
active_vibration_device_list = (0, values 0 []) ∷ []

abbrev hid_debug_server_2 : Table
hid_debug_server_2 =
    (122, values 0 [])
    ∷ (123, values 0 [])
    ∷ (130, values 0 [])
    ∷ (131, values 0 [])
    ∷ (132, values 0 [])
    ∷ (133, values 0 [])
    ∷ (134, values 8 [])
    ∷ (135, values 0 [])
    ∷ (136, values 8 [])
    ∷ (140, values 0 [])
    ∷ (201, values 0 [])
    ∷ (202, values 0 [])
    ∷ (203, values 0 [])
    ∷ (204, values 16 [])
    ∷ (205, values 16 [])
    ∷ (206, values 16 [])
    ∷ (207, values 0 [])
    ∷ (208, values 0 [])
    ∷ (209, values 16 [])
    ∷ (221, values 0 [])
    ∷ []

abbrev pub hid_debug_server : Table
hid_debug_server =
    (0, values 0 [])
    ∷ (1, values 0 [])
    ∷ (2, values 0 [])
    ∷ (10, values 0 [])
    ∷ (11, values 0 (input 5 0 ∷ []))
    ∷ (12, values 0 [])
    ∷ (20, values 0 [])
    ∷ (21, values 0 [])
    ∷ (22, values 0 [])
    ∷ (30, values 0 [])
    ∷ (31, values 0 [])
    ∷ (32, values 0 [])
    ∷ (50, values 0 [])
    ∷ (51, values 0 [])
    ∷ (52, values 0 [])
    ∷ (60, values 0 [])
    ∷ (91, values 0 [])
    ∷ (110, values 0 [])
    ∷ (111, values 0 [])
    ∷ (112, values 0 [])
    ∷ (120, values 0 [])
    ∷ (121, values 0 [])
    ∷ hid_debug_server_2

abbrev hid_system_server_4 : Table
hid_system_server_4 =
    (850, values 1 [])
    ∷ (851, values 0 [])
    ∷ (852, values 1 [])
    ∷ (900, values 0 [])
    ∷ (901, values 0 [])
    ∷ (1000, values 0 [])
    ∷ (1001, values 16 [])
    ∷ (1002, values 16 [])
    ∷ (1003, values 1 [])
    ∷ (1004, values 8 [])
    ∷ (1005, values 8 [])
    ∷ (1006, values 0 [])
    ∷ (1007, values 4 [])
    ∷ []

abbrev hid_system_server_3 : Table
hid_system_server_3 =
    (544, copied stub)
    ∷ (545, values 0 [])
    ∷ (546, copied stub)
    ∷ (547, values 8 [])
    ∷ (700, values 0 [])
    ∷ (702, copied stub)
    ∷ (703, values 8 (output 0xa 0 ∷ []))
    ∷ (751, copied stub)
    ∷ (800, values 8 (output 0xa 0 ∷ []))
    ∷ (801, values 1 [])
    ∷ (802, values 0 [])
    ∷ (803, values 0 [])
    ∷ (804, values 0 [])
    ∷ (805, values 10 [])
    ∷ (806, values 0 [])
    ∷ (821, values 0 [])
    ∷ (822, values 0 [])
    ∷ (823, values 0 [])
    ∷ (824, values 0 [])
    ∷ hid_system_server_4

abbrev hid_system_server_2 : Table
hid_system_server_2 =
    (311, values 0 [])
    ∷ (321, values 8 (output 0xa 0 ∷ []))
    ∷ (322, values 8 [])
    ∷ (323, values 8 [])
    ∷ (500, values 0 [])
    ∷ (501, values 0 [])
    ∷ (502, values 0 [])
    ∷ (503, values 0 [])
    ∷ (504, values 0 [])
    ∷ (505, values 0 [])
    ∷ (510, values 0 [])
    ∷ (511, values 4 [])
    ∷ (512, values 0 [])
    ∷ (513, values 0 [])
    ∷ (520, values 0 [])
    ∷ (521, values 0 [])
    ∷ (540, copied stub)
    ∷ (541, values 8 (output 0xa 0 ∷ []))
    ∷ (542, copied stub)
    ∷ (543, values 8 (output 0xa 0 ∷ []))
    ∷ hid_system_server_3

abbrev pub hid_system_server : Table
hid_system_server =
    (31, values 0 [])
    ∷ (101, copied stub)
    ∷ (111, values 0 [])
    ∷ (121, copied stub)
    ∷ (131, values 0 [])
    ∷ (141, copied stub)
    ∷ (151, values 0 [])
    ∷ (210, copied stub)
    ∷ (211, values 8 (output 0xa 0 ∷ []))
    ∷ (212, copied stub)
    ∷ (213, values 0 [])
    ∷ (230, copied stub)
    ∷ (231, values 0 [])
    ∷ (301, values 0 [])
    ∷ (303, values 0 [])
    ∷ (304, values 0 [])
    ∷ (305, values 0 [])
    ∷ (306, values 4 [])
    ∷ (307, values 16 [])
    ∷ hid_system_server_2

abbrev pub hid_temporary_server : Table
hid_temporary_server = (0, values 24 []) ∷ []
