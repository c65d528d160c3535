-- ===== src/Services/Ns/Applications.antt =====
-- include/IpcStubs.hpp: the commands of the classes of nn::ns::detail that manage applications,
-- from their Dispatch. Every method is a stub.
use nsemu.Common.{[], ◌∷◌}
use nsemu.Ipc.Command.{Table, stub, input, output, moved, copied, values}

abbrev application_manager_interface_7 : Table
application_manager_interface_7 =
    (1504, values 0 [])
    ∷ (1505, values 0 [])
    ∷ (1600, values 32 [])
    ∷ (1601, values 0 [])
    ∷ (1700, values 0 [])
    ∷ (1701, values 0 [])
    ∷ (1702, values 1 [])
    ∷ (1800, values 1 [])
    ∷ (1801, values 8 [])
    ∷ (1802, values 4 (output 6 0 ∷ []))
    ∷ (1803, values 4 (output 6 0 ∷ []))
    ∷ (1900, values 1 [])
    ∷ []

abbrev application_manager_interface_6 : Table
application_manager_interface_6 =
    (900, values 0 [])
    ∷ (901, values 0 [])
    ∷ (902, values 0 [])
    ∷ (903, values 0 [])
    ∷ (904, values 0 [])
    ∷ (905, values 0 [])
    ∷ (906, values 0 [])
    ∷ (907, values 0 [])
    ∷ (908, values 0 [])
    ∷ (909, values 0 [])
    ∷ (1000, values 0 [])
    ∷ (1001, values 0 [])
    ∷ (1002, values 0 [])
    ∷ (1200, values 1 [])
    ∷ (1300, values 1 [])
    ∷ (1301, values 0 [])
    ∷ (1302, values 0 [])
    ∷ (1303, values 0 [])
    ∷ (1304, values 0 [])
    ∷ (1400, values 0 [])
    ∷ (1500, values 0 [])
    ∷ (1501, values 1 [])
    ∷ (1502, values 0 [])
    ∷ application_manager_interface_7

abbrev application_manager_interface_5 : Table
application_manager_interface_5 =
    (505, copied stub)
    ∷ (506, values 1 [])
    ∷ (507, values 0 [])
    ∷ (508, values 0 [])
    ∷ (600, values 4 [])
    ∷ (601, values 0 [])
    ∷ (602, values 0 [])
    ∷ (603, values 0 [])
    ∷ (604, values 0 [])
    ∷ (605, values 0 [])
    ∷ (606, values 0 [])
    ∷ (700, values 0 (input 5 0 ∷ []))
    ∷ (701, values 0 [])
    ∷ (702, values 0 [])
    ∷ (703, values 0 [])
    ∷ (704, values 4 (output 6 0 ∷ []))
    ∷ (705, values 0 [])
    ∷ (800, values 0 [])
    ∷ (801, values 4 (output 6 0 ∷ []))
    ∷ (802, values 0 [])
    ∷ application_manager_interface_6

abbrev application_manager_interface_4 : Table
application_manager_interface_4 =
    (200, values 0 [])
    ∷ (201, values 0 [])
    ∷ (210, values 0 [])
    ∷ (220, values 0 [])
    ∷ (300, copied stub)
    ∷ (301, values 4 (output 6 0 ∷ []))
    ∷ (302, values 8 [])
    ∷ (303, values 0 [])
    ∷ (304, values 8 [])
    ∷ (305, values 0 [])
    ∷ (306, values 8 [])
    ∷ (307, values 0 [])
    ∷ (400, values 0 [])
    ∷ (401, values 0 [])
    ∷ (402, values 0 [])
    ∷ (403, values 4 [])
    ∷ (404, values 0 [])
    ∷ (405, values 4 (output 6 0 ∷ []))
    ∷ (502, values 0 [])
    ∷ (503, values 0 [])
    ∷ (504, values 0 [])
    ∷ application_manager_interface_5

abbrev application_manager_interface_3 : Table
application_manager_interface_3 =
    (56, values 0 [])
    ∷ (57, values 0 [])
    ∷ (58, values 0 [])
    ∷ (59, values 0 [])
    ∷ (60, values 0 [])
    ∷ (61, values 16 [])
    ∷ (62, moved [] stub)
    ∷ (63, values 1 [])
    ∷ (64, values 0 [])
    ∷ (65, moved [] stub)
    ∷ (66, values 16 [])
    ∷ (67, values 0 [])
    ∷ (68, values 0 [])
    ∷ (69, values 0 [])
    ∷ (70, values 0 [])
    ∷ (71, values 0 [])
    ∷ (80, values 0 [])
    ∷ (81, values 0 [])
    ∷ (82, values 0 [])
    ∷ (100, values 0 [])
    ∷ (101, values 0 [])
    ∷ (102, values 0 [])
    ∷ application_manager_interface_4

abbrev application_manager_interface_2 : Table
application_manager_interface_2 =
    (35, values 0 (input 5 0 ∷ []))
    ∷ (36, values 0 [])
    ∷ (37, values 4 (output 6 0 ∷ []))
    ∷ (38, values 0 [])
    ∷ (39, values 0 [])
    ∷ (40, values 0 [])
    ∷ (41, values 0 [])
    ∷ (42, values 0 [])
    ∷ (43, values 0 [])
    ∷ (44, copied stub)
    ∷ (45, copied stub)
    ∷ (46, values 16 [])
    ∷ (47, values 0 [])
    ∷ (48, values 0 [])
    ∷ (49, copied stub)
    ∷ (52, copied stub)
    ∷ (53, values 0 [])
    ∷ (54, values 0 [])
    ∷ (55, values 1 [])
    ∷ application_manager_interface_3

abbrev pub application_manager_interface : Table
application_manager_interface =
    (0, values 0 [])
    ∷ (1, values 8 [])
    ∷ (2, copied stub)
    ∷ (3, values 0 [])
    ∷ (4, values 0 [])
    ∷ (5, values 0 [])
    ∷ (6, values 1 [])
    ∷ (7, values 0 [])
    ∷ (8, values 0 [])
    ∷ (9, values 0 [])
    ∷ (11, values 0 [])
    ∷ (16, values 0 [])
    ∷ (17, values 0 [])
    ∷ (19, values 8 [])
    ∷ (21, values 0 [])
    ∷ (22, values 0 [])
    ∷ (23, values 0 [])
    ∷ (26, values 0 [])
    ∷ (27, values 0 [])
    ∷ (30, values 0 [])
    ∷ (31, values 0 [])
    ∷ (32, values 0 [])
    ∷ (33, values 0 [])
    ∷ application_manager_interface_2
