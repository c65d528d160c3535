-- ===== src/Services/Settings.antt =====
-- include/IpcStubs.hpp: the commands of the classes of nn::settings,
-- from their Dispatch. Every method is a stub.
use nsemu.Common.{[], ◌∷◌}
use nsemu.Ipc.Command.{Table, stub, input, output, moved, copied, values}

abbrev factory_settings_server_2 : Table
factory_settings_server_2 =
    (18, values 0 (output 0x16 0 ∷ []))
    ∷ (19, values 0 (output 0x16 0 ∷ []))
    ∷ (20, values 84 [])
    ∷ (21, values 0 (output 0x16 0 ∷ []))
    ∷ (22, values 90 [])
    ∷ []

abbrev pub factory_settings_server : Table
factory_settings_server =
    (0, values 10 [])
    ∷ (1, values 30 [])
    ∷ (2, values 10 [])
    ∷ (3, values 10 [])
    ∷ (4, values 10 [])
    ∷ (5, values 10 [])
    ∷ (6, values 10 [])
    ∷ (7, values 4 [])
    ∷ (8, values 4 (output 0xa 0 ∷ []))
    ∷ (9, values 24 [])
    ∷ (10, values 0 [])
    ∷ (11, values 0 [])
    ∷ (12, values 24 [])
    ∷ (14, values 0 (output 0x16 0 ∷ []))
    ∷ (15, values 0 (output 0x16 0 ∷ []))
    ∷ (16, values 0 (output 0x16 0 ∷ []))
    ∷ (17, values 0 (output 0x16 0 ∷ []))
    ∷ factory_settings_server_2

abbrev pub firmware_debug_settings_server : Table
firmware_debug_settings_server =
    (2, values 0 (input 0x19 0 ∷ input 0x19 1 ∷ input 5 0 ∷ []))
    ∷ (3, values 0 (input 0x19 0 ∷ input 0x19 1 ∷ []))
    ∷ (4, moved (input 0x19 0 ∷ []) stub)
    ∷ []

abbrev pub settings_item_key_iterator : Table
settings_item_key_iterator =
    (0, values 0 []) ∷ (1, values 8 []) ∷ (2, values 8 (output 6 0 ∷ [])) ∷ []

abbrev pub settings_server : Table
settings_server =
    (0, values 8 []) ∷ (1, values 4 (output 0xa 0 ∷ [])) ∷ (3, values 4 []) ∷ (4, values 4 []) ∷ []

abbrev system_settings_server_6 : Table
system_settings_server_6 =
    (100, values 0 [])
    ∷ (101, values 1 [])
    ∷ (102, values 0 [])
    ∷ (103, values 1 [])
    ∷ (104, values 0 [])
    ∷ (105, values 0 [])
    ∷ (106, values 8 [])
    ∷ (107, values 44 [])
    ∷ (108, values 0 [])
    ∷ (109, values 4 [])
    ∷ (110, values 0 [])
    ∷ (111, values 1 [])
    ∷ (112, values 0 [])
    ∷ (113, values 1 [])
    ∷ (114, values 0 [])
    ∷ (115, values 1 [])
    ∷ (116, values 0 [])
    ∷ (117, values 1 [])
    ∷ (118, values 0 [])
    ∷ (119, values 3 [])
    ∷ (120, values 4 [])
    ∷ (121, values 0 [])
    ∷ []

abbrev system_settings_server_5 : Table
system_settings_server_5 =
    (80, values 4 [])
    ∷ (81, values 0 [])
    ∷ (82, copied stub)
    ∷ (83, values 16 [])
    ∷ (84, values 24 [])
    ∷ (85, values 0 [])
    ∷ (86, values 24 [])
    ∷ (87, values 0 [])
    ∷ (88, values 1 [])
    ∷ (89, values 0 [])
    ∷ (90, values 16 [])
    ∷ (91, values 0 [])
    ∷ (92, values 8 [])
    ∷ (93, copied stub)
    ∷ (94, values 16 [])
    ∷ (95, values 1 [])
    ∷ (96, values 0 [])
    ∷ (97, values 4 (output 6 0 ∷ []))
    ∷ (98, values 0 (input 5 0 ∷ []))
    ∷ (99, values 1 [])
    ∷ system_settings_server_6

abbrev system_settings_server_4 : Table
system_settings_server_4 =
    (59, values 0 [])
    ∷ (60, values 1 [])
    ∷ (61, values 0 [])
    ∷ (62, values 1 [])
    ∷ (63, values 4 [])
    ∷ (64, values 0 [])
    ∷ (65, values 1 [])
    ∷ (66, values 0 [])
    ∷ (67, values 24 [])
    ∷ (68, values 24 [])
    ∷ (69, values 1 [])
    ∷ (70, values 0 [])
    ∷ (71, values 12 [])
    ∷ (72, values 0 [])
    ∷ (73, values 1 [])
    ∷ (74, values 0 [])
    ∷ (75, values 32 [])
    ∷ (76, values 0 [])
    ∷ (77, values 0 (output 0x16 0 ∷ []))
    ∷ (78, values 0 (input 0x15 0 ∷ []))
    ∷ (79, values 4 [])
    ∷ system_settings_server_5

abbrev system_settings_server_3 : Table
system_settings_server_3 =
    (39, values 32 [])
    ∷ (40, values 0 [])
    ∷ (41, values 0 (output 0x1a 0 ∷ []))
    ∷ (42, values 0 (input 0x19 0 ∷ []))
    ∷ (43, values 4 [])
    ∷ (44, values 0 [])
    ∷ (45, values 1 [])
    ∷ (46, values 0 [])
    ∷ (47, values 1 [])
    ∷ (48, values 0 [])
    ∷ (49, values 8 [])
    ∷ (50, values 0 [])
    ∷ (51, values 8 [])
    ∷ (52, values 8 [])
    ∷ (53, values 36 [])
    ∷ (54, values 0 [])
    ∷ (55, values 8 [])
    ∷ (56, values 8 (output 6 0 ∷ []))
    ∷ (57, values 0 [])
    ∷ (58, values 32 [])
    ∷ system_settings_server_4

abbrev system_settings_server_2 : Table
system_settings_server_2 =
    (20, values 0 [])
    ∷ (21, values 4 (output 6 0 ∷ []))
    ∷ (22, values 0 (input 5 0 ∷ []))
    ∷ (23, values 4 [])
    ∷ (24, values 0 [])
    ∷ (25, values 1 [])
    ∷ (26, values 0 [])
    ∷ (27, values 1 [])
    ∷ (28, values 0 [])
    ∷ (29, values 24 [])
    ∷ (30, values 0 [])
    ∷ (31, values 4 (output 6 0 ∷ []))
    ∷ (32, values 0 (input 5 0 ∷ []))
    ∷ (35, values 4 [])
    ∷ (36, values 0 [])
    ∷ (37, values 8 (input 0x19 0 ∷ input 0x19 1 ∷ []))
    ∷ (38, values 8 (input 0x19 0 ∷ input 0x19 1 ∷ output 6 0 ∷ []))
    ∷ system_settings_server_3

abbrev pub system_settings_server : Table
system_settings_server =
    (0, values 0 [])
    ∷ (1, values 0 (input 5 0 ∷ []))
    ∷ (2, values 4 (output 6 0 ∷ []))
    ∷ (3, values 0 (output 0x1a 0 ∷ []))
    ∷ (4, values 0 (output 0x1a 0 ∷ []))
    ∷ (7, values 1 [])
    ∷ (8, values 0 [])
    ∷ (9, values 40 [])
    ∷ (10, values 0 [])
    ∷ (11, values 0 (input 5 0 ∷ []))
    ∷ (12, values 4 (output 6 0 ∷ []))
    ∷ (13, values 16 [])
    ∷ (14, values 0 [])
    ∷ (15, values 32 [])
    ∷ (16, values 0 [])
    ∷ (17, values 4 [])
    ∷ (18, values 0 [])
    ∷ (19, values 8 [])
    ∷ system_settings_server_2
