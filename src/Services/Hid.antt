-- ===== src/Services/Hid.antt =====
-- Service/Hid.cpp and include/IpcStubs.hpp: the commands of the classes that the former implements, from
-- their Dispatch; a method without an implementation is a stub.
pub mod System
use nsemu.Common.{[], ◌∷◌}
use nsemu.Ipc.Command.{
  Table, makes, stub, get_shared_memory_handle, input, output, moved, copied, values,
}

abbrev pub applet_resource : Table
applet_resource = (0, moved [] get_shared_memory_handle) ∷ []

abbrev hid_server_4 : Table
hid_server_4 =
    (206, values 0 (input 9 0 ∷ input 9 1 ∷ []))
    ∷ (300, values 0 [])
    ∷ (301, values 0 [])
    ∷ (302, values 0 [])
    ∷ (400, values 1 [])
    ∷ (401, values 0 [])
    ∷ (402, values 1 [])
    ∷ (1000, values 0 [])
    ∷ (1001, values 8 [])
    ∷ []

abbrev hid_server_3 : Table
hid_server_3 =
    (106, copied stub)
    ∷ (107, values 0 [])
    ∷ (108, values 8 [])
    ∷ (120, values 0 [])
    ∷ (121, values 8 [])
    ∷ (122, values 0 [])
    ∷ (123, values 0 [])
    ∷ (124, values 0 [])
    ∷ (125, values 0 [])
    ∷ (126, values 0 [])
    ∷ (127, values 0 [])
    ∷ (128, values 0 [])
    ∷ (129, values 8 [])
    ∷ (130, values 0 [])
    ∷ (131, values 1 [])
    ∷ (132, values 0 [])
    ∷ (200, values 8 [])
    ∷ (201, values 0 [])
    ∷ (202, values 16 [])
    ∷ (203, moved [] stub)
    ∷ (204, values 0 [])
    ∷ (205, values 1 [])
    ∷ hid_server_4

abbrev hid_server_2 : Table
hid_server_2 =
    (67, values 0 [])
    ∷ (68, values 1 [])
    ∷ (69, values 0 [])
    ∷ (70, values 0 [])
    ∷ (71, values 8 [])
    ∷ (72, values 0 [])
    ∷ (73, values 0 [])
    ∷ (74, values 8 [])
    ∷ (75, values 0 [])
    ∷ (76, values 0 [])
    ∷ (77, values 4 [])
    ∷ (78, values 0 [])
    ∷ (79, values 0 [])
    ∷ (80, values 4 [])
    ∷ (81, values 0 [])
    ∷ (82, values 1 [])
    ∷ (91, values 0 [])
    ∷ (100, values 0 [])
    ∷ (101, values 4 [])
    ∷ (102, values 0 (input 9 0 ∷ []))
    ∷ (103, values 0 [])
    ∷ (104, values 0 [])
    ∷ hid_server_3

abbrev pub hid_server : Table
hid_server =
    (0, moved [] (makes "nn::hid::IAppletResource"))
    ∷ (1, values 0 [])
    ∷ (11, values 0 [])
    ∷ (21, values 0 [])
    ∷ (31, values 0 [])
    ∷ (40, copied stub)
    ∷ (41, values 0 [])
    ∷ (51, values 0 [])
    ∷ (55, values 8 (output 10 0 ∷ []))
    ∷ (56, values 0 [])
    ∷ (58, copied stub)
    ∷ (59, values 8 (output 10 0 ∷ []))
    ∷ (60, values 0 [])
    ∷ (61, values 0 [])
    ∷ (62, copied stub)
    ∷ (63, values 0 [])
    ∷ (64, values 0 [])
    ∷ (65, copied stub)
    ∷ (66, values 0 [])
    ∷ hid_server_2
