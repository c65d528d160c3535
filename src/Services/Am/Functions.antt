-- ===== src/Services/Am/Functions.antt =====
-- include/IpcStubs.hpp: the commands of the classes of nn::am::service that stand for functions and windows,
-- from their Dispatch. Every method is a stub.
use nsemu.Common.{[], ◌∷◌}
use nsemu.Ipc.Command.{Table, stub, input, output, moved, copied, values}

abbrev pub application_accessor : Table
application_accessor =
    (0, copied stub)
    ∷ (1, values 1 [])
    ∷ (10, values 0 [])
    ∷ (20, values 0 [])
    ∷ (25, values 0 [])
    ∷ (30, values 0 [])
    ∷ (101, values 0 [])
    ∷ (110, values 0 [])
    ∷ (111, values 1 [])
    ∷ (112, moved [] stub)
    ∷ (120, values 8 [])
    ∷ (121, values 0 [])
    ∷ (122, values 0 (output 6 0 ∷ []))
    ∷ (123, values 0 (output 6 0 ∷ []))
    ∷ []

abbrev pub application_creator : Table
application_creator =
    (0, moved [] stub) ∷ (1, moved [] stub) ∷ (10, moved [] stub) ∷ (100, moved [] stub) ∷ []

abbrev pub application_functions : Table
application_functions =
    (1, moved [] stub)
    ∷ (10, values 0 [])
    ∷ (11, values 0 [])
    ∷ (20, values 8 [])
    ∷ (21, values 8 [])
    ∷ (22, values 0 [])
    ∷ (23, values 16 [])
    ∷ (24, values 2 [])
    ∷ (25, values 8 [])
    ∷ (26, values 16 [])
    ∷ (30, values 0 [])
    ∷ (31, values 0 [])
    ∷ (32, values 0 [])
    ∷ (33, values 0 [])
    ∷ (40, values 1 [])
    ∷ (50, values 16 [])
    ∷ (60, values 0 [])
    ∷ (65, values 1 [])
    ∷ (66, values 0 [])
    ∷ (67, values 0 [])
    ∷ (70, values 0 [])
    ∷ (71, values 0 [])
    ∷ []

abbrev pub audio_controller : Table
audio_controller =
    (0, values 0 [])
    ∷ (1, values 4 [])
    ∷ (2, values 4 [])
    ∷ (3, values 0 [])
    ∷ (4, values 0 [])
    ∷ []

abbrev pub debug_functions : Table
debug_functions = (0, values 0 []) ∷ (1, moved [] stub) ∷ (10, values 0 []) ∷ (20, values 0 []) ∷ []

abbrev display_controller_2 : Table
display_controller_2 =
    (17, record (copied stub) { bytes = 1 })
    ∷ (18, record (copied stub) { bytes = 1 })
    ∷ (20, values 0 [])
    ∷ (21, values 0 [])
    ∷ []

abbrev pub display_controller : Table
display_controller =
    (0, values 0 (output 6 0 ∷ []))
    ∷ (1, values 0 [])
    ∷ (2, values 0 (output 6 0 ∷ []))
    ∷ (3, values 0 (output 6 0 ∷ []))
    ∷ (4, values 0 [])
    ∷ (5, values 1 (output 6 0 ∷ []))
    ∷ (6, values 1 (output 6 0 ∷ []))
    ∷ (7, values 1 (output 6 0 ∷ []))
    ∷ (8, values 0 [])
    ∷ (10, copied stub)
    ∷ (11, values 0 [])
    ∷ (12, copied stub)
    ∷ (13, values 0 [])
    ∷ (14, copied stub)
    ∷ (15, values 0 [])
    ∷ (16, record (copied stub) { bytes = 1 })
    ∷ display_controller_2

abbrev pub global_state_controller : Table
global_state_controller =
    (0, values 0 [])
    ∷ (1, values 0 [])
    ∷ (2, values 0 [])
    ∷ (3, values 0 [])
    ∷ (4, values 0 [])
    ∷ (10, values 0 [])
    ∷ (11, values 0 [])
    ∷ (12, values 0 [])
    ∷ (13, values 0 [])
    ∷ (14, values 1 [])
    ∷ []

abbrev pub home_menu_functions : Table
home_menu_functions =
    (10, values 0 [])
    ∷ (11, values 0 [])
    ∷ (12, values 0 [])
    ∷ (20, moved [] stub)
    ∷ (21, copied stub)
    ∷ (30, moved [] stub)
    ∷ (31, moved [] stub)
    ∷ []

abbrev pub lock_accessor : Table
lock_accessor = (1, record (copied stub) { bytes = 1 }) ∷ (2, values 0 []) ∷ (3, copied stub) ∷ []

abbrev pub overlay_functions : Table
overlay_functions =
    (0, values 0 [])
    ∷ (1, values 0 [])
    ∷ (2, values 8 [])
    ∷ (3, values 0 [])
    ∷ (4, values 0 [])
    ∷ (5, values 0 [])
    ∷ (6, values 0 [])
    ∷ []

abbrev pub process_winding_controller : Table
process_winding_controller =
    (0, values 4 [])
    ∷ (11, moved [] stub)
    ∷ (21, values 0 [])
    ∷ (22, moved [] stub)
    ∷ (23, values 0 [])
    ∷ (30, values 0 [])
    ∷ (40, values 0 [])
    ∷ []

abbrev pub functions_storage : Table
functions_storage = (0, moved [] stub) ∷ (1, moved [] stub) ∷ []

abbrev pub storage_accessor : Table
storage_accessor =
    (0, values 8 []) ∷ (10, values 0 (input 0x21 0 ∷ [])) ∷ (11, values 0 (output 0x22 0 ∷ [])) ∷ []

abbrev pub transfer_storage_accessor : Table
transfer_storage_accessor = (0, values 8 []) ∷ (1, record (copied stub) { bytes = 8 }) ∷ []

abbrev pub window : Table
window = (12345, values 0 []) ∷ []

abbrev pub window_controller : Table
window_controller =
    (0, moved [] stub)
    ∷ (1, values 8 [])
    ∷ (10, values 0 [])
    ∷ (11, values 0 [])
    ∷ (12, values 0 [])
    ∷ []
