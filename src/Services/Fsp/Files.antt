-- ===== src/Services/Fsp/Files.antt =====
-- include/IpcStubs.hpp: the commands of the classes of nn::fssrv::sf behind the proxies,
-- from their Dispatch. Every method is a stub.
use nsemu.Common.{[], ◌∷◌}
use nsemu.Ipc.Command.{Table, stub, input, output, moved, copied, values}

abbrev device_operator_3 : Table
device_operator_3 = (301, values 4 []) ∷ []

abbrev device_operator_2 : Table
device_operator_2 =
    (206, values 0 (output 6 0 ∷ []))
    ∷ (207, values 0 (input 5 0 ∷ output 6 0 ∷ []))
    ∷ (208, values 0 (output 6 0 ∷ []))
    ∷ (209, values 0 (output 6 0 ∷ []))
    ∷ (210, values 0 [])
    ∷ (211, values 0 (output 6 0 ∷ []))
    ∷ (212, values 0 (input 5 0 ∷ output 6 0 ∷ []))
    ∷ (213, values 0 (input 5 0 ∷ []))
    ∷ (214, values 0 (output 6 0 ∷ []))
    ∷ (215, values 0 [])
    ∷ (216, values 16 [])
    ∷ (217, values 64 [])
    ∷ (218, values 0 (output 6 0 ∷ []))
    ∷ (300, values 0 [])
    ∷ device_operator_3

abbrev pub device_operator : Table
device_operator =
    (0, values 1 [])
    ∷ (1, values 8 [])
    ∷ (2, values 0 (output 6 0 ∷ []))
    ∷ (3, values 8 [])
    ∷ (4, values 8 [])
    ∷ (5, values 24 (output 6 0 ∷ []))
    ∷ (100, values 0 (output 6 0 ∷ []))
    ∷ (101, values 8 [])
    ∷ (110, values 0 [])
    ∷ (111, values 8 [])
    ∷ (112, values 4 [])
    ∷ (113, values 24 (output 6 0 ∷ []))
    ∷ (114, values 0 (output 6 0 ∷ []))
    ∷ (200, values 1 [])
    ∷ (201, values 0 [])
    ∷ (202, values 4 [])
    ∷ (203, values 16 [])
    ∷ (204, values 0 [])
    ∷ (205, values 1 [])
    ∷ device_operator_2

abbrev pub directory : Table
directory = (0, values 8 (output 6 0 ∷ [])) ∷ (1, values 8 []) ∷ []

abbrev pub event_notifier : Table
event_notifier = (0, copied stub) ∷ []

abbrev pub file : Table
file =
    (0, values 8 (output 0x46 0 ∷ []))
    ∷ (1, values 0 (input 0x45 0 ∷ []))
    ∷ (2, values 0 [])
    ∷ (3, values 0 [])
    ∷ (4, values 8 [])
    ∷ []

abbrev file_system_2 : Table
file_system_2 =
    (12, values 8 (input 0x19 0 ∷ []))
    ∷ (13, values 0 (input 0x19 0 ∷ []))
    ∷ (14, values 32 (input 0x19 0 ∷ []))
    ∷ []

abbrev pub file_system : Table
file_system =
    (0, values 0 (input 0x19 0 ∷ []))
    ∷ (1, values 0 (input 0x19 0 ∷ []))
    ∷ (2, values 0 (input 0x19 0 ∷ []))
    ∷ (3, values 0 (input 0x19 0 ∷ []))
    ∷ (4, values 0 (input 0x19 0 ∷ []))
    ∷ (5, values 0 (input 0x19 0 ∷ input 0x19 1 ∷ []))
    ∷ (6, values 0 (input 0x19 0 ∷ input 0x19 1 ∷ []))
    ∷ (7, values 4 (input 0x19 0 ∷ []))
    ∷ (8, moved (input 0x19 0 ∷ []) stub)
    ∷ (9, moved (input 0x19 0 ∷ []) stub)
    ∷ (10, values 0 [])
    ∷ (11, values 8 (input 0x19 0 ∷ []))
    ∷ file_system_2

abbrev pub program_registry : Table
program_registry =
    (0, values 0 (input 5 0 ∷ input 5 1 ∷ [])) ∷ (1, values 0 []) ∷ (256, values 0 []) ∷ []

abbrev pub save_data_info_reader : Table
save_data_info_reader = (0, values 8 (output 6 0 ∷ [])) ∷ []

abbrev pub files_storage : Table
files_storage =
    (0, values 0 (output 0x46 0 ∷ []))
    ∷ (1, values 0 (input 0x45 0 ∷ []))
    ∷ (2, values 0 [])
    ∷ (3, values 0 [])
    ∷ (4, values 8 [])
    ∷ []
