-- ===== src/Services/Account/Baas.antt =====
-- include/IpcStubs.hpp: the commands of the classes of nn::account::baas,
-- from their Dispatch. Every method is a stub.
use nsemu.Common.{[], ◌∷◌}
use nsemu.Ipc.Command.{Table, stub, input, output, moved, values}

abbrev administrator_2 : Table
administrator_2 =
    (221, moved [] stub)
    ∷ (222, record (moved [] stub) { bytes = 1 })
    ∷ (250, values 1 [])
    ∷ (251, moved [] stub)
    ∷ (252, moved [] stub)
    ∷ (255, moved [] stub)
    ∷ (256, moved [] stub)
    ∷ (260, moved [] stub)
    ∷ (261, moved [] stub)
    ∷ (280, moved [] stub)
    ∷ (997, moved [] stub)
    ∷ (998, values 0 [])
    ∷ []

abbrev pub administrator : Table
administrator =
    (0, values 0 [])
    ∷ (1, values 8 [])
    ∷ (2, moved [] stub)
    ∷ (3, values 4 (output 6 0 ∷ []))
    ∷ (100, values 0 (input 0x19 0 ∷ []))
    ∷ (120, values 8 [])
    ∷ (130, values 8 (output 0x1a 0 ∷ output 6 0 ∷ []))
    ∷ (131, moved [] stub)
    ∷ (132, record (moved [] stub) { bytes = 1 })
    ∷ (150, moved (input 0x19 0 ∷ input 0x19 1 ∷ []) stub)
    ∷ (200, values 1 [])
    ∷ (201, moved [] stub)
    ∷ (202, moved [] stub)
    ∷ (203, values 0 [])
    ∷ (220, moved [] stub)
    ∷ administrator_2

abbrev pub floating_registration_request : Table
floating_registration_request =
    (0, values 16 [])
    ∷ (12, values 8 [])
    ∷ (13, values 8 [])
    ∷ (14, values 0 (output 0xa 0 ∷ []))
    ∷ (15, values 4 (output 6 0 ∷ []))
    ∷ (21, values 4 (output 6 0 ∷ []))
    ∷ (100, record (moved [] stub) { bytes = 16 })
    ∷ (101, moved [] stub)
    ∷ (110, values 0 (input 0x19 0 ∷ []))
    ∷ (111, moved [] stub)
    ∷ []

abbrev pub guest_login_request : Table
guest_login_request =
    (0, values 16 [])
    ∷ (12, values 8 [])
    ∷ (13, values 8 [])
    ∷ (14, values 0 (output 0xa 0 ∷ []))
    ∷ (15, values 4 (output 6 0 ∷ []))
    ∷ (21, values 4 (output 6 0 ∷ []))
    ∷ []

abbrev pub manager_for_application : Table
manager_for_application =
    (0, values 0 [])
    ∷ (1, values 8 [])
    ∷ (2, moved [] stub)
    ∷ (3, values 4 (output 6 0 ∷ []))
    ∷ (130, values 8 (output 0x1a 0 ∷ output 6 0 ∷ []))
    ∷ (150, moved (input 0x19 0 ∷ []) stub)
    ∷ []

abbrev pub manager_for_system_service : Table
manager_for_system_service =
    (0, values 0 [])
    ∷ (1, values 8 [])
    ∷ (2, moved [] stub)
    ∷ (3, values 4 (output 6 0 ∷ []))
    ∷ (100, values 0 (input 0x19 0 ∷ []))
    ∷ (120, values 8 [])
    ∷ (130, values 8 (output 0x1a 0 ∷ output 6 0 ∷ []))
    ∷ (131, moved [] stub)
    ∷ (132, record (moved [] stub) { bytes = 1 })
    ∷ (150, moved (input 0x19 0 ∷ input 0x19 1 ∷ []) stub)
    ∷ []
