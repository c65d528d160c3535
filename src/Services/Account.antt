-- ===== src/Services/Account.antt =====
-- include/IpcStubs.hpp: the commands of the classes of nn::account,
-- from their Dispatch. Every method is a stub.
pub mod Baas
pub mod Nas
use nsemu.Common.{[], ◌∷◌}
use nsemu.Ipc.Command.{Table, stub, input, output, moved, values}

abbrev account_service_for_administrator_2 : Table
account_service_for_administrator_2 =
    (190, values 16 [])
    ∷ (200, values 16 [])
    ∷ (201, values 0 [])
    ∷ (202, values 0 [])
    ∷ (203, values 0 [])
    ∷ (204, values 0 [])
    ∷ (205, moved [] stub)
    ∷ (206, values 0 [])
    ∷ (210, moved [] stub)
    ∷ (230, moved [] stub)
    ∷ (250, moved [] stub)
    ∷ (290, moved [] stub)
    ∷ (291, moved [] stub)
    ∷ (299, moved [] stub)
    ∷ (997, values 0 [])
    ∷ (998, values 0 [])
    ∷ (999, values 0 [])
    ∷ []

abbrev pub account_service_for_administrator : Table
account_service_for_administrator =
    (0, values 4 [])
    ∷ (1, values 1 [])
    ∷ (2, values 0 (output 0xa 0 ∷ []))
    ∷ (3, values 0 (output 0xa 0 ∷ []))
    ∷ (4, values 16 [])
    ∷ (5, moved [] stub)
    ∷ (6, values 16 [])
    ∷ (50, values 1 [])
    ∷ (51, values 16 [])
    ∷ (100, moved [] stub)
    ∷ (101, moved [] stub)
    ∷ (102, moved [] stub)
    ∷ (103, moved [] stub)
    ∷ (104, moved [] stub)
    ∷ (110, values 0 (input 5 0 ∷ []))
    ∷ (111, values 0 [])
    ∷ (112, values 4 (output 6 0 ∷ []))
    ∷ account_service_for_administrator_2

abbrev pub account_service_for_application : Table
account_service_for_application =
    (0, values 4 [])
    ∷ (1, values 1 [])
    ∷ (2, values 0 (output 0xa 0 ∷ []))
    ∷ (3, values 0 (output 0xa 0 ∷ []))
    ∷ (4, values 16 [])
    ∷ (5, moved [] stub)
    ∷ (6, values 16 [])
    ∷ (50, values 1 [])
    ∷ (51, values 16 [])
    ∷ (100, values 0 [])
    ∷ (101, moved [] stub)
    ∷ (102, moved [] stub)
    ∷ (110, values 0 (input 5 0 ∷ []))
    ∷ (111, values 0 [])
    ∷ (120, moved [] stub)
    ∷ []

abbrev account_service_for_system_service_2 : Table
account_service_for_system_service_2 =
    (190, values 16 []) ∷ (997, values 0 []) ∷ (998, values 0 []) ∷ (999, values 0 []) ∷ []

abbrev pub account_service_for_system_service : Table
account_service_for_system_service =
    (0, values 4 [])
    ∷ (1, values 1 [])
    ∷ (2, values 0 (output 0xa 0 ∷ []))
    ∷ (3, values 0 (output 0xa 0 ∷ []))
    ∷ (4, values 16 [])
    ∷ (5, moved [] stub)
    ∷ (6, values 16 [])
    ∷ (50, values 1 [])
    ∷ (51, values 16 [])
    ∷ (100, moved [] stub)
    ∷ (101, moved [] stub)
    ∷ (102, moved [] stub)
    ∷ (103, moved [] stub)
    ∷ (104, moved [] stub)
    ∷ (110, values 0 (input 5 0 ∷ []))
    ∷ (111, values 0 [])
    ∷ (112, values 4 (output 6 0 ∷ []))
    ∷ account_service_for_system_service_2

abbrev pub baas_access_token_accessor : Table
baas_access_token_accessor =
    (0, moved [] stub)
    ∷ (1, values 4 (output 6 0 ∷ []))
    ∷ (2, values 8 [])
    ∷ (50, moved [] stub)
    ∷ (51, moved [] stub)
    ∷ []
