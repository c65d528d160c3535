-- ===== src/Services/Account/Nas.antt =====
-- include/IpcStubs.hpp: the commands of the classes of nn::account::nas,
-- from their Dispatch. Every method is a stub.
use nsemu.Common.{[], ◌∷◌}
use nsemu.Ipc.Command.{Table, stub, input, output, moved, values}

abbrev pub authorization_request : Table
authorization_request =
    (0, values 16 [])
    ∷ (10, moved [] stub)
    ∷ (19, values 1 [])
    ∷ (20, values 4 (output 6 0 ∷ []))
    ∷ (21, values 4 (output 6 0 ∷ []))
    ∷ (22, values 0 (output 0x1a 0 ∷ []))
    ∷ []

abbrev pub o_auth_procedure_for_external_nsa : Table
o_auth_procedure_for_external_nsa =
    (0, moved [] stub)
    ∷ (1, values 0 (output 0x1a 0 ∷ output 0x1a 1 ∷ []))
    ∷ (2, values 0 (input 9 0 ∷ []))
    ∷ (3, moved (input 9 0 ∷ []) stub)
    ∷ (10, values 16 [])
    ∷ (100, values 8 [])
    ∷ (101, values 8 [])
    ∷ (102, values 0 (output 0xa 0 ∷ []))
    ∷ (103, values 4 (output 6 0 ∷ []))
    ∷ []

abbrev pub o_auth_procedure_for_nintendo_account_linkage : Table
o_auth_procedure_for_nintendo_account_linkage =
    (0, moved [] stub)
    ∷ (1, values 0 (output 0x1a 0 ∷ output 0x1a 1 ∷ []))
    ∷ (2, values 0 (input 9 0 ∷ []))
    ∷ (3, moved (input 9 0 ∷ []) stub)
    ∷ (10, values 16 [])
    ∷ (100, values 0 (output 0x1a 0 ∷ output 0x1a 1 ∷ []))
    ∷ (101, values 1 [])
    ∷ (199, values 0 (output 0x1a 0 ∷ []))
    ∷ []
