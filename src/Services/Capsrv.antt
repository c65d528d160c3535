-- ===== src/Services/Capsrv.antt =====
-- include/IpcStubs.hpp: the commands of the classes of nn::capsrv::sf,
-- from their Dispatch. Every method is a stub.
use nsemu.Common.{[], ◌∷◌}
use nsemu.Ipc.Command.{Table, input, output, values}

abbrev album_accessor_service_2 : Table
album_accessor_service_2 = (8012, values 0 []) ∷ (8021, values 0 []) ∷ (10011, values 0 []) ∷ []

abbrev pub album_accessor_service : Table
album_accessor_service =
    (0, values 0 [])
    ∷ (1, values 0 [])
    ∷ (2, values 0 [])
    ∷ (3, values 0 [])
    ∷ (4, values 0 [])
    ∷ (5, values 0 [])
    ∷ (6, values 0 [])
    ∷ (7, values 0 [])
    ∷ (8, values 0 [])
    ∷ (9, values 0 [])
    ∷ (10, values 0 [])
    ∷ (11, values 0 [])
    ∷ (12, values 0 [])
    ∷ (13, values 0 [])
    ∷ (14, values 0 [])
    ∷ (301, values 0 [])
    ∷ (401, values 1 [])
    ∷ (501, values 0 [])
    ∷ (1001, values 0 [])
    ∷ (1002, values 0 [])
    ∷ (8001, values 0 [])
    ∷ (8002, values 0 [])
    ∷ (8011, values 0 [])
    ∷ album_accessor_service_2

abbrev pub album_control_service : Table
album_control_service =
    (2001, values 0 [])
    ∷ (2002, values 0 [])
    ∷ (2011, values 0 [])
    ∷ (2012, values 0 [])
    ∷ (2013, values 8 [])
    ∷ (2014, values 0 [])
    ∷ (2101, values 0 [])
    ∷ (2102, values 0 [])
    ∷ (2201, values 0 [])
    ∷ (2301, values 0 [])
    ∷ []

abbrev pub screen_shot_application_service : Table
screen_shot_application_service =
    (201, values 32 (input 0x45 0 ∷ [])) ∷ (203, values 32 (input 0x45 0 ∷ [])) ∷ []

abbrev pub screen_shot_control_service : Table
screen_shot_control_service =
    (1, values 0 [])
    ∷ (2, values 0 [])
    ∷ (1001, values 0 [])
    ∷ (1002, values 0 [])
    ∷ (1003, values 0 [])
    ∷ (1011, values 0 [])
    ∷ (1012, values 0 [])
    ∷ (1201, values 0 [])
    ∷ (1202, values 0 [])
    ∷ (1203, values 8 (output 6 0 ∷ []))
    ∷ []

abbrev pub screen_shot_service : Table
screen_shot_service =
    (201, values 0 []) ∷ (202, values 0 []) ∷ (203, values 0 []) ∷ (204, values 0 []) ∷ []
