-- ===== src/Services/Fsp.antt =====
-- Service/Fsp.cpp and include/IpcStubs.hpp: the commands of the classes that the former implements, from
-- their Dispatch; a method without an implementation is a stub.
pub mod Files
use nsemu.Common.{[], ◌∷◌}
use nsemu.Ipc.Command.{Table, makes, stub, input, output, moved, values}

abbrev file_system_proxy_4 : Table
file_system_proxy_4 =
    (620, values 0 [])
    ∷ (800, values 128 [])
    ∷ (1000, values 0 (input 25 0 ∷ []))
    ∷ (1001, values 0 [])
    ∷ (1002, values 0 (input 25 0 ∷ []))
    ∷ (1003, values 0 [])
    ∷ (1004, values 0 [])
    ∷ (1005, values 4 [])
    ∷ (1006, values 0 (input 5 0 ∷ []))
    ∷ []

abbrev file_system_proxy_3 : Table
file_system_proxy_3 =
    (200, moved [] (makes "nn::fssrv::sf::IStorage"))
    ∷ (201, moved [] (makes "nn::fssrv::sf::IStorage"))
    ∷ (202, moved [] (makes "nn::fssrv::sf::IStorage"))
    ∷ (203, moved [] (makes "nn::fssrv::sf::IStorage"))
    ∷ (400, moved [] stub)
    ∷ (500, moved [] stub)
    ∷ (501, moved [] stub)
    ∷ (600, values 0 [])
    ∷ (601, values 8 [])
    ∷ (602, values 0 (output 6 0 ∷ []))
    ∷ (603, values 0 [])
    ∷ (604, values 0 [])
    ∷ (605, values 0 [])
    ∷ (606, values 16 [])
    ∷ (607, values 0 [])
    ∷ (608, values 0 [])
    ∷ (609, values 16 (input 25 0 ∷ []))
    ∷ (610, values 17 (input 25 0 ∷ []))
    ∷ file_system_proxy_4

abbrev file_system_proxy_2 : Table
file_system_proxy_2 =
    (26, values 0 [])
    ∷ (27, values 1 [])
    ∷ (30, moved [] (makes "nn::fssrv::sf::IStorage"))
    ∷ (31, moved [] (makes "nn::fssrv::sf::IFileSystem"))
    ∷ (32, values 0 [])
    ∷ (51, moved [] (makes "nn::fssrv::sf::IFileSystem"))
    ∷ (52, moved [] (makes "nn::fssrv::sf::IFileSystem"))
    ∷ (53, moved [] (makes "nn::fssrv::sf::IFileSystem"))
    ∷ (57, values 0 (output 6 0 ∷ []))
    ∷ (58, values 0 (output 6 0 ∷ []))
    ∷ (59, values 0 (input 5 0 ∷ []))
    ∷ (60, moved [] stub)
    ∷ (61, moved [] stub)
    ∷ (80, moved [] stub)
    ∷ (100, moved [] (makes "nn::fssrv::sf::IFileSystem"))
    ∷ (110, moved [] (makes "nn::fssrv::sf::IFileSystem"))
    ∷ file_system_proxy_3

abbrev pub file_system_proxy : Table
file_system_proxy =
    (1, values 0 [])
    ∷ (2, moved [] (makes "nn::fssrv::sf::IFileSystem"))
    ∷ (7, moved [] (makes "nn::fssrv::sf::IFileSystem"))
    ∷ (8, moved (input 25 0 ∷ []) (makes "nn::fssrv::sf::IFileSystem"))
    ∷ (9, moved [] (makes "nn::fssrv::sf::IFileSystem"))
    ∷ (11, moved (input 25 0 ∷ []) (makes "nn::fssrv::sf::IFileSystem"))
    ∷ (12, moved [] (makes "nn::fssrv::sf::IStorage"))
    ∷ (13, values 0 [])
    ∷ (17, moved (input 25 0 ∷ []) (makes "nn::fssrv::sf::IFileSystem"))
    ∷ (18, moved [] (makes "nn::fssrv::sf::IFileSystem"))
    ∷ (19, values 0 [])
    ∷ (21, values 0 [])
    ∷ (22, values 0 [])
    ∷ (23, values 0 [])
    ∷ (24, values 0 (input 5 0 ∷ []))
    ∷ (25, values 0 [])
    ∷ file_system_proxy_2

abbrev pub file_system_proxy_for_loader : Table
file_system_proxy_for_loader =
    (0, moved (input 25 0 ∷ []) (makes "nn::fssrv::sf::IFileSystem")) ∷ (1, values 1 []) ∷ []
