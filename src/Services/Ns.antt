-- ===== src/Services/Ns.antt =====
-- include/IpcStubs.hpp: the commands of the classes of nn::ns::detail beside the application manager,
-- from their Dispatch. Every method is a stub.
pub mod Applications
use nsemu.Common.{[], ◌∷◌}
use nsemu.Ipc.Command.{Table, stub, output, moved, copied, values}

abbrev pub account_proxy_interface : Table
account_proxy_interface = (0, values 0 []) ∷ []

abbrev pub ns_async_result : Table
ns_async_result = (0, values 0 []) ∷ (1, values 0 []) ∷ []

abbrev pub ns_async_value : Table
ns_async_value = (0, values 8 []) ∷ (1, values 0 (output 6 0 ∷ [])) ∷ (2, values 0 []) ∷ []

abbrev pub content_management_interface : Table
content_management_interface =
    (11, values 0 [])
    ∷ (43, values 0 [])
    ∷ (47, values 0 [])
    ∷ (48, values 0 [])
    ∷ (600, values 4 [])
    ∷ (601, values 0 [])
    ∷ (605, values 0 [])
    ∷ (607, values 1 [])
    ∷ []

abbrev pub develop_interface : Table
develop_interface =
    (0, values 0 [])
    ∷ (1, values 0 [])
    ∷ (2, values 0 [])
    ∷ (4, values 0 [])
    ∷ (5, values 0 [])
    ∷ (6, values 0 [])
    ∷ (7, values 0 [])
    ∷ (8, values 0 [])
    ∷ (9, values 0 [])
    ∷ []

abbrev pub document_interface : Table
document_interface = (21, values 0 []) ∷ (23, values 0 []) ∷ []

abbrev pub download_task_interface : Table
download_task_interface =
    (701, values 0 [])
    ∷ (702, values 0 [])
    ∷ (703, values 0 [])
    ∷ (704, values 4 (output 6 0 ∷ []))
    ∷ (705, values 0 [])
    ∷ []

abbrev pub factory_reset_interface : Table
factory_reset_interface = (100, values 0 []) ∷ (101, values 0 []) ∷ (102, values 0 []) ∷ []

abbrev pub progress_async_result : Table
progress_async_result =
    (0, values 0 []) ∷ (1, values 0 []) ∷ (2, values 0 (output 6 0 ∷ [])) ∷ (3, values 0 []) ∷ []

abbrev pub progress_monitor_for_delete_user_save_data_all : Table
progress_monitor_for_delete_user_save_data_all =
    (0, copied stub) ∷ (1, values 1 []) ∷ (2, values 0 []) ∷ (10, values 40 []) ∷ []

abbrev pub service_getter_interface : Table
service_getter_interface =
    (7994, moved [] stub)
    ∷ (7995, moved [] stub)
    ∷ (7996, moved [] stub)
    ∷ (7997, moved [] stub)
    ∷ (7998, moved [] stub)
    ∷ (7999, moved [] stub)
    ∷ []

abbrev pub system_update_control : Table
system_update_control =
    (0, values 1 [])
    ∷ (1, values 0 [])
    ∷ (2, values 0 [])
    ∷ (3, values 16 [])
    ∷ (4, values 0 [])
    ∷ (5, values 0 [])
    ∷ (6, values 16 [])
    ∷ (7, values 1 [])
    ∷ (8, values 0 [])
    ∷ (9, values 0 [])
    ∷ (10, values 0 [])
    ∷ (11, values 0 [])
    ∷ (12, values 0 [])
    ∷ (13, values 0 [])
    ∷ []

abbrev pub system_update_interface : Table
system_update_interface =
    (0, values 1 [])
    ∷ (1, moved [] stub)
    ∷ (2, values 0 [])
    ∷ (3, values 0 [])
    ∷ (4, values 0 [])
    ∷ (5, values 0 [])
    ∷ (6, values 0 [])
    ∷ (9, copied stub)
    ∷ (10, values 0 [])
    ∷ (11, values 0 [])
    ∷ (12, copied stub)
    ∷ (13, values 0 [])
    ∷ (14, copied stub)
    ∷ (15, values 0 [])
    ∷ []

abbrev pub vulnerability_manager_interface : Table
vulnerability_manager_interface = (1200, values 1 []) ∷ []
