-- ===== src/Services/Audio.antt =====
-- include/IpcStubs.hpp: the commands of the classes of nn::audio::detail,
-- from their Dispatch. Every method is a stub.
use nsemu.Common.{[], ◌∷◌}
use nsemu.Ipc.Command.{Table, stub, input, output, moved, copied, values}

abbrev pub audio_debug_manager : Table
audio_debug_manager = (0, values 0 []) ∷ (1, values 0 []) ∷ (2, values 0 []) ∷ (3, values 0 []) ∷ []

abbrev pub audio_device : Table
audio_device =
    (0, values 4 (output 6 0 ∷ []))
    ∷ (1, values 0 (input 5 0 ∷ []))
    ∷ (2, values 4 (input 5 0 ∷ []))
    ∷ (3, values 0 (output 6 0 ∷ []))
    ∷ (4, copied stub)
    ∷ (5, values 4 [])
    ∷ (6, values 4 (output 0x22 0 ∷ []))
    ∷ (7, values 0 (input 0x21 0 ∷ []))
    ∷ (8, values 4 (input 0x21 0 ∷ []))
    ∷ (10, values 0 (output 0x22 0 ∷ []))
    ∷ (11, copied stub)
    ∷ (12, copied stub)
    ∷ []

abbrev pub audio_in : Table
audio_in =
    (0, values 4 [])
    ∷ (1, values 0 [])
    ∷ (2, values 0 [])
    ∷ (3, values 0 (input 5 0 ∷ []))
    ∷ (4, copied stub)
    ∷ (5, values 4 (output 6 0 ∷ []))
    ∷ (6, values 1 [])
    ∷ (7, values 0 (input 5 0 ∷ []))
    ∷ (8, values 0 (input 0x21 0 ∷ []))
    ∷ (9, values 4 (output 0x22 0 ∷ []))
    ∷ (10, values 0 (input 0x21 0 ∷ []))
    ∷ []

abbrev pub audio_in_manager : Table
audio_in_manager =
    (0, values 4 (output 6 0 ∷ []))
    ∷ (1, record (moved (input 5 0 ∷ output 6 0 ∷ []) stub) { bytes = 16 })
    ∷ (2, values 4 (output 0x22 0 ∷ []))
    ∷ (3, record (moved (input 0x21 0 ∷ output 0x22 0 ∷ []) stub) { bytes = 16 })
    ∷ (4, values 4 (output 0x22 0 ∷ []))
    ∷ []

abbrev pub audio_in_manager_for_applet : Table
audio_in_manager_for_applet =
    (0, copied stub) ∷ (1, copied stub) ∷ (2, values 4 []) ∷ (3, values 0 []) ∷ []

abbrev pub audio_in_manager_for_debugger : Table
audio_in_manager_for_debugger = (0, values 0 []) ∷ (1, values 0 []) ∷ []

abbrev pub audio_out : Table
audio_out =
    (0, values 4 [])
    ∷ (1, values 0 [])
    ∷ (2, values 0 [])
    ∷ (3, values 0 (input 5 0 ∷ []))
    ∷ (4, copied stub)
    ∷ (5, values 4 (output 6 0 ∷ []))
    ∷ (6, values 1 [])
    ∷ (7, values 0 (input 0x21 0 ∷ []))
    ∷ (8, values 4 (output 0x22 0 ∷ []))
    ∷ []

abbrev pub audio_out_manager : Table
audio_out_manager =
    (0, values 4 (output 6 0 ∷ []))
    ∷ (1, record (moved (input 5 0 ∷ output 6 0 ∷ []) stub) { bytes = 16 })
    ∷ (2, values 4 (output 0x22 0 ∷ []))
    ∷ (3, record (moved (input 0x21 0 ∷ output 0x22 0 ∷ []) stub) { bytes = 16 })
    ∷ []

abbrev pub audio_out_manager_for_applet : Table
audio_out_manager_for_applet =
    (0, copied stub) ∷ (1, copied stub) ∷ (2, values 4 []) ∷ (3, values 0 []) ∷ []

abbrev pub audio_out_manager_for_debugger : Table
audio_out_manager_for_debugger = (0, values 0 []) ∷ (1, values 0 []) ∷ []

abbrev pub audio_renderer : Table
audio_renderer =
    (0, values 4 [])
    ∷ (1, values 4 [])
    ∷ (2, values 4 [])
    ∷ (3, values 4 [])
    ∷ (4, values 0 (input 5 0 ∷ output 6 0 ∷ output 6 1 ∷ []))
    ∷ (5, values 0 [])
    ∷ (6, values 0 [])
    ∷ (7, copied stub)
    ∷ (8, values 0 [])
    ∷ (9, values 4 [])
    ∷ (10, values 0 (input 0x21 0 ∷ output 0x22 0 ∷ output 0x22 1 ∷ []))
    ∷ (11, values 0 [])
    ∷ []

abbrev pub audio_renderer_manager : Table
audio_renderer_manager =
    (0, moved [] stub) ∷ (1, values 8 []) ∷ (2, moved [] stub) ∷ (3, moved [] stub) ∷ []

abbrev pub audio_renderer_manager_for_applet : Table
audio_renderer_manager_for_applet =
    (0, copied stub)
    ∷ (1, copied stub)
    ∷ (2, values 4 [])
    ∷ (3, values 0 [])
    ∷ (4, values 0 [])
    ∷ (5, values 0 [])
    ∷ []

abbrev pub audio_renderer_manager_for_debugger : Table
audio_renderer_manager_for_debugger = (0, values 0 []) ∷ (1, values 0 []) ∷ []

abbrev pub final_output_recorder : Table
final_output_recorder =
    (0, values 4 [])
    ∷ (1, values 0 [])
    ∷ (2, values 0 [])
    ∷ (3, values 0 (input 5 0 ∷ []))
    ∷ (4, copied stub)
    ∷ (5, values 16 (output 6 0 ∷ []))
    ∷ (6, values 1 [])
    ∷ (7, values 8 [])
    ∷ (8, values 0 (input 0x21 0 ∷ []))
    ∷ (9, values 16 (output 0x22 0 ∷ []))
    ∷ []

abbrev pub final_output_recorder_manager : Table
final_output_recorder_manager = (0, record (moved [] stub) { bytes = 16 }) ∷ []

abbrev pub final_output_recorder_manager_for_applet : Table
final_output_recorder_manager_for_applet = (0, copied stub) ∷ (1, copied stub) ∷ []

abbrev pub final_output_recorder_manager_for_debugger : Table
final_output_recorder_manager_for_debugger = (0, values 0 []) ∷ (1, values 0 []) ∷ []
