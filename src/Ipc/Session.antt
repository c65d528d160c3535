-- ===== src/Ipc/Session.antt =====
-- Ipc.cpp, Service/Sm.cpp and SmService::Dispatch of include/IpcStubs.hpp: ProcMessage, and the one
-- service that every session starts from. Dispatch of the other classes goes by their tables of commands,
-- where there is one, and else is a field of `Host`. Reading an uninitialised variable and using an object that is not there are faults.
pub mod Requests
pub mod Dangling
use nsemu.Common.{
  ℕ, zero, suc, ◌+◌, ◌-◌, true, false, ◌||◌, ◌==◌, if◌then◌else◌, Option, none, some, List, [], ◌∷◌,
  Outcome, ok, abort, fault, ◌>>=◌,
}
use nsemu.Common.Lists.{update}
use nsemu.Machine.{KObject, thread, sm_service, ipc_service, event, interface, Kernel, Machine}
use nsemu.Ipc.Command.{Host, c_string, dispatch}
use nsemu.Services.{commands_of}
use nsemu.Kernel.{new_object, new_handle, set_service}
use nsemu.Ipc.{
  message_size, Message, message, store, parse_message, gen_buf, get_data_pointer, set_move,
  set_error_code,
}

-- The argument ServiceName of a request.
unfoldable pub service_name : Message → Outcome (List ℕ)
unfolding c_string
service_name req = c_string (message_size - get_data_pointer req 8) req.raw (get_data_pointer req 8)

-- SmService::GetService, RegisterService and UnregisterService: the error code, and the service that
-- the reference argument is set to; `none` where it is left as it was.
unfoldable pub get_service : List ℕ → Kernel → ℕ × Option ℕ
get_service name k = elim (k.services name) [ none ↦ (0x415, none) | some srv ↦ (0, some srv) ]

unfoldable pub register_service : List ℕ → Kernel → ℕ × Option ℕ × Kernel
register_service name k =
    let (srv, k₁) = new_object ipc_service k in (0, some srv, set_service name (some srv) k₁)

unfoldable pub unregister_service : List ℕ → Kernel → ℕ × Kernel
unregister_service name k = elim (k.services name) [
  | none ↦ (0xc15, k)
  | some srv ↦ (0, set_service name none (record k { objects = update k.objects srv none }))
]

-- if (temp1 != nullptr) resp->SetMove(0, NewHandle(temp1)), for a `temp1` that has no initial value.
unfoldable pub move_service : Option ℕ → Message → Kernel → Outcome (Message × Kernel)
move_service none resp k = fault
move_service (some srv) resp k = do
  let (handle, k₁) = new_handle srv k
  resp₁ ← set_move 0 handle resp
  ok (resp₁, k₁)

-- SmService::Dispatch: the reply and the kernel; what it returns is always 0.
unfoldable pub sm_dispatch : Message → Message → Kernel → Outcome (Message × Kernel)
sm_dispatch req resp k =
    if req.cmd_id == 0
    then (do resp₁ ← gen_buf 0 0 0 resp; ok (record resp₁ { error_code = 0 }, k))
    else if req.cmd_id == 1
    then (do
      resp₁ ← gen_buf 1 0 0 resp
      name ← service_name req
      let (err, srv) = get_service name k
      move_service srv (record resp₁ { error_code = err }) k)
    else if req.cmd_id == 2
    then (do
      resp₁ ← gen_buf 1 0 0 resp
      name ← service_name req
      let (err, srv, k₁) = register_service name k
      move_service srv (record resp₁ { error_code = err }) k₁)
    else if req.cmd_id == 3
    then (do
      resp₁ ← gen_buf 0 0 0 resp
      name ← service_name req
      let (err, k₁) = unregister_service name k
      ok (record resp₁ { error_code = err }, k₁))
    else abort

abbrev pub on_kernel : (Kernel → Kernel) → Machine → Machine
on_kernel f m = record m { kernel = f m.kernel }

-- handler->Dispatch. The base class returns 0 and leaves the reply alone.
unfoldable pub call_dispatch :
    Host → Option KObject → ℕ → Message → Message → Machine → Outcome (ℕ × Message × Machine)
call_dispatch host none handler req resp m = fault
call_dispatch host (some thread) handler req resp m = fault
call_dispatch host (some sm_service) handler req resp m = do
  (resp₁, k) ← sm_dispatch req resp m.kernel
  ok (0, resp₁, record m { kernel = k })
call_dispatch host (some ipc_service) handler req resp m = ok (0, resp, m)
call_dispatch host (some event) handler req resp m = fault
call_dispatch host (some (interface class)) handler req resp m = elim (commands_of class) [
  | none ↦ host.dispatch class handler req resp m
  | some table ↦ dispatch host table req resp m
]

-- handler->handle, which the constructor of IpcService sets for good.
unfoldable pub handle_of : Option KObject → Outcome ℕ
handle_of none = fault
handle_of (some thread) = fault
handle_of (some event) = fault
handle_of (some _) = ok 0xf000

-- What the Control messages return before they set anything.
abbrev pub no_result : ℕ
no_result = 0xf601

convert_to_domain : ℕ → Message → Machine → Outcome (ℕ × Message × Machine)
convert_to_domain handler resp m = do
  resp₁ ← gen_buf 0 0 4 resp
  let m₁ = on_kernel (λ k. record k { is_domainobj = true }) m
  handle ← handle_of (m₁.kernel.objects handler)
  resp₂ ← store 4 (get_data_pointer resp₁ 8) handle resp₁
  ok (no_result, record resp₂ { error_code = 0 }, m₁)

duplicate_session : ℕ → Message → Machine → Outcome (ℕ × Message × Machine)
duplicate_session handler resp m = do
  resp₁ ← gen_buf 1 0 0 resp
  let (handle, k) = new_handle handler (record (m.kernel) { is_domainobj = false })
  resp₂ ← set_move 0 handle resp₁
  ok (0, record resp₂ { error_code = 0 }, record m { kernel = k })

query_pointer_buffer_size : Message → Machine → Outcome (ℕ × Message × Machine)
query_pointer_buffer_size resp m = do
  resp₁ ← gen_buf 0 0 4 resp
  resp₂ ← store 4 (get_data_pointer resp₁ 8) 0x500 resp₁
  ok (0, record resp₂ { error_code = 0 }, m)

unfoldable pub control : ℕ → ℕ → Message → Machine → Outcome (ℕ × Message × Machine)
unfolding convert_to_domain duplicate_session query_pointer_buffer_size
control cmd_id handler resp m =
    if cmd_id == 0
    then convert_to_domain handler resp m
    else if cmd_id == 2 || cmd_id == 4
    then duplicate_session handler resp m
    else if cmd_id == 3
    then query_pointer_buffer_size resp m
    else abort

-- The switch on the type of a message.
unfoldable pub handle_message :
    Host → ℕ → Message → Message → Machine → Outcome (ℕ × Message × Machine)
handle_message host handler req resp m =
    if req.type == 2
    then (do resp₁ ← gen_buf 0 0 0 resp; ok (0x25a0b, record resp₁ { error_code = 0 }, m))
    else if req.type == 4
    then call_dispatch host (m.kernel.objects handler) handler req resp m
    else if req.type == 5
    then control req.cmd_id handler resp m
    else ok (no_result, resp, m)

-- ProcMessage: the result, the bytes of `buf` afterwards, which are the reply's where the result is 0,
-- and the machine.
unfoldable pub proc_message : Host → ℕ → (ℕ → ℕ) → Machine → Outcome (ℕ × (ℕ → ℕ) × Machine)
proc_message host handler buf m = do
  req ← parse_message (message host.fresh_req buf m.kernel.is_domainobj)
  let resp = message host.fresh_resp (λ i. 0) m.kernel.is_domainobj
  (ret, resp₁, m₁) ← handle_message host handler req resp m
  if ret == 0 then (do resp₂ ← set_error_code resp₁; ok (ret, resp₂.raw, m₁)) else ok (ret, buf, m₁)
