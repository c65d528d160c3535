-- ===== src/Tests/Messages.antt =====
-- The results on the messages, the services, and the supervisor calls that carry them.
use nsemu.Common.{
  [], ◌∷◌, ◌++◌, ℕ, ◌+◌, ◌*◌, ◌<◌, ◌≤◌, ◌≡◌, refl, ◌⊎◌, true, false, none, some, ok, fault, ◌==◌,
  if◌then◌else◌, arith,
}
use nsemu.Common.Bytes.{read_le, AreBytes}
use nsemu.Common.Lists.{bytes_from}
use nsemu.Machine.{Kernel, Machine}
use nsemu.Memory.{prot_rw, ram_block}
use nsemu.Kernel.{new_handle, codes, name_eq, get_handle}
use nsemu.Ipc.{
  message_size, Message, message, get_data_pointer, gen_buf, set_move, set_error_code,
  parse_message, get_moved,
}
use nsemu.Ipc.Buffer.{Packs, send, type_of, get_buffer, get_buffer-Packs}
use nsemu.Ipc.Layout.{Header, absent, Holds, parsed, payload_word, parse_message-Holds}
use nsemu.Ipc.Reply.{reply_header}
use nsemu.Ipc.Reply.RoundTrip.{gen_buf-parse_message}
use nsemu.Ipc.Command.{Host, c_string, copied, stub, find_command}
use nsemu.Ipc.Session.{handle_of, get_service, unregister_service, handle_message, proc_message}
use nsemu.Ipc.Session.Requests.{IsRequest, proc_message-convert}
use nsemu.Ipc.Session.Dangling.{unregister_service-dangles}
use nsemu.Services.{commands_of}
use nsemu.Services.Am.{common_state_getter}
use nsemu.Services.Replies.{commands_of-fit}
use nsemu.Svc.{get_tls, mirror_stack, send_sync_request}
use nsemu.Svc.Copy.{mirror_stack-copies}
use nsemu.Svc.Sync.{request_of, send_sync_request-get_service}
use nsemu.Tests.Machines.{test_kernel, test_machine}

abbrev no_message : Message
no_message = record {
  type = 0;
  x_cnt = 0;
  a_cnt = 0;
  b_cnt = 0;
  w_cnt = 0;
  has_c = 0;
  has_pid = 0;
  pid = 0;
  move_cnt = 0;
  copy_cnt = 0;
  domain_handle = 0;
  domain_cmd = 0;
  cmd_id = 0;
  error_code = 0;
  copy_off = 0;
  move_off = 0;
  desc_off = 0;
  raw_off = 0;
  payload_off = 0;
  realdata_off = 0;
  raw = λ i. 0;
  is_domainobj = false;
}

abbrev test_host : Host
test_host = record {
  dispatch = λ class handler req resp m. fault;
  fresh_req = no_message;
  fresh_resp = no_message;
  fresh_bytes = λ i. 0;
}

-- GetService of the service named lm: two header words, the command, and the name.
abbrev request_bytes : ℕ → ℕ
request_bytes i =
    if i == 0
    then 4
    else if i == 4
    then 8
    else if i == 24
    then 1
    else if i == 32
    then 0x6c
    else if i == 33
    then 0x6d
    else 0

abbrev request_header : Header
request_header = record {
  type = 4;
  x_cnt = 0;
  a_cnt = 0;
  b_cnt = 0;
  w_cnt = 8;
  c_flags = 0;
  handles = absent;
}

-- A machine whose thread-local storage, at 0, holds the request, and whose first handle is a session with
-- the SmService.
abbrev session_kernel : Kernel
session_kernel = record test_kernel {
  handle_id = 0xde01;
  handles = λ h. if h == 0xde00 then some 0 else none;
  services = λ name. if name_eq name (codes "lm") then some 1 else none;
}

abbrev session_machine : Machine
session_machine = record test_machine {
  mem = record (test_machine.mem) { ram = request_bytes };
  kernel = session_kernel;
}

request_bytes-AreBytes : AreBytes request_bytes
request_bytes-AreBytes i = ground arith

request_held : Holds request_header request_bytes
unfolding read_le
request_held = record {
  type_lt = omega arith;
  x_lt = omega arith;
  a_lt = omega arith;
  b_lt = omega arith;
  w_lt = omega arith;
  c_lt = omega arith;
  first = refl;
  second = refl;
  descriptor = refl;
}

session-IsRequest : IsRequest request_header 1 (request_of session_machine)
unfolding read_le bytes_from
session-IsRequest = record {
  header = record {
    type_lt = omega arith;
    x_lt = omega arith;
    a_lt = omega arith;
    b_lt = omega arith;
    w_lt = omega arith;
    c_lt = omega arith;
    first = refl;
    second = refl;
    descriptor = refl;
  };
  fits = omega arith;
  number = refl;
}

session_name : c_string 224 (request_of session_machine) 32 ≡ ok (codes "lm")
unfolding c_string bytes_from
session_name = refl

send_sync_request-get_service_example :
    (m' : Machine) × (reply : ℕ → ℕ) × (answer : Message) × (send_sync_request test_host 0xde00
        session_machine
      ≡ ok m')
    × ((k : ℕ) → k < message_size → m'.mem.ram (get_tls session_machine + k) ≡ reply k)
    × (parse_message (message no_message reply false) ≡ ok answer)
    × (answer.cmd_id ≡ 0)
    × (answer.move_cnt ≡ 1)
    × (get_moved answer 0 ≡ ok 0xde01)
    × (get_handle 0xde01 m'.kernel ≡ some 1)
    × ((j : ℕ)
        → (j < get_tls session_machine) ⊎ (get_tls session_machine + message_size ≤ j)
        → m'.mem.ram j ≡ request_bytes j)
    × (m'.mem.regions ≡ session_machine.mem.regions)
    × (m'.mem.heap_size ≡ session_machine.mem.heap_size)
    × (m'.kernel ≡ (new_handle 1 session_kernel).1)
    × (m'.cpu ≡ session_machine.cpu)
unfolding get_handle
send_sync_request-get_service_example =
    send_sync_request-get_service test_host 0xde00 0 1 (codes "lm") request_header session_machine
      no_message request_bytes-AreBytes (omega arith) refl refl refl refl (omega arith)
      session-IsRequest refl session_name

parse_message-Holds_example :
    parse_message (message no_message request_bytes false)
    ≡ ok (parsed request_header (message no_message request_bytes false))
parse_message-Holds_example =
    parse_message-Holds request_header no_message request_bytes false request_held (omega arith)

gen_buf-parse_message_example :
    (resp resp₁ resp₂ req : Message) × (gen_buf 2 1 8 (message no_message (λ i. 0) false) ≡ ok resp)
    × (set_move 1 0xde05 resp ≡ ok resp₁)
    × (set_error_code (record resp₁ { error_code = 0x415 }) ≡ ok resp₂)
    × AreBytes resp₂.raw
    × (parse_message (message no_message resp₂.raw false) ≡ ok req)
    × (req.move_cnt ≡ 2)
    × (req.copy_cnt ≡ 1)
    × (req.payload_off ≡ resp.payload_off)
    × (get_moved req 1 ≡ ok 0xde05)
    × (req.cmd_id ≡ 0x415)
gen_buf-parse_message_example =
    gen_buf-parse_message 2 1 8 1 0xde05 0x415 no_message no_message (omega arith) (omega arith)
      (omega arith) (omega arith) (omega arith) (omega arith)

-- A send descriptor for 16 bytes at 0x2403000000, at the start of the buffer.
abbrev descriptor_bytes : ℕ → ℕ
descriptor_bytes i =
    if i == 0 then 16 else if i == 7 then 3 else if i == 8 then 9 else if i == 11 then 0x40 else 0

descriptor_packed : Packs send 0x2403000000 16 1 descriptor_bytes 0
unfolding read_le
descriptor_packed = (omega arith, omega arith, omega arith, omega arith, refl, refl, refl)

get_buffer-Packs_example :
    get_buffer (type_of send) 0 (message no_message descriptor_bytes false) ≡ ok (0x2403000000, 16)
get_buffer-Packs_example =
    get_buffer-Packs send 0x2403000000 16 1 0 (message no_message descriptor_bytes false)
      descriptor_packed

-- ConvertSessionToDomain.
abbrev convert_bytes : ℕ → ℕ
convert_bytes i = if i == 0 then 5 else if i == 4 then 8 else 0

convert-IsRequest : IsRequest (record request_header { type = 5 }) 0 convert_bytes
unfolding read_le
convert-IsRequest = record {
  header = record {
    type_lt = omega arith;
    x_lt = omega arith;
    a_lt = omega arith;
    b_lt = omega arith;
    w_lt = omega arith;
    c_lt = omega arith;
    first = refl;
    second = refl;
    descriptor = refl;
  };
  fits = omega arith;
  number = refl;
}

sm_handle : handle_of (session_machine.kernel.objects 0) ≡ ok 0xf000
unfolding handle_of
sm_handle = refl

proc_message-convert_example :
    proc_message test_host 0 convert_bytes session_machine
    ≡ ok (
      0xf601,
      convert_bytes,
      record session_machine { kernel = record session_kernel { is_domainobj = true } },
    )
proc_message-convert_example =
    proc_message-convert test_host 0 0xf000 (record request_header { type = 5 }) convert_bytes
      session_machine sm_handle convert-IsRequest refl

-- A session with the service lm, at address 1, is handle 0xde02.
abbrev lm_machine : Machine
lm_machine = record session_machine {
  kernel = record session_kernel { handles = λ h. if h == 0xde02 then some 1 else none };
}

lm_stands : get_handle 0xde02 lm_machine.kernel ≡ some 1
unfolding get_handle
lm_stands = refl

unregister_service-dangles_example :
    ((unregister_service (codes "lm") lm_machine.kernel).0 ≡ 0)
    × ((get_service (codes "lm") (unregister_service (codes "lm") lm_machine.kernel).1).0 ≡ 0x415)
    × (get_handle 0xde02 (unregister_service (codes "lm") lm_machine.kernel).1 ≡ some 1)
    × (handle_message test_host 1
          (record no_message { type = 4 })
          no_message
          (record lm_machine { kernel = (unregister_service (codes "lm") lm_machine.kernel).1 })
        ≡ fault)
unregister_service-dangles_example =
    unregister_service-dangles test_host 0xde02 1 (codes "lm") lm_machine
      (record no_message { type = 4 }) no_message refl lm_stands refl

state_getter_there : commands_of "nn::am::service::ICommonStateGetter" ≡ some common_state_getter
unfolding commands_of
state_getter_there = refl

event_handle_there : find_command 0 common_state_getter ≡ some (copied stub)
unfolding find_command
event_handle_there = refl

commands_of-fit_example :
    (resp : Message) × (gen_buf 0 1 0 (message no_message (λ i. 0) false) ≡ ok resp)
    × Holds (reply_header 0 1 0) resp.raw
    × (resp.payload_off ≡ payload_word false (reply_header 0 1 0) * 4)
    × (get_data_pointer resp 8 + 0 ≤ message_size)
commands_of-fit_example =
    commands_of-fit "nn::am::service::ICommonStateGetter" common_state_getter 0 (copied stub)
      no_message state_getter_there event_handle_there

mirror_stack-copies_example :
    (m' : Machine) × (mirror_stack (λ i. 0) 0x1000 4 32 session_machine ≡ ok m')
    × ((k : ℕ) → k < 32 → m'.mem.ram (0x1000 + k) ≡ request_bytes (4 + k))
    × ((j : ℕ) → (j < 0x1000) ⊎ (0x1000 + 32 ≤ j) → m'.mem.ram j ≡ request_bytes j)
    × (m'.mem.regions ≡ session_machine.mem.regions ++ ram_block 0x1000 32 none prot_rw ∷ [])
    × (m'.mem.heap_size ≡ session_machine.mem.heap_size)
    × (m'.cpu ≡ session_machine.cpu)
    × (m'.kernel ≡ session_kernel)
mirror_stack-copies_example =
    mirror_stack-copies (λ i. 0) 0x1000 4 32 session_machine request_bytes-AreBytes (omega arith)
      (omega arith)
