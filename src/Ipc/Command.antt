-- ===== src/Ipc/Command.antt =====
-- include/IpcStubs.hpp: the form of the commands of a class. The generated Dispatch of a class differs from
-- that of another in its table alone: for a command, the call of GenBuf, the buffers, the place of an
-- object that the method gives, and the method. Arguments that no method looks at are left out.
use nsemu.Common.{
  ℕ, zero, suc, ◌+◌, ◌-◌, ◌==◌, if◌then◌else◌, Option, none, some, List, [], ◌∷◌, Outcome, ok,
  abort, fault, ◌>>=◌,
}
use nsemu.Common.Lists.{bytes_from}
use nsemu.Machine.{Kernel, Machine, interface, Display}
use nsemu.Mmu.{int_rounds, read_bytes, write_bytes}
use nsemu.Kernel.{new_object, new_handle, hid_shared_mem, name_eq}
use nsemu.Ipc.{message_size, Message, load, store, get_data_pointer, gen_buf, set_move, set_copy}
use nsemu.Ipc.Buffer.{get_buffer}
use Prim.Native.String.{String}

-- What the model leaves open: Dispatch of a class that it has no table of, the members of the two messages
-- of ProcMessage before they are set, and what the host's new buffers hold.
pub record Host : Type 0 where
  pub dispatch : String → ℕ → Message → Message → Machine → Outcome (ℕ × Message × Machine)
  pub fresh_req : Message
  pub fresh_resp : Message
  pub fresh_bytes : ℕ → ℕ

-- std::string (ptr), for a pointer to `off` in the buffer; `left` bytes of the buffer are left.
unfoldable pub c_string : ℕ → (ℕ → ℕ) → ℕ → Outcome (List ℕ)
c_string zero raw off = fault
c_string (suc left) raw off =
    let rest = c_string left raw (off + 1) in
    if raw off == 0 then ok [] else (do name ← rest; ok (raw off ∷ name))

-- A buffer of the request, by the two arguments of GetBuffer: read before the call, or filled by it.
pub data Buffer : Type 0 where
  input output : ℕ → ℕ → Buffer

-- What a method does: a stub returns 0 and sets nothing; others give a new object of a class, store a
-- value of so many bytes in the reply, or are of Hid.cpp and Vi.cpp.
pub data Method : Type 0 where
  stub : Method
  makes : String → Method
  sets : ℕ → ℕ → Method
  get_shared_memory_handle open_display get_display_vsync_event : Method

-- Where the object goes that a method gives through a reference: nowhere, or by SetMove or SetCopy.
pub data Place : Type 0 where
  nowhere move copy : Place

pub record Command : Type 0 where
  pub move_cnt : ℕ
  pub copy_cnt : ℕ
  pub bytes : ℕ
  pub buffers : List Buffer
  pub object : Place
  pub method : Method

-- GetBuffer and ReadBytes for the buffers in their order; the ones to fill are returned.
unfoldable pub prepare : List Buffer → Message → Machine → Outcome (List (ℕ × ℕ) × Machine)
prepare [] req m = ok ([], m)
prepare (input btype num ∷ rest) req m = do
  (addr, size) ← get_buffer btype num req
  (bytes, m₁) ← read_bytes addr size m
  prepare rest req m₁
prepare (output btype num ∷ rest) req m = do
  buffer ← get_buffer btype num req
  (outputs, m₁) ← prepare rest req m
  ok (buffer ∷ outputs, m₁)

-- WriteBytes for the buffers to fill, which no method has filled.
unfoldable pub write_back : (ℕ → ℕ) → List (ℕ × ℕ) → Machine → Outcome Machine
write_back fresh [] m = ok m
write_back fresh ((addr, size) ∷ rest) m = do
  m₁ ← write_bytes addr (bytes_from (int_rounds size) 0 fresh) m
  write_back fresh rest m₁

-- NVFlinger::OpenDisplay, and GetVsyncEvent with GetDisplay, which looks past the end of the list where
-- there is no such display.
unfoldable pub find_name : List ℕ → List Display → Outcome ℕ
find_name name [] = abort
find_name name (d ∷ ds) = if name_eq d.name name then ok d.id else find_name name ds

unfoldable pub find_event : ℕ → List Display → Outcome ℕ
find_event id [] = fault
find_event id (d ∷ ds) = if d.id == id then ok d.vsync_event else find_event id ds

-- The call of a method: the pointer that its reference argument is set to, if it sets it, and the reply.
unfoldable pub run_method :
    Method → Message → Message → Machine → Outcome (Option ℕ × Message × Machine)
run_method stub req resp m = ok (none, resp, m)
run_method (makes class) req resp m =
    let (ptr, k) = new_object (interface class) m.kernel in
    ok (some ptr, resp, record m { kernel = k })
run_method (sets n value) req resp m = do
  resp₁ ← store n (get_data_pointer resp 8) value resp
  ok (none, resp₁, m)
run_method get_shared_memory_handle req resp m = ok (some hid_shared_mem, resp, m)
run_method open_display req resp m = do
  name ← c_string (message_size - get_data_pointer req 8) req.raw (get_data_pointer req 8)
  id ← find_name name m.kernel.displays
  resp₁ ← store 8 (get_data_pointer resp 8) id resp
  ok (none, resp₁, m)
run_method get_display_vsync_event req resp m = do
  id ← load 8 req.raw (get_data_pointer req 8)
  event ← find_event id m.kernel.displays
  ok (some event, resp, m)

-- if (temp != nullptr) resp->SetMove (0, NewHandle (temp)), for a `temp` that has no initial value; or with
-- SetCopy.
unfoldable pub place_object : Place → Option ℕ → Message → Kernel → Outcome (Message × Kernel)
place_object nowhere out resp k = ok (resp, k)
place_object move none resp k = fault
place_object move (some ptr) resp k = do
  let (handle, k₁) = new_handle ptr k
  resp₁ ← set_move 0 handle resp
  ok (resp₁, k₁)
place_object copy none resp k = fault
place_object copy (some ptr) resp k = do
  let (handle, k₁) = new_handle ptr k
  resp₁ ← set_copy 0 handle resp
  ok (resp₁, k₁)

-- One case of Dispatch, which returns 0.
unfoldable pub run_command :
    Host → Command → Message → Message → Machine → Outcome (Message × Machine)
run_command host c req resp m = do
  resp₁ ← gen_buf c.move_cnt c.copy_cnt c.bytes resp
  (outputs, m₁) ← prepare c.buffers req m
  (out, resp₂, m₂) ← run_method c.method req resp₁ m₁
  (resp₃, k) ← place_object c.object out (record resp₂ { error_code = 0 }) m₂.kernel
  m₃ ← write_back host.fresh_bytes outputs (record m₂ { kernel = k })
  ok (resp₃, m₃)

abbrev pub Table : Type 0
Table = List (ℕ × Command)

unfoldable pub find_command : ℕ → Table → Option Command
find_command cmd_id [] = none
find_command cmd_id ((id, c) ∷ rest) = if cmd_id == id then some c else find_command cmd_id rest

-- Dispatch of a class by its table.
unfoldable pub dispatch :
    Host → Table → Message → Message → Machine → Outcome (ℕ × Message × Machine)
dispatch host table req resp m = elim (find_command req.cmd_id table) [
  | none ↦ abort
  | some c ↦ run_command host c req resp m >>= λ (resp₁, m₁). ok (0, resp₁, m₁)
]

-- The usual commands: one that carries values alone, and one that gives an object.
abbrev pub values : ℕ → List Buffer → Command
values bytes buffers = record {
  move_cnt = 0;
  copy_cnt = 0;
  bytes = bytes;
  buffers = buffers;
  object = nowhere;
  method = stub;
}

abbrev pub moved : List Buffer → Method → Command
moved buffers method = record {
  move_cnt = 1;
  copy_cnt = 0;
  bytes = 0;
  buffers = buffers;
  object = move;
  method = method;
}

abbrev pub copied : Method → Command
copied method = record {
  move_cnt = 0;
  copy_cnt = 1;
  bytes = 0;
  buffers = [];
  object = copy;
  method = method;
}
