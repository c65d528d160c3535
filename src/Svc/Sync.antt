-- ===== src/Svc/Sync.antt =====
-- Svc.cpp and Ipc.cpp: a request that the guest leaves in its thread-local storage, through
-- SendSyncRequest.
use nsemu.Common.{
  ℕ, ◌+◌, ◌-◌, ◌*◌, ◌^◌, ◌≤◌, ◌<◌, ◌≡◌, refl, ap, ◌∙◌, ◌⊎◌, false, some, List, ok, arith,
}
use nsemu.Common.Bytes.{AreBytes}
use nsemu.Common.Lists.{byte_at, bytes_from, byte_at-bytes_from, length-bytes_from}
use nsemu.Machine.{sm_service, Machine}
use nsemu.Memory.{straight_max}
use nsemu.Mmu.{read_bytes, write_bytes}
use nsemu.Mmu.Straight.{
  put_bytes, put_bytes_inside, put_bytes_outside, with_ram, read_bytes-straight,
  write_bytes-straight,
}
use nsemu.Kernel.{new_handle, get_handle}
use nsemu.Ipc.{message_size, Message, message, get_moved, parse_message}
use nsemu.Ipc.Layout.{Header, payload_word}
use nsemu.Ipc.Command.{Host, c_string}
use nsemu.Ipc.Session.{proc_message}
use nsemu.Ipc.Session.Requests.{IsRequest, proc_message-get_service}
use nsemu.Svc.{get_tls, call_handler, send_sync_request}
use nsemu.Svc.Copy.{bytes_from-Small}

-- The bytes that the guest has put at the start of its thread-local storage.
abbrev pub request_of : Machine → ℕ → ℕ
request_of m = byte_at (bytes_from message_size (get_tls m) m.mem.ram)

sync_steps :
    (host : Host) (handle handler ret : ℕ) (msgbuf : List ℕ) (reply : ℕ → ℕ) (m m₁ m₂ m₃ : Machine)
    → read_bytes (get_tls m) message_size m ≡ ok (msgbuf, m₁)
    → get_handle handle m₁.kernel ≡ some handler
    → proc_message host handler (byte_at msgbuf) m₁ ≡ ok (ret, reply, m₂)
    → write_bytes (get_tls m₂) (bytes_from message_size 0 reply) m₂ ≡ ok m₃
    → send_sync_request host handle m ≡ ok m₃
unfolding send_sync_request call_handler
sync_steps host handle handler ret msgbuf reply m m₁ m₂ m₃ read found done wrote =
    simp (read, found, done, wrote)

-- A guest that asks SmService for a registered service, through SendSyncRequest and its thread-local
-- storage in the straight mapping, finds there a message without an error that moves one handle, and
-- that handle stands for the service. Nothing of the kernel changes but by the new handle; no byte of
-- pRAM elsewhere, no region and no register changes.
pub send_sync_request-get_service :
    (host : Host) (handle handler srv : ℕ) (name : List ℕ) (h : Header) (m : Machine)
    (fresh : Message)
    → AreBytes m.mem.ram
    → get_tls m + message_size ≤ straight_max
    → get_handle handle m.kernel ≡ some handler
    → m.kernel.is_domainobj ≡ false
    → m.kernel.objects handler ≡ some sm_service
    → m.kernel.services name ≡ some srv
    → m.kernel.handle_id < 2 ^ 32
    → IsRequest h 1 (request_of m)
    → h.type ≡ 4
    → c_string
        (message_size - (payload_word false h * 4 + 16))
        (request_of m)
        (payload_word false h * 4 + 16)
      ≡ ok name
    → (m' : Machine) × (reply : ℕ → ℕ) × (answer : Message) × (send_sync_request host handle m
        ≡ ok m')
      × ((k : ℕ) → k < message_size → m'.mem.ram (get_tls m + k) ≡ reply k)
      × (parse_message (message fresh reply false) ≡ ok answer)
      × (answer.cmd_id ≡ 0)
      × (answer.move_cnt ≡ 1)
      × (get_moved answer 0 ≡ ok m.kernel.handle_id)
      × (get_handle m.kernel.handle_id m'.kernel ≡ some srv)
      × ((j : ℕ) → (j < get_tls m) ⊎ (get_tls m + message_size ≤ j) → m'.mem.ram j ≡ m.mem.ram j)
      × (m'.mem.regions ≡ m.mem.regions)
      × (m'.mem.heap_size ≡ m.mem.heap_size)
      × (m'.kernel ≡ (new_handle srv m.kernel).1)
      × (m'.cpu ≡ m.cpu)
send_sync_request-get_service host handle handler srv name h m fresh bytes room found plain is_sm
      registered small req normal text =
    let tls = get_tls m in
    let (g₁, read) = read_bytes-straight tls message_size m bytes room in
    let m₁ : Machine = record m { gdb = g₁ } in
    let (reply, answer, done, byte, parse, code, one, got, stands) =
      proc_message-get_service host handler srv name h (request_of m) m₁ fresh plain is_sm
        registered small req normal text in
    let m₂ : Machine = record m₁ { kernel = (new_handle srv m.kernel).1 } in
    let out = bytes_from message_size 0 reply in
    let count = length-bytes_from message_size 0 reply in
    let (g₃, wrote) =
      write_bytes-straight tls out m₂ (bytes_from-Small message_size 0 reply byte)
        (omega (arith, count)) in
    (
      record (with_ram (put_bytes m.mem.ram tls out) m₂) { gdb = g₃ },
      reply,
      answer,
      sync_steps host handle handler 0 (bytes_from message_size tls m.mem.ram) reply m m₁ m₂
          (record (with_ram (put_bytes m.mem.ram tls out) m₂) { gdb = g₃ }) read found done wrote,
      λ k below.
          put_bytes_inside out m.mem.ram tls k (omega (arith, count))
          ∙ byte_at-bytes_from message_size 0 k reply below
          ∙ ap reply (let e : 0 + k ≡ k = omega arith in e),
      parse,
      code,
      one,
      got,
      stands,
      λ j away. put_bytes_outside out m.mem.ram tls j (ground (arith, count)),
      refl,
      refl,
      refl,
      refl,
    )
