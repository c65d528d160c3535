-- ===== src/Ipc/Session/Requests.antt =====
-- Ipc.cpp and Service/Sm.cpp: what ProcMessage does with the requests that a session starts with.
use nsemu.Common.{
  ℕ, ◌+◌, ◌-◌, ◌*◌, ◌/◌, ◌^◌, ◌≤◌, ◌<◌, ◌≡◌, refl, ap, ◌∙◌, Bool, true, false, Bool-cases, inl, inr,
  some, List, ok, arith,
}
use nsemu.Common.Bytes.{read_le, write_le, AreBytes}
use nsemu.Machine.{sm_service, Kernel, Machine}
use nsemu.Kernel.{new_handle, get_handle}
use nsemu.Ipc.{
  message_size, Message, message, store, gen_buf, set_move, set_error_code, get_moved,
  parse_message, gen_descriptor, gen_domain, load,
}
use nsemu.Ipc.Layout.{Header, Holds, raw_word, payload_word, parsed, parse_message-Holds}
use nsemu.Ipc.Reply.RoundTrip.{gen_buf-parse_message}
use nsemu.Ipc.Command.{Host, c_string}
use nsemu.Ipc.Session.{
  service_name, get_service, move_service, sm_dispatch, call_dispatch, handle_of, convert_to_domain,
  control, handle_message, proc_message,
}

-- A request in a buffer, outside a domain: its header, and the number of the command.
pub record IsRequest (h : Header) (command : ℕ) (buf : ℕ → ℕ) : Type 0 where
  pub header : Holds h buf
  pub fits : (raw_word h + 3) / 4 * 4 * 4 + 28 ≤ message_size
  pub number : read_le 4 buf (payload_word false h * 4 + 8) ≡ command

set_move-error_code :
    (i handle e : ℕ) (resp r : Message)
    → set_move i handle resp ≡ ok r
    → set_move i handle (record resp { error_code = e }) ≡ ok (record r { error_code = e })
unfolding set_move store
set_move-error_code i handle e resp r h = ground arith

sm_get_service :
    (req resp resp₁ resp₂ : Message) (name : List ℕ) (srv : ℕ) (k : Kernel)
    → req.cmd_id ≡ 1
    → service_name req ≡ ok name
    → k.services name ≡ some srv
    → gen_buf 1 0 0 resp ≡ ok resp₁
    → set_move 0 k.handle_id resp₁ ≡ ok resp₂
    → sm_dispatch req resp k ≡ ok (record resp₂ { error_code = 0 }, (new_handle srv k).1)
unfolding sm_dispatch move_service new_handle
sm_get_service req resp resp₁ resp₂ name srv k is_get text registered gen moved =
    let found : get_service name k ≡ (0, some srv) = unfold get_service in ground arith in
    simp (is_get, gen, text, found, set_move-error_code 0 k.handle_id 0 resp₁ resp₂ moved)

-- The name in a request.
request_name :
    (h : Header) (fresh : Message) (buf : ℕ → ℕ) (name : List ℕ)
    → c_string (message_size - (payload_word false h * 4 + 16)) buf (payload_word false h * 4 + 16)
      ≡ ok name
    → service_name (parsed h (message fresh buf false)) ≡ ok name
unfolding service_name
request_name h fresh buf name text =
    let at : payload_word false h * 4 + 8 + 8 ≡ payload_word false h * 4 + 16 = omega arith in
    rw at text

-- ProcMessage of a request that SmService answers.
sm_answers :
    (host : Host) (handler : ℕ) (buf : ℕ → ℕ) (m : Machine) (req resp resp₁ : Message) (k : Kernel)
    → parse_message (message host.fresh_req buf m.kernel.is_domainobj) ≡ ok req
    → req.type ≡ 4
    → m.kernel.objects handler ≡ some sm_service
    → sm_dispatch req (message host.fresh_resp (λ i. 0) m.kernel.is_domainobj) m.kernel
      ≡ ok (resp, k)
    → set_error_code resp ≡ ok resp₁
    → proc_message host handler buf m ≡ ok (0, resp₁.raw, record m { kernel = k })
unfolding proc_message handle_message call_dispatch
sm_answers host handler buf m req resp resp₁ k parse normal is_sm dispatch coded =
    simp (parse, normal, is_sm, dispatch, coded)

-- A GetService request for a registered name gets a new handle: the reply says no error and moves one
-- handle, which stands for the service from then on. Nothing else of the machine changes.
pub proc_message-get_service :
    (host : Host) (handler srv : ℕ) (name : List ℕ) (h : Header) (buf : ℕ → ℕ) (m : Machine)
    (fresh : Message)
    → m.kernel.is_domainobj ≡ false
    → m.kernel.objects handler ≡ some sm_service
    → m.kernel.services name ≡ some srv
    → m.kernel.handle_id < 2 ^ 32
    → IsRequest h 1 buf
    → h.type ≡ 4
    → c_string (message_size - (payload_word false h * 4 + 16)) buf (payload_word false h * 4 + 16)
      ≡ ok name
    → (reply : ℕ → ℕ) × (answer : Message) × (proc_message host handler buf m
        ≡ ok (0, reply, record m { kernel = (new_handle srv m.kernel).1 }))
      × AreBytes reply
      × (parse_message (message fresh reply false) ≡ ok answer)
      × (answer.cmd_id ≡ 0)
      × (answer.move_cnt ≡ 1)
      × (get_moved answer 0 ≡ ok m.kernel.handle_id)
      × (get_handle m.kernel.handle_id (new_handle srv m.kernel).1 ≡ some srv)
proc_message-get_service host handler srv name h buf m fresh plain is_sm registered small req normal
      text =
    let id = m.kernel.handle_id in
    let (resp, resp₁, resp₂, answer, gen, moved, coded, bytes, read, one, _, _, got, code) =
      gen_buf-parse_message 1 0 0 0 id 0 host.fresh_resp fresh (omega arith) (omega arith)
        (omega arith) (omega arith) small (omega arith) in
    let request = parsed h (message host.fresh_req buf false) in
    let parse = parse_message-Holds h host.fresh_req buf false req.header req.fits in
    let dispatch =
      sm_get_service request (message host.fresh_resp (λ i. 0) false) resp resp₁ name srv m.kernel
        req.number (request_name h host.fresh_req buf name text) registered gen moved in
    (
      resp₂.raw,
      answer,
      sm_answers host handler buf m request (record resp₁ { error_code = 0 }) resp₂
          (new_handle srv m.kernel).1
          (ap (λ (d : Bool). parse_message (message host.fresh_req buf d)) plain ∙ parse) normal
          is_sm
          (ap (λ (d : Bool). sm_dispatch request (message host.fresh_resp (λ i. 0) d) m.kernel)
              plain
            ∙ dispatch)
          coded,
      bytes,
      read,
      code,
      one,
      got,
      unfold new_handle get_handle in ground arith,
    )

-- ConvertSessionToDomain, on the session of any service, in and outside a domain, turns domains on for
-- every session and answers nothing: the result is the code of a failure, and the buffer of the guest
-- keeps the request. The request has to lie in the buffer, and a handler that is no service, as the main
-- thread, is left out.
pub proc_message-convert :
    (host : Host) (handler handle : ℕ) (h : Header) (buf : ℕ → ℕ) (m : Machine)
    → handle_of (m.kernel.objects handler) ≡ ok handle
    → IsRequest h 0 buf
    → h.type ≡ 5
    → proc_message host handler buf m
      ≡ ok (0xf601, buf, record m { kernel = record (m.kernel) { is_domainobj = true } })
unfolding proc_message handle_message control convert_to_domain gen_buf gen_descriptor gen_domain
    store load read_le write_le
proc_message-convert host handler handle h buf m service req kind =
    elim (Bool-cases m.kernel.is_domainobj) [
      | inl inside ↦
          let parse = parse_message-Holds h host.fresh_req buf true req.header req.fits in
          rw (inside, parse, kind, req.number, service) refl
      | inr outside ↦
          let parse = parse_message-Holds h host.fresh_req buf false req.header req.fits in
          rw (outside, parse, kind, req.number, service) refl
    ]
