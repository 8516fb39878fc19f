-- ===== src/Bus/Caller.antt =====
-- The calls of module stages of server-go/bus/module_caller.go. What the client of the bus answers
-- is given: which calls of `RequestFragment` it takes, and what `Poll` returns, one entry a call.
pub mod Hearing
pub mod Answered
pub mod Sending
pub mod Arriving
pub mod Joining
pub mod Served
use aimee_module_sandbox.Base.{
  ℕ, zero, suc, ◌+◌, ◌-◌, ◌%◌, Bool, true, false, not, ◌&&◌, ◌||◌, Option, none, some, List, [],
  ◌∷◌, ◌++◌, ltb, leb, ◌==◌, if◌then◌else◌, length, take, drop, bit_and,
}
use aimee_module_sandbox.GoString.{Bytes}
use aimee_module_sandbox.Bus.Memory.{write_at}
use aimee_module_sandbox.Bus.Message.{
  ModuleMessage, module_message_header_len, max_body, encode_message, decode_module_message,
}
use aimee_module_sandbox.Bus.Fragments.{Fragment, fragments, zeros}
use aimee_module_sandbox.Bus.Runtime.{Event, part_of}

-- The arguments of `RequestFragment`.
pub record Request : Type 0 where
  pub event_kind : ℕ
  pub correlation_id : ℕ
  pub payload : Bytes
  pub more : Bool

-- The arguments of `send` but the body.
pub record Invoke : Type 0 where
  pub event_kind : ℕ
  pub stage_id : ℕ
  pub trace_id : ℕ
  pub correlation_id : ℕ
  pub deadline_ns : ℕ

pub data Sent : Type 0 where
  sent err_module_runtime err_message err_bus : Sent

abbrev pub invoke_message : Invoke → ℕ → ModuleMessage
invoke_message v len = record {
  operation = 1;
  status = 0;
  stage_id = v.stage_id;
  flags = 0;
  body_len = len % 4294967296;
  deadline_ns = v.deadline_ns;
  trace_id = v.trace_id;
}

-- `frame[:written+part]`, with the part copied behind what was written.
abbrev pub request_of : Invoke → Fragment → ℕ × Bytes → Request
request_of v f (written, frame) = record {
  event_kind = v.event_kind;
  correlation_id = v.correlation_id;
  payload = take (written + length f.part) (write_at frame written f.part);
  more = f.more;
}

-- What follows the encoding of a header, or its failure.
abbrev pub on_frame :
    Option (ℕ × Bytes)
    → Sent × List Request
    → (ℕ × Bytes → Sent × List Request)
    → Sent × List Request
on_frame none fails rest = fails
on_frame (some written) fails rest = rest written

-- The loop of `send`, over the fragments, with the frame that it uses again and the requests that
-- the client has taken. `takes n` is the answer to the call behind `n` requests.
unfoldable pub send_fragments :
    (ℕ → Bool) → Invoke → List Fragment → Bytes → List Request → Sent × List Request
send_fragments takes v [] frame done = (sent, done)
send_fragments takes v (f ∷ fs) frame done =
    on_frame (encode_message (invoke_message v (length f.part)) frame) (err_message, done)
      (λ written.
        let rest =
          send_fragments takes v fs (write_at written.1 written.0 f.part)
            (done ++ request_of v f written ∷ []) in
        if takes (length done) then rest else (err_bus, done))

-- `send`
unfoldable pub send : (ℕ → Bool) → ℕ → Invoke → Bytes → Sent × List Request
send takes budget v request =
    if leb budget module_message_header_len
    then (err_module_runtime, [])
    else send_fragments takes v (fragments (budget - module_message_header_len) request)
        (zeros budget) []

-- What one call of `Poll` brings: an error, no event, with what the loop then finds of the context
-- and of the expiry, or an event.
pub data Polled : Type 0 where
  poll_failed : Polled
  nothing : Bool → Bool → Polled
  event : Event → Polled

pub data Awaited : Type 0 where
  received : Bytes → Awaited
  err_poll err_cancelled err_deadline err_capability_absent err_rejected err_runtime : Awaited
  err_status : ℕ → Awaited
  waiting : Awaited

-- What one event is to the wait: not for this call, an end, or a part of the body.
pub data Heard : Type 0 where
  skipped : Heard
  ended : Awaited → Heard
  body_part : Bytes → Bool → Heard

unfoldable pub hear_result : ℕ → Bytes → Event → Option ModuleMessage → Heard
hear_result limit body e none = skipped
hear_result limit body e (some m) =
    if not (m.operation == 2)
    then skipped
    else if not (m.status == 0)
    then ended (err_status m.status)
    else if ltb (length e.payload) (module_message_header_len + m.body_len)
    then ended err_runtime
    else if ltb limit ((length body % 4294967296 + m.body_len) % 4294967296)
    then ended err_runtime
    else body_part (part_of e m) (not (bit_and e.frame.hdr_flags 128 == 0))

unfoldable pub hear : ℕ → ℕ → ℕ → Bytes → Event → Heard
hear limit kind correlation body e =
    if e.frame.correlation_id == correlation && e.frame.event_kind == 4
    then ended err_capability_absent
    else if e.frame.correlation_id == correlation && e.frame.event_kind == 3
    then ended err_rejected
    else if not (e.frame.event_kind == kind) || not (e.frame.correlation_id == correlation)
    then skipped
    else hear_result limit body e (decode_module_message e.payload)

-- The rest of the loop of `awaitReply` behind an event.
abbrev pub listen : Heard → Bytes → (Bytes → Awaited) → Awaited
listen skipped body rest = rest body
listen (ended r) body rest = r
listen (body_part p true) body rest = rest (body ++ p)
listen (body_part p false) body rest = received (body ++ p)

-- `awaitReply`, from the body so far.
unfoldable pub await_reply : ℕ → ℕ → ℕ → Bytes → List Polled → Awaited
await_reply limit kind correlation body [] = waiting
await_reply limit kind correlation body (poll_failed ∷ ps) = err_poll
await_reply limit kind correlation body (nothing true expired ∷ ps) = err_cancelled
await_reply limit kind correlation body (nothing false true ∷ ps) = err_deadline
await_reply limit kind correlation body (nothing false false ∷ ps) =
    await_reply limit kind correlation body ps
await_reply limit kind correlation body (event e ∷ ps) =
    listen (hear limit kind correlation body e) body (λ b. await_reply limit kind correlation b ps)

-- The correlation of the last call, and `responseLimit`.
pub record ModuleCaller : Type 0 where
  pub correlation : ℕ
  pub response_limit : ℕ

-- `newModuleCaller`
abbrev pub new_module_caller : ModuleCaller
new_module_caller = record { correlation = 0; response_limit = max_body }

pub data CallResult : Type 0 where
  refused : CallResult
  not_sent : Sent → CallResult
  returned : Awaited → CallResult

-- What a call leaves: the caller, the requests that the client has taken, whether `Cancel` was
-- called, and what is returned.
pub record Called : Type 0 where
  pub caller : ModuleCaller
  pub requests : List Request
  pub cancels : Bool
  pub result : CallResult

abbrev pub is_received : Awaited → Bool
is_received (received b) = true
is_received err_poll = false
is_received err_cancelled = false
is_received err_deadline = false
is_received err_capability_absent = false
is_received err_rejected = false
is_received err_runtime = false
is_received (err_status s) = false
is_received waiting = false

abbrev pub is_waiting : Awaited → Bool
is_waiting (received b) = false
is_waiting err_poll = false
is_waiting err_cancelled = false
is_waiting err_deadline = false
is_waiting err_capability_absent = false
is_waiting err_rejected = false
is_waiting err_runtime = false
is_waiting (err_status s) = false
is_waiting waiting = true

abbrev pub sent_then : ModuleCaller → Sent × List Request → Awaited → Called
sent_then m (sent, done) r = record {
  caller = m;
  requests = done;
  cancels = not (is_received r) && not (is_waiting r);
  result = returned r;
}
sent_then m (err_module_runtime, done) r = record {
  caller = m;
  requests = done;
  cancels = false;
  result = not_sent err_module_runtime;
}
sent_then m (err_message, done) r = record {
  caller = m;
  requests = done;
  cancels = false;
  result = not_sent err_message;
}
sent_then m (err_bus, done) r = record {
  caller = m;
  requests = done;
  cancels = false;
  result = not_sent err_bus;
}

-- `Call`, with the budget of the client, the clock, and what the client will answer. A deadline of
-- 0 is none.
unfoldable pub call :
    ModuleCaller → (ℕ → Bool) → ℕ → ℕ → ℕ → ℕ → ℕ → ℕ → Bytes → List Polled → Called
call m takes budget now kind stage trace deadline request polled =
    let c = (m.correlation + 1) % 18446744073709551616 in
    let m' : ModuleCaller = record { correlation = c; response_limit = m.response_limit } in
    let deadline_ns = if deadline == 0 then 0 else (now + deadline) % 18446744073709551616 in
    let v : Invoke = record {
      event_kind = kind;
      stage_id = stage;
      trace_id = trace;
      correlation_id = c;
      deadline_ns = deadline_ns;
    } in
    if ltb max_body (length request % 4294967296)
    then record { caller = m; requests = []; cancels = false; result = refused }
    else sent_then m' (send takes budget v request) (await_reply m.response_limit kind c [] polled)
