-- ===== src/Bus/Caller/Sending.antt =====
-- What `send` has sent when it returns without an error.
use aimee_module_sandbox.Base.{
  ℕ, ◌+◌, ◌-◌, ◌≤◌, ◌<◌, Bool, true, false, List, [], ◌∷◌, ◌++◌, map, ◌≡◌, ◌≢◌, refl, arith, sym,
  ap, ◌∙◌, inl, leb, if◌then◌else◌, if_elim, length, length-append, length-drop, drop,
}
use mathlib.Core.List.{append_assoc}
use aimee_module_sandbox.GoString.{Bytes}
use aimee_module_sandbox.Bus.Memory.{write_at, length-write_at}
use aimee_module_sandbox.Bus.Message.{
  ModuleMessage, module_message_header_len, max_body, message_header,
}
use aimee_module_sandbox.Bus.Message.Guards.{IsMessage, encode_accepted}
use aimee_module_sandbox.Bus.Fragments.{
  Fragment, fragments, zeros, length-zeros, Cut, last, more_of, fragments-Cut,
}
use aimee_module_sandbox.Bus.Fragments.Payload.{written_message, take_payload, length-payload}
use aimee_module_sandbox.Bus.Caller.{
  Request, Invoke, Sent, sent, err_message, err_bus, invoke_message, request_of, on_frame,
  send_fragments, send,
}

-- The call of `RequestFragment` for one fragment.
abbrev pub request_for : Invoke → Fragment → Request
request_for v f = record {
  event_kind = v.event_kind;
  correlation_id = v.correlation_id;
  payload = message_header (invoke_message v (length f.part)) ++ f.part;
  more = f.more;
}

-- The stage, the deadline and the trace are in the range of their types, and there is a stage.
abbrev pub IsInvoke : Invoke → Type 0
IsInvoke v =
    (v.stage_id ≢ 0)
    × (v.stage_id < 4294967296)
    × (v.deadline_ns < 18446744073709551616)
    × (v.trace_id < 18446744073709551616)

pub invoke_message-IsMessage :
    (v : Invoke) (n : ℕ) → IsInvoke v → n ≤ max_body → IsMessage (invoke_message v n)
invoke_message-IsMessage v n h k = (inl (refl, refl), h.0, refl, omega arith)

-- One pass of the loop that is not left.
pass_sent :
    (takes : ℕ → Bool) (v : Invoke) (f : Fragment) (fs : List Fragment) (frame : Bytes)
    (done : List Request) {rs : List Request}
    → IsInvoke v
    → length f.part ≤ max_body
    → module_message_header_len + length f.part ≤ length frame
    → send_fragments takes v (f ∷ fs) frame done ≡ (sent, rs)
    → (next : Bytes) × (length next ≡ length frame)
      × (send_fragments takes v fs next (done ++ request_for v f ∷ []) ≡ (sent, rs))
unfolding send_fragments
pass_sent takes v f fs frame done {rs} h fits room e =
    if_elim Goal (takes (length done))
      (λ yes q.
        (next, size, ap (λ r. send_fragments takes v fs next (done ++ r ∷ [])) (sym same) ∙ q))
      (λ no q. absurd (cc (ap (λ p. p.0) q))) written
  where
    m : ModuleMessage
    m = invoke_message v (length f.part)

    next : Bytes
    next = write_at (written_message m frame) module_message_header_len f.part

    Goal : Sent × List Request → Type 0
    Goal o =
        o ≡ (sent, rs)
        → (n : Bytes) × (length n ≡ length frame)
          × (send_fragments takes v fs n (done ++ request_for v f ∷ []) ≡ (sent, rs))

    written :
        (if takes (length done)
          then send_fragments takes v fs next
              (done ++ request_of v f (module_message_header_len, written_message m frame) ∷ [])
          else (err_bus, done))
        ≡ (sent, rs)
    written =
        unfold send_fragments in
        (ap
            (λ o.
              on_frame o (err_message, done)
                (λ w.
                  if takes (length done)
                  then send_fragments takes v fs (write_at w.1 w.0 f.part)
                      (done ++ request_of v f w ∷ [])
                  else (err_bus, done)))
            (sym (
              encode_accepted m frame (invoke_message-IsMessage v (length f.part) h fits)
                (omega (arith, room))))
          ∙ e)

    same : request_of v f (module_message_header_len, written_message m frame) ≡ request_for v f
    same = λ i. record {
      event_kind = v.event_kind;
      correlation_id = v.correlation_id;
      payload = take_payload m frame f.part room i;
      more = f.more;
    }

    size : length next ≡ length frame
    size = omega (
      arith,
      room,
      length-write_at (written_message m frame) module_message_header_len f.part,
      length-payload m (drop module_message_header_len frame),
      length-drop module_message_header_len frame,
    )

send_fragments-sent :
    (takes : ℕ → Bool) (v : Invoke) {chunk : ℕ} {body : Bytes} {fs : List Fragment} (frame : Bytes)
    (done : List Request) {rs : List Request}
    → IsInvoke v
    → Cut chunk body fs
    → length body ≤ max_body
    → module_message_header_len + chunk ≤ length frame
    → send_fragments takes v fs frame done ≡ (sent, rs)
    → rs ≡ done ++ map (request_for v) fs
unfolding send_fragments
send_fragments-sent takes v frame done h (last rest len) fits room e =
    let (next, size, end) = pass_sent takes v _ [] frame done h fits (omega (arith, room)) e in
    sym (ap (λ p. p.1) end)
send_fragments-sent takes v frame done h (more_of part rest fs len pos cut) fits room e =
    let whole = length-append part rest in
    let f : Fragment = record { part = part; more = true } in
    let (next, size, later) =
      pass_sent takes v f fs frame done h (omega (arith, whole, fits)) (omega (arith, len, room))
        e in
    send_fragments-sent takes v next (done ++ request_for v f ∷ []) h cut
      (omega (arith, whole, fits)) (omega (arith, size, room)) later
    ∙ append_assoc done (request_for v f ∷ []) (map (request_for v) fs)

pub send-requests :
    (takes : ℕ → Bool) (budget : ℕ) (v : Invoke) (request : Bytes) {rs : List Request}
    → IsInvoke v
    → length request ≤ max_body
    → send takes budget v request ≡ (sent, rs)
    → (module_message_header_len < budget)
      × (rs ≡ map (request_for v) (fragments (budget - module_message_header_len) request))
unfolding send
send-requests takes budget v request {rs} h fits =
    if_elim Goal (leb budget module_message_header_len) (λ small e. absurd (cc (ap (λ p. p.0) e)))
      λ large e.
        let room = above budget large in
        (
          room,
          send_fragments-sent takes v (zeros budget) [] h
              (fragments-Cut (budget - module_message_header_len) request (omega (arith, room)))
              fits (omega (arith, room, length-zeros budget)) e,
        )
  where
    Goal : Sent × List Request → Type 0
    Goal o =
        o ≡ (sent, rs)
        → (module_message_header_len < budget)
          × (rs ≡ map (request_for v) (fragments (budget - module_message_header_len) request))

    above : (n : ℕ) → leb n module_message_header_len ≡ false → module_message_header_len < n
    above n e = ground arith
