-- ===== src/Bus/Runtime/Reply.antt =====
-- `replyModuleResult` of server-go/bus/module_runtime.go. What the client answers is a script: one
-- entry for each call of `ReplyFragment`, with what the loop meets before it tries again.
use aimee_module_sandbox.Base.{
  ℕ, ◌+◌, ◌-◌, ◌%◌, Bool, true, false, Option, none, some, List, [], ◌∷◌, ◌++◌, leb, ◌==◌,
  if◌then◌else◌, length,
}
use aimee_module_sandbox.GoString.{Bytes}
use aimee_module_sandbox.Bus.Memory.{write_at}
use aimee_module_sandbox.Bus.Message.{ModuleMessage, module_message_header_len, encode_message}
use aimee_module_sandbox.Bus.Fragments.{Fragment, fragments, zeros}
use aimee_module_sandbox.Bus.Runtime.{Answer, checked_result}

-- A call of `ReplyFragment` is taken, or fails, or finds the ring full: then the context is done, or
-- the epoch has changed, or the clock is read for a heartbeat (0 where it cannot be read).
pub data Attempt : Type 0 where
  taken : Attempt
  failed : Attempt
  full : Bool → Bool → ℕ → Attempt

-- The arguments of `ReplyFragment`.
pub record Reply : Type 0 where
  pub event_kind : ℕ
  pub correlation_id : ℕ
  pub payload : Bytes
  pub more : Bool

pub record Link : Type 0 where
  pub attempts : List Attempt
  pub replies : List Reply
  pub beats : List ℕ

-- The call has returned with or without an error, or the script ends while it waits.
pub data Outcome : Type 0 where
  replied err_module_runtime err_message err_bus err_context err_epoch waiting : Outcome

abbrev pub beat : ℕ → List ℕ → List ℕ
beat now beats = if now == 0 then beats else beats ++ now ∷ []

-- The inner loop.
unfoldable pub reply_fragment : Reply → List Attempt → List Reply → List ℕ → Outcome × Link
reply_fragment r [] replies beats =
    (waiting, record { attempts = []; replies = replies; beats = beats })
reply_fragment r (taken ∷ script) replies beats =
    (replied, record { attempts = script; replies = replies ++ r ∷ []; beats = beats })
reply_fragment r (failed ∷ script) replies beats =
    (err_bus, record { attempts = script; replies = replies; beats = beats })
reply_fragment r (full true changed now ∷ script) replies beats =
    (err_context, record { attempts = script; replies = replies; beats = beats })
reply_fragment r (full false true now ∷ script) replies beats =
    (err_epoch, record { attempts = script; replies = replies; beats = beats })
reply_fragment r (full false false now ∷ script) replies beats =
    reply_fragment r script replies (beat now beats)

-- The rest of a function behind a call that may fail.
abbrev pub behind : Outcome × Link → (Link → Outcome × Link) → Outcome × Link
behind (replied, l) rest = rest l
behind (err_module_runtime, l) rest = (err_module_runtime, l)
behind (err_message, l) rest = (err_message, l)
behind (err_bus, l) rest = (err_bus, l)
behind (err_context, l) rest = (err_context, l)
behind (err_epoch, l) rest = (err_epoch, l)
behind (waiting, l) rest = (waiting, l)

abbrev pub result_message : Answer → ℕ → ModuleMessage
result_message a len = record {
  operation = 2;
  status = a.status;
  stage_id = a.stage_id;
  flags = 0;
  body_len = len % 4294967296;
  deadline_ns = 0;
  trace_id = a.trace_id;
}

-- The part copied behind the header.
abbrev pub copied : Bytes → Option (ℕ × Bytes) → Option Bytes
copied part none = none
copied part (some (written, payload)) = some (write_at payload module_message_header_len part)

-- The payload of one fragment, or none where the message is not encoded.
unfoldable pub result_payload : Answer → Bytes → Option Bytes
result_payload a part = copied part (
    encode_message (result_message a (length part))
      (zeros (module_message_header_len + length part)))

abbrev pub try_reply : Answer → Bool → Option Bytes → Link → Outcome × Link
try_reply a more none l = (err_message, l)
try_reply a more (some payload) l =
    reply_fragment
      (record {
        event_kind = a.event_kind;
        correlation_id = a.correlation_id;
        payload = payload;
        more = more;
      })
      l.attempts l.replies l.beats

-- The outer loop, over the fragments of the body.
unfoldable pub reply_fragments : Answer → List Fragment → Link → Outcome × Link
reply_fragments a [] l = (replied, l)
reply_fragments a (f ∷ fs) l =
    behind (try_reply a f.more (result_payload a f.part) l) (λ l'. reply_fragments a fs l')

-- `replyModuleResult`, with the inline budget of the client.
unfoldable pub reply_module_result : ℕ → Answer → Link → Outcome × Link
reply_module_result budget a l =
    let (status, body) = checked_result a.status a.body in
    let checked : Answer = record a { status = status; body = body } in
    if leb budget module_message_header_len
    then (err_module_runtime, l)
    else reply_fragments checked (fragments (budget - module_message_header_len) body) l
