-- ===== src/Bus/Runtime.antt =====
-- The module process of server-go/bus/module_runtime.go: its state, and what it
-- does with one event and with the result of a handler. The goroutines of the handlers run beside
-- it; Bus/Runtime/Serving.antt has their interleaving.

pub mod Reply
pub mod Moves
pub mod Serving
pub mod Limits
pub mod Drained
pub mod Checked
pub mod Replied
pub mod Granted
use aimee_module_sandbox.Base.{
  ℕ, zero, suc, ◌+◌, ◌-◌, ◌%◌, Bool, true, false, not, ◌&&◌, ◌||◌, Option, none, some, List, [],
  ◌∷◌, ◌++◌, ltb, leb, ◌==◌, if◌then◌else◌, length, take, drop, bit_and,
}
use aimee_module_sandbox.Base.Maps.{KeyMap, find, put, remove, change}
use aimee_module_sandbox.GoString.{Bytes}
use aimee_module_sandbox.Bus.Wire.{Frame}
use aimee_module_sandbox.Bus.Message.{
  ModuleMessage, module_message_header_len, max_body, decode_module_message, deadline_expired,
}
use aimee_module_sandbox.Bus.Stages.{ModuleProcessConfig, is_some}

abbrev pub module_max_in_flight : ℕ
module_max_in_flight = 16

pub record Event : Type 0 where
  pub frame : Frame
  pub payload : Bytes

-- `moduleAssembly`
pub record Assembly : Type 0 where
  pub event_kind : ℕ
  pub message : ModuleMessage
  pub body : Bytes

-- `moduleWork` with its invocation, and the flag that both point to.
pub record Work : Type 0 where
  pub event_kind : ℕ
  pub correlation_id : ℕ
  pub stage_id : ℕ
  pub deadline_ns : ℕ
  pub trace_id : ℕ
  pub cancelled : Bool

-- `moduleResult`
pub record ModuleResult : Type 0 where
  pub work : Work
  pub body : Bytes
  pub status : ℕ

-- The arguments of `replyModuleResult`.
pub record Answer : Type 0 where
  pub event_kind : ℕ
  pub correlation_id : ℕ
  pub stage_id : ℕ
  pub trace_id : ℕ
  pub status : ℕ
  pub body : Bytes

-- The test of a status and a body with which `runHandler` and `replyModuleResult` begin: only the
-- status 0 keeps its body.
unfoldable pub checked_result : ℕ → Bytes → ℕ × Bytes
checked_result status body =
    if ltb 5 status || ltb max_body (length body)
    then (5, [])
    else if not (status == 0)
    then (status, [])
    else (status, body)

-- `runHandler`, with what the handler returned and the clock behind it, which is 0 where it cannot
-- be read.
unfoldable pub run_handler : Work → Bytes → ℕ → ℕ → ModuleResult
run_handler work response status now =
    let (s, b) = checked_result status response in
    if work.cancelled
    then record { work = work; body = []; status = 2 }
    else if not (work.deadline_ns == 0) && (not (now == 0) && leb work.deadline_ns now)
    then record { work = work; body = []; status = 3 }
    else record { work = work; body = b; status = s }

-- The two maps of `runModuleClient`.
pub record Tables : Type 0 where
  pub assemblies : KeyMap Assembly
  pub jobs : KeyMap Work

-- What the loop does behind an event: nothing, a call of `replyModuleResult`, or a handler started
-- with the body of the request.
pub data Action : Type 0 where
  idle : Action
  answer : Answer → Action
  start : Work → Bytes → Action

-- An answer without a body.
abbrev pub bare : Event → ℕ → ℕ → ℕ → Answer
bare e stage trace status = record {
  event_kind = e.frame.event_kind;
  correlation_id = e.frame.correlation_id;
  stage_id = stage;
  trace_id = trace;
  status = status;
  body = [];
}

abbrev pub drop_assembly : ℕ → Tables → Tables
drop_assembly c t = record { assemblies = remove c t.assemblies; jobs = t.jobs }

-- `invalidModuleRequest`, with the deletion in front of it.
unfoldable pub refuse : Event → ℕ → Tables → Tables × Action
refuse e stage t =
    (drop_assembly e.frame.correlation_id t, answer (bare e (if stage == 0 then 1 else stage) 0 4))

-- The event with `FCancel`.
unfoldable pub cancel : ℕ → Tables → Tables
cancel c t = record {
  assemblies = remove c t.assemblies;
  jobs = change (λ (w : Work). record w { cancelled = true }) c t.jobs;
}

-- The whole request is there.
unfoldable pub launch :
    ModuleProcessConfig → ℕ → Event → ℕ → ModuleMessage → Bytes → Tables → Tables × Action
launch config now e stage m body t =
    let c = e.frame.correlation_id in
    let work : Work = record {
      event_kind = e.frame.event_kind;
      correlation_id = c;
      stage_id = stage;
      deadline_ns = m.deadline_ns;
      trace_id = m.trace_id;
      cancelled = false;
    } in
    if deadline_expired m now
    then (t, answer (bare e stage m.trace_id 3))
    else if not config.has_handler
    then (t, answer (bare e stage m.trace_id 1))
    else if leb module_max_in_flight (length t.jobs)
    then (t, answer (bare e stage m.trace_id 5))
    else (record { assemblies = t.assemblies; jobs = put c work t.jobs }, start work body)

-- The bytes of a request that one event brings.
abbrev pub part_of : Event → ModuleMessage → Bytes
part_of e m = take m.body_len (drop module_message_header_len e.payload)

-- The fragment joins its assembly, which stands in the table.
unfoldable pub gather :
    ModuleProcessConfig → ℕ → Event → ℕ → ModuleMessage → Assembly → Tables → Tables × Action
gather config now e stage m a t =
    let c = e.frame.correlation_id in
    let body = a.body ++ part_of e m in
    if ltb max_body (length a.body + length (part_of e m))
    then (drop_assembly c t, answer (bare e stage m.trace_id 5))
    else if not (bit_and e.frame.hdr_flags 128 == 0)
    then (
      record { assemblies = put c (record a { body = body }) t.assemblies; jobs = t.jobs },
      idle,
    )
    else launch config now e stage m body (drop_assembly c t)

unfoldable pub open_assembly :
    ModuleProcessConfig → ℕ → Event → ℕ → ModuleMessage → Tables → Tables × Action
open_assembly config now e stage m t =
    let a : Assembly = record { event_kind = e.frame.event_kind; message = m; body = [] } in
    if leb module_max_in_flight (length t.assemblies)
    then (t, answer (bare e stage m.trace_id 5))
    else gather config now e stage m a
        (record { assemblies = put e.frame.correlation_id a t.assemblies; jobs = t.jobs })

-- The fragment does not belong to the assembly.
unfoldable pub mismatch : Event → ModuleMessage → Assembly → Bool
mismatch e m a =
    not (a.event_kind == e.frame.event_kind)
    || not (a.message.stage_id == m.stage_id)
    || not (a.message.deadline_ns == m.deadline_ns)
    || not (a.message.trace_id == m.trace_id)

unfoldable pub join :
    ModuleProcessConfig → ℕ → Event → ℕ → ModuleMessage → Option Assembly → Tables → Tables × Action
join config now e stage m none t = open_assembly config now e stage m t
join config now e stage m (some a) t =
    if mismatch e m a then refuse e stage t else gather config now e stage m a t

-- The message is not an invocation of the stage, or its correlation is being worked on.
unfoldable pub bad_invoke : Event → ℕ → ModuleMessage → Tables → Bool
bad_invoke e stage m t =
    stage == 0
    || not (m.operation == 1)
    || not (m.stage_id == stage)
    || is_some (find e.frame.correlation_id t.jobs)

unfoldable pub decoded :
    ModuleProcessConfig → ℕ → Event → ℕ → Option ModuleMessage → Tables → Tables × Action
decoded config now e stage none t = refuse e stage t
decoded config now e stage (some m) t =
    if bad_invoke e stage m t
    then refuse e stage t
    else join config now e stage m (find e.frame.correlation_id t.assemblies) t

abbrev pub stage_of : KeyMap ℕ → ℕ → ℕ
stage_of stages kind = elim (find kind stages) [ none ↦ 0 | some s ↦ s ]

-- What the loop does with an event that `Poll` returned, `now` being the clock it read before.
unfoldable pub handle_event : ModuleProcessConfig → KeyMap ℕ → ℕ → Event → Tables → Tables × Action
handle_event config stages now e t =
    if not (bit_and e.frame.hdr_flags 32 == 0)
    then (cancel e.frame.correlation_id t, idle)
    else if bit_and e.frame.hdr_flags 8 == 0
    then (t, idle)
    else decoded config now e (stage_of stages e.frame.event_kind) (decode_module_message e.payload)
        t

-- `finishModuleWork`: the job leaves the table, and its result is the answer.
unfoldable pub finish_module_work : ModuleResult → Tables → Tables × Answer
finish_module_work r t = (
  record { assemblies = t.assemblies; jobs = remove r.work.correlation_id t.jobs },
  record {
    event_kind = r.work.event_kind;
    correlation_id = r.work.correlation_id;
    stage_id = r.work.stage_id;
    trace_id = r.work.trace_id;
    status = r.status;
    body = r.body;
  },
)
