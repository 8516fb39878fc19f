-- ===== src/Samples/Modules.antt =====
-- The theorems on modules and their callers at a request and an answer of three bytes, in fragments
-- of two.
use aimee_module_sandbox.Base.{
  ℕ, ◌+◌, ◌-◌, ◌≤◌, true, false, none, some, List, [], ◌∷◌, ◌++◌, map, ◌≡◌, inr, refl, arith,
  length,
}
use aimee_module_sandbox.Base.Maps.{KeyMap, find, put, remove, keys, occurs}
use aimee_module_sandbox.GoString.{Bytes}
use aimee_module_sandbox.Bus.Memory.{write_at}
use aimee_module_sandbox.Bus.Wire.{Frame}
use aimee_module_sandbox.Bus.Message.{
  module_message_header_len, max_body, valid, message_header, encode_message, read_message,
  checked_message, decode_module_message, deadline_expired,
}
use aimee_module_sandbox.Bus.Fragments.{fragments, fragments_from}
use aimee_module_sandbox.Bus.Stages.{ModuleProcessConfig}
use aimee_module_sandbox.Bus.Runtime.{
  module_max_in_flight, Event, Answer, ModuleResult, Tables, checked_result, stage_of, handle_event,
  decoded, join, bad_invoke, open_assembly, gather, launch,
}
use aimee_module_sandbox.Bus.Runtime.Checked.{whole}
use aimee_module_sandbox.Bus.Runtime.Reply.{
  taken, full, Reply, Link, replied, reply_module_result, reply_fragments, reply_fragment,
  result_payload,
}
use aimee_module_sandbox.Bus.Runtime.Moves.{IsBounded}
use aimee_module_sandbox.Bus.Runtime.Serving.{Serving, fresh_process, polled, Reach, here, next}
use aimee_module_sandbox.Bus.Runtime.Limits.{serving_within_limits}
use aimee_module_sandbox.Bus.Runtime.Granted.{
  Grants, enough, waits, takes, Sends, reply_module_result-returns,
}
use aimee_module_sandbox.Bus.Runtime.Drained.{cancel_all, drain, drain_ends}
use aimee_module_sandbox.Bus.Runtime.Replied.{reply_of}
use aimee_module_sandbox.Bus.Caller.{
  Request, Invoke, sent, send, send_fragments, Polled, nothing, event, await_reply,
}
use aimee_module_sandbox.Bus.Caller.Hearing.{Arrives, over, pause, other, reply}
use aimee_module_sandbox.Bus.Caller.Answered.{Delivers, await_reply-reply_module_result}
use aimee_module_sandbox.Bus.Caller.Sending.{request_for}
use aimee_module_sandbox.Bus.Caller.Arriving.{
  work_for, action_on, Comes, none_left, one_more, handle_all,
}
use aimee_module_sandbox.Bus.Caller.Served.{handle_all-send}

abbrev config : ModuleProcessConfig
config = record {
  socket_path = b'/' ∷ [];
  module_name = b'm' ∷ [];
  principal_class = 1;
  principal_ref = 1;
  stages = record { event_kind = 20; stage_id = 1 } ∷ [];
  has_handler = true;
}

abbrev stages : KeyMap ℕ
stages = (20, 1) ∷ []

abbrev frame : ℕ → ℕ → ℕ → Frame
frame flags correlation len = record {
  hdr_flags = flags;
  wire_version = 3;
  event_kind = 20;
  principal_ref = 0;
  correlation_id = correlation;
  seq = 0;
  logical_ts = 0;
  payload_ref = 64;
  payload_len = len;
  src_handle = 0;
  dst_handle = 0;
  generation = 0;
}

abbrev invoke : Invoke
invoke = record {
  event_kind = 20;
  stage_id = 1;
  trace_id = 5;
  correlation_id = 7;
  deadline_ns = 9000;
}

abbrev request : Bytes
request = 1 ∷ 2 ∷ 3 ∷ []

abbrev first : Request
first = request_for invoke (record { part = 1 ∷ 2 ∷ []; more = true })

abbrev second : Request
second = request_for invoke (record { part = 3 ∷ []; more = false })

abbrev empty_tables : Tables
empty_tables = record { assemblies = []; jobs = [] }

abbrev events : List (ℕ × Event)
events =
    (100, record { frame = frame 137 7 42; payload = first.payload })
    ∷ (200, record { frame = frame 9 7 41; payload = second.payload })
    ∷ []

request_sent : send (λ n. true) 42 invoke request ≡ (sent, first ∷ second ∷ [])
unfolding send send_fragments encode_message valid message_header write_at fragments fragments_from
request_sent = refl

events-Comes : Comes 9000 (first ∷ second ∷ []) events
events-Comes =
    one_more first 100 _ (second ∷ []) _ (refl, grind arith, refl, refl, refl, refl)
      (inr (omega arith))
      (one_more second 200 _ [] [] (refl, grind arith, refl, refl, refl, refl) (inr (omega arith))
        none_left)

stage_served : stage_of stages 20 ≡ 1
unfolding find
stage_served = refl

no_job : find 7 empty_tables.jobs ≡ none
unfolding find
no_job = refl

no_assembly : find 7 empty_tables.assemblies ≡ none
unfolding find
no_assembly = refl

handle_all-send_example :
    ((handle_all config stages events empty_tables).0.jobs ≡ put 7 (work_for invoke) [])
    × ((handle_all config stages events empty_tables).1
        ≡ map
            (action_on (work_for invoke) request)
            (fragments (42 - module_message_header_len) request))
handle_all-send_example =
    handle_all-send (λ n. true) 42 invoke request config stages empty_tables events
      (grind arith, omega arith, omega arith, omega arith) (omega arith) request_sent
      (refl, stage_served, no_job, omega arith) no_assembly (omega arith) events-Comes

-- The answer, with the ring full once.
abbrev answer : Answer
answer = record {
  event_kind = 20;
  correlation_id = 7;
  stage_id = 1;
  trace_id = 5;
  status = 0;
  body = request;
}

abbrev link : Link
link = record { attempts = full false false 77 ∷ taken ∷ taken ∷ []; replies = []; beats = [] }

abbrev first_reply : Reply
first_reply = reply_of answer (record { part = 1 ∷ 2 ∷ []; more = true })

abbrev second_reply : Reply
second_reply = reply_of answer (record { part = 3 ∷ []; more = false })

abbrev link_behind : Link
link_behind = record { attempts = []; replies = first_reply ∷ second_reply ∷ []; beats = 77 ∷ [] }

answer_sent : reply_module_result 42 answer link ≡ (replied, link_behind)
unfolding reply_module_result checked_result reply_fragments reply_fragment result_payload
    encode_message valid message_header write_at fragments fragments_from
answer_sent = refl

abbrev polls : List Polled
polls =
    nothing false false
    ∷ event (record { frame = frame 17 8 0; payload = [] })
    ∷ event (record { frame = frame 145 7 42; payload = first_reply.payload })
    ∷ event (record { frame = frame 17 7 41; payload = second_reply.payload })
    ∷ []

polls-Arrives : Arrives 7 (first_reply ∷ second_reply ∷ []) polls
polls-Arrives = pause _ _ (
    other _ _ _ (omega arith)
      (reply _ _ _ _ (refl, refl, refl, refl) (reply _ _ _ _ (refl, refl, refl, refl) (over []))))

await_reply-reply_module_result_example : Delivers 0 request (await_reply max_body 20 7 [] polls)
await_reply-reply_module_result_example =
    await_reply-reply_module_result 42 answer link polls refl (omega arith) (omega arith)
      (omega arith) (omega arith, omega arith) answer_sent polls-Arrives

-- A request of one fragment, which starts a job.
abbrev busy : Serving
busy = record {
  tables = record { assemblies = []; jobs = (7, work_for invoke) ∷ [] };
  running = 7 ∷ [];
  done = [];
  begun = 7 ∷ [];
  finished = [];
}

busy-Reach : Reach config stages busy
unfolding handle_event decode_module_message checked_message read_message valid message_header
    decoded bad_invoke find join open_assembly gather remove launch deadline_expired
busy-Reach =
    next here (polled fresh_process 100 (record { frame = frame 9 7 41; payload = second.payload }))

serving_within_limits_example :
    IsBounded busy.tables.assemblies
    × (length busy.tables.jobs ≤ module_max_in_flight)
    × (length busy.running + length busy.done ≡ length busy.tables.jobs)
    × ((c : ℕ) → occurs c busy.begun ≡ occurs c (keys busy.tables.jobs) + occurs c busy.finished)
serving_within_limits_example = serving_within_limits busy-Reach

abbrev late_result : ModuleResult
late_result = record { work = work_for invoke; body = []; status = 2 }

drain_ends_example : drain (cancel_all busy.tables.jobs) (busy.done ++ late_result ∷ []) ≡ some []
drain_ends_example = drain_ends (late_result ∷ []) busy-Reach (λ c. refl) refl

link-Grants : Grants (length (fragments (42 - module_message_header_len) request)) link.attempts
unfolding fragments fragments_from
link-Grants = waits 2 77 _ (takes 1 _ (takes 0 _ (enough [])))

reply_module_result-returns_example : Sends 42 answer link 0 request
reply_module_result-returns_example =
    reply_module_result-returns 42 answer link 0 request (omega arith) (omega arith) (omega arith)
      (whole request (omega arith)) link-Grants
