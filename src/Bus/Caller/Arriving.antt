-- ===== src/Bus/Caller/Arriving.antt =====
-- The events of one call as they come to a module process, and what they decode to.
use aimee_module_sandbox.Base.{
  ℕ, ◌≤◌, ◌<◌, true, false, not, ◌||◌, Option, none, some, List, [], ◌∷◌, ◌≡◌, ◌≢◌, refl, arith, ap,
  ◌∙◌, ◌⊎◌, ◌==◌, if◌then◌else◌, if_elim, length, bit_and,
}
use mathlib.Core.Path.{ap₂}
use aimee_module_sandbox.Base.Maps.{KeyMap, find}
use aimee_module_sandbox.GoString.{Bytes}
use aimee_module_sandbox.Bus.Message.{ModuleMessage, max_body, decode_module_message}
use aimee_module_sandbox.Bus.Fragments.{Fragment}
use aimee_module_sandbox.Bus.Fragments.Payload.{decode-payload}
use aimee_module_sandbox.Bus.Stages.{ModuleProcessConfig, is_some}
use aimee_module_sandbox.Bus.Runtime.{
  module_max_in_flight, Event, Work, Tables, Action, idle, start, join, bad_invoke, decoded,
  stage_of, handle_event,
}
use aimee_module_sandbox.Bus.Caller.{Request, Invoke, invoke_message}
use aimee_module_sandbox.Bus.Caller.Sending.{request_for, IsInvoke, invoke_message-IsMessage}

-- The events one behind the other, each with the clock that the loop has read before it.
abbrev pub handle_all :
    ModuleProcessConfig → KeyMap ℕ → List (ℕ × Event) → Tables → Tables × List Action
handle_all config stages [] t = (t, [])
handle_all config stages ((now, e) ∷ es) t =
    let first = handle_event config stages now e t in
    let rest = handle_all config stages es first.0 in (rest.0, first.1 ∷ rest.1)

-- An event that carries a request fragment.
abbrev pub Brings : Request → Event → Type 0
Brings r e =
    (bit_and e.frame.hdr_flags 32 ≡ 0)
    × (bit_and e.frame.hdr_flags 8 ≢ 0)
    × (e.frame.event_kind ≡ r.event_kind)
    × (e.frame.correlation_id ≡ r.correlation_id)
    × (e.payload ≡ r.payload)
    × (not (bit_and e.frame.hdr_flags 128 == 0) ≡ r.more)

-- The requests come in their order, each before the deadline.
pub data Comes (deadline : ℕ) : List Request → List (ℕ × Event) → Type 0 where
  none_left : Comes deadline [] []
  one_more :
      (r : Request) (now : ℕ) (e : Event) (rs : List Request) (es : List (ℕ × Event))
      → Brings r e
      → (deadline ≡ 0) ⊎ (now < deadline)
      → Comes deadline rs es
      → Comes deadline (r ∷ rs) ((now, e) ∷ es)

-- The process serves the stage on the kind of the call and has a handler, no job of the
-- correlation, and room for a job.
abbrev pub IsReady : ModuleProcessConfig → KeyMap ℕ → Invoke → Tables → Type 0
IsReady config stages v t =
    (config.has_handler ≡ true)
    × (stage_of stages v.event_kind ≡ v.stage_id)
    × (find v.correlation_id t.jobs ≡ none)
    × (length t.jobs < module_max_in_flight)

-- The job that the call becomes.
abbrev pub work_for : Invoke → Work
work_for v = record {
  event_kind = v.event_kind;
  correlation_id = v.correlation_id;
  stage_id = v.stage_id;
  deadline_ns = v.deadline_ns;
  trace_id = v.trace_id;
  cancelled = false;
}

-- What the loop does on a fragment: nothing where there is more, and else it starts the handler.
abbrev pub action_on : Work → Bytes → Fragment → Action
action_on w body f = if f.more then idle else start w body

-- The event of a fragment is decoded and joined to its assembly.
pub handle_fragment :
    (config : ModuleProcessConfig) (stages : KeyMap ℕ) (now : ℕ) (v : Invoke) (f : Fragment)
    (e : Event) (t : Tables)
    → IsInvoke v
    → length f.part ≤ max_body
    → IsReady config stages v t
    → Brings (request_for v f) e
    → handle_event config stages now e t
      ≡ join config now e v.stage_id
          (invoke_message v (length f.part))
          (find e.frame.correlation_id t.assemblies)
          t
unfolding handle_event decoded
handle_fragment config stages now v f e t h fits (handler, stage, free, room)
      (no_cancel, request, kind, corr, payload, more) =
    let m = invoke_message v (length f.part) in
    let known : decode_module_message e.payload ≡ some m =
      ap decode_module_message payload
      ∙ decode-payload m f.part (invoke_message-IsMessage v (length f.part) h fits) (h.1, h.2, h.3)
          (omega arith) in
    let target = join config now e v.stage_id m (find e.frame.correlation_id t.assemblies) t in
    let absent = ap (λ (c : ℕ). find c t.jobs) corr ∙ free in
    if_elim (λ r. r ≡ target) (not (bit_and e.frame.hdr_flags 32 == 0))
      (λ b. absurd (not_set (bit_and e.frame.hdr_flags 32) no_cancel b))
      λ c.
        if_elim (λ r. r ≡ target) (bit_and e.frame.hdr_flags 8 == 0)
          (λ b. absurd (request (is_zero (bit_and e.frame.hdr_flags 8) b)))
          λ r.
            ap₂ (λ (s : ℕ) (o : Option ModuleMessage). decoded config now e s o t)
              (ap (stage_of stages) kind ∙ stage) known
            ∙ if_elim (λ r. r ≡ target) (bad_invoke e v.stage_id m t)
                (λ bad. absurd (fine absent bad)) (λ good. refl)
  where
    not_set : (n : ℕ) → n ≡ 0 → not (n == 0) ≡ true → ⊥
    not_set n e b = ground arith

    is_zero : (n : ℕ) → (n == 0) ≡ true → n ≡ 0
    is_zero n e = ground arith

    fine :
        find e.frame.correlation_id t.jobs ≡ none
        → bad_invoke e v.stage_id (invoke_message v (length f.part)) t ≡ true
        → ⊥
    fine absent =
        unfold bad_invoke in legal v.stage_id (find e.frame.correlation_id t.jobs) h.0 absent
      where
        legal :
            (s : ℕ) (o : Option Work)
            → s ≢ 0
            → o ≡ none
            → (s == 0 || false || not (s == s) || is_some o) ≡ true
            → ⊥
        legal s none k e b = ground arith
        legal s (some w) k e b = absurd (cc e)
