-- ===== src/Bus/Caller/Hearing.antt =====
-- The events that carry the replies of a module process, and what a caller hears of one.
use aimee_module_sandbox.Base.{
  ℕ, ◌+◌, ◌%◌, ◌≤◌, ◌<◌, Bool, false, not, ◌&&◌, ◌||◌, some, List, [], ◌∷◌, ◌≡◌, ◌≢◌, refl, arith,
  sym, ap, ◌∙◌, ltb, ◌==◌, if◌then◌else◌, length, take, drop, bit_and,
}
use aimee_module_sandbox.GoString.{Bytes}
use aimee_module_sandbox.Bus.Message.{
  ModuleMessage, module_message_header_len, max_body, decode_module_message,
}
use aimee_module_sandbox.Bus.Fragments.{Fragment}
use aimee_module_sandbox.Bus.Fragments.Payload.{decode-payload, take-part, length-payload}
use aimee_module_sandbox.Bus.Runtime.{Event, Answer, part_of}
use aimee_module_sandbox.Bus.Runtime.Reply.{Reply, result_message}
use aimee_module_sandbox.Bus.Runtime.Replied.{reply_of, IsAnswer, result_message-IsMessage}
use aimee_module_sandbox.Bus.Caller.{
  Polled, nothing, event, err_capability_absent, err_rejected, err_runtime, err_status, Heard,
  skipped, ended, body_part, hear_result, hear,
}

-- An event that carries a reply: its kind, its correlation, its payload, and whether there is more.
abbrev pub Carries : Reply → Event → Type 0
Carries r e =
    (e.frame.event_kind ≡ r.event_kind)
    × (e.frame.correlation_id ≡ r.correlation_id)
    × (e.payload ≡ r.payload)
    × (not (bit_and e.frame.hdr_flags 128 == 0) ≡ r.more)

-- The replies arrive in their order, with polls between them that bring nothing, before the call is
-- cancelled or late, or events of other correlations.
pub data Arrives (correlation : ℕ) : List Reply → List Polled → Type 0 where
  over : (ps : List Polled) → Arrives correlation [] ps
  pause :
      (rs : List Reply) (ps : List Polled)
      → Arrives correlation rs ps
      → Arrives correlation rs (nothing false false ∷ ps)
  other :
      (e : Event) (rs : List Reply) (ps : List Polled)
      → e.frame.correlation_id ≢ correlation
      → Arrives correlation rs ps
      → Arrives correlation rs (event e ∷ ps)
  reply :
      (r : Reply) (e : Event) (rs : List Reply) (ps : List Polled)
      → Carries r e
      → Arrives correlation rs ps
      → Arrives correlation (r ∷ rs) (event e ∷ ps)

pub hear_other :
    (limit kind correlation : ℕ) (body : Bytes) (e : Event)
    → e.frame.correlation_id ≢ correlation
    → hear limit kind correlation body e ≡ skipped
unfolding hear
hear_other limit kind correlation body e h = skip e.frame.correlation_id e.frame.event_kind h
  where
    skip :
        (c k : ℕ)
        → c ≢ correlation
        → (if c == correlation && k == 4
            then ended err_capability_absent
            else if c == correlation && k == 3
            then ended err_rejected
            else if not (k == kind) || not (c == correlation)
            then skipped
            else hear_result limit body e (decode_module_message e.payload))
          ≡ skipped
    skip c k h = ground arith

-- A kind that is not one of the two that the host answers on.
abbrev pub IsCallKind : ℕ → Type 0
IsCallKind kind = (kind ≢ 3) × (kind ≢ 4)

pub hear_own :
    (limit kind : ℕ) (body : Bytes) (e : Event)
    → IsCallKind kind
    → e.frame.event_kind ≡ kind
    → hear limit kind e.frame.correlation_id body e
      ≡ hear_result limit body e (decode_module_message e.payload)
unfolding hear
hear_own limit kind body e h same = own e.frame.correlation_id e.frame.event_kind h same
  where
    own :
        (c k : ℕ)
        → IsCallKind kind
        → k ≡ kind
        → (if c == c && k == 4
            then ended err_capability_absent
            else if c == c && k == 3
            then ended err_rejected
            else if not (k == kind) || not (c == c)
            then skipped
            else hear_result limit body e (decode_module_message e.payload))
          ≡ hear_result limit body e (decode_module_message e.payload)
    own c k h same = ground arith

pub hear_whole :
    (body : Bytes) (e : Event) (m : ModuleMessage)
    → m.operation ≡ 2
    → length e.payload ≡ module_message_header_len + m.body_len
    → length body + m.body_len ≤ max_body
    → hear_result max_body body e (some m) ≡ (
        if m.status == 0
        then body_part (part_of e m) (not (bit_and e.frame.hdr_flags 128 == 0))
        else ended (err_status m.status))
unfolding hear_result
hear_whole body e m result size fits =
    whole m.operation m.status (length e.payload) m.body_len
      ((length body % 4294967296 + m.body_len) % 4294967296) _ result size (omega arith)
  where
    whole :
        (op st size len sum : ℕ) (x : Heard)
        → op ≡ 2
        → size ≡ module_message_header_len + len
        → sum ≤ max_body
        → (if not (op == 2)
            then skipped
            else if not (st == 0)
            then ended (err_status st)
            else if ltb size (module_message_header_len + len)
            then ended err_runtime
            else if ltb max_body sum
            then ended err_runtime
            else x)
          ≡ (if st == 0 then x else ended (err_status st))
    whole op st size len sum x h k fits = ground arith

-- One reply of an answer, heard behind the parts before it.
pub hear_reply :
    (a : Answer) (f : Fragment) (body : Bytes) (e : Event)
    → IsAnswer a
    → a.trace_id < 18446744073709551616
    → IsCallKind a.event_kind
    → length body + length f.part ≤ max_body
    → Carries (reply_of a f) e
    → hear max_body a.event_kind a.correlation_id body e
      ≡ (if a.status == 0 then body_part f.part f.more else ended (err_status a.status))
hear_reply a f body e legal trace kind fits (same_kind, same_corr, same_payload, same_more) =
    let m = result_message a (length f.part) in
    let known : decode_module_message e.payload ≡ some m =
      ap decode_module_message same_payload
      ∙ decode-payload m f.part
          (result_message-IsMessage a (length f.part) legal (omega (arith, fits)))
          (legal.1, omega arith, trace) (omega arith) in
    let len : length e.payload ≡ module_message_header_len + length f.part =
      ap length same_payload ∙ length-payload m f.part in
    let cut : part_of e m ≡ f.part =
      ap (λ s. take m.body_len (drop module_message_header_len s)) same_payload
      ∙ take-part m f.part (omega arith) in
    ap (λ c. hear max_body a.event_kind c body e) (sym same_corr)
    ∙ hear_own max_body a.event_kind body e kind same_kind
    ∙ ap (hear_result max_body body e) known
    ∙ hear_whole body e m refl (omega (arith, len)) (omega (arith, fits))
    ∙ ap
        (λ (p : Bytes).
          if a.status == 0
          then body_part p (not (bit_and e.frame.hdr_flags 128 == 0))
          else ended (err_status a.status))
        cut
    ∙ ap (λ (b : Bool). if a.status == 0 then body_part f.part b else ended (err_status a.status))
        same_more

pub heard_part :
    (a : Answer) (f : Fragment) (body : Bytes) (e : Event)
    → IsAnswer a
    → a.status ≡ 0
    → a.trace_id < 18446744073709551616
    → IsCallKind a.event_kind
    → length body + length f.part ≤ max_body
    → Carries (reply_of a f) e
    → hear max_body a.event_kind a.correlation_id body e ≡ body_part f.part f.more
heard_part a f body e legal ok trace kind fits carries =
    hear_reply a f body e legal trace kind fits carries ∙ taken a.status ok
  where
    taken :
        (s : ℕ)
        → s ≡ 0
        → (if s == 0 then body_part f.part f.more else ended (err_status s))
          ≡ body_part f.part f.more
    taken s h = ground arith
