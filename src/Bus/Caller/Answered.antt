-- ===== src/Bus/Caller/Answered.antt =====
-- What a caller receives of the replies of a module process.
use aimee_module_sandbox.Base.{
  ℕ, ◌+◌, ◌-◌, ◌≤◌, ◌<◌, Bool, true, false, not, ◌||◌, List, [], ◌∷◌, ◌++◌, map, ◌≡◌, ◌≢◌, refl,
  arith, sym, ap, ◌∙◌, ◌⊎◌, ltb, ◌==◌, if◌then◌else◌, if_elim, length, length-append,
}
use mathlib.Core.List.{append_assoc, head-eq_of_cons-eq, tail-eq_of_cons-eq}
use mathlib.Core.Path.{subst}
use aimee_module_sandbox.GoString.{Bytes}
use aimee_module_sandbox.Bus.Message.{module_message_header_len, max_body}
use aimee_module_sandbox.Bus.Fragments.{
  Fragment, fragments, Cut, last, more_of, fragments-Cut, fragments-nil,
}
use aimee_module_sandbox.Bus.Runtime.{Answer, checked_result}
use aimee_module_sandbox.Bus.Runtime.Checked.{Fits, whole, failing, unfit, checked_result-Fits}
use aimee_module_sandbox.Bus.Runtime.Reply.{Reply, Link, replied, reply_module_result}
use aimee_module_sandbox.Bus.Runtime.Replied.{
  reply_of, IsAnswer, checked_answer, checked_result-IsAnswer, reply_module_result-replies,
}
use aimee_module_sandbox.Bus.Caller.{
  Polled, Awaited, received, err_status, ended, body_part, listen, await_reply,
}
use aimee_module_sandbox.Bus.Caller.Hearing.{
  Arrives, Carries, IsCallKind, hear_other, hear_reply, heard_part, over, pause, other, reply,
}

-- The wait for the replies that begins behind a part of the body.
await_parts :
    (a : Answer) {chunk : ℕ} {rest : Bytes} {fs : List Fragment} (body : Bytes) {rs : List Reply}
    {ps : List Polled}
    → IsAnswer a
    → a.status ≡ 0
    → a.trace_id < 18446744073709551616
    → IsCallKind a.event_kind
    → length body + length rest ≤ max_body
    → Cut chunk rest fs
    → rs ≡ map (reply_of a) fs
    → Arrives a.correlation_id rs ps
    → await_reply max_body a.event_kind a.correlation_id body ps ≡ received (body ++ rest)
unfolding await_reply
await_parts a body legal ok trace kind fits (last rest len) e (over ps) = absurd (cc e)
await_parts a body legal ok trace kind fits (more_of part rest fs len pos cut) e (over ps) =
    absurd (cc e)
await_parts a body legal ok trace kind fits cut e (pause rs ps later) =
    await_parts a body legal ok trace kind fits cut e later
await_parts a body legal ok trace kind fits cut e (other ev rs ps ne later) =
    ap (λ h. listen h body (λ b. await_reply max_body a.event_kind a.correlation_id b ps))
      (hear_other max_body a.event_kind a.correlation_id body ev ne)
    ∙ await_parts a body legal ok trace kind fits cut e later
await_parts a body legal ok trace kind fits (last rest len) e (reply r ev rs ps carries later) =
    ap (λ h. listen h body (λ b. await_reply max_body a.event_kind a.correlation_id b ps))
      (heard_part a _ body ev legal ok trace kind fits
        (subst (λ x. Carries x ev) (head-eq_of_cons-eq e) carries))
await_parts a body legal ok trace kind fits (more_of part rest fs len pos cut) e
      (reply r ev rs ps carries later) =
    let size = length-append part rest in
    ap (λ h. listen h body (λ b. await_reply max_body a.event_kind a.correlation_id b ps))
      (heard_part a (record { part = part; more = true }) body ev legal ok trace kind
        (omega (arith, size, fits)) (subst (λ x. Carries x ev) (head-eq_of_cons-eq e) carries))
    ∙ await_parts a (body ++ part) legal ok trace kind
        (omega (arith, size, fits, length-append body part)) cut (tail-eq_of_cons-eq e) later
    ∙ ap received (append_assoc body part rest)

-- An answer of another status, which has no body.
await_status :
    (a : Answer) (more : Bool) {rs : List Reply} {ps : List Polled}
    → IsAnswer a
    → a.status ≢ 0
    → a.trace_id < 18446744073709551616
    → IsCallKind a.event_kind
    → rs ≡ reply_of a (record { part = []; more = more }) ∷ []
    → Arrives a.correlation_id rs ps
    → await_reply max_body a.event_kind a.correlation_id [] ps ≡ err_status a.status
unfolding await_reply
await_status a more legal bad trace kind e (over ps) = absurd (cc e)
await_status a more legal bad trace kind e (pause rs ps later) =
    await_status a more legal bad trace kind e later
await_status a more legal bad trace kind e (other ev rs ps ne later) =
    ap (λ h. listen h [] (λ b. await_reply max_body a.event_kind a.correlation_id b ps))
      (hear_other max_body a.event_kind a.correlation_id [] ev ne)
    ∙ await_status a more legal bad trace kind e later
await_status a more legal bad trace kind e (reply r ev rs ps carries later) =
    ap (λ h. listen h [] (λ b. await_reply max_body a.event_kind a.correlation_id b ps))
      (hear_reply a (record { part = []; more = more }) [] ev legal trace kind (omega arith)
          (subst (λ x. Carries x ev) (head-eq_of_cons-eq e) carries)
        ∙ refused a.status bad)
  where
    refused :
        (s : ℕ)
        → s ≢ 0
        → (if s == 0 then body_part [] more else ended (err_status s)) ≡ ended (err_status s)
    refused s h = ground arith

-- What a caller makes of the status and the body of an answer.
abbrev outcome_of : ℕ × Bytes → Awaited
outcome_of (status, body) = if status == 0 then received body else err_status status

-- What the caller of an answer with this status and body gets: the body, whole, of OK with at most
-- 16 MiB; another status, of those there are; and Internal for a longer body or a status that does
-- not exist.
pub data Delivers : ℕ → Bytes → Awaited → Type 0 where
  delivered : (body : Bytes) → length body ≤ max_body → Delivers 0 body (received body)
  refused :
      (status : ℕ) (body : Bytes)
      → 0 < status
      → status ≤ 5
      → length body ≤ max_body
      → Delivers status body (err_status status)
  broken :
      (status : ℕ) (body : Bytes)
      → (5 < status) ⊎ (max_body < length body)
      → Delivers status body (err_status 5)

Fits-Delivers :
    {status sent : ℕ} {body bytes : Bytes}
    → Fits status body sent bytes
    → Delivers status body (outcome_of (sent, bytes))
Fits-Delivers (whole body h) = delivered body h
Fits-Delivers (failing status body pos low h) =
    if_elim (Delivers status body) (status == 0) (λ e. absurd (ground arith))
      λ e. refused status body pos low h
Fits-Delivers (unfit status body h) = broken status body h

-- The wait for an answer ends with what the runtime has made of it.
await_answer :
    (budget : ℕ) (a : Answer) (l : Link) {l' : Link} (polled : List Polled)
    → l.replies ≡ []
    → (a.stage_id ≢ 0)
    → a.stage_id < 4294967296
    → a.trace_id < 18446744073709551616
    → IsCallKind a.event_kind
    → reply_module_result budget a l ≡ (replied, l')
    → Arrives a.correlation_id l'.replies polled
    → await_reply max_body a.event_kind a.correlation_id [] polled
      ≡ outcome_of (checked_result a.status a.body)
await_answer budget a l {l'} polled new stage wide trace kind e arrives =
    let (room, sent) = reply_module_result-replies budget a l stage wide e in
    let (legal, fits) = checked_result-IsAnswer a stage wide in
    let q = checked_answer a in
    let all : l'.replies
        ≡ map (reply_of q) (fragments (budget - module_message_header_len) q.body) =
      sent
      ∙ ap (λ rs. rs ++ map (reply_of q) (fragments (budget - module_message_header_len) q.body))
          new in
    if_elim (λ r. await_reply max_body a.event_kind a.correlation_id [] polled ≡ r) (q.status == 0)
      (λ ok.
        await_parts q [] legal (is_zero q.status ok) trace kind (omega (arith, fits))
          (fragments-Cut (budget - module_message_header_len) q.body (omega (arith, room))) all
          arrives)
      (λ bad.
        await_status q false legal (not_zero q.status bad) trace kind
          (all
            ∙ ap
                (λ (b : Bytes). map (reply_of q) (fragments (budget - module_message_header_len) b))
                (no_body bad)
            ∙ ap (map (reply_of q)) (fragments-nil (budget - module_message_header_len)))
          arrives)
  where
    is_zero : (s : ℕ) → (s == 0) ≡ true → s ≡ 0
    is_zero s h = ground arith

    not_zero : (s : ℕ) → (s == 0) ≡ false → s ≢ 0
    not_zero s h = ground arith

    no_body :
        ((checked_result a.status a.body).0 == 0) ≡ false → (checked_result a.status a.body).1 ≡ []
    no_body =
        unfold checked_result in
        if_elim Bare (ltb 5 a.status || ltb max_body (length a.body)) (λ t h. refl)
          λ f.
            if_elim Bare (not (a.status == 0)) (λ t h. refl)
              (λ zero h. absurd (cc (both a.status zero h)))
      where
        Bare : ℕ × Bytes → Type 0
        Bare r = (r.0 == 0) ≡ false → r.1 ≡ []

        both : (s : ℕ) → not (s == 0) ≡ false → (s == 0) ≡ false → true ≡ false
        both s h k = ground arith

-- When the process has sent its answer without an error, the caller that waits for it, whatever
-- polls without an event and events of other correlations come between, receives the body of the
-- answer, whole, where the status is OK and the body is at most 16 MiB; the status of an answer that
-- has another one, of at most 5; and the status Internal, which is 5, where the body is longer or
-- the status is above 5. The stage is not 0 and has 32 bits, and the trace has 64 bits.
pub await_reply-reply_module_result :
    (budget : ℕ) (a : Answer) (l : Link) {l' : Link} (polled : List Polled)
    → l.replies ≡ []
    → (a.stage_id ≢ 0)
    → a.stage_id < 4294967296
    → a.trace_id < 18446744073709551616
    → IsCallKind a.event_kind
    → reply_module_result budget a l ≡ (replied, l')
    → Arrives a.correlation_id l'.replies polled
    → Delivers a.status a.body (await_reply max_body a.event_kind a.correlation_id [] polled)
await_reply-reply_module_result budget a l {l'} polled new stage wide trace kind e arrives =
    subst (Delivers a.status a.body)
      (sym (await_answer budget a l polled new stage wide trace kind e arrives))
      (Fits-Delivers (checked_result-Fits a.status a.body))
