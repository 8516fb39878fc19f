-- ===== src/Bus/Caller/Joining.antt =====
-- How the fragments of one call join their assembly in a module process.
use aimee_module_sandbox.Base.{
  ℕ, ◌+◌, ◌≤◌, ◌<◌, Bool, true, false, not, ◌&&◌, ◌||◌, none, some, [], ◌++◌, ◌≡◌, refl, arith, sym,
  ap, ◌∙◌, ◌⊎◌, ltb, leb, ◌==◌, if_elim, length, take, drop, bit_and,
}
use aimee_module_sandbox.Base.Maps.{KeyMap, find, put, remove}
use aimee_module_sandbox.GoString.{Bytes}
use aimee_module_sandbox.Bus.Message.{module_message_header_len, max_body, deadline_expired}
use aimee_module_sandbox.Bus.Fragments.{Fragment}
use aimee_module_sandbox.Bus.Fragments.Payload.{take-part}
use aimee_module_sandbox.Bus.Stages.{ModuleProcessConfig}
use aimee_module_sandbox.Bus.Runtime.{
  module_max_in_flight, Event, Assembly, Tables, Action, idle, start, launch, part_of, gather,
  open_assembly, mismatch, join, handle_event,
}
use aimee_module_sandbox.Bus.Caller.{Invoke, invoke_message}
use aimee_module_sandbox.Bus.Caller.Sending.{request_for, IsInvoke}
use aimee_module_sandbox.Bus.Caller.Arriving.{Brings, IsReady, handle_fragment, work_for}

-- An assembly of the same call.
abbrev pub Matches : Invoke → Assembly → Type 0
Matches v a =
    (a.event_kind ≡ v.event_kind)
    × (a.message.stage_id ≡ v.stage_id)
    × (a.message.deadline_ns ≡ v.deadline_ns)
    × (a.message.trace_id ≡ v.trace_id)

pub part_brought :
    (v : Invoke) (f : Fragment) (e : Event)
    → length f.part ≤ max_body
    → Brings (request_for v f) e
    → part_of e (invoke_message v (length f.part)) ≡ f.part
part_brought v f e fits (no_cancel, request, kind, corr, payload, more) =
    let m = invoke_message v (length f.part) in
    ap (λ s. take m.body_len (drop module_message_header_len s)) payload
    ∙ take-part m f.part (omega arith)

-- Where a fragment leaves the tables, and what is done.
abbrev pub waits : Invoke → Fragment → Assembly → Tables → Tables × Action
waits v f a t = (
  record {
    assemblies = put v.correlation_id (record a { body = a.body ++ f.part }) t.assemblies;
    jobs = t.jobs;
  },
  idle,
)

abbrev pub begins : Invoke → Bytes → Tables → Tables × Action
begins v body t = (
  record {
    assemblies = remove v.correlation_id t.assemblies;
    jobs = put v.correlation_id (work_for v) t.jobs;
  },
  start (work_for v) body,
)

pub crowded : (n : ℕ) → n < module_max_in_flight → leb module_max_in_flight n ≡ true → ⊥
crowded n h b = ground arith

pub too_long : (n : ℕ) → ltb max_body n ≡ true → n ≤ max_body → ⊥
too_long n b h = ground arith

-- A fragment with more behind it lengthens the assembly.
pub gather_more :
    (config : ModuleProcessConfig) (now : ℕ) (v : Invoke) (f : Fragment) (e : Event) (a : Assembly)
    (t : Tables)
    → length a.body + length f.part ≤ max_body
    → Brings (request_for v f) e
    → f.more ≡ true
    → gather config now e v.stage_id (invoke_message v (length f.part)) a t ≡ waits v f a t
unfolding gather
gather_more config now v f e a t fits brings more =
    let (no_cancel, request, kind, corr, payload, told) = brings in
    let part = part_brought v f e (omega (arith, fits)) brings in
    if_elim (λ r. r ≡ waits v f a t)
      (ltb max_body (length a.body + length (part_of e (invoke_message v (length f.part)))))
      (λ long. absurd (
        too_long (length a.body + length (part_of e (invoke_message v (length f.part)))) long
          (omega (arith, fits, ap length part))))
      λ short.
        if_elim (λ r. r ≡ waits v f a t) (not (bit_and e.frame.hdr_flags 128 == 0))
          (λ b. λ i. (
            record {
              assemblies = put (corr i) (record a { body = a.body ++ part i }) t.assemblies;
              jobs = t.jobs;
            },
            idle,
          ))
          (λ b. absurd (cc (sym b ∙ told ∙ more)))

pub gather_last :
    (config : ModuleProcessConfig) (stages : KeyMap ℕ) (now : ℕ) (v : Invoke) (f : Fragment)
    (e : Event) (a : Assembly) (t : Tables)
    → length a.body + length f.part ≤ max_body
    → IsReady config stages v t
    → Brings (request_for v f) e
    → f.more ≡ false
    → (v.deadline_ns ≡ 0) ⊎ (now < v.deadline_ns)
    → gather config now e v.stage_id (invoke_message v (length f.part)) a t
      ≡ begins v (a.body ++ f.part) t
unfolding gather launch deadline_expired
gather_last config stages now v f e a t fits (handler, stage, free, room) brings end early =
    let (no_cancel, request, kind, corr, payload, told) = brings in
    let m = invoke_message v (length f.part) in
    let part = part_brought v f e (omega (arith, fits)) brings in
    if_elim (λ r. r ≡ begins v (a.body ++ f.part) t)
      (ltb max_body (length a.body + length (part_of e m)))
      (λ long. absurd (
        too_long (length a.body + length (part_of e m)) long (omega (arith, fits, ap length part))))
      λ short.
        if_elim (λ r. r ≡ begins v (a.body ++ f.part) t) (not (bit_and e.frame.hdr_flags 128 == 0))
          (λ b. absurd (cc (sym b ∙ told ∙ end)))
          λ b.
            if_elim (λ r. r ≡ begins v (a.body ++ f.part) t) (deadline_expired m now)
              (λ late. absurd (in_time v.deadline_ns early late))
              λ d.
                if_elim (λ r. r ≡ begins v (a.body ++ f.part) t) (not config.has_handler)
                  (λ none. absurd (handled config.has_handler handler none))
                  λ g.
                    if_elim (λ r. r ≡ begins v (a.body ++ f.part) t)
                      (leb module_max_in_flight (length t.jobs))
                      (λ full. absurd (crowded (length t.jobs) room full))
                      λ free. λ i. (
                        record {
                          assemblies = remove (corr i) t.assemblies;
                          jobs =
                              put (corr i)
                                (record {
                                  event_kind = kind i;
                                  correlation_id = corr i;
                                  stage_id = v.stage_id;
                                  deadline_ns = v.deadline_ns;
                                  trace_id = v.trace_id;
                                  cancelled = false;
                                })
                                t.jobs;
                        },
                        start
                            (record {
                              event_kind = kind i;
                              correlation_id = corr i;
                              stage_id = v.stage_id;
                              deadline_ns = v.deadline_ns;
                              trace_id = v.trace_id;
                              cancelled = false;
                            })
                            (a.body ++ part i),
                      )
  where
    in_time : (d : ℕ) → (d ≡ 0) ⊎ (now < d) → (not (d == 0) && leb d now) ≡ true → ⊥
    in_time d h b = ground arith

    handled : (b : Bool) → b ≡ true → not b ≡ true → ⊥
    handled b h k = ground arith

-- The assembly of a first fragment.
abbrev pub opened : Invoke → Fragment → Assembly
opened v f = record {
  event_kind = v.event_kind;
  message = invoke_message v (length f.part);
  body = [];
}

-- A fragment whose assembly stands in the table joins it.
pub join_known :
    (config : ModuleProcessConfig) (stages : KeyMap ℕ) (v : Invoke) (a : Assembly) (t : Tables)
    → IsInvoke v
    → Matches v a
    → IsReady config stages v t
    → find v.correlation_id t.assemblies ≡ some a
    → (now : ℕ) (e : Event) (f : Fragment) → length f.part ≤ max_body
    → Brings (request_for v f) e
    → handle_event config stages now e t
      ≡ gather config now e v.stage_id (invoke_message v (length f.part)) a t
unfolding join
join_known config stages v a t h same ready known now e f fits brings =
    let (no_cancel, request, kind, corr, payload, told) = brings in
    let m = invoke_message v (length f.part) in
    handle_fragment config stages now v f e t h fits ready brings
    ∙ ap (λ o. join config now e v.stage_id m o t)
        (ap (λ (c : ℕ). find c t.assemblies) corr ∙ known)
    ∙ if_elim (λ r. r ≡ gather config now e v.stage_id m a t) (mismatch e m a)
        (λ bad. absurd (matched kind bad)) (λ good. refl)
  where
    matched :
        e.frame.event_kind ≡ v.event_kind
        → mismatch e (invoke_message v (length f.part)) a ≡ true
        → ⊥
    matched kind =
        unfold mismatch in
        equal a.event_kind e.frame.event_kind a.message.stage_id v.stage_id a.message.deadline_ns
          v.deadline_ns a.message.trace_id v.trace_id (same.0 ∙ sym kind) same.1 same.2 same.3
      where
        equal :
            (a b c d e f g h : ℕ)
            → a ≡ b
            → c ≡ d
            → e ≡ f
            → g ≡ h
            → (not (a == b) || not (c == d) || not (e == f) || not (g == h)) ≡ true
            → ⊥
        equal a b c d e f g h p q r s t = ground arith

-- The first fragment opens an assembly.
pub open_joins :
    (config : ModuleProcessConfig) (stages : KeyMap ℕ) (v : Invoke) (t : Tables)
    → IsInvoke v
    → IsReady config stages v t
    → find v.correlation_id t.assemblies ≡ none
    → length t.assemblies < module_max_in_flight
    → (now : ℕ) (e : Event) (f : Fragment) → length f.part ≤ max_body
    → Brings (request_for v f) e
    → handle_event config stages now e t
      ≡ gather config now e v.stage_id
          (invoke_message v (length f.part))
          (opened v f)
          (record { assemblies = put v.correlation_id (opened v f) t.assemblies; jobs = t.jobs })
unfolding join open_assembly
open_joins config stages v t h ready fresh room now e f fits brings =
    let (no_cancel, request, kind, corr, payload, told) = brings in
    let m = invoke_message v (length f.part) in
    let target =
      gather config now e v.stage_id m (opened v f)
        (record { assemblies = put v.correlation_id (opened v f) t.assemblies; jobs = t.jobs }) in
    handle_fragment config stages now v f e t h fits ready brings
    ∙ ap (λ o. join config now e v.stage_id m o t)
        (ap (λ (c : ℕ). find c t.assemblies) corr ∙ fresh)
    ∙ if_elim (λ r. r ≡ target) (leb module_max_in_flight (length t.assemblies))
        (λ full. absurd (crowded (length t.assemblies) room full))
        (λ free. λ i.
          gather config now e v.stage_id m (record { event_kind = kind i; message = m; body = [] })
            (record {
              assemblies =
                  put (corr i) (record { event_kind = kind i; message = m; body = [] })
                    t.assemblies;
              jobs = t.jobs;
            }))
