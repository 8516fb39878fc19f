-- ===== src/Bus/Caller/Served.antt =====
-- What a module process makes of the requests of one call, one behind the other.
use aimee_module_sandbox.Base.{
  ℕ, ◌+◌, ◌-◌, ◌≤◌, ◌<◌, Bool, true, false, none, List, [], ◌∷◌, ◌++◌, map, ◌≡◌, refl, arith, sym,
  ap, ◌∙◌, length, length-append,
}
use mathlib.Core.List.{append_assoc, head-eq_of_cons-eq, tail-eq_of_cons-eq}
use mathlib.Core.Path.{subst}
use aimee_module_sandbox.Base.Maps.{KeyMap, find, put, find-put_self}
use aimee_module_sandbox.GoString.{Bytes}
use aimee_module_sandbox.Bus.Message.{module_message_header_len, max_body}
use aimee_module_sandbox.Bus.Fragments.{Fragment, fragments, Cut, last, more_of, fragments-Cut}
use aimee_module_sandbox.Bus.Stages.{ModuleProcessConfig}
use aimee_module_sandbox.Bus.Runtime.{
  module_max_in_flight, Event, Assembly, Tables, idle, start, gather, handle_event,
}
use aimee_module_sandbox.Bus.Caller.{Request, Invoke, sent, invoke_message, send}
use aimee_module_sandbox.Bus.Caller.Sending.{request_for, IsInvoke, send-requests}
use aimee_module_sandbox.Bus.Caller.Arriving.{
  Brings, Comes, IsReady, action_on, handle_all, work_for, none_left, one_more,
}
use aimee_module_sandbox.Bus.Caller.Joining.{
  Matches, begins, gather_last, gather_more, join_known, open_joins, opened, waits,
}

-- The fragments from one on that joins the assembly `a`.
serve_from :
    (config : ModuleProcessConfig) (stages : KeyMap ℕ) (v : Invoke) {chunk : ℕ} (a : Assembly)
    (t t' : Tables) {rest : Bytes} {fs : List Fragment} {rs : List Request} {es : List (ℕ × Event)}
    → IsInvoke v
    → Matches v a
    → IsReady config stages v t'
    → length a.body + length rest ≤ max_body
    → Cut chunk rest fs
    → ((now : ℕ) (e : Event) (f : Fragment) (gs : List Fragment)
        → fs ≡ f ∷ gs
        → length f.part ≤ max_body
        → Brings (request_for v f) e
        → handle_event config stages now e t
          ≡ gather config now e v.stage_id (invoke_message v (length f.part)) a t')
    → rs ≡ map (request_for v) fs
    → Comes v.deadline_ns rs es
    → ((handle_all config stages es t).0.jobs ≡ put v.correlation_id (work_for v) t'.jobs)
      × ((handle_all config stages es t).1 ≡ map (action_on (work_for v) (a.body ++ rest)) fs)
serve_from config stages v a t t' h same ready fits (last rest len) joins e none_left =
    absurd (cc e)
serve_from config stages v a t t' h same ready fits (more_of part rest fs len pos cut) joins e
      none_left =
    absurd (cc e)
serve_from config stages v a t t' h same ready fits (last rest len) joins e
      (one_more r now ev rs es brings early later) =
    alone es later (tail-eq_of_cons-eq e)
  where
    f : Fragment
    f = record { part = rest; more = false }

    step : handle_event config stages now ev t ≡ begins v (a.body ++ rest) t'
    step =
        let ours = subst (λ x. Brings x ev) (head-eq_of_cons-eq e) brings in
        joins now ev f _ refl (omega (arith, fits)) ours
        ∙ gather_last config stages now v f ev a t' fits ready ours refl early

    alone :
        {rs : List Request} (es : List (ℕ × Event))
        → Comes v.deadline_ns rs es
        → rs ≡ []
        → ((handle_all config stages ((now, ev) ∷ es) t).0.jobs
            ≡ put v.correlation_id (work_for v) t'.jobs)
          × ((handle_all config stages ((now, ev) ∷ es) t).1
              ≡ start (work_for v) (a.body ++ rest) ∷ [])
    alone es none_left q = (ap (λ p. p.0.jobs) step, ap (λ p. p.1 ∷ []) step)
    alone es (one_more r n e' rs es' b d c) q = absurd (cc q)
serve_from config stages v a t t' h same ready fits (more_of part rest fs len pos cut) joins e
      (one_more r now ev rs es brings early later) =
    let f : Fragment = record { part = part; more = true } in
    let whole = length-append part rest in
    let ours = subst (λ x. Brings x ev) (head-eq_of_cons-eq e) brings in
    let step : handle_event config stages now ev t ≡ waits v f a t' =
      joins now ev f _ refl (omega (arith, whole, fits)) ours
      ∙ gather_more config now v f ev a t' (omega (arith, whole, fits)) ours refl in
    let a' : Assembly = record a { body = a.body ++ part } in
    let t1 : Tables = (waits v f a t').0 in
    let (jobs, actions) =
      serve_from config stages v a' t1 t1 h same ready
        (omega (arith, whole, fits, length-append a.body part)) cut
        (λ n x g gs q.
          join_known config stages v a' t1 h same ready
            (find-put_self v.correlation_id a' t'.assemblies) n x g)
        (tail-eq_of_cons-eq e) later in
    (
      ap (λ p. (handle_all config stages es p.0).0.jobs) step ∙ jobs,
      ap (λ p. p.1 ∷ (handle_all config stages es p.0).1) step
          ∙ ap (◌∷◌ idle) (
              actions
              ∙ ap (λ (b : Bytes). map (action_on (work_for v) b) fs)
                  (append_assoc a.body part rest)),
    )

-- The fragments of a call that the process has not heard of.
serve_new :
    (config : ModuleProcessConfig) (stages : KeyMap ℕ) (v : Invoke) (t : Tables) {chunk : ℕ}
    {body : Bytes} {fs : List Fragment} {rs : List Request} {es : List (ℕ × Event)}
    → IsInvoke v
    → IsReady config stages v t
    → find v.correlation_id t.assemblies ≡ none
    → length t.assemblies < module_max_in_flight
    → length body ≤ max_body
    → Cut chunk body fs
    → (f : Fragment) (gs : List Fragment) → fs ≡ f ∷ gs
    → rs ≡ map (request_for v) fs
    → Comes v.deadline_ns rs es
    → ((handle_all config stages es t).0.jobs ≡ put v.correlation_id (work_for v) t.jobs)
      × ((handle_all config stages es t).1 ≡ map (action_on (work_for v) body) fs)
serve_new config stages v t h ready fresh room fits cut f gs q e comes =
    serve_from config stages v (opened v f) t
      (record { assemblies = put v.correlation_id (opened v f) t.assemblies; jobs = t.jobs }) h
      (refl, refl, refl, refl) ready (omega (arith, fits)) cut
      (λ now ev f' gs' q' len brings.
        subst
          (λ g.
            handle_event config stages now ev t
            ≡ gather config now ev v.stage_id (invoke_message v (length f'.part)) (opened v g)
                (record {
                  assemblies = put v.correlation_id (opened v g) t.assemblies;
                  jobs = t.jobs;
                }))
          (head-eq_of_cons-eq (sym q' ∙ q))
          (open_joins config stages v t h ready fresh room now ev f' len brings))
      e comes

-- When a caller has sent a request of at most 16 MiB without an error, to a process that serves the
-- stage on its kind and has neither a job nor an assembly of the correlation, and room for one of
-- each, then the process, as the events of the request come one behind the other before the
-- deadline, does nothing on each but the last, and on that one starts the handler, with the whole
-- request as its body and with the stage, the deadline and the trace of the call.
pub handle_all-send :
    (takes : ℕ → Bool) (budget : ℕ) (v : Invoke) (request : Bytes) {rs : List Request}
    (config : ModuleProcessConfig) (stages : KeyMap ℕ) (t : Tables) (es : List (ℕ × Event))
    → IsInvoke v
    → length request ≤ max_body
    → send takes budget v request ≡ (sent, rs)
    → IsReady config stages v t
    → find v.correlation_id t.assemblies ≡ none
    → length t.assemblies < module_max_in_flight
    → Comes v.deadline_ns rs es
    → ((handle_all config stages es t).0.jobs ≡ put v.correlation_id (work_for v) t.jobs)
      × ((handle_all config stages es t).1
          ≡ map
              (action_on (work_for v) request)
              (fragments (budget - module_message_header_len) request))
handle_all-send takes budget v request config stages t es h fits e ready fresh space comes =
    let (room, all) = send-requests takes budget v request h fits e in
    let (f, gs, q) =
      first_fragment
        (fragments-Cut (budget - module_message_header_len) request (omega (arith, room))) in
    serve_new config stages v t h ready fresh space fits
      (fragments-Cut (budget - module_message_header_len) request (omega (arith, room))) f gs q all
      comes
  where
    first_fragment :
        {chunk : ℕ} {body : Bytes} {fs : List Fragment}
        → Cut chunk body fs
        → (f : Fragment) × (gs : List Fragment) × (fs ≡ f ∷ gs)
    first_fragment (last rest len) = (_, _, refl)
    first_fragment (more_of part rest fs len pos cut) = (_, fs, refl)
