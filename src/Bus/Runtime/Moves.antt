-- ===== src/Bus/Runtime/Moves.antt =====
-- What an event does to the two tables of `runModuleClient`.
use aimee_module_sandbox.Base.{
  ℕ, ◌+◌, ◌≤◌, ◌<◌, Bool, true, false, not, ◌||◌, Option, none, some, [], ◌++◌, ◌≡◌, refl, arith,
  ltb, leb, ◌==◌, if_elim, length, length-append, bit_and, All,
}
use aimee_module_sandbox.Base.Maps.{
  KeyMap, find, put, remove, change, keys, occurs, length-remove, occurs-put_self, occurs_present,
  All-remove,
}
use aimee_module_sandbox.GoString.{Bytes}
use aimee_module_sandbox.Bus.Message.{
  ModuleMessage, max_body, deadline_expired, decode_module_message,
}
use aimee_module_sandbox.Bus.Stages.{ModuleProcessConfig, is_some}
use aimee_module_sandbox.Bus.Runtime.{
  module_max_in_flight, Event, Assembly, Work, Answer, Tables, Action, idle, answer, start,
  drop_assembly, refuse, cancel, launch, part_of, gather, open_assembly, mismatch, join, bad_invoke,
  decoded, stage_of, handle_event,
}

-- At most 16 requests are being put together, none of them of more than 16 MiB.
abbrev pub IsBounded : KeyMap Assembly → Type 0
IsBounded m = (length m ≤ module_max_in_flight) × All (λ e. length e.1.body ≤ max_body) m

remove-IsBounded : (c : ℕ) (m : KeyMap Assembly) → IsBounded m → IsBounded (remove c m)
remove-IsBounded c m h = (omega (arith, length-remove c m, h.0), All-remove _ c m h.1)

-- The jobs, and what the loop does next: they stay, or one is marked as cancelled, or there is a new
-- one, of a correlation that had none.
pub data JobsMove (jobs : KeyMap Work) : KeyMap Work → Action → Type 0 where
  same_idle : JobsMove jobs jobs idle
  same_answer : (a : Answer) → JobsMove jobs jobs (answer a)
  flagged :
      (c : ℕ) → JobsMove jobs (change (λ (w : Work). record w { cancelled = true }) c jobs) idle
  started :
      (c : ℕ) (w : Work) (body : Bytes)
      → find c jobs ≡ none
      → length jobs < module_max_in_flight
      → w.correlation_id ≡ c
      → length body ≤ max_body
      → JobsMove jobs (put c w jobs) (start w body)

abbrev Moved : Tables → Tables × Action → Type 0
Moved t (t', act) = (IsBounded t.assemblies → IsBounded t'.assemblies) × JobsMove t.jobs t'.jobs act

refuse-Moved : (e : Event) (stage : ℕ) (t : Tables) → Moved t (refuse e stage t)
unfolding refuse
refuse-Moved e stage t = (remove-IsBounded e.frame.correlation_id t.assemblies, same_answer _)

launch-Moved :
    (config : ModuleProcessConfig) (now : ℕ) (e : Event) (stage : ℕ) (m : ModuleMessage)
    (body : Bytes) (t : Tables)
    → find e.frame.correlation_id t.jobs ≡ none
    → length body ≤ max_body
    → Moved t (launch config now e stage m body t)
unfolding launch
launch-Moved config now e stage m body t fresh fits =
    if_elim (Moved t) (deadline_expired m now) (λ late. (λ h. h, same_answer _))
      λ early.
        if_elim (Moved t) (not config.has_handler) (λ no. (λ h. h, same_answer _))
          λ yes.
            if_elim (Moved t) (leb module_max_in_flight (length t.jobs))
              (λ full. (λ h. h, same_answer _))
              λ room. (λ h. h, started e.frame.correlation_id _ body fresh (ground arith) refl fits)

gather-Moved :
    (config : ModuleProcessConfig) (now : ℕ) (e : Event) (stage : ℕ) (m : ModuleMessage)
    (a : Assembly) (t : Tables)
    → find e.frame.correlation_id t.jobs ≡ none
    → 0 < occurs e.frame.correlation_id (keys t.assemblies)
    → Moved t (gather config now e stage m a t)
unfolding gather
gather-Moved config now e stage m a t fresh known =
    let c = e.frame.correlation_id in
    if_elim (Moved t) (ltb max_body (length a.body + length (part_of e m)))
      (λ long. (remove-IsBounded c t.assemblies, same_answer _))
      λ short.
        if_elim (Moved t) (not (bit_and e.frame.hdr_flags 128 == 0))
          (λ more. (
            λ h. (
              omega (arith, length-remove c t.assemblies, h.0, known),
              (fits short, All-remove _ c t.assemblies h.1),
            ),
            same_idle,
          ))
          λ last.
            let (kept, move) =
              launch-Moved config now e stage m (a.body ++ part_of e m) (drop_assembly c t) fresh
                (fits short) in
            (λ h. kept (remove-IsBounded c t.assemblies h), move)
  where
    fits :
        ltb max_body (length a.body + length (part_of e m)) ≡ false
        → length (a.body ++ part_of e m) ≤ max_body
    fits short = omega (
      arith,
      length-append a.body (part_of e m),
      below (length a.body + length (part_of e m)) short,
    )
      where
        below : (n : ℕ) → ltb max_body n ≡ false → n ≤ max_body
        below n k = ground arith

open_assembly-Moved :
    (config : ModuleProcessConfig) (now : ℕ) (e : Event) (stage : ℕ) (m : ModuleMessage)
    (t : Tables)
    → find e.frame.correlation_id t.jobs ≡ none
    → Moved t (open_assembly config now e stage m t)
unfolding open_assembly
open_assembly-Moved config now e stage m t fresh =
    let c = e.frame.correlation_id in
    let a : Assembly = record { event_kind = e.frame.event_kind; message = m; body = [] } in
    let t' : Tables = record { assemblies = put c a t.assemblies; jobs = t.jobs } in
    if_elim (Moved t) (leb module_max_in_flight (length t.assemblies))
      (λ full. (λ h. h, same_answer _))
      λ room.
        let (kept, move) =
          gather-Moved config now e stage m a t' fresh
            (omega (arith, occurs-put_self c a t.assemblies)) in
        (
          λ h. kept (
            omega (arith, length-remove c t.assemblies, below (length t.assemblies) room),
            (omega arith, All-remove _ c t.assemblies h.1),
          ),
          move,
        )
  where
    below : (n : ℕ) → leb module_max_in_flight n ≡ false → n < module_max_in_flight
    below n k = ground arith

join-Moved :
    (config : ModuleProcessConfig) (now : ℕ) (e : Event) (stage : ℕ) (m : ModuleMessage)
    (t : Tables) (o : Option Assembly)
    → find e.frame.correlation_id t.jobs ≡ none
    → find e.frame.correlation_id t.assemblies ≡ o
    → Moved t (join config now e stage m o t)
unfolding join
join-Moved config now e stage m t none fresh h = open_assembly-Moved config now e stage m t fresh
join-Moved config now e stage m t (some a) fresh h =
    if_elim (Moved t) (mismatch e m a) (λ bad. refuse-Moved e stage t)
      λ good.
        gather-Moved config now e stage m a t fresh
          (occurs_present e.frame.correlation_id t.assemblies h)

decoded-Moved :
    (config : ModuleProcessConfig) (now : ℕ) (e : Event) (stage : ℕ) (t : Tables)
    (o : Option ModuleMessage)
    → Moved t (decoded config now e stage o t)
unfolding decoded bad_invoke
decoded-Moved config now e stage t none = refuse-Moved e stage t
decoded-Moved config now e stage t (some m) =
    if_elim (Moved t) (bad_invoke e stage m t) (λ bad. refuse-Moved e stage t)
      λ good.
        join-Moved config now e stage m t (find e.frame.correlation_id t.assemblies) (free good)
          refl
  where
    absent : (a b c : Bool) (o : Option Work) → (a || b || c || is_some o) ≡ false → o ≡ none
    absent a b c none h = refl
    absent a b c (some w) h = absurd (ground arith)

    free : bad_invoke e stage m t ≡ false → find e.frame.correlation_id t.jobs ≡ none
    free h =
        absent (stage == 0) (not (m.operation == 1)) (not (m.stage_id == stage))
          (find e.frame.correlation_id t.jobs) h

-- An event leaves the assemblies bounded where they were, and moves the jobs by one of these moves.
pub handle_event-Moved :
    (config : ModuleProcessConfig) (stages : KeyMap ℕ) (now : ℕ) (e : Event) (t : Tables)
    → Moved t (handle_event config stages now e t)
unfolding handle_event cancel
handle_event-Moved config stages now e t =
    if_elim (Moved t) (not (bit_and e.frame.hdr_flags 32 == 0))
      (λ c. (remove-IsBounded e.frame.correlation_id t.assemblies, flagged e.frame.correlation_id))
      λ no.
        if_elim (Moved t) (bit_and e.frame.hdr_flags 8 == 0) (λ other. (λ h. h, same_idle))
          λ request.
            decoded-Moved config now e (stage_of stages e.frame.event_kind) t
              (decode_module_message e.payload)
