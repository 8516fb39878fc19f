-- ===== src/Bus/Runtime/Limits.antt =====
-- What holds of a module process in every interleaving.
use aimee_module_sandbox.Base.{
  ℕ, ◌+◌, ◌≤◌, true, List, [], ◌∷◌, ◌++◌, map, ◌≡◌, refl, arith, sym, ap, ◌∙◌, not, ◌&&◌, leb,
  if_elim, ◌==◌, length, length-append, All,
}
use mathlib.Core.Path.{subst}
use aimee_module_sandbox.Base.Maps.{
  KeyMap, change, keys, occurs, occurs-append, occurs-cons, occurs_self, length-remove,
  remove_absent, occurs_absent, remove_one, occurs_new, keys-change, length-keys, All-find,
  All-remove, All-change,
}
use aimee_module_sandbox.GoString.{Bytes}
use aimee_module_sandbox.Bus.Stages.{ModuleProcessConfig}
use aimee_module_sandbox.Bus.Runtime.{
  module_max_in_flight, Assembly, Work, ModuleResult, Action, start, run_handler, handle_event,
  finish_module_work,
}
use aimee_module_sandbox.Bus.Runtime.Moves.{
  IsBounded, JobsMove, same_idle, same_answer, flagged, started, handle_event-Moved,
}
use aimee_module_sandbox.Bus.Runtime.Serving.{
  Serving, fresh_process, act, Step, returned, taken, polled, Reach, here, next,
}

abbrev pub result_keys : List ModuleResult → List ℕ
result_keys = map (λ (r : ModuleResult). r.work.correlation_id)

-- Each job is one handler that runs or one result in the channel.
pub record IsServing (s : Serving) : Type 0 where
  pub bounded : IsBounded s.tables.assemblies
  pub few_jobs : length s.tables.jobs ≤ module_max_in_flight
  pub owned : All (λ e. e.1.correlation_id ≡ e.0) s.tables.jobs
  pub once : (c : ℕ) → occurs c (keys s.tables.jobs) ≤ 1
  pub counted :
      (c : ℕ) → occurs c (keys s.tables.jobs) ≡ occurs c s.running + occurs c (result_keys s.done)
  pub sized : length s.tables.jobs ≡ length s.running + length s.done
  pub answered : (c : ℕ) → occurs c s.begun ≡ occurs c (keys s.tables.jobs) + occurs c s.finished

fresh-IsServing : IsServing fresh_process
unfolding occurs
fresh-IsServing = record {
  bounded = (omega arith, tt);
  few_jobs = omega arith;
  owned = tt;
  once = λ c. omega arith;
  counted = λ c. omega arith;
  sized = omega arith;
  answered = λ c. omega arith;
}

-- One number more in a list, at its end or inside.
occurs-snoc : (c k : ℕ) (l : List ℕ) → occurs c (l ++ k ∷ []) ≡ occurs c l + occurs c (k ∷ [])
occurs-snoc c k l = occurs-append c l (k ∷ [])

occurs-inside :
    (c k : ℕ) (l r : List ℕ) → occurs c (l ++ k ∷ r) ≡ occurs c (l ++ r) + occurs c (k ∷ [])
unfolding occurs
occurs-inside c k l r = ground (arith, occurs-append c l (k ∷ r), occurs-append c l r)

result_keys-snoc :
    (rs : List ModuleResult) (r : ModuleResult)
    → result_keys (rs ++ r ∷ []) ≡ result_keys rs ++ r.work.correlation_id ∷ []
result_keys-snoc [] r = refl
result_keys-snoc (q ∷ rs) r = ap (◌∷◌ q.work.correlation_id) (result_keys-snoc rs r)

work-run_handler :
    (w : Work) (response : Bytes) (status now : ℕ)
    → (run_handler w response status now).work.correlation_id ≡ w.correlation_id
unfolding run_handler
work-run_handler w response status now =
    if_elim Same w.cancelled (λ t. refl)
      λ f.
        if_elim Same (not (w.deadline_ns == 0) && (not (now == 0) && leb w.deadline_ns now))
          (λ t. refl) (λ f. refl)
  where
    Same : ModuleResult → Type 0
    Same r = r.work.correlation_id ≡ w.correlation_id

act-IsServing :
    {s : Serving} (assemblies : KeyMap Assembly) (jobs : KeyMap Work) (action : Action)
    → IsServing s
    → IsBounded assemblies
    → JobsMove s.tables.jobs jobs action
    → IsServing (act s (record { assemblies = assemblies; jobs = jobs }, action))
act-IsServing {s} assemblies jobs action v b same_idle = record {
  bounded = b;
  few_jobs = v.few_jobs;
  owned = v.owned;
  once = v.once;
  counted = v.counted;
  sized = v.sized;
  answered = v.answered;
}
act-IsServing {s} assemblies jobs action v b (same_answer a) = record {
  bounded = b;
  few_jobs = v.few_jobs;
  owned = v.owned;
  once = v.once;
  counted = v.counted;
  sized = v.sized;
  answered = v.answered;
}
act-IsServing {s} assemblies jobs action v b (flagged c) =
    let flag : Work → Work = λ w. record w { cancelled = true } in
    let same = keys-change flag c s.tables.jobs in
    let size : length (change flag c s.tables.jobs) ≡ length s.tables.jobs =
      sym (length-keys (change flag c s.tables.jobs))
      ∙ ap length same
      ∙ length-keys s.tables.jobs in
    record {
      bounded = b;
      few_jobs = omega (arith, size, v.few_jobs);
      owned = All-change _ flag c s.tables.jobs (λ j w h. h) v.owned;
      once = λ k. omega (arith, ap (occurs k) same, v.once k);
      counted = λ k. ap (occurs k) same ∙ v.counted k;
      sized = size ∙ v.sized;
      answered = λ k. omega (arith, ap (occurs k) same, v.answered k);
    }
act-IsServing {s} assemblies jobs action v b (started c w body fresh room own fits) =
    let new = λ (k : ℕ). occurs-cons k c (keys s.tables.jobs) in
    let snoc : (k : ℕ) (l : List ℕ)
        → occurs k (l ++ w.correlation_id ∷ []) ≡ occurs k l + occurs k (c ∷ []) =
      λ k l.
        occurs-snoc k w.correlation_id l ∙ ap (λ (x : ℕ). occurs k l + occurs k (x ∷ [])) own in
    subst
      (λ m. IsServing (act s (record { assemblies = assemblies; jobs = (c, w) ∷ m }, start w body)))
      (sym (remove_absent c s.tables.jobs fresh))
      record {
        bounded = b;
        few_jobs = omega (arith, room);
        owned = (own, v.owned);
        once = occurs_new c (keys s.tables.jobs) (occurs_absent c s.tables.jobs fresh) v.once;
        counted = λ k. omega (arith, new k, snoc k s.running, v.counted k);
        sized = omega (arith, v.sized, length-append s.running (w.correlation_id ∷ []));
        answered = λ k. omega (arith, new k, snoc k s.begun, v.answered k);
      }

Step-IsServing :
    {config : ModuleProcessConfig} {stages : KeyMap ℕ} {s t : Serving}
    → Step config stages s t
    → IsServing s
    → IsServing t
Step-IsServing (returned s before behind c w response status now split known) v =
    let r = run_handler w response status now in
    let own : r.work.correlation_id ≡ c =
      work-run_handler w response status now ∙ All-find _ c s.tables.jobs v.owned known in
    record {
      bounded = v.bounded;
      few_jobs = v.few_jobs;
      owned = v.owned;
      once = v.once;
      counted = λ k. omega (
        arith,
        v.counted k,
        ap (occurs k) split,
        occurs-inside k c before behind,
        ap (occurs k) (result_keys-snoc s.done r),
        occurs-snoc k r.work.correlation_id (result_keys s.done),
        ap (λ (x : ℕ). occurs k (x ∷ [])) own,
      );
      sized = omega (
        arith,
        v.sized,
        ap length split,
        length-append before (c ∷ behind),
        length-append before behind,
        length-append s.done (r ∷ []),
      );
      answered = v.answered;
    }
Step-IsServing (taken s r rest e) v =
    let k = r.work.correlation_id in
    let jobs = s.tables.jobs in
    let queued : (c : ℕ)
        → occurs c (result_keys s.done) ≡ occurs c (k ∷ []) + occurs c (result_keys rest) =
      λ c. ap (λ l. occurs c (result_keys l)) e ∙ occurs-cons c k (result_keys rest) in
    let there : occurs k (keys jobs) ≡ 1 =
      omega (arith, v.once k, v.counted k, queued k, occurs_self k) in
    let gone = remove_one k jobs there in
    unfold finish_module_work in
    record {
      bounded = v.bounded;
      few_jobs = omega (arith, length-remove k jobs, v.few_jobs);
      owned = All-remove _ k jobs v.owned;
      once = λ c. omega (arith, gone c, v.once c);
      counted = λ c. omega (arith, gone c, v.counted c, queued c);
      sized = omega (arith, length-remove k jobs, there, v.sized, ap length e);
      answered = λ c. omega (arith, gone c, v.answered c, occurs-snoc c k s.finished);
    }
Step-IsServing {config} {stages} (polled s now e) v =
    let (kept, move) = handle_event-Moved config stages now e s.tables in
    let (t, action) = handle_event config stages now e s.tables in
    act-IsServing t.assemblies t.jobs action v (kept v.bounded) move

pub Reach-IsServing :
    {config : ModuleProcessConfig} {stages : KeyMap ℕ} {s : Serving}
    → Reach config stages s
    → IsServing s
Reach-IsServing here = fresh-IsServing
Reach-IsServing (next before step) = Step-IsServing step (Reach-IsServing before)

-- Whatever the events and the answers of the handlers are and however they interleave, the process
-- puts at most 16 requests together, of at most 16 MiB each, and runs at most 16 jobs; each job is
-- one handler that runs or one result in the channel, so that the channel, which has room for 16,
-- never holds a handler up; and each handler that was started is a job still or was answered, once.
pub serving_within_limits :
    {config : ModuleProcessConfig} {stages : KeyMap ℕ} {s : Serving}
    → Reach config stages s
    → IsBounded s.tables.assemblies
      × (length s.tables.jobs ≤ module_max_in_flight)
      × (length s.running + length s.done ≡ length s.tables.jobs)
      × ((c : ℕ) → occurs c s.begun ≡ occurs c (keys s.tables.jobs) + occurs c s.finished)
serving_within_limits reach =
    let v = Reach-IsServing reach in (v.bounded, v.few_jobs, sym v.sized, v.answered)
