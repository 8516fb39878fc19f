-- ===== src/Bus/Runtime/Drained.antt =====
-- The end of `runModuleClient` when its context is done: every job is marked as cancelled, and the
-- loop takes results until no job is left.
use aimee_module_sandbox.Base.{
  ℕ, suc, ◌≤◌, true, Option, none, some, List, [], ◌∷◌, ◌++◌, ◌≡◌, refl, arith, ap, length,
  length-append,
}
use aimee_module_sandbox.Base.Maps.{
  KeyMap, remove, keys, occurs, occurs-append, occurs-cons, occurs_self, length-remove, remove_one,
}
use aimee_module_sandbox.Bus.Stages.{ModuleProcessConfig}
use aimee_module_sandbox.Bus.Runtime.{Work, ModuleResult}
use aimee_module_sandbox.Bus.Runtime.Serving.{Serving, Reach}
use aimee_module_sandbox.Bus.Runtime.Limits.{result_keys, Reach-IsServing}

abbrev pub cancel_all : KeyMap Work → KeyMap Work
cancel_all [] = []
cancel_all ((c, w) ∷ m) = (c, record w { cancelled = true }) ∷ cancel_all m

-- The second loop, on the results in the order in which they arrive: the results it leaves, or none
-- where it waits for more.
unfoldable pub drain : KeyMap Work → List ModuleResult → Option (List ModuleResult)
drain [] rs = some rs
drain ((c, w) ∷ jobs) [] = none
drain ((c, w) ∷ jobs) (r ∷ rs) = drain (remove r.work.correlation_id ((c, w) ∷ jobs)) rs

keys-cancel_all : (m : KeyMap Work) → keys (cancel_all m) ≡ keys m
keys-cancel_all [] = refl
keys-cancel_all ((c, w) ∷ m) = ap (◌∷◌ c) (keys-cancel_all m)

length-cancel_all : (m : KeyMap Work) → length (cancel_all m) ≡ length m
length-cancel_all [] = refl
length-cancel_all ((c, w) ∷ m) = ap suc (length-cancel_all m)

drain_each :
    (jobs : KeyMap Work) (rs : List ModuleResult)
    → ((c : ℕ) → occurs c (keys jobs) ≤ 1)
    → ((c : ℕ) → occurs c (keys jobs) ≡ occurs c (result_keys rs))
    → length jobs ≡ length rs
    → drain jobs rs ≡ some []
unfolding drain
drain_each [] [] once counted size = refl
drain_each [] (r ∷ rs) once counted size = absurd (omega (arith, size))
drain_each ((c, w) ∷ jobs) [] once counted size = absurd (omega (arith, size))
drain_each ((c, w) ∷ jobs) (r ∷ rs) once counted size =
    let k = r.work.correlation_id in
    let all : KeyMap Work = (c, w) ∷ jobs in
    let queued = λ (x : ℕ). occurs-cons x k (result_keys rs) in
    let there : occurs k (keys all) ≡ 1 =
      omega (arith, once k, counted k, queued k, occurs_self k) in
    drain_each (remove k all) rs (λ x. omega (arith, remove_one k all there x, once x))
      (λ x. omega (arith, remove_one k all there x, counted x, queued x))
      (omega (arith, length-remove k all, there, size))

-- Once every handler that runs has returned, in whatever order, the process whose context is done
-- ends: the loop that takes the results stops behind the last of them, and neither waits for a
-- result that will not come nor leaves one behind.
pub drain_ends :
    {config : ModuleProcessConfig} {stages : KeyMap ℕ} {s : Serving} (later : List ModuleResult)
    → Reach config stages s
    → ((c : ℕ) → occurs c (result_keys later) ≡ occurs c s.running)
    → length later ≡ length s.running
    → drain (cancel_all s.tables.jobs) (s.done ++ later) ≡ some []
drain_ends {s = s} later reach all size =
    let v = Reach-IsServing reach in
    let jobs = s.tables.jobs in
    let same = λ (c : ℕ). ap (occurs c) (keys-cancel_all jobs) in
    drain_each (cancel_all jobs) (s.done ++ later) (λ c. omega (arith, same c, v.once c))
      (λ c. omega (
        arith,
        same c,
        v.counted c,
        all c,
        ap (occurs c) (result_keys-append s.done later),
        occurs-append c (result_keys s.done) (result_keys later),
      ))
      (omega (arith, length-cancel_all jobs, v.sized, size, length-append s.done later))
  where
    result_keys-append :
        (rs qs : List ModuleResult) → result_keys (rs ++ qs) ≡ result_keys rs ++ result_keys qs
    result_keys-append [] qs = refl
    result_keys-append (r ∷ rs) qs = ap (◌∷◌ r.work.correlation_id) (result_keys-append rs qs)
