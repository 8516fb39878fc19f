-- ===== src/Bus/Runtime/Serving.antt =====
-- The loop of `runModuleClient` beside the goroutines of the handlers. The channel `done` is the list
-- of the results that the loop has not taken yet; a handler that runs is known by its correlation,
-- and its work, with the flag that the loop sets, stands in the table of the jobs. A reply that fails
-- ends the loop, so that no step follows.
use aimee_module_sandbox.Base.{ℕ, some, List, [], ◌∷◌, ◌++◌, ◌≡◌}
use aimee_module_sandbox.Base.Maps.{KeyMap, find}
use aimee_module_sandbox.GoString.{Bytes}
use aimee_module_sandbox.Bus.Stages.{ModuleProcessConfig}
use aimee_module_sandbox.Bus.Runtime.{
  Event, Work, ModuleResult, Tables, Action, idle, answer, start, run_handler, handle_event,
  finish_module_work,
}

-- `begun` and `finished` are the correlations of the handlers started and of the results answered
-- so far.
pub record Serving : Type 0 where
  pub tables : Tables
  pub running : List ℕ
  pub done : List ModuleResult
  pub begun : List ℕ
  pub finished : List ℕ

abbrev pub fresh_process : Serving
fresh_process = record {
  tables = record { assemblies = []; jobs = [] };
  running = [];
  done = [];
  begun = [];
  finished = [];
}

-- The state behind an action; the answers go out by `reply_module_result`.
abbrev pub act : Serving → Tables × Action → Serving
act s (t, idle) = record s { tables = t }
act s (t, answer a) = record s { tables = t }
act s (t, start w body) = record s {
  tables = t;
  running = s.running ++ w.correlation_id ∷ [];
  begun = s.begun ++ w.correlation_id ∷ [];
}

-- A handler returns and `runHandler` sends its result; the loop takes a result; the loop handles an
-- event. The loop takes results before it polls: this order is not needed here.
pub data Step (config : ModuleProcessConfig) (stages : KeyMap ℕ) : Serving → Serving → Type 0 where
  returned :
      (s : Serving) (before behind : List ℕ) (c : ℕ) (w : Work) (response : Bytes) (status now : ℕ)
      → s.running ≡ before ++ c ∷ behind
      → find c s.tables.jobs ≡ some w
      → Step config stages s (record s {
        running = before ++ behind;
        done = s.done ++ run_handler w response status now ∷ [];
      })
  taken :
      (s : Serving) (r : ModuleResult) (rest : List ModuleResult)
      → s.done ≡ r ∷ rest
      → Step config stages s (record s {
        tables = (finish_module_work r s.tables).0;
        done = rest;
        finished = s.finished ++ r.work.correlation_id ∷ [];
      })
  polled :
      (s : Serving) (now : ℕ) (e : Event)
      → Step config stages s (act s (handle_event config stages now e s.tables))

pub data Reach (config : ModuleProcessConfig) (stages : KeyMap ℕ) : Serving → Type 0 where
  here : Reach config stages fresh_process
  next : {s t : Serving} → Reach config stages s → Step config stages s t → Reach config stages t
