-- ===== src/Bus/Stages.antt =====
-- The configuration of a module process, of server-go/bus/module_runtime.go, and its table of stages.
use aimee_module_sandbox.Base.{
  ℕ, Bool, true, false, ◌||◌, Option, none, some, List, [], ◌∷◌, ◌==◌, if◌then◌else◌,
}
use aimee_module_sandbox.Base.Maps.{KeyMap, find, put}
use aimee_module_sandbox.GoString.{Bytes}

-- `ModuleStage`
pub record ModuleStage : Type 0 where
  pub event_kind : ℕ
  pub stage_id : ℕ

-- `ModuleProcessConfig`. Of the handler the loop asks only whether there is one: what it returns is
-- an argument of `run_handler`.
pub record ModuleProcessConfig : Type 0 where
  pub socket_path : Bytes
  pub module_name : Bytes
  pub principal_class : ℕ
  pub principal_ref : ℕ
  pub stages : List ModuleStage
  pub has_handler : Bool

abbrev pub is_some {ℓ} : {A : Type ℓ} → Option A → Bool
is_some none = false
is_some (some a) = true

abbrev pub is_empty {ℓ} : {A : Type ℓ} → List A → Bool
is_empty [] = true
is_empty (x ∷ xs) = false

-- The loop of `validateModuleConfig` over the stages, from the table of those before.
unfoldable pub stage_table : List ModuleStage → KeyMap ℕ → Option (KeyMap ℕ)
stage_table [] table = some table
stage_table (s ∷ rest) table =
    let more = stage_table rest (put s.event_kind s.stage_id table) in
    if s.event_kind == 0 || s.stage_id == 0
    then none
    else if is_some (find s.event_kind table)
    then none
    else more

-- `validateModuleConfig`
unfoldable pub validate_module_config : ModuleProcessConfig → Option (KeyMap ℕ)
validate_module_config config =
    if is_empty config.socket_path
      || is_empty config.module_name
      || config.principal_class == 0
      || config.principal_ref == 0
      || is_empty config.stages
    then none
    else stage_table config.stages []
