-- ===== src/Tracking/Modules.antt =====
-- src/managers/module_manager.cpp.
pub mod Restore
use chronoporia.Base.{ℕ, Bool, true, false, Option, none, some, List, [], insert, get_or}
use chronoporia.Tree.{ExecutionTree}
use chronoporia.Tracking.{track, change, branch_all, loaded_at, left_over}

-- A `std::wstring` is a list of numbers.
pub record DllInfo : Type 0 where
  pub dll_handle : ℕ
  pub dll_name : List ℕ
  pub loaded : Bool

abbrev pub blank_dll : DllInfo
blank_dll = record { dll_handle = 0; dll_name = []; loaded = false }

pub record ModuleManager : Type 0 where
  pub address_to_name : List (ℕ × List ℕ)
  pub process_module_history : List (ℕ × ExecutionTree DllInfo)

unfoldable pub track_dll : ModuleManager → ℕ → List ℕ → ℕ → ℕ → ℕ → ModuleManager
track_dll m dll_handle dll_name global_seq run_id run_seq = record {
  address_to_name = insert dll_handle dll_name m.address_to_name;
  process_module_history =
      track blank_dll m.process_module_history dll_handle
        (record { dll_handle = dll_handle; dll_name = dll_name; loaded = true }) global_seq run_id
        run_seq;
}

-- The name that is looked up is made empty where there is none; a module that is not tracked is only
-- logged.
unfoldable pub untrack_dll : ModuleManager → ℕ → ℕ → ℕ → ℕ → ModuleManager
untrack_dll m dll_handle global_seq run_id run_seq =
    let dll_name = get_or dll_handle [] m.address_to_name in
    record {
      address_to_name = insert dll_handle dll_name m.address_to_name;
      process_module_history =
          change m.process_module_history dll_handle
            (record { dll_handle = dll_handle; dll_name = dll_name; loaded = false }) global_seq
            run_id run_seq;
    }

-- The modules to free: loaded at the point that is left, and not at the one that is restored.
unfoldable pub restore_dlls_at_sequence : ModuleManager → ℕ → ℕ → ℕ → ℕ → List DllInfo
restore_dlls_at_sequence m from_run_id from_run_seq to_run_id to_run_seq =
    left_over (λ d. d.dll_handle)
      (loaded_at (λ d. d.loaded) m.process_module_history to_run_id to_run_seq)
      (loaded_at (λ d. d.loaded) m.process_module_history from_run_id from_run_seq)

unfoldable pub create_module_history_branch : ModuleManager → ℕ → ℕ → ℕ → ModuleManager
create_module_history_branch m target_run_id target_run_seq new_run_id = record m {
  process_module_history =
      branch_all m.process_module_history target_run_id target_run_seq new_run_id;
}
