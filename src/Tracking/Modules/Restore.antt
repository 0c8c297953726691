-- ===== src/Tracking/Modules/Restore.antt =====
-- Which modules a restore frees.
use chronoporia.Base.{ℕ, ◌≡◌, refl, List, keep}
use chronoporia.Tracking.{loaded_at}
use chronoporia.Tracking.Histories.{
  IsTracked, track-IsTracked, change-IsTracked, branch_all-IsTracked, loaded_at-IsDistinct,
}
use chronoporia.Tracking.LeftOver.{is_absent, left_over-keep}
use chronoporia.Tracking.Modules.{
  DllInfo, ModuleManager, blank_dll, track_dll, untrack_dll, restore_dlls_at_sequence,
  create_module_history_branch,
}

abbrev pub handle_of : DllInfo → ℕ
handle_of d = d.dll_handle

-- Each history holds states of its own module only, and no module has two histories.
abbrev pub IsConsistent : ModuleManager → Type 0
IsConsistent m = IsTracked handle_of m.process_module_history

abbrev loaded_dlls : ModuleManager → ℕ → ℕ → List DllInfo
loaded_dlls m run_id run_seq = loaded_at (λ d. d.loaded) m.process_module_history run_id run_seq

-- Loading, unloading and branching keep the histories consistent.
pub module_operations-IsConsistent :
    (m : ModuleManager)
    → IsConsistent m
    → ((dll_handle : ℕ) (dll_name : List ℕ) (global_seq run_id run_seq : ℕ)
        → IsConsistent (track_dll m dll_handle dll_name global_seq run_id run_seq))
      × ((dll_handle global_seq run_id run_seq : ℕ)
          → IsConsistent (untrack_dll m dll_handle global_seq run_id run_seq))
      × ((target_run_id target_run_seq new_run_id : ℕ)
          → IsConsistent (create_module_history_branch m target_run_id target_run_seq new_run_id))
unfolding track_dll untrack_dll create_module_history_branch
module_operations-IsConsistent m h = (
  λ a name g r s. track-IsTracked handle_of blank_dll m.process_module_history a _ g r s refl h,
  λ a g r s. change-IsTracked handle_of m.process_module_history a _ g r s refl h,
  λ r s new. branch_all-IsTracked handle_of m.process_module_history r s new h,
)

-- With consistent histories, a restore frees exactly the modules that are loaded at the point that is
-- left and are not loaded at the point that is restored, each once, in their order.
pub restore_dlls_at_sequence-keep :
    (m : ModuleManager) (from_run_id from_run_seq to_run_id to_run_seq : ℕ)
    → IsConsistent m
    → restore_dlls_at_sequence m from_run_id from_run_seq to_run_id to_run_seq
      ≡ keep
          (is_absent handle_of (loaded_dlls m to_run_id to_run_seq))
          (loaded_dlls m from_run_id from_run_seq)
unfolding restore_dlls_at_sequence
restore_dlls_at_sequence-keep m fr fs tr ts h =
    left_over-keep handle_of (loaded_dlls m tr ts) (loaded_dlls m fr fs) (
      loaded_at-IsDistinct handle_of (λ d. d.loaded) m.process_module_history fr fs h.keyed
        h.distinct)
