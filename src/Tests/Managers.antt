-- ===== src/Tests/Managers.antt =====
-- The managers of modules, threads and memory, and the snapshot command.
use chronoporia.Base.{
  ℕ, ◌≡◌, ◌≢◌, refl, true, false, some, List, [], ◌∷◌, arith, keep, mem, lookup, if◌then◌else◌,
  ◌==◌,
}
use chronoporia.Tree.{ExecutionTree, create}
use chronoporia.Tree.Lookup.{get_exact_node}
use chronoporia.Region.{done, throws, out_of_fuel, ◌>>=◌}
use chronoporia.Region.Pages.{make_region}
use chronoporia.Tracking.{loaded_at}
use chronoporia.Tracking.Histories.{IsKeyed, IsDistinct, keys}
use chronoporia.Tracking.LeftOver.{is_absent}
use chronoporia.Tracking.Modules.{
  ModuleManager, track_dll, untrack_dll, restore_dlls_at_sequence, create_module_history_branch,
}
use chronoporia.Tracking.Modules.Restore.{
  IsConsistent, handle_of, module_operations-IsConsistent, restore_dlls_at_sequence-keep,
}
use chronoporia.Tracking.Threads.{
  ThreadManager, thread_info, track_thread, untrack_thread, restore_threads_at_sequence,
  snapshot_threads, create_thread_history_branch,
}
use chronoporia.Tracking.Threads.Snapshot.{Covers, IsCovered, thread_operations-IsCovered}
use chronoporia.Tracking.Threads.Taken.{HasNoRepeat, Histories, taken, snapshot_threads-taken}
use chronoporia.Memory.{
  AllocationRegion, RegionHistory, blank_mbi, update_stale_regions, mark_stale, clear_seen,
}
use chronoporia.Memory.Stale.{Within, bases_of, update_stale_regions-mark_stale}
use chronoporia.Session.{Snapshot, blank_snapshot, handle_run_id_seq}
use chronoporia.Session.Command.{answer, handle_run_id_seq-answer}

abbrev no_modules : ModuleManager
no_modules = record { address_to_name = []; process_module_history = [] }

no_modules-IsConsistent : IsConsistent no_modules
unfolding IsKeyed IsDistinct keys
no_modules-IsConsistent = record { keyed = tt; distinct = tt }

-- One module is loaded at run_seq 2 of run 0.
abbrev one_module : ModuleManager
one_module = track_dll no_modules 5 (65 ∷ []) 2 0 2

one_module-IsConsistent : IsConsistent one_module
one_module-IsConsistent =
    (module_operations-IsConsistent no_modules no_modules-IsConsistent).0 5 (65 ∷ []) 2 0 2

module_operations-IsConsistent_example :
    ((dll_handle : ℕ) (dll_name : List ℕ) (global_seq run_id run_seq : ℕ)
      → IsConsistent (track_dll one_module dll_handle dll_name global_seq run_id run_seq))
    × ((dll_handle global_seq run_id run_seq : ℕ)
        → IsConsistent (untrack_dll one_module dll_handle global_seq run_id run_seq))
    × ((target_run_id target_run_seq new_run_id : ℕ)
        → IsConsistent
            (create_module_history_branch one_module target_run_id target_run_seq new_run_id))
module_operations-IsConsistent_example =
    module_operations-IsConsistent one_module one_module-IsConsistent

restore_dlls_at_sequence-keep_example :
    restore_dlls_at_sequence one_module 0 3 0 1
    ≡ keep
        (is_absent handle_of (loaded_at (λ d. d.loaded) one_module.process_module_history 0 1))
        (loaded_at (λ d. d.loaded) one_module.process_module_history 0 3)
restore_dlls_at_sequence-keep_example =
    restore_dlls_at_sequence-keep one_module 0 3 0 1 one_module-IsConsistent

-- Thread 3 runs and has a history; a context is a number.
abbrev one_thread : ThreadManager ℕ
one_thread = record {
  process_thread_history =
      (3, create (thread_info 0 0 0 false) (thread_info 3 9 0 true) 0 1 1) ∷ [];
  current_thread_ids = 3 ∷ [];
}

one_thread-IsCovered : IsCovered one_thread
unfolding Covers mem keys
one_thread-IsCovered x e = e

thread_operations-IsCovered_example :
    ((thread_id global_seq run_id run_seq : ℕ)
      → IsCovered (track_thread 0 (λ t. t) (λ t. 0) one_thread thread_id global_seq run_id run_seq))
    × ((thread_id global_seq run_id run_seq : ℕ)
        → IsCovered (untrack_thread 0 (λ t. 0) one_thread thread_id global_seq run_id run_seq))
    × ((global_seq from_run_id from_run_seq to_run_id to_run_seq : ℕ)
        → IsCovered
            (restore_threads_at_sequence 0
              (λ t. 0)
              one_thread
              global_seq
              from_run_id
              from_run_seq
              to_run_id
              to_run_seq).0)
    × ((target_run_id target_run_seq new_run_id : ℕ)
        → IsCovered
            (create_thread_history_branch one_thread target_run_id target_run_seq new_run_id))
thread_operations-IsCovered_example =
    thread_operations-IsCovered 0 (λ t. t) (λ t. 0) one_thread one_thread-IsCovered

snapshot_threads-taken_example :
    (after : Histories (λ t. t) (λ t. 0) 2 0 2) × (snapshot_threads
        (λ t. t)
        (λ t. 0)
        one_thread
        2
        0
        2
      ≡ some (record one_thread { process_thread_history = after }))
    × ((x : ℕ)
        → lookup x after ≡ (
            if mem x (3 ∷ [])
            then taken (λ t. t) (λ t. 0) 2 0 2 x (lookup x one_thread.process_thread_history)
            else lookup x one_thread.process_thread_history))
unfolding HasNoRepeat mem
snapshot_threads-taken_example =
    snapshot_threads-taken (λ t. t) (λ t. 0) 2 0 2 one_thread one_thread-IsCovered (refl, tt)

-- An allocation with two regions, of which one scan saw the second only.
abbrev region_at : ℕ → RegionHistory ℕ
region_at a = record {
  base_address = a;
  mbi_history = create blank_mbi blank_mbi 0 1 1;
  memory_history = make_region 0 1 1;
}

abbrev allocation : AllocationRegion ℕ
allocation = record {
  allocation_base = 100;
  regions_history = region_at 100 ∷ region_at 200 ∷ [];
  seen_base_addresses = 200 ∷ [];
}

seen-Within :
    Within allocation.seen_base_addresses (bases_of 0 (λ x y. x == y) allocation.regions_history)
unfolding mem
seen-Within x e = ground arith

update_stale_regions-mark_stale_example :
    update_stale_regions 0 (λ x y. x == y) allocation 0 2 2 ≡ (
      mark_stale 0 (λ x y. x == y) (200 ∷ []) allocation.regions_history 0 2 2 >>= λ hs.
      done (clear_seen 0 (λ x y. x == y) allocation hs))
unfolding mem IsDistinct
update_stale_regions-mark_stale_example =
    update_stale_regions-mark_stale 0 (λ x y. x == y) allocation 0 2 2 (refl, tt) seen-Within

abbrev snapshots : ExecutionTree Snapshot
snapshots = create blank_snapshot blank_snapshot 0 0 0

handle_run_id_seq-answer_example :
    (handle_run_id_seq {Replay = ℕ} snapshots 0 0
      ≡ answer snapshots 0 0 (get_exact_node snapshots 0 0))
    × (handle_run_id_seq {Replay = ℕ} snapshots 0 0 ≢ throws)
    × (handle_run_id_seq {Replay = ℕ} snapshots 0 0 ≢ out_of_fuel)
handle_run_id_seq-answer_example = handle_run_id_seq-answer snapshots 0 0
