-- ===== src/Memory/Process.antt =====
-- src/utils/memory/process_memory_history.cpp and the scan of src/managers/memory_manager.cpp. What
-- Windows reports of each region, in address order, is a list of `Mbi` with the bytes that were read.
use chronoporia.Base.{
  ℕ, Bool, true, false, ◌&&◌, ◌||◌, none, some, List, [], ◌∷◌, if◌then◌else◌, ◌==◌, leb, lookup,
  insert, mem,
}
use chronoporia.Region.{Outcome, done, ◌>>=◌}
use chronoporia.Memory.{
  Mbi, RegionInfo, AllocationRegion, start_allocation, update_allocation, get_current_regions,
  update_stale_regions, branch_allocation, is_allocation_freed, mem_commit,
}

-- `KUSER_SHARED_DATA`, in globals.cpp.
pub record SharedData : Type 0 where
  pub first : ℕ
  pub final : ℕ

module _ {Page : Type 0} (zeroed : Page) (same : Page → Page → Bool) where
  -- `process_history_`, in the order that a loop visits it.
  abbrev pub History : Type 0
  History = List (ℕ × AllocationRegion Page)

  -- The allocation of the region is updated, or a new one is made.
  unfoldable pub update_process : History → Mbi → List Page → ℕ → ℕ → ℕ → Outcome History
  update_process p mbi region_memory run_id run_seq global_seq =
      elim (lookup mbi.allocation_base p) [
        | none ↦ start_allocation zeroed same mbi region_memory run_id run_seq global_seq >>= λ a.
            done (insert mbi.allocation_base a p)
        | some old ↦
            update_allocation zeroed same old mbi region_memory run_id run_seq global_seq >>= λ a.
            done (insert mbi.allocation_base a p)
      ]

  unfoldable pub update_stale_allocations : History → ℕ → ℕ → ℕ → Outcome History
  update_stale_allocations [] run_id run_seq global_seq = done []
  update_stale_allocations ((k, a) ∷ p) run_id run_seq global_seq =
      update_stale_regions zeroed same a run_id run_seq global_seq >>= λ a'.
      update_stale_allocations p run_id run_seq global_seq >>= λ rest. done ((k, a') ∷ rest)

  unfoldable pub branch_process : History → ℕ → ℕ → ℕ → Outcome History
  branch_process [] from_run_id from_run_seq to_run_id = done []
  branch_process ((k, a) ∷ p) from_run_id from_run_seq to_run_id =
      branch_allocation zeroed same a from_run_id from_run_seq to_run_id >>= λ a'.
      branch_process p from_run_id from_run_seq to_run_id >>= λ rest. done ((k, a') ∷ rest)

  abbrev push_allocation :
      Bool
      → ℕ × List (RegionInfo Page)
      → List (ℕ × List (RegionInfo Page))
      → List (ℕ × List (RegionInfo Page))
  push_allocation true info rest = rest
  push_allocation false info rest = info ∷ rest

  -- The regions of an allocation that is not freed.
  unfoldable pub read_allocation :
      AllocationRegion Page
      → ℕ
      → ℕ
      → Bool
      → Outcome (AllocationRegion Page × List (RegionInfo Page))
  read_allocation a target_run_id target_run_seq true = done (a, [])
  read_allocation a target_run_id target_run_seq false =
      get_current_regions zeroed same a target_run_id target_run_seq

  unfoldable pub get_current_allocation_regions :
      History → ℕ → ℕ → Outcome (History × List (ℕ × List (RegionInfo Page)))
  unfolding read_allocation
  get_current_allocation_regions [] target_run_id target_run_seq = done ([], [])
  get_current_allocation_regions ((k, a) ∷ p) target_run_id target_run_seq =
      is_allocation_freed zeroed same a target_run_id target_run_seq >>= λ freed.
      read_allocation freed.0 target_run_id target_run_seq freed.1 >>= λ out.
      get_current_allocation_regions p target_run_id target_run_seq >>= λ rest.
      done ((k, out.0) ∷ rest.0, push_allocation freed.1 (k, out.1) rest.1)

  -- `SnapshotMemory` skips the system's shared page and the addresses of the blacklist, and keeps the
  -- bytes of committed regions only.
  unfoldable pub is_skipped : SharedData → List ℕ → ℕ → Bool
  is_skipped shared address_blacklist address =
      (leb shared.first address && leb address shared.final) || mem address address_blacklist

  abbrev pub memory_of : Mbi → List Page → List Page
  memory_of mbi read = if mbi.state == mem_commit then read else []

  unfoldable pub scan_regions :
      SharedData → List ℕ → History → List (Mbi × List Page) → ℕ → ℕ → ℕ → Outcome History
  unfolding is_skipped
  scan_regions shared blacklist p [] global_sequence run_id run_sequence = done p
  scan_regions shared blacklist p ((m, read) ∷ regions) global_sequence run_id run_sequence =
      (if is_skipped shared blacklist m.base_address
        then done p
        else update_process p m (memory_of m read) run_id run_sequence global_sequence)
      >>= λ p'. scan_regions shared blacklist p' regions global_sequence run_id run_sequence

  unfoldable pub snapshot_memory :
      SharedData → List ℕ → History → List (Mbi × List Page) → ℕ → ℕ → ℕ → Outcome History
  snapshot_memory shared address_blacklist p regions global_sequence run_id run_sequence =
      scan_regions shared address_blacklist p regions global_sequence run_id run_sequence >>= λ p'.
      update_stale_allocations p' run_id run_sequence global_sequence
