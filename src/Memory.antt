-- ===== src/Memory.antt =====
-- src/utils/memory: the history of a region (region_history), of the regions of an allocation
-- (allocation_region) and of the process (process_memory_history). The bytes of a region are a list of
-- pages, compared by `same`; `zeroed` is a page of zeros.
pub mod Stale
pub mod Process
use chronoporia.Base.{
  Search, found, nullptr, out_of_fuel as not_ended, ℕ, ◌≡◌, Bool, true, false, not, ◌||◌, Option,
  none, some, List, [], ◌∷◌, ◌++◌, if◌then◌else◌, ◌==◌, lookup, insert, length, mem,
}
use chronoporia.Tree.{ExecutionTree, create, add_child}
use chronoporia.Tree.Lookup.{get_state, revert_to_state}
use chronoporia.Region.{Outcome, done, throws, out_of_fuel, ◌>>=◌}
use chronoporia.Region.Pages.{
  PersistentRegion, make_region, update_region, branch_region, get_region_at_time,
}

-- `MEMORY_BASIC_INFORMATION`.
pub record Mbi : Type 0 where
  pub base_address : ℕ
  pub allocation_base : ℕ
  pub allocation_protect : ℕ
  pub region_size : ℕ
  pub state : ℕ
  pub protect : ℕ
  pub kind : ℕ

abbrev pub mem_commit : ℕ
mem_commit = 0x1000

abbrev pub mem_free : ℕ
mem_free = 0x10000

-- `MEMORY_BASIC_INFORMATION mbi = {}`.
abbrev pub blank_mbi : Mbi
blank_mbi = record {
  base_address = 0;
  allocation_base = 0;
  allocation_protect = 0;
  region_size = 0;
  state = 0;
  protect = 0;
  kind = 0;
}

abbrev pub freed_mbi : Mbi
freed_mbi = record blank_mbi { state = mem_free }

pub record RegionInfo (Page : Type 0) : Type 0 where
  pub current_mbi : Mbi
  pub current_memory : List Page

pub record RegionHistory (Page : Type 0) : Type 0 where
  pub base_address : ℕ
  pub mbi_history : ExecutionTree Mbi
  pub memory_history : PersistentRegion Page

pub record AllocationRegion (Page : Type 0) : Type 0 where
  pub allocation_base : ℕ
  pub regions_history : List (RegionHistory Page)
  pub seen_base_addresses : List ℕ

abbrev pub info_with : {Page : Type 0} → Mbi → List Page → RegionInfo Page
info_with mbi memory = record { current_mbi = mbi; current_memory = memory }

module _ {Page : Type 0} (zeroed : Page) (same : Page → Page → Bool) where
  -- The constructor of `RegionHistory`.
  unfoldable pub start_history : Mbi → List Page → ℕ → ℕ → ℕ → Outcome (RegionHistory Page)
  start_history mbi region_buf run_id run_seq global_seq =
      update_region same (make_region run_id run_seq global_seq) run_id run_seq global_seq
        region_buf
      >>= λ memory. done (record {
        base_address = mbi.base_address;
        mbi_history = create blank_mbi mbi run_id run_seq global_seq;
        memory_history = memory;
      })

  -- The memory of a committed region; a read moves the cursors of its pages.
  unfoldable pub read_region :
      RegionHistory Page → ℕ → ℕ → Mbi → Outcome (RegionHistory Page × Option (RegionInfo Page))
  read_region h target_run_id target_run_seq mbi =
      if mbi.state == mem_commit
      then (get_region_at_time zeroed h.memory_history target_run_id target_run_seq mbi.region_size
          >>= λ out. done (record h { memory_history = out.0 }, some (info_with mbi out.1)))
      else done (h, some (info_with mbi []))

  unfoldable pub read_state :
      RegionHistory Page
      → ℕ
      → ℕ
      → Search Mbi
      → Outcome (RegionHistory Page × Option (RegionInfo Page))
  read_state h target_run_id target_run_seq (found mbi) =
      read_region h target_run_id target_run_seq mbi
  read_state h target_run_id target_run_seq nullptr = done (h, none)
  read_state h target_run_id target_run_seq not_ended = out_of_fuel

  unfoldable pub get_current_region_info :
      RegionHistory Page → ℕ → ℕ → Outcome (RegionHistory Page × Option (RegionInfo Page))
  get_current_region_info h target_run_id target_run_seq =
      read_state h target_run_id target_run_seq
        (get_state h.mbi_history target_run_id target_run_seq)

  unfoldable pub update_history :
      RegionHistory Page → ℕ → ℕ → ℕ → Mbi → List Page → Outcome (RegionHistory Page)
  update_history h run_id run_seq global_seq mbi region_buf =
      update_region same h.memory_history run_id run_seq global_seq region_buf >>= λ memory.
      done (record h {
        memory_history = memory;
        mbi_history = add_child h.mbi_history mbi run_id run_seq global_seq;
      })

  unfoldable pub branch_history : RegionHistory Page → ℕ → ℕ → ℕ → Outcome (RegionHistory Page)
  branch_history h from_run_id from_run_sequence to_run_id =
      branch_region h.memory_history from_run_id from_run_sequence to_run_id >>= λ memory.
      done (record h {
        memory_history = memory;
        mbi_history = revert_to_state h.mbi_history from_run_id from_run_sequence to_run_id;
      })

  -- The constructor of `AllocationRegion`: the base address is not yet seen.
  unfoldable pub start_allocation : Mbi → List Page → ℕ → ℕ → ℕ → Outcome (AllocationRegion Page)
  start_allocation mbi region_memory run_id run_seq global_seq =
      start_history mbi region_memory run_id run_seq global_seq >>= λ h. done (record {
        allocation_base = mbi.allocation_base;
        regions_history = h ∷ [];
        seen_base_addresses = [];
      })

  -- The first history with the base address is updated, or a new one is appended.
  unfoldable pub update_at :
      List (RegionHistory Page) → Mbi → List Page → ℕ → ℕ → ℕ → Outcome (List (RegionHistory Page))
  update_at [] mbi region_memory run_id run_seq global_seq =
      start_history mbi region_memory run_id run_seq global_seq >>= λ h. done (h ∷ [])
  update_at (h ∷ histories) mbi region_memory run_id run_seq global_seq =
      let rest = update_at histories mbi region_memory run_id run_seq global_seq in
      if h.base_address == mbi.base_address
      then (update_history h run_id run_seq global_seq mbi region_memory >>= λ h'.
          done (h' ∷ histories))
      else (rest >>= λ hs. done (h ∷ hs))

  unfoldable pub update_allocation :
      AllocationRegion Page → Mbi → List Page → ℕ → ℕ → ℕ → Outcome (AllocationRegion Page)
  unfolding update_at
  update_allocation a mbi region_memory run_id run_seq global_seq =
      update_at a.regions_history mbi region_memory run_id run_seq global_seq >>= λ hs.
      done (record a {
        regions_history = hs;
        seen_base_addresses = a.seen_base_addresses ++ mbi.base_address ∷ [];
      })

  -- A region that does not exist, or is free, is left out.
  unfoldable pub push_region :
      Option (RegionInfo Page) → List (RegionInfo Page) → List (RegionInfo Page)
  push_region none regions = regions
  push_region (some i) regions = if i.current_mbi.state == mem_free then regions else i ∷ regions

  unfoldable pub read_regions :
      List (RegionHistory Page)
      → ℕ
      → ℕ
      → Outcome (List (RegionHistory Page) × List (RegionInfo Page))
  unfolding push_region
  read_regions [] target_run_id target_run_seq = done ([], [])
  read_regions (h ∷ histories) target_run_id target_run_seq =
      get_current_region_info h target_run_id target_run_seq >>= λ out.
      read_regions histories target_run_id target_run_seq >>= λ rest.
      done (out.0 ∷ rest.0, push_region out.1 rest.1)

  unfoldable pub get_current_regions :
      AllocationRegion Page → ℕ → ℕ → Outcome (AllocationRegion Page × List (RegionInfo Page))
  unfolding read_regions
  get_current_regions a target_run_id target_run_seq =
      read_regions a.regions_history target_run_id target_run_seq >>= λ out.
      done (record a { regions_history = out.0 }, out.1)

  -- The loop of `update_stale_regions`: a region that was not seen is marked as free.
  unfoldable pub mark_stale :
      List ℕ → List (RegionHistory Page) → ℕ → ℕ → ℕ → Outcome (List (RegionHistory Page))
  mark_stale seen [] run_id run_seq global_seq = done []
  mark_stale seen (h ∷ histories) run_id run_seq global_seq =
      let marked = update_history h run_id run_seq global_seq freed_mbi [] in
      (if mem h.base_address seen then done h else marked) >>= λ h'.
      mark_stale seen histories run_id run_seq global_seq >>= λ hs. done (h' ∷ hs)

  abbrev pub clear_seen : AllocationRegion Page → List (RegionHistory Page) → AllocationRegion Page
  clear_seen a histories = record a { regions_history = histories; seen_base_addresses = [] }

  unfoldable pub update_stale_regions :
      AllocationRegion Page → ℕ → ℕ → ℕ → Outcome (AllocationRegion Page)
  unfolding mark_stale
  update_stale_regions a run_id run_seq global_seq =
      if length a.regions_history == length a.seen_base_addresses
      then done (clear_seen a a.regions_history)
      else (mark_stale a.seen_base_addresses a.regions_history run_id run_seq global_seq >>= λ hs.
          done (clear_seen a hs))

  unfoldable pub branch_each :
      List (RegionHistory Page) → ℕ → ℕ → ℕ → Outcome (List (RegionHistory Page))
  branch_each [] from_run_id from_run_seq to_run_id = done []
  branch_each (h ∷ histories) from_run_id from_run_seq to_run_id =
      branch_history h from_run_id from_run_seq to_run_id >>= λ h'.
      branch_each histories from_run_id from_run_seq to_run_id >>= λ hs. done (h' ∷ hs)

  unfoldable pub branch_allocation :
      AllocationRegion Page → ℕ → ℕ → ℕ → Outcome (AllocationRegion Page)
  unfolding branch_each
  branch_allocation a from_run_id from_run_seq to_run_id =
      branch_each a.regions_history from_run_id from_run_seq to_run_id >>= λ hs.
      done (record a { regions_history = hs })

  -- `regions_history_[0]` decides; no region at all is an index out of range.
  abbrev pub is_free : Option (RegionInfo Page) → Bool
  is_free none = true
  is_free (some i) = i.current_mbi.state == mem_free

  unfoldable pub is_allocation_freed :
      AllocationRegion Page → ℕ → ℕ → Outcome (AllocationRegion Page × Bool)
  is_allocation_freed a target_run_id target_run_seq = elim a.regions_history [
    | [] ↦ throws
    | h ∷ histories ↦ get_current_region_info h target_run_id target_run_seq >>= λ out.
        done (record a { regions_history = out.0 ∷ histories }, is_free out.1)
  ]
