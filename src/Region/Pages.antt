-- ===== src/Region/Pages.antt =====
-- `FullyPersistentRegion` of src/utils/fully_persistent_region.h, over the histories of its pages.
use chronoporia.Base.{ℕ, zero, suc, ◌/◌, Bool, Option, none, some, List, [], ◌∷◌}
use chronoporia.Persistent.Walk.{FatNode}
use chronoporia.Region.{
  Outcome, done, throws, ◌>>=◌, FatNodeHistory, make, update, make_branch, get_node_nearest,
}

-- `FullyPersistentRegion`: a history for each page, in address order.
pub record PersistentRegion (Page : Type 0) : Type 0 where
  pub created_run_id : ℕ
  pub created_run_seq : ℕ
  pub created_global_seq : ℕ
  pub region_history : List (FatNodeHistory Page)

module _ {Page : Type 0} where
  unfoldable pub make_region : ℕ → ℕ → ℕ → PersistentRegion Page
  make_region run_id run_seq global_seq = record {
    created_run_id = run_id;
    created_run_seq = run_seq;
    created_global_seq = global_seq;
    region_history = [];
  }

  -- Both loops of `update`: the pages with a history, then those that are new.
  unfoldable pub update_pages :
      (Page → Page → Bool)
      → ℕ
      → ℕ
      → ℕ
      → List (FatNodeHistory Page)
      → List Page
      → Outcome (List (FatNodeHistory Page))
  update_pages same run_id run_seq global_seq histories [] = done histories
  update_pages same run_id run_seq global_seq [] (page ∷ pages) =
      update same (make run_id run_seq) run_id run_seq global_seq page >>= λ h.
      update_pages same run_id run_seq global_seq [] pages >>= λ hs. done (h ∷ hs)
  update_pages same run_id run_seq global_seq (h ∷ histories) (page ∷ pages) =
      update same h run_id run_seq global_seq page >>= λ h'.
      update_pages same run_id run_seq global_seq histories pages >>= λ hs. done (h' ∷ hs)

  unfoldable pub update_region :
      (Page → Page → Bool)
      → PersistentRegion Page
      → ℕ
      → ℕ
      → ℕ
      → List Page
      → Outcome (PersistentRegion Page)
  unfolding update_pages
  update_region same r run_id run_seq global_seq pages =
      update_pages same run_id run_seq global_seq r.region_history pages >>= λ hs.
      done (record r { region_history = hs })

  unfoldable pub branch_pages :
      List (FatNodeHistory Page) → ℕ → ℕ → ℕ → Outcome (List (FatNodeHistory Page))
  branch_pages [] from_run_id from_run_sequence to_run_id = done []
  branch_pages (h ∷ histories) from_run_id from_run_sequence to_run_id =
      make_branch h from_run_id from_run_sequence to_run_id >>= λ h'.
      branch_pages histories from_run_id from_run_sequence to_run_id >>= λ hs. done (h' ∷ hs)

  unfoldable pub branch_region : PersistentRegion Page → ℕ → ℕ → ℕ → Outcome (PersistentRegion Page)
  unfolding branch_pages
  branch_region r from_run_id from_run_sequence to_run_id =
      branch_pages r.region_history from_run_id from_run_sequence to_run_id >>= λ hs.
      done (record r { region_history = hs })

  abbrev pub page_of : Page → Option (FatNode Page) → Page
  page_of zeroed none = zeroed
  page_of zeroed (some n) = n.data_at

  -- `count` pages of the region; one with no node stays zero, and a page beyond the histories is an
  -- index out of range.
  unfoldable pub read_pages :
      Page
      → ℕ
      → ℕ
      → ℕ
      → List (FatNodeHistory Page)
      → Outcome (List (FatNodeHistory Page) × List Page)
  read_pages zeroed run seq zero histories = done (histories, [])
  read_pages zeroed run seq (suc count) [] = throws
  read_pages zeroed run seq (suc count) (h ∷ histories) = get_node_nearest h run seq >>= λ out.
      read_pages zeroed run seq count histories >>= λ rest.
      done (out.0 ∷ rest.0, page_of zeroed out.1 ∷ rest.1)

  unfoldable pub get_region_at_time :
      Page → PersistentRegion Page → ℕ → ℕ → ℕ → Outcome (PersistentRegion Page × List Page)
  unfolding read_pages
  get_region_at_time zeroed r from_run_id from_run_sequence region_size =
      read_pages zeroed from_run_id from_run_sequence (region_size / 4096) r.region_history
      >>= λ out. done (record r { region_history = out.0 }, out.1)
