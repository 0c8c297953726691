-- ===== src/Persistent/CacheArray.antt =====
-- `FullyPersistentCacheArray<PageSize>` of src/utils/fully_persistent_array.h: a page as a list of
-- `amount` cache lines, each with its own history. A line is an abstract value with the `memcmp`
-- test `same` and the all-zero line `zeroed`. Pages are those of at most 4096 bytes, which
-- `latest_page_memory` holds; a line index is below `amount`, as the callers see to.
pub mod Sync
pub mod Page
use chronoporia.Base.{
  Search, found, nullptr, out_of_fuel, ℕ, zero, suc, ◌≡◌, Bool, Option, none, some, List, [], ◌∷◌,
  ◌++◌, lookup, insert, get_or, set, get_elem?, if◌then◌else◌,
}
use chronoporia.Persistent.Walk.{FatNode, BranchPoint, walk, own}

pub record CacheArray (Line : Type 0) : Type 0 where
  pub created_run_id : ℕ
  pub created_run_seq : ℕ
  pub runs : List (ℕ × List (List (FatNode Line)))
  pub lineage : List (ℕ × BranchPoint)
  pub latest_page_memory : List Line

abbrev pub replicate {ℓ} : {A : Type ℓ} → ℕ → A → List A
replicate zero a = []
replicate (suc n) a = a ∷ replicate n a

module _ {Line : Type 0} where
  abbrev pub line_node : ℕ → ℕ → ℕ → Line → FatNode Line
  line_node run_id run_seq global_seq line = record {
    run_id = run_id;
    run_seq = run_seq;
    global_seq = global_seq;
    data_at = line;
  }

  -- The loop of the constructor: one node for each line of the page.
  unfoldable pub first_nodes : ℕ → ℕ → ℕ → List Line → List (List (FatNode Line))
  first_nodes run_id run_seq global_seq [] = []
  first_nodes run_id run_seq global_seq (line ∷ page) =
      (line_node run_id run_seq global_seq line ∷ []) ∷ first_nodes run_id run_seq global_seq page

  unfoldable pub create : ℕ → ℕ → ℕ → List Line → CacheArray Line
  unfolding first_nodes
  create run_id run_seq global_seq page = record {
    created_run_id = run_id;
    created_run_seq = run_seq;
    runs = (run_id, first_nodes run_id run_seq global_seq page) ∷ [];
    lineage = [];
    latest_page_memory = page;
  }

  unfoldable pub register_branch : CacheArray Line → ℕ → ℕ → ℕ → CacheArray Line
  register_branch a run_id parent_run_id branch_run_seq = record a {
    lineage =
        insert run_id (record { parent_run_id = parent_run_id; branch_run_seq = branch_run_seq })
          a.lineage;
  }

  -- `cache_lines[cache_line_idx].push_back(fat_node)`.
  unfoldable pub push_line :
      List (List (FatNode Line)) → ℕ → FatNode Line → List (List (FatNode Line))
  push_line lines idx n = set lines idx (own (get_elem? lines idx) ++ n ∷ [])

  -- The fast path: one line is known to have changed.
  unfoldable pub update_line : ℕ → CacheArray Line → ℕ → ℕ → ℕ → ℕ → Line → CacheArray Line
  unfolding push_line
  update_line amount a run_id run_seq global_seq idx line = record a {
    runs =
        insert run_id
          (push_line (get_or run_id (replicate amount []) a.runs) idx
            (line_node run_id run_seq global_seq line))
          a.runs;
    latest_page_memory = set a.latest_page_memory idx line;
  }

  -- The loop of the page update, from line `idx` on: only the lines that differ are recorded.
  unfoldable pub update_page :
      (Line → Line → Bool)
      → ℕ
      → CacheArray Line
      → ℕ
      → ℕ
      → ℕ
      → ℕ
      → List Line
      → List Line
      → CacheArray Line
  update_page same amount a run_id run_seq global_seq idx (line ∷ page) (old ∷ previous) =
      update_page same amount
        (if same line old then a else update_line amount a run_id run_seq global_seq idx line)
        run_id run_seq global_seq (suc idx) page previous
  update_page same amount a run_id run_seq global_seq idx page previous = a

  -- The history of one line in each run.
  abbrev pub line_history :
      List (ℕ × List (List (FatNode Line))) → ℕ → ℕ → Option (List (FatNode Line))
  line_history runs idx r = elim (lookup r runs) [ none ↦ none | some lines ↦ get_elem? lines idx ]

  unfoldable pub find_fat_node : CacheArray Line → ℕ → ℕ → ℕ → Search (FatNode Line)
  find_fat_node a idx run_id run_seq =
      walk (line_history a.runs idx) a.lineage (suc run_id) run_id run_seq

  abbrev pub cons_line : Line → Search (FatNode Line) → Option (List Line) → Option (List Line)
  cons_line zeroed s none = none
  cons_line zeroed out_of_fuel (some rest) = none
  cons_line zeroed nullptr (some rest) = some (zeroed ∷ rest)
  cons_line zeroed (found n) (some rest) = some (n.data_at ∷ rest)

  -- The loop of `get` over `count` lines from `idx` on; a line with no node stays zero. `none` where
  -- a search does not end.
  unfoldable pub get_lines : Line → CacheArray Line → ℕ → ℕ → ℕ → ℕ → Option (List Line)
  unfolding find_fat_node
  get_lines zeroed a run_id run_seq idx zero = some []
  get_lines zeroed a run_id run_seq idx (suc count) =
      cons_line zeroed (find_fat_node a idx run_id run_seq)
        (get_lines zeroed a run_id run_seq (suc idx) count)

  unfoldable pub get : Line → ℕ → CacheArray Line → ℕ → ℕ → Option (List Line)
  unfolding get_lines
  get zeroed amount a run_id run_seq = get_lines zeroed a run_id run_seq 0 amount

  -- O(1) read of the mirror.
  unfoldable pub latest : CacheArray Line → List Line
  latest a = a.latest_page_memory
