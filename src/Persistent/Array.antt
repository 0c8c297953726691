-- ===== src/Persistent/Array.antt =====
-- `FullyPersistentArray<Data>` of src/utils/fully_persistent_array.h: one value per update, read
-- at any (run_id, run_seq). `runs` and `lineage` are association lists; a lookup takes the fuel
-- `run_id + 1`, since each hop of the walk goes to a smaller run.
pub mod Laws
use chronoporia.Base.{
  Search, found, nullptr, out_of_fuel, ℕ, suc, ◌≡◌, Option, none, some, List, [], ◌∷◌, ◌++◌, lookup,
  insert, get_or, All,
}
use chronoporia.Persistent.Walk.{FatNode, BranchPoint, walk, IsForest, IsSorted, timeline}

pub record PersistentArray (Data : Type 0) : Type 0 where
  pub created_run_id : ℕ
  pub created_run_seq : ℕ
  pub runs : List (ℕ × List (FatNode Data))
  pub lineage : List (ℕ × BranchPoint)

module _ {Data : Type 0} where
  -- The constructor that takes a first value.
  unfoldable pub create : ℕ → ℕ → ℕ → Data → PersistentArray Data
  create run_id run_seq global_seq value = record {
    created_run_id = run_id;
    created_run_seq = run_seq;
    runs =
        (
          run_id,
          record { run_id = run_id; run_seq = run_seq; global_seq = global_seq; data_at = value }
              ∷ [],
        )
        ∷ [];
    lineage = [];
  }

  unfoldable pub register_branch : PersistentArray Data → ℕ → ℕ → ℕ → PersistentArray Data
  register_branch a run_id parent_run_id branch_run_seq = record a {
    lineage =
        insert run_id (record { parent_run_id = parent_run_id; branch_run_seq = branch_run_seq })
          a.lineage;
  }

  unfoldable pub update : PersistentArray Data → ℕ → ℕ → ℕ → Data → PersistentArray Data
  update a run_id run_seq global_seq value = record a {
    runs =
        insert run_id
          (get_or run_id [] a.runs
            ++ record {
              run_id = run_id;
              run_seq = run_seq;
              global_seq = global_seq;
              data_at = value;
            }
              ∷ [])
          a.runs;
  }

  unfoldable pub find_fat_node : PersistentArray Data → ℕ → ℕ → Search (FatNode Data)
  find_fat_node a run_id run_seq = walk (λ r. lookup r a.runs) a.lineage (suc run_id) run_id run_seq

  abbrev pub data_of : Search (FatNode Data) → Search Data
  data_of (found n) = found n.data_at
  data_of nullptr = nullptr
  data_of out_of_fuel = out_of_fuel

  -- The pointer is followed without a test: `nullptr` is a crash.
  unfoldable pub get : PersistentArray Data → ℕ → ℕ → Search Data
  get a run_id run_seq = data_of (find_fat_node a run_id run_seq)

  abbrev pub optional_data_of : Search (FatNode Data) → Search (Option Data)
  optional_data_of (found n) = found (some n.data_at)
  optional_data_of nullptr = found none
  optional_data_of out_of_fuel = out_of_fuel

  -- `found none` is `std::nullopt`.
  unfoldable pub try_get : PersistentArray Data → ℕ → ℕ → Search (Option Data)
  try_get a run_id run_seq = optional_data_of (find_fat_node a run_id run_seq)

  -- Branches go to larger runs, and each run's history is in order.
  pub record IsValid (a : PersistentArray Data) : Type 0 where
    pub forest : IsForest a.lineage
    pub sorted : All (λ e. IsSorted e.1) a.runs

  -- The updates that a reader at (run_id, run_seq) can see, oldest first.
  unfoldable pub visible : PersistentArray Data → ℕ → ℕ → List (FatNode Data)
  visible a run_id run_seq = timeline (λ r. lookup r a.runs) a.lineage (suc run_id) run_id run_seq
