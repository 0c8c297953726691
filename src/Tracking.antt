-- ===== src/Tracking.antt =====
-- src/managers/module_manager.cpp and thread_manager.cpp: a tree of states for each loaded
-- module and each thread. The maps are lists of pairs, in the order that a loop visits them.
pub mod Modules
pub mod Threads
pub mod Histories
pub mod LeftOver
use chronoporia.Base.{
  Search, found, nullptr, out_of_fuel, ℕ, ◌≡◌, Bool, true, false, Option, none, some, List, [], ◌∷◌,
  if◌then◌else◌, ◌==◌, lookup, insert, contains,
}
use chronoporia.Tree.{ExecutionTree, create, add_child}
use chronoporia.Tree.Lookup.{get_state, revert_to_state}

module _ {Data : Type 0} where
  -- `AddChild` on the history of a key, or a new history with `blank` at its root.
  unfoldable pub track :
      Data → List (ℕ × ExecutionTree Data) → ℕ → Data → ℕ → ℕ → ℕ → List (ℕ × ExecutionTree Data)
  track blank histories key state global_seq run_id run_seq = elim (lookup key histories) [
    | some t ↦ insert key (add_child t state run_id run_seq global_seq) histories
    | none ↦ insert key (create blank state run_id run_seq global_seq) histories
  ]

  -- `AddChild` on the history of a key that has one.
  unfoldable pub change :
      List (ℕ × ExecutionTree Data) → ℕ → Data → ℕ → ℕ → ℕ → List (ℕ × ExecutionTree Data)
  change histories key state global_seq run_id run_seq = elim (lookup key histories) [
    | some t ↦ insert key (add_child t state run_id run_seq global_seq) histories
    | none ↦ histories
  ]

  -- `RevertToState` on every history.
  unfoldable pub branch_all :
      List (ℕ × ExecutionTree Data) → ℕ → ℕ → ℕ → List (ℕ × ExecutionTree Data)
  branch_all [] target_run_id target_run_seq new_run_id = []
  branch_all ((k, t) ∷ histories) target_run_id target_run_seq new_run_id =
      (k, revert_to_state t target_run_id target_run_seq new_run_id)
      ∷ branch_all histories target_run_id target_run_seq new_run_id

  -- `if (state && state->loaded) states.push_back(*state);`
  unfoldable pub push_loaded : (Data → Bool) → Search Data → List Data → List Data
  push_loaded loaded (found d) states = if loaded d then d ∷ states else states
  push_loaded loaded nullptr states = states
  push_loaded loaded out_of_fuel states = states

  -- The states that are loaded at a point of a run, in the order of the map.
  unfoldable pub loaded_at : (Data → Bool) → List (ℕ × ExecutionTree Data) → ℕ → ℕ → List Data
  loaded_at loaded [] run_id run_seq = []
  loaded_at loaded ((k, t) ∷ histories) run_id run_seq =
      push_loaded loaded (get_state t run_id run_seq) (loaded_at loaded histories run_id run_seq)

  -- `erase(find_if(...))`: the first state with a key.
  unfoldable pub erase_first : (Data → ℕ) → ℕ → List Data → List Data
  erase_first key_of k [] = []
  erase_first key_of k (d ∷ states) =
      let rest = erase_first key_of k states in if key_of d == k then states else d ∷ rest

  -- The states left over when each of the first list has taken one with its key.
  unfoldable pub left_over : (Data → ℕ) → List Data → List Data → List Data
  unfolding erase_first
  left_over key_of [] states = states
  left_over key_of (d ∷ snapped) states =
      left_over key_of snapped (erase_first key_of (key_of d) states)
