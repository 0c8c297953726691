-- ===== src/Tree/Lookup.antt =====
-- The searches of src/utils/execution_tree.h. Each loop pops the back of a vector of nodes, here
-- the head of a list; `size + 1` rounds are enough, since a round takes one node off.
pub mod Total
pub mod Agree
pub mod Each
pub mod Best
pub mod Inside
pub mod Exact
use chronoporia.Base.{
  Search, found, nullptr, out_of_fuel, ℕ, zero, suc, ◌≡◌, Bool, true, false, not, ◌&&◌, Option,
  none, some, List, [], ◌∷◌, ◌++◌, if◌then◌else◌, ◌==◌, ltb, leb,
}
use chronoporia.Tree.{
  Info, Node, Branches, Children, node, no_branch, branch, nil, cons, ExecutionTree, info,
  branch_children, size, modify, touch_branch,
}

module _ {Data : Type 0} where
  -- `for (child : children) stack.push_back(child.get());`
  unfoldable pub push_children : Children Data → List (Node Data) → List (Node Data)
  push_children nil stack = stack
  push_children (cons n ns) stack = push_children ns (n ∷ stack)

  -- The children of the root, over every branch.
  unfoldable pub push_all : Branches Data → List (Node Data) → List (Node Data)
  unfolding push_children
  push_all no_branch stack = stack
  push_all (branch k ns bs) stack = push_all bs (push_children ns stack)

  -- The branches that can lead to the target run: those of a run that is not later.
  unfoldable pub push_branches : ℕ → Branches Data → List (Node Data) → List (Node Data)
  unfolding push_children
  push_branches target no_branch stack = stack
  push_branches target (branch k ns bs) stack =
      push_branches target bs (if leb k target then push_children ns stack else stack)

  unfoldable pub has_branch : ℕ → Branches Data → Bool
  has_branch target no_branch = false
  has_branch target (branch k ns bs) = if k == target then true else has_branch target bs

  unfoldable pub is_exact : ℕ → ℕ → Node Data → Bool
  is_exact target seq n = target == (info n).run_id && seq == (info n).run_seq

  -- `best_in_run == nullptr || node->run_seq > best_in_run->run_seq`
  abbrev pub is_better : ℕ → Option (Node Data) → Bool
  is_better run_seq none = true
  is_better run_seq (some b) = ltb (info b).run_seq run_seq

  unfoldable pub better : ℕ → ℕ → Node Data → Option (Node Data) → Option (Node Data)
  better target seq n best =
      if (info n).run_id == target && leb (info n).run_seq seq && is_better (info n).run_seq best
      then some n
      else best

  -- The node that the target run branches from.
  unfoldable pub origin_of : ℕ → Node Data → Option (Node Data) → Option (Node Data)
  unfolding has_branch
  origin_of target n origin =
      if has_branch target (branch_children n) && not ((info n).run_id == target)
      then some n
      else origin

  abbrev pub choose : Option (Node Data) → Option (Node Data) → Search (Node Data)
  choose (some best) origin = found best
  choose none (some origin) = found origin
  choose none none = nullptr

  unfoldable pub find_loop :
      ℕ → ℕ → ℕ → List (Node Data) → Option (Node Data) → Option (Node Data) → Search (Node Data)
  find_loop zero target seq stack best origin = out_of_fuel
  find_loop (suc fuel) target seq [] best origin = choose best origin
  find_loop (suc fuel) target seq (n ∷ stack) best origin = elim (is_exact target seq n) [
    | true ↦ found n
    | false ↦
        find_loop fuel target seq (push_branches target (branch_children n) stack)
          (better target seq n best) (origin_of target n origin)
  ]

  unfoldable pub nearest_loop :
      ℕ → ℕ → ℕ → List (Node Data) → Option (Node Data) → Option (Node Data) → Search (Node Data)
  nearest_loop zero target seq stack best origin = out_of_fuel
  nearest_loop (suc fuel) target seq [] best origin = choose best origin
  nearest_loop (suc fuel) target seq (n ∷ stack) best origin =
      nearest_loop fuel target seq (push_branches target (branch_children n) stack)
        (better target seq n best) (origin_of target n origin)

  unfoldable pub exact_loop : ℕ → ℕ → ℕ → List (Node Data) → Search (Node Data)
  exact_loop zero target seq stack = out_of_fuel
  exact_loop (suc fuel) target seq [] = nullptr
  exact_loop (suc fuel) target seq (n ∷ stack) = elim (is_exact target seq n) [
    | true ↦ found n
    | false ↦ exact_loop fuel target seq (push_branches target (branch_children n) stack)
  ]

  -- `none` where the loop has not ended.
  unfoldable pub exists_loop : ℕ → ℕ → ℕ → List (Node Data) → Option Bool
  exists_loop zero target seq stack = none
  exists_loop (suc fuel) target seq [] = some false
  exists_loop (suc fuel) target seq (n ∷ stack) = elim (is_exact target seq n) [
    | true ↦ some true
    | false ↦ exists_loop fuel target seq (push_branches target (branch_children n) stack)
  ]

  abbrev pub start : ExecutionTree Data → List (Node Data)
  start t = push_all (branch_children t.tree_node) []

  abbrev pub rounds : ExecutionTree Data → ℕ
  rounds t = suc (size t.tree_node)

  unfoldable pub find_node : ExecutionTree Data → ℕ → ℕ → Search (Node Data)
  find_node t target_run_id target_run_seq =
      find_loop (rounds t) target_run_id target_run_seq (start t) none none

  unfoldable pub exact_node_exists : ExecutionTree Data → ℕ → ℕ → Option Bool
  exact_node_exists t target_run_id target_run_seq =
      exists_loop (rounds t) target_run_id target_run_seq (start t)

  unfoldable pub get_exact_node : ExecutionTree Data → ℕ → ℕ → Search (Node Data)
  get_exact_node t target_run_id target_run_seq =
      exact_loop (rounds t) target_run_id target_run_seq (start t)

  abbrev pub state_of : Search (Node Data) → Search Data
  state_of (found n) = found (info n).state
  state_of nullptr = nullptr
  state_of out_of_fuel = out_of_fuel

  unfoldable pub get_state : ExecutionTree Data → ℕ → ℕ → Search Data
  get_state t target_run_id target_run_seq = state_of (find_node t target_run_id target_run_seq)

  unfoldable pub get_nearest_state : ExecutionTree Data → ℕ → ℕ → Search Data
  get_nearest_state t target_run_id target_run_seq =
      state_of (nearest_loop (rounds t) target_run_id target_run_seq (start t) none none)

  abbrev pub cursor_at : Search (Node Data) → ℕ → ℕ
  cursor_at (found n) root = (info n).addr
  cursor_at nullptr root = root
  cursor_at out_of_fuel root = root

  -- The cursor goes to the node that is found, or to the root, which gets an empty branch.
  unfoldable pub revert_to_state : ExecutionTree Data → ℕ → ℕ → ℕ → ExecutionTree Data
  revert_to_state t target_run_id target_run_seq new_run_id =
      let cursor = cursor_at (find_node t target_run_id target_run_seq) (info t.tree_node).addr in
      record t { tree_node = modify cursor (touch_branch new_run_id) t.tree_node; cursor = cursor }
