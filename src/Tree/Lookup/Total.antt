-- ===== src/Tree/Lookup/Total.antt =====
-- The rounds of the loops, and the searches for an exact match.
use chronoporia.Base.{
  Search, found, nullptr, out_of_fuel, ℕ, zero, suc, ◌+◌, ◌≤◌, ◌<◌, ◌≡◌, refl, ◌≢◌, Bool, true,
  false, Option, none, some, List, [], ◌∷◌, arith,
}
use chronoporia.Tree.{
  Node, Branches, Children, node, no_branch, branch, nil, cons, ExecutionTree, branch_children,
  size, size_branches, size_children,
}
use chronoporia.Tree.Lookup.{
  push_children, push_all, push_branches, better, origin_of, find_loop, exact_loop, exists_loop,
  start, rounds, find_node, exact_node_exists, get_exact_node,
}

module _ {Data : Type 0} where
  -- The nodes that a stack still holds, with all that are below them.
  unfoldable pub pending : List (Node Data) → ℕ
  pending [] = 0
  pending (n ∷ stack) = size n + pending stack

  pending-push_children :
      (ns : Children Data) (stack : List (Node Data))
      → pending (push_children ns stack) ≡ size_children ns + pending stack
  unfolding pending push_children size
  pending-push_children nil stack = omega arith
  pending-push_children (cons n ns) stack = omega (arith, pending-push_children ns (n ∷ stack))

  pending-push_all :
      (bs : Branches Data) (stack : List (Node Data))
      → pending (push_all bs stack) ≡ size_branches bs + pending stack
  unfolding push_all size
  pending-push_all no_branch stack = omega arith
  pending-push_all (branch k ns bs) stack =
      omega (arith, pending-push_all bs (push_children ns stack), pending-push_children ns stack)

  pending-push_branches :
      (target : ℕ) (bs : Branches Data) (stack : List (Node Data))
      → pending (push_branches target bs stack) ≤ size_branches bs + pending stack
  unfolding push_branches size
  pending-push_branches target no_branch stack = omega arith
  pending-push_branches target (branch k ns bs) stack = ground (
    arith,
    pending-push_branches target bs (push_children ns stack),
    pending-push_branches target bs stack,
    pending-push_children ns stack,
  )

  -- A round leaves less to do.
  pub pending-round :
      (target : ℕ) (n : Node Data) (stack : List (Node Data))
      → pending (push_branches target (branch_children n) stack) < pending (n ∷ stack)
  unfolding pending size
  pending-round target (node i bs) stack = omega (arith, pending-push_branches target bs stack)

  find_loop-total :
      (fuel target seq : ℕ) (stack : List (Node Data)) (best origin : Option (Node Data))
      → pending stack < fuel
      → find_loop fuel target seq stack best origin ≢ out_of_fuel
  unfolding find_loop
  find_loop-total zero target seq stack best origin h = absurd (omega arith)
  find_loop-total (suc fuel) target seq [] best origin h = ground arith
  find_loop-total (suc fuel) target seq (n ∷ stack) best origin h = ground (
    arith,
    pending-round target n stack,
    find_loop-total fuel target seq (push_branches target (branch_children n) stack)
        (better target seq n best) (origin_of target n origin),
  )

  exact_loop-total :
      (fuel target seq : ℕ) (stack : List (Node Data))
      → pending stack < fuel
      → exact_loop fuel target seq stack ≢ out_of_fuel
  unfolding exact_loop
  exact_loop-total zero target seq stack h = absurd (omega arith)
  exact_loop-total (suc fuel) target seq [] h = ground arith
  exact_loop-total (suc fuel) target seq (n ∷ stack) h = ground (
    arith,
    pending-round target n stack,
    exact_loop-total fuel target seq (push_branches target (branch_children n) stack),
  )

  pub pending-start : (t : ExecutionTree Data) → pending (start t) < rounds t
  unfolding size pending
  pending-start t = ground (arith, pending-push_all (branch_children t.tree_node) [])

  -- The boolean search is the pointer search with the pointer forgotten.
  abbrev pub is_found : Search (Node Data) → Option Bool
  is_found (found n) = some true
  is_found nullptr = some false
  is_found out_of_fuel = none

  exists_loop-exact_loop :
      (fuel target seq : ℕ) (stack : List (Node Data))
      → exists_loop fuel target seq stack ≡ is_found (exact_loop fuel target seq stack)
  unfolding exists_loop exact_loop
  exists_loop-exact_loop zero target seq stack = refl
  exists_loop-exact_loop (suc fuel) target seq [] = refl
  exists_loop-exact_loop (suc fuel) target seq (n ∷ stack) = ground (
    arith,
    exists_loop-exact_loop fuel target seq (push_branches target (branch_children n) stack),
  )

  -- The searches for a node and for an exact match end on every tree: they return a node, or none.
  pub searches-total :
      (t : ExecutionTree Data) (target_run_id target_run_seq : ℕ)
      → (find_node t target_run_id target_run_seq ≢ out_of_fuel)
        × (get_exact_node t target_run_id target_run_seq ≢ out_of_fuel)
        × (exact_node_exists t target_run_id target_run_seq ≢ none)
  unfolding find_node get_exact_node exact_node_exists
  searches-total t r s = (
    find_loop-total (rounds t) r s (start t) none none (pending-start t),
    exact_loop-total (rounds t) r s (start t) (pending-start t),
    ground (
      arith,
      exists_loop-exact_loop (rounds t) r s (start t),
      exact_loop-total (rounds t) r s (start t) (pending-start t),
    ),
  )

  -- `ExactNodeExists` answers true exactly when `GetExactNode` returns a node, and false exactly when
  -- it returns none.
  pub exact_node_exists-get_exact_node :
      (t : ExecutionTree Data) (target_run_id target_run_seq : ℕ)
      → exact_node_exists t target_run_id target_run_seq
        ≡ is_found (get_exact_node t target_run_id target_run_seq)
  unfolding exact_node_exists get_exact_node
  exact_node_exists-get_exact_node t r s = exists_loop-exact_loop (rounds t) r s (start t)
