-- ===== src/Tests/Trees.antt =====
-- The tree of snapshots on a small tree.
use chronoporia.Base.{found, ℕ, ◌≤◌, ◌≡◌, refl, none, some, arith}
use chronoporia.Tree.{
  size, Node, node, no_branch, branch, nil, cons, ExecutionTree, info, leaf, branch_children,
}
use chronoporia.Tree.Lookup.{
  find_node, get_exact_node, exact_node_exists, get_state, get_nearest_state, exact_loop, push_all,
  push_children, push_branches, is_exact,
}
use chronoporia.Tree.Lookup.Total.{is_found}
use chronoporia.Tree.Lookup.Exact.{IsExact, get_exact_node-IsExact}
use chronoporia.Tree.Lookup.Agree.{get_nearest_state-get_state}
use chronoporia.Tree.Lookup.Each.{EachNode, OrderedNode, OrderedBranches}
use chronoporia.Tree.Lookup.Best.{find_node-IsAnswer, IsAnswer}

abbrev first : Node ℕ
first =
    node (info (leaf 10 0 0 0 (some 0) 1))
      (branch 0 (cons (leaf 11 0 1 1 (some 1) 2) nil) no_branch)

-- Run 0 with two snapshots.
abbrev small : ExecutionTree ℕ
small = record {
  tree_node = node (info (leaf 0 0 0 0 none 0)) (branch 0 (cons first nil) no_branch);
  cursor = 1;
  next_addr = 3;
}

small-Ordered : OrderedBranches (branch_children small.tree_node)
unfolding OrderedNode EachNode
small-Ordered = (((p, (((p, tt), tt), tt)), tt), ((((p, tt), tt), (tt, tt), tt), tt), tt)
  where
    p : 0 ≤ 0
    p = omega arith

find_node-IsAnswer_example : IsAnswer small 0 5 (find_node small 0 5)
find_node-IsAnswer_example = find_node-IsAnswer small 0 5 small-Ordered

get_exact_node-IsExact_example :
    IsExact small 0 5 (get_exact_node small 0 5)
    × (exact_node_exists small 0 5 ≡ is_found (get_exact_node small 0 5))
get_exact_node-IsExact_example = get_exact_node-IsExact small 0 5 small-Ordered

get_nearest_state-get_state_example : get_nearest_state small 0 5 ≡ get_state small 0 5
get_nearest_state-get_state_example = get_nearest_state-get_state small 0 5

find_first : get_exact_node small 0 0 ≡ found first
unfolding get_exact_node exact_loop size push_all push_children push_branches is_exact
find_first = refl
