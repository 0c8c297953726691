-- ===== src/Tree/Lookup/Exact.antt =====
-- The searches for an exact match.
use chronoporia.Base.{
  Search, found, nullptr, out_of_fuel, ℕ, zero, suc, ◌<◌, ◌≡◌, ◌≢◌, refl, inl, inr, true, false,
  List, [], ◌∷◌, ◌&&◌, ◌==◌, arith, Bool-cases,
}
use chronoporia.Tree.{Info, Node, node, ExecutionTree, info, branch_children}
use chronoporia.Tree.Lookup.{
  push_branches, is_exact, exact_loop, start, rounds, get_exact_node, exact_node_exists,
}
use chronoporia.Tree.Lookup.Total.{
  pending, pending-round, pending-start, is_found, exact_node_exists-get_exact_node,
}
use chronoporia.Tree.Lookup.Each.{
  EachBranches, EachStack, OrderedBranches, OrderedStack, each_of_push_all, ordered-push_all,
  ordered-push_branches, each_of_push_branches,
}
use chronoporia.Tree.Lookup.Inside.{
  InNode, InBranches, InStack, in_of_push_all, in_of_push_branches,
}

module _ {Data : Type 0} (target seq : ℕ) where
  -- The node is of another run or at another point of it.
  abbrev pub Differs : Info Data → Type 0
  Differs i = i.run_id ≡ target → i.run_seq ≢ seq

  abbrev IsExactOf : List (Node Data) → Search (Node Data) → Type 0
  IsExactOf stack out_of_fuel = ⊥
  IsExactOf stack nullptr = EachStack Differs stack
  IsExactOf stack (found m) =
      ((info m).run_id ≡ target) × ((info m).run_seq ≡ seq) × InStack m stack

  is_exact_lem :
      (n : Node Data)
      → is_exact target seq n ≡ true
      → ((info n).run_id ≡ target) × ((info n).run_seq ≡ seq)
  unfolding is_exact
  is_exact_lem n e = ground (arith, e)

  not_exact : (i : Info Data) → (target == i.run_id && seq == i.run_seq) ≡ false → Differs i
  not_exact i e r s = ground (arith, e, r, s)

  exact_round :
      (n : Node Data) (stack : List (Node Data)) (r : Search (Node Data))
      → is_exact target seq n ≡ false
      → OrderedStack (n ∷ stack)
      → IsExactOf (push_branches target (branch_children n) stack) r
      → IsExactOf (n ∷ stack) r
  unfolding EachStack OrderedStack is_exact InStack InNode
  exact_round (node i bs) stack out_of_fuel e o a = a
  exact_round (node i bs) stack nullptr e o a =
      let (below, rest) =
        each_of_push_branches Differs target (λ j far same. absurd (omega arith)) bs stack o.0 a in
      ((not_exact i e, below), rest)
  exact_round (node i bs) stack (found m) e o (run, at, inside) = (
    run,
    at,
    elim (in_of_push_branches m target bs stack inside) [
      | inl below ↦ inl (inr below)
      | inr rest ↦ inr rest
    ],
  )

  ordered_below :
      (n : Node Data) (stack : List (Node Data))
      → OrderedStack (n ∷ stack)
      → OrderedStack (push_branches target (branch_children n) stack)
  unfolding OrderedStack
  ordered_below (node i bs) stack o = ordered-push_branches target bs stack o.0 o.1

  in_itself : (n : Node Data) → InNode n n
  unfolding InNode
  in_itself (node i bs) = inl refl

  exact_loop-IsExactOf :
      (fuel : ℕ) (stack : List (Node Data))
      → pending stack < fuel
      → OrderedStack stack
      → IsExactOf stack (exact_loop fuel target seq stack)
  unfolding exact_loop EachStack InStack
  exact_loop-IsExactOf zero stack h o = absurd (omega arith)
  exact_loop-IsExactOf (suc fuel) [] h o = tt
  exact_loop-IsExactOf (suc fuel) (n ∷ stack) h o = elim (Bool-cases (is_exact target seq n)) [
    | inl e ↦ rw (e, exact_loop) (let (run, at) = is_exact_lem n e in (run, at, inl (in_itself n)))
    | inr e ↦
        rw (e, exact_loop)
          (exact_round n stack
            (exact_loop fuel target seq (push_branches target (branch_children n) stack)) e o
            (exact_loop-IsExactOf fuel (push_branches target (branch_children n) stack)
              (omega (arith, pending-round target n stack)) (ordered_below n stack o)))
  ]

-- The right answer of a search for an exact match, about the nodes below the root.
abbrev pub IsExact : {Data : Type 0} → ExecutionTree Data → ℕ → ℕ → Search (Node Data) → Type 0
IsExact t target seq out_of_fuel = ⊥
IsExact t target seq nullptr = EachBranches (Differs target seq) (branch_children t.tree_node)
IsExact t target seq (found m) =
    ((info m).run_id ≡ target)
    × ((info m).run_seq ≡ seq)
    × InBranches m (branch_children t.tree_node)

IsExact-of_stack :
    {Data : Type 0} (t : ExecutionTree Data) (target seq : ℕ) (r : Search (Node Data))
    → IsExactOf target seq (start t) r
    → IsExact t target seq r
unfolding InStack
IsExact-of_stack t target seq out_of_fuel a = a
IsExact-of_stack t target seq nullptr a =
    (each_of_push_all (Differs target seq) (branch_children t.tree_node) [] a).0
IsExact-of_stack t target seq (found m) (run, at, inside) = (
  run,
  at,
  elim (in_of_push_all m (branch_children t.tree_node) [] inside) [
    | inl below ↦ below
    | inr none_left ↦ absurd (omega (arith, none_left))
  ],
)

-- On a tree whose branches lead to later runs only, the search for an exact match ends: it returns a
-- node below the root with the run_id and the run_seq that were asked for, or none, and then no node
-- below the root has both, in the branches that the search leaves out neither. `ExactNodeExists` ends
-- too, and says whether it returns a node.
pub get_exact_node-IsExact :
    {Data : Type 0} (t : ExecutionTree Data) (target_run_id target_run_seq : ℕ)
    → OrderedBranches (branch_children t.tree_node)
    → IsExact t target_run_id target_run_seq (get_exact_node t target_run_id target_run_seq)
      × (exact_node_exists t target_run_id target_run_seq
          ≡ is_found (get_exact_node t target_run_id target_run_seq))
unfolding get_exact_node
get_exact_node-IsExact t r s o = (
  IsExact-of_stack t r s (exact_loop (rounds t) r s (start t)) (
      exact_loop-IsExactOf r s (rounds t) (start t) (pending-start t)
        (ordered-push_all (branch_children t.tree_node) [] o (unfold OrderedStack in tt))),
  exact_node_exists-get_exact_node t r s,
)
