-- ===== src/Tree/Lookup/Best.antt =====
-- Which node the search returns.
use chronoporia.Base.{
  Search, found, nullptr, out_of_fuel, ℕ, zero, suc, ◌≤◌, ◌<◌, ◌≡◌, refl, ◌≢◌, ◌⊎◌, inl, inr, true,
  Option, none, some, List, [], ◌∷◌, arith, Option-cases,
}
use chronoporia.Tree.{Info, Node, node, ExecutionTree, info, branch_children}
use chronoporia.Tree.Lookup.{
  push_branches, has_branch, better, origin_of, choose, nearest_loop, find_loop, start, rounds,
  find_node,
}
use chronoporia.Tree.Lookup.Total.{pending, pending-round, pending-start}
use chronoporia.Tree.Lookup.Agree.{find_loop-nearest_loop}
use chronoporia.Tree.Lookup.Each.{
  EachBranches, EachStack, OrderedBranches, OrderedStack, each_of_push_all, ordered-push_all,
  ordered-push_branches, each_of_push_branches,
}

module _ {Data : Type 0} (target seq : ℕ) where
  -- A node of the target run at or before the target is at most at `bound`.
  abbrev pub AtMost : ℕ → Info Data → Type 0
  AtMost bound i = i.run_id ≡ target → i.run_seq ≤ seq → i.run_seq ≤ bound

  -- It is no node of the target run at or before the target.
  abbrev pub Outside : Info Data → Type 0
  Outside i = i.run_id ≡ target → seq < i.run_seq

  -- The run branches off here.
  abbrev pub IsOrigin : Node Data → Type 0
  IsOrigin n = (has_branch target (branch_children n) ≡ true) × ((info n).run_id ≢ target)

  abbrev IsGood : Option (Node Data) → Type 0
  IsGood none = Unit
  IsGood (some b) = ((info b).run_id ≡ target) × ((info b).run_seq ≤ seq)

  abbrev IsGoodOrigin : Option (Node Data) → Type 0
  IsGoodOrigin none = Unit
  IsGoodOrigin (some o) = IsOrigin o

  -- What a loop that starts from `best` and `origin` returns for the nodes of a stack.
  abbrev Answer : List (Node Data) → Option (Node Data) → Search (Node Data) → Type 0
  Answer stack best out_of_fuel = ⊥
  Answer stack best nullptr = (best ≡ none) × EachStack Outside stack
  Answer stack best (found m) =
      (((info m).run_id ≡ target)
        × ((info m).run_seq ≤ seq)
        × EachStack (AtMost (info m).run_seq) stack
        × ((b : Node Data) → best ≡ some b → (info b).run_seq ≤ (info m).run_seq))
      ⊎ ((best ≡ none) × EachStack Outside stack × IsOrigin m)

  better-IsGood :
      (n : Node Data) (best : Option (Node Data)) → IsGood best → IsGood (better target seq n best)
  unfolding better
  better-IsGood n none g = ground arith
  better-IsGood n (some b) g = ground arith

  origin_of-IsGoodOrigin :
      (n : Node Data) (o : Option (Node Data))
      → IsGoodOrigin o
      → IsGoodOrigin (origin_of target n o)
  unfolding origin_of
  origin_of-IsGoodOrigin n none g = ground arith
  origin_of-IsGoodOrigin n (some o) g = ground arith

  choose-Answer :
      (best origin : Option (Node Data))
      → IsGood best
      → IsGoodOrigin origin
      → Answer [] best (choose best origin)
  unfolding EachStack
  choose-Answer (some b) origin g k = inl (g.0, g.1, tt, λ c e. ground arith)
  choose-Answer none (some o) g k = inr (refl, tt, k)
  choose-Answer none none g k = (refl, tt)

  better-none :
      (n : Node Data) (best : Option (Node Data))
      → better target seq n best ≡ none
      → (best ≡ none) × Outside (info n)
  unfolding better
  better-none n none h = (refl, λ e. ground arith)
  better-none n (some b) h = ground arith

  -- The better of the two is at least as late as both.
  better_candidate :
      (n b : Node Data) (best : Option (Node Data))
      → better target seq n best ≡ some b
      → AtMost (info b).run_seq (info n)
        × ((c : Node Data) → best ≡ some c → (info c).run_seq ≤ (info b).run_seq)
  unfolding better
  better_candidate n b none h = (λ e l. ground arith, λ c e. ground arith)
  better_candidate n b (some d) h = (λ e l. ground arith, λ c e. ground arith)

  better_covers :
      (n : Node Data) (best : Option (Node Data)) (bound : ℕ)
      → ((b : Node Data) → better target seq n best ≡ some b → (info b).run_seq ≤ bound)
      → AtMost bound (info n) × ((b : Node Data) → best ≡ some b → (info b).run_seq ≤ bound)
  better_covers n best bound c = elim (Option-cases (better target seq n best)) [
    | inl e ↦
        let (gone, out) = better-none n best e in
        (λ r l. absurd (omega (arith, out r)), λ b h. ground arith)
    | inr (b, e) ↦
        let (at, old) = better_candidate n b best e in
        let top : (info b).run_seq ≤ bound = c b e in
        (λ r l. omega (arith, at r l), λ d h. omega (arith, old d h))
  ]

  -- One round: from the answer for the rest to the answer with `n` on top.
  round-Answer :
      (n : Node Data) (stack : List (Node Data)) (best : Option (Node Data))
      (r : Search (Node Data))
      → OrderedStack (n ∷ stack)
      → Answer (push_branches target (branch_children n) stack) (better target seq n best) r
      → Answer (n ∷ stack) best r
  unfolding EachStack OrderedStack
  round-Answer (node i bs) stack best out_of_fuel o a = a
  round-Answer (node i bs) stack best nullptr o a =
      let (gone, out) = better-none (node i bs) best a.0 in
      let (below, rest) =
        each_of_push_branches Outside target (λ j far e. absurd (omega arith)) bs stack o.0 a.1 in
      (gone, ((out, below), rest))
  round-Answer (node i bs) stack best (found m) o (inl (e, l, each, cover)) =
      let bound = (info m).run_seq in
      let (at, old) = better_covers (node i bs) best bound cover in
      let (below, rest) =
        each_of_push_branches (AtMost bound) target (λ j far e l. absurd (omega arith)) bs stack o.0
          each in
      inl (e, l, ((at, below), rest), old)
  round-Answer (node i bs) stack best (found m) o (inr (e, each, origin)) =
      let (gone, out) = better-none (node i bs) best e in
      let (below, rest) =
        each_of_push_branches Outside target (λ j far e. absurd (omega arith)) bs stack o.0 each in
      inr (gone, ((out, below), rest), origin)

  ordered_round :
      (n : Node Data) (stack : List (Node Data))
      → OrderedStack (n ∷ stack)
      → OrderedStack (push_branches target (branch_children n) stack)
  unfolding OrderedStack
  ordered_round (node i bs) stack o = ordered-push_branches target bs stack o.0 o.1

  nearest_loop-Answer :
      (fuel : ℕ) (stack : List (Node Data)) (best origin : Option (Node Data))
      → pending stack < fuel
      → OrderedStack stack
      → IsGood best
      → IsGoodOrigin origin
      → Answer stack best (nearest_loop fuel target seq stack best origin)
  unfolding nearest_loop
  nearest_loop-Answer zero stack best origin h o g k = absurd (omega arith)
  nearest_loop-Answer (suc fuel) [] best origin h o g k = choose-Answer best origin g k
  nearest_loop-Answer (suc fuel) (n ∷ stack) best origin h o g k =
      round-Answer n stack best
        (nearest_loop fuel target seq (push_branches target (branch_children n) stack)
          (better target seq n best) (origin_of target n origin))
        o
        (nearest_loop-Answer fuel (push_branches target (branch_children n) stack)
          (better target seq n best) (origin_of target n origin)
          (omega (arith, pending-round target n stack)) (ordered_round n stack o)
          (better-IsGood n best g) (origin_of-IsGoodOrigin n origin k))

-- The right answer of a search, about the nodes below the root.
abbrev pub IsAnswer : {Data : Type 0} → ExecutionTree Data → ℕ → ℕ → Search (Node Data) → Type 0
IsAnswer t target seq out_of_fuel = ⊥
IsAnswer t target seq nullptr = EachBranches (Outside target seq) (branch_children t.tree_node)
IsAnswer t target seq (found m) =
    (((info m).run_id ≡ target)
      × ((info m).run_seq ≤ seq)
      × EachBranches (AtMost target seq (info m).run_seq) (branch_children t.tree_node))
    ⊎ (EachBranches (Outside target seq) (branch_children t.tree_node) × IsOrigin target seq m)

Answer-of_stack :
    {Data : Type 0} (t : ExecutionTree Data) (target seq : ℕ) (r : Search (Node Data))
    → Answer target seq (start t) none r
    → IsAnswer t target seq r
Answer-of_stack t target seq out_of_fuel a = a
Answer-of_stack t target seq nullptr a =
    (each_of_push_all (Outside target seq) (branch_children t.tree_node) [] a.1).0
Answer-of_stack t target seq (found m) (inl (e, l, each, cover)) = inl (
  e,
  l,
  (each_of_push_all (AtMost target seq (info m).run_seq) (branch_children t.tree_node) [] each).0,
)
Answer-of_stack t target seq (found m) (inr (e, each, origin)) =
    inr ((each_of_push_all (Outside target seq) (branch_children t.tree_node) [] each).0, origin)

-- On a tree whose branches lead to later runs only, `FindNode` ends with the right answer: a node of
-- the target run at or before the target than which no such node of the tree is later; or, if the
-- tree has no such node, a node that the target run branches from; or none, and then too the tree
-- has no such node.
pub find_node-IsAnswer :
    {Data : Type 0} (t : ExecutionTree Data) (target_run_id target_run_seq : ℕ)
    → OrderedBranches (branch_children t.tree_node)
    → IsAnswer t target_run_id target_run_seq (find_node t target_run_id target_run_seq)
unfolding find_node
find_node-IsAnswer t r s o = Answer-of_stack t r s (find_loop (rounds t) r s (start t) none none) (
    rw (find_loop-nearest_loop (rounds t) r s (start t) none none (pending-start t) tt) (
      nearest_loop-Answer r s (rounds t) (start t) none none (pending-start t)
        (ordered-push_all (branch_children t.tree_node) [] o (unfold OrderedStack in tt)) tt tt))
