-- ===== src/Tree/Lookup/Each.antt =====
-- Statements about every node of a tree, and what a push keeps of them.
use chronoporia.Base.{ℕ, ◌≤◌, ◌<◌, inl, inr, List, [], ◌∷◌, arith, leb, Bool-cases}
use chronoporia.Tree.{Info, Node, Branches, Children, node, no_branch, branch, nil, cons}
use chronoporia.Tree.Lookup.{push_children, push_all, push_branches}

-- `P` holds at each node of a tree, below branches, and below a list of children.
unfoldable mutual
  pub EachNode : {Data : Type 0} → (Info Data → Type 0) → Node Data → Type 0
  EachNode P (node i bs) = P i × EachBranches P bs

  pub EachBranches : {Data : Type 0} → (Info Data → Type 0) → Branches Data → Type 0
  EachBranches P no_branch = Unit
  EachBranches P (branch k ns bs) = EachChildren P ns × EachBranches P bs

  pub EachChildren : {Data : Type 0} → (Info Data → Type 0) → Children Data → Type 0
  EachChildren P nil = Unit
  EachChildren P (cons n ns) = EachNode P n × EachChildren P ns

-- Below the branch of a run no node belongs to an earlier run.
unfoldable mutual
  unfolding EachNode

  pub OrderedNode : {Data : Type 0} → Node Data → Type 0
  OrderedNode (node i bs) = OrderedBranches bs

  pub OrderedBranches : {Data : Type 0} → Branches Data → Type 0
  OrderedBranches no_branch = Unit
  OrderedBranches (branch k ns bs) =
      EachChildren (λ i. k ≤ i.run_id) ns × OrderedChildren ns × OrderedBranches bs

  pub OrderedChildren : {Data : Type 0} → Children Data → Type 0
  OrderedChildren nil = Unit
  OrderedChildren (cons n ns) = OrderedNode n × OrderedChildren ns

module _ {Data : Type 0} where
  unfoldable pub EachStack : (Info Data → Type 0) → List (Node Data) → Type 0
  unfolding EachNode
  EachStack P [] = Unit
  EachStack P (n ∷ stack) = EachNode P n × EachStack P stack

  unfoldable pub OrderedStack : List (Node Data) → Type 0
  unfolding OrderedNode
  OrderedStack [] = Unit
  OrderedStack (n ∷ stack) = OrderedNode n × OrderedStack stack

  each_of_push_children :
      (P : Info Data → Type 0) (ns : Children Data) (stack : List (Node Data))
      → EachStack P (push_children ns stack)
      → EachChildren P ns × EachStack P stack
  unfolding push_children EachStack
  each_of_push_children P nil stack h = (tt, h)
  each_of_push_children P (cons n ns) stack h =
      let rest = each_of_push_children P ns (n ∷ stack) h in ((rest.1.0, rest.0), rest.1.1)

  pub each_of_push_all :
      (P : Info Data → Type 0) (bs : Branches Data) (stack : List (Node Data))
      → EachStack P (push_all bs stack)
      → EachBranches P bs × EachStack P stack
  unfolding push_all EachStack
  each_of_push_all P no_branch stack h = (tt, h)
  each_of_push_all P (branch k ns bs) stack h =
      let (rest, pushed) = each_of_push_all P bs (push_children ns stack) h in
      let (here, below) = each_of_push_children P ns stack pushed in ((here, rest), below)

  ordered-push_children :
      (ns : Children Data) (stack : List (Node Data))
      → OrderedChildren ns
      → OrderedStack stack
      → OrderedStack (push_children ns stack)
  unfolding push_children OrderedStack
  ordered-push_children nil stack o h = h
  ordered-push_children (cons n ns) stack o h = ordered-push_children ns (n ∷ stack) o.1 (o.0, h)

  pub ordered-push_all :
      (bs : Branches Data) (stack : List (Node Data))
      → OrderedBranches bs
      → OrderedStack stack
      → OrderedStack (push_all bs stack)
  unfolding push_all OrderedStack
  ordered-push_all no_branch stack o h = h
  ordered-push_all (branch k ns bs) stack o h =
      ordered-push_all bs (push_children ns stack) o.2 (ordered-push_children ns stack o.1 h)

  pub ordered-push_branches :
      (target : ℕ) (bs : Branches Data) (stack : List (Node Data))
      → OrderedBranches bs
      → OrderedStack stack
      → OrderedStack (push_branches target bs stack)
  unfolding push_branches OrderedStack
  ordered-push_branches target no_branch stack o h = h
  ordered-push_branches target (branch k ns bs) stack o h = elim (Bool-cases (leb k target)) [
    | inl e ↦ rw e (
        ordered-push_branches target bs (push_children ns stack) o.2
          (ordered-push_children ns stack o.1 h))
    | inr e ↦ rw e (ordered-push_branches target bs stack o.2 h)
  ]

mutual
  unfolding EachNode

  EachNode-map :
      {Data : Type 0} (P Q : Info Data → Type 0) (f : (i : Info Data) → P i → Q i) (n : Node Data)
      → EachNode P n
      → EachNode Q n
  EachNode-map P Q f (node i bs) h = (f i h.0, EachBranches-map P Q f bs h.1)

  EachBranches-map :
      {Data : Type 0} (P Q : Info Data → Type 0) (f : (i : Info Data) → P i → Q i)
      (bs : Branches Data)
      → EachBranches P bs
      → EachBranches Q bs
  EachBranches-map P Q f no_branch h = tt
  EachBranches-map P Q f (branch k ns bs) h =
      (EachChildren-map P Q f ns h.0, EachBranches-map P Q f bs h.1)

  EachChildren-map :
      {Data : Type 0} (P Q : Info Data → Type 0) (f : (i : Info Data) → P i → Q i)
      (ns : Children Data)
      → EachChildren P ns
      → EachChildren Q ns
  EachChildren-map P Q f nil h = tt
  EachChildren-map P Q f (cons n ns) h = (EachNode-map P Q f n h.0, EachChildren-map P Q f ns h.1)

module _ {Data : Type 0} where
  -- What holds of all later runs, and on the stack after the push, holds below the branches: the
  -- branches that are not pushed lead to later runs only.
  pub each_of_push_branches :
      (P : Info Data → Type 0) (target : ℕ)
      → ((i : Info Data) → target < i.run_id → P i)
      → (bs : Branches Data) (stack : List (Node Data)) → OrderedBranches bs
      → EachStack P (push_branches target bs stack)
      → EachBranches P bs × EachStack P stack
  unfolding push_branches EachStack OrderedNode
  each_of_push_branches P target later no_branch stack o h = (tt, h)
  each_of_push_branches P target later (branch k ns bs) stack o h =
      elim (Bool-cases (leb k target)) [
        | inl e ↦
            let h' : EachStack P (push_branches target bs (push_children ns stack)) = rw e at h in
            let (rest, pushed) =
              each_of_push_branches P target later bs (push_children ns stack) o.2 h' in
            let (here, below) = each_of_push_children P ns stack pushed in ((here, rest), below)
        | inr e ↦
            let h' : EachStack P (push_branches target bs stack) = rw e at h in
            let (rest, below) = each_of_push_branches P target later bs stack o.2 h' in
            let far : target < k = ground arith in
            (
              (EachChildren-map (λ i. k ≤ i.run_id) P (λ i g. later i (omega arith)) ns o.0, rest),
              below,
            )
      ]
