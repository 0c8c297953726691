-- ===== src/Tree/Lookup/Inside.antt =====
-- The nodes of a tree, and those that a search takes up.
use chronoporia.Base.{ℕ, ◌≤◌, ◌≡◌, ◌⊎◌, inl, inr, List, [], ◌∷◌, leb, Bool-cases}
use chronoporia.Tree.{Node, Branches, Children, node, no_branch, branch, nil, cons}
use chronoporia.Tree.Lookup.{push_children, push_all, push_branches}

-- A node is the root of a tree or below it, below branches, or below a list of children.
unfoldable mutual
  pub InNode : {Data : Type 0} → Node Data → Node Data → Type 0
  InNode m (node i bs) = (m ≡ node i bs) ⊎ InBranches m bs

  pub InBranches : {Data : Type 0} → Node Data → Branches Data → Type 0
  InBranches m no_branch = 1 ≤ 0
  InBranches m (branch k ns bs) = InChildren m ns ⊎ InBranches m bs

  pub InChildren : {Data : Type 0} → Node Data → Children Data → Type 0
  InChildren m nil = 1 ≤ 0
  InChildren m (cons n ns) = InNode m n ⊎ InChildren m ns

module _ {Data : Type 0} (m : Node Data) where
  unfoldable pub InStack : List (Node Data) → Type 0
  InStack [] = 1 ≤ 0
  InStack (n ∷ stack) = InNode m n ⊎ InStack stack

  in_of_push_children :
      (ns : Children Data) (stack : List (Node Data))
      → InStack (push_children ns stack)
      → InChildren m ns ⊎ InStack stack
  unfolding push_children InStack InNode
  in_of_push_children nil stack h = inr h
  in_of_push_children (cons n ns) stack h = elim (in_of_push_children ns (n ∷ stack) h) [
    | inl below ↦ inl (inr below)
    | inr (inl here) ↦ inl (inl here)
    | inr (inr rest) ↦ inr rest
  ]

  pub in_of_push_all :
      (bs : Branches Data) (stack : List (Node Data))
      → InStack (push_all bs stack)
      → InBranches m bs ⊎ InStack stack
  unfolding push_all InNode
  in_of_push_all no_branch stack h = inr h
  in_of_push_all (branch k ns bs) stack h = elim (in_of_push_all bs (push_children ns stack) h) [
    | inl below ↦ inl (inr below)
    | inr pushed ↦ (elim (in_of_push_children ns stack pushed) [
      | inl here ↦ inl (inl here)
      | inr rest ↦ inr rest
    ])
  ]

  pub in_of_push_branches :
      (target : ℕ) (bs : Branches Data) (stack : List (Node Data))
      → InStack (push_branches target bs stack)
      → InBranches m bs ⊎ InStack stack
  unfolding push_branches InNode
  in_of_push_branches target no_branch stack h = inr h
  in_of_push_branches target (branch k ns bs) stack h = elim (Bool-cases (leb k target)) [
    | inl e ↦
        let h' : InStack (push_branches target bs (push_children ns stack)) = rw e at h in
        (elim (in_of_push_branches target bs (push_children ns stack) h') [
          | inl below ↦ inl (inr below)
          | inr pushed ↦ (elim (in_of_push_children ns stack pushed) [
            | inl here ↦ inl (inl here)
            | inr rest ↦ inr rest
          ])
        ])
    | inr e ↦
        let h' : InStack (push_branches target bs stack) = rw e at h in
        (elim (in_of_push_branches target bs stack h') [
          | inl below ↦ inl (inr below)
          | inr rest ↦ inr rest
        ])
  ]
