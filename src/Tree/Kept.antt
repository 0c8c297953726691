-- ===== src/Tree/Kept.antt =====
-- What holds of every node of a tree, through its operations and its searches.
use chronoporia.Base.{
  Search, found, nullptr, out_of_fuel, ℕ, zero, suc, ◌≡◌, refl, inl, inr, Bool, true, false, Option,
  none, some, List, [], ◌∷◌, if◌then◌else◌, ◌==◌, ltb, leb, Bool-cases,
}
use chronoporia.Tree.{
  Info, Node, Branches, Children, node, no_branch, branch, nil, cons, ExecutionTree, info,
  branch_children, push_back, push_branch, touch_branch, modify, modify_branches, modify_children,
  create, add_child, leaf,
}
use chronoporia.Tree.Lookup.{
  push_children, push_all, push_branches, better, origin_of, choose, find_loop, start, rounds,
  find_node, revert_to_state, is_exact, cursor_at,
}
use chronoporia.Tree.Lookup.Each.{EachNode, EachBranches, EachChildren, EachStack}

at-EachBranches :
    {Data : Type 0} (P : Info Data → Type 0) (f : Branches Data → Branches Data)
    → ((bs : Branches Data) → EachBranches P bs → EachBranches P (f bs))
    → (b : Bool) (bs below : Branches Data) → EachBranches P bs
    → EachBranches P below
    → EachBranches P (if b then f bs else below)
at-EachBranches P f keeps true bs below h g = keeps bs h
at-EachBranches P f keeps false bs below h g = g

mutual
  unfolding EachNode modify

  modify-EachNode :
      {Data : Type 0} (P : Info Data → Type 0) (a : ℕ) (f : Branches Data → Branches Data)
      → ((bs : Branches Data) → EachBranches P bs → EachBranches P (f bs))
      → (n : Node Data) → EachNode P n
      → EachNode P (modify a f n)
  modify-EachNode P a f keeps (node i bs) h = (
    h.0,
    at-EachBranches P f keeps (i.addr == a) bs (modify_branches a f bs) h.1
        (modify-EachBranches P a f keeps bs h.1),
  )

  modify-EachBranches :
      {Data : Type 0} (P : Info Data → Type 0) (a : ℕ) (f : Branches Data → Branches Data)
      → ((bs : Branches Data) → EachBranches P bs → EachBranches P (f bs))
      → (bs : Branches Data) → EachBranches P bs
      → EachBranches P (modify_branches a f bs)
  modify-EachBranches P a f keeps no_branch h = tt
  modify-EachBranches P a f keeps (branch k ns bs) h =
      (modify-EachChildren P a f keeps ns h.0, modify-EachBranches P a f keeps bs h.1)

  modify-EachChildren :
      {Data : Type 0} (P : Info Data → Type 0) (a : ℕ) (f : Branches Data → Branches Data)
      → ((bs : Branches Data) → EachBranches P bs → EachBranches P (f bs))
      → (ns : Children Data) → EachChildren P ns
      → EachChildren P (modify_children a f ns)
  modify-EachChildren P a f keeps nil h = tt
  modify-EachChildren P a f keeps (cons n ns) h =
      (modify-EachNode P a f keeps n h.0, modify-EachChildren P a f keeps ns h.1)

module _ {Data : Type 0} (P : Info Data → Type 0) where
  push_back-EachChildren :
      (ns : Children Data) (n : Node Data)
      → EachChildren P ns
      → EachNode P n
      → EachChildren P (push_back ns n)
  unfolding push_back EachNode
  push_back-EachChildren nil n h g = (g, tt)
  push_back-EachChildren (cons m ms) n h g = (h.0, push_back-EachChildren ms n h.1 g)

  push_branch-EachBranches :
      (r : ℕ) (n : Node Data) (bs : Branches Data)
      → EachNode P n
      → EachBranches P bs
      → EachBranches P (push_branch r n bs)
  unfolding push_branch EachNode
  push_branch-EachBranches r n no_branch g h = ((g, tt), tt)
  push_branch-EachBranches r n (branch k ns bs) g h = elim (Bool-cases (k == r)) [
    | inl e ↦ rw e (push_back-EachChildren ns n h.0 g, h.1)
    | inr e ↦ elim (Bool-cases (ltb r k)) [
      | inl l ↦ rw (e, l) ((g, tt), h)
      | inr l ↦ rw (e, l) (h.0, push_branch-EachBranches r n bs g h.1)
    ]
  ]

  touch_branch-EachBranches :
      (r : ℕ) (bs : Branches Data) → EachBranches P bs → EachBranches P (touch_branch r bs)
  unfolding touch_branch EachNode
  touch_branch-EachBranches r no_branch h = (tt, tt)
  touch_branch-EachBranches r (branch k ns bs) h = elim (Bool-cases (k == r)) [
    | inl e ↦ rw e h
    | inr e ↦ elim (Bool-cases (ltb r k)) [
      | inl l ↦ rw (e, l) (tt, h)
      | inr l ↦ rw (e, l) (h.0, touch_branch-EachBranches r bs h.1)
    ]
  ]

  -- `P` holds at every node below the root, which is only a place to hang them.
  abbrev pub EachSnapshot : ExecutionTree Data → Type 0
  EachSnapshot t = EachBranches P (branch_children t.tree_node)

  modify-root :
      (a : ℕ) (f : Branches Data → Branches Data) (n : Node Data)
      → ((bs : Branches Data) → EachBranches P bs → EachBranches P (f bs))
      → EachBranches P (branch_children n)
      → EachBranches P (branch_children (modify a f n))
  unfolding modify
  modify-root a f (node i bs) keeps h =
      at-EachBranches P f keeps (i.addr == a) bs (modify_branches a f bs) h
        (modify-EachBranches P a f keeps bs h)

  pub create-EachSnapshot :
      (blank state : Data) (run_id run_seq global_seq : ℕ)
      → ((i : Info Data) → i.state ≡ state → P i)
      → EachSnapshot (create blank state run_id run_seq global_seq)
  unfolding create EachNode modify push_branch
  create-EachSnapshot blank state run_id run_seq global_seq p = (((p _ refl, tt), tt), tt)

  pub add_child-EachSnapshot :
      (t : ExecutionTree Data) (state : Data) (run_id run_seq global_seq : ℕ)
      → ((i : Info Data) → i.state ≡ state → P i)
      → EachSnapshot t
      → EachSnapshot (add_child t state run_id run_seq global_seq)
  unfolding add_child EachNode
  add_child-EachSnapshot t state run_id run_seq global_seq p h =
      let added = leaf state run_id run_seq global_seq (some t.cursor) t.next_addr in
      modify-root t.cursor (push_branch run_id added) t.tree_node
        (λ bs g. push_branch-EachBranches run_id added bs (p _ refl, tt) g) h

  pub revert_to_state-EachSnapshot :
      (t : ExecutionTree Data) (target_run_id target_run_seq new_run_id : ℕ)
      → EachSnapshot t
      → EachSnapshot (revert_to_state t target_run_id target_run_seq new_run_id)
  unfolding revert_to_state
  revert_to_state-EachSnapshot t r s new h =
      modify-root (cursor_at (find_node t r s) (info t.tree_node).addr) (touch_branch new)
        t.tree_node (touch_branch-EachBranches new) h

  push_children-EachStack :
      (ns : Children Data) (stack : List (Node Data))
      → EachChildren P ns
      → EachStack P stack
      → EachStack P (push_children ns stack)
  unfolding push_children EachStack EachNode
  push_children-EachStack nil stack h g = g
  push_children-EachStack (cons n ns) stack h g =
      push_children-EachStack ns (n ∷ stack) h.1 (h.0, g)

  push_all-EachStack :
      (bs : Branches Data) (stack : List (Node Data))
      → EachBranches P bs
      → EachStack P stack
      → EachStack P (push_all bs stack)
  unfolding push_all EachStack EachNode
  push_all-EachStack no_branch stack h g = g
  push_all-EachStack (branch k ns bs) stack h g =
      push_all-EachStack bs (push_children ns stack) h.1 (push_children-EachStack ns stack h.0 g)

  push_branches-EachStack :
      (target : ℕ) (bs : Branches Data) (stack : List (Node Data))
      → EachBranches P bs
      → EachStack P stack
      → EachStack P (push_branches target bs stack)
  unfolding push_branches EachStack EachNode
  push_branches-EachStack target no_branch stack h g = g
  push_branches-EachStack target (branch k ns bs) stack h g = elim (Bool-cases (leb k target)) [
    | inl e ↦ rw e (
        push_branches-EachStack target bs (push_children ns stack) h.1
          (push_children-EachStack ns stack h.0 g))
    | inr e ↦ rw e (push_branches-EachStack target bs stack h.1 g)
  ]

  abbrev HoldsAt : Option (Node Data) → Type 0
  HoldsAt none = Unit
  HoldsAt (some n) = P (info n)

  abbrev HoldsFound : Search (Node Data) → Type 0
  HoldsFound nullptr = Unit
  HoldsFound out_of_fuel = Unit
  HoldsFound (found n) = P (info n)

  either-HoldsAt :
      (b : Bool) (n : Node Data) (o : Option (Node Data))
      → P (info n)
      → HoldsAt o
      → HoldsAt (if b then some n else o)
  either-HoldsAt true n o p h = p
  either-HoldsAt false n o p h = h

  choose-HoldsFound :
      (best origin : Option (Node Data))
      → HoldsAt best
      → HoldsAt origin
      → HoldsFound (choose best origin)
  choose-HoldsFound (some b) origin h g = h
  choose-HoldsFound none (some o) h g = g
  choose-HoldsFound none none h g = tt

  exact-HoldsFound :
      (b : Bool) (n : Node Data) (rest : Search (Node Data))
      → P (info n)
      → HoldsFound rest
      → HoldsFound (elim b as (λ _. Search (Node Data)) [ true ↦ found n | false ↦ rest ])
  exact-HoldsFound true n rest p h = p
  exact-HoldsFound false n rest p h = h

  find_loop-HoldsFound :
      (fuel target seq : ℕ) (stack : List (Node Data)) (best origin : Option (Node Data))
      → EachStack P stack
      → HoldsAt best
      → HoldsAt origin
      → HoldsFound (find_loop fuel target seq stack best origin)
  unfolding find_loop EachStack EachNode better origin_of
  find_loop-HoldsFound zero target seq stack best origin h b o = tt
  find_loop-HoldsFound (suc fuel) target seq [] best origin h b o =
      choose-HoldsFound best origin b o
  find_loop-HoldsFound (suc fuel) target seq (node i bs ∷ stack) best origin h b o =
      exact-HoldsFound (is_exact target seq (node i bs)) (node i bs) _ h.0.0 (
        find_loop-HoldsFound fuel target seq (push_branches target bs stack)
          (better target seq (node i bs) best) (origin_of target (node i bs) origin)
          (push_branches-EachStack target bs stack h.0.1 h.1)
          (either-HoldsAt _ (node i bs) best h.0.0 b) (either-HoldsAt _ (node i bs) origin h.0.0 o))

  -- A search returns a node at which `P` holds.
  pub find_node-EachSnapshot :
      (t : ExecutionTree Data) (target_run_id target_run_seq : ℕ) (n : Node Data)
      → EachSnapshot t
      → find_node t target_run_id target_run_seq ≡ found n
      → P (info n)
  unfolding find_node EachStack
  find_node-EachSnapshot t r s n h e =
      let all =
        find_loop-HoldsFound (rounds t) r s (start t) none none
          (push_all-EachStack (branch_children t.tree_node) [] h tt) tt tt in
      rw e at all
