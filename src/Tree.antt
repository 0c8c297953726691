-- ===== src/Tree.antt =====
-- `ExecutionTree<Data>` of src/utils/execution_tree.h: the tree of snapshots over all runs. A node is
-- owned by its parent; a pointer to it is its address `addr`, which no other node has. The `Print`
-- methods only write text and are left out.
pub mod Lookup
pub mod Kept
use chronoporia.Base.{
  ℕ, zero, suc, ◌+◌, ◌≡◌, Bool, Option, none, some, List, [], ◌∷◌, ◌++◌, if◌then◌else◌, ◌==◌, ltb,
  leb,
}

-- The plain fields of `ExecutionNode`.
pub record Info (Data : Type 0) : Type 0 where
  pub state : Data
  pub run_id : ℕ
  pub run_seq : ℕ
  pub global_seq : ℕ
  pub parent : Option ℕ
  pub addr : ℕ

-- `branch_children` is a `std::map` from a run to the nodes that it adds here, in key order.
mutual
  pub data Node (Data : Type 0) : Type 0 where
    node : Info Data → Branches Data → Node Data

  pub data Branches (Data : Type 0) : Type 0 where
    no_branch : Branches Data
    branch : ℕ → Children Data → Branches Data → Branches Data

  pub data Children (Data : Type 0) : Type 0 where
    nil : Children Data
    cons : Node Data → Children Data → Children Data

pub record ExecutionTree (Data : Type 0) : Type 0 where
  pub tree_node : Node Data
  pub cursor : ℕ
  pub next_addr : ℕ

module _ {Data : Type 0} where
  abbrev pub info : Node Data → Info Data
  info (node i bs) = i

  abbrev pub branch_children : Node Data → Branches Data
  branch_children (node i bs) = bs

  abbrev pub leaf : Data → ℕ → ℕ → ℕ → Option ℕ → ℕ → Node Data
  leaf state run_id run_seq global_seq parent addr =
      node
        (record {
          state = state;
          run_id = run_id;
          run_seq = run_seq;
          global_seq = global_seq;
          parent = parent;
          addr = addr;
        })
        no_branch

  -- `push_back` on the vector of a run.
  unfoldable pub push_back : Children Data → Node Data → Children Data
  push_back nil n = cons n nil
  push_back (cons m ms) n = cons m (push_back ms n)

  -- `branch_children[run_id].push_back(node)`.
  unfoldable pub push_branch : ℕ → Node Data → Branches Data → Branches Data
  unfolding push_back
  push_branch r n no_branch = branch r (cons n nil) no_branch
  push_branch r n (branch k ns bs) =
      if k == r
      then branch k (push_back ns n) bs
      else if ltb r k
      then branch r (cons n nil) (branch k ns bs)
      else branch k ns (push_branch r n bs)

  -- `branch_children[run_id];`
  unfoldable pub touch_branch : ℕ → Branches Data → Branches Data
  touch_branch r no_branch = branch r nil no_branch
  touch_branch r (branch k ns bs) =
      if k == r
      then branch k ns bs
      else if ltb r k
      then branch r nil (branch k ns bs)
      else branch k ns (touch_branch r bs)

-- A write through a pointer: the branches of the node at `addr` change.
unfoldable mutual
  pub modify : {Data : Type 0} → ℕ → (Branches Data → Branches Data) → Node Data → Node Data
  modify addr f (node i bs) =
      let below = modify_branches addr f bs in node i (if i.addr == addr then f bs else below)

  pub modify_branches :
      {Data : Type 0} → ℕ → (Branches Data → Branches Data) → Branches Data → Branches Data
  modify_branches addr f no_branch = no_branch
  modify_branches addr f (branch k ns bs) =
      branch k (modify_children addr f ns) (modify_branches addr f bs)

  pub modify_children :
      {Data : Type 0} → ℕ → (Branches Data → Branches Data) → Children Data → Children Data
  modify_children addr f nil = nil
  modify_children addr f (cons n ns) = cons (modify addr f n) (modify_children addr f ns)

-- The number of nodes, and of nodes below.
unfoldable mutual
  pub size : {Data : Type 0} → Node Data → ℕ
  size (node i bs) = suc (size_branches bs)

  pub size_branches : {Data : Type 0} → Branches Data → ℕ
  size_branches no_branch = 0
  size_branches (branch k ns bs) = size_children ns + size_branches bs

  pub size_children : {Data : Type 0} → Children Data → ℕ
  size_children nil = 0
  size_children (cons n ns) = size n + size_children ns

module _ {Data : Type 0} where
  -- The constructor: an empty `tree_node_`, with the first node under it as the cursor.
  unfoldable pub create : Data → Data → ℕ → ℕ → ℕ → ExecutionTree Data
  unfolding push_branch
  create blank state run_id run_seq global_seq = record {
    tree_node =
        modify 0 (push_branch run_id (leaf state run_id run_seq global_seq (some 0) 1))
          (leaf blank 0 0 0 none 0);
    cursor = 1;
    next_addr = 2;
  }

  unfoldable pub add_child : ExecutionTree Data → Data → ℕ → ℕ → ℕ → ExecutionTree Data
  unfolding modify push_branch
  add_child t state run_id run_seq global_seq = record t {
    tree_node =
        modify t.cursor
          (push_branch run_id (leaf state run_id run_seq global_seq (some t.cursor) t.next_addr))
          t.tree_node;
    next_addr = suc t.next_addr;
  }
