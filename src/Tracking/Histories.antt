-- ===== src/Tracking/Histories.antt =====
-- Histories by key: each state in a tree belongs to the key of the tree, and no key comes twice.
use chronoporia.Base.{
  Search, found, nullptr, out_of_fuel, ℕ, ◌≡◌, refl, ap, subst, ◌∙◌, ◌⊎◌, inl, inr, Bool, false,
  ◌||◌, some, List, [], ◌∷◌, arith, ◌==◌, lookup, insert, mem, Bool-cases, Option-cases,
}
use chronoporia.Tree.{Info, Node, ExecutionTree, create, add_child, info}
use chronoporia.Tree.Lookup.{get_state, find_node, state_of}
use chronoporia.Tree.Kept.{
  EachSnapshot, create-EachSnapshot, add_child-EachSnapshot, revert_to_state-EachSnapshot,
  find_node-EachSnapshot,
}
use chronoporia.Tracking.{track, change, branch_all, push_loaded, loaded_at}

unfoldable pub IsDistinct : List ℕ → Type 0
unfolding mem
IsDistinct [] = Unit
IsDistinct (x ∷ xs) = (mem x xs ≡ false) × IsDistinct xs

module _ {V : Type 0} where
  unfoldable pub keys : List (ℕ × V) → List ℕ
  keys [] = []
  keys ((k, v) ∷ m) = k ∷ keys m

  pub mem-insert :
      (x k : ℕ) (v : V) (m : List (ℕ × V))
      → mem x (keys (insert k v m)) ≡ (k == x || mem x (keys m))
  unfolding mem keys insert
  mem-insert x k v [] = refl
  mem-insert x k v ((j, w) ∷ m) = ground (arith, mem-insert x k v m)

  insert-IsDistinct :
      (k : ℕ) (v : V) (m : List (ℕ × V)) → IsDistinct (keys m) → IsDistinct (keys (insert k v m))
  unfolding IsDistinct keys insert
  insert-IsDistinct k v [] h = (refl, tt)
  insert-IsDistinct k v ((j, w) ∷ m) h = elim (Bool-cases (j == k)) [
    | inl e ↦ ground (arith, h)
    | inr e ↦ ground (arith, h, mem-insert j k v m, insert-IsDistinct k v m h.1)
  ]

module _ {Data : Type 0} (key_of : Data → ℕ) where
  -- Every state of a tree has the key `k`.
  abbrev pub Belongs : ℕ → Info Data → Type 0
  Belongs k i = key_of i.state ≡ k

  unfoldable pub IsKeyed : List (ℕ × ExecutionTree Data) → Type 0
  IsKeyed [] = Unit
  IsKeyed ((k, t) ∷ m) = EachSnapshot (Belongs k) t × IsKeyed m

  pub record IsTracked (m : List (ℕ × ExecutionTree Data)) : Type 0 where
    pub keyed : IsKeyed m
    pub distinct : IsDistinct (keys m)

  insert-IsKeyed :
      (k : ℕ) (t : ExecutionTree Data) (m : List (ℕ × ExecutionTree Data))
      → EachSnapshot (Belongs k) t
      → IsKeyed m
      → IsKeyed (insert k t m)
  unfolding IsKeyed insert
  insert-IsKeyed k t [] g h = (g, tt)
  insert-IsKeyed k t ((j, u) ∷ m) g h = elim (Bool-cases (j == k)) [
    | inl e ↦ rw e (g, h.1)
    | inr e ↦ rw e (h.0, insert-IsKeyed k t m g h.1)
  ]

  lookup-IsKeyed :
      (k : ℕ) (t : ExecutionTree Data) (m : List (ℕ × ExecutionTree Data))
      → IsKeyed m
      → lookup k m ≡ some t
      → EachSnapshot (Belongs k) t
  unfolding IsKeyed lookup
  lookup-IsKeyed k t [] h e = ground arith
  lookup-IsKeyed k t ((j, u) ∷ m) h e = elim (Bool-cases (j == k)) [
    | inl b ↦
        let same : j ≡ k = ground arith in
        let it : u ≡ t = ground arith in
        subst (λ x. EachSnapshot (Belongs x) t) same
          (subst (λ x. EachSnapshot (Belongs j) x) it h.0)
    | inr b ↦ lookup-IsKeyed k t m h.1 (ground arith)
  ]

  insert-IsTracked :
      (k : ℕ) (t : ExecutionTree Data) (m : List (ℕ × ExecutionTree Data))
      → EachSnapshot (Belongs k) t
      → IsTracked m
      → IsTracked (insert k t m)
  insert-IsTracked k t m g h = record {
    keyed = insert-IsKeyed k t m g h.keyed;
    distinct = insert-IsDistinct k t m h.distinct;
  }

  belongs : (k : ℕ) (d : Data) → key_of d ≡ k → (i : Info Data) → i.state ≡ d → Belongs k i
  belongs k d e i f = ap key_of f ∙ e

  pub change-IsTracked :
      (m : List (ℕ × ExecutionTree Data)) (k : ℕ) (d : Data) (global_seq run_id run_seq : ℕ)
      → key_of d ≡ k
      → IsTracked m
      → IsTracked (change m k d global_seq run_id run_seq)
  unfolding change
  change-IsTracked m k d g r s e h = elim (Option-cases (lookup k m)) [
    | inl n ↦ rw (n, change) h
    | inr (t, n) ↦
        rw (n, change)
          (insert-IsTracked k (add_child t d r s g) m
            (add_child-EachSnapshot (Belongs k) t d r s g (belongs k d e)
              (lookup-IsKeyed k t m h.keyed n))
            h)
  ]

  pub track-IsTracked :
      (blank : Data) (m : List (ℕ × ExecutionTree Data)) (k : ℕ) (d : Data)
      (global_seq run_id run_seq : ℕ)
      → key_of d ≡ k
      → IsTracked m
      → IsTracked (track blank m k d global_seq run_id run_seq)
  unfolding track
  track-IsTracked blank m k d g r s e h = elim (Option-cases (lookup k m)) [
    | inl n ↦
        rw (n, track)
          (insert-IsTracked k (create blank d r s g) m
            (create-EachSnapshot (Belongs k) blank d r s g (belongs k d e)) h)
    | inr (t, n) ↦
        rw (n, track)
          (insert-IsTracked k (add_child t d r s g) m
            (add_child-EachSnapshot (Belongs k) t d r s g (belongs k d e)
              (lookup-IsKeyed k t m h.keyed n))
            h)
  ]

  branch_all-IsKeyed :
      (m : List (ℕ × ExecutionTree Data)) (target_run_id target_run_seq new_run_id : ℕ)
      → IsKeyed m
      → IsKeyed (branch_all m target_run_id target_run_seq new_run_id)
  unfolding IsKeyed branch_all
  branch_all-IsKeyed [] r s new h = tt
  branch_all-IsKeyed ((k, t) ∷ m) r s new h =
      (revert_to_state-EachSnapshot (Belongs k) t r s new h.0, branch_all-IsKeyed m r s new h.1)

  pub keys-branch_all :
      (m : List (ℕ × ExecutionTree Data)) (target_run_id target_run_seq new_run_id : ℕ)
      → keys (branch_all m target_run_id target_run_seq new_run_id) ≡ keys m
  unfolding keys branch_all
  keys-branch_all [] r s new = refl
  keys-branch_all ((k, t) ∷ m) r s new = ap (λ ks. k ∷ ks) (keys-branch_all m r s new)

  pub branch_all-IsTracked :
      (m : List (ℕ × ExecutionTree Data)) (target_run_id target_run_seq new_run_id : ℕ)
      → IsTracked m
      → IsTracked (branch_all m target_run_id target_run_seq new_run_id)
  branch_all-IsTracked m r s new h = record {
    keyed = branch_all-IsKeyed m r s new h.keyed;
    distinct = rw (keys-branch_all m r s new) h.distinct;
  }

  -- The keys of a list of states.
  unfoldable pub keys_of : List Data → List ℕ
  keys_of [] = []
  keys_of (d ∷ ds) = key_of d ∷ keys_of ds

  state-Belongs :
      (k : ℕ) (t : ExecutionTree Data) (run_id run_seq : ℕ) (d : Data)
      → EachSnapshot (Belongs k) t
      → get_state t run_id run_seq ≡ found d
      → key_of d ≡ k
  unfolding get_state
  state-Belongs k t r s d h e = of_search (find_node t r s) refl e
    where
      of_search :
          (o : Search (Node Data)) → find_node t r s ≡ o → state_of o ≡ found d → key_of d ≡ k
      of_search nullptr n f = ground arith
      of_search out_of_fuel n f = ground arith
      of_search (found v) n f =
          let it : (info v).state ≡ d = ground arith in
          rw it at (find_node-EachSnapshot (Belongs k) t r s v h n)

  push_loaded-cases :
      (loaded : Data → Bool) (o : Search Data) (ds : List Data)
      → (push_loaded loaded o ds ≡ ds)
        ⊎ ((d : Data) × (o ≡ found d) × (push_loaded loaded o ds ≡ d ∷ ds))
  unfolding push_loaded
  push_loaded-cases loaded nullptr ds = inl refl
  push_loaded-cases loaded out_of_fuel ds = inl refl
  push_loaded-cases loaded (found d) ds = elim (Bool-cases (loaded d)) [
    | inl e ↦ inr (d, refl, rw e refl)
    | inr e ↦ inl (rw e refl)
  ]

  mem-loaded_at :
      (loaded : Data → Bool) (m : List (ℕ × ExecutionTree Data)) (run_id run_seq x : ℕ)
      → IsKeyed m
      → mem x (keys m) ≡ false
      → mem x (keys_of (loaded_at loaded m run_id run_seq)) ≡ false
  unfolding IsKeyed keys keys_of loaded_at mem
  mem-loaded_at loaded [] r s x h e = refl
  mem-loaded_at loaded ((k, t) ∷ m) r s x h e =
      let rest = mem-loaded_at loaded m r s x h.1 (ground arith) in
      elim (push_loaded-cases loaded (get_state t r s) (loaded_at loaded m r s)) [
        | inl f ↦ rw f rest
        | inr (d, g, f) ↦ rw f (ground (arith, rest, state-Belongs k t r s d h.0 g))
      ]

  -- The states that are loaded at one point have different keys.
  pub loaded_at-IsDistinct :
      (loaded : Data → Bool) (m : List (ℕ × ExecutionTree Data)) (run_id run_seq : ℕ)
      → IsKeyed m
      → IsDistinct (keys m)
      → IsDistinct (keys_of (loaded_at loaded m run_id run_seq))
  unfolding IsKeyed IsDistinct keys keys_of loaded_at
  loaded_at-IsDistinct loaded [] r s h g = tt
  loaded_at-IsDistinct loaded ((k, t) ∷ m) r s h g =
      let rest = loaded_at-IsDistinct loaded m r s h.1 g.1 in
      elim (push_loaded-cases loaded (get_state t r s) (loaded_at loaded m r s)) [
        | inl f ↦ rw f rest
        | inr (d, e, f) ↦
            let same = state-Belongs k t r s d h.0 e in
            let absent = mem-loaded_at loaded m r s k h.1 g.0 in
            rw f (ground (arith, same, absent), rest)
      ]
