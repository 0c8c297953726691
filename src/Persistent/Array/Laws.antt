-- ===== src/Persistent/Array/Laws.antt =====
-- `FullyPersistentArray`: lookups and the visible timeline, updates and branches.
use chronoporia.Base.{
  found, ℕ, suc, ◌≡◌, ◌≤◌, ◌<◌, inl, inr, Option, none, some, List, [], ◌∷◌, ◌++◌, arith, lookup,
  insert, get_or, All, last, lookup-insert, if◌then◌else◌, ◌==◌, Bool-cases, ap,
}
use chronoporia.Persistent.Walk.{
  own, FatNode, BranchPoint, IsForest, IsSorted, SortedAt, UpTo, UpTo-mono, walk-timeline,
  of_option, IsSorted-append_one,
}
use chronoporia.Persistent.Walk.Push.{
  BranchesBefore, walk-push_before, walk-push_here, walk-insert_here,
}
use chronoporia.Persistent.Array.{
  PersistentArray, IsValid, register_branch, update, find_fat_node, get, try_get, visible, data_of,
  optional_data_of,
}

All-insert_branch :
    (k : ℕ) (bp : BranchPoint) (l : List (ℕ × BranchPoint))
    → IsForest l
    → bp.parent_run_id < k
    → IsForest (insert k bp l)
unfolding insert
All-insert_branch k bp [] h p = (p, tt)
All-insert_branch k bp ((j, b) ∷ l) h p = elim (Bool-cases (j == k)) [
  | inl e ↦ rw e (p, h.1)
  | inr e ↦ rw e (h.0, All-insert_branch k bp l h.1 p)
]

module _ {Data : Type 0} where
  pub lookup-sorted :
      (r : ℕ) (runs : List (ℕ × List (FatNode Data)))
      → All (λ e. IsSorted e.1) runs
      → SortedAt (lookup r runs)
  unfolding lookup
  lookup-sorted r [] s = tt
  lookup-sorted r ((k, ns) ∷ runs) s = elim (Bool-cases (k == r)) [
    | inl e ↦ rw e (s.0)
    | inr e ↦ rw e (lookup-sorted r runs s.1)
  ]

  -- In a valid array a lookup returns the last update of the timeline that is visible at
  -- (run_id, run_seq): the parent's up to the branch point, then the run's own up to run_seq. It is
  -- nullptr where nothing is visible, and it always ends.
  pub find_fat_node-visible :
      (a : PersistentArray Data) (run_id run_seq : ℕ)
      → IsValid a
      → find_fat_node a run_id run_seq ≡ of_option (last (visible a run_id run_seq))
  unfolding find_fat_node visible
  find_fat_node-visible a run_id run_seq v =
      walk-timeline (λ r. lookup r a.runs) a.lineage (suc run_id) run_id run_seq v.forest
        (λ r. lookup-sorted r a.runs v.sorted) (omega arith)

  -- The node that `update` appends.
  abbrev node : ℕ → ℕ → ℕ → Data → FatNode Data
  node run_id run_seq global_seq value = record {
    run_id = run_id;
    run_seq = run_seq;
    global_seq = global_seq;
    data_at = value;
  }

  runs-update :
      (a : PersistentArray Data) (run_id : ℕ) (n : FatNode Data) (q : ℕ)
      → lookup q (insert run_id (get_or run_id [] a.runs ++ n ∷ []) a.runs)
        ≡ (if run_id == q then some (own (lookup run_id a.runs) ++ n ∷ []) else lookup q a.runs)
  unfolding get_or
  runs-update a run_id n q =
      ground (arith, lookup-insert run_id q (get_or run_id [] a.runs ++ n ∷ []) a.runs)

  -- A value is read back at its own run from its own run_seq on, until the next update: no entry of
  -- the run lies beyond run_seq.
  pub get-update :
      (a : PersistentArray Data) (run_id run_seq global_seq : ℕ) (value : Data) (at : ℕ)
      → UpTo run_seq (own (lookup run_id a.runs))
      → run_seq ≤ at
      → get (update a run_id run_seq global_seq value) run_id at ≡ found value
  unfolding get update find_fat_node
  get-update a run_id run_seq global_seq value at u h =
      let n = node run_id run_seq global_seq value in
      ap data_of (
        walk-push_here (λ r. lookup r a.runs)
          (λ r. lookup r (update a run_id run_seq global_seq value).runs) run_id n
          (runs-update a run_id n) a.lineage run_id at
          (UpTo-mono run_seq at (own (lookup run_id a.runs)) h u) h)

  -- An update changes nothing that is seen from before it: not at an earlier point of its run, and
  -- in no other run, where every branch off its run was made at an earlier point.
  pub try_get-update_before :
      (a : PersistentArray Data) (run_id run_seq global_seq : ℕ) (value : Data) (q at : ℕ)
      → BranchesBefore run_id run_seq a.lineage
      → (q ≡ run_id → at < run_seq)
      → try_get (update a run_id run_seq global_seq value) q at ≡ try_get a q at
  unfolding try_get update find_fat_node
  try_get-update_before a run_id run_seq global_seq value q at b h =
      let n = node run_id run_seq global_seq value in
      ap optional_data_of (
        walk-push_before (λ r. lookup r a.runs)
          (λ r. lookup r (update a run_id run_seq global_seq value).runs) run_id n
          (runs-update a run_id n) a.lineage b (suc q) q at h)

  -- A new run sees, until its first update, what its parent sees at the branch point.
  pub try_get-register_branch :
      (a : PersistentArray Data) (run_id parent_run_id branch_run_seq : ℕ) (at : ℕ)
      → IsValid a
      → lookup run_id a.runs ≡ none
      → parent_run_id < run_id
      → try_get (register_branch a run_id parent_run_id branch_run_seq) run_id at
        ≡ try_get a parent_run_id branch_run_seq
  unfolding try_get register_branch find_fat_node
  try_get-register_branch a run_id parent_run_id branch_run_seq at v m p = ap optional_data_of (
      walk-insert_here (λ r. lookup r a.runs) a.lineage run_id
        (record { parent_run_id = parent_run_id; branch_run_seq = branch_run_seq }) v.forest m p at)

  All-insert_run :
      (k : ℕ) (ns : List (FatNode Data)) (runs : List (ℕ × List (FatNode Data)))
      → All (λ e. IsSorted e.1) runs
      → IsSorted ns
      → All (λ e. IsSorted e.1) (insert k ns runs)
  unfolding insert
  All-insert_run k ns [] h s = (s, tt)
  All-insert_run k ns ((j, ms) ∷ runs) h s = elim (Bool-cases (j == k)) [
    | inl e ↦ rw e (s, h.1)
    | inr e ↦ rw e (h.0, All-insert_run k ns runs h.1 s)
  ]

  get_or-own :
      (k : ℕ) (runs : List (ℕ × List (FatNode Data))) → get_or k [] runs ≡ own (lookup k runs)
  unfolding get_or
  get_or-own k runs = ground arith

  own-IsSorted : (o : Option (List (FatNode Data))) → SortedAt o → IsSorted (own o)
  own-IsSorted none s = tt
  own-IsSorted (some ns) s = s

  -- The operations keep an array valid: an update that is not older than its run's last entry, and
  -- a branch to a run with a larger id than its parent.
  pub operations-IsValid :
      (a : PersistentArray Data) (run_id run_seq global_seq : ℕ) (value : Data)
      (child_run_id parent_run_id branch_run_seq : ℕ)
      → IsValid a
      → UpTo run_seq (own (lookup run_id a.runs))
      → parent_run_id < child_run_id
      → IsValid (update a run_id run_seq global_seq value)
        × IsValid (register_branch a child_run_id parent_run_id branch_run_seq)
  unfolding update register_branch
  operations-IsValid a run_id run_seq global_seq value child_run_id parent_run_id branch_run_seq v u
        p =
      (
        record {
          forest = v.forest;
          sorted = All-insert_run run_id _ a.runs v.sorted (
              IsSorted-append_one (get_or run_id [] a.runs) (node run_id run_seq global_seq value)
                (rw (get_or-own run_id a.runs)
                  (own-IsSorted (lookup run_id a.runs) (lookup-sorted run_id a.runs v.sorted)))
                (rw (get_or-own run_id a.runs) u));
        },
        record {
          forest =
              All-insert_branch child_run_id
                (record { parent_run_id = parent_run_id; branch_run_seq = branch_run_seq })
                a.lineage v.forest p;
          sorted = v.sorted;
        },
      )
