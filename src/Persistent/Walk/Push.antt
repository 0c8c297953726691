-- ===== src/Persistent/Walk/Push.antt =====
-- How the walk changes when a run gets one more entry, or a new run branches off.
use chronoporia.Base.{
  found, ℕ, zero, suc, ◌≤◌, ◌<◌, ◌≡◌, refl, ◌∙◌, inl, inr, Option, none, some, List, [], ◌∷◌, ◌++◌,
  arith, if◌then◌else◌, ◌==◌, All, lookup, insert, lookup-insert, Option-cases,
}
use chronoporia.Persistent.Walk.{
  FatNode, BranchPoint, walk, IsForest, UpTo, own, lookup-IsForest, newest_at-append_beyond,
  newest_at-append_within, newest_at-nil, newest_at-beyond,
}

-- Every branch off run `r` was made before `seq`.
abbrev pub BranchesBefore : ℕ → ℕ → List (ℕ × BranchPoint) → Type 0
BranchesBefore r seq = All (λ e. e.1.parent_run_id ≡ r → e.1.branch_run_seq < seq)

lookup-BranchesBefore :
    (r seq k : ℕ) (l : List (ℕ × BranchPoint)) (bp : BranchPoint)
    → BranchesBefore r seq l
    → lookup k l ≡ some bp
    → bp.parent_run_id ≡ r
    → bp.branch_run_seq < seq
unfolding lookup
lookup-BranchesBefore r seq k [] bp h e p = ground arith
lookup-BranchesBefore r seq k ((j, b) ∷ l) bp h e p =
    ground (arith, lookup-BranchesBefore r seq k l bp h.1)

module _ {Data : Type 0} (hist after : ℕ → Option (List (FatNode Data))) (r : ℕ) (n : FatNode Data)
    (pushed : (q : ℕ) → after q ≡ (if r == q then some (own (hist r) ++ n ∷ []) else hist q)) where
  -- A new entry does not change what is seen from before it.
  pub walk-push_before :
      (lineage : List (ℕ × BranchPoint))
      → BranchesBefore r n.run_seq lineage
      → (fuel run seq : ℕ) → (run ≡ r → seq < n.run_seq)
      → walk after lineage fuel run seq ≡ walk hist lineage fuel run seq
  unfolding walk
  walk-push_before lineage b zero run seq h = refl
  walk-push_before lineage b (suc fuel) run seq h = elim (Option-cases (lookup run lineage)) [
    | inl e ↦ elim (Option-cases (hist run)) [
      | inl m ↦
          ground
            (arith, pushed run, newest_at-append_beyond seq [] n, newest_at-nil {Data = Data} seq)
      | inr (ns, m) ↦ ground (arith, pushed run, newest_at-append_beyond seq ns n)
    ]
    | inr (bp, e) ↦
        let up =
          walk-push_before lineage b fuel bp.parent_run_id bp.branch_run_seq
            (lookup-BranchesBefore r n.run_seq run lineage bp b e) in
        elim (Option-cases (hist run)) [
          | inl m ↦ ground (
            arith,
            up,
            pushed run,
            newest_at-append_beyond seq [] n,
            newest_at-nil {Data = Data} seq,
          )
          | inr (ns, m) ↦ ground (arith, up, pushed run, newest_at-append_beyond seq ns n)
        ]
  ]

  -- It is seen from where it was made on.
  pub walk-push_here :
      (lineage : List (ℕ × BranchPoint)) (fuel seq : ℕ)
      → UpTo seq (own (hist r))
      → n.run_seq ≤ seq
      → walk after lineage (suc fuel) r seq ≡ found n
  unfolding walk
  walk-push_here lineage fuel seq u h =
      ground (arith, pushed r, newest_at-append_within seq (own (hist r)) n u)

module _ {Data : Type 0} (hist : ℕ → Option (List (FatNode Data))) where
  -- Any fuel beyond the run gives the same answer.
  pub walk_fuel :
      (lineage : List (ℕ × BranchPoint))
      → IsForest lineage
      → (f g run seq : ℕ) → run < f
      → run < g
      → walk hist lineage f run seq ≡ walk hist lineage g run seq
  unfolding walk
  walk_fuel lineage w zero g run seq h k = absurd (omega arith)
  walk_fuel lineage w (suc f) zero run seq h k = absurd (omega arith)
  walk_fuel lineage w (suc f) (suc g) run seq h k = elim (Option-cases (lookup run lineage)) [
    | inl e ↦ ground arith
    | inr (bp, e) ↦
        let up =
          walk_fuel lineage w f g bp.parent_run_id bp.branch_run_seq
            (omega (arith, lookup-IsForest run lineage bp w e))
            (omega (arith, lookup-IsForest run lineage bp w e)) in
        ground (arith, up)
  ]

  -- A branch registered for run `r` does not change what smaller runs see.
  pub walk-insert_below :
      (lineage : List (ℕ × BranchPoint)) (r : ℕ) (bp : BranchPoint)
      → IsForest lineage
      → (fuel run seq : ℕ) → run < r
      → walk hist (insert r bp lineage) fuel run seq ≡ walk hist lineage fuel run seq
  unfolding walk
  walk-insert_below lineage r bp w zero run seq h = refl
  walk-insert_below lineage r bp w (suc fuel) run seq h = elim (Option-cases (lookup run lineage)) [
    | inl e ↦ ground (arith, lookup-insert r run bp lineage)
    | inr (b, e) ↦
        let up =
          walk-insert_below lineage r bp w fuel b.parent_run_id b.branch_run_seq
            (omega (arith, lookup-IsForest run lineage b w e)) in
        ground (arith, up, lookup-insert r run bp lineage)
  ]

  -- A run with no entries of its own sees what its branch point sees.
  pub walk-insert_here :
      (lineage : List (ℕ × BranchPoint)) (r : ℕ) (bp : BranchPoint)
      → IsForest lineage
      → hist r ≡ none
      → bp.parent_run_id < r
      → (seq : ℕ)
      → walk hist (insert r bp lineage) (suc r) r seq
        ≡ walk hist lineage (suc bp.parent_run_id) bp.parent_run_id bp.branch_run_seq
  unfolding walk
  walk-insert_here lineage r bp w m p seq =
      hop
      ∙ walk-insert_below lineage r bp w r bp.parent_run_id bp.branch_run_seq p
      ∙ walk_fuel lineage w r (suc bp.parent_run_id) bp.parent_run_id bp.branch_run_seq p
          (omega arith)
    where
      hop :
          walk hist (insert r bp lineage) (suc r) r seq
          ≡ walk hist (insert r bp lineage) r bp.parent_run_id bp.branch_run_seq
      hop = ground (arith, lookup-insert r r bp lineage)

module _ {Data : Type 0} (hist other : ℕ → Option (List (FatNode Data)))
    (lineage : List (ℕ × BranchPoint)) where
  -- A run with no history and a run with an empty one are alike.
  pub walk-own :
      ((q : ℕ) → own (other q) ≡ own (hist q))
      → (fuel run seq : ℕ) → walk other lineage fuel run seq ≡ walk hist lineage fuel run seq
  unfolding walk
  walk-own h zero run seq = refl
  walk-own h (suc fuel) run seq = elim (Option-cases (lookup run lineage)) [
    | inl e ↦ ground (arith, h run, newest_at-nil {Data = Data} seq)
    | inr (bp, e) ↦
        let up = walk-own h fuel bp.parent_run_id bp.branch_run_seq in
        ground (arith, up, h run, newest_at-nil {Data = Data} seq)
  ]

  -- Beyond its run's last entry a reader sees the same at every point.
  pub walk-beyond :
      (fuel run t u : ℕ)
      → UpTo t (own (hist run))
      → t ≤ u
      → walk hist lineage fuel run u ≡ walk hist lineage fuel run t
  unfolding walk
  walk-beyond zero run t u h k = refl
  walk-beyond (suc fuel) run t u h k = ground (arith, newest_at-beyond t u (own (hist run)) h k)
