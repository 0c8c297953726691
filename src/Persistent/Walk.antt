-- ===== src/Persistent/Walk.antt =====
-- The lookup that both classes of src/utils/fully_persistent_array.h share: a search of one run's
-- history, and the walk along the branch lineage to the root.
pub mod Push
use chronoporia.Base.{
  Search, found, nullptr, out_of_fuel, ℕ, zero, suc, ◌+◌, ◌-◌, ◌≤◌, ◌<◌, ◌≡◌, refl, ◌⊎◌, inl, inr,
  Bool, true, false, Option, none, some, List, [], ◌∷◌, ◌++◌, arith, ltb, leb, if◌then◌else◌,
  length, get_elem?, last, All, keep, lookup, All-append, append-nil, last-append, Option-cases,
  ◌≢◌, sym, ◌∙◌, ap,
}

pub record FatNode (Data : Type 0) : Type 0 where
  pub run_id : ℕ
  pub run_seq : ℕ
  pub global_seq : ℕ
  pub data_at : Data

-- Where a run forked from.
pub record BranchPoint : Type 0 where
  pub parent_run_id : ℕ
  pub branch_run_seq : ℕ

abbrev pub of_option : {A : Type 0} → Option A → Search A
of_option none = nullptr
of_option (some a) = found a

-- The entries of a run, none where the run has no history yet.
abbrev pub own : {Data : Type 0} → Option (List (FatNode Data)) → List (FatNode Data)
own none = []
own (some history) = history

-- A parent run has the smaller id: a branch is made to a run that is new.
abbrev pub IsForest : List (ℕ × BranchPoint) → Type 0
IsForest = All (λ e. e.1.parent_run_id < e.0)

pub lookup-IsForest :
    (r : ℕ) (l : List (ℕ × BranchPoint)) (bp : BranchPoint)
    → IsForest l
    → lookup r l ≡ some bp
    → bp.parent_run_id < r
unfolding lookup
lookup-IsForest r [] bp h e = ground arith
lookup-IsForest r ((k, b) ∷ l) bp h e = ground (arith, lookup-IsForest r l bp h.1)

module _ {Data : Type 0} where
  -- `std::upper_bound(...) - history.begin()`: the entries before the first beyond `target`.
  unfoldable pub upper_bound : ℕ → List (FatNode Data) → ℕ
  upper_bound target [] = 0
  upper_bound target (n ∷ ns) = if ltb target n.run_seq then 0 else suc (upper_bound target ns)

  -- `if (idx > 0) return &history[idx - 1];`
  unfoldable pub before_index : List (FatNode Data) → ℕ → Option (FatNode Data)
  before_index history zero = none
  before_index history (suc i) = get_elem? history i

  unfoldable pub newest_at : ℕ → List (FatNode Data) → Option (FatNode Data)
  unfolding upper_bound before_index
  newest_at target history = before_index history (upper_bound target history)

  -- The loop of `find_fat_node`: `hist` is the history of each run that has one.
  unfoldable pub walk :
      (ℕ → Option (List (FatNode Data)))
      → List (ℕ × BranchPoint)
      → ℕ
      → ℕ
      → ℕ
      → Search (FatNode Data)
  walk hist lineage zero run seq = out_of_fuel
  walk hist lineage (suc fuel) run seq =
      let up : Search (FatNode Data) = elim (lookup run lineage) [
        | none ↦ nullptr
        | some bp ↦ walk hist lineage fuel bp.parent_run_id bp.branch_run_seq
      ] in
      elim (hist run) [
        | none ↦ up
        | some history ↦ elim (newest_at seq history) [ none ↦ up | some n ↦ found n ]
      ]

  upper_bound-le : (t : ℕ) (ns : List (FatNode Data)) → upper_bound t ns ≤ length ns
  unfolding upper_bound
  upper_bound-le t [] = omega arith
  upper_bound-le t (n ∷ ns) = ground (arith, upper_bound-le t ns)

  get_elem?-total :
      (ns : List (FatNode Data)) (i : ℕ)
      → i < length ns
      → (n : FatNode Data) × (get_elem? ns i ≡ some n)
  get_elem?-total [] i h = elim h [ ]
  get_elem?-total (n ∷ ns) zero h = (n, refl)
  get_elem?-total (n ∷ ns) (suc i) h = get_elem?-total ns i (omega arith)

  before_index-cons :
      (n : FatNode Data) (ns : List (FatNode Data)) (i : ℕ)
      → i ≤ length ns
      → before_index (n ∷ ns) (suc i) ≡ (elim (before_index ns i) as (λ _. Option (FatNode Data)) [
        | none ↦ some n
        | some m ↦ some m
      ])
  unfolding before_index
  before_index-cons n ns zero h = refl
  before_index-cons n ns (suc i) h = rw ((get_elem?-total ns i h).1)

  -- The search of a history, entry by entry.
  pub newest_at-cons :
      (t : ℕ) (n : FatNode Data) (ns : List (FatNode Data))
      → newest_at t (n ∷ ns) ≡ (
          if ltb t n.run_seq then none else elim (newest_at t ns) as (λ _. Option (FatNode Data)) [
            | none ↦ some n
            | some m ↦ some m
          ])
  unfolding newest_at
  newest_at-cons t n ns =
      ground (arith, before_index-cons n ns (upper_bound t ns), upper_bound-le t ns)

  newest_at-nil : (t : ℕ) → newest_at t [] ≡ none
  unfolding newest_at
  newest_at-nil t = refl

  -- An entry beyond the target at the end is not seen.
  pub newest_at-append_beyond :
      (t : ℕ) (ns : List (FatNode Data)) (n : FatNode Data)
      → t < n.run_seq
      → newest_at t (ns ++ n ∷ []) ≡ newest_at t ns
  newest_at-append_beyond t [] n h = ground (arith, newest_at-cons t n [], newest_at-nil t)
  newest_at-append_beyond t (m ∷ ns) n h = ground (
    arith,
    newest_at-cons t m ns,
    newest_at-cons t m (ns ++ n ∷ []),
    newest_at-append_beyond t ns n h,
  )

  -- Entries in order, none beyond the bound.
  abbrev pub UpTo : ℕ → List (FatNode Data) → Type 0
  UpTo b [] = Unit
  UpTo b (n ∷ ns) = (n.run_seq ≤ b) × UpTo b ns

  -- Each entry is at most all that follow.
  abbrev pub IsSorted : List (FatNode Data) → Type 0
  IsSorted [] = Unit
  IsSorted (n ∷ ns) = All (λ m. n.run_seq ≤ m.run_seq) ns × IsSorted ns

  keep_beyond :
      (t b : ℕ) (ns : List (FatNode Data))
      → t < b
      → All (λ m. b ≤ m.run_seq) ns
      → keep (λ n. leb n.run_seq t) ns ≡ []
  unfolding keep
  keep_beyond t b [] h k = refl
  keep_beyond t b (n ∷ ns) h k = ground (arith, keep_beyond t b ns h k.1)

  -- In a sorted history the search finds the last entry that is not beyond the target.
  pub newest_at-last :
      (t : ℕ) (ns : List (FatNode Data))
      → IsSorted ns
      → newest_at t ns ≡ last (keep (λ n. leb n.run_seq t) ns)
  unfolding keep
  newest_at-last t [] s = newest_at-nil t
  newest_at-last t (n ∷ ns) s =
      ground (arith, newest_at-cons t n ns, newest_at-last t ns s.1, keep_beyond t n.run_seq ns)

  -- An entry at the end that is not beyond the target is found, where none before it is.
  pub newest_at-append_within :
      (t : ℕ) (ns : List (FatNode Data)) (n : FatNode Data)
      → UpTo t ns
      → n.run_seq ≤ t
      → newest_at t (ns ++ n ∷ []) ≡ some n
  newest_at-append_within t [] n u h = ground (arith, newest_at-cons t n [], newest_at-nil t)
  newest_at-append_within t (m ∷ ns) n u h =
      ground (arith, newest_at-cons t m (ns ++ n ∷ []), newest_at-append_within t ns n u.1 h)

  pub UpTo-mono : (a b : ℕ) (ns : List (FatNode Data)) → a ≤ b → UpTo a ns → UpTo b ns
  UpTo-mono a b [] h u = tt
  UpTo-mono a b (n ∷ ns) h u = (omega arith, UpTo-mono a b ns h u.1)

  pub UpTo-append_one :
      (b : ℕ) (ns : List (FatNode Data)) (n : FatNode Data)
      → UpTo b ns
      → n.run_seq ≤ b
      → UpTo b (ns ++ n ∷ [])
  UpTo-append_one b [] n u h = (h, tt)
  UpTo-append_one b (m ∷ ns) n u h = (u.0, UpTo-append_one b ns n u.1 h)

  -- Beyond the last entry the search finds the same at every target.
  pub newest_at-beyond :
      (t u : ℕ) (ns : List (FatNode Data)) → UpTo t ns → t ≤ u → newest_at u ns ≡ newest_at t ns
  newest_at-beyond t u [] h k = newest_at-nil u ∙ sym (newest_at-nil t)
  newest_at-beyond t u (n ∷ ns) h k =
      ground (arith, newest_at-cons t n ns, newest_at-cons u n ns, newest_at-beyond t u ns h.1 k)

  pub IsSorted-append_one :
      (ns : List (FatNode Data)) (n : FatNode Data)
      → IsSorted ns
      → UpTo n.run_seq ns
      → IsSorted (ns ++ n ∷ [])
  IsSorted-append_one [] n s u = (tt, tt)
  IsSorted-append_one (m ∷ ns) n s u = (
    All-append (λ k. m.run_seq ≤ k.run_seq) ns (n ∷ []) s.0 (u.0, tt),
    IsSorted-append_one ns n s.1 u.1,
  )

-- What a reader at (`run`, `seq`) can see: the parent's view at the branch point, then the run's
-- own entries up to `seq`.
module _ {Data : Type 0} where
  unfoldable pub timeline :
      (ℕ → Option (List (FatNode Data))) → List (ℕ × BranchPoint) → ℕ → ℕ → ℕ → List (FatNode Data)
  timeline hist lineage zero run seq = []
  timeline hist lineage (suc fuel) run seq =
      let inherited : List (FatNode Data) = elim (lookup run lineage) [
        | none ↦ []
        | some bp ↦ timeline hist lineage fuel bp.parent_run_id bp.branch_run_seq
      ] in
      let own : List (FatNode Data) = elim (hist run) [
        | none ↦ []
        | some history ↦ keep (λ n. leb n.run_seq seq) history
      ] in
      inherited ++ own

  abbrev pub SortedAt : Option (List (FatNode Data)) → Type 0
  SortedAt none = Unit
  SortedAt (some history) = IsSorted history

  module _ (hist : ℕ → Option (List (FatNode Data))) (lineage : List (ℕ × BranchPoint)) where
    -- With a forest the walk ends: each hop goes to a smaller run.
    pub walk-total :
        (fuel run seq : ℕ)
        → IsForest lineage
        → run < fuel
        → walk hist lineage fuel run seq ≢ out_of_fuel
    unfolding walk
    walk-total zero run seq f h = absurd (omega arith)
    walk-total (suc fuel) run seq f h = elim (Option-cases (lookup run lineage)) [
      | inl e ↦ ground arith
      | inr (bp, e) ↦ ground (
        arith,
        lookup-IsForest run lineage bp f e,
        walk-total fuel bp.parent_run_id bp.branch_run_seq f,
      )
    ]

    -- With sorted histories it finds the end of the timeline.
    pub walk-timeline :
        (fuel run seq : ℕ)
        → IsForest lineage
        → ((r : ℕ) → SortedAt (hist r))
        → run < fuel
        → walk hist lineage fuel run seq ≡ of_option (last (timeline hist lineage fuel run seq))
    unfolding walk timeline
    walk-timeline zero run seq f s h = absurd (omega arith)
    walk-timeline (suc fuel) run seq f s h = elim (Option-cases (lookup run lineage)) [
      | inl e ↦ elim (Option-cases (hist run)) [
        | inl m ↦ ground arith
        | inr (ns, m) ↦
            let sorted : IsSorted ns = rw m at (s run) in
            ground (arith, newest_at-last seq ns sorted)
      ]
      | inr (bp, e) ↦
          let up =
            walk-timeline fuel bp.parent_run_id bp.branch_run_seq f s
              (omega (arith, lookup-IsForest run lineage bp f e)) in
          let view = timeline hist lineage fuel bp.parent_run_id bp.branch_run_seq in
          elim (Option-cases (hist run)) [
            | inl m ↦ ground (arith, up, append-nil view)
            | inr (ns, m) ↦
                let sorted : IsSorted ns = rw m at (s run) in
                let own = keep (λ n. leb n.run_seq seq) ns in
                ground (arith, up, newest_at-last seq ns sorted, last-append view own)
          ]
    ]
