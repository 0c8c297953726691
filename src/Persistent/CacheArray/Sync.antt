-- ===== src/Persistent/CacheArray/Sync.antt =====
-- `latest()` beside `get()`, while recording goes forward along one run.
use chronoporia.Base.{
  found, ℕ, zero, suc, ◌+◌, ◌≤◌, ◌<◌, ◌≡◌, refl, ◌≢◌, inl, inr, Bool, true, some, List, [], ◌∷◌,
  ◌++◌, arith, lookup, insert, get_or, set, get_elem?, if◌then◌else◌, ◌==◌, length, All,
  lookup-insert, Bool-cases, Option-cases, ap, ◌∙◌, subst, ==-refl, get_elem?-set_self,
  get_elem?-set_ne, length-set,
}
use chronoporia.Persistent.Walk.{FatNode, own, UpTo, UpTo-mono, UpTo-append_one}
use chronoporia.Persistent.Walk.Push.{walk-push_here, walk-own, walk-beyond}
use chronoporia.Persistent.CacheArray.{
  CacheArray, replicate, line_node, push_line, update_line, line_history, find_fat_node, get_lines,
  get, latest,
}

module _ {Line : Type 0} where
  -- The mirror is what a reader at (run_id, run_seq) finds in the history.
  pub record IsSynced (amount : ℕ) (a : CacheArray Line) (run_id run_seq : ℕ) : Type 0 where
    pub shaped : All (λ e. length e.1 ≡ amount) a.runs
    pub size : length a.latest_page_memory ≡ amount
    pub bounded : (idx : ℕ) → UpTo run_seq (own (line_history a.runs idx run_id))
    pub current :
        (idx : ℕ)
        → idx < amount
        → (n : FatNode Line) × (find_fat_node a idx run_id run_seq ≡ found n)
          × (get_elem? a.latest_page_memory idx ≡ some n.data_at)

  get_lines-page :
      (zeroed : Line) (a : CacheArray Line) (run_id run_seq idx : ℕ) (page : List Line)
      → ((j : ℕ)
          → j < length page
          → (n : FatNode Line) × (find_fat_node a (idx + j) run_id run_seq ≡ found n)
            × (get_elem? page j ≡ some n.data_at))
      → get_lines zeroed a run_id run_seq idx (length page) ≡ some page
  unfolding get_lines
  get_lines-page zeroed a run_id run_seq idx [] h = refl
  get_lines-page zeroed a run_id run_seq idx (line ∷ page) h =
      let here = h 0 (omega arith) in
      let same : idx + 0 ≡ idx = omega arith in
      let rest = get_lines-page zeroed a run_id run_seq (suc idx) page (λ j k.
        let shift : idx + suc j ≡ suc idx + j = omega arith in
        rw shift at (h (suc j) (omega arith))) in
      rw (rest, rw same at (here.1)) (ground (arith, here.2))

  -- When it is in step, reconstructing the current page and reading the mirror give the same.
  pub get-latest :
      (zeroed : Line) (amount : ℕ) (a : CacheArray Line) (run_id run_seq : ℕ)
      → IsSynced amount a run_id run_seq
      → get zeroed amount a run_id run_seq ≡ some (latest a)
  unfolding get latest
  get-latest zeroed amount a run_id run_seq s = rw (← s.size) (
      get_lines-page zeroed a run_id run_seq 0 a.latest_page_memory (λ j k.
        let shift : 0 + j ≡ j = omega arith in rw shift (s.current j (omega (arith, s.size)))))

  length-lookup :
      (amount r : ℕ) (runs : List (ℕ × List (List (FatNode Line))))
      (lines : List (List (FatNode Line)))
      → All (λ e. length e.1 ≡ amount) runs
      → lookup r runs ≡ some lines
      → length lines ≡ amount
  unfolding lookup
  length-lookup amount r [] lines h e = ground arith
  length-lookup amount r ((k, ls) ∷ runs) lines h e =
      ground (arith, length-lookup amount r runs lines h.1)

  length-replicate : (n : ℕ) (ns : List (FatNode Line)) → length (replicate n ns) ≡ n
  length-replicate zero ns = refl
  length-replicate (suc n) ns = ap suc (length-replicate n ns)

  own-replicate : (n i : ℕ) → own {Data = Line} (get_elem? (replicate n []) i) ≡ []
  own-replicate zero i = refl
  own-replicate (suc n) zero = refl
  own-replicate (suc n) (suc i) = own-replicate n i

  All-insert_shape :
      (amount k : ℕ) (ls : List (List (FatNode Line)))
      (runs : List (ℕ × List (List (FatNode Line))))
      → All (λ e. length e.1 ≡ amount) runs
      → length ls ≡ amount
      → All (λ e. length e.1 ≡ amount) (insert k ls runs)
  unfolding insert
  All-insert_shape amount k ls [] h s = (s, tt)
  All-insert_shape amount k ls ((j, ms) ∷ runs) h s = elim (Bool-cases (j == k)) [
    | inl e ↦ rw e (s, h.1)
    | inr e ↦ rw e (h.0, All-insert_shape amount k ls runs h.1 s)
  ]

  module _ (amount : ℕ) (runs : List (ℕ × List (List (FatNode Line)))) (r idx : ℕ)
      (n : FatNode Line) (shaped : All (λ e. length e.1 ≡ amount) runs) (small : idx < amount) where
    -- The lines of run `r`, as `runs[r]` gives them.
    abbrev lines_of : List (List (FatNode Line))
    lines_of = get_or r (replicate amount []) runs

    pushed_runs : List (ℕ × List (List (FatNode Line)))
    unfolding push_line
    pushed_runs = insert r (push_line lines_of idx n) runs

    length-lines_of : length lines_of ≡ amount
    unfolding get_or
    length-lines_of = elim (Option-cases (lookup r runs)) [
      | inl e ↦ ground (arith, length-replicate amount [])
      | inr (ls, e) ↦ ground (arith, length-lookup amount r runs ls shaped e)
    ]

    own-lines_of : (i : ℕ) → own (get_elem? lines_of i) ≡ own (line_history runs i r)
    unfolding get_or
    own-lines_of i = ground (arith, own-replicate amount i)

    line_history-pushed :
        (q : ℕ)
        → line_history pushed_runs idx q ≡ (
            if r == q
            then some (own (line_history runs idx r) ++ n ∷ [])
            else line_history runs idx q)
    unfolding pushed_runs push_line
    line_history-pushed q = ground (
      arith,
      lookup-insert r q (push_line lines_of idx n) runs,
      own-lines_of idx,
      length-lines_of,
      get_elem?-set_self lines_of idx (own (get_elem? lines_of idx) ++ n ∷ []),
    )

    own-line_history-pushed_ne :
        (i q : ℕ) → idx ≢ i → own (line_history pushed_runs i q) ≡ own (line_history runs i q)
    unfolding pushed_runs push_line
    own-line_history-pushed_ne i q h = ground (
      arith,
      lookup-insert r q (push_line lines_of idx n) runs,
      own-lines_of i,
      get_elem?-set_ne lines_of idx i (own (get_elem? lines_of idx) ++ n ∷ []),
    )

    shaped-pushed : All (λ e. length e.1 ≡ amount) pushed_runs
    unfolding pushed_runs push_line
    shaped-pushed =
        All-insert_shape amount r _ runs shaped
          (length-set lines_of idx (own (get_elem? lines_of idx) ++ n ∷ []) ∙ length-lines_of)

  module _ (amount : ℕ) (a : CacheArray Line) (run_id run_seq seq global_seq idx : ℕ) (line : Line)
      (s : IsSynced amount a run_id run_seq) (later : run_seq ≤ seq) (small : idx < amount) where
    abbrev added : FatNode Line
    added = line_node run_id seq global_seq line

    abbrev updated : CacheArray Line
    updated = update_line amount a run_id seq global_seq idx line

    find-updated_self : find_fat_node updated idx run_id seq ≡ found added
    unfolding find_fat_node update_line pushed_runs
    find-updated_self =
        walk-push_here (line_history a.runs idx) (line_history updated.runs idx) run_id added
          (line_history-pushed amount a.runs run_id idx added s.shaped small) a.lineage run_id seq
          (UpTo-mono run_seq seq (own (line_history a.runs idx run_id)) later (s.bounded idx))
          (omega arith)

    find-updated_ne :
        (i : ℕ) → idx ≢ i → find_fat_node updated i run_id seq ≡ find_fat_node a i run_id run_seq
    unfolding find_fat_node update_line pushed_runs
    find-updated_ne i h =
        walk-own (line_history a.runs i) (line_history updated.runs i) a.lineage
          (λ q. own-line_history-pushed_ne amount a.runs run_id idx added s.shaped small i q h)
          (suc run_id) run_id seq
        ∙ walk-beyond (line_history a.runs i) (line_history a.runs i) a.lineage (suc run_id) run_id
            run_seq seq (s.bounded i) later

    bounded-updated_self : UpTo seq (own (line_history updated.runs idx run_id))
    unfolding update_line pushed_runs
    bounded-updated_self =
        rw
          (line_history-pushed amount a.runs run_id idx added s.shaped small run_id, ==-refl run_id)
          (UpTo-append_one seq (own (line_history a.runs idx run_id)) added
            (UpTo-mono run_seq seq (own (line_history a.runs idx run_id)) later (s.bounded idx))
            (omega arith))

    bounded-updated : (i : ℕ) → UpTo seq (own (line_history updated.runs i run_id))
    unfolding update_line pushed_runs
    bounded-updated i = elim (Bool-cases (idx == i)) [
      | inl e ↦
          let p : idx ≡ i = ground arith in
          subst (λ j. UpTo seq (own (line_history updated.runs j run_id))) p bounded-updated_self
      | inr e ↦
          let h : idx ≢ i = ground arith in
          rw (own-line_history-pushed_ne amount a.runs run_id idx added s.shaped small i run_id h)
            (UpTo-mono run_seq seq (own (line_history a.runs i run_id)) later (s.bounded i))
    ]

    current-updated :
        (i : ℕ)
        → i < amount
        → (n : FatNode Line) × (find_fat_node updated i run_id seq ≡ found n)
          × (get_elem? updated.latest_page_memory i ≡ some n.data_at)
    unfolding update_line
    current-updated i k = elim (Bool-cases (idx == i)) [
      | inl e ↦
          let p : idx ≡ i = ground arith in
          let f : find_fat_node updated i run_id seq ≡ found added =
            subst (λ j. find_fat_node updated j run_id seq ≡ found added) p find-updated_self in
          let g : get_elem? (set a.latest_page_memory idx line) i ≡ some line =
            subst (λ j. get_elem? (set a.latest_page_memory idx line) j ≡ some line) p
              (get_elem?-set_self a.latest_page_memory idx line (omega (arith, s.size))) in
          (added, f, g)
      | inr e ↦
          let h : idx ≢ i = ground arith in
          let (n, f, g) = s.current i k in
          (n, find-updated_ne i h ∙ f, get_elem?-set_ne a.latest_page_memory idx i line h ∙ g)
    ]

    -- A line update that is not older than the last one keeps the mirror in step, at its own point.
    pub update_line-IsSynced : IsSynced amount updated run_id seq
    unfolding update_line pushed_runs
    update_line-IsSynced = record {
      shaped = shaped-pushed amount a.runs run_id idx added s.shaped small;
      size = length-set a.latest_page_memory idx line ∙ s.size;
      bounded = bounded-updated;
      current = current-updated;
    }

  -- Lines of equal content are those that the test says are equal.
  abbrev pub IsSame : (Line → Line → Bool) → Type 0
  IsSame same = (x y : Line) → same x y ≡ true → x ≡ y

  pub IsSynced-later :
      (amount : ℕ) (a : CacheArray Line) (run_id t u : ℕ)
      → t ≤ u
      → IsSynced amount a run_id t
      → IsSynced amount a run_id u
  unfolding find_fat_node
  IsSynced-later amount a run_id t u h s = record {
    shaped = s.shaped;
    size = s.size;
    bounded = λ i. UpTo-mono t u (own (line_history a.runs i run_id)) h (s.bounded i);
    current = λ i k.
        let (n, f, g) = s.current i k in
        (
          n,
          walk-beyond (line_history a.runs i) (line_history a.runs i) a.lineage (suc run_id) run_id
                t u (s.bounded i) h
              ∙ f,
          g,
        );
  }
