-- ===== src/Region/Recording.antt =====
-- The pages that a run records one after another.
use chronoporia.Base.{
  ℕ, suc, ◌+◌, ◌^◌, ◌<◌, ◌≡◌, ◌≢◌, refl, ap, sym, ◌∙◌, inl, inr, Bool, true, some, List, [], ◌∷◌,
  ◌++◌, append_assoc, append-nil, arith, if◌then◌else◌, ◌==◌, ==_iff, ==-refl, length,
  length-append, get_elem?, get_or, get_or-insert, Bool-cases,
}
use chronoporia.Persistent.Walk.{FatNode}
use chronoporia.Region.{
  ◌>>=◌, Outcome, done, FatNodeHistory, page_node, push_node, set_cursor, moved_idx, update,
}
use chronoporia.Region.Cursor.{PointsAt, update-PointsAt}

module _ {Page : Type 0} (same : Page → Page → Bool) (run : ℕ) where
  -- One update after another, each with its run_seq, global_seq and page.
  unfoldable pub updates : FatNodeHistory Page → List (ℕ × ℕ × Page) → Outcome (FatNodeHistory Page)
  updates h [] = done h
  updates h ((run_seq, global_seq, page) ∷ pages) =
      update same h run run_seq global_seq page >>= λ after. updates after pages

  -- The pages that differ from the one that was kept last before them.
  unfoldable pub changes : FatNode Page → List (ℕ × ℕ × Page) → List (FatNode Page)
  changes last [] = []
  changes last ((run_seq, global_seq, page) ∷ pages) =
      let new = page_node run run_seq global_seq page in
      let kept = changes last pages in
      let changed = new ∷ changes new pages in if same last.data_at page then kept else changed

  -- The cursor is at the last node of the run.
  pub record IsAtEnd (h : FatNodeHistory Page) (before : List (FatNode Page)) (n : FatNode Page)
      : Type 0 where
    pub at_run : h.current_run_id ≡ some run
    pub at_idx : h.current_run_idx ≡ some (length before)
    pub nodes : get_or run [] h.fat_node_branches ≡ before ++ n ∷ []

  get_elem?-last :
      (before : List (FatNode Page)) (n : FatNode Page)
      → get_elem? (before ++ n ∷ []) (length before) ≡ some n
  get_elem?-last [] n = refl
  get_elem?-last (b ∷ before) n = get_elem?-last before n

  -- The cursor points at that node.
  abbrev at_last :
      (h : FatNodeHistory Page) (before : List (FatNode Page)) (n : FatNode Page)
      → IsAtEnd h before n
      → PointsAt h n
  at_last h before n e = record {
    run = run;
    idx = length before;
    at_run = e.at_run;
    at_idx = e.at_idx;
    there = ap (λ ns. get_elem? ns (length before)) e.nodes ∙ get_elem?-last before n;
  }

  -- The history with a page more in the run, at the cursor.
  abbrev with_page : FatNodeHistory Page → ℕ → FatNode Page → FatNodeHistory Page
  with_page h idx new = push_node (set_cursor h run idx) run new

  with_page-IsAtEnd :
      (h : FatNodeHistory Page) (before : List (FatNode Page)) (n new : FatNode Page)
      → IsAtEnd h before n
      → suc (length before) < 2 ^ 32
      → IsAtEnd (with_page h (moved_idx (run == run) h.current_run_idx) new) (before ++ n ∷ []) new
  unfolding push_node
  with_page-IsAtEnd h before n new e room = record {
    at_run = refl;
    at_idx =
        ap (λ b. some (moved_idx b h.current_run_idx)) (==-refl run)
        ∙ ap (λ i. some (moved_idx true i)) e.at_idx
        ∙ ap some (omega (arith, room, length-append before (n ∷ [])));
    nodes =
        get_or-insert run run [] (get_or run [] h.fat_node_branches ++ new ∷ []) h.fat_node_branches
        ∙ ap
            (λ b.
              if b
              then get_or run [] h.fat_node_branches ++ new ∷ []
              else get_or run [] h.fat_node_branches)
            (==-refl run)
        ∙ ap (λ ns. ns ++ new ∷ []) e.nodes;
  }

  with_page-other :
      (h : FatNodeHistory Page) (idx other : ℕ) (new : FatNode Page)
      → other ≢ run
      → get_or other [] (with_page h idx new).fat_node_branches
        ≡ get_or other [] h.fat_node_branches
  unfolding push_node
  with_page-other h idx other new apart = ground (
    arith,
    get_or-insert run other [] (get_or run [] h.fat_node_branches ++ new ∷ []) h.fat_node_branches,
    ==_iff run other,
  )

  -- What the updates leave of a history with these nodes in the run.
  abbrev pub Records :
      FatNodeHistory Page → List (FatNode Page) → Outcome (FatNodeHistory Page) → Type 0
  Records h nodes out =
      (after : FatNodeHistory Page) × (out ≡ done after)
      × (get_or run [] after.fat_node_branches ≡ nodes)
      × ((other : ℕ)
          → other ≢ run
          → get_or other [] after.fat_node_branches ≡ get_or other [] h.fat_node_branches)

  -- With the cursor at the last node of the run, and fewer than 2^32 nodes in it with the pages that
  -- come, updates in the run do not throw, and append exactly the pages that differ from the one that
  -- the run recorded last before them, in order and with their own sequences; the nodes of the other
  -- runs are what they were.
  pub updates-Records :
      (h : FatNodeHistory Page) (before : List (FatNode Page)) (n : FatNode Page)
      (pages : List (ℕ × ℕ × Page))
      → IsAtEnd h before n
      → length before + suc (length pages) < 2 ^ 32
      → Records h ((before ++ n ∷ []) ++ changes n pages) (updates h pages)
  unfolding updates changes
  updates-Records h before n [] e room =
      (h, refl, e.nodes ∙ sym (append-nil (before ++ n ∷ [])), λ other apart. refl)
  updates-Records h before n ((run_seq, global_seq, page) ∷ pages) e room =
      let p = at_last h before n e in
      let new = page_node run run_seq global_seq page in
      let idx = moved_idx (run == run) h.current_run_idx in
      let step = update-PointsAt same h n p run run_seq global_seq page in
      elim (Bool-cases (same n.data_at page)) [
        | inl equal ↦
            let (after, ends, nodes, others) =
              updates-Records h before n pages e (omega (arith, room)) in
            (
              after,
              ap (λ out. out >>= λ g. updates g pages)
                    (step ∙ ap (λ b. if b then done h else done (with_page h idx new)) equal)
                  ∙ ends,
              nodes ∙ rw equal refl,
              others,
            )
        | inr differs ↦
            let (after, ends, nodes, others) =
              updates-Records (with_page h idx new) (before ++ n ∷ []) new pages
                (with_page-IsAtEnd h before n new e (omega (arith, room)))
                (omega (arith, room, length-append before (n ∷ []))) in
            (
              after,
              ap (λ out. out >>= λ g. updates g pages)
                    (step ∙ ap (λ b. if b then done h else done (with_page h idx new)) differs)
                  ∙ ends,
              nodes
                  ∙ append_assoc (before ++ n ∷ []) (new ∷ []) (changes new pages)
                  ∙ rw differs refl,
              λ other apart. others other apart ∙ with_page-other h idx other new apart,
            )
      ]
