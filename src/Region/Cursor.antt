-- ===== src/Region/Cursor.antt =====
-- The cursor of a history, between a read and the next update.
use chronoporia.Base.{
  ap, ◌∙◌, subst, not, contains, ℕ, zero, suc, ◌≡◌, refl, inl, inr, Bool, true, Option, none, some,
  List, [], arith, if◌then◌else◌, ◌==◌, lookup, get_or, get_elem?, Bool-cases,
}
use chronoporia.Persistent.Walk.{FatNode, upper_bound}
use chronoporia.Region.{
  record_at, record_after, ◌>>=◌, climb, at_bound, at_branch, push_node, moved_idx, page_node,
  Outcome, done, throws, out_of_fuel, FatNodeHistory, no_origin, set_cursor, touch, nearest_loop,
  get_node_nearest, previous_node, update, is_before,
}

module _ {Page : Type 0} where
  -- The cursor of a history is at a node.
  pub record PointsAt (h : FatNodeHistory Page) (n : FatNode Page) : Type 0 where
    pub run : ℕ
    pub idx : ℕ
    pub at_run : h.current_run_id ≡ some run
    pub at_idx : h.current_run_idx ≡ some idx
    pub there : get_elem? (get_or run [] h.fat_node_branches) idx ≡ some n

  abbrev Points : Outcome (FatNodeHistory Page × Option (FatNode Page)) → Type 0
  Points throws = Unit
  Points out_of_fuel = Unit
  Points (done (h, none)) = Unit
  Points (done (h, some n)) = PointsAt h n

  get_or-some :
      (run : ℕ) (branches : List (ℕ × List (FatNode Page))) (branch : List (FatNode Page))
      → lookup run branches ≡ some branch
      → get_or run [] branches ≡ branch
  unfolding get_or
  get_or-some run branches branch e = ground arith

  found-Points :
      (h : FatNodeHistory Page) (run i : ℕ) (branch : List (FatNode Page))
      (o : Option (FatNode Page))
      → lookup run h.fat_node_branches ≡ some branch
      → get_elem? branch i ≡ o
      → Points (done (set_cursor h run i, o))
  found-Points h run i branch none e g = tt
  found-Points h run i branch (some n) e g = record {
    run = run;
    idx = i;
    at_run = refl;
    at_idx = refl;
    there = rw (get_or-some run h.fat_node_branches branch e) g;
  }

  climb-Points :
      (h : FatNodeHistory Page) (run : ℕ) (r s : Option ℕ)
      (on : ℕ → ℕ → Outcome (FatNodeHistory Page × Option (FatNode Page)))
      → ((p q : ℕ) → Points (on p q))
      → Points (climb h run r s on)
  unfolding climb
  climb-Points h run none s on f = tt
  climb-Points h run (some p) none on f = tt
  climb-Points h run (some p) (some q) on f = f p q

  at_bound-Points :
      (h : FatNodeHistory Page) (run : ℕ) (branch : List (FatNode Page)) (bound : ℕ)
      (up : Outcome (FatNodeHistory Page × Option (FatNode Page)))
      → lookup run h.fat_node_branches ≡ some branch
      → Points up
      → Points (at_bound h run branch bound up)
  unfolding at_bound
  at_bound-Points h run branch zero up e u = u
  at_bound-Points h run branch (suc i) up e u =
      found-Points h run i branch (get_elem? branch i) e refl

  at_branch-Points :
      (h : FatNodeHistory Page) (run seq : ℕ) (o : Option (List (FatNode Page)))
      (up : Outcome (FatNodeHistory Page × Option (FatNode Page)))
      → lookup run h.fat_node_branches ≡ o
      → Points up
      → Points (at_branch h run seq o up)
  unfolding at_branch
  at_branch-Points h run seq none up e u = tt
  at_branch-Points h run seq (some branch) up e u =
      at_bound-Points h run branch (upper_bound seq branch) up e u

  nearest_loop-Points :
      (fuel : ℕ) (h : FatNodeHistory Page) (run seq : ℕ) → Points (nearest_loop fuel h run seq)
  unfolding nearest_loop
  nearest_loop-Points zero h run seq = tt
  nearest_loop-Points (suc fuel) h run seq =
      let origin = get_or run no_origin h.branch_history in
      at_branch-Points h run seq (lookup run h.fat_node_branches) _ refl (
        climb-Points h run origin.run_of origin.seq_of
          (λ parent at. nearest_loop fuel (touch h run) parent at)
          (λ p q. nearest_loop-Points fuel (touch h run) p q))

  get_node_nearest-Points :
      (h : FatNodeHistory Page) (run seq : ℕ) → Points (get_node_nearest h run seq)
  unfolding get_node_nearest
  get_node_nearest-Points h run seq = elim (Bool-cases (is_before h run seq)) [
    | inl b ↦ rw b tt
    | inr b ↦ elim (Bool-cases (not (contains run h.fat_node_branches))) [
      | inl c ↦ rw (b, c) tt
      | inr c ↦ rw (b, c) (nearest_loop-Points (suc run) h run seq)
    ]
  ]

  -- A read that returns a node leaves the cursor at that node.
  pub get_node_nearest-PointsAt :
      (h : FatNodeHistory Page) (run seq : ℕ) (h' : FatNodeHistory Page) (n : FatNode Page)
      → get_node_nearest h run seq ≡ done (h', some n)
      → PointsAt h' n
  get_node_nearest-PointsAt h run seq h' n e = subst Points e (get_node_nearest-Points h run seq)

  previous_node-PointsAt :
      (h : FatNodeHistory Page) (n : FatNode Page) (p : PointsAt h n)
      → previous_node h p.run ≡ done n
  unfolding previous_node
  previous_node-PointsAt h n p = rw (p.at_idx, previous_node, p.there) refl

  update-record_after :
      (same : Page → Page → Bool) (h : FatNodeHistory Page) (n : FatNode Page) (p : PointsAt h n)
      (run_id run_seq global_seq : ℕ) (page : Page)
      → update same h run_id run_seq global_seq page
        ≡ record_after same h run_id run_seq global_seq page p.run n
  unfolding update record_at
  update-record_after same h n p run_id run_seq global_seq page =
      ap (record_at same h run_id run_seq global_seq page) p.at_run
      ∙ ap
          (λ o. o >>= λ previous. record_after same h run_id run_seq global_seq page p.run previous)
          (previous_node-PointsAt h n p)

  -- The history with the page appended, at the cursor.
  abbrev pub pushed :
      (h : FatNodeHistory Page)
      → {n : FatNode Page} → PointsAt h n
      → ℕ
      → ℕ
      → ℕ
      → Page
      → FatNodeHistory Page
  pushed h p run_id run_seq global_seq page =
      push_node (set_cursor h run_id (moved_idx (p.run == run_id) h.current_run_idx)) run_id
        (page_node run_id run_seq global_seq page)

  -- With the cursor at a node, an update compares its page with that node's.
  pub update-PointsAt :
      (same : Page → Page → Bool) (h : FatNodeHistory Page) (n : FatNode Page) (p : PointsAt h n)
      (run_id run_seq global_seq : ℕ) (page : Page)
      → update same h run_id run_seq global_seq page
        ≡ (if same n.data_at page then done h else done (pushed h p run_id run_seq global_seq page))
  unfolding record_after
  update-PointsAt same h n p run_id run_seq global_seq page =
      update-record_after same h n p run_id run_seq global_seq page

  -- A page that equals one that was read at some point of the past, in whatever run, is dropped by
  -- the update that follows the read, even where the run's latest page differs: nothing is recorded.
  pub update-after_read :
      (same : Page → Page → Bool) (h : FatNodeHistory Page) (run seq : ℕ) (h' : FatNodeHistory Page)
      (n : FatNode Page) (run_id run_seq global_seq : ℕ) (page : Page)
      → get_node_nearest h run seq ≡ done (h', some n)
      → same n.data_at page ≡ true
      → update same h' run_id run_seq global_seq page ≡ done h'
  update-after_read same h run seq h' n run_id run_seq global_seq page e s =
      let p = get_node_nearest-PointsAt h run seq h' n e in
      update-PointsAt same h' n p run_id run_seq global_seq page
      ∙ ap (λ b. if b then done h' else done (pushed h' p run_id run_seq global_seq page)) s
