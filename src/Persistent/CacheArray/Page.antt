-- ===== src/Persistent/CacheArray/Page.antt =====
-- Whole pages: the constructor, and the update that records only the lines that differ.
use chronoporia.Base.{
  found, ℕ, zero, suc, ◌+◌, ◌≤◌, ◌<◌, ◌≡◌, refl, inl, inr, Bool, some, List, [], ◌∷◌, ◌++◌, arith,
  set, get_elem?, length, length-append, append_assoc, Bool-cases, ap, ◌∙◌, sym, lookup, ==-refl,
}
use chronoporia.Persistent.Walk.{walk, own, UpTo, newest_at, newest_at-append_within}
use chronoporia.Persistent.CacheArray.{
  CacheArray, line_node, first_nodes, create, update_line, update_page, line_history, find_fat_node,
  get, latest,
}
use chronoporia.Persistent.CacheArray.Sync.{
  IsSynced, IsSame, get-latest, update_line-IsSynced, IsSynced-later,
}

module _ {Line : Type 0} where
  set-append :
      (pre rest : List Line) (old v : Line)
      → set (pre ++ old ∷ rest) (length pre) v ≡ pre ++ v ∷ rest
  set-append [] rest old v = refl
  set-append (x ∷ pre) rest old v = ap (◌∷◌ x) (set-append pre rest old v)

  latest-update_line :
      (amount : ℕ) (a : CacheArray Line) (r t g i : ℕ) (line : Line)
      → latest (update_line amount a r t g i line) ≡ set (latest a) i line
  unfolding latest update_line
  latest-update_line amount a r t g i line = refl

  -- The loop from line `length pre` on, where the mirror holds `previous` from there on.
  update_page_loop :
      (same : Line → Line → Bool)
      → IsSame same
      → (amount run_id run_seq global_seq : ℕ) (page previous pre : List Line) (a : CacheArray Line)
      → length page ≡ length previous
      → length pre + length page ≡ amount
      → latest a ≡ pre ++ previous
      → IsSynced amount a run_id run_seq
      → IsSynced amount
          (update_page same amount a run_id run_seq global_seq (length pre) page previous)
          run_id
          run_seq
        × (latest (update_page same amount a run_id run_seq global_seq (length pre) page previous)
            ≡ pre ++ page)
  unfolding update_page
  update_page_loop same sound amount r t g [] [] pre a l m e s = (s, e)
  update_page_loop same sound amount r t g [] (old ∷ previous) pre a l m e s = absurd (omega arith)
  update_page_loop same sound amount r t g (line ∷ page) [] pre a l m e s = absurd (omega arith)
  update_page_loop same sound amount r t g (line ∷ page) (old ∷ previous) pre a l m e s =
      let next : length (pre ++ line ∷ []) ≡ suc (length pre) =
        omega (arith, length-append pre (line ∷ [])) in
      elim (Bool-cases (same line old)) [
        | inl eq ↦
            let from =
              update_page_loop same sound amount r t g page previous (pre ++ line ∷ []) a
                (omega arith) (omega (arith, next))
                (e
                  ∙ ap (λ x. pre ++ x ∷ previous) (sym (sound line old eq))
                  ∙ sym (append_assoc pre (line ∷ []) previous))
                s in
            rw (eq, ← next) (from.0, from.1 ∙ append_assoc pre (line ∷ []) page)
        | inr ne ↦
            let b = update_line amount a r t g (length pre) line in
            let synced =
              update_line-IsSynced amount a r t t g (length pre) line s (omega arith)
                (omega arith) in
            let from =
              update_page_loop same sound amount r t g page previous (pre ++ line ∷ []) b
                (omega arith) (omega (arith, next))
                (latest-update_line amount a r t g (length pre) line
                  ∙ ap (λ x. set x (length pre) line) e
                  ∙ set-append pre previous old line
                  ∙ sym (append_assoc pre (line ∷ []) previous))
                synced in
            rw (ne, ← next) (from.0, from.1 ∙ append_assoc pre (line ∷ []) page)
      ]

  -- Recording a page whose previous contents are the mirror: from then on both the mirror and a
  -- reconstruction at the update's own point are that page, although only the lines that differ
  -- were recorded. The update is not older than the last one.
  pub get-update_page :
      (same : Line → Line → Bool) (zeroed : Line)
      → IsSame same
      → (amount : ℕ) (a : CacheArray Line) (run_id run_seq seq global_seq : ℕ) (page : List Line)
      → IsSynced amount a run_id run_seq
      → run_seq ≤ seq
      → length page ≡ amount
      → (get zeroed amount
            (update_page same amount a run_id seq global_seq 0 page (latest a))
            run_id
            seq
          ≡ some page)
        × (latest (update_page same amount a run_id seq global_seq 0 page (latest a)) ≡ page)
        × IsSynced amount
            (update_page same amount a run_id seq global_seq 0 page (latest a))
            run_id
            seq
  get-update_page same zeroed sound amount a r t u g page s h l =
      let out =
        update_page_loop same sound amount r u g page (latest a) [] a
          (l ∙ sym (unfold latest in s.size)) (omega arith) refl
          (IsSynced-later amount a r t u h s) in
      (get-latest zeroed amount _ r u out.0 ∙ ap some out.1, out.1, out.0)

  own-first_nodes :
      (r t g i : ℕ) (page : List Line) → UpTo t (own (get_elem? (first_nodes r t g page) i))
  unfolding first_nodes
  own-first_nodes r t g i [] = tt
  own-first_nodes r t g zero (line ∷ page) = (omega arith, tt)
  own-first_nodes r t g (suc i) (line ∷ page) = own-first_nodes r t g i page

  get_elem?-first_nodes :
      (r t g i : ℕ) (page : List Line)
      → i < length page
      → (line : Line) × (get_elem? (first_nodes r t g page) i ≡ some (line_node r t g line ∷ []))
        × (get_elem? page i ≡ some line)
  unfolding first_nodes
  get_elem?-first_nodes r t g i [] h = elim h [ ]
  get_elem?-first_nodes r t g zero (line ∷ page) h = (line, refl, refl)
  get_elem?-first_nodes r t g (suc i) (line ∷ page) h =
      get_elem?-first_nodes r t g i page (omega arith)

  length-first_nodes :
      (r t g : ℕ) (page : List Line) → length (first_nodes r t g page) ≡ length page
  unfolding first_nodes
  length-first_nodes r t g [] = refl
  length-first_nodes r t g (line ∷ page) = ap suc (length-first_nodes r t g page)

  newest_at-one :
      (r t g : ℕ) (line : Line)
      → newest_at t (line_node r t g line ∷ []) ≡ some (line_node r t g line)
  newest_at-one r t g line = newest_at-append_within t [] (line_node r t g line) tt (omega arith)

  find-create :
      (r t g i : ℕ) (page : List Line) (line : Line)
      → get_elem? (first_nodes r t g page) i ≡ some (line_node r t g line ∷ [])
      → find_fat_node (create r t g page) i r t ≡ found (line_node r t g line)
  unfolding find_fat_node create walk lookup
  find-create r t g i page line e = ground (arith, newest_at-one r t g line, ==-refl r)

  line_history-create :
      (r t g i : ℕ) (page : List Line)
      → line_history (create r t g page).runs i r ≡ get_elem? (first_nodes r t g page) i
  unfolding create lookup
  line_history-create r t g i page = ground (arith, ==-refl r)

  -- A new page is in step at the point of its creation.
  pub create-IsSynced :
      (run_id run_seq global_seq : ℕ) (page : List Line)
      → IsSynced (length page) (create run_id run_seq global_seq page) run_id run_seq
  unfolding create
  create-IsSynced r t g page = record {
    shaped = (length-first_nodes r t g page, tt);
    size = refl;
    bounded = λ i. rw (line_history-create r t g i page) (own-first_nodes r t g i page);
    current = λ i h.
        let (line, e, f) = get_elem?-first_nodes r t g i page h in
        (line_node r t g line, find-create r t g i page line e, f);
  }
