-- ===== src/Tracking/Threads/Taken.antt =====
-- What a snapshot of the threads records.
use chronoporia.Base.{
  ℕ, ◌≡◌, ◌≢◌, refl, subst, ◌∙◌, inl, inr, true, false, ◌||◌, Option, none, some, List, [], ◌∷◌,
  arith, if◌then◌else◌, ◌==◌, ==_iff, ==-refl, mem, insert, lookup, lookup-insert, Option-cases,
  Bool-cases,
}
use chronoporia.Tree.{ExecutionTree, add_child}
use chronoporia.Tracking.Histories.{keys, mem-insert}
use chronoporia.Tracking.Threads.{
  ThreadInfo, ThreadManager, thread_info, snapshot_each, snapshot_threads,
}
use chronoporia.Tracking.Threads.Snapshot.{Covers, IsCovered}

-- No id stands twice, as in a `std::set`.
unfoldable pub HasNoRepeat : List ℕ → Type 0
HasNoRepeat [] = Unit
HasNoRepeat (x ∷ ids) = (mem x ids ≡ false) × HasNoRepeat ids

module _ {Context : Type 0} (context_of : ℕ → Context) (counter_of : ℕ → ℕ)
    (global_seq run_id run_seq : ℕ) where
  abbrev pub Histories : Type 0
  Histories = List (ℕ × ExecutionTree (ThreadInfo Context))

  -- The history of a thread with its state of the moment below the cursor.
  abbrev pub with_state :
      ℕ → ExecutionTree (ThreadInfo Context) → ExecutionTree (ThreadInfo Context)
  with_state x t =
      add_child t (thread_info x (context_of x) (counter_of x) true) run_id run_seq global_seq

  abbrev pub taken :
      ℕ → Option (ExecutionTree (ThreadInfo Context)) → Option (ExecutionTree (ThreadInfo Context))
  taken x none = none
  taken x (some t) = some (with_state x t)

  lookup-mem : (x : ℕ) (m : Histories) → mem x (keys m) ≡ true → lookup x m ≢ none
  unfolding mem keys lookup
  lookup-mem x [] h = ground arith
  lookup-mem x ((k, t) ∷ m) h = ground (arith, lookup-mem x m)

  -- One thread is recorded, and then the others.
  taken_cons :
      (a x : ℕ) (ids : List ℕ) (m : Histories) (t : ExecutionTree (ThreadInfo Context))
      → lookup a m ≡ some t
      → mem a ids ≡ false
      → (if mem x ids
          then taken x (lookup x (insert a (with_state a t) m))
          else lookup x (insert a (with_state a t) m))
        ≡ (if mem x (a ∷ ids) then taken x (lookup x m) else lookup x m)
  unfolding mem
  taken_cons a x ids m t here new = elim (Bool-cases (a == x)) [
    | inl same ↦
        subst
          (λ y.
            (if mem y ids
              then taken y (lookup y (insert a (with_state a t) m))
              else lookup y (insert a (with_state a t) m))
            ≡ (if a == y || mem y ids then taken y (lookup y m) else lookup y m))
          ((==_iff a x).0 same)
          (rw (new, lookup-insert a a (with_state a t) m, ==-refl a, here) refl)
    | inr other ↦ rw (lookup-insert a x (with_state a t) m, other) refl
  ]

  snapshot_each-taken :
      (ids : List ℕ) (m : Histories)
      → Covers ids (keys m)
      → HasNoRepeat ids
      → (after : Histories) × (snapshot_each context_of counter_of ids m global_seq run_id run_seq
          ≡ some after)
        × ((x : ℕ) → lookup x after ≡ (if mem x ids then taken x (lookup x m) else lookup x m))
  unfolding snapshot_each Covers mem HasNoRepeat
  snapshot_each-taken [] m h d = (m, refl, λ x. refl)
  snapshot_each-taken (a ∷ ids) m h (new, d) = elim (Option-cases (lookup a m)) [
    | inl n ↦ absurd (lookup-mem a m (h a (first a ids)) n)
    | inr (t, n) ↦
        let (after, e, k) =
          snapshot_each-taken ids (insert a (with_state a t) m)
            (λ x e. mem-insert x a _ m ∙ within x (h x (later x a ids e))) d in
        (after, rw (n, snapshot_each) e, λ x. k x ∙ taken_cons a x ids m t n new)
  ]
    where
      first : (x : ℕ) (xs : List ℕ) → mem x (x ∷ xs) ≡ true
      first x xs = ground arith

      later : (x y : ℕ) (xs : List ℕ) → mem x xs ≡ true → mem x (y ∷ xs) ≡ true
      later x y xs e = ground arith

      within : (x : ℕ) → mem x (keys m) ≡ true → (a == x || mem x (keys m)) ≡ true
      within x e = ground arith

  -- With a history for each current thread, and no id twice among them, a snapshot of the threads does
  -- not throw: each current thread has one more state in its history, at the snapshot's point, with its
  -- own context and counter; the histories of the others are what they were, and so are the ids.
  pub snapshot_threads-taken :
      (m : ThreadManager Context)
      → IsCovered m
      → HasNoRepeat m.current_thread_ids
      → (after : Histories) × (snapshot_threads context_of counter_of m global_seq run_id run_seq
          ≡ some (record m { process_thread_history = after }))
        × ((x : ℕ)
            → lookup x after ≡ (
                if mem x m.current_thread_ids
                then taken x (lookup x m.process_thread_history)
                else lookup x m.process_thread_history))
  unfolding snapshot_threads
  snapshot_threads-taken m h d =
      let (after, e, k) = snapshot_each-taken m.current_thread_ids m.process_thread_history h d in
      (after, rw (e, snapshot_threads) refl, k)
