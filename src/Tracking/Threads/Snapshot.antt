-- ===== src/Tracking/Threads/Snapshot.antt =====
-- The current threads and their histories.
use chronoporia.Base.{
  ℕ, ◌≡◌, ap, ◌∙◌, inl, inr, true, ◌||◌, List, [], ◌∷◌, arith, ◌==◌, mem, remove, lookup,
  Option-cases,
}
use chronoporia.Tree.{ExecutionTree, add_child, create}
use chronoporia.Tracking.{track, change}
use chronoporia.Tracking.Histories.{keys, keys-branch_all, mem-insert}
use chronoporia.Tracking.Threads.{
  ThreadInfo, ThreadManager, insert_id, track_thread, untrack_thread, terminate_thread_ids,
  create_thread_history_branch, restore_threads_at_sequence,
}

-- Each of the first list is in the second.
unfoldable pub Covers : List ℕ → List ℕ → Type 0
Covers ids ks = (x : ℕ) → mem x ids ≡ true → mem x ks ≡ true

mem-insert_id :
    (x k : ℕ) (ids : List ℕ) → mem x (insert_id k ids) ≡ true → (k == x || mem x ids) ≡ true
unfolding mem
mem-insert_id x k ids h = ground arith

mem-remove : (x k : ℕ) (ids : List ℕ) → mem x (remove k ids) ≡ true → mem x ids ≡ true
unfolding mem remove
mem-remove x k [] h = h
mem-remove x k (y ∷ ids) h = ground (arith, mem-remove x k ids)

module _ {Context : Type 0} where
  -- Each current thread has a history.
  abbrev pub IsCovered : ThreadManager Context → Type 0
  IsCovered m = Covers m.current_thread_ids (keys m.process_thread_history)

  mem-track :
      (blank : ThreadInfo Context) (m : List (ℕ × ExecutionTree (ThreadInfo Context))) (k : ℕ)
      (d : ThreadInfo Context) (g r s x : ℕ)
      → mem x (keys (track blank m k d g r s)) ≡ (k == x || mem x (keys m))
  unfolding track
  mem-track blank m k d g r s x = elim (Option-cases (lookup k m)) [
    | inl n ↦ rw (n, track) (mem-insert x k (create blank d r s g) m)
    | inr (t, n) ↦ rw (n, track) (mem-insert x k (add_child t d r s g) m)
  ]

  mem-change :
      (m : List (ℕ × ExecutionTree (ThreadInfo Context))) (k : ℕ) (d : ThreadInfo Context)
      (g r s x : ℕ)
      → mem x (keys m) ≡ true
      → mem x (keys (change m k d g r s)) ≡ true
  unfolding change
  mem-change m k d g r s x h = elim (Option-cases (lookup k m)) [
    | inl n ↦ rw (n, change) h
    | inr (t, n) ↦ rw (n, change) (ground (arith, h, mem-insert x k (add_child t d r s g) m))
  ]

  track_thread-IsCovered :
      (no_context : Context) (context_of : ℕ → Context) (counter_of : ℕ → ℕ)
      (m : ThreadManager Context) (thread_id global_seq run_id run_seq : ℕ)
      → IsCovered m
      → IsCovered
          (track_thread no_context context_of counter_of m thread_id global_seq run_id run_seq)
  unfolding track_thread Covers
  track_thread-IsCovered no_context context_of counter_of m a g r s h x e =
      mem-track _ m.process_thread_history a _ g r s x
      ∙ within (mem-insert_id x a m.current_thread_ids e) (h x)
    where
      within :
          (a == x || mem x m.current_thread_ids) ≡ true
          → (mem x m.current_thread_ids ≡ true → mem x (keys m.process_thread_history) ≡ true)
          → (a == x || mem x (keys m.process_thread_history)) ≡ true
      within f k = ground arith

  untrack_thread-IsCovered :
      (no_context : Context) (counter_of : ℕ → ℕ) (m : ThreadManager Context)
      (thread_id global_seq run_id run_seq : ℕ)
      → IsCovered m
      → IsCovered (untrack_thread no_context counter_of m thread_id global_seq run_id run_seq)
  unfolding untrack_thread Covers
  untrack_thread-IsCovered no_context counter_of m a g r s h x e =
      mem-change m.process_thread_history a _ g r s x (h x (mem-remove x a m.current_thread_ids e))

  terminate-IsCovered :
      (no_context : Context) (counter_of : ℕ → ℕ) (m : ThreadManager Context)
      (infos : List (ThreadInfo Context)) (global_seq run_id run_seq : ℕ)
      → IsCovered m
      → IsCovered (terminate_thread_ids no_context counter_of m infos global_seq run_id run_seq)
  unfolding terminate_thread_ids
  terminate-IsCovered no_context counter_of m [] g r s h = h
  terminate-IsCovered no_context counter_of m (i ∷ infos) g r s h =
      terminate-IsCovered no_context counter_of
        (untrack_thread no_context counter_of m i.thread_id g r s) infos g r s
        (untrack_thread-IsCovered no_context counter_of m i.thread_id g r s h)

  -- Every operation keeps a history for each current thread: a thread that starts or ends, a restore
  -- and a new branch.
  pub thread_operations-IsCovered :
      (no_context : Context) (context_of : ℕ → Context) (counter_of : ℕ → ℕ)
      (m : ThreadManager Context)
      → IsCovered m
      → ((thread_id global_seq run_id run_seq : ℕ)
          → IsCovered
              (track_thread no_context context_of counter_of m thread_id global_seq run_id run_seq))
        × ((thread_id global_seq run_id run_seq : ℕ)
            → IsCovered
                (untrack_thread no_context counter_of m thread_id global_seq run_id run_seq))
        × ((global_seq from_run_id from_run_seq to_run_id to_run_seq : ℕ)
            → IsCovered
                (restore_threads_at_sequence no_context counter_of m global_seq from_run_id
                  from_run_seq to_run_id to_run_seq).0)
        × ((target_run_id target_run_seq new_run_id : ℕ)
            → IsCovered (create_thread_history_branch m target_run_id target_run_seq new_run_id))
  unfolding restore_threads_at_sequence create_thread_history_branch Covers
  thread_operations-IsCovered no_context context_of counter_of m h = (
    λ a g r s. track_thread-IsCovered no_context context_of counter_of m a g r s h,
    λ a g r s. untrack_thread-IsCovered no_context counter_of m a g r s h,
    λ g fr fs tr ts. terminate-IsCovered no_context counter_of m _ g fr fs h,
    λ r s new x e.
        ap (mem x) (keys-branch_all (λ i. i.thread_id) m.process_thread_history r s new) ∙ h x e,
  )
