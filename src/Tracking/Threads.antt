-- ===== src/Tracking/Threads.antt =====
-- src/managers/thread_manager.cpp. The context and the counter that Windows reports for a thread are
-- parameters; `std::set` is a list without repetition.
pub mod Snapshot
pub mod Taken
use chronoporia.Base.{
  ℕ, Bool, true, false, Option, none, some, List, [], ◌∷◌, if◌then◌else◌, ◌==◌, mem, remove, insert,
  lookup, contains,
}
use chronoporia.Tree.{ExecutionTree, add_child}
use chronoporia.Tracking.{track, change, branch_all, loaded_at, left_over, erase_first}

pub record ThreadInfo (Context : Type 0) : Type 0 where
  pub thread_id : ℕ
  pub thread_context : Context
  pub tls_counter : ℕ
  pub loaded : Bool

pub record ThreadManager (Context : Type 0) : Type 0 where
  pub process_thread_history : List (ℕ × ExecutionTree (ThreadInfo Context))
  pub current_thread_ids : List ℕ

-- `set.insert`.
abbrev pub insert_id : ℕ → List ℕ → List ℕ
insert_id thread_id ids = if mem thread_id ids then ids else thread_id ∷ ids

module _ {Context : Type 0} where
  abbrev pub thread_info : ℕ → Context → ℕ → Bool → ThreadInfo Context
  thread_info thread_id context counter loaded = record {
    thread_id = thread_id;
    thread_context = context;
    tls_counter = counter;
    loaded = loaded;
  }

  unfoldable pub track_thread :
      Context
      → (ℕ → Context)
      → (ℕ → ℕ)
      → ThreadManager Context
      → ℕ
      → ℕ
      → ℕ
      → ℕ
      → ThreadManager Context
  track_thread no_context context_of counter_of m thread_id global_seq run_id run_seq = record {
    process_thread_history =
        track (thread_info 0 no_context 0 false) m.process_thread_history thread_id
          (thread_info thread_id (context_of thread_id) (counter_of thread_id) true) global_seq
          run_id run_seq;
    current_thread_ids = insert_id thread_id m.current_thread_ids;
  }

  unfoldable pub untrack_thread :
      Context → (ℕ → ℕ) → ThreadManager Context → ℕ → ℕ → ℕ → ℕ → ThreadManager Context
  untrack_thread no_context counter_of m thread_id global_seq run_id run_seq = record {
    process_thread_history =
        change m.process_thread_history thread_id
          (thread_info thread_id no_context (counter_of thread_id) false) global_seq run_id run_seq;
    current_thread_ids = remove thread_id m.current_thread_ids;
  }

  -- `TerminateThread` succeeds or fails outside; each thread is untracked either way.
  unfoldable pub terminate_thread_ids :
      Context
      → (ℕ → ℕ)
      → ThreadManager Context
      → List (ThreadInfo Context)
      → ℕ
      → ℕ
      → ℕ
      → ThreadManager Context
  terminate_thread_ids no_context counter_of m [] global_seq run_id run_seq = m
  terminate_thread_ids no_context counter_of m (i ∷ infos) global_seq run_id run_seq =
      terminate_thread_ids no_context counter_of
        (untrack_thread no_context counter_of m i.thread_id global_seq run_id run_seq) infos
        global_seq run_id run_seq

  -- The threads whose context is replaced: snapped, and still alive.
  unfoldable pub replaced :
      List (ThreadInfo Context) → List (ThreadInfo Context) → List (ThreadInfo Context)
  unfolding erase_first
  replaced [] current = []
  replaced (s ∷ snapped) current =
      let rest = replaced snapped (erase_first (λ i. i.thread_id) s.thread_id current) in
      if mem s.thread_id (ids_of current) then s ∷ rest else rest
    where
      ids_of : List (ThreadInfo Context) → List ℕ
      ids_of [] = []
      ids_of (i ∷ infos) = i.thread_id ∷ ids_of infos

  -- The manager after the restore, with the threads whose contexts were replaced.
  unfoldable pub restore_threads_at_sequence :
      Context
      → (ℕ → ℕ)
      → ThreadManager Context
      → ℕ
      → ℕ
      → ℕ
      → ℕ
      → ℕ
      → ThreadManager Context × List (ThreadInfo Context)
  restore_threads_at_sequence no_context counter_of m global_sequence from_run_id from_run_seq
        to_run_id to_run_seq =
      let snapped = loaded_at (λ i. i.loaded) m.process_thread_history to_run_id to_run_seq in
      let current = loaded_at (λ i. i.loaded) m.process_thread_history from_run_id from_run_seq in
      (
        terminate_thread_ids no_context counter_of m (left_over (λ i. i.thread_id) snapped current)
            global_sequence from_run_id from_run_seq,
        replaced snapped current,
      )

  -- The loop of `SnapshotThreads`; `none` where `at` throws on a thread with no history.
  unfoldable pub snapshot_each :
      (ℕ → Context)
      → (ℕ → ℕ)
      → List ℕ
      → List (ℕ × ExecutionTree (ThreadInfo Context))
      → ℕ
      → ℕ
      → ℕ
      → Option (List (ℕ × ExecutionTree (ThreadInfo Context)))
  snapshot_each context_of counter_of [] histories global_seq run_id run_seq = some histories
  snapshot_each context_of counter_of (thread_id ∷ ids) histories global_seq run_id run_seq =
      elim (lookup thread_id histories) [
        | none ↦ none
        | some t ↦
            snapshot_each context_of counter_of ids
              (insert thread_id
                (add_child t
                  (thread_info thread_id (context_of thread_id) (counter_of thread_id) true) run_id
                  run_seq global_seq)
                histories)
              global_seq run_id run_seq
      ]

  unfoldable pub snapshot_threads :
      (ℕ → Context) → (ℕ → ℕ) → ThreadManager Context → ℕ → ℕ → ℕ → Option (ThreadManager Context)
  unfolding snapshot_each
  snapshot_threads context_of counter_of m global_seq run_id run_seq =
      elim (snapshot_each context_of counter_of m.current_thread_ids m.process_thread_history
        global_seq run_id run_seq) [
          | none ↦ none
          | some histories ↦ some (record m { process_thread_history = histories })
        ]

  unfoldable pub create_thread_history_branch :
      ThreadManager Context → ℕ → ℕ → ℕ → ThreadManager Context
  create_thread_history_branch m target_run_id target_run_seq new_run_id = record m {
    process_thread_history =
        branch_all m.process_thread_history target_run_id target_run_seq new_run_id;
  }
