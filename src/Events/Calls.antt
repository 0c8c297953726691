-- ===== src/Events/Calls.antt =====
-- The way of a call's event into the log, between the calls of other threads.
use chronoporia.Base.{
  ℕ, ◌≡◌, ◌≢◌, refl, inl, inr, true, false, some, List, [], ◌∷◌, arith, ==_iff, ==-refl, All,
  insert, get_or, get_or-insert, Option-cases, ◌∙◌,
}
use chronoporia.Events.{
  BaseEvent, EventKind, Globals, NtAddresses, EventLog, make_event, kind_of_address, execute,
  create_event_from_bp_address, add_event, on_breakpoint_enter, on_breakpoint_return,
}

-- A thread enters an address that has a breakpoint, or a call of it returns.
pub data LogCall (Details : Type 0) : Type 0 where
  enters : (EventKind → Details) → ℕ → ℕ → LogCall Details
  returns : (BaseEvent Details → Details) → ℕ → LogCall Details

module _ {Details : Type 0} (nt : NtAddresses) where
  abbrev pub thread_of : LogCall Details → ℕ
  thread_of (enters read_details rip_address thread_id) = thread_id
  thread_of (returns finish thread_id) = thread_id

  unfoldable pub one_call :
      LogCall Details → EventLog Details × Globals → EventLog Details × Globals
  one_call (enters read_details rip_address thread_id) (l, g) =
      on_breakpoint_enter nt read_details g l rip_address thread_id
  one_call (returns finish thread_id) (l, g) = ((on_breakpoint_return finish l thread_id).0, g)

  unfoldable pub all_calls :
      List (LogCall Details) → EventLog Details × Globals → EventLog Details × Globals
  all_calls [] state = state
  all_calls (call ∷ calls) state = all_calls calls (one_call call state)

  -- The calls that have begun and not returned, of a thread.
  abbrev pub pending_of : ℕ → EventLog Details → List (BaseEvent Details)
  pending_of t l = get_or t [] l.pending_thread_events

  get_or-other :
      (t u : ℕ) (es : List (BaseEvent Details)) (m : List (ℕ × List (BaseEvent Details)))
      → u ≢ t
      → get_or t [] (insert u es m) ≡ get_or t [] m
  get_or-other t u es m other = ground (arith, get_or-insert u t [] es m, ==_iff u t)

  return_pending :
      (finish : BaseEvent Details → Details) (l : EventLog Details) (t : ℕ)
      (event : BaseEvent Details) (rest : List (BaseEvent Details))
      → get_or t [] l.pending_thread_events ≡ event ∷ rest
      → on_breakpoint_return finish l t ≡ (
        record l {
          event_log = add_event (record event { details = finish event }) l.event_log;
          pending_thread_events = insert t rest l.pending_thread_events;
        },
        true,
      )
  unfolding on_breakpoint_return
  return_pending finish l t event rest e = ground arith

  get_or-same :
      (t : ℕ) (es : List (BaseEvent Details)) (m : List (ℕ × List (BaseEvent Details)))
      → get_or t [] (insert t es m) ≡ es
  get_or-same t es m = ground (arith, get_or-insert t t [] es m, ==-refl t)

  enter-other :
      (read_details : EventKind → Details) (g : Globals) (l : EventLog Details) (rip u t : ℕ)
      → u ≢ t
      → pending_of t (on_breakpoint_enter nt read_details g l rip u).0 ≡ pending_of t l
  unfolding on_breakpoint_enter create_event_from_bp_address
  enter-other read_details g l rip u t other = elim (Option-cases (kind_of_address nt rip)) [
    | inl unwatched ↦ rw (unwatched, on_breakpoint_enter) refl
    | inr (kind, watched) ↦
        rw (watched, on_breakpoint_enter) (get_or-other t u _ l.pending_thread_events other)
  ]

  return-other :
      (finish : BaseEvent Details → Details) (l : EventLog Details) (u t : ℕ)
      (own : List (BaseEvent Details))
      → pending_of u l ≡ own
      → u ≢ t
      → pending_of t (on_breakpoint_return finish l u).0 ≡ pending_of t l
  unfolding on_breakpoint_return
  return-other finish l u t [] e other = rw (e, on_breakpoint_return) refl
  return-other finish l u t (event ∷ rest) e other =
      rw (return_pending finish l u event rest e)
        (get_or-other t u rest l.pending_thread_events other)

  one_call-other :
      (call : LogCall Details) (l : EventLog Details) (g : Globals) (t : ℕ)
      → thread_of call ≢ t
      → pending_of t (one_call call (l, g)).0 ≡ pending_of t l
  unfolding one_call
  one_call-other (enters read_details rip u) l g t other =
      enter-other read_details g l rip u t other
  one_call-other (returns finish u) l g t other =
      return-other finish l u t (pending_of u l) refl other

  -- The calls of other threads leave the pending calls of a thread.
  all_calls-others :
      (calls : List (LogCall Details)) (state : EventLog Details × Globals) (t : ℕ)
      → All (λ call. thread_of call ≢ t) calls
      → pending_of t (all_calls calls state).0 ≡ pending_of t state.0
  unfolding all_calls
  all_calls-others [] state t others = refl
  all_calls-others (call ∷ calls) (l, g) t (other, others) =
      all_calls-others calls (one_call call (l, g)) t others ∙ one_call-other call l g t other

  module _ (read_details : EventKind → Details) (g : Globals) (l : EventLog Details)
      (rip_address thread_id : ℕ) (kind : EventKind)
      (watched : kind_of_address nt rip_address ≡ some kind) where
    abbrev entering : BaseEvent Details
    entering = record {
      global_seq = g.global_sequence;
      run_id = g.run_id;
      run_sequence = g.run_sequence;
      thread_seq = get_or thread_id 0 g.thread_id_to_sequence;
      thread_id = thread_id;
      event_rip = rip_address;
      replay_kind = execute;
      replayed = false;
      kind = kind;
      details = read_details kind;
    }

    -- What is logged of the call: the counters are those of the moment it entered.
    abbrev pub logged : (BaseEvent Details → Details) → BaseEvent Details
    logged finish = record entering { details = finish entering }

    enter-own :
        pending_of thread_id (on_breakpoint_enter nt read_details g l rip_address thread_id).0
        ≡ entering ∷ pending_of thread_id l
    unfolding on_breakpoint_enter create_event_from_bp_address make_event
    enter-own =
        rw (watched, on_breakpoint_enter)
          (get_or-same thread_id (entering ∷ pending_of thread_id l) l.pending_thread_events)

    -- A call enters at a watched address and returns, and between the two other threads enter and
    -- return in any order: its event is put into the log that the others left, with the counters of the
    -- moment the call entered, the pending calls of the thread are what they were before it, and the log
    -- says that the return breakpoint goes.
    pub return-enter :
        (calls : List (LogCall Details)) (finish : BaseEvent Details → Details)
        → All (λ call. thread_of call ≢ thread_id) calls
        → ((on_breakpoint_return finish
              (all_calls calls (on_breakpoint_enter nt read_details g l rip_address thread_id)).0
              thread_id).0.event_log
            ≡ add_event
                (logged finish)
                (all_calls calls
                  (on_breakpoint_enter nt read_details g l rip_address thread_id)).0.event_log)
          × (pending_of thread_id
                (on_breakpoint_return finish
                  (all_calls calls
                    (on_breakpoint_enter nt read_details g l rip_address thread_id)).0
                  thread_id).0
              ≡ pending_of thread_id l)
          × ((on_breakpoint_return finish
                (all_calls calls (on_breakpoint_enter nt read_details g l rip_address thread_id)).0
                thread_id).1
              ≡ true)
    return-enter calls finish others =
        let entered = on_breakpoint_enter nt read_details g l rip_address thread_id in
        let between = (all_calls calls entered).0 in
        let own = pending_of thread_id l in
        let waiting = all_calls-others calls entered thread_id others ∙ enter-own in
        let returned = return_pending finish between thread_id entering own waiting in
        (
          rw returned refl,
          rw returned (get_or-same thread_id own between.pending_thread_events),
          rw returned refl,
        )
