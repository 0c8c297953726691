-- ===== src/Events.antt =====
-- src/event_log.cpp with src/Events/base_event.h: the log of non-deterministic calls, ordered by
-- global_seq, and the calls that have begun and not returned. A call of the code outside the log
-- (trampolines, breakpoints, process memory) is left to the caller: a handler returns the log, and
-- says which of those calls it makes. The fields of an event that only Windows interprets are
-- its `details`.
pub mod Log
pub mod Calls
pub mod Replay
use chronoporia.Base.{
  ℕ, zero, suc, ◌+◌, ◌%◌, ◌^◌, ◌≡◌, Bool, true, false, not, ◌&&◌, Option, none, some, List, [], ◌∷◌,
  if◌then◌else◌, ◌==◌, ltb, insert, get_or,
}

pub data ReplayKind : Type 0 where
  stub execute : ReplayKind

-- The subclasses of `BaseEvent`.
pub data EventKind : Type 0 where
  thread_create thread_destroy shared_library_load shared_library_unload : EventKind

pub record BaseEvent (Details : Type 0) : Type 0 where
  pub global_seq : ℕ
  pub run_id : ℕ
  pub run_sequence : ℕ
  pub thread_seq : ℕ
  pub thread_id : ℕ
  pub event_rip : ℕ
  pub replay_kind : ReplayKind
  pub replayed : Bool
  pub kind : EventKind
  pub details : Details

-- The counters of src/globals.cpp that an event's constructor reads and advances.
pub record Globals : Type 0 where
  pub global_sequence : ℕ
  pub run_id : ℕ
  pub run_sequence : ℕ
  pub thread_id_to_sequence : List (ℕ × ℕ)

-- The constructor of `BaseEvent`. The counters wrap at their 64 and 32 bits.
unfoldable pub make_event :
    {Details : Type 0} → Globals → ℕ → ℕ → EventKind → Details → BaseEvent Details × Globals
make_event g thread_id event_rip kind details =
    let thread_seq = get_or thread_id 0 g.thread_id_to_sequence in
    (
      record {
        global_seq = g.global_sequence;
        run_id = g.run_id;
        run_sequence = g.run_sequence;
        thread_seq = thread_seq;
        thread_id = thread_id;
        event_rip = event_rip;
        replay_kind = execute;
        replayed = false;
        kind = kind;
        details = details;
      },
      record g {
        global_sequence = (g.global_sequence + 1) % 2 ^ 64;
        run_sequence = (g.run_sequence + 1) % 2 ^ 32;
        thread_id_to_sequence =
            insert thread_id ((thread_seq + 1) % 2 ^ 64) g.thread_id_to_sequence;
      },
    )

-- The addresses that the wrappers of src/windows/nt_wrappers.h hold.
pub record NtAddresses : Type 0 where
  pub nt_create_thread_ex : ℕ
  pub nt_terminate_thread : ℕ
  pub ldr_load_dll : ℕ
  pub ldr_unload_dll : ℕ

-- The chain of tests of `CreateEventFromBpAddress`.
unfoldable pub kind_of_address : NtAddresses → ℕ → Option EventKind
kind_of_address nt rip_address =
    if rip_address == nt.nt_create_thread_ex
    then some thread_create
    else if rip_address == nt.nt_terminate_thread
    then some thread_destroy
    else if rip_address == nt.ldr_load_dll
    then some shared_library_load
    else if rip_address == nt.ldr_unload_dll
    then some shared_library_unload
    else none

-- `read_details` is what the subclass's constructor reads from the thread's context.
unfoldable pub create_event_from_bp_address :
    {Details : Type 0}
    → NtAddresses
    → (EventKind → Details)
    → Globals
    → ℕ
    → ℕ
    → Option (BaseEvent Details × Globals)
create_event_from_bp_address nt read_details g rip_address thread_id =
    elim (kind_of_address nt rip_address) [
      | none ↦ none
      | some kind ↦ some (make_event g thread_id rip_address kind (read_details kind))
    ]

pub record EventLog (Details : Type 0) : Type 0 where
  pub event_log : List (BaseEvent Details)
  pub pending_thread_events : List (ℕ × List (BaseEvent Details))
  pub pending_replay_end_events : List (ℕ × List ℕ)

-- An executed event is remembered until its call returns; a stub is not.
abbrev pub push_end : ReplayKind → ℕ → ℕ → List (ℕ × List ℕ) → List (ℕ × List ℕ)
push_end stub thread_id idx ends = ends
push_end execute thread_id idx ends = insert thread_id (idx ∷ get_or thread_id [] ends) ends

module _ {Details : Type 0} where
  -- `upper_bound` by global_seq, and the insertion there.
  unfoldable pub add_event : BaseEvent Details → List (BaseEvent Details) → List (BaseEvent Details)
  add_event new_event [] = new_event ∷ []
  add_event new_event (e ∷ log) =
      if ltb new_event.global_seq e.global_seq
      then new_event ∷ e ∷ log
      else e ∷ add_event new_event log

  -- The part of `OnBreakpointEnter` behind the return breakpoint: an event is pushed on the stack of
  -- its thread, if the address is one that makes events.
  unfoldable pub on_breakpoint_enter :
      NtAddresses
      → (EventKind → Details)
      → Globals
      → EventLog Details
      → ℕ
      → ℕ
      → EventLog Details × Globals
  on_breakpoint_enter nt read_details g l rip_address thread_id =
      elim (create_event_from_bp_address nt read_details g rip_address thread_id) [
        | none ↦ (l, g)
        | some (event, after) ↦ (
          record l {
            pending_thread_events =
                insert thread_id (event ∷ get_or thread_id [] l.pending_thread_events)
                  l.pending_thread_events;
          },
          after,
        )
      ]

  -- The end of a call: the innermost pending event of the thread is finished and logged. The second
  -- part says whether the breakpoint is removed. `finish` is what `FinishEvent` makes of the fields of
  -- the subclass; it leaves those of `BaseEvent`.
  unfoldable pub on_breakpoint_return :
      (BaseEvent Details → Details) → EventLog Details → ℕ → EventLog Details × Bool
  unfolding add_event
  on_breakpoint_return finish l thread_id = elim (get_or thread_id [] l.pending_thread_events) [
    | [] ↦ (l, false)
    | event ∷ rest ↦ (
      record l {
        event_log = add_event (record event { details = finish event }) l.event_log;
        pending_thread_events = insert thread_id rest l.pending_thread_events;
      },
      true,
    )
  ]

  -- The test of `find_if` in `ReplayEvent`.
  abbrev pub awaits : ℕ → ℕ → BaseEvent Details → Bool
  awaits rip_address thread_id e =
      e.event_rip == rip_address && e.thread_id == thread_id && not e.replayed

  -- `find_if`, as an index from `idx` on.
  unfoldable pub find_event : ℕ → ℕ → ℕ → List (BaseEvent Details) → Option (ℕ × BaseEvent Details)
  find_event rip_address thread_id idx [] = none
  find_event rip_address thread_id idx (e ∷ log) =
      if awaits rip_address thread_id e
      then some (idx, e)
      else find_event rip_address thread_id (suc idx) log

  -- `event.replayed = true` at an index.
  unfoldable pub mark_replayed : ℕ → List (BaseEvent Details) → List (BaseEvent Details)
  mark_replayed i [] = []
  mark_replayed zero (e ∷ log) = record e { replayed = true } ∷ log
  mark_replayed (suc i) (e ∷ log) = e ∷ mark_replayed i log

  -- The second part says whether an event was found, and so whether the call is redirected to its
  -- trampoline and a return breakpoint made.
  unfoldable pub replay_event : EventLog Details → ℕ → ℕ → EventLog Details × Bool
  unfolding find_event mark_replayed
  replay_event l rip_address thread_id = elim (find_event rip_address thread_id 0 l.event_log) [
    | none ↦ (l, false)
    | some (idx, e) ↦ (
      record l {
        event_log = mark_replayed idx l.event_log;
        pending_replay_end_events =
            push_end e.replay_kind thread_id idx l.pending_replay_end_events;
      },
      true,
    )
  ]

  -- The second part is the index of the event whose replay ends, if one does; the breakpoint is then
  -- removed.
  unfoldable pub replay_event_end : EventLog Details → ℕ → EventLog Details × Option ℕ
  replay_event_end l thread_id = elim (get_or thread_id [] l.pending_replay_end_events) [
    | [] ↦ (l, none)
    | idx ∷ rest ↦ (
      record l { pending_replay_end_events = insert thread_id rest l.pending_replay_end_events },
      some idx,
    )
  ]

  -- From the first event after global_seq on, every event waits for its replay again.
  unfoldable pub unmark_all : List (BaseEvent Details) → List (BaseEvent Details)
  unmark_all [] = []
  unmark_all (e ∷ log) = record e { replayed = false } ∷ unmark_all log

  unfoldable pub reset_from : ℕ → List (BaseEvent Details) → List (BaseEvent Details)
  unfolding unmark_all
  reset_from global_seq [] = []
  reset_from global_seq (e ∷ log) =
      if ltb global_seq e.global_seq then unmark_all (e ∷ log) else e ∷ reset_from global_seq log

  unfoldable pub reset_event_replay : EventLog Details → ℕ → EventLog Details
  unfolding reset_from
  reset_event_replay l global_seq = record l { event_log = reset_from global_seq l.event_log }
