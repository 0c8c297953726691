-- ===== src/Tests/Events.antt =====
-- The event log on a small log.
use chronoporia.Base.{
  ℕ, ◌≡◌, ◌⊎◌, refl, true, false, some, [], ◌∷◌, ◌++◌, arith, All, map, List, ltb, if◌then◌else◌,
}
use chronoporia.Events.{
  BaseEvent, EventLog, Globals, NtAddresses, thread_create, shared_library_load, execute, add_event,
  kind_of_address, on_breakpoint_enter, on_breakpoint_return, replay_event, reset_event_replay,
  awaits,
}
use chronoporia.Events.Log.{IsOrdered, add_event-IsOrdered}
use chronoporia.Events.Calls.{LogCall, enters, returns, all_calls, pending_of, logged, return-enter}
use chronoporia.Events.Replay.{marked, unmarked, Splits, replay_event-first, reset_event_replay-map}

abbrev event : ℕ → ℕ → BaseEvent ℕ
event seq rip = record {
  global_seq = seq;
  run_id = 0;
  run_sequence = seq;
  thread_seq = 0;
  thread_id = 7;
  event_rip = rip;
  replay_kind = execute;
  replayed = false;
  kind = thread_create;
  details = 0;
}

abbrev two_events : EventLog ℕ
two_events = record {
  event_log = event 1 100 ∷ event 4 102 ∷ [];
  pending_thread_events = [];
  pending_replay_end_events = [];
}

two_events-IsOrdered : IsOrdered two_events.event_log
two_events-IsOrdered = ground arith

abbrev wrappers : NtAddresses
wrappers = record {
  nt_create_thread_ex = 100;
  nt_terminate_thread = 101;
  ldr_load_dll = 102;
  ldr_unload_dll = 103;
}

abbrev counters : Globals
counters = record { global_sequence = 5; run_id = 0; run_sequence = 5; thread_id_to_sequence = [] }

watched_load : kind_of_address wrappers 102 ≡ some shared_library_load
unfolding kind_of_address
watched_load = refl

add_event-IsOrdered_example : IsOrdered (add_event (event 2 103) two_events.event_log)
add_event-IsOrdered_example =
    add_event-IsOrdered (event 2 103) two_events.event_log two_events-IsOrdered

-- While thread 7 is in a call, thread 8 enters one and thread 9 returns from none.
abbrev meanwhile : List (LogCall ℕ)
meanwhile = enters (λ k. 3) 100 8 ∷ returns (λ e. 1) 9 ∷ returns (λ e. 2) 8 ∷ []

abbrev during : EventLog ℕ
during =
    (all_calls wrappers meanwhile
      (on_breakpoint_enter wrappers (λ k. 0) counters two_events 102 7)).0

return-enter_example :
    ((on_breakpoint_return (λ e. 6) during 7).0.event_log
      ≡ add_event
          (logged wrappers
            (λ k. 0)
            counters
            two_events
            102
            7
            shared_library_load
            watched_load
            (λ e. 6))
          during.event_log)
    × (pending_of wrappers 7 (on_breakpoint_return (λ e. 6) during 7).0
        ≡ pending_of wrappers 7 two_events)
    × ((on_breakpoint_return (λ e. 6) during 7).1 ≡ true)
return-enter_example =
    return-enter wrappers (λ k. 0) counters two_events 102 7 shared_library_load watched_load
      meanwhile (λ e. 6) (ground arith, (ground arith, (ground arith, tt)))

replay_event-first_example :
    (((replay_event two_events 102 7).1 ≡ true)
      × (idx : ℕ) × (e : BaseEvent ℕ) × (s : Splits 102 7 two_events.event_log idx e)
      × ((replay_event two_events 102 7).0.event_log ≡ s.ahead ++ marked e ∷ s.behind))
    ⊎ ((replay_event two_events 102 7 ≡ (two_events, false))
        × All (λ f. awaits 102 7 f ≡ false) two_events.event_log)
replay_event-first_example = replay_event-first two_events 102 7

reset_event_replay-map_example : reset_event_replay two_events 2 ≡ record two_events {
  event_log = map (λ f. if ltb 2 f.global_seq then unmarked f else f) two_events.event_log;
}
reset_event_replay-map_example = reset_event_replay-map two_events 2 two_events-IsOrdered
