-- ===== src/Phases/Reverse.antt =====
-- reverse_replay_phase.cpp: from a snapshot, the thread runs forward again to the instruction before the one
-- at which it stopped. The debug events are a list; a breakpoint comes with its thread, the address of the
-- instruction pointer less one, and the branch counter of the thread.
pub mod Found
pub mod Missed
use chronoporia.Base.{
  ℕ, ◌+◌, ◌-◌, ◌%◌, ◌^◌, Bool, true, false, ◌&&◌, ◌||◌, not, Option, none, some, List, [], ◌∷◌,
  ◌++◌, if◌then◌else◌, ◌==◌, leb, lookup, insert,
}
use chronoporia.Breakpoints.Memory.{Memory}
use chronoporia.Breakpoints.State.{BreakpointType, permanent, Manager}
use chronoporia.Breakpoints.Manager.{
  create_reverse_breakpoint, remove_breakpoint, disable_breakpoint, enable_breakpoint,
}
use chronoporia.Breakpoints.Query.{get_breakpoint_type}
use chronoporia.Stepping.{PotentialPredecessor}

-- The members of the phase.
pub record ReversePhase : Type 0 where
  pub predecessors : List PotentialPredecessor
  pub replay_thread_id : ℕ
  pub branch_target : ℕ
  pub stopped_address : ℕ
  pub stopped_branch_counter : ℕ
  pub catch_address : ℕ
  pub catch_branch_counter : ℕ
  pub last_seen : List (ℕ × ℕ)

-- `kTargetSentinel`.
abbrev pub sentinel : ℕ
sentinel = 2 ^ 64 - 1

pub data ReverseEvent : Type 0 where
  breakpoint : ℕ → ℕ → ℕ → ReverseEvent
  single_step : ℕ → ReverseEvent
  other_event : ℕ → ReverseEvent
  wait_failed : ReverseEvent

pub data ReverseCall : Type 0 where
  resume_process : ReverseCall
  suspend_process : ReverseCall
  suspend_all_but : ℕ → ReverseCall
  resume_all : ReverseCall
  set_trap_flag : ℕ → ReverseCall
  roll_back_instruction : ℕ → ReverseCall
  redirect_to_trampoline : ℕ → ℕ → ReverseCall
  continue_event : ℕ → ReverseCall

-- The predecessor is found, the replay has to be tried again with the predecessors that are moved into the
-- transition, or waiting failed; `waiting` where the events do not suffice.
pub data ReverseEnd : Type 0 where
  found : ReverseEnd
  retry : List PotentialPredecessor → ReverseEnd
  failed : ReverseEnd
  waiting : ReverseEnd

-- The phase and the breakpoints at the end, with the calls and the events that are left.
pub record Replayed (Process : Type 0) : Type 0 where
  pub phase : ReversePhase
  pub manager : Manager Process
  pub calls : List ReverseCall
  pub ending : ReverseEnd
  pub left : List ReverseEvent

abbrev pub with_calls : {Process : Type 0} → List ReverseCall → Replayed Process → Replayed Process
with_calls calls r = record r { calls = calls ++ r.calls }

unfoldable pub get_potential_predecessor :
    List PotentialPredecessor → ℕ → Option PotentialPredecessor
get_potential_predecessor [] address = none
get_potential_predecessor (p ∷ predecessors) address =
    if p.true_address == address then some p else get_potential_predecessor predecessors address

abbrev pub seen_counter : PotentialPredecessor → Option ℕ → PotentialPredecessor
seen_counter p none = p
seen_counter p (some counter) = record p { branch_counter = counter }

-- The predecessors with the counters at which their addresses were seen last.
unfoldable pub update_predecessors :
    List (ℕ × ℕ) → List PotentialPredecessor → List PotentialPredecessor
update_predecessors last_seen [] = []
update_predecessors last_seen (p ∷ predecessors) =
    seen_counter p (lookup p.true_address last_seen) ∷ update_predecessors last_seen predecessors

-- What the loop does at a breakpoint of the thread.
pub data ReverseStep : Type 0 where
  try_again : ReverseStep
  step_over : ReverseStep
  step_over_seen : ReverseStep
  stop_here : ReverseStep
  pass : ReverseStep

abbrev pub at_predecessor : ℕ → Option PotentialPredecessor → ReverseStep
at_predecessor counter none = pass
at_predecessor counter (some p) = if counter == p.branch_counter then stop_here else step_over_seen

unfoldable pub decide : ReversePhase → ℕ → ℕ → ReverseStep
decide phase address counter =
    if address == phase.catch_address && counter == phase.catch_branch_counter
      || leb phase.stopped_branch_counter counter
    then try_again
    else if address == phase.catch_address
    then step_over
    else at_predecessor counter (get_potential_predecessor phase.predecessors address)

-- Waiting as usual, or in `single_step_and_restore` at an address.
pub data Mode : Type 0 where
  as_usual : Mode
  stepping : ℕ → Mode

abbrev pub step_calls : ℕ → List ReverseCall
step_calls t = roll_back_instruction t ∷ suspend_all_but t ∷ set_trap_flag t ∷ continue_event t ∷ []

abbrev pub redirect_calls : Option BreakpointType → ℕ → ℕ → List ReverseCall
redirect_calls (some permanent) address t = redirect_to_trampoline address t ∷ []
redirect_calls _ address t = []

abbrev pub see : ℕ → ℕ → ReversePhase → ReversePhase
see address counter phase = record phase { last_seen = insert address counter phase.last_seen }

module _ {Process : Type 0} (memory : Memory Process) (get_true_address : ℕ → ℕ) where
  unfoldable pub reverse_loop :
      ReversePhase → Manager Process → Mode → List ReverseEvent → Replayed Process
  reverse_loop phase m mode [] = record {
    phase = phase;
    manager = m;
    calls = [];
    ending = waiting;
    left = [];
  }
  reverse_loop phase m as_usual (wait_failed ∷ events) = record {
    phase = phase;
    manager = m;
    calls = [];
    ending = failed;
    left = events;
  }
  reverse_loop phase m as_usual (single_step t ∷ events) =
      with_calls (continue_event t ∷ []) (reverse_loop phase m as_usual events)
  reverse_loop phase m as_usual (other_event t ∷ events) =
      with_calls (continue_event t ∷ []) (reverse_loop phase m as_usual events)
  reverse_loop phase m as_usual (breakpoint t address counter ∷ events) =
      elim (t == phase.replay_thread_id) [
        | false ↦ with_calls (continue_event t ∷ []) (reverse_loop phase m as_usual events)
        | true ↦ (elim (decide phase address counter) [
          | try_again ↦ record {
            phase = record phase { predecessors = [] };
            manager = m;
            calls = suspend_process ∷ continue_event t ∷ [];
            ending = retry (update_predecessors phase.last_seen phase.predecessors);
            left = events;
          }
          | stop_here ↦ record {
            phase = phase;
            manager = m;
            calls = roll_back_instruction t ∷ suspend_process ∷ continue_event t ∷ [];
            ending = found;
            left = events;
          }
          | step_over ↦ with_calls (step_calls t) (
              reverse_loop phase (disable_breakpoint memory get_true_address m address).0
                (stepping address) events)
          | step_over_seen ↦ with_calls (step_calls t) (
              reverse_loop (see address counter phase)
                (disable_breakpoint memory get_true_address m address).0 (stepping address) events)
          | pass ↦
              with_calls
                (redirect_calls (get_breakpoint_type m address t) address t
                  ++ continue_event t ∷ [])
                (reverse_loop phase m as_usual events)
        ])
      ]
  reverse_loop phase m (stepping at) (wait_failed ∷ events) =
      with_calls (resume_all ∷ [])
        (reverse_loop phase (enable_breakpoint memory get_true_address m at).0 as_usual events)
  reverse_loop phase m (stepping at) (single_step t ∷ events) = elim (t == phase.replay_thread_id) [
    | true ↦
        with_calls (continue_event t ∷ resume_all ∷ [])
          (reverse_loop phase (enable_breakpoint memory get_true_address m at).0 as_usual events)
    | false ↦ with_calls (continue_event t ∷ []) (reverse_loop phase m (stepping at) events)
  ]
  reverse_loop phase m (stepping at) (breakpoint t address counter ∷ events) =
      with_calls (continue_event t ∷ []) (reverse_loop phase m (stepping at) events)
  reverse_loop phase m (stepping at) (other_event t ∷ events) =
      with_calls (continue_event t ∷ []) (reverse_loop phase m (stepping at) events)

  unfoldable pub run_reverse : ReversePhase → Manager Process → List ReverseEvent → Replayed Process
  run_reverse phase m events =
      with_calls (resume_process ∷ []) (reverse_loop phase m as_usual events)

  unfoldable pub place_reverse : List PotentialPredecessor → ℕ → Manager Process → Manager Process
  place_reverse [] t m = m
  place_reverse (p ∷ predecessors) t m =
      place_reverse predecessors t
        (create_reverse_breakpoint memory get_true_address m p.true_address t)

  -- `Enter`, with the branch target that is written for the thread.
  unfoldable pub enter_reverse : ReversePhase → Manager Process → ReversePhase × Manager Process × ℕ
  enter_reverse phase m =
      let t = phase.replay_thread_id in
      let placed = place_reverse phase.predecessors t m in
      let next = (phase.stopped_branch_counter + 1) % 2 ^ 64 in
      if phase.branch_target == sentinel
      then (
        record phase {
          catch_address = phase.stopped_address;
          catch_branch_counter = phase.stopped_branch_counter;
        },
        create_reverse_breakpoint memory get_true_address placed phase.stopped_address t,
        next,
      )
      else (phase, placed, phase.branch_target)

  unfoldable pub remove_reverse : List PotentialPredecessor → ℕ → Manager Process → Manager Process
  remove_reverse [] t m = m
  remove_reverse (p ∷ predecessors) t m =
      remove_reverse predecessors t (remove_breakpoint memory get_true_address m p.true_address t).0

  -- `Exit`, with the branch target that is written for the thread, if one is.
  unfoldable pub exit_reverse : ReversePhase → Manager Process → Manager Process × Option ℕ
  exit_reverse phase m =
      let t = phase.replay_thread_id in
      let removed = remove_reverse phase.predecessors t m in
      if phase.catch_address == 0
      then (removed, if phase.branch_target == sentinel then none else some sentinel)
      else (
        (remove_breakpoint memory get_true_address removed phase.catch_address t).0,
        some sentinel,
      )
