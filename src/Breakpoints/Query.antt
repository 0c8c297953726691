-- ===== src/Breakpoints/Query.antt =====
-- What kind of breakpoint an address is for a thread: the queries of
-- src/managers/breakpoint_manager.cpp.
use chronoporia.Base.{
  ℕ, Bool, true, false, Option, none, some, if◌then◌else◌, lookup, contains, mem,
}
use chronoporia.Breakpoints.State.{
  BreakpointType, permanent, shell_code, spin_lock, user, step, Breakpoint, Manager,
}

abbrev pub is_step : BreakpointType → Bool
is_step step = true
is_step _ = false

abbrev pub kind_for : Breakpoint → ℕ → BreakpointType
kind_for bp thread_id = elim bp.kind [
  | shell_code ↦ shell_code
  | other ↦ if mem thread_id bp.holding_threads then other else spin_lock
]

module _ {Process : Type 0} where
  unfoldable pub get_breakpoint_type : Manager Process → ℕ → ℕ → Option BreakpointType
  get_breakpoint_type m address thread_id =
      if contains address m.user_breakpoints
      then some user
      else if contains address m.permanent_bp_to_trampoline
      then some permanent
      else elim (lookup address m.address_to_bp) [
        | none ↦ none
        | some bp ↦ some (kind_for bp thread_id)
      ]

  unfoldable pub is_breakpoint_type_step : Manager Process → ℕ → ℕ → Bool
  is_breakpoint_type_step m address thread_id = elim (lookup address m.address_to_bp) [
    | none ↦ false
    | some bp ↦ if mem thread_id bp.holding_threads then is_step bp.kind else false
  ]
