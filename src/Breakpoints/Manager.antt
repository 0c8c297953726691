-- ===== src/Breakpoints/Manager.antt =====
-- The operations of src/managers/breakpoint_manager.cpp.
pub mod Removal
pub mod Counts
pub mod Sharing
pub mod UserRemoval
use chronoporia.Base.{
  ℕ, zero, suc, ◌+◌, ◌-◌, ◌%◌, ◌^◌, ◌≡◌, Bool, true, false, not, ◌&&◌, Option, none, some, List, [],
  ◌∷◌, ◌++◌, if◌then◌else◌, ◌==◌, lookup, insert, erase, contains, mem, remove,
}
use chronoporia.Breakpoints.Memory.{Memory}
use chronoporia.Breakpoints.State.{
  BreakpointType, permanent, return, entry, shell_code, spin_lock, user, reverse, step, Breakpoint,
  UserBreakpoint, int3, size_mod, increment, decrement, Manager, hold,
}

-- The last holder erases the entry; another takes one thread off it. The byte is restored first.
abbrev pub release : {Process : Type 0} → Manager Process → ℕ → ℕ → Breakpoint → Manager Process
release m address thread_id bp =
    if decrement bp.count == 0
    then record m { address_to_bp = erase address m.address_to_bp }
    else record m {
      address_to_bp =
          insert address
            (record bp {
              count = decrement bp.count;
              holding_threads = remove thread_id bp.holding_threads;
            })
            m.address_to_bp;
    }

module _ {Process : Type 0} (memory : Memory Process) where
  open memory use {read, write}

  unfoldable pub write_breakpoint : Manager Process → ℕ → BreakpointType → Manager Process
  write_breakpoint m address bp_type = record m {
    process = (write m.process address int3).0;
    address_to_bp =
        insert address
          (record {
            saved_byte = read m.process address;
            kind = bp_type;
            count = 1;
            address = address;
            holding_threads = [];
          })
          m.address_to_bp;
  }

  -- `address_to_bp[address].holding_threads.push_back(thread_id)` behind `WriteBreakpoint`.
  unfoldable pub write_held : Manager Process → ℕ → BreakpointType → ℕ → Manager Process
  unfolding write_breakpoint
  write_held m address bp_type thread_id =
      let written = write_breakpoint m address bp_type in
      elim (lookup address written.address_to_bp) [
        | none ↦ written
        | some bp ↦ record written {
          address_to_bp = insert address (hold thread_id bp) written.address_to_bp;
        }
      ]

  unfoldable pub create_return_breakpoint : Manager Process → ℕ → ℕ → Manager Process
  unfolding write_held
  create_return_breakpoint m address thread_id = elim (lookup address m.address_to_bp) [
    | some bp ↦ record m {
      address_to_bp =
          insert address (record (hold thread_id bp) { count = increment bp.count })
            m.address_to_bp;
    }
    | none ↦ write_held m address return thread_id
  ]

  unfoldable pub create_step_breakpoint : Manager Process → ℕ → ℕ → Manager Process
  unfolding write_held
  create_step_breakpoint m address thread_id = elim (lookup address m.address_to_bp) [
    | some bp ↦ record m {
      address_to_bp =
          insert address (record (hold thread_id bp) { count = increment bp.count })
            m.address_to_bp;
    }
    | none ↦ write_held m address step thread_id
  ]

  unfoldable pub create_permanent_breakpoint : Manager Process → ℕ → ℕ → Manager Process
  unfolding write_breakpoint
  create_permanent_breakpoint m address trampoline_address =
      let written = write_breakpoint m address permanent in
      record written {
        permanent_bp_to_trampoline =
            insert address trampoline_address written.permanent_bp_to_trampoline;
      }

  unfoldable pub track_shell_code_breakpoint : Manager Process → ℕ → Manager Process
  track_shell_code_breakpoint m address = record m {
    address_to_bp =
        insert address
          (record {
            saved_byte = 0;
            kind = shell_code;
            count = 0;
            address = address;
            holding_threads = [];
          })
          m.address_to_bp;
  }

  -- The manager after the write, and whether it succeeded.
  unfoldable pub write_byte : Manager Process → ℕ → ℕ → Manager Process × Bool
  write_byte m address byte =
      let out = write m.process address byte in (record m { process = out.0 }, out.1)

  unfoldable pub restore_memory : Manager Process → Breakpoint → Manager Process × Bool
  unfolding write_byte
  restore_memory m bp = write_byte m bp.address bp.saved_byte

  -- The operations that ask the plugin where an instruction really lives.
  module _ (get_true_address : ℕ → ℕ) where
    unfoldable pub create_user_breakpoint : Manager Process → ℕ → List ℕ → Manager Process
    create_user_breakpoint m address condition =
        let true_address = get_true_address address in
        record m {
          process = (write m.process true_address int3).0;
          user_breakpoints =
              insert true_address
                (record {
                  saved_byte = read m.process true_address;
                  active = true;
                  original_addr = address;
                  true_addr = true_address;
                  line_number = 0;
                  length_at = 0;
                  file_name = [];
                  condition = condition;
                })
                m.user_breakpoints;
        }

    unfoldable pub create_reverse_breakpoint : Manager Process → ℕ → ℕ → Manager Process
    unfolding write_held
    create_reverse_breakpoint m address thread_id =
        write_held m (get_true_address address) reverse thread_id

    unfoldable pub remove_user_breakpoint : Manager Process → ℕ → Manager Process × Bool
    unfolding write_byte
    remove_user_breakpoint m address =
        let true_address = get_true_address address in
        elim (lookup true_address m.user_breakpoints) [
          | none ↦ (m, false)
          | some bp ↦
              let out = write_byte m bp.true_addr bp.saved_byte in
              if out.1
              then (
                record (out.0) { user_breakpoints = erase true_address m.user_breakpoints },
                true,
              )
              else (out.0, false)
        ]

    unfoldable pub remove_breakpoint : Manager Process → ℕ → ℕ → Manager Process × Bool
    remove_breakpoint m address thread_id =
        if contains address m.permanent_bp_to_trampoline
        then (m, false)
        else elim (lookup address m.address_to_bp) [
          | some bp ↦
              if mem thread_id bp.holding_threads
              then (release (restore_memory m bp).0 address thread_id bp, true)
              else (m, false)
          | none ↦
              if contains address m.user_breakpoints
              then remove_user_breakpoint m address
              else (m, false)
        ]

    unfoldable pub is_user_breakpoint_conditional : Manager Process → ℕ → Bool
    is_user_breakpoint_conditional m address =
        elim (lookup (get_true_address address) m.user_breakpoints) [
          | none ↦ false
          | some bp ↦ elim bp.condition [ [] ↦ false | c ∷ cs ↦ true ]
        ]

    unfoldable pub get_user_breakpoint : Manager Process → ℕ → Option UserBreakpoint
    get_user_breakpoint m address = lookup (get_true_address address) m.user_breakpoints

    unfoldable pub disable_user_breakpoint : Manager Process → ℕ → Manager Process × Bool
    unfolding write_byte
    disable_user_breakpoint m address =
        elim (lookup (get_true_address address) m.user_breakpoints) [
          | none ↦ (m, false)
          | some bp ↦ write_byte m bp.true_addr bp.saved_byte
        ]

    unfoldable pub enable_user_breakpoint : Manager Process → ℕ → Manager Process × Bool
    unfolding write_byte
    enable_user_breakpoint m address = elim (lookup (get_true_address address) m.user_breakpoints) [
      | none ↦ (m, false)
      | some bp ↦ write_byte m bp.true_addr int3
    ]

    unfoldable pub disable_breakpoint : Manager Process → ℕ → Manager Process × Bool
    unfolding write_byte
    disable_breakpoint m address = elim (lookup (get_true_address address) m.address_to_bp) [
      | none ↦ (m, false)
      | some bp ↦ write_byte m bp.address bp.saved_byte
    ]

    unfoldable pub enable_breakpoint : Manager Process → ℕ → Manager Process × Bool
    unfolding write_byte
    enable_breakpoint m address = elim (lookup (get_true_address address) m.address_to_bp) [
      | none ↦ (m, false)
      | some bp ↦ write_byte m bp.address int3
    ]

  unfoldable pub remove_permanent_breakpoint : Manager Process → ℕ → Manager Process × Bool
  unfolding restore_memory
  remove_permanent_breakpoint m address = elim (lookup address m.address_to_bp) [
    | none ↦ (m, false)
    | some bp ↦
        let out = restore_memory m bp in
        if out.1
        then (
          record (out.0) {
            address_to_bp = erase address m.address_to_bp;
            permanent_bp_to_trampoline = erase address m.permanent_bp_to_trampoline;
          },
          true,
        )
        else (out.0, false)
  ]

  -- The loop over a copy of the map, which stops at the first failure.
  unfoldable pub remove_each : List (ℕ × ℕ) → Manager Process → Manager Process × Bool
  unfolding remove_permanent_breakpoint
  remove_each [] m = (m, true)
  remove_each ((address, t) ∷ rest) m =
      let out = remove_permanent_breakpoint m address in
      let next = remove_each rest out.0 in if out.1 then next else (out.0, false)

  unfoldable pub remove_all_permanent_breakpoints : Manager Process → Manager Process × Bool
  unfolding remove_each
  remove_all_permanent_breakpoints m = remove_each m.permanent_bp_to_trampoline m
