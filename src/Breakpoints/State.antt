-- ===== src/Breakpoints/State.antt =====
-- The data of src/managers/breakpoint_manager.h, and the maps of breakpoint_manager.cpp.
use chronoporia.Base.{ℕ, ◌+◌, ◌-◌, ◌%◌, ◌^◌, Bool, List, [], ◌∷◌, ◌++◌}

pub data BreakpointType : Type 0 where
  permanent return entry shell_code spin_lock user reverse step : BreakpointType

pub record Breakpoint : Type 0 where
  pub saved_byte : ℕ
  pub kind : BreakpointType
  pub count : ℕ
  pub address : ℕ
  pub holding_threads : List ℕ

pub record UserBreakpoint : Type 0 where
  pub saved_byte : ℕ
  pub active : Bool
  pub original_addr : ℕ
  pub true_addr : ℕ
  pub line_number : ℕ
  pub length_at : ℕ
  pub file_name : List ℕ
  pub condition : List ℕ

abbrev pub int3 : ℕ
int3 = 0xCC

-- `size_t` arithmetic.
abbrev pub size_mod : ℕ
size_mod = 2 ^ 64

abbrev pub increment : ℕ → ℕ
increment n = (n + 1) % size_mod

abbrev pub decrement : ℕ → ℕ
decrement n = (n + size_mod - 1) % size_mod

-- The three maps of the file, and the process that they speak of.
pub record Manager (Process : Type 0) : Type 0 where
  pub address_to_bp : List (ℕ × Breakpoint)
  pub permanent_bp_to_trampoline : List (ℕ × ℕ)
  pub user_breakpoints : List (ℕ × UserBreakpoint)
  pub process : Process

-- `bp.holding_threads.push_back(thread_id)`.
abbrev pub hold : ℕ → Breakpoint → Breakpoint
hold thread_id bp = record bp { holding_threads = bp.holding_threads ++ thread_id ∷ [] }
