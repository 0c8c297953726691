-- ===== src/Instrument.antt =====
-- src/plugins/cpp/branch_instrumentation.cpp and its header: the branches of a module, its basic
-- blocks, and the stubs that count them. The decoder of the instructions is a third-party library; it
-- is a parameter wherever it is used.
pub mod Analysis
pub mod Blocks
pub mod Stub
pub mod Block
pub mod Driver
use chronoporia.Base.{ℕ, ◌+◌, ◌-◌, ◌%◌, ◌^◌, Bool, List}

-- Arithmetic of addresses and of `size_t`.
abbrev pub wrap : ℕ → ℕ
wrap n = n % 2 ^ 64

abbrev pub wrap_sub : ℕ → ℕ → ℕ
wrap_sub a b = (a + (2 ^ 64 - b % 2 ^ 64)) % 2 ^ 64

pub data Category : Type 0 where
  cond_br uncond_br call ret other_category : Category

-- An operand of an instruction, as far as the code looks at it.
pub data Operand : Type 0 where
  immediate : Bool → Operand
  memory : Bool → Operand
  other_operand : Operand

-- What the decoder tells of an instruction: of an immediate operand whether it is relative, of a
-- memory operand whether its base is the instruction pointer.
pub record Instruction : Type 0 where
  pub length_of : ℕ
  pub category : Category
  pub operands : List Operand
  pub disp_size : ℕ
  pub disp_offset : ℕ

pub data BranchKind : Type 0 where
  conditional unconditional_jmp call_branch return_branch indirect_jump indirect_call : BranchKind

pub record BranchSite : Type 0 where
  pub address : ℕ
  pub next_address : ℕ
  pub target : ℕ
  pub byte_length : ℕ
  pub kind : BranchKind
  pub is_back_edge : Bool

pub record LoopInfo : Type 0 where
  pub header : ℕ
  pub back_edge : ℕ

pub record FunctionRange : Type 0 where
  pub start : ℕ
  pub end : ℕ

pub record FunctionAnalysis : Type 0 where
  pub info : FunctionRange
  pub branches : List BranchSite
  pub loops : List LoopInfo

pub record BasicBlock : Type 0 where
  pub start : ℕ
  pub end : ℕ
