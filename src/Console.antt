-- ===== src/Console.antt =====
-- src/execution_state_machine/execution_phase/debugger_phase.cpp: the debugger's console. Characters are
-- their codes; `std::isspace` is a parameter.
pub mod Words
use chronoporia.Base.{
  ℕ, Bool, true, false, ◌||◌, Option, none, some, List, [], ◌∷◌, ◌++◌, if◌then◌else◌, ◌==◌,
}

-- `"` and `'`.
abbrev pub is_quote : ℕ → Bool
is_quote c = c == 34 || c == 39

-- The loop of `SplitInput`: what is left of the input, the token so far, `in_token`, the quote that is
-- open, and the arguments so far.
unfoldable pub scan : (ℕ → Bool) → List ℕ → List ℕ → Bool → Option ℕ → List (List ℕ) → List (List ℕ)
scan is_space [] token in_token quote_char args = if in_token then args ++ token ∷ [] else args
scan is_space (c ∷ input) token in_token (some q) args = elim (c == q) [
  | true ↦ scan is_space input token in_token none args
  | false ↦ scan is_space input (token ++ c ∷ []) in_token (some q) args
]
scan is_space (c ∷ input) token in_token none args = elim (is_quote c) [
  | true ↦ scan is_space input token true (some c) args
  | false ↦ elim (is_space c) [
    | true ↦ elim in_token [
      | true ↦ scan is_space input [] false none (args ++ token ∷ [])
      | false ↦ scan is_space input token false none args
    ]
    | false ↦ scan is_space input (token ++ c ∷ []) true none args
  ]
]

-- The first argument is an empty string, for argparse.
unfoldable pub split_input : (ℕ → Bool) → List ℕ → List (List ℕ)
split_input is_space input = scan is_space input [] false none ([] ∷ [])
