-- ===== src/Tests/Shells.antt =====
-- The unload code and the console on small inputs.
use chronoporia.Base.{
  ℕ, ◌≡◌, ◌↔◌, refl, true, some, List, [], ◌∷◌, ◌++◌, ◌==◌, ◌*◌, ◌+◌, ◌%◌, ◌^◌, length,
}
use chronoporia.Breakpoints.State.{Manager, shell_code}
use chronoporia.Restoring.{unload_dll, breakpoint, returned, run_dll_restore}
use chronoporia.Restoring.Modules.{Reaches, run_dll_restore-true}
use chronoporia.Trampoline.{
  Trampolines, create_trampoline, finalize_trampoline_region, redirect_to_trampoline,
}
use chronoporia.Trampoline.Slots.{IsSlotted, trampoline_code, create_trampoline-code}
use chronoporia.Shellcode.{code_line}
use chronoporia.Shellcode.Layout.{layout, code_line-layout}
use chronoporia.Console.{split_input}
use chronoporia.Console.Words.{Word, plain, double, typed, split_input-typed}

code_line-layout_example :
    (code_line 258 (7 ∷ 8 ∷ []) ≡ layout 258 (7 ∷ 8 ∷ []))
    × (length (code_line 258 (7 ∷ 8 ∷ [])) ≡ 2 * 22 + 9)
code_line-layout_example = code_line-layout 258 (7 ∷ 8 ∷ [])

-- Two words, one of them with a blank in quotes.
abbrev two_words : List Word
two_words = plain 98 (112 ∷ []) ∷ double (97 ∷ 32 ∷ 98 ∷ []) ∷ []

split_input-typed_example :
    split_input (λ c. c == 32) (typed two_words) ≡ [] ∷ (98 ∷ 112 ∷ []) ∷ (97 ∷ 32 ∷ 98 ∷ []) ∷ []
split_input-typed_example =
    split_input-typed (λ c. c == 32) two_words refl
      (((refl, refl), ((refl, refl), tt)), ((refl, (refl, (refl, tt))), tt))

-- The process reaches the end of its unload code at 40 behind a permanent breakpoint at 30.
abbrev armed : Manager (ℕ → ℕ)
armed = record {
  address_to_bp =
      (
        40,
        record { saved_byte = 0; kind = shell_code; count = 0; address = 40; holding_threads = [] },
      )
      ∷ [];
  permanent_bp_to_trampoline = (30, 90) ∷ [];
  user_breakpoints = [];
  process = λ a. 0;
}

run_dll_restore-true_example :
    ((run_dll_restore armed 40 (unload_dll ∷ breakpoint 1 30 ∷ breakpoint 1 40 ∷ [])).1
      ≡ returned true)
    ↔ Reaches armed 40 (unload_dll ∷ breakpoint 1 30 ∷ breakpoint 1 40 ∷ [])
run_dll_restore-true_example =
    run_dll_restore-true armed 40 (unload_dll ∷ breakpoint 1 30 ∷ breakpoint 1 40 ∷ [])

-- Two bytes of instruction, 14 that the jump replaces, and 16 more.
abbrev instruction_bytes : List ℕ
instruction_bytes = 0x48 ∷ 0x90 ∷ []

abbrev zeros_14 : List ℕ
zeros_14 = 0 ∷ 0 ∷ 0 ∷ 0 ∷ 0 ∷ 0 ∷ 0 ∷ 0 ∷ 0 ∷ 0 ∷ 0 ∷ 0 ∷ 0 ∷ 0 ∷ []

abbrev ones_16 : List ℕ
ones_16 = 1 ∷ 1 ∷ 1 ∷ 1 ∷ 1 ∷ 1 ∷ 1 ∷ 1 ∷ 1 ∷ 1 ∷ 1 ∷ 1 ∷ 1 ∷ 1 ∷ 1 ∷ 1 ∷ []

abbrev no_trampolines : Trampolines
no_trampolines = record {
  trampoline_region = [];
  address_to_trampoline_location = [];
  trampoline_address = 4096;
  trampoline_size = 4096;
}

abbrev read_bytes : ℕ → List ℕ
read_bytes a = instruction_bytes ++ (zeros_14 ++ ones_16)

abbrev placed : Trampolines × ℕ
placed = create_trampoline read_bytes (λ b. some 2) no_trampolines 100

create_trampoline-code_example :
    (redirect_to_trampoline placed.0 100 ≡ some placed.1)
    × (placed.1 ≡ (4096 + length (finalize_trampoline_region no_trampolines).0) % 2 ^ 64)
    × ((finalize_trampoline_region placed.0).0
        ≡ (finalize_trampoline_region no_trampolines).0
          ++ trampoline_code 100 instruction_bytes ones_16)
    × IsSlotted placed.0
create_trampoline-code_example =
    create_trampoline-code read_bytes (λ b. some 2) no_trampolines 100 instruction_bytes zeros_14
      ones_16 refl refl refl refl tt
