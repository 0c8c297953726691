-- ===== src/Tests/Breakpoints.antt =====
-- Breakpoints in memory that can be written everywhere.
use chronoporia.Base.{
  ℕ, suc, ◌≡◌, refl, true, none, some, [], ◌∷◌, arith, lookup, contains, mem, remove, length,
}
use chronoporia.Breakpoints.Memory.{flat}
use chronoporia.Breakpoints.State.{Manager, Breakpoint, permanent, return, int3}
use chronoporia.Breakpoints.Manager.{
  create_return_breakpoint, remove_breakpoint, create_user_breakpoint, remove_user_breakpoint,
}
use chronoporia.Breakpoints.Manager.Removal.{remove-create_return}
use chronoporia.Breakpoints.Manager.Sharing.{remove-unarms}
use chronoporia.Breakpoints.Manager.UserRemoval.{remove-create_user_twice}

-- A process whose bytes are all 144, with no breakpoint.
abbrev quiet : Manager (ℕ → ℕ)
quiet = record {
  address_to_bp = [];
  permanent_bp_to_trampoline = [];
  user_breakpoints = [];
  process = λ a. 144;
}

abbrev moved : ℕ → ℕ
moved a = a

-- A breakpoint that threads 1 and 2 hold.
abbrev shared : Breakpoint
shared = record {
  saved_byte = 144;
  kind = return;
  count = 2;
  address = 10;
  holding_threads = 1 ∷ 2 ∷ [];
}

-- A breakpoint that sends every thread to a trampoline.
abbrev watched : Breakpoint
watched = record {
  saved_byte = 144;
  kind = permanent;
  count = 1;
  address = 20;
  holding_threads = [];
}

abbrev two_holders : Manager (ℕ → ℕ)
two_holders = record {
  address_to_bp = (10, shared) ∷ (20, watched) ∷ [];
  permanent_bp_to_trampoline = (20, 500) ∷ [];
  user_breakpoints = [];
  process = λ a. 204;
}

remove-create_return_example :
    ((remove_breakpoint flat moved (create_return_breakpoint flat quiet 10 1) 10 1).1 ≡ true)
    × ((c : ℕ)
        → (remove_breakpoint flat moved (create_return_breakpoint flat quiet 10 1) 10 1).0.process c
          ≡ 144)
    × ((c : ℕ)
        → lookup c
            (remove_breakpoint flat moved
              (create_return_breakpoint flat quiet 10 1)
              10
              1).0.address_to_bp
          ≡ lookup c quiet.address_to_bp)
unfolding contains lookup
remove-create_return_example = remove-create_return flat moved quiet 10 1 refl refl refl refl

remove-unarms_example :
    ((remove_breakpoint flat moved two_holders 10 1).0.process 10 ≡ 144)
    × (lookup 10 (remove_breakpoint flat moved two_holders 10 1).0.address_to_bp
        ≡ some (record shared { count = 1; holding_threads = remove 1 (1 ∷ 2 ∷ []) }))
    × (suc (length (remove 1 (1 ∷ 2 ∷ []))) ≡ 2)
unfolding lookup contains mem
remove-unarms_example =
    remove-unarms flat moved two_holders 10 1 shared refl refl refl (omega arith) (omega arith) refl
      refl

remove-create_user_twice_example :
    ((remove_user_breakpoint flat moved
          (create_user_breakpoint flat moved (create_user_breakpoint flat moved quiet 10 []) 10 [])
          10).0.process
        10
      ≡ int3)
    × (lookup 10
          (remove_user_breakpoint flat moved
            (create_user_breakpoint flat moved
              (create_user_breakpoint flat moved quiet 10 [])
              10
              [])
            10).0.user_breakpoints
        ≡ none)
remove-create_user_twice_example = remove-create_user_twice flat moved quiet 10 [] [] refl refl
