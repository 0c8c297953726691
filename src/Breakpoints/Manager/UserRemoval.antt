-- ===== src/Breakpoints/Manager/UserRemoval.antt =====
-- User breakpoints: made, switched off and on, and removed.
use chronoporia.Base.{
  ℕ, ◌≡◌, refl, Bool, true, none, some, List, [], arith, lookup, erase, lookup-insert, lookup-erase,
  ==-refl, ==_iff, ap, ◌∙◌,
}
use chronoporia.Breakpoints.Memory.{Memory}
use chronoporia.Breakpoints.State.{UserBreakpoint, int3, Manager}
use chronoporia.Breakpoints.Manager.{create_user_breakpoint, remove_user_breakpoint}

module _ {Process : Type 0} (memory : Memory Process) (get_true_address : ℕ → ℕ) where
  open memory use {read, write, read-write}

  abbrev entry_of : Manager Process → ℕ → List ℕ → UserBreakpoint
  entry_of m address condition = record {
    saved_byte = read m.process (get_true_address address);
    active = true;
    original_addr = address;
    true_addr = get_true_address address;
    line_number = 0;
    length_at = 0;
    file_name = [];
    condition = condition;
  }

  remove_user_found :
      (m : Manager Process) (address : ℕ) (bp : UserBreakpoint)
      → lookup (get_true_address address) m.user_breakpoints ≡ some bp
      → (write m.process bp.true_addr bp.saved_byte).1 ≡ true
      → remove_user_breakpoint memory get_true_address m address ≡ (
        record m {
          process = (write m.process bp.true_addr bp.saved_byte).0;
          user_breakpoints = erase (get_true_address address) m.user_breakpoints;
        },
        true,
      )
  unfolding remove_user_breakpoint
  remove_user_found m address bp e w = ground arith

  lookup-create_user :
      (m : Manager Process) (address : ℕ) (condition : List ℕ)
      → lookup
          (get_true_address address)
          (create_user_breakpoint memory get_true_address m address condition).user_breakpoints
        ≡ some (entry_of m address condition)
  unfolding create_user_breakpoint
  lookup-create_user m address condition = ground (
    arith,
    lookup-insert (get_true_address address) (get_true_address address)
        (entry_of m address condition) m.user_breakpoints,
    ==-refl (get_true_address address),
  )

  process-create_user :
      (m : Manager Process) (address : ℕ) (condition : List ℕ)
      → (create_user_breakpoint memory get_true_address m address condition).process
        ≡ (write m.process (get_true_address address) int3).0
  unfolding create_user_breakpoint
  process-create_user m address condition = refl

  -- A user breakpoint that is made and removed leaves every byte as it was, and none at its address,
  -- both writes succeeding.
  pub remove-create_user :
      (m : Manager Process) (address : ℕ) (condition : List ℕ)
      → (write m.process (get_true_address address) int3).1 ≡ true
      → (write
          (write m.process (get_true_address address) int3).0
          (get_true_address address)
          (read m.process (get_true_address address))).1
        ≡ true
      → ((remove_user_breakpoint memory get_true_address
            (create_user_breakpoint memory get_true_address m address condition)
            address).1
          ≡ true)
        × ((c : ℕ)
            → read
                (remove_user_breakpoint memory get_true_address
                  (create_user_breakpoint memory get_true_address m address condition)
                  address).0.process
                c
              ≡ read m.process c)
        × (lookup
              (get_true_address address)
              (remove_user_breakpoint memory get_true_address
                (create_user_breakpoint memory get_true_address m address condition)
                address).0.user_breakpoints
            ≡ none)
  remove-create_user m address condition w v =
      let a = get_true_address address in
      let made = create_user_breakpoint memory get_true_address m address condition in
      let e =
        remove_user_found made address (entry_of m address condition)
          (lookup-create_user m address condition)
          (rw (process-create_user m address condition) v) in
      (
        ap (λ (r : Manager Process × Bool). r.1) e,
        λ c.
            rw (e, process-create_user m address condition)
              (ground (
                arith,
                read-write (write m.process a int3).0 a (read m.process a) c,
                read-write m.process a int3 c,
                ==_iff a c,
              )),
        rw e (ground (arith, lookup-erase a a made.user_breakpoints, ==-refl a)),
      )

  -- A user breakpoint that is made twice at one address, with no removal between, saves the int3 of
  -- the first as the original byte: removing it leaves int3 in the process and no breakpoint, the
  -- writes succeeding.
  pub remove-create_user_twice :
      (m : Manager Process) (address : ℕ) (first second : List ℕ)
      → (write m.process (get_true_address address) int3).1 ≡ true
      → (write
          (write
            (write m.process (get_true_address address) int3).0
            (get_true_address address)
            int3).0
          (get_true_address address)
          int3).1
        ≡ true
      → (read
            (remove_user_breakpoint memory get_true_address
              (create_user_breakpoint memory get_true_address
                (create_user_breakpoint memory get_true_address m address first)
                address
                second)
              address).0.process
            (get_true_address address)
          ≡ int3)
        × (lookup
              (get_true_address address)
              (remove_user_breakpoint memory get_true_address
                (create_user_breakpoint memory get_true_address
                  (create_user_breakpoint memory get_true_address m address first)
                  address
                  second)
                address).0.user_breakpoints
            ≡ none)
  remove-create_user_twice m address first second w v =
      let a = get_true_address address in
      let once = create_user_breakpoint memory get_true_address m address first in
      let twice = create_user_breakpoint memory get_true_address once address second in
      let at : once.process ≡ (write m.process a int3).0 = process-create_user m address first in
      let saved : read once.process a ≡ int3 =
        rw at (ground (arith, read-write m.process a int3 a, ==-refl a)) in
      let again : twice.process ≡ (write (write m.process a int3).0 a int3).0 =
        process-create_user once address second ∙ ap (λ p. (write p a int3).0) at in
      let ok : (write twice.process a (read once.process a)).1 ≡ true = rw (saved, again) v in
      let e =
        remove_user_found twice address (entry_of once address second)
          (lookup-create_user once address second) ok in
      (
        rw e (
            ground
              (arith, read-write twice.process a (read once.process a) a, ==-refl a, saved, ok)),
        rw e (ground (arith, lookup-erase a a twice.user_breakpoints, ==-refl a)),
      )
