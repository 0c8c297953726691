-- ===== src/Breakpoints/Manager/Removal.antt =====
-- A breakpoint that is made and removed again, and the byte that it hides.
use chronoporia.Base.{
  ℕ, ◌≡◌, Bool, true, false, none, some, [], arith, lookup, insert, erase, contains, mem,
  lookup-insert, lookup-erase, ==-refl, ==_iff, ap,
}
use chronoporia.Breakpoints.Memory.{Memory}
use chronoporia.Breakpoints.State.{return, Breakpoint, int3, Manager, hold}
use chronoporia.Breakpoints.Manager.{
  create_return_breakpoint, remove_breakpoint, restore_memory, release,
}

module _ {Process : Type 0} (memory : Memory Process) (get_true_address : ℕ → ℕ) where
  open memory use {read, write, read-write}

  -- A thread that holds an entry removes it, whether or not the byte could be written.
  pub remove_found :
      (m : Manager Process) (a t : ℕ) (bp : Breakpoint)
      → contains a m.permanent_bp_to_trampoline ≡ false
      → lookup a m.address_to_bp ≡ some bp
      → mem t bp.holding_threads ≡ true
      → remove_breakpoint memory get_true_address m a t
        ≡ (release (restore_memory memory m bp).0 a t bp, true)
  unfolding remove_breakpoint
  remove_found m a t bp p l h = ground arith

  -- The entry that `WriteBreakpoint` makes, and with its thread.
  abbrev bare : Manager Process → ℕ → Breakpoint
  bare m a = record {
    saved_byte = read m.process a;
    kind = return;
    count = 1;
    address = a;
    holding_threads = [];
  }

  abbrev held : Manager Process → ℕ → ℕ → Breakpoint
  held m a t = hold t (bare m a)

  abbrev created : Manager Process → ℕ → ℕ → Manager Process
  created m a t = record m {
    process = (write m.process a int3).0;
    address_to_bp = insert a (held m a t) (insert a (bare m a) m.address_to_bp);
  }

  create_return_fresh :
      (m : Manager Process) (a t : ℕ)
      → lookup a m.address_to_bp ≡ none
      → create_return_breakpoint memory m a t ≡ created m a t
  unfolding create_return_breakpoint
  create_return_fresh m a t fresh =
      ground (arith, lookup-insert a a (bare m a) m.address_to_bp, ==-refl a)

  lookup-created :
      (m : Manager Process) (a t : ℕ) → lookup a (created m a t).address_to_bp ≡ some (held m a t)
  lookup-created m a t =
      ground
        (arith, lookup-insert a a (held m a t) (insert a (bare m a) m.address_to_bp), ==-refl a)

  remove_held :
      (m : Manager Process) (a t : ℕ)
      → contains a m.permanent_bp_to_trampoline ≡ false
      → lookup a m.address_to_bp ≡ none
      → remove_breakpoint memory get_true_address (create_return_breakpoint memory m a t) a t ≡ (
        record m {
          process = (write (write m.process a int3).0 a (read m.process a)).0;
          address_to_bp = erase a (insert a (held m a t) (insert a (bare m a) m.address_to_bp));
        },
        true,
      )
  unfolding restore_memory
  remove_held m a t p l = rw (create_return_fresh m a t l) (
      remove_found (created m a t) a t (held m a t) p (lookup-created m a t)
        (unfold mem in ground (arith, ==-refl t)))

  bytes_back :
      (m : Manager Process) (a t : ℕ)
      → (write m.process a int3).1 ≡ true
      → (write (write m.process a int3).0 a (read m.process a)).1 ≡ true
      → (c : ℕ)
      → read (write (write m.process a int3).0 a (read m.process a)).0 c ≡ read m.process c
  bytes_back m a t w v c = ground (
    arith,
    read-write (write m.process a int3).0 a (read m.process a) c,
    read-write m.process a int3 c,
    ==_iff a c,
  )

  entries_back :
      (m : Manager Process) (a t : ℕ)
      → lookup a m.address_to_bp ≡ none
      → (c : ℕ)
      → lookup c (erase a (insert a (held m a t) (insert a (bare m a) m.address_to_bp)))
        ≡ lookup c m.address_to_bp
  entries_back m a t l c = ground (
    arith,
    lookup-erase a c (insert a (held m a t) (insert a (bare m a) m.address_to_bp)),
    lookup-insert a c (held m a t) (insert a (bare m a) m.address_to_bp),
    lookup-insert a c (bare m a) m.address_to_bp,
  )

  -- A thread makes a return breakpoint at an address that has no breakpoint, and removes it again,
  -- both writes succeeding: it is told that it removed it, every byte is what it was, and every
  -- address is tracked as it was.
  pub remove-create_return :
      (m : Manager Process) (address thread_id : ℕ)
      → contains address m.permanent_bp_to_trampoline ≡ false
      → lookup address m.address_to_bp ≡ none
      → (write m.process address int3).1 ≡ true
      → (write (write m.process address int3).0 address (read m.process address)).1 ≡ true
      → ((remove_breakpoint memory get_true_address
            (create_return_breakpoint memory m address thread_id)
            address
            thread_id).1
          ≡ true)
        × ((c : ℕ)
            → read
                (remove_breakpoint memory get_true_address
                  (create_return_breakpoint memory m address thread_id)
                  address
                  thread_id).0.process
                c
              ≡ read m.process c)
        × ((c : ℕ)
            → lookup c
                (remove_breakpoint memory get_true_address
                  (create_return_breakpoint memory m address thread_id)
                  address
                  thread_id).0.address_to_bp
              ≡ lookup c m.address_to_bp)
  remove-create_return m a t p l w v =
      let e = remove_held m a t p l in
      (
        ap (λ (r : Manager Process × Bool). r.1) e,
        λ c. rw e (bytes_back m a t w v c),
        λ c. rw e (entries_back m a t l c),
      )
