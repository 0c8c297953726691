-- ===== src/Breakpoints/Manager/Sharing.antt =====
-- What the operations keep of the counts, and what a removal leaves.
use chronoporia.Base.{
  ℕ, suc, ◌-◌, ◌<◌, ◌≡◌, refl, true, false, some, [], arith, ◌==◌, lookup, contains, mem, remove,
  length, length-remove, lookup-insert, ==-refl,
}
use chronoporia.Breakpoints.Memory.{Memory}
use chronoporia.Breakpoints.State.{BreakpointType, Breakpoint, decrement, size_mod, Manager}
use chronoporia.Breakpoints.Manager.{remove_breakpoint, restore_memory}
use chronoporia.Breakpoints.Manager.Removal.{remove_found}

module _ {Process : Type 0} (memory : Memory Process) (get_true_address : ℕ → ℕ) where
  open memory use {read, write, read-write}

  abbrev fresh_entry : Manager Process → ℕ → BreakpointType → Breakpoint
  fresh_entry m a kind = record {
    saved_byte = read m.process a;
    kind = kind;
    count = 1;
    address = a;
    holding_threads = [];
  }

  process-restore_memory :
      (m : Manager Process) (bp : Breakpoint)
      → (restore_memory memory m bp).0
        ≡ record m { process = (write m.process bp.address bp.saved_byte).0 }
  unfolding restore_memory
  process-restore_memory m bp = refl

  -- When a thread removes a breakpoint that it holds, that is tracked at its own address, and whose
  -- count is more than one and fits size_t, as that of a breakpoint that several threads hold is, at an
  -- address without a permanent one, and the write succeeds, the original byte is back in the process
  -- although the breakpoint stays tracked, with one less in its count and among its holders: the int3
  -- is gone for the others.
  pub remove-unarms :
      (m : Manager Process) (address thread_id : ℕ) (bp : Breakpoint)
      → contains address m.permanent_bp_to_trampoline ≡ false
      → lookup address m.address_to_bp ≡ some bp
      → mem thread_id bp.holding_threads ≡ true
      → 1 < bp.count
      → bp.count < size_mod
      → bp.address ≡ address
      → (write m.process address bp.saved_byte).1 ≡ true
      → (read (remove_breakpoint memory get_true_address m address thread_id).0.process address
          ≡ bp.saved_byte)
        × (lookup address
              (remove_breakpoint memory get_true_address m address thread_id).0.address_to_bp
            ≡ some (record bp {
              count = bp.count - 1;
              holding_threads = remove thread_id bp.holding_threads;
            }))
        × (suc (length (remove thread_id bp.holding_threads)) ≡ length bp.holding_threads)
  remove-unarms m a t bp p e held shared small at w =
      let found = remove_found memory get_true_address m a t bp p e held in
      let more : (decrement bp.count == 0) ≡ false = ground arith in
      let less : decrement bp.count ≡ bp.count - 1 = omega arith in
      let w' : (write m.process bp.address bp.saved_byte).1 ≡ true = rw at w in
      (
        rw (found, process-restore_memory m bp, more)
            (ground (arith, read-write m.process bp.address bp.saved_byte a, ==-refl a)),
        rw (found, process-restore_memory m bp, more, less)
            (ground (
              arith,
              lookup-insert a a
                  (record bp {
                    count = bp.count - 1;
                    holding_threads = remove t bp.holding_threads;
                  })
                  m.address_to_bp,
              ==-refl a,
            )),
        length-remove t bp.holding_threads held,
      )
