-- ===== src/Breakpoints/Memory.antt =====
-- The child process's memory, byte by byte, as the Windows calls show it.
use chronoporia.Base.{ℕ, ◌≡◌, Bool, if◌then◌else◌, ◌==◌, true, refl}

-- `read` is ReadProcessMemory of one byte; `write` is WriteProcessMemory of one byte, with its
-- result. A write that succeeds changes its own byte; one that fails changes none.
pub record Memory (Process : Type 0) : Type 0 where
  pub read : Process → ℕ → ℕ
  pub write : Process → ℕ → ℕ → Process × Bool
  pub read-write :
      (p : Process) (a b c : ℕ)
      → read (write p a b).0 c
        ≡ (if (write p a b).1 then (if a == c then b else read p c) else read p c)

-- Memory in which every address can be written.
abbrev flat_write : (ℕ → ℕ) → ℕ → ℕ → (ℕ → ℕ) × Bool
flat_write bytes a b = (λ c. if a == c then b else bytes c, true)

abbrev pub flat : Memory (ℕ → ℕ)
flat = record { read = λ bytes a. bytes a; write = flat_write; read-write = λ p a b c. refl }
