-- ===== src/Stepping/Loops/Counts.antt =====
-- How often a list of calls suspends and resumes a thread.
use chronoporia.Base.{ℕ, ◌+◌, ◌≡◌, refl, Bool, List, [], ◌∷◌, ◌++◌, map, arith, if◌then◌else◌, ◌==◌}
use chronoporia.Stepping.Loops.{
  StepCall, set_trap_flag, resume_thread, suspend_thread, resume_process, suspend_process,
  roll_back_instruction, continue_event,
}

-- How often a thread is suspended, and resumed, by itself or with the process.
unfoldable pub suspends : ℕ → List StepCall → ℕ
suspends t [] = 0
suspends t (suspend_thread u ∷ calls) = (if u == t then 1 else 0) + suspends t calls
suspends t (suspend_process ∷ calls) = 1 + suspends t calls
suspends t (_ ∷ calls) = suspends t calls

unfoldable pub resumes : ℕ → List StepCall → ℕ
resumes t [] = 0
resumes t (resume_thread u ∷ calls) = (if u == t then 1 else 0) + resumes t calls
resumes t (resume_process ∷ calls) = 1 + resumes t calls
resumes t (_ ∷ calls) = resumes t calls

-- How often the call at the start, for the thread only or for the process, lets a thread run.
abbrev pub started : ℕ → Bool → ℕ → ℕ
started thread_id only t = if only then if thread_id == t then 1 else 0 else 1

unfoldable pub occurrences : ℕ → List ℕ → ℕ
occurrences t [] = 0
occurrences t (u ∷ threads) = (if u == t then 1 else 0) + occurrences t threads

pub occurrences-append :
    (t u : ℕ) (threads : List ℕ)
    → occurrences t (threads ++ u ∷ []) ≡ (if u == t then 1 else 0) + occurrences t threads
unfolding occurrences
occurrences-append t u [] = omega arith
occurrences-append t u (x ∷ threads) = omega (arith, occurrences-append t u threads)

pub suspends-append :
    (t : ℕ) (xs ys : List StepCall) → suspends t (xs ++ ys) ≡ suspends t xs + suspends t ys
unfolding suspends
suspends-append t [] ys = omega arith
suspends-append t (suspend_thread u ∷ xs) ys = omega (arith, suspends-append t xs ys)
suspends-append t (set_trap_flag u ∷ xs) ys = suspends-append t xs ys
suspends-append t (resume_thread u ∷ xs) ys = suspends-append t xs ys
suspends-append t (resume_process ∷ xs) ys = suspends-append t xs ys
suspends-append t (suspend_process ∷ xs) ys = omega (arith, suspends-append t xs ys)
suspends-append t (roll_back_instruction u ∷ xs) ys = suspends-append t xs ys
suspends-append t (continue_event u ∷ xs) ys = suspends-append t xs ys

pub resumes-append :
    (t : ℕ) (xs ys : List StepCall) → resumes t (xs ++ ys) ≡ resumes t xs + resumes t ys
unfolding resumes
resumes-append t [] ys = omega arith
resumes-append t (resume_thread u ∷ xs) ys = omega (arith, resumes-append t xs ys)
resumes-append t (set_trap_flag u ∷ xs) ys = resumes-append t xs ys
resumes-append t (suspend_thread u ∷ xs) ys = resumes-append t xs ys
resumes-append t (resume_process ∷ xs) ys = omega (arith, resumes-append t xs ys)
resumes-append t (suspend_process ∷ xs) ys = resumes-append t xs ys
resumes-append t (roll_back_instruction u ∷ xs) ys = resumes-append t xs ys
resumes-append t (continue_event u ∷ xs) ys = resumes-append t xs ys

pub resumes-map :
    (t : ℕ) (threads : List ℕ)
    → (resumes t (map resume_thread threads) ≡ occurrences t threads)
      × (suspends t (map resume_thread threads) ≡ 0)
unfolding resumes suspends occurrences
resumes-map t [] = (refl, refl)
resumes-map t (u ∷ threads) = let (r, s) = resumes-map t threads in (omega (arith, r), s)
