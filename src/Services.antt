-- ===== src/Services.antt =====
-- What mutexes, semaphores and mailboxes ask of the rest of the kernel: `get_current_pid`
-- (Kernel/scheduler.c), `mark_process_as_blocked` and `resume_process` (Kernel/process.c), `malloc`
-- and `free_handler` (Kernel/memoryManager.c). `S` is the state behind them. The components that
-- use the services take them as an instance argument.
use horaci_os.Prelude.{ℕ, ◌≡◌, Option}

pub record Services (S : Type 0) : Type 0 where
  -- -1, as a 32-bit pattern, where no process runs.
  pub get_current_pid : S → ℕ
  pub mark_process_as_blocked : ℕ → S → S
  pub resume_process : ℕ → S → S
  -- The address, or `none` for NULL.
  pub malloc : ℕ → S → Option ℕ × S
  pub free_handler : ℕ → S → S
  -- To wake a process is not to switch to it.
  pub get_current_pid-resume_process :
      (pid : ℕ) (s : S) → get_current_pid (resume_process pid s) ≡ get_current_pid s
