-- ===== src/Scheduler/Provide.antt =====
-- The scheduler and the process table as the services that mutexes, semaphores and mailboxes use.
-- The allocator is a parameter.
use horaci_os.Prelude.{ℕ, ◌≡◌, refl, sym, ◌∙◌, List, Option, none, some, arith}
use horaci_os.WaitQueue.{no_pid}
use horaci_os.Services.{Services}
use horaci_os.MemoryManager.{MemoryManager, malloc, free_handler}
use horaci_os.ProcessTable.{Pcb, ready, pcb_at, change_process_state}
use horaci_os.ProcessTable.States.{change-id}
use horaci_os.RoundRobin
use horaci_os.Scheduler.{Kernel, get_current_pid, mark_process_as_blocked, resume_process}

-- `malloc` and `free_handler` (Kernel/memoryManager.c), with `H` for the heap.
pub record Allocator (H : Type 0) : Type 0 where
  pub malloc : ℕ → H → Option ℕ × H
  pub free_handler : ℕ → H → H

abbrev id_of : List Pcb → Option ℕ → ℕ
id_of ps none = no_pid
id_of ps (some p) = (pcb_at ps p).id

current-id : (k : Kernel) → get_current_pid k ≡ id_of k.processes (RoundRobin.peek k.round_robin)
unfolding get_current_pid
current-id k = ground arith

id_of-change :
    (ps : List Pcb) (pid : ℕ) (o : Option ℕ)
    → id_of (change_process_state ps pid ready).1 o ≡ id_of ps o
id_of-change ps pid none = refl
id_of-change ps pid (some p) = change-id ps pid p ready

-- To wake a process does not change which process runs.
pub get_current_pid-resume_process :
    (pid : ℕ) (k : Kernel) → get_current_pid (resume_process pid k) ≡ get_current_pid k
unfolding resume_process
get_current_pid-resume_process pid k =
    current-id (resume_process pid k)
    ∙ id_of-change k.processes pid (RoundRobin.peek k.round_robin)
    ∙ sym (current-id k)

abbrev pub services : {H : Type 0} → Allocator H → Services (Kernel × H)
services a = record {
  get_current_pid = λ s. get_current_pid s.0;
  mark_process_as_blocked = λ pid s. (mark_process_as_blocked pid s.0, s.1);
  resume_process = λ pid s. (resume_process pid s.0, s.1);
  malloc = λ n s. let (r, h) = a.malloc n s.1 in (r, (s.0, h));
  free_handler = λ n s. (s.0, a.free_handler n s.1);
  get_current_pid-resume_process = λ pid s. get_current_pid-resume_process pid s.0;
}

-- The buddy allocator.
abbrev pub allocator : Allocator MemoryManager
allocator = record { malloc = malloc; free_handler = free_handler }
