-- ===== src/WaitQueue.antt =====
-- The queue of blocked processes that mutexes (Kernel/mutex.c) and semaphores (Kernel/sem.c) embed:
-- `lockedQueue`, `queue_start_index` and `queue_free_index`. Both files hold the same statements;
-- each is one function here. An `int` or `process_id_t` is its 32-bit pattern, so -1 is `no_pid`.
pub mod Fifo
use horaci_os.Prelude.{
  ℕ, ◌+◌, ◌-◌, ◌^◌, List, Option, none, some, ◌==◌, if◌then◌else◌, get_or, set, replicate,
}

-- PROCESS_QUEUE_SIZE of Kernel/include/lib.h.
unfoldable pub queue_size : ℕ
queue_size = 30

abbrev pub no_pid : ℕ
no_pid = 2 ^ 32 - 1

pub record WaitQueue : Type 0 where
  pub locked_queue : List ℕ
  pub queue_start_index : ℕ
  pub queue_free_index : ℕ

unfoldable pub init : WaitQueue
init = record {
  locked_queue = replicate queue_size no_pid;
  queue_start_index = 0;
  queue_free_index = 0;
}

-- `index++; if(index == PROCESS_QUEUE_SIZE) index = 0;`
unfoldable pub next_index : ℕ → ℕ
next_index i = if (i + 1) == queue_size then 0 else i + 1

-- A full queue is not refused: the code prints a warning and overwrites the slot.
unfoldable pub enqueue : WaitQueue → ℕ → WaitQueue
enqueue q pid = record q {
  locked_queue = set q.locked_queue q.queue_free_index pid;
  queue_free_index = next_index q.queue_free_index;
}

-- The test `lockedQueue[queue_start_index] != -1` and, if it passes, the removal of that process.
unfoldable pub dequeue : WaitQueue → Option (ℕ × WaitQueue)
dequeue q =
    let pid = get_or q.locked_queue q.queue_start_index no_pid in
    if pid == no_pid
    then none
    else some (
      pid,
      record q {
        locked_queue = set q.locked_queue q.queue_start_index no_pid;
        queue_start_index = next_index q.queue_start_index;
      },
    )
