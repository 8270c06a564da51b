-- ===== src/Semaphore.antt =====
-- Semaphores (Kernel/sem.c): the struct, `sem_wait` and `sem_signal`. A semaphore guards its fields
-- by a mutex of its own name.
pub mod Spec
pub mod Refine
use horaci_os.Prelude.{ℕ, ◌+◌, ◌-◌, ◌%◌, ◌^◌, some, none, Bool, true, false, ◌==◌, if◌then◌else◌}
use horaci_os.Services.{Services}
use horaci_os.WaitQueue.{WaitQueue, init, enqueue, dequeue}
use horaci_os.Mutex.{Mutex}
use horaci_os.Mutex

-- `sem_struct_t`, with the mutex that its last field points to. `value` is the 32-bit pattern of an
-- `int`; it is lowered only where it is not 0.
pub record Semaphore : Type 0 where
  pub value : ℕ
  pub waiters : WaitQueue
  pub mutex : Mutex

-- The fields that `sem_create` sets in a new semaphore.
unfoldable pub fresh : ℕ → Mutex → Semaphore
fresh start_value mutex = record { value = start_value; waiters = init; mutex = mutex }

module _ {S : Type 0} ⦃k : Services S⦄ where
  -- The mutex went to the caller. Where it did not, `mutex_lock` has put the caller in the mutex's
  -- queue and blocked it, and the rest of the call runs when the mutex is handed to it.
  unfoldable pub got_mutex : Semaphore → S → Bool
  got_mutex m s = m.mutex.owner == k.get_current_pid s

  -- `sem_wait` after `mutex_lock(sem->mutex)`.
  unfoldable pub wait_locked : Semaphore → S → Semaphore × S
  wait_locked m s =
      if m.value == 0
      then (let process = k.get_current_pid s in
          let (mutex, s') = Mutex.unlock m.mutex s in
          (
            record m { waiters = enqueue m.waiters process; mutex = mutex },
            k.mark_process_as_blocked process s',
          ))
      else (let (mutex, s') = Mutex.unlock m.mutex s in
          (record m { value = m.value - 1; mutex = mutex }, s'))

  -- `sem_signal` after `mutex_lock(sem->mutex)`.
  unfoldable pub signal_locked : Semaphore → S → Semaphore × S
  signal_locked m s = elim (dequeue m.waiters) [
    | some (process, q) ↦
        let (mutex, s') = Mutex.unlock m.mutex (k.resume_process process s) in
        (record m { waiters = q; mutex = mutex }, s')
    | none ↦
        let (mutex, s') = Mutex.unlock m.mutex s in
        (record m { value = (m.value + 1) % 2 ^ 32; mutex = mutex }, s')
  ]

  -- The flag tells whether the call went through; if not, the caller waits for the mutex.
  unfoldable pub sem_wait : Semaphore → S → Bool × (Semaphore × S)
  sem_wait m s =
      let (mutex, s') = Mutex.lock m.mutex s in
      let m' = record m { mutex = mutex } in
      if got_mutex m' s then (true, wait_locked m' s') else (false, (m', s'))

  unfoldable pub sem_signal : Semaphore → S → Bool × (Semaphore × S)
  sem_signal m s =
      let (mutex, s') = Mutex.lock m.mutex s in
      let m' = record m { mutex = mutex } in
      if got_mutex m' s then (true, signal_locked m' s') else (false, (m', s'))
