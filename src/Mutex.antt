-- ===== src/Mutex.antt =====
-- A mutex object: the struct and the operations of Kernel/mutex.c that work on one mutex. The
-- directory that finds a mutex by its name is in MutexDirectory.antt.
pub mod Spec
pub mod Refine
pub mod Order
pub mod Lock
use horaci_os.Prelude.{ℕ, List, none, some, ◌==◌, if◌then◌else◌}
use horaci_os.Services.{Services}
use horaci_os.WaitQueue.{WaitQueue, no_pid, init, enqueue, dequeue}

-- `mutex_struct_t`; `name` is the text before the terminating 0.
pub record Mutex : Type 0 where
  pub name : List ℕ
  pub value : ℕ
  pub owner : ℕ
  pub waiters : WaitQueue

-- The fields that `mutex_create` sets in a new mutex.
unfoldable pub fresh : List ℕ → Mutex
fresh name = record { name = name; value = 0; owner = no_pid; waiters = init }

-- `mutex_acquire` of Kernel/asm/libasm.asm: an exchange that leaves 1 in `value` and returns what
-- stood there.
unfoldable pub acquire : Mutex → ℕ × Mutex
acquire m = (m.value, record m { value = 1 })

module _ {S : Type 0} ⦃k : Services S⦄ where
  -- The branch of `mutex_lock` for a mutex that is taken: join the queue and block.
  unfoldable pub join : Mutex → S → Mutex × S
  join m s =
      let process = k.get_current_pid s in
      (record m { waiters = enqueue m.waiters process }, k.mark_process_as_blocked process s)

  unfoldable pub lock : Mutex → S → Mutex × S
  unfolding acquire join
  lock m s =
      if m.owner == k.get_current_pid s
      then (m, s)
      else let (old, m') = acquire m in
        if old == 0 then (record m' { owner = k.get_current_pid s }, s) else join m' s

  -- What both unlock functions do at their end: hand the mutex to the first process of the queue
  -- and wake it, or leave it free.
  unfoldable pub pass_on : Mutex → S → Mutex × S
  pass_on m s = elim (dequeue m.waiters) [
    | some (process, q) ↦ (record m { owner = process; waiters = q }, k.resume_process process s)
    | none ↦ (record m { owner = no_pid; value = 0 }, s)
  ]

  -- `mutex_super_unlock` on a mutex that is not NULL.
  unfoldable pub super_unlock : Mutex → S → Mutex × S
  super_unlock m s = pass_on m s

  unfoldable pub unlock : Mutex → S → Mutex × S
  unlock m s = if m.owner == k.get_current_pid s then pass_on m s else (m, s)
