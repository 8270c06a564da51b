-- ===== src/Semaphore/Refine.antt =====
-- A semaphore whose mutex nobody holds behaves as a counter with a FIFO of waiting processes.
use horaci_os.Prelude.{
  ℕ, suc, zero, ◌+◌, ◌^◌, ◌<◌, ◌≡◌, refl, sym, ◌≢◌, ◌⊎◌, List, [], ◌∷◌, length, arith, true,
}
use horaci_os.Services.{Services}
use horaci_os.WaitQueue.{no_pid, queue_size}
use horaci_os.WaitQueue.Fifo.{Holds, enqueue-Holds, dequeue-none, dequeue-some, rest-Holds}
use horaci_os.Mutex
use horaci_os.Mutex.Spec.{free, perform}
use horaci_os.Semaphore.Spec
use horaci_os.Mutex.Refine as MutexRefine
use horaci_os.Mutex.Refine.{lock_free, unlock_last}
use horaci_os.Semaphore.{Semaphore, got_mutex, wait_locked, signal_locked, sem_wait, sem_signal}

-- The count is `n`, `ws` wait, oldest first, and the mutex is free. Nobody waits while the count is
-- positive.
pub record Models (m : Semaphore) (n : ℕ) (ws : List ℕ) : Type 0 where
  pub counts : m.value ≡ n
  pub waits : Holds m.waiters ws
  pub unlocked : MutexRefine.Models m.mutex free
  pub no_idle : (n ≡ 0) ⊎ (ws ≡ [])

module _ {S : Type 0} ⦃k : Services S⦄ (m : Semaphore) (s : S) {n : ℕ} {ws : List ℕ}
    (h : Models m n ws) (p : k.get_current_pid s ≢ no_pid) where
  -- The semaphore inside the critical section.
  abbrev locked : Semaphore
  locked = record m { mutex = (Mutex.lock m.mutex s).0 }

  -- The caller gets the mutex, so the call goes through.
  wait_enters : sem_wait m s ≡ (true, wait_locked locked s)
  unfolding sem_wait got_mutex
  wait_enters = ground (arith, lock_free m.mutex s h.unlocked p)

  signal_enters : sem_signal m s ≡ (true, signal_locked locked s)
  unfolding sem_signal got_mutex
  signal_enters = ground (arith, lock_free m.mutex s h.unlocked p)

  leaves :
      (t : S)
      → k.get_current_pid t ≡ k.get_current_pid s
      → MutexRefine.Models (Mutex.unlock locked.mutex t).0 free
        × ((Mutex.unlock locked.mutex t).1 ≡ t)
  leaves t e =
      unlock_last locked.mutex t (k.get_current_pid s) (lock_free m.mutex s h.unlocked p).0 (sym e)

module _ {S : Type 0} ⦃k : Services S⦄ where
  -- By a running process, with the mutex free and room in the queue: waiting takes one from a positive count; at 0 the caller joins the queue and blocks. The call
  -- goes through, and the mutex is free again.
  pub wait_refines :
      (m : Semaphore) (s : S) (n : ℕ) (ws : List ℕ)
      → Models m n ws
      → k.get_current_pid s ≢ no_pid
      → length ws < queue_size
      → let (through, (m', s')) = sem_wait m s in
        let (n', ws', e) = Spec.wait (k.get_current_pid s) n ws in
        (through ≡ true) × Models m' n' ws' × (s' ≡ perform k e s)
  unfolding Spec.wait wait_locked
  wait_refines m s zero ws h p room =
      rw (wait_enters m s h p)
        (ground (arith, leaves m s h p s refl, enqueue-Holds h.waits (k.get_current_pid s) room p))
  wait_refines m s (suc n) ws h p room =
      rw (wait_enters m s h p) (ground (arith, leaves m s h p s refl))

  -- By a running process, with the mutex free and a count that can still grow: signalling wakes the process that has waited longest, and adds one to the count if nobody
  -- waits. The call goes through, and the mutex is free again.
  pub signal_refines :
      (m : Semaphore) (s : S) (n : ℕ) (ws : List ℕ)
      → Models m n ws
      → k.get_current_pid s ≢ no_pid
      → n + 1 < 2 ^ 31
      → let (through, (m', s')) = sem_signal m s in
        let (n', ws', e) = Spec.signal n ws in
        (through ≡ true) × Models m' n' ws' × (s' ≡ perform k e s)
  unfolding Spec.signal signal_locked
  signal_refines m s n [] h p small =
      rw (signal_enters m s h p) (ground (arith, leaves m s h p s refl, dequeue-none h.waits))
  signal_refines m s n (w ∷ ws) h p small = rw (signal_enters m s h p) (
      ground (
        arith,
        leaves m s h p (k.resume_process w s) (k.get_current_pid-resume_process w s),
        dequeue-some h.waits,
        rest-Holds h.waits,
      ))
