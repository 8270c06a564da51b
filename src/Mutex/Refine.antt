-- ===== src/Mutex/Refine.antt =====
-- The mutex operations implement the views of Spec.antt.
use horaci_os.Prelude.{ℕ, ◌<◌, ◌≡◌, refl, ◌≢◌, List, [], ◌∷◌, arith}
use horaci_os.Services.{Services}
use horaci_os.WaitQueue.{no_pid, queue_size}
use horaci_os.WaitQueue.Fifo.{
  Holds, size_pos, init-Holds, enqueue-Holds, dequeue-none, dequeue-some, rest-Holds,
}
use horaci_os.Mutex.{Mutex, fresh, lock, pass_on, super_unlock, unlock}
use horaci_os.Mutex.Spec
use horaci_os.Mutex.Spec.{View, free, held, keeps, blocks, wakes, perform, waiting, release}

-- `v` is the abstract view of the mutex: the lock word, the owner and the queue agree with it.
abbrev pub Models : Mutex → View → Type 0
Models m free = (m.value ≡ 0) × (m.owner ≡ no_pid) × Holds m.waiters []
Models m (held o ws) = (m.value ≡ 1) × (m.owner ≡ o) × (o ≢ no_pid) × Holds m.waiters ws

pub fresh-Models : (name : List ℕ) → Models (fresh name) free
unfolding fresh
fresh-Models name = (refl, refl, init-Holds)

module _ {S : Type 0} ⦃k : Services S⦄ where
  -- Locking by a running process, with room in the queue: the caller gets a free mutex, keeps one that it holds, and otherwise goes to the end
  -- of the queue and blocks.
  pub lock_refines :
      (m : Mutex) (s : S) (v : View)
      → Models m v
      → k.get_current_pid s ≢ no_pid
      → waiting v < queue_size
      → let (v', e) = Spec.lock (k.get_current_pid s) v in
        Models (lock m s).0 v' × ((lock m s).1 ≡ perform k e s)
  unfolding lock Spec.lock
  lock_refines m s free h me room = ground arith
  lock_refines m s (held o ws) h me room =
      ground (arith, enqueue-Holds h.3 (k.get_current_pid s) room me)

  pub pass_on_refines :
      (m : Mutex) (s : S) (v : View)
      → Models m v
      → let (v', e) = release v in Models (pass_on m s).0 v' × ((pass_on m s).1 ≡ perform k e s)
  unfolding pass_on release
  pass_on_refines m s free h = ground (arith, dequeue-none h.2)
  pass_on_refines m s (held o []) h = ground (arith, dequeue-none h.3)
  pass_on_refines m s (held o (w ∷ ws)) h =
      rw (dequeue-some h.3, pass_on) ((h.0, refl, h.3.pids.0, rest-Holds h.3), refl)

  -- Unlocking by the running process, if it is the holder, hands the mutex to the process that has
  -- waited longest and wakes it, or frees the mutex; by anybody else it does nothing.
  pub unlock_refines :
      (m : Mutex) (s : S) (v : View)
      → Models m v
      → k.get_current_pid s ≢ no_pid
      → let (v', e) = Spec.unlock (k.get_current_pid s) v in
        Models (unlock m s).0 v' × ((unlock m s).1 ≡ perform k e s)
  unfolding unlock Spec.unlock
  unlock_refines m s free h me = ground arith
  unlock_refines m s (held o ws) h me = ground (arith, pass_on_refines m s (held o ws) h)

  -- `mutex_super_unlock` hands the mutex over, or frees it, whoever holds it.
  pub super_unlock_refines :
      (m : Mutex) (s : S) (v : View)
      → Models m v
      → let (v', e) = release v in
        Models (super_unlock m s).0 v' × ((super_unlock m s).1 ≡ perform k e s)
  unfolding super_unlock
  super_unlock_refines m s v h = pass_on_refines m s v h

  -- The two calls of a critical section that nobody contends for.
  pub lock_free :
      (m : Mutex) (s : S)
      → Models m free
      → k.get_current_pid s ≢ no_pid
      → Models (lock m s).0 (held (k.get_current_pid s) []) × ((lock m s).1 ≡ s)
  unfolding Spec.lock
  lock_free m s h me = lock_refines m s free h me size_pos

  pub unlock_last :
      (m : Mutex) (s : S) (a : ℕ)
      → Models m (held a [])
      → a ≡ k.get_current_pid s
      → Models (unlock m s).0 free × ((unlock m s).1 ≡ s)
  unfolding Spec.unlock release
  unlock_last m s a h e = ground (arith, unlock_refines m s (held a []) h)
