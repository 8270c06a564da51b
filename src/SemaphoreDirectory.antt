-- ===== src/SemaphoreDirectory.antt =====
-- The semaphores of the kernel (Kernel/sem.c): the functions that create, find, wait on, signal and
-- destroy semaphores by their address or name. A semaphore holds a pointer to its mutex, which is in the
-- directory of mutexes under the same name. `sem_at` is the memory behind the `sem_t` pointers.
pub mod Keep
use horaci_os.Prelude.{
  ℕ, ◌+◌, ◌-◌, ◌%◌, ◌^◌, List, [], ◌∷◌, Option, none, some, Bool, true, false, ◌==◌, if◌then◌else◌,
}
use horaci_os.Services.{Services}
use horaci_os.Directory.{Directory, slot, get_index, claim, vacate}
use horaci_os.Directory
use horaci_os.WaitQueue.{WaitQueue, enqueue, dequeue}
use horaci_os.WaitQueue
use horaci_os.MutexDirectory.{
  Mutexes, mutex_create, mutex_lock, mutex_unlock, mutex_destroy, free_object,
}

-- MAX_SEMS and `sizeof(sem_struct_t)`.
abbrev pub max_sems : ℕ
max_sems = 25

abbrev pub sem_struct_size : ℕ
sem_struct_size = 144

-- `sem_struct_t`; `value` is the 32-bit pattern of an `int`.
pub record SemStruct : Type 0 where
  pub value : ℕ
  pub waiters : WaitQueue
  pub mutex : Option ℕ

-- `sems` is `sem_directory`.
pub record Semaphores (S : Type 0) : Type 0 where
  pub sems : Directory
  pub sem_at : ℕ → SemStruct
  pub mutexes : Mutexes S

-- A write through a pointer.
unfoldable pub update : (ℕ → SemStruct) → ℕ → SemStruct → ℕ → SemStruct
update f p m q = if q == p then m else f q

module _ {S : Type 0} where
  -- `sem->mutex->name`; behind NULL there is what memory holds at address 0.
  unfoldable pub name_at : Semaphores S → ℕ → List ℕ
  name_at t p = elim (t.sem_at p).mutex [
    | none ↦ (t.mutexes.mutex_at 0).name
    | some q ↦ (t.mutexes.mutex_at q).name
  ]

  unfoldable pub get_sem_index : List ℕ → Semaphores S → Option ℕ
  get_sem_index name t = get_index (name_at t) name t.sems

module _ {S : Type 0} ⦃k : Services S⦄ where
  unfoldable pub init_sem_directory : Semaphores S → Semaphores S
  init_sem_directory t = record t { sems = Directory.init max_sems }

  -- What `sem_create` does with a new object at address `p` and the free slot `i`.
  unfoldable pub add_sem : List ℕ → ℕ → ℕ → ℕ → Semaphores S → Semaphores S
  add_sem name start_value i p t =
      let (mutex, mutexes) = mutex_create name t.mutexes in
      record {
        sems = claim max_sems t.sems i p;
        sem_at =
            update t.sem_at p
              (record { value = start_value; waiters = WaitQueue.init; mutex = mutex });
        mutexes = mutexes;
      }

  unfoldable pub create_new : List ℕ → ℕ → Semaphores S → Option ℕ × Semaphores S
  create_new name start_value t = elim t.sems.free_index [
    | none ↦ (none, t)
    | some i ↦
        let (p?, s) = k.malloc sem_struct_size t.mutexes.sys in
        let t' = record t { mutexes = record t.mutexes { sys = s } } in
        elim p? [ none ↦ (none, t') | some p ↦ (some p, add_sem name start_value i p t') ]
  ]

  -- The pointer that is returned, `none` for NULL.
  unfoldable pub sem_create : List ℕ → ℕ → Semaphores S → Option ℕ × Semaphores S
  sem_create name start_value t = elim (get_sem_index name t) [
    | some i ↦ (slot t.sems.slots i, t)
    | none ↦ create_new name start_value t
  ]

  -- The caller goes on behind `mutex_lock(sem->mutex)`: the mutex is NULL, or went to it.
  unfoldable pub got_mutex : Option ℕ → Mutexes S → Bool
  got_mutex none t = true
  got_mutex (some q) t = (t.mutex_at q).owner == k.get_current_pid t.sys

  -- `sem_wait` after `mutex_lock`.
  unfoldable pub wait_locked : ℕ → Semaphores S → Semaphores S
  wait_locked p t =
      let m = t.sem_at p in
      let process = k.get_current_pid t.mutexes.sys in
      let unlocked = mutex_unlock m.mutex t.mutexes in
      if m.value == 0
      then record t {
        sem_at = update t.sem_at p (record m { waiters = enqueue m.waiters process });
        mutexes = record unlocked { sys = k.mark_process_as_blocked process unlocked.sys };
      }
      else record t {
        sem_at = update t.sem_at p (record m { value = m.value - 1 });
        mutexes = unlocked;
      }

  -- `sem_signal` after `mutex_lock`.
  unfoldable pub signal_locked : ℕ → Semaphores S → Semaphores S
  signal_locked p t =
      let m = t.sem_at p in
      elim (dequeue m.waiters) [
        | some (process, q) ↦
            let woken = record t.mutexes { sys = k.resume_process process t.mutexes.sys } in
            record t {
              sem_at = update t.sem_at p (record m { waiters = q });
              mutexes = mutex_unlock m.mutex woken;
            }
        | none ↦ record t {
          sem_at = update t.sem_at p (record m { value = (m.value + 1) % 2 ^ 32 });
          mutexes = mutex_unlock m.mutex t.mutexes;
        }
      ]

  -- The flag tells whether the call went through; if not, the caller waits for the mutex.
  unfoldable pub sem_wait : Option ℕ → Semaphores S → Bool × Semaphores S
  sem_wait none t = (true, t)
  sem_wait (some p) t =
      let locked = record t { mutexes = mutex_lock (t.sem_at p).mutex t.mutexes } in
      if got_mutex (t.sem_at p).mutex locked.mutexes
      then (true, wait_locked p locked)
      else (false, locked)

  unfoldable pub sem_signal : Option ℕ → Semaphores S → Bool × Semaphores S
  sem_signal none t = (true, t)
  sem_signal (some p) t =
      let locked = record t { mutexes = mutex_lock (t.sem_at p).mutex t.mutexes } in
      if got_mutex (t.sem_at p).mutex locked.mutexes
      then (true, signal_locked p locked)
      else (false, locked)

  unfoldable pub sem_wait_by_name : List ℕ → Semaphores S → Bool × Semaphores S
  sem_wait_by_name name t = elim (get_sem_index name t) [
    | none ↦ (true, t)
    | some i ↦ sem_wait (slot t.sems.slots i) t
  ]

  unfoldable pub sem_signal_by_name : List ℕ → Semaphores S → Bool × Semaphores S
  sem_signal_by_name name t = elim (get_sem_index name t) [
    | none ↦ (true, t)
    | some i ↦ sem_signal (slot t.sems.slots i) t
  ]

  -- `mutex_destroy(sem->mutex)` and `free_handler(sem)`, for a slot that is not NULL.
  unfoldable pub destroy_object : Option ℕ → Semaphores S → Semaphores S
  destroy_object none t = t
  destroy_object (some p) t =
      let without = mutex_destroy (elim (t.sem_at p).mutex [ none ↦ 0 | some q ↦ q ]) t.mutexes in
      record t { mutexes = record without { sys = k.free_handler p without.sys } }

  unfoldable pub sem_destroy_by_name : List ℕ → Semaphores S → Semaphores S
  sem_destroy_by_name name t = elim (get_sem_index name t) [
    | none ↦ t
    | some i ↦ record (destroy_object (slot t.sems.slots i) t) { sems = vacate t.sems i }
  ]

  unfoldable pub sem_destroy : ℕ → Semaphores S → Semaphores S
  sem_destroy p t = sem_destroy_by_name (name_at t p) t
