-- ===== src/Tests/Locks.antt =====
-- The wait queue, mutexes and semaphores at work.
use horaci_os.Prelude.{ℕ, ◌≡◌, refl, ◌≢◌, ◌<◌, List, [], ◌∷◌, ◌++◌, true, inr, arith}
use horaci_os.Tests.Machine.{Machine, machine, runs}
use horaci_os.WaitQueue.{no_pid, queue_size}
use horaci_os.WaitQueue.Fifo.{init-Holds}
use horaci_os.Mutex.{Mutex, fresh, lock, unlock}
use horaci_os.Mutex.Spec
use horaci_os.Mutex.Spec.{free, held, perform, keeps, blocks, wakes}
use horaci_os.Mutex.Refine.{Models, fresh-Models, lock_refines, unlock_refines}
use horaci_os.Mutex.Order.{Call, locks, unlocks, run, line, askers, returners, run_in_order}
use horaci_os.Semaphore.{Semaphore, sem_wait, sem_signal}
use horaci_os.Semaphore
use horaci_os.Semaphore.Refine as SemaphoreRefine
use horaci_os.Semaphore.Refine.{wait_refines, signal_refines}

three : 3 ≢ no_pid
three = omega arith

five : 5 ≢ no_pid
five = omega arith

room_for : (n : ℕ) → n < 30 → n < queue_size
unfolding queue_size
room_for n lt = lt

abbrev door : Mutex
door = fresh (100 ∷ [])

-- 3 takes the mutex and 5 waits for it.
abbrev taken : Mutex
taken = (lock door (runs 3)).0

abbrev contended : Mutex
contended = (lock taken (runs 5)).0

taken-Models : Models taken (held 3 [])
unfolding Spec.lock
taken-Models =
    (lock_refines door (runs 3) free (fresh-Models (100 ∷ [])) three (room_for 0 (omega arith))).0

lock_refines_example :
    Models contended (held 3 (5 ∷ []))
    × ((lock taken (runs 5)).1 ≡ perform machine (blocks 5) (runs 5))
unfolding Spec.lock
lock_refines_example =
    lock_refines taken (runs 5) (held 3 []) taken-Models five (room_for 0 (omega arith))

unlock_refines_example :
    Models (unlock contended (runs 3)).0 (held 5 [])
    × ((unlock contended (runs 3)).1 ≡ perform machine (wakes 5) (runs 3))
unfolding Spec.unlock Spec.release
unlock_refines_example =
    unlock_refines contended (runs 3) (held 3 (5 ∷ [])) lock_refines_example.0 three

-- 3 locks, 5 locks, 3 unlocks, 5 unlocks.
abbrev calls : List (Machine × Call)
calls = (runs 3, locks) ∷ (runs 5, locks) ∷ (runs 3, unlocks) ∷ (runs 5, unlocks) ∷ []

run_in_order_example :
    (w : Spec.View) × Models (run door calls) w
    × (returners calls ++ line w ≡ line free ++ askers calls)
run_in_order_example = run_in_order calls door free (fresh-Models (100 ∷ [])) (
  three,
  (five, (λ e. absurd (omega arith)), room_for 0 (omega arith), (three, refl, (five, refl, tt))),
)

abbrev sem : ℕ → Semaphore
sem n = Semaphore.fresh n door

sem-Models : (n : ℕ) → SemaphoreRefine.Models (sem n) n []
unfolding Semaphore.fresh
sem-Models n = record {
  counts = refl;
  waits = init-Holds;
  unlocked = fresh-Models (100 ∷ []);
  no_idle = inr refl;
}

wait_refines_example :
    let (through, (m, s)) = sem_wait (sem 0) (runs 3) in
    (through ≡ true)
    × SemaphoreRefine.Models m 0 (3 ∷ [])
    × (s ≡ perform machine (blocks 3) (runs 3))
unfolding Semaphore.Spec.wait
wait_refines_example =
    wait_refines (sem 0) (runs 3) 0 [] (sem-Models 0) three (room_for 0 (omega arith))

signal_refines_example :
    let (through, (m, s)) = sem_signal (sem_wait (sem 0) (runs 3)).1.0 (runs 5) in
    (through ≡ true) × SemaphoreRefine.Models m 0 [] × (s ≡ perform machine (wakes 3) (runs 5))
unfolding Semaphore.Spec.signal
signal_refines_example =
    signal_refines (sem_wait (sem 0) (runs 3)).1.0 (runs 5) 0 (3 ∷ []) wait_refines_example.1 five
      (omega arith)
