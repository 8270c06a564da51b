-- ===== src/Semaphore/Spec.antt =====
-- What a semaphore promises: a count, and processes that wait in order. An operation gives the next
-- count and queue, and what it asks of the scheduler.
use horaci_os.Prelude.{ℕ, zero, suc, List, [], ◌∷◌, ◌++◌}
use horaci_os.Mutex.Spec.{Effect, keeps, blocks, wakes}

unfoldable pub wait : ℕ → ℕ → List ℕ → ℕ × List ℕ × Effect
wait me zero ws = (zero, ws ++ me ∷ [], blocks me)
wait me (suc n) ws = (n, ws, keeps)

unfoldable pub signal : ℕ → List ℕ → ℕ × List ℕ × Effect
signal n [] = (suc n, [], keeps)
signal n (w ∷ ws) = (n, ws, wakes w)
