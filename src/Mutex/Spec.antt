-- ===== src/Mutex/Spec.antt =====
-- What a mutex promises: it is free, or one process holds it and others wait in order. An operation
-- gives the next view and what it asks of the scheduler.
use horaci_os.Prelude.{ℕ, List, [], ◌∷◌, ◌++◌, length, ◌==◌, if◌then◌else◌}
use horaci_os.Services.{Services}

pub data View : Type 0 where
  free : View
  held : ℕ → List ℕ → View

pub data Effect : Type 0 where
  keeps : Effect
  blocks wakes : ℕ → Effect

abbrev pub perform : {S : Type 0} → Services S → Effect → S → S
perform k keeps s = s
perform k (blocks p) s = k.mark_process_as_blocked p s
perform k (wakes p) s = k.resume_process p s

-- The number of processes that wait.
abbrev pub waiting : View → ℕ
waiting free = 0
waiting (held o ws) = length ws

unfoldable pub lock : ℕ → View → View × Effect
lock me free = (held me [], keeps)
lock me (held o ws) = if o == me then (held o ws, keeps) else (held o (ws ++ me ∷ []), blocks me)

-- The mutex goes to the process that has waited longest.
unfoldable pub release : View → View × Effect
release free = (free, keeps)
release (held o []) = (free, keeps)
release (held o (w ∷ ws)) = (held w ws, wakes w)

unfoldable pub unlock : ℕ → View → View × Effect
unlock me free = (free, keeps)
unlock me (held o ws) = if o == me then release (held o ws) else (held o ws, keeps)
