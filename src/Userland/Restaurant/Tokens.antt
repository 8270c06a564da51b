-- ===== src/Userland/Restaurant/Tokens.antt =====
-- What holds in the restaurant while nobody is sent to rest and it is not closed.
use horaci_os.Prelude.{ℕ, ◌+◌, ◌<◌, ◌≡◌, List, Bool, true, false, Queued, total}
use horaci_os.Mutex.Spec.{View, free, held}
use horaci_os.Userland.Restaurant.{
  cook, serve, call, Task, work, order, Pc, absent, in_queue, dying, leaving, changes, signals,
  hands, kills, to_lock, in_line, inside, unlocks, Restaurant,
}

-- A chef that has taken a tray from `full` and not yet filled it, or a waiter that has emptied one and not yet
-- signalled it.
unfoldable pub tray : Pc → ℕ
tray (to_lock (work cook)) = 1
tray (in_line (work cook)) = 1
tray (inside (work cook)) = 1
tray (changes cook) = 1
tray (signals serve) = 1
tray x = 0

-- A waiter that has taken a dish from `empty` and not yet lowered `plates`, or a chef that has raised it and not yet
-- signalled.
unfoldable pub dish : Pc → ℕ
dish (to_lock (work serve)) = 1
dish (in_line (work serve)) = 1
dish (inside (work serve)) = 1
dish (changes serve) = 1
dish (signals cook) = 1
dish x = 0

-- Behind the lock of the mutex, and before its unlock.
unfoldable pub inner : Pc → Bool
inner (inside t) = true
inner (changes j) = true
inner (signals j) = true
inner (unlocks t) = true
inner x = false

unfoldable pub waits_full : Pc → Bool
waits_full (in_queue cook) = true
waits_full x = false

unfoldable pub waits_empty : Pc → Bool
waits_empty (in_queue serve) = true
waits_empty x = false

unfoldable pub lined : Pc → Bool
lined (in_line t) = true
lined x = false

unfoldable pub calm_task : Task → Bool
calm_task (work j) = true
calm_task (order (call j)) = true
calm_task (order o) = false

-- Nobody is at an order to rest or to close, or at the end of its work.
unfoldable pub calm : Pc → Bool
calm (to_lock t) = calm_task t
calm (in_line t) = calm_task t
calm (inside t) = calm_task t
calm (unlocks t) = calm_task t
calm (dying j) = false
calm (leaving j) = false
calm (hands j victim) = false
calm (kills j victim) = false
calm x = true

unfoldable pub present : Pc → Bool
present absent = false
present x = true

abbrev pub Holder : ℕ → View → Type 0
Holder p free = ⊥
Holder p (held o ws) = o ≡ p

abbrev pub Line : (ℕ → Pc) → View → Type 0
Line pc free = Unit {0}
Line pc (held o ws) = Queued lined pc ws

-- Who stands where, of `n` processes: the queues hold those that wait, and only the holder of the mutex is behind its
-- lock.
pub record Orderly (n : ℕ) (pc : ℕ → Pc) (qf qe : List ℕ) (v : View) : Type 0 where
  pub q_full : Queued waits_full pc qf
  pub q_empty : Queued waits_empty pc qe
  pub line : Line pc v
  pub alone : (p : ℕ) → inner (pc p) ≡ true → Holder p v
  pub peace : (p : ℕ) → calm (pc p) ≡ true
  pub known : (p : ℕ) → present (pc p) ≡ true → p < n

-- Nobody is to rest, and each tray and each dish is counted once.
pub record Counted (n : ℕ) (s : Restaurant) : Type 0 where
  pub chefs_stay : s.chefs_to_die ≡ 0
  pub waiters_stay : s.waiters_to_die ≡ 0
  pub trays : s.full.count + total tray n s.pc + s.plates ≡ 20
  pub dishes : s.empty.count + total dish n s.pc ≡ s.plates

abbrev pub Ordered : ℕ → Restaurant → Type 0
Ordered n s = Orderly n s.pc s.full.waiting s.empty.waiting s.mutex_a
