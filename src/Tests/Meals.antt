-- ===== src/Tests/Meals.antt =====
-- The restaurant next_place its first order.
use horaci_os.Prelude.{refl, arith}
use horaci_os.Userland.Restaurant.{
  Restaurant, opening, call, cook, order, to_lock, go, act, key, turn,
}
use horaci_os.Userland.Restaurant.Service.{Serves, opened, later, Safe, Serves-Safe}

-- A chef is to be called.
abbrev ordered : Restaurant
ordered = go 0 (to_lock (order (call cook))) opening

-- The keyboard's process has the mutex.
abbrev entered : Restaurant
entered = act 0 1 (ordered.pc 0) ordered

enters : Serves 3 entered
unfolding opening go
enters =
    later (later opened (key 0 (call cook) (omega arith) refl) tt)
      (turn 0 1 (omega arith) (omega arith) refl) tt

Serves-Safe_example : Safe entered
Serves-Safe_example = Serves-Safe {n = 3} (omega arith) enters
