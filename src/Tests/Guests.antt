-- ===== src/Tests/Guests.antt =====
-- The table when the first two calls have come.
use horaci_os.Prelude.{refl, arith}
use horaci_os.Userland.Philosophers.{
  Dinner, prepare_table, inc_philo, key_pressed, philosopher, key, turn, go,
}
use horaci_os.Userland.Philosophers.Deadlock.{Dines, laid, later, Peaceful, Dines-Peaceful}

abbrev called : Dinner
called = key_pressed 0 inc_philo (key_pressed 0 inc_philo prepare_table)

-- The keyboard's process has the mutex.
abbrev entered : Dinner
entered = philosopher 0 1 (called.pc 0) called

enters : Dines 3 entered
unfolding prepare_table key_pressed go
enters =
    later
      (later (later laid (key 0 inc_philo (omega arith) refl) tt)
        (key 0 inc_philo (omega arith) refl) tt)
      (turn 0 1 (omega arith) (omega arith) refl) tt

Dines-Peaceful_example : Peaceful entered
Dines-Peaceful_example = Dines-Peaceful {n = 3} (omega arith) enters
