-- ===== src/Userland/Philosophers.antt =====
-- The philosophers of Userland/SampleCodeModule/philosophers.c, and the program that hires them. A step is what a
-- process does up to its next system call on a mutex, that call included; a mutex does in it what Mutex/Spec says.
-- What is printed is left out.
pub mod Table
pub mod Calls
pub mod Unlock
pub mod Seats
pub mod Keep
pub mod Errands
pub mod Deadlock
use horaci_os.Prelude.{
  ℕ, zero, suc, ◌+◌, ◌-◌, ◌%◌, ◌^◌, ◌<◌, ◌≡◌, List, [], ◌∷◌, Bool, true, false, get_or, set,
  replicate, ltb, leb, ◌==◌, if◌then◌else◌, assign,
}
use horaci_os.Mutex.Spec.{View, free, held, Effect, keeps, blocks, wakes, lock, release, unlock}

-- MAX_PHILOSOPHERS.
unfoldable pub max_philosophers : ℕ
max_philosophers = 10

-- The chopsticks are the mutexes 0 to 9.
abbrev pub main_mutex : ℕ
main_mutex = 10

-- What the keyboard's process does behind `main_mutex`: for the second philosopher, `hire_first`, `lower` and `hire`;
-- `letGoPhilosopher`; `destroyAll`.
pub data Errand : Type 0 where
  hire_first lower hire let_go close : Errand

-- The places in the code that want a mutex. A philosopher has its number, and its right and left chopstick.
pub data Spot : Type 0 where
  errand : Errand → Spot
  arrival : Spot
  counting : ℕ → Spot
  first second fed : ℕ → ℕ → ℕ → Spot

-- Where a process stands: not started, or ended; at the keyboard; at the lock of a mutex, in its queue, and behind its
-- lock; between the unlocks after a meal; between the end of another philosopher and the next unlocks.
pub data Position : Type 0 where
  absent reads : Position
  to_lock in_line inside : Spot → Position
  puts_left : ℕ → ℕ → ℕ → Position
  leaves removed recounts : ℕ → Position

unfoldable pub first_stick : ℕ → ℕ → ℕ → ℕ
first_stick number right left = if (number % 2) == 1 then right else left

unfoldable pub second_stick : ℕ → ℕ → ℕ → ℕ
second_stick number right left = if (number % 2) == 1 then left else right

unfoldable pub wanted : Spot → ℕ
wanted (first number right left) = first_stick number right left
wanted (second number right left) = second_stick number right left
wanted x = main_mutex

-- An `int` is its 32-bit pattern.
pub record Dinner : Type 0 where
  pub philosophers_quantity : ℕ
  pub philosophers_assigned : ℕ
  pub philosophers_to_remove : ℕ
  pub philosophers : List ℕ
  pub flag_of_first : Bool
  pub flag_of_second : Bool
  pub mutexes : ℕ → View
  pub pc : ℕ → Position

-- `prepareTable` before its loop, run by process 0.
unfoldable pub prepare_table : Dinner
prepare_table = record {
  philosophers_quantity = 1;
  philosophers_assigned = 0;
  philosophers_to_remove = 0;
  philosophers = replicate max_philosophers 0;
  flag_of_first = true;
  flag_of_second = true;
  mutexes = λ m. free;
  pc = assign (λ p. absent) 0 reads;
}

unfoldable pub go : ℕ → Position → Dinner → Dinner
go p x s = record s { pc = assign s.pc p x }

unfoldable pub woken : Position → Position
woken (in_line t) = inside t
woken x = x

unfoldable pub settle : Effect → Dinner → Dinner
settle keeps s = s
settle (blocks p) s = s
settle (wakes w) s = go w (woken (s.pc w)) s

unfoldable pub next_place : Effect → Position → Position → Position
next_place keeps x y = x
next_place (wakes w) x y = x
next_place (blocks p) x y = y

unfoldable pub mutex_lock : ℕ → Spot → Dinner → Dinner
mutex_lock p t s =
    let (v, e) = lock p (s.mutexes (wanted t)) in
    go p (next_place e (inside t) (in_line t))
      (record s { mutexes = assign s.mutexes (wanted t) v })

-- The process goes on at `y`, and the mutex may go to another one.
unfoldable pub mutex_unlock : ℕ → ℕ → Position → Dinner → Dinner
mutex_unlock m p y s =
    let (v, e) = unlock p (s.mutexes m) in
    settle e (go p y (record s { mutexes = assign s.mutexes m v }))

unfoldable pub one_less : ℕ → ℕ
one_less n = (n + 2 ^ 32 - 1) % 2 ^ 32

unfoldable pub one_more : ℕ → ℕ
one_more n = (n + 1) % 2 ^ 32

-- `release_mutex_by_owner` on one mutex, and the end of a process, over the mutexes below `k`.
unfoldable pub released : ℕ → View → View × Effect
released p free = (free, keeps)
released p (held o ws) = if o == p then release (held o ws) else (held o ws, keeps)

unfoldable pub release_below : ℕ → ℕ → Dinner → Dinner
release_below zero p s = s
release_below (suc k) p s =
    let s' = release_below k p s in
    let (v, e) = released p (s'.mutexes k) in
    settle e (record s' { mutexes = assign s'.mutexes k v })

unfoldable pub end_process : ℕ → Dinner → Dinner
end_process p s = release_below (main_mutex + 1) p (go p absent s)

-- `hirePhilosopher` behind the lock; `new` is the process that `run` starts.
unfoldable pub hire_philosopher : ℕ → Dinner → Dinner
hire_philosopher new s =
    if leb max_philosophers s.philosophers_quantity
    then s
    else go new (to_lock arrival) (record s {
      philosophers_quantity = one_more s.philosophers_quantity;
      philosophers_assigned = one_more s.philosophers_assigned;
      philosophers = set s.philosophers s.philosophers_assigned new;
    })

unfoldable pub let_go_philosopher : Dinner → Dinner
let_go_philosopher s =
    if leb s.philosophers_quantity 2
    then s
    else record s { philosophers_to_remove = one_more s.philosophers_to_remove }

-- The loop of `destroyAll`, from index `i`.
unfoldable pub kill_from : ℕ → ℕ → List ℕ → Dinner → Dinner
kill_from zero i pids s = s
kill_from (suc rounds) i pids s = kill_from rounds (i + 1) pids (end_process (get_or pids i 0) s)

unfoldable pub obey : Errand → ℕ → Dinner → Dinner
obey hire_first new s = hire_philosopher new s
obey lower new s = record s { philosophers_quantity = one_less s.philosophers_quantity }
obey hire new s = hire_philosopher new s
obey let_go new s = let_go_philosopher s
obey close new s = kill_from s.philosophers_quantity 0 s.philosophers s

-- Where the keyboard's process goes on after an errand.
unfoldable pub follow : Errand → Position
follow hire_first = to_lock (errand lower)
follow lower = to_lock (errand hire)
follow hire = reads
follow let_go = reads
follow close = absent

-- `right` and `left` of the philosopher with a number, among so many.
unfoldable pub right_of : ℕ → ℕ → ℕ
right_of number quantity = number % quantity

unfoldable pub left_of : ℕ → ℕ → ℕ
left_of number quantity = (quantity + number - 1) % quantity

unfoldable pub sits : ℕ → ℕ → Position
sits number quantity = to_lock (first number (right_of number quantity) (left_of number quantity))

-- `removePhilosopher` up to the end of the process that goes.
unfoldable pub remove_philosopher : Dinner → Dinner
remove_philosopher s =
    let quantity = one_less s.philosophers_quantity in
    end_process (get_or s.philosophers quantity 0) (record s {
      philosophers_quantity = quantity;
      philosophers_to_remove = one_less s.philosophers_to_remove;
      philosophers_assigned = one_less s.philosophers_assigned;
    })

-- A step of process `p`, which stands at `x`. Who waits or has ended does nothing.
unfoldable pub philosopher : ℕ → ℕ → Position → Dinner → Dinner
philosopher p new absent s = s
philosopher p new reads s = s
philosopher p new (to_lock t) s = mutex_lock p t s
philosopher p new (in_line t) s = s
philosopher p new (inside (errand o)) s = mutex_unlock main_mutex p (follow o) (obey o new s)
philosopher p new (inside arrival) s =
    mutex_unlock main_mutex p (to_lock (counting s.philosophers_assigned)) s
philosopher p new (inside (counting number)) s =
    if ltb 0 s.philosophers_to_remove
    then remove_philosopher (go p (removed number) s)
    else mutex_unlock main_mutex p (sits number s.philosophers_quantity) s
philosopher p new (inside (first number right left)) s = go p (to_lock (second number right left)) s
philosopher p new (inside (second number right left)) s = go p (to_lock (fed number right left)) s
philosopher p new (inside (fed number right left)) s =
    mutex_unlock right p (puts_left number right left) s
philosopher p new (puts_left number right left) s = mutex_unlock left p (leaves number) s
philosopher p new (leaves number) s = mutex_unlock main_mutex p (to_lock (counting number)) s
philosopher p new (removed number) s = mutex_unlock main_mutex p (recounts number) s
philosopher p new (recounts number) s =
    mutex_unlock main_mutex p (sits number s.philosophers_quantity) s

-- The keys INC_PHILO, DEC_PHILO and QUIT.
pub data Command : Type 0 where
  inc_philo dec_philo quit : Command

-- The switch of `prepareTable`, by process `p`.
unfoldable pub key_pressed : ℕ → Command → Dinner → Dinner
key_pressed p inc_philo s =
    if s.flag_of_first
    then record s { flag_of_first = false }
    else if s.flag_of_second
    then go p (to_lock (errand hire_first)) (record s { flag_of_second = false })
    else go p (to_lock (errand hire)) s
key_pressed p dec_philo s = go p (to_lock (errand let_go)) s
key_pressed p quit s = go p (to_lock (errand close)) s

-- What may happen next among `n` processes: one takes a step, with a new process at hand for `run`; or a key is read.
pub data Moves (n : ℕ) (s : Dinner) : Dinner → Type 0 where
  turn :
      (p new : ℕ) → p < n → new < n → s.pc new ≡ absent → Moves n s (philosopher p new (s.pc p) s)
  key : (p : ℕ) (c : Command) → p < n → s.pc p ≡ reads → Moves n s (key_pressed p c s)
