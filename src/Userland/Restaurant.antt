-- ===== src/Userland/Restaurant.antt =====
-- The restaurant of Userland/SampleCodeModule/prodcons_sem.c: chefs fill trays, waiters empty them, and the program
-- that reads the keyboard calls them and sends them to rest. A step is one system call, or what a process does to the
-- shared variables between two of them; a semaphore and the mutex do in it what Semaphore/Spec and Mutex/Spec say.
-- What is printed is left out.
pub mod Tokens
pub mod Places
pub mod Calls
pub mod Keep
pub mod Service
use horaci_os.Prelude.{
  ◌≡◌, ◌<◌, ℕ, zero, suc, ◌+◌, ◌-◌, ◌%◌, ◌^◌, List, [], ◌∷◌, Bool, true, false, get_or, set,
  replicate, ltb, leb, ◌==◌, if◌then◌else◌, assign,
}
use horaci_os.Mutex.Spec.{View, free, held, Effect, keeps, blocks, wakes, lock, release, unlock}
use horaci_os.Semaphore.Spec.{wait, signal}

-- MAX_PRODCONS and TRAYS_QTY.
unfoldable pub max_prodcons : ℕ
max_prodcons = 10

unfoldable pub trays_qty : ℕ
trays_qty = 20

pub data Job : Type 0 where
  cook serve : Job

-- The commands of the keyboard: `callChef`, `callWaiter`, `restChef`, `restWaiter`, and the end.
pub data Order : Type 0 where
  call rest : Job → Order
  close : Order

pub data Task : Type 0 where
  work : Job → Task
  order : Order → Task

-- Where a process stands.
pub data Pc : Type 0 where
  -- not started, or killed; at the keyboard
  absent reads : Pc
  -- in `chef` and `waiter`: at the wait for a semaphore, in its queue, at the signal before the end, at the count of
  -- the suicide, at the change of `plates`, at the signal of the other semaphore
  start in_queue dying leaving changes signals : Job → Pc
  -- in the suicide, with the process to be killed: at the unlock, at the kill
  hands kills : Job → ℕ → Pc
  -- at the lock, in the queue of the mutex, behind the lock, at the unlock
  to_lock in_line inside unlocks : Task → Pc

pub record Sem : Type 0 where
  pub count : ℕ
  pub waiting : List ℕ

-- An `int` is its 32-bit pattern.
pub record Restaurant : Type 0 where
  pub full : Sem
  pub empty : Sem
  pub mutex_a : View
  pub plates : ℕ
  pub chefs_qty : ℕ
  pub waiters_qty : ℕ
  pub chefs_to_die : ℕ
  pub waiters_to_die : ℕ
  pub chefs : List ℕ
  pub waiters : List ℕ
  pub pc : ℕ → Pc

-- `prodcons_restaurant` before its loop, run by process 0.
unfoldable pub opening : Restaurant
opening = record {
  full = record { count = trays_qty; waiting = [] };
  empty = record { count = 0; waiting = [] };
  mutex_a = free;
  plates = 0;
  chefs_qty = 0;
  waiters_qty = 0;
  chefs_to_die = 0;
  waiters_to_die = 0;
  chefs = replicate max_prodcons 0;
  waiters = replicate max_prodcons 0;
  pc = assign (λ p. absent) 0 reads;
}

unfoldable pub one_less : ℕ → ℕ
one_less n = (n + 2 ^ 32 - 1) % 2 ^ 32

unfoldable pub one_more : ℕ → ℕ
one_more n = (n + 1) % 2 ^ 32

unfoldable pub go : ℕ → Pc → Restaurant → Restaurant
go p x s = record s { pc = assign s.pc p x }

-- Where a process goes on that is woken. One that has been killed stays so.
unfoldable pub woken : Pc → Pc
woken absent = absent
woken (in_queue j) = to_lock (work j)
woken (in_line t) = inside t
woken x = x

unfoldable pub settle : Effect → Restaurant → Restaurant
settle keeps s = s
settle (blocks p) s = s
settle (wakes w) s = go w (woken (s.pc w)) s

unfoldable pub next_place : Effect → Pc → Pc → Pc
next_place keeps x y = x
next_place (wakes w) x y = x
next_place (blocks p) x y = y

unfoldable pub wait_full : ℕ → Restaurant → Restaurant
wait_full p s =
    let (n, ws, e) = wait p s.full.count s.full.waiting in
    go p (next_place e (to_lock (work cook)) (in_queue cook))
      (record s { full = record { count = n; waiting = ws } })

unfoldable pub wait_empty : ℕ → Restaurant → Restaurant
wait_empty p s =
    let (n, ws, e) = wait p s.empty.count s.empty.waiting in
    go p (next_place e (to_lock (work serve)) (in_queue serve))
      (record s { empty = record { count = n; waiting = ws } })

unfoldable pub signal_full : Restaurant → Restaurant
signal_full s =
    let (n, ws, e) = signal s.full.count s.full.waiting in
    settle e (record s { full = record { count = n; waiting = ws } })

unfoldable pub signal_empty : Restaurant → Restaurant
signal_empty s =
    let (n, ws, e) = signal s.empty.count s.empty.waiting in
    settle e (record s { empty = record { count = n; waiting = ws } })

unfoldable pub lock_mutex : ℕ → Task → Restaurant → Restaurant
lock_mutex p t s =
    let (v, e) = lock p s.mutex_a in
    go p (next_place e (inside t) (in_line t)) (record s { mutex_a = v })

-- The process goes on at `x`, and the mutex may go to another one.
unfoldable pub unlock_mutex : ℕ → Pc → Restaurant → Restaurant
unlock_mutex p x s = let (v, e) = unlock p s.mutex_a in settle e (go p x (record s { mutex_a = v }))

-- What the end of a process does to the mutex: `release_mutex_by_owner`.
unfoldable pub released : ℕ → View → View × Effect
released p free = (free, keeps)
released p (held o ws) = if o == p then release (held o ws) else (held o ws, keeps)

unfoldable pub end_process : ℕ → Restaurant → Restaurant
end_process p s =
    let (v, e) = released p s.mutex_a in settle e (go p absent (record s { mutex_a = v }))

-- `callChef` and `callWaiter` behind the lock; `new` is the process that `run` starts.
unfoldable pub call_chef : ℕ → Restaurant → Restaurant
call_chef new s =
    if leb max_prodcons s.chefs_qty
    then s
    else go new (start cook)
        (record s { chefs = set s.chefs s.chefs_qty new; chefs_qty = one_more s.chefs_qty })

unfoldable pub call_waiter : ℕ → Restaurant → Restaurant
call_waiter new s =
    if leb max_prodcons s.waiters_qty
    then s
    else go new (start serve) (record s {
      waiters = set s.waiters s.waiters_qty new;
      waiters_qty = one_more s.waiters_qty;
    })

unfoldable pub rest_chef : Restaurant → Restaurant
rest_chef s = if s.chefs_qty == 0 then s else record s { chefs_to_die = one_more s.chefs_to_die }

unfoldable pub rest_waiter : Restaurant → Restaurant
rest_waiter s =
    if s.waiters_qty == 0 then s else record s { waiters_to_die = one_more s.waiters_to_die }

-- The two loops of `terminateAll`, from index `i`.
unfoldable pub kill_from : ℕ → ℕ → List ℕ → Restaurant → Restaurant
kill_from zero i pids s = s
kill_from (suc rounds) i pids s = kill_from rounds (i + 1) pids (end_process (get_or pids i 0) s)

unfoldable pub terminate_all : Restaurant → Restaurant
terminate_all s = kill_from s.waiters_qty 0 s.waiters (kill_from s.chefs_qty 0 s.chefs s)

unfoldable pub obey : Order → ℕ → Restaurant → Restaurant
obey (call cook) new s = call_chef new s
obey (call serve) new s = call_waiter new s
obey (rest cook) new s = rest_chef s
obey (rest serve) new s = rest_waiter s
obey close new s = terminate_all s

-- A step of `chef`.
unfoldable pub chef : ℕ → Pc → Restaurant → Restaurant
chef p (start j) s = wait_full p s
chef p (inside t) s = go p (if ltb 0 s.chefs_to_die then dying cook else changes cook) s
chef p (dying j) s = go p (leaving cook) (signal_full s)
chef p (leaving j) s =
    go p (hands cook (get_or s.chefs (one_less s.chefs_qty) 0))
      (record s { chefs_qty = one_less s.chefs_qty; chefs_to_die = one_less s.chefs_to_die })
chef p (hands j victim) s = unlock_mutex p (kills cook victim) s
chef p (kills j victim) s = end_process victim (go p (changes cook) s)
chef p (changes j) s = go p (signals cook) (record s { plates = one_more s.plates })
chef p (signals j) s = go p (unlocks (work cook)) (signal_empty s)
chef p (unlocks t) s = unlock_mutex p (start cook) s
chef p x s = s

-- A step of `waiter`.
unfoldable pub waiter : ℕ → Pc → Restaurant → Restaurant
waiter p (start j) s = wait_empty p s
waiter p (inside t) s = go p (if ltb 0 s.waiters_to_die then dying serve else changes serve) s
waiter p (dying j) s = go p (leaving serve) (signal_empty s)
waiter p (leaving j) s =
    go p (hands serve (get_or s.waiters (one_less s.waiters_qty) 0)) (record s {
      waiters_qty = one_less s.waiters_qty;
      waiters_to_die = one_less s.waiters_to_die;
    })
waiter p (hands j victim) s = unlock_mutex p (kills serve victim) s
waiter p (kills j victim) s = end_process victim (go p (changes serve) s)
waiter p (changes j) s = go p (signals serve) (record s { plates = one_less s.plates })
waiter p (signals j) s = go p (unlocks (work serve)) (signal_full s)
waiter p (unlocks t) s = unlock_mutex p (start serve) s
waiter p x s = s

unfoldable pub staff : Job → ℕ → Pc → Restaurant → Restaurant
staff cook p x s = chef p x s
staff serve p x s = waiter p x s

-- A step of process `p`, which stands at `x`. Who waits or has ended does nothing; the end of the program is that of
-- process `p` after `terminateAll` and the unlock.
unfoldable pub act : ℕ → ℕ → Pc → Restaurant → Restaurant
act p new (start j) s = staff j p (start j) s
act p new (dying j) s = staff j p (dying j) s
act p new (leaving j) s = staff j p (leaving j) s
act p new (hands j victim) s = staff j p (hands j victim) s
act p new (kills j victim) s = staff j p (kills j victim) s
act p new (changes j) s = staff j p (changes j) s
act p new (signals j) s = staff j p (signals j) s
act p new (to_lock t) s = lock_mutex p t s
act p new (inside (work j)) s = staff j p (inside (work j)) s
act p new (inside (order o)) s = go p (unlocks (order o)) (obey o new s)
act p new (unlocks (work j)) s = staff j p (unlocks (work j)) s
act p new (unlocks (order close)) s = unlock_mutex p absent s
act p new (unlocks (order o)) s = unlock_mutex p reads s
act p new x s = s

-- What may happen next: a process takes a step, with a new process at hand for `run`; or a key is read.
pub data Step (n : ℕ) (s : Restaurant) : Restaurant → Type 0 where
  turn : (p new : ℕ) → p < n → new < n → s.pc new ≡ absent → Step n s (act p new (s.pc p) s)
  key : (p : ℕ) (o : Order) → p < n → s.pc p ≡ reads → Step n s (go p (to_lock (order o)) s)
