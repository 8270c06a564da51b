-- ===== src/Userland/Increments.antt =====
-- `increment_variable_with_mutex` of Userland/SampleCodeModule/tests.c, run by several processes on one variable and
-- one mutex, which does what Mutex/Spec says. The increment is a load and a store. The other mutex, which only one of
-- the processes takes, and what is printed are left out.
mod Guard
pub mod Exact
use horaci_os.Prelude.{ℕ, zero, suc, ◌+◌, ◌%◌, ◌^◌, ◌<◌, ◌==◌, if◌then◌else◌, ltb, assign}
use horaci_os.Mutex.Spec.{View, free, Effect, keeps, blocks, wakes, lock, unlock}

-- Where a process stands, with the rounds that are left: at the head of the loop, in the queue of the mutex, at the
-- load, at the store, at the unlock, behind the loop.
pub data Point : Type 0 where
  loops in_line loads : ℕ → Point
  stores : ℕ → ℕ → Point
  unlocks : ℕ → Point
  done : Point

-- `value` is the 32-bit variable at which `p` of the source points.
pub record Shared : Type 0 where
  pub value : ℕ
  pub var_mutex : View
  pub pc : ℕ → Point

unfoldable pub go : ℕ → Point → Shared → Shared
go p x s = record s { pc = assign s.pc p x }

unfoldable pub woken : Point → Point
woken (in_line k) = loads k
woken x = x

unfoldable pub settle : Effect → Shared → Shared
settle (wakes w) s = go w (woken (s.pc w)) s
settle keeps s = s
settle (blocks p) s = s

unfoldable pub behind : Effect → ℕ → Point
behind keeps k = loads k
behind (wakes w) k = loads k
behind (blocks p) k = in_line k

-- A step of process `p`, which stands at `x`.
unfoldable pub increment : ℕ → Point → Shared → Shared
increment p (loops zero) s = go p done s
increment p (loops (suc k)) s =
    let (v, e) = lock p s.var_mutex in go p (behind e k) (record s { var_mutex = v })
increment p (in_line k) s = s
increment p (loads k) s = go p (stores k s.value) s
increment p (stores k v) s = go p (unlocks k) (record s { value = (v + 1) % 2 ^ 32 })
increment p (unlocks k) s =
    let (v, e) = unlock p s.var_mutex in settle e (go p (loops k) (record s { var_mutex = v }))
increment p done s = s

-- Each of `n` processes starts with its own number of rounds.
unfoldable pub begins : ℕ → (ℕ → ℕ) → Shared
begins n rounds = record {
  value = 0;
  var_mutex = free;
  pc = λ p. if ltb p n then loops (rounds p) else done;
}

pub data Turns (n : ℕ) (s : Shared) : Shared → Type 0 where
  turn : (p : ℕ) → p < n → Turns n s (increment p (s.pc p) s)

-- What the processes reach, in any order of their steps.
pub data Runs (n : ℕ) (rounds : ℕ → ℕ) : Shared → Type 0 where
  begun : Runs n rounds (begins n rounds)
  later : {s t : Shared} → Runs n rounds s → Turns n s t → Runs n rounds t
