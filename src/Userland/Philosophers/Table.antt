-- ===== src/Userland/Philosophers/Table.antt =====
-- What holds at the table while no philosopher is sent away.
use horaci_os.Prelude.{
  ℕ, ◌+◌, ◌%◌, ◌<◌, ◌≤◌, ◌≡◌, ◌⊎◌, Bool, true, false, not, ◌&&◌, ◌||◌, ◌==◌, if◌then◌else◌,
}
use horaci_os.Userland.Philosophers.{
  hire_first, lower, hire, let_go, close, Spot, errand, arrival, counting, first, second, fed,
  Position, absent, reads, to_lock, in_line, inside, puts_left, leaves, removed, recounts, wanted,
  first_stick, second_stick, main_mutex, Dinner,
}

-- The mutexes that a process has when it comes to a place.
unfoldable pub carried : ℕ → Spot → Bool
carried m (second n r l) = first_stick n r l == m
carried m (fed n r l) = r == m || l == m
carried m t = false

unfoldable pub has : ℕ → Position → Bool
has m (to_lock t) = carried m t
has m (in_line t) = carried m t
has m (inside t) = if wanted t == m then true else carried m t
has m (puts_left n r l) = main_mutex == m || (l == m && not (r == m))
has m (leaves n) = main_mutex == m
has m (removed n) = main_mutex == m
has m x = false

unfoldable pub lined : ℕ → Position → Bool
lined m (in_line t) = wanted t == m
lined m x = false

unfoldable pub present : Position → Bool
present absent = false
present x = true

-- Chopsticks are taken by rising rank: the odd ones, 0, the other even ones.
unfoldable pub rank : ℕ → ℕ
rank m = if m == main_mutex then 3 else if (m % 2) == 1 then 0 else if m == 0 then 1 else 2

-- A philosopher's chopsticks: the first is not of a higher rank than the second.
pub record Seat (assigned n r l : ℕ) : Type 0 where
  pub numbered : (1 ≤ n) × (n ≤ assigned)
  pub sticks : (r < 10) × (l < 10)
  pub rising :
      (first_stick n r l ≡ second_stick n r l)
      ⊎ (rank (first_stick n r l) < rank (second_stick n r l))

-- What holds of a place when so many philosophers have been hired.
abbrev pub SpotFits : ℕ → Spot → Type 0
SpotFits a (errand hire_first) = Unit {0}
SpotFits a (errand lower) = Unit {0}
SpotFits a (errand hire) = Unit {0}
SpotFits a (errand let_go) = ⊥
SpotFits a (errand close) = ⊥
SpotFits a arrival = 1 ≤ a
SpotFits a (counting n) = (1 ≤ n) × (n ≤ a)
SpotFits a (first n r l) = Seat a n r l
SpotFits a (second n r l) = Seat a n r l
SpotFits a (fed n r l) = Seat a n r l

abbrev pub Fits : ℕ → Position → Type 0
Fits a absent = Unit {0}
Fits a reads = Unit {0}
Fits a (to_lock t) = SpotFits a t
Fits a (in_line t) = SpotFits a t
Fits a (inside t) = SpotFits a t
Fits a (puts_left n r l) = Seat a n r l
Fits a (leaves n) = (1 ≤ n) × (n ≤ a)
Fits a (removed n) = ⊥
Fits a (recounts n) = ⊥

-- The keyboard's process between the second call and the correction of the quantity.
unfoldable pub spot_owes : Spot → Bool
spot_owes (errand hire_first) = true
spot_owes (errand lower) = true
spot_owes t = false

unfoldable pub owes : Position → Bool
owes (to_lock t) = spot_owes t
owes (in_line t) = spot_owes t
owes (inside t) = spot_owes t
owes x = false

unfoldable pub spot_keys : Spot → Bool
spot_keys (errand o) = true
spot_keys t = false

unfoldable pub keys : Position → Bool
keys reads = true
keys (to_lock t) = spot_keys t
keys (in_line t) = spot_keys t
keys (inside t) = spot_keys t
keys x = false

-- What holds of process `p` of `n` at a place, with `a` hired and `q` at the table; `flag` tells that no second
-- philosopher has been called for. Process 0 alone reads the keyboard, and as long as the quantity is to be lowered,
-- there is one to spare.
pub record Person (n a q : ℕ) (flag : Bool) (p : ℕ) (x : Position) : Type 0 where
  pub here : present x ≡ true → p < n
  pub fits : Fits a x
  pub reader : keys x ≡ true → p ≡ 0
  pub owing : owes x ≡ true → (a + 1 ≤ q) × (flag ≡ false)

-- With `a` hired, `q` at the table and `d` to go.
pub record Numbers (a q d : ℕ) (flag : Bool) : Type 0 where
  pub nobody_leaves : d ≡ 0
  pub quantity : q ≤ 10
  pub enough : a ≤ q
  pub spare : flag ≡ true → a + 1 ≤ q

abbrev pub Counts : Dinner → Type 0
Counts s =
    Numbers s.philosophers_assigned s.philosophers_quantity s.philosophers_to_remove
      s.flag_of_second

abbrev pub People : ℕ → Dinner → Type 0
People n s =
    (p : ℕ) → Person n s.philosophers_assigned s.philosophers_quantity s.flag_of_second p (s.pc p)
