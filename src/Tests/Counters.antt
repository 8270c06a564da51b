-- ===== src/Tests/Counters.antt =====
-- Two processes, when one has locked and loaded.
use horaci_os.Prelude.{ℕ, ◌<◌, ◌^◌, arith}
use horaci_os.Userland.Increments.{Shared, begins, increment, begun, later, turn, Runs}
use horaci_os.Userland.Increments.Exact.{all_rounds, IsExact, Runs-IsExact}

abbrev twice : ℕ → ℕ
twice p = 100000

abbrev locked : Shared
locked = increment 1 ((begins 2 twice).pc 1) (begins 2 twice)

abbrev loaded : Shared
loaded = increment 1 (locked.pc 1) locked

loads_it : Runs 2 twice loaded
loads_it = later (later begun (turn 1 (omega arith))) (turn 1 (omega arith))

few : all_rounds 2 twice < 2 ^ 32
unfolding all_rounds
few = omega arith

Runs-IsExact_example : IsExact 2 twice loaded
Runs-IsExact_example = Runs-IsExact {n = 2} {rounds = twice} {s = loaded} few loads_it
