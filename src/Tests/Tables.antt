-- ===== src/Tests/Tables.antt =====
-- A process table that is nearly full.
use horaci_os.Prelude.{
  ℕ, suc, zero, ◌<◌, ◌≡◌, ◌≢◌, refl, List, [], ◌∷◌, none, some, true, false, replicate, length,
  arith, get_or-replicate, ap,
}
use horaci_os.ProcessTable.{Pcb, finished, zero_pcb, pcb_at, same_state, max_process_count}
use horaci_os.RoundRobin
use horaci_os.PointerStack
use horaci_os.Directory
use horaci_os.Mutex.{fresh}
use horaci_os.MutexDirectory
use horaci_os.Scheduler.Provide.{Allocator}
use horaci_os.Userland.{codes}
use horaci_os.Processes.{
  Processes, spins, done, unlock, lock_named, has_mutex, get_available_container,
}
use horaci_os.Processes.Container.{taken, get_available_container_lem}

-- Only the first control block is free.
abbrev table : List Pcb
table = record zero_pcb { state = finished } ∷ replicate 49 zero_pcb

size : length table ≡ max_process_count
unfolding max_process_count
size = refl

inside : 0 < max_process_count
unfolding max_process_count
inside = omega arith

room : 49 ≢ max_process_count
unfolding max_process_count
room = omega arith

-- No memory, and no slot for a mutex, so that there is none.
abbrev poor : Allocator ℕ
poor = record { malloc = λ n h. (none, h); free_handler = λ p h. h }

abbrev nearly_full : Processes ℕ
nearly_full = record {
  mutexes = record {
    directory = record { slots = []; free_index = none };
    mutex_at = λ (p : ℕ). fresh [];
    sys = (
      record {
        processes = table;
        round_robin = RoundRobin.init;
        to_queue = PointerStack.init;
        irq_raised = false;
      },
      0,
    );
  };
  process_pointer = some 0;
  process_count = 49;
}

locks : lock_named poor (codes "process_mutex") nearly_full ≡ (none, nearly_full)
unfolding lock_named MutexDirectory.mutex_create MutexDirectory.create_new
    MutexDirectory.get_mutex_index Directory.get_index Directory.index_from
    MutexDirectory.mutex_lock
locks = refl

mine : has_mutex poor none nearly_full ≡ true
unfolding has_mutex
mine = refl

get_available_container_lem_example :
    ((i : ℕ)
      → i < max_process_count
      → i ≢ 0
      → same_state (pcb_at table i).state finished ≡ true
      → (j : ℕ) × (same_state (pcb_at table j).state finished ≡ true)
        × (j ≢ 0)
        × (get_available_container poor max_process_count nearly_full
            ≡ done 0 (
                unlock poor none (record (taken poor none nearly_full.mutexes 0 49) {
                  process_pointer = some j;
                  process_count = 50;
                }))))
    × (((i : ℕ)
          → i < max_process_count
          → i ≢ 0
          → same_state (pcb_at table i).state finished ≡ false)
        → (fuel : ℕ)
        → get_available_container poor fuel nearly_full
          ≡ spins (taken poor none nearly_full.mutexes 0 49))
get_available_container_lem_example =
    get_available_container_lem poor none nearly_full.mutexes 0 49 nearly_full locks mine room size
      inside

others :
    (i : ℕ) → i < max_process_count → i ≢ 0 → same_state (pcb_at table i).state finished ≡ false
unfolding pcb_at
others zero lt ne = absurd (ne refl)
others (suc i) lt ne =
    ap (λ (p : Pcb). same_state p.state finished) (get_or-replicate 49 i zero_pcb)

-- So here the loop never ends.
hangs :
    (fuel : ℕ)
    → get_available_container poor fuel nearly_full
      ≡ spins (taken poor none nearly_full.mutexes 0 49)
hangs =
    (get_available_container_lem poor none nearly_full.mutexes 0 49 nearly_full locks mine room size
        inside).1
      others
