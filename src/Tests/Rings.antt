-- ===== src/Tests/Rings.antt =====
-- The ring of processes and the scheduler at work.
use horaci_os.Prelude.{ℕ, ◌≡◌, ◌<◌, ◌+◌, refl, [], ◌∷◌, ◌++◌, some, true, arith}
use horaci_os.RoundRobin.{
  RoundRobin, Node, node_at, max_nodes, find_free, calculate_quantum, queue, queue_first,
  queue_behind, dequeue, next, peek,
}
use horaci_os.RoundRobin
use horaci_os.RoundRobin.Ring.{Cell}
use horaci_os.RoundRobin.Refine.{Ring, next_expired}
use horaci_os.RoundRobin.Leave.{dequeue-Ring}
use horaci_os.RoundRobin.Search.{Counted}
use horaci_os.RoundRobin.Keep.{Idle, queue-Idle, queue-Ring}
use horaci_os.RoundRobin.Turns.{Cells, ticks, turns, queue_loses}
use horaci_os.ProcessTable.{Pcb, ready, blocked, zero_pcb, pcb_at, get_process_state, get_rsp}
use horaci_os.ProcessTable
use horaci_os.PointerStack
use horaci_os.Scheduler.{Kernel, switch, spins, pick}
use horaci_os.Scheduler.Pick.{with_ring, pick_ready, pick_spins}

some_room : 0 < max_nodes
unfolding max_nodes
some_room = omega arith

init-Idle : Idle {A = ℕ} RoundRobin.init
unfolding RoundRobin.init max_nodes
init-Idle = record { storage = refl; current_at = refl; last_at = refl }

-- Process 0, with priority 0, is queued in the empty ring.
abbrev one : RoundRobin ℕ
one = queue RoundRobin.init 0 0

abbrev first : Cell ℕ
first = record { index = 0; item = 0; quantum = calculate_quantum 0 }

one_lem : Ring one [] first [] × Counted one × (one.nodes ≡ 0 + 1) × (one.current_quantum ≡ 0)
unfolding RoundRobin.init
one_lem = queue-Idle RoundRobin.init 0 0 init-Idle (omega arith) some_room

-- Then process 1, with priority 2.
abbrev two : RoundRobin ℕ
two = queue one 1 2

abbrev second : Cell ℕ
second = record {
  index = find_free max_nodes one.node_buffer one.ptr;
  item = 1;
  quantum = calculate_quantum 2;
}

two_rooms : one.nodes + 1 < max_nodes
unfolding max_nodes
two_rooms = let e = one_lem.2 in omega arith

one_room : one.nodes < max_nodes
unfolding max_nodes
one_room = let e = one_lem.2 in omega arith

queue-Ring_example : Ring two [] first (second ∷ []) × Counted two × (two.nodes ≡ one.nodes + 1)
queue-Ring_example = queue-Ring one [] first [] 1 2 one_lem.0 one_lem.1 one_room

turn_start : two.current_quantum ≡ 0
unfolding queue queue_first queue_behind RoundRobin.init max_nodes
turn_start = refl

two_cells : Cells two (first ∷ second ∷ [])
two_cells = ([], first, second ∷ [], queue-Ring_example.0, refl)

turns_example :
    Cells (ticks 1 two) (second ∷ first ∷ [])
    × ((ticks 1 two).current_quantum ≡ 0)
    × (peek (ticks 1 two) ≡ some 1)
turns_example = turns two (first ∷ []) second [] two_cells turn_start (omega arith, tt)

second_then_first : Ring (next two) (second ∷ []) first [] × ((next two).current_quantum ≡ 0)
second_then_first =
    next_expired two [] first (second ∷ []) queue-Ring_example.0 (omega (arith, turn_start))

dequeue-Ring_example : Ring (dequeue (next two)) [] first []
dequeue-Ring_example = dequeue-Ring (next two) second [] first [] second_then_first.0

queue_loses_example :
    let r = queue two 2 0 in
    (new : Cell ℕ) × (new.item ≡ 2) × Cells r ([] ++ first ∷ new ∷ []) × (r.nodes ≡ one.nodes + 2)
queue_loses_example = queue_loses one [] first 1 2 2 0 one_lem.0 one_lem.1 two_rooms

-- Process 0 is blocked and process 1 is ready.
abbrev kernel : Kernel
kernel = record {
  processes =
      record zero_pcb { id = 0; state = blocked }
      ∷ record zero_pcb { id = 1; state = ready; current = 512 }
      ∷ [];
  round_robin = two;
  to_queue = PointerStack.init;
  irq_raised = true;
}

waits : get_process_state kernel.processes (pcb_at kernel.processes 0).id ≡ some blocked
unfolding get_process_state pcb_at ProcessTable.valid_process_id ProcessTable.max_process_count
waits = refl

is_ready : get_process_state kernel.processes (pcb_at kernel.processes 1).id ≡ some ready
unfolding get_process_state pcb_at ProcessTable.valid_process_id ProcessTable.max_process_count
is_ready = refl

pick_ready_example :
    pick 6 (with_ring kernel two)
    ≡ switch (get_rsp kernel.processes 1) (with_ring kernel (ticks 1 two))
pick_ready_example =
    pick_ready 4 kernel two (first ∷ []) second [] two_cells turn_start (omega arith, tt)
      (waits, tt) is_ready

pick_spins_example : pick 100 (with_ring kernel one) ≡ spins (with_ring kernel (ticks 100 one))
pick_spins_example = pick_spins 100 kernel one ([], first, [], one_lem.0, (waits, tt))
