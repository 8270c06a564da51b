-- ===== src/Scheduler.antt =====
-- The scheduler (Kernel/scheduler.c) and the functions of Kernel/process.c that block and wake
-- processes. `_force_irq00`, the last statement of the functions that call it, is a flag that the
-- timer's handler finds raised; the handler calls `short_term_scheduling`.
pub mod Pick
pub mod Provide
use horaci_os.Prelude.{
  ℕ, zero, suc, ◌+◌, List, Option, none, some, Bool, true, false, ◌==◌, if◌then◌else◌,
}
use horaci_os.WaitQueue.{no_pid}
use horaci_os.RoundRobin.{RoundRobin}
use horaci_os.RoundRobin
use horaci_os.PointerStack.{PointerStack}
use horaci_os.PointerStack
use horaci_os.ProcessTable.{
  Pcb, ProcessState, ready, blocked, finished, pcb_at, change_process_state, get_process_state,
  process_has_finished, get_rsp, set_rsp,
}

-- The static variables that scheduling works on. `to_queue` and the ring hold indices of control
-- blocks.
pub record Kernel : Type 0 where
  pub processes : List Pcb
  pub round_robin : RoundRobin ℕ
  pub to_queue : PointerStack ℕ
  pub irq_raised : Bool

unfoldable pub get_current_pid : Kernel → ℕ
get_current_pid k = elim (RoundRobin.peek k.round_robin) [
  | none ↦ no_pid
  | some p ↦ (pcb_at k.processes p).id
]

unfoldable pub mark_process_as_blocked : ℕ → Kernel → Kernel
mark_process_as_blocked pid k =
    let k' = record k { processes = (change_process_state k.processes pid blocked).1 } in
    if get_current_pid k' == pid then record k' { irq_raised = true } else k'

unfoldable pub resume_process : ℕ → Kernel → Kernel
resume_process pid k = record k { processes = (change_process_state k.processes pid ready).1 }

-- A new process goes under the one on top of the stack.
unfoldable pub enqueue_process : ℕ → Kernel → Kernel
enqueue_process p k =
    let (prev, rest) : Option ℕ × PointerStack ℕ =
      (if PointerStack.is_empty k.to_queue
        then (none, k.to_queue)
        else PointerStack.pop k.to_queue) in
    let pushed = (PointerStack.push rest (some p)).1 in
    record k {
      to_queue = elim prev [ none ↦ pushed | some q ↦ (PointerStack.push pushed (some q)).1 ];
    }

-- The loop of `true_enqueue_process`, on fuel.
unfoldable pub drain : ℕ → Kernel → Kernel
drain zero k = k
drain (suc fuel) k =
    let (top, rest) = PointerStack.pop k.to_queue in
    elim top [
      | none ↦ record k { to_queue = rest }
      | some p ↦ drain fuel (record k {
        to_queue = rest;
        round_robin = RoundRobin.queue k.round_robin p (pcb_at k.processes p).priority;
      })
    ]

-- Each round pops a pointer, so the number of pointers and one more round are enough.
unfoldable pub true_enqueue_process : Kernel → Kernel
unfolding drain
true_enqueue_process k = drain (PointerStack.count k.to_queue + 1) k

unfoldable pub scheduled_processes : Kernel → ℕ
scheduled_processes k = RoundRobin.amount k.round_robin + PointerStack.count k.to_queue

-- What `short_term_scheduling` comes to: it returns the stack pointer of a process, or makes the
-- first process by `create_ghost_process`. `spins` is a loop that has run out of fuel.
pub data Choice : Type 0 where
  switch : ℕ → Kernel → Choice
  ghost : Kernel → Choice
  spins : Kernel → Choice

-- The loop that looks for a process that can run, on fuel.
unfoldable pub pick : ℕ → Kernel → Choice
pick zero k = spins k
pick (suc fuel) k = elim (RoundRobin.peek k.round_robin) [
  | none ↦ ghost k
  | some p ↦ elim (get_process_state k.processes (pcb_at k.processes p).id) [
    | some blocked ↦ pick fuel (record k { round_robin = RoundRobin.next k.round_robin })
    | some finished ↦ pick fuel (record k { round_robin = RoundRobin.dequeue k.round_robin })
    | some ready ↦ switch (get_rsp k.processes p) k
    | none ↦ switch (get_rsp k.processes p) k
  ]
]

-- The stack pointer of the process that was interrupted is kept, unless it has finished.
unfoldable pub save_rsp : ℕ → ℕ → Kernel → Kernel
save_rsp p rsp k =
    if process_has_finished k.processes (pcb_at k.processes p).id
    then k
    else record k { processes = set_rsp k.processes p rsp }

unfoldable pub short_term_scheduling : ℕ → ℕ → Kernel → Choice
short_term_scheduling fuel rsp k =
    let k₁ = true_enqueue_process (record k { irq_raised = false }) in
    elim (RoundRobin.peek k₁.round_robin) [
      | none ↦ ghost k₁
      | some p ↦
          let k₂ = save_rsp p rsp k₁ in
          pick fuel (record k₂ { round_robin = RoundRobin.next k₂.round_robin })
    ]
