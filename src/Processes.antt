-- ===== src/Processes.antt =====
-- Making and ending processes (Kernel/process.c), over the scheduler, the mutexes and an allocator `a`.
-- `_initialize_stack` of Kernel/asm/interrupts.asm, which gives a new stack pointer, is a parameter. A
-- pointer to a control block is its index; `process_pointer` is `none` for -1.
pub mod Container
use horaci_os.Prelude.{
  ℕ, zero, suc, ◌+◌, ◌-◌, ◌%◌, ◌^◌, List, [], ◌∷◌, Option, none, some, Bool, true, false, not, ◌&&◌,
  ◌||◌, ◌==◌, leb, ltb, if◌then◌else◌, set, wrap,
}
use horaci_os.Strings.{strncpy}
use horaci_os.Userland.{codes}
use horaci_os.WaitQueue.{no_pid}
use horaci_os.ProcessTable.{
  Pcb, ProcessState, ProcessType, ready, blocked, finished, foreground, background, pcb_at,
  same_state, max_process_count, process_name_length, valid_process_id, change_process_state,
  get_parent_process_id,
}
use horaci_os.Scheduler.{
  Kernel, get_current_pid, mark_process_as_blocked, resume_process, enqueue_process,
  scheduled_processes,
}
use horaci_os.Scheduler.Provide.{Allocator, services}
use horaci_os.Services.{Services}
use horaci_os.MutexDirectory.{
  Mutexes, mutex_create, mutex_lock, mutex_unlock, release_mutex_by_owner,
}

-- PROCESS_INIT_STACK_SIZE, MAX_ARG_COUNT and MAX_PRIORITY.
abbrev pub process_init_stack_size : ℕ
process_init_stack_size = 40960

abbrev pub max_arg_count : ℕ
max_arg_count = 7

abbrev pub max_priority : ℕ
max_priority = 9

-- `header_t`; the priority is the 32-bit pattern of an `int`.
pub record Header : Type 0 where
  pub name : Option (List ℕ)
  pub type : ProcessType
  pub priority : ℕ
  pub input : Option ℕ
  pub output : Option ℕ

pub record Processes (H : Type 0) : Type 0 where
  pub mutexes : Mutexes (Kernel × H)
  pub process_pointer : Option ℕ
  pub process_count : ℕ

-- A negative `int` is no priority.
unfoldable pub valid_priority : ℕ → Bool
valid_priority priority = leb priority max_priority

-- The loop of `count_process_args` over the array of arguments, where 0 is NULL.
unfoldable pub count_process_args : ℕ → List ℕ → ℕ
count_process_args zero argv = 0
count_process_args (suc room) [] = 0
count_process_args (suc room) (arg ∷ argv) =
    let rest = count_process_args room argv in if arg == 0 then 0 else rest + 1

-- The loop of `get_available_container` that goes on to a block that is free, on fuel: `none` when that
-- runs out.
unfoldable pub next_container : ℕ → List Pcb → ℕ → Option ℕ
next_container zero ps pointer = none
next_container (suc fuel) ps pointer =
    let next = wrap max_process_count (pointer + 1) in
    let rest = next_container fuel ps next in
    if same_state (pcb_at ps next).state finished then some next else rest

-- A control block that is free, with its stack.
unfoldable pub container : ℕ → ℕ → Pcb → Pcb
container i stack p = record p {
  id = i;
  stack_base = stack + process_init_stack_size;
  state = finished;
}

-- What `get_available_container` and `create_process` come to. `waits` is a caller that is put in the
-- queue of the mutex; `spins` is the loop out of fuel.
pub data Outcome (H : Type 0) : Type 0 where
  refused : Processes H → Outcome H
  waits : Processes H → Outcome H
  spins : Processes H → Outcome H
  done : ℕ → Processes H → Outcome H

module _ {H : Type 0} (a : Allocator H) where
  instance abbrev over : Services (Kernel × H)
  over = services a

  -- The loop of `ready_processes_containers` from block `i`, with the blocks that are left.
  unfoldable pub ready_from : ℕ → ℕ → Kernel × H → Kernel × H
  ready_from zero i s = s
  ready_from (suc left) i s =
      let (base, heap) = a.malloc process_init_stack_size s.1 in
      let stack : ℕ = elim base [ none ↦ 0 | some b ↦ b ] in
      ready_from left (i + 1) (
        record s.0 { processes = set s.0.processes i (container i stack (pcb_at s.0.processes i)) },
        heap,
      )

  unfoldable pub ready_processes_containers : Kernel × H → Kernel × H
  ready_processes_containers s = ready_from max_process_count 0 s

  -- The kernel's part of the state.
  abbrev pub kernel : Processes H → Kernel
  kernel t = t.mutexes.sys.0

  abbrev pub on_kernel : (Kernel → Kernel) → Processes H → Processes H
  on_kernel f t = record t { mutexes = record t.mutexes { sys = (f (kernel t), t.mutexes.sys.1) } }

  -- The caller has a mutex, or there is none.
  unfoldable pub has_mutex : Option ℕ → Processes H → Bool
  has_mutex none t = true
  has_mutex (some q) t = (t.mutexes.mutex_at q).owner == get_current_pid (kernel t)

  -- `mutex_create` and `mutex_lock`.
  unfoldable pub lock_named : List ℕ → Processes H → Option ℕ × Processes H
  lock_named name t =
      let (mutex, ms) = mutex_create name t.mutexes in
      (mutex, record t { mutexes = mutex_lock mutex ms })

  abbrev pub unlock : Option ℕ → Processes H → Processes H
  unlock mutex t = record t { mutexes = mutex_unlock mutex t.mutexes }

  -- `get_available_container` behind the lock, with the fuel of its loop.
  unfoldable pub take_container : ℕ → Option ℕ → Processes H → Outcome H
  take_container fuel mutex t =
      let pointer : ℕ = elim t.process_pointer [ none ↦ 0 | some p ↦ p ] in
      let taken : Kernel → Kernel = λ k. record k {
        processes = set k.processes pointer (record (pcb_at k.processes pointer) { state = ready });
      } in
      let t₁ = on_kernel taken t in
      if not (has_mutex mutex t)
      then waits t
      else if t.process_count == max_process_count
      then refused (unlock mutex t)
      else elim (next_container fuel (kernel t₁).processes pointer) [
        | none ↦ spins t₁
        | some next ↦ done pointer (
            unlock mutex
              (record t₁ { process_pointer = some next; process_count = t.process_count + 1 }))
      ]

  unfoldable pub get_available_container : ℕ → Processes H → Outcome H
  get_available_container fuel t =
      let locked = lock_named (codes "process_mutex") t in take_container fuel locked.0 locked.1

  -- The control block of a new process.
  unfoldable pub fill : (ℕ → ℕ → ℕ → ℕ → ℕ) → List ℕ → ℕ → Header → List ℕ → ℕ → ℕ → Pcb → Pcb
  fill initialize_stack argv entry_point header name ppid i p = record p {
    name = strncpy name process_name_length;
    type = header.type;
    parent = if ppid == no_pid then none else some ppid;
    current = initialize_stack (count_process_args max_arg_count argv) p.stack_base entry_point i;
    priority = header.priority;
    input = header.input;
    output = header.output;
  }

  -- `create_process` behind `get_available_container`, which gave block `i`.
  unfoldable pub start :
      (ℕ → ℕ → ℕ → ℕ → ℕ) → List ℕ → ℕ → Header → List ℕ → ℕ → ℕ → Kernel → Kernel
  start initialize_stack argv entry_point header name ppid i k =
      let filled = record k {
        processes =
            set k.processes i
              (fill initialize_stack argv entry_point header name ppid i (pcb_at k.processes i));
      } in
      let queued = enqueue_process i filled in
      let front : Bool = elim header.type [ foreground ↦ true | background ↦ false ] in
      if front && not (ppid == no_pid) && ltb 1 (scheduled_processes queued)
      then mark_process_as_blocked ppid queued
      else queued

  -- A table that is full is not handled: the block at index -1 is written.
  unfoldable pub create_process :
      (ℕ → ℕ → ℕ → ℕ → ℕ) → ℕ → List ℕ → ℕ → Header → Processes H → Outcome H
  create_process initialize_stack fuel argv entry_point header t =
      let ppid = get_current_pid (kernel t) in
      let first = record t {
        process_pointer = some 0;
        process_count = 0;
        mutexes = record t.mutexes { sys = ready_processes_containers t.mutexes.sys };
      } in
      let t₁ : Processes H = elim t.process_pointer [ none ↦ first | some p ↦ t ] in
      elim header.name [
        | none ↦ refused t
        | some name ↦
            if not (valid_priority header.priority)
            then refused t
            else elim (get_available_container fuel t₁) [
              | refused t₂ ↦ refused t₂
              | waits t₂ ↦ waits t₂
              | spins t₂ ↦ spins t₂
              | done i t₂ ↦
                  done i (on_kernel (start initialize_stack argv entry_point header name ppid i) t₂)
            ]
      ]

  -- `mark_process_as_finished`; `none` is a caller that waits for the mutex.
  unfoldable pub mark_process_as_finished : ℕ → Processes H → Option (Processes H)
  mark_process_as_finished pid t₀ =
      let (mutex, t) = lock_named (codes "process_mutex") t₀ in
      let released = record t { mutexes = release_mutex_by_owner pid t.mutexes } in
      let ended : Kernel → Kernel = λ k.
        let p = pcb_at k.processes pid in
        record k {
          processes =
              (change_process_state (set k.processes pid (record p { current = p.stack_base })) pid
                finished).1;
        } in
      let t₁ =
        unlock mutex (record (on_kernel ended released) { process_count = t.process_count - 1 }) in
      let forced : Kernel → Kernel = λ k. record k { irq_raised = true } in
      if not (has_mutex mutex t)
      then none
      else some (if get_current_pid (kernel t₁) == pid then on_kernel forced t₁ else t₁)

  -- `wrapper_process` after its `entry_point` has returned.
  unfoldable pub wrapper_process : ℕ → Processes H → Option (Processes H)
  wrapper_process pid t = elim (get_parent_process_id (kernel t).processes pid) [
    | none ↦ mark_process_as_finished pid t
    | some parent ↦ mark_process_as_finished pid (on_kernel (resume_process parent) t)
  ]

  -- `change_priority`; the flag is what it returns, `none` a caller that waits.
  unfoldable pub change_priority : ℕ → ℕ → Processes H → Option (Bool × Processes H)
  change_priority pid priority t₀ =
      let (mutex, t) = lock_named (codes "change_priority_mutex") t₀ in
      let changed : Kernel → Kernel = λ k. record k {
        processes = set k.processes pid (record (pcb_at k.processes pid) { priority = priority });
      } in
      if not (valid_process_id pid) || not (valid_priority priority)
      then some (false, t₀)
      else if not (has_mutex mutex t)
      then none
      else some (true, unlock mutex (on_kernel changed t))
