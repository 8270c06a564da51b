-- ===== src/ProcessTable.antt =====
-- The process table (Kernel/process.c and its headers): the control blocks, their states and what
-- is read from them. A pointer to a control block is its index in `ready_processes`.
pub mod States
use horaci_os.Prelude.{
  ℕ, zero, suc, ◌+◌, ◌-◌, List, [], ◌∷◌, Option, none, some, Bool, true, false, not, ◌&&◌, ◌||◌,
  ltb, ◌==◌, if◌then◌else◌, get_or, set,
}
use horaci_os.Strings.{strncpy}

-- MAX_PROCESS_COUNT.
unfoldable pub max_process_count : ℕ
max_process_count = 50

-- READY, BLOCKED and FINISHED.
pub data ProcessState : Type 0 where
  ready blocked finished : ProcessState

pub data ProcessType : Type 0 where
  foreground background : ProcessType

-- `process_context_block_t`; `stack_base` and `current` are those of its `stack`,
-- whose `size` is never read.
pub record Pcb : Type 0 where
  pub name : List ℕ
  pub id : ℕ
  pub priority : ℕ
  pub state : ProcessState
  pub stack_base : ℕ
  pub current : ℕ
  pub type : ProcessType
  pub parent : Option ℕ
  pub input : Option ℕ
  pub output : Option ℕ

-- A block of all zeros, as the table holds before it is filled.
abbrev pub zero_pcb : Pcb
zero_pcb = record {
  name = [];
  id = 0;
  priority = 0;
  state = ready;
  stack_base = 0;
  current = 0;
  type = foreground;
  parent = none;
  input = none;
  output = none;
}

unfoldable pub pcb_at : List Pcb → ℕ → Pcb
pcb_at ps i = get_or ps i zero_pcb

unfoldable pub valid_process_id : ℕ → Bool
valid_process_id pid = ltb pid max_process_count

abbrev pub same_state : ProcessState → ProcessState → Bool
same_state ready ready = true
same_state blocked blocked = true
same_state finished finished = true
same_state _ _ = false

unfoldable pub set_state : List Pcb → ℕ → ProcessState → List Pcb
set_state ps pid st = set ps pid (record (pcb_at ps pid) { state = st })

-- The flag is the value that is returned.
unfoldable pub change_process_state : List Pcb → ℕ → ProcessState → Bool × List Pcb
change_process_state ps pid st =
    if not (valid_process_id pid)
      || same_state (pcb_at ps pid).state finished
      || same_state (pcb_at ps pid).state st
    then (false, ps)
    else (true, set_state ps pid st)

-- `none` is the -1 of an index out of range.
unfoldable pub get_process_state : List Pcb → ℕ → Option ProcessState
get_process_state ps pid = if valid_process_id pid then some (pcb_at ps pid).state else none

unfoldable pub process_has_state : List Pcb → ℕ → ProcessState → Bool
process_has_state ps pid st = same_state (pcb_at ps pid).state st

unfoldable pub process_has_finished : List Pcb → ℕ → Bool
unfolding process_has_state
process_has_finished ps pid = process_has_state ps pid finished

unfoldable pub process_is_blocked : List Pcb → ℕ → Bool
unfolding process_has_state
process_is_blocked ps pid = process_has_state ps pid blocked

-- `get_parent_process_id`: -2 for a pid out of range and -1 for no parent are both `none`, since the
-- caller only asks whether the value is at least 0.
unfoldable pub get_parent_process_id : List Pcb → ℕ → Option ℕ
get_parent_process_id ps pid =
    if valid_process_id pid
    then elim (pcb_at ps pid).parent [ none ↦ none | some q ↦ some (pcb_at ps q).id ]
    else none

unfoldable pub get_input : List Pcb → ℕ → Option ℕ
get_input ps pid = (pcb_at ps pid).input

unfoldable pub get_output : List Pcb → ℕ → Option ℕ
get_output ps pid = (pcb_at ps pid).output

unfoldable pub get_rsp : List Pcb → ℕ → ℕ
get_rsp ps p = (pcb_at ps p).current

unfoldable pub set_rsp : List Pcb → ℕ → ℕ → List Pcb
set_rsp ps p rsp = set ps p (record (pcb_at ps p) { current = rsp })

-- `binary_info_t`.
pub record BinaryInfo : Type 0 where
  pub name : List ℕ
  pub id : ℕ
  pub state : ProcessState
  pub type : ProcessType
  pub priority : ℕ

-- PROCESS_NAME_LENGTH.
abbrev pub process_name_length : ℕ
process_name_length = 256

unfoldable pub info : Pcb → BinaryInfo
info p = record {
  name = strncpy p.name process_name_length;
  id = p.id;
  state = p.state;
  type = p.type;
  priority = p.priority;
}

-- `get_ready_processes`: the entries that it writes, at most `max`. The second argument is the part
-- of the table that the loop has still to see; whether a block is finished is asked by its id.
unfoldable pub ready_from : List Pcb → List Pcb → ℕ → List BinaryInfo
ready_from ps [] max = []
ready_from ps (p ∷ r) zero = []
ready_from ps (p ∷ r) (suc max) =
    let skipped = ready_from ps r (suc max) in
    let taken = info p ∷ ready_from ps r max in
    if process_has_finished ps p.id then skipped else taken

unfoldable pub get_ready_processes : List Pcb → ℕ → List BinaryInfo
unfolding ready_from
get_ready_processes ps max = ready_from ps ps max
