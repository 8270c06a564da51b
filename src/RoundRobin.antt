-- ===== src/RoundRobin.antt =====
-- The circular list of scheduled processes (Kernel/priority_round_robin.c): nodes in a buffer of
-- MAX_NODES, linked by `next`. A `Node` pointer is the index of the node in the buffer; `none` is
-- NULL. The elements are pointers too, so a node holds an `Option`.
pub mod Ring
pub mod Refine
pub mod Search
pub mod Keep
pub mod Leave
pub mod Turns
use horaci_os.Prelude.{
  ℕ, zero, suc, ◌+◌, ◌-◌, ◌^◌, List, [], ◌∷◌, Option, none, some, Bool, true, false, ◌==◌, leb,
  if◌then◌else◌, get_or, set, replicate,
}

-- MAX_NODES.
unfoldable pub max_nodes : ℕ
max_nodes = 10

pub record Node {ℓ} (A : Type ℓ) : Type ℓ where
  pub element : Option A
  pub quantum : ℕ
  pub next : Option ℕ

-- `round_robin_t`, with `buffer.node_buffer` and `buffer.ptr` as fields. An `int` is its 32-bit
-- pattern.
pub record RoundRobin {ℓ} (A : Type ℓ) : Type ℓ where
  pub current_quantum : ℕ
  pub current : Option ℕ
  pub last : Option ℕ
  pub nodes : ℕ
  pub node_buffer : List (Node A)
  pub ptr : ℕ

module _ {ℓ} {A : Type ℓ} where
  -- A node of all zeros.
  abbrev pub no_node : Node A
  no_node = record { element = none; quantum = 0; next = none }

  -- The static initialiser; its first node has quantum 1.
  unfoldable pub init : RoundRobin A
  init = record {
    current_quantum = 2 ^ 32 - 1;
    current = none;
    last = none;
    nodes = 0;
    node_buffer = record { element = none; quantum = 1; next = none } ∷ replicate 9 no_node;
    ptr = 2 ^ 32 - 1;
  }

  unfoldable pub node_at : List (Node A) → ℕ → Node A
  node_at ns i = get_or ns i no_node

  -- The assignment `last->next = n`.
  unfoldable pub set_next : List (Node A) → ℕ → Option ℕ → List (Node A)
  set_next ns i n = set ns i (record (node_at ns i) { next = n })

  -- The assignment `current->element = NULL`.
  unfoldable pub clear : List (Node A) → ℕ → List (Node A)
  clear ns i = set ns i (record (node_at ns i) { element = none })

  -- The loop that moves `ptr` on to a node with no element, on fuel.
  unfoldable pub find_free : ℕ → List (Node A) → ℕ → ℕ
  find_free zero ns ptr = ptr
  find_free (suc fuel) ns ptr = elim (node_at ns ptr).element [
    | none ↦ ptr
    | some x ↦ find_free fuel ns (if leb max_nodes (ptr + 1) then 0 else ptr + 1)
  ]

abbrev pub calculate_quantum : ℕ → ℕ
calculate_quantum priority = priority + 1

module _ {ℓ} {A : Type ℓ} where
  -- The first node: it is its own successor.
  unfoldable pub queue_first : RoundRobin A → A → ℕ → RoundRobin A
  queue_first r x priority = record r {
    nodes = r.nodes + 1;
    current_quantum = 0;
    ptr = 0;
    node_buffer =
        set r.node_buffer 0
          (record { element = some x; quantum = calculate_quantum priority; next = some 0 });
    current = some 0;
    last = some 0;
  }

  -- Any other node goes between `last` and `current`; `last` is not moved.
  unfoldable pub queue_behind : RoundRobin A → ℕ → ℕ → A → ℕ → RoundRobin A
  queue_behind r c l x priority =
      let ptr = find_free max_nodes r.node_buffer r.ptr in
      let node : Node A = record {
        element = some x;
        quantum = calculate_quantum priority;
        next = some c;
      } in
      record r {
        nodes = r.nodes + 1;
        ptr = ptr;
        node_buffer = set_next (set r.node_buffer ptr node) l (some ptr);
      }

  -- `queue_round_robin`. `last` is NULL exactly where `current` is.
  unfoldable pub queue : RoundRobin A → A → ℕ → RoundRobin A
  queue r x priority = if leb max_nodes r.nodes then r else elim r.current [
    | none ↦ queue_first r x priority
    | some c ↦ elim r.last [ none ↦ r | some l ↦ queue_behind r c l x priority ]
  ]

  unfoldable pub dequeue_at : RoundRobin A → ℕ → ℕ → RoundRobin A
  dequeue_at r c l =
      let ns = clear r.node_buffer c in
      if c == l
      then record r { node_buffer = ns; current = none; last = none; nodes = r.nodes - 1 }
      else record r {
        node_buffer = set_next ns l (node_at ns c).next;
        current = (node_at (set_next ns l (node_at ns c).next) c).next;
        nodes = r.nodes - 1;
      }

  -- `dequeue_round_robin`.
  unfoldable pub dequeue : RoundRobin A → RoundRobin A
  dequeue r = elim r.current [
    | none ↦ r
    | some c ↦ elim r.last [ none ↦ r | some l ↦ dequeue_at r c l ]
  ]

  -- `peek_round_robin`.
  unfoldable pub peek : RoundRobin A → Option A
  peek r = elim r.current [ none ↦ none | some c ↦ (node_at r.node_buffer c).element ]

  unfoldable pub next_at : RoundRobin A → ℕ → RoundRobin A
  next_at r c =
      if leb (node_at r.node_buffer c).quantum (r.current_quantum + 1)
      then record r { current_quantum = 0; last = some c; current = (node_at r.node_buffer c).next }
      else record r { current_quantum = r.current_quantum + 1 }

  -- `next_round_robin`.
  unfoldable pub next : RoundRobin A → RoundRobin A
  next r = elim r.current [ none ↦ r | some c ↦ next_at r c ]

  -- `amount_in_round_robin`.
  unfoldable pub amount : RoundRobin A → ℕ
  amount r = r.nodes
