-- ===== src/RoundRobin/Keep.antt =====
-- What `queue` does to a ring that is idle or in use, and what its first process is.
use horaci_os.Prelude.{
  ℕ, zero, suc, ◌+◌, ◌<◌, ◌≤◌, ◌≡◌, refl, ap, ◌∙◌, List, [], ◌∷◌, Option, none, some, length, set,
  length-set, arith,
}
use horaci_os.RoundRobin.{
  RoundRobin, Node, node_at, set_next, find_free, max_nodes, queue, queue_behind, queue_first,
  calculate_quantum, next, next_at, peek,
}
use horaci_os.RoundRobin.Ring.{Cell}
use horaci_os.RoundRobin.Refine.{node_at-set_self, Ring, front, queue_behind-Ring}
use horaci_os.RoundRobin.Search.{occupied, used, Counted, find_free_lem}

-- No process is in the ring.
pub record Idle {ℓ} {A : Type ℓ} (r : RoundRobin A) : Type ℓ where
  pub storage : length r.node_buffer ≡ max_nodes
  pub current_at : r.current ≡ none
  pub last_at : r.last ≡ none

module _ {ℓ} {A : Type ℓ} where
  used-set_same :
      (ns : List (Node A)) (i : ℕ) (v : Node A)
      → occupied v ≡ occupied (node_at ns i)
      → used (set ns i v) ≡ used ns
  unfolding node_at
  used-set_same [] i v e = refl
  used-set_same (n ∷ ns) zero v e = omega arith
  used-set_same (n ∷ ns) (suc i) v e = omega (arith, used-set_same ns i v e)

  pub used-set_next : (ns : List (Node A)) (i : ℕ) (n : Option ℕ) → used (set_next ns i n) ≡ used ns
  unfolding set_next
  used-set_next ns i n = used-set_same ns i _ refl

  used-set-le : (ns : List (Node A)) (i : ℕ) (v : Node A) → used (set ns i v) ≤ used ns + 1
  used-set-le [] i v = omega arith
  used-set-le (n ∷ ns) zero v = ground (arith, occupied v)
  used-set-le (n ∷ ns) (suc i) v = omega (arith, used-set-le ns i v)

  queue_moves :
      (r : RoundRobin A) (x : A) (priority c l : ℕ)
      → r.current ≡ some c
      → r.last ≡ some l
      → r.nodes < max_nodes
      → queue r x priority ≡ queue_behind r c l x priority
  unfolding queue
  queue_moves r x priority c l e f room = ground arith

  queue_behind-Counted :
      (r : RoundRobin A) (c l : ℕ) (x : A) (priority : ℕ)
      → Counted r
      → find_free max_nodes r.node_buffer r.ptr < max_nodes
      → Counted (queue_behind r c l x priority)
  unfolding queue_behind
  queue_behind-Counted r c l x priority h lt = record {
    counts = omega (
      arith,
      h.counts,
      used-set_next
          (set r.node_buffer (find_free max_nodes r.node_buffer r.ptr)
            (record { element = some x; quantum = priority + 1; next = some c }))
          l (some (find_free max_nodes r.node_buffer r.ptr)),
      used-set-le r.node_buffer (find_free max_nodes r.node_buffer r.ptr)
          (record { element = some x; quantum = priority + 1; next = some c }),
    );
    ptr_in = lt;
  }

  queue_behind-nodes :
      (r : RoundRobin A) (c l : ℕ) (x : A) (priority : ℕ)
      → (queue_behind r c l x priority).nodes ≡ r.nodes + 1
  unfolding queue_behind
  queue_behind-nodes r c l x priority = refl

  -- A process that is queued in a ring with its counter right and with room stands behind `last`, with
  -- a quantum of one more than its priority, and the counter goes up by one and stays right. Whatever
  -- stood behind `last` is cut off.
  pub queue-Ring :
      (r : RoundRobin A) (line : List (Cell A)) (last : Cell A) (fresh : List (Cell A)) (x : A)
      (priority : ℕ)
      → Ring r line last fresh
      → Counted r
      → r.nodes < max_nodes
      → let j = find_free max_nodes r.node_buffer r.ptr in
        let new : Cell A = record { index = j; item = x; quantum = calculate_quantum priority } in
        Ring (queue r x priority) line last (new ∷ [])
        × Counted (queue r x priority)
        × ((queue r x priority).nodes ≡ r.nodes + 1)
  queue-Ring r line last fresh x priority h c room =
      let (lt, free) = find_free_lem r h.storage c room in
      rw (queue_moves r x priority _ last.index h.current_at h.last_at room) (
        queue_behind-Ring r line last fresh x priority h lt free,
        queue_behind-Counted r _ last.index x priority c lt,
        queue_behind-nodes r _ last.index x priority,
      )

  first_moves :
      (r : RoundRobin A) (x : A) (priority : ℕ)
      → r.current ≡ none
      → r.nodes < max_nodes
      → queue r x priority ≡ record r {
        nodes = r.nodes + 1;
        current_quantum = 0;
        ptr = 0;
        node_buffer =
            set r.node_buffer 0
              (record { element = some x; quantum = calculate_quantum priority; next = some 0 });
        current = some 0;
        last = some 0;
      }
  unfolding queue queue_first
  first_moves r x priority e room = ground arith

  -- The first process in an idle ring is alone in it, and its quantum starts at 0.
  pub queue-Idle :
      (r : RoundRobin A) (x : A) (priority : ℕ)
      → Idle r
      → used r.node_buffer ≤ r.nodes
      → r.nodes < max_nodes
      → let new : Cell A = record { index = 0; item = x; quantum = calculate_quantum priority } in
        Ring (queue r x priority) [] new []
        × Counted (queue r x priority)
        × ((queue r x priority).nodes ≡ r.nodes + 1)
        × ((queue r x priority).current_quantum ≡ 0)
  queue-Idle r x priority h c room =
      let node : Node A = record {
        element = some x;
        quantum = calculate_quantum priority;
        next = some 0;
      } in
      rw (first_moves r x priority h.current_at room) (
        record {
          storage = length-set r.node_buffer 0 node ∙ h.storage;
          current_at = refl;
          last_at = refl;
          linked = (node_at-set_self r.node_buffer 0 node (omega arith), tt);
          distinct = (omega arith, tt, tt);
        },
        record { counts = omega (arith, used-set-le r.node_buffer 0 node); ptr_in = omega arith },
        refl,
        refl,
      )

  -- A ring that has counted `max_nodes` processes takes no other.
  pub queue_full :
      (r : RoundRobin A) (x : A) (priority : ℕ) → max_nodes ≤ r.nodes → queue r x priority ≡ r
  unfolding queue
  queue_full r x priority full = ground arith

  -- The node of the first process.
  pub front_at :
      (r : RoundRobin A) (line : List (Cell A)) (last : Cell A) (fresh : List (Cell A))
      → Ring r line last fresh
      → let c = front line last in
        (r.current ≡ some c.index)
        × (c.index < max_nodes)
        × ((node_at r.node_buffer c.index).element ≡ some c.item)
        × ((node_at r.node_buffer c.index).quantum ≡ c.quantum)
  front_at r [] last fresh h = (
    h.current_at,
    h.distinct.0,
    ap (λ (n : Node A). n.element) h.linked.0,
    ap (λ (n : Node A). n.quantum) h.linked.0,
  )
  front_at r (c ∷ cs) last fresh h = (
    h.current_at,
    h.distinct.0,
    ap (λ (n : Node A). n.element) h.linked.0,
    ap (λ (n : Node A). n.quantum) h.linked.0,
  )

  -- While the quantum of the first process lasts, only the counter of rounds changes.
  pub next_within :
      (r : RoundRobin A) (line : List (Cell A)) (last : Cell A) (fresh : List (Cell A))
      → Ring r line last fresh
      → r.current_quantum + 1 < (front line last).quantum
      → next r ≡ record r { current_quantum = r.current_quantum + 1 }
  unfolding next next_at
  next_within r line last fresh h within = ground (arith, front_at r line last fresh h)

  -- The process that runs is the first of the ring.
  pub peek-front :
      (r : RoundRobin A) (line : List (Cell A)) (last : Cell A) (fresh : List (Cell A))
      → Ring r line last fresh
      → peek r ≡ some (front line last).item
  unfolding peek
  peek-front r line last fresh h = ground (arith, front_at r line last fresh h)
