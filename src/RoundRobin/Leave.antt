-- ===== src/RoundRobin/Leave.antt =====
-- How a process leaves the ring: `dequeue_round_robin`.
use horaci_os.Prelude.{
  List, Option, [], ap, append_assoc, arith, length, length-set, none, refl, some, subst, sym, ℕ,
  ◌++◌, ◌+◌, ◌-◌, ◌<◌, ◌∙◌, ◌∷◌, ◌≡◌, ◌≢◌,
}
use horaci_os.RoundRobin.{
  RoundRobin, Node, node_at, set_next, clear, max_nodes, dequeue, dequeue_at,
}
use horaci_os.RoundRobin.Ring.{
  Cell, head_index, Linked, Distinct, Linked-set, Linked-split, Linked-join, Away-split,
  Distinct-split, Distinct-last, head_index-line,
}
use horaci_os.RoundRobin.Refine.{
  Ring, front, node_at-set_self, node_at-set_ne, length-clear, length-set_next, Linked-clear,
  node_at-clear_ne,
}
use horaci_os.RoundRobin.Search.{used, used-set, Counted}
use horaci_os.RoundRobin.Keep.{Idle, front_at, used-set_next}

module _ {ℓ} {A : Type ℓ} where
  clear-next :
      (ns : List (Node A)) (i : ℕ)
      → i < length ns
      → (node_at (clear ns i) i).next ≡ (node_at ns i).next
  unfolding clear
  clear-next ns i lt = ap (λ (n : Node A). n.next) (node_at-set_self ns i _ lt)

  -- The links after the first cell is taken out.
  unlink :
      (ns : List (Node A)) (c : Cell A) (line : List (Cell A)) (last : Cell A)
      (fresh : List (Cell A)) (b : ℕ)
      → Linked ns (c ∷ line ++ last ∷ fresh) b
      → Distinct (length ns) (c ∷ line ++ last ∷ fresh)
      → let hd = head_index (line ++ last ∷ []) 0 in
        let ns' = set_next (clear ns c.index) last.index (some hd) in
        Linked ns' (line ++ last ∷ []) hd × ((node_at ns' c.index).next ≡ some hd)
  unfolding set_next
  unlink ns c line last fresh b h d =
      let hd = head_index (line ++ last ∷ []) 0 in
      let ns' = clear ns c.index in
      let (hl, hr) = Linked-split ns line (last ∷ fresh) b h.1 in
      let away = Away-split c.index line (last ∷ fresh) d.1 in
      let last_in = (Distinct-split (length ns) line (last ∷ fresh) d.2).1.0 in
      (
        Linked-join _ line (last ∷ []) hd
            (Linked-set ns' last.index _ line last.index
              (Distinct-last (length ns) line last fresh d.2)
              (Linked-clear ns c.index line last.index away.0 hl))
            (
              node_at-set_self ns' last.index _ (rw (length-clear ns c.index) last_in)
                  ∙ ap (λ (n : Node A). record n { next = some hd })
                      (node_at-clear_ne ns (λ e. away.1.0 (sym e)) ∙ hr.0),
              tt,
            ),
        ap (λ (n : Node A). n.next) (node_at-set_ne ns' _ away.1.0)
            ∙ clear-next ns c.index d.0
            ∙ ap (λ (n : Node A). n.next) h.0
            ∙ ap some (head_index-line line last fresh b 0),
      )

  dequeue_moves :
      (r : RoundRobin A) (c l : ℕ) (n : Option ℕ)
      → r.current ≡ some c
      → r.last ≡ some l
      → c ≢ l
      → (node_at (clear r.node_buffer c) c).next ≡ n
      → dequeue r ≡ record r {
        node_buffer = set_next (clear r.node_buffer c) l n;
        current = (node_at (set_next (clear r.node_buffer c) l n) c).next;
        nodes = r.nodes - 1;
      }
  unfolding dequeue dequeue_at
  dequeue_moves r c l n e f ne g = ground arith

  -- The first process of a ring with others up to `last` leaves, and with it whatever stood behind
  -- `last`; the others stay in their order.
  pub dequeue-Ring :
      (r : RoundRobin A) (c : Cell A) (line : List (Cell A)) (last : Cell A) (fresh : List (Cell A))
      → Ring r (c ∷ line) last fresh
      → Ring (dequeue r) line last []
  dequeue-Ring r c line last fresh h =
      let ns = r.node_buffer in
      let hd = head_index (line ++ last ∷ []) 0 in
      let d = h.distinct in
      let in_buffer : Distinct (length ns) (c ∷ line ++ last ∷ fresh) =
        subst (λ (n : ℕ). Distinct n (c ∷ line ++ last ∷ fresh)) (sym h.storage) d in
      let (linked, next_is) = unlink ns c line last fresh _ h.linked in_buffer in
      rw
        (dequeue_moves r c.index last.index (some hd) h.current_at h.last_at
          (λ e. (Away-split c.index line (last ∷ fresh) d.1).1.0 (sym e))
          (clear-next ns c.index in_buffer.0
            ∙ ap (λ (n : Node A). n.next) h.linked.0
            ∙ ap some (head_index-line line last fresh _ 0)))
        (record {
          storage = (length-set_next _ last.index _ ∙ length-clear ns c.index) ∙ h.storage;
          current_at = next_is;
          last_at = h.last_at;
          linked = linked;
          distinct =
              (Distinct-split max_nodes (line ++ last ∷ []) fresh
                (rw (append_assoc line (last ∷ []) fresh) d.2)).0;
        })

  used-clear :
      (ns : List (Node A)) (i : ℕ) {x : A}
      → i < length ns
      → (node_at ns i).element ≡ some x
      → used (clear ns i) + 1 ≡ used ns
  unfolding clear
  used-clear ns i lt e = ground (arith, used-set ns i (record (node_at ns i) { element = none }) lt)

  dequeue_keeps :
      (r : RoundRobin A) (c l : ℕ)
      → r.current ≡ some c
      → r.last ≡ some l
      → ((dequeue r).nodes ≡ r.nodes - 1)
        × ((dequeue r).ptr ≡ r.ptr)
        × (used (dequeue r).node_buffer ≡ used (clear r.node_buffer c))
  unfolding dequeue dequeue_at
  dequeue_keeps r c l e f =
      ground
        (arith, used-set_next (clear r.node_buffer c) l (node_at (clear r.node_buffer c) c).next)

  only_moves :
      (r : RoundRobin A) (c : ℕ)
      → r.current ≡ some c
      → r.last ≡ some c
      → dequeue r ≡ record r {
        node_buffer = clear r.node_buffer c;
        current = none;
        last = none;
        nodes = r.nodes - 1;
      }
  unfolding dequeue dequeue_at
  only_moves r c e f = ground arith

  -- The only process leaves, and the ring is idle, whatever stood behind `last`.
  pub dequeue_only :
      (r : RoundRobin A) (last : Cell A) (fresh : List (Cell A))
      → Ring r [] last fresh
      → Idle (dequeue r)
  unfolding clear
  dequeue_only r last fresh h = rw (only_moves r last.index h.current_at h.last_at) (record {
    storage = length-set r.node_buffer last.index _ ∙ h.storage;
    current_at = refl;
    last_at = refl;
  })

  pub dequeue-Counted :
      (r : RoundRobin A) (line : List (Cell A)) (last : Cell A) (fresh : List (Cell A))
      → Ring r line last fresh
      → Counted r
      → Counted (dequeue r) × ((dequeue r).nodes + 1 ≡ r.nodes)
  dequeue-Counted r line last fresh h c =
      let (e, lt, item, q) = front_at r line last fresh h in
      let (nodes, ptr, same) = dequeue_keeps r (front line last).index last.index e h.last_at in
      let fewer = used-clear r.node_buffer (front line last).index (omega arith) item in
      (record { counts = omega arith; ptr_in = omega arith }, omega arith)
