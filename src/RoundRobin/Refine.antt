-- ===== src/RoundRobin/Refine.antt =====
-- What `queue` and `next` do to the processes in the ring, front first.
use horaci_os.Prelude.{
  ℕ, ◌+◌, ◌<◌, ◌≤◌, ◌≡◌, refl, sym, ap, subst, ◌∙◌, ◌≢◌, List, [], ◌∷◌, ◌++◌, Option, none, some,
  length, length-set, set, get_or-set_ne, get_or-set_self, arith,
}
use horaci_os.RoundRobin.{
  RoundRobin, Node, no_node, node_at, set_next, clear, find_free, calculate_quantum, max_nodes,
  queue_behind, next, next_at,
}
use horaci_os.RoundRobin.Ring.{
  Cell, head_index, Linked, Away, Distinct, Linked-set, Linked-split, Linked-join, Away-split,
  Distinct-split, Distinct-last, Distinct-replace, Linked-rotate, Distinct-rotate, Away-free,
  head_index-append,
}

-- `line` and then `last` are the cells from `current` up to the pointer `last`; `fresh` are those
-- behind it, which only `queue` puts there.
pub record Ring {ℓ} {A : Type ℓ} (r : RoundRobin A) (line : List (Cell A)) (last : Cell A)
    (fresh : List (Cell A)) : Type ℓ where
  pub storage : length r.node_buffer ≡ max_nodes
  pub current_at : r.current ≡ some (head_index (line ++ last ∷ []) 0)
  pub last_at : r.last ≡ some last.index
  pub linked : Linked r.node_buffer (line ++ last ∷ fresh) (head_index (line ++ last ∷ []) 0)
  pub distinct : Distinct max_nodes (line ++ last ∷ fresh)

-- The first cell of a ring, and the others.
abbrev pub front {ℓ} : {A : Type ℓ} → List (Cell A) → Cell A → Cell A
front [] last = last
front (c ∷ cs) last = c

abbrev pub behind {ℓ} : {A : Type ℓ} → List (Cell A) → Cell A → List (Cell A) → List (Cell A)
behind [] last fresh = fresh
behind (c ∷ cs) last fresh = cs ++ last ∷ fresh

module _ {ℓ} {A : Type ℓ} where
  pub node_at-set_self :
      (ns : List (Node A)) (i : ℕ) (v : Node A) → i < length ns → node_at (set ns i v) i ≡ v
  unfolding node_at
  node_at-set_self ns i v h = get_or-set_self ns i v no_node h

  pub node_at-set_ne :
      (ns : List (Node A)) {i j : ℕ} (v : Node A) → i ≢ j → node_at (set ns i v) j ≡ node_at ns j
  unfolding node_at
  node_at-set_ne ns v h = get_or-set_ne ns v no_node h

  pub length-clear : (ns : List (Node A)) (i : ℕ) → length (clear ns i) ≡ length ns
  unfolding clear
  length-clear ns i = length-set ns i _

  pub length-set_next :
      (ns : List (Node A)) (i : ℕ) (n : Option ℕ) → length (set_next ns i n) ≡ length ns
  unfolding set_next
  length-set_next ns i n = length-set ns i _

  pub node_at-clear_ne :
      (ns : List (Node A)) {i j : ℕ} → i ≢ j → node_at (clear ns i) j ≡ node_at ns j
  unfolding clear
  node_at-clear_ne ns h = node_at-set_ne ns _ h

  pub Linked-clear :
      (ns : List (Node A)) (i : ℕ) (cs : List (Cell A)) (b : ℕ)
      → Away i cs
      → Linked ns cs b
      → Linked (clear ns i) cs b
  unfolding clear
  Linked-clear ns i cs b = Linked-set ns i _ cs b

  -- A new node is linked between `last` and the first cell.
  link_behind :
      (ns : List (Node A)) (line : List (Cell A)) (last : Cell A) (fresh : List (Cell A)) (c j : ℕ)
      (x : A) (q : ℕ)
      → Linked ns (line ++ last ∷ fresh) c
      → Distinct (length ns) (line ++ last ∷ fresh)
      → j < length ns
      → (node_at ns j).element ≡ none
      → let node : Node A = record { element = some x; quantum = q; next = some c } in
        Linked
          (set_next (set ns j node) last.index (some j))
          (line ++ last ∷ record { index = j; item = x; quantum = q } ∷ [])
          c
  unfolding set_next
  link_behind ns line last fresh c j x q h d lt free =
      let node : Node A = record { element = some x; quantum = q; next = some c } in
      let (hl, hr) = Linked-split ns line (last ∷ fresh) c h in
      let away =
        Away-split j line (last ∷ fresh) (Away-free ns (line ++ last ∷ fresh) c j h free) in
      let last_in = (Distinct-split (length ns) line (last ∷ fresh) d).1.0 in
      let old = node_at-set_ne ns node (λ e. away.1.0 (sym e)) in
      let ns' = set ns j node in
      Linked-join _ line _ c
        (Linked-set ns' last.index _ line last.index (Distinct-last (length ns) line last fresh d)
          (Linked-set ns j node line last.index away.0 hl))
        (
          node_at-set_self ns' last.index _ (rw (length-set ns j node) last_in)
              ∙ ap (λ (n : Node A). record n { next = some j }) (old ∙ hr.0),
          (node_at-set_ne ns' _ (λ e. away.1.0 e) ∙ node_at-set_self ns j node lt, tt),
        )

  -- A new process stands behind `last`; one that stood there is cut off.
  pub queue_behind-Ring :
      (r : RoundRobin A) (line : List (Cell A)) (last : Cell A) (fresh : List (Cell A)) (x : A)
      (priority : ℕ)
      → Ring r line last fresh
      → let j = find_free max_nodes r.node_buffer r.ptr in
        j < max_nodes
        → (node_at r.node_buffer j).element ≡ none
        → Ring
            (queue_behind r (head_index (line ++ last ∷ []) 0) last.index x priority)
            line
            last
            (record { index = j; item = x; quantum = calculate_quantum priority } ∷ [])
  unfolding queue_behind
  queue_behind-Ring r line last fresh x priority h lt free =
      let ns = r.node_buffer in
      let j = find_free max_nodes ns r.ptr in
      let away = Away-free ns (line ++ last ∷ fresh) _ j h.linked free in
      record {
        storage = length-set_next _ last.index _ ∙ length-set ns j _ ∙ h.storage;
        current_at = h.current_at;
        last_at = h.last_at;
        linked =
            link_behind ns line last fresh _ j x (calculate_quantum priority) h.linked
              (subst (λ (n : ℕ). Distinct n (line ++ last ∷ fresh)) (sym h.storage) h.distinct)
              (rw h.storage lt) free;
        distinct = Distinct-replace max_nodes line last fresh _ h.distinct away lt;
      }

  next_moves :
      (r : RoundRobin A) (c : ℕ)
      → r.current ≡ some c
      → (node_at r.node_buffer c).quantum ≤ r.current_quantum + 1
      → next r
        ≡ record r { current_quantum = 0; last = some c; current = (node_at r.node_buffer c).next }
  unfolding next next_at
  next_moves r c e q = ground arith

  rotate-Ring :
      (r : RoundRobin A) (c : Cell A) (cs : List (Cell A))
      → length r.node_buffer ≡ max_nodes
      → r.current ≡ some c.index
      → Linked r.node_buffer (c ∷ cs) c.index
      → Distinct max_nodes (c ∷ cs)
      → c.quantum ≤ r.current_quantum + 1
      → Ring (next r) cs c [] × ((next r).current_quantum ≡ 0)
  rotate-Ring r c cs storage e h d q = rw (next_moves r c.index e (rw h.0 q)) (
    record {
      storage = storage;
      current_at =
          ap (λ (n : Node A). n.next) h.0 ∙ ap some (sym (head_index-append cs (c ∷ []) 0));
      last_at = refl;
      linked = Linked-rotate r.node_buffer c cs h;
      distinct = Distinct-rotate max_nodes c cs d;
    },
    refl,
  )

  -- When this tick uses up the quantum of the first process of a ring, that process goes behind all
  -- others, those queued last included, and the count of ticks starts again at 0.
  pub next_expired :
      (r : RoundRobin A) (line : List (Cell A)) (last : Cell A) (fresh : List (Cell A))
      → Ring r line last fresh
      → (front line last).quantum ≤ r.current_quantum + 1
      → Ring (next r) (behind line last fresh) (front line last) [] × ((next r).current_quantum ≡ 0)
  next_expired r [] last fresh h q =
      rotate-Ring r last fresh h.storage h.current_at h.linked h.distinct q
  next_expired r (c ∷ cs) last fresh h q =
      rotate-Ring r c (cs ++ last ∷ fresh) h.storage h.current_at h.linked h.distinct q
