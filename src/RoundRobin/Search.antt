-- ===== src/RoundRobin/Search.antt =====
-- The search for a free node ends within one turn of the buffer, and `nodes` bounds the nodes in use.
use horaci_os.Prelude.{
  ℕ, zero, suc, ◌+◌, ◌<◌, ◌≤◌, ◌≡◌, ap, ◌≢◌, List, [], ◌∷◌, none, some, length, set, Option-cases,
  inl, inr, leb, if◌then◌else◌, arith, steps_to, steps_to-lt, steps_to-wrap, sym, ◌∙◌,
}
use horaci_os.RoundRobin.{RoundRobin, Node, node_at, find_free, max_nodes}

module _ {ℓ} {A : Type ℓ} where
  moved :
      (ns : List (Node A)) (i j : ℕ) {x : A}
      → (node_at ns i).element ≡ some x
      → (node_at ns j).element ≡ none
      → i ≢ j
  moved ns i j taken free same =
      let both = sym taken ∙ ap (λ (k : ℕ). (node_at ns k).element) same ∙ free in cc

  -- The search finds a free node if there is one and the fuel lets it come round to it.
  find_free-finds :
      (fuel : ℕ) (ns : List (Node A)) (ptr i : ℕ)
      → ptr < max_nodes
      → i < max_nodes
      → (node_at ns i).element ≡ none
      → steps_to max_nodes ptr i < fuel
      → (find_free fuel ns ptr < max_nodes) × ((node_at ns (find_free fuel ns ptr)).element ≡ none)
  unfolding find_free
  find_free-finds zero ns ptr i p q e d = absurd (omega arith)
  find_free-finds (suc fuel) ns ptr i p q e d = elim (Option-cases (node_at ns ptr).element) [
    | inl free ↦ rw (free, find_free) (p, free)
    | inr (x, taken) ↦
        rw (taken, find_free)
          (find_free-finds fuel ns (if leb max_nodes (ptr + 1) then 0 else ptr + 1) i (ground arith)
            q e
            (let further = steps_to-wrap max_nodes ptr i p q (moved ns ptr i taken e) in
              omega arith))
  ]

  abbrev pub occupied : Node A → ℕ
  occupied n = elim n.element [ none ↦ 0 | some x ↦ 1 ]

  -- The number of nodes that hold an element.
  abbrev pub used : List (Node A) → ℕ
  used [] = 0
  used (n ∷ ns) = occupied n + used ns

  pub used-set :
      (ns : List (Node A)) (i : ℕ) (v : Node A)
      → i < length ns
      → used (set ns i v) + occupied (node_at ns i) ≡ used ns + occupied v
  unfolding node_at
  used-set [] i v lt = absurd (omega arith)
  used-set (n ∷ ns) zero v lt = omega arith
  used-set (n ∷ ns) (suc i) v lt = omega (arith, used-set ns i v (omega arith))

  free_node :
      (ns : List (Node A))
      → used ns < length ns
      → (i : ℕ) × (i < length ns) × ((node_at ns i).element ≡ none)
  unfolding node_at
  free_node [] h = absurd (omega arith)
  free_node (n ∷ ns) h = elim (Option-cases n.element) [
    | inl free ↦ (0, omega arith, free)
    | inr (x, taken) ↦
        let (i, lt, free) =
          free_node ns (let t : occupied n ≡ 1 = ground (arith, taken) in omega arith) in
        (suc i, omega arith, free)
  ]

  -- The fields that the search rests on: a counter that is not below the number of nodes in use, and
  -- a search index in the buffer.
  pub record Counted (r : RoundRobin A) : Type ℓ where
    pub counts : used r.node_buffer ≤ r.nodes
    pub ptr_in : r.ptr < max_nodes

  -- In a full-sized buffer with the counter right and fewer than `max_nodes` nodes counted, the search
  -- for a free node ends within `max_nodes` steps, at a node of the buffer that is free.
  pub find_free_lem :
      (r : RoundRobin A)
      → length r.node_buffer ≡ max_nodes
      → Counted r
      → r.nodes < max_nodes
      → (find_free max_nodes r.node_buffer r.ptr < max_nodes)
        × ((node_at r.node_buffer (find_free max_nodes r.node_buffer r.ptr)).element ≡ none)
  find_free_lem r storage c room =
      let (i, lt, free) = free_node r.node_buffer (omega arith) in
      find_free-finds max_nodes r.node_buffer r.ptr i c.ptr_in (omega arith) free
        (steps_to-lt max_nodes r.ptr i c.ptr_in (omega arith))
