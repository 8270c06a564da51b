-- ===== src/RoundRobin/Ring.antt =====
-- The nodes that a circular list links, as a list of cells.
use horaci_os.Prelude.{
  ℕ, ◌<◌, ◌≡◌, refl, sym, ◌∙◌, ◌≢◌, List, [], ◌∷◌, ◌++◌, none, some, All, set, get_or-set_ne,
  All-append, arith, append_assoc,
}
use horaci_os.RoundRobin.{Node, node_at, no_node}

-- A node in use: its place in the buffer, and what it holds.
pub record Cell {ℓ} (A : Type ℓ) : Type ℓ where
  pub index : ℕ
  pub item : A
  pub quantum : ℕ

module _ {ℓ} {A : Type ℓ} where
  -- The index of the first cell, or `b` if there is none.
  abbrev pub head_index : List (Cell A) → ℕ → ℕ
  head_index [] b = b
  head_index (c ∷ cs) b = c.index

  -- Each cell stands in the buffer, each leads to the next, and the last to index `b`.
  abbrev pub Linked : List (Node A) → List (Cell A) → ℕ → Type ℓ
  Linked ns [] b = Unit
  Linked ns (c ∷ cs) b =
      (node_at ns c.index
        ≡ record { element = some c.item; quantum = c.quantum; next = some (head_index cs b) })
      × Linked ns cs b

  abbrev pub Away : ℕ → List (Cell A) → Type 0
  Away i = All (λ (c : Cell A). c.index ≢ i)

  -- Cells with different indices, all in a buffer of `n` nodes.
  abbrev pub Distinct : ℕ → List (Cell A) → Type 0
  Distinct n [] = Unit
  Distinct n (c ∷ cs) = (c.index < n) × Away c.index cs × Distinct n cs

  pub Linked-set :
      (ns : List (Node A)) (i : ℕ) (v : Node A) (cs : List (Cell A)) (b : ℕ)
      → Away i cs
      → Linked ns cs b
      → Linked (set ns i v) cs b
  unfolding node_at
  Linked-set ns i v [] b away h = tt
  Linked-set ns i v (c ∷ cs) b away h =
      (get_or-set_ne ns v no_node (λ e. away.0 (sym e)) ∙ h.0, Linked-set ns i v cs b away.1 h.1)

  pub head_index-append :
      (cs ds : List (Cell A)) (b : ℕ) → head_index (cs ++ ds) b ≡ head_index cs (head_index ds b)
  head_index-append [] ds b = refl
  head_index-append (c ∷ cs) ds b = refl

  pub Linked-split :
      (ns : List (Node A)) (cs ds : List (Cell A)) (b : ℕ)
      → Linked ns (cs ++ ds) b
      → Linked ns cs (head_index ds b) × Linked ns ds b
  Linked-split ns [] ds b h = (tt, h)
  Linked-split ns (c ∷ cs) ds b h =
      let (h', k) = Linked-split ns cs ds b h.1 in ((rw (← head_index-append cs ds b) h.0, h'), k)

  pub Linked-join :
      (ns : List (Node A)) (cs ds : List (Cell A)) (b : ℕ)
      → Linked ns cs (head_index ds b)
      → Linked ns ds b
      → Linked ns (cs ++ ds) b
  Linked-join ns [] ds b h k = k
  Linked-join ns (c ∷ cs) ds b h k =
      (rw (head_index-append cs ds b) h.0, Linked-join ns cs ds b h.1 k)

  pub Away-split : (i : ℕ) (cs ds : List (Cell A)) → Away i (cs ++ ds) → Away i cs × Away i ds
  Away-split i [] ds h = (tt, h)
  Away-split i (c ∷ cs) ds h = let (h', k) = Away-split i cs ds h.1 in ((h.0, h'), k)

  pub Distinct-split :
      (n : ℕ) (cs ds : List (Cell A)) → Distinct n (cs ++ ds) → Distinct n cs × Distinct n ds
  Distinct-split n [] ds h = (tt, h)
  Distinct-split n (c ∷ cs) ds h =
      let (h', k) = Distinct-split n cs ds h.2 in ((h.0, (Away-split c.index cs ds h.1).0, h'), k)

  -- A cell behind others differs from them, and they from it.
  pub Distinct-last :
      (n : ℕ) (cs : List (Cell A)) (c : Cell A) (ds : List (Cell A))
      → Distinct n (cs ++ c ∷ ds)
      → Away c.index cs
  Distinct-last n [] c ds h = tt
  Distinct-last n (d ∷ cs) c ds h =
      ((λ e. (Away-split d.index cs (c ∷ ds) h.1).1.0 (sym e)), Distinct-last n cs c ds h.2)

  pub Distinct-snoc :
      (n : ℕ) (cs : List (Cell A)) (c : Cell A)
      → Distinct n cs
      → Away c.index cs
      → c.index < n
      → Distinct n (cs ++ c ∷ [])
  Distinct-snoc n [] c h away lt = (lt, tt, tt)
  Distinct-snoc n (d ∷ cs) c h away lt = (
    h.0,
    All-append (λ (e : Cell A). e.index ≢ d.index) cs (c ∷ []) h.1 ((λ e. away.0 (sym e)), tt),
    Distinct-snoc n cs c h.2 away.1 lt,
  )

  -- A node without an element is none of the cells.
  pub Away-free :
      (ns : List (Node A)) (cs : List (Cell A)) (b i : ℕ)
      → Linked ns cs b
      → (node_at ns i).element ≡ none
      → Away i cs
  Away-free ns [] b i h e = tt
  Away-free ns (c ∷ cs) b i h e = ((λ same. ground (arith, h.0, e)), Away-free ns cs b i h.1 e)

  -- The first cell of a ring goes behind the others.
  pub Linked-rotate :
      (ns : List (Node A)) (c : Cell A) (cs : List (Cell A))
      → Linked ns (c ∷ cs) c.index
      → Linked ns (cs ++ c ∷ []) (head_index (cs ++ c ∷ []) 0)
  Linked-rotate ns c cs h =
      Linked-join ns cs (c ∷ []) _ h.1 (rw (head_index-append cs (c ∷ []) 0) h.0, tt)

  pub Distinct-rotate :
      (n : ℕ) (c : Cell A) (cs : List (Cell A)) → Distinct n (c ∷ cs) → Distinct n (cs ++ c ∷ [])
  Distinct-rotate n c cs d = Distinct-snoc n cs c d.2 d.1 d.0

  -- A cell that replaces what stood behind `last`.
  pub Distinct-replace :
      (n : ℕ) (line : List (Cell A)) (last : Cell A) (fresh : List (Cell A)) (c : Cell A)
      → Distinct n (line ++ last ∷ fresh)
      → Away c.index (line ++ last ∷ fresh)
      → c.index < n
      → Distinct n (line ++ last ∷ c ∷ [])
  Distinct-replace n line last fresh c d away lt = rw (← append_assoc line (last ∷ []) (c ∷ [])) (
      Distinct-snoc n (line ++ last ∷ []) c
        (Distinct-split n (line ++ last ∷ []) fresh (rw (append_assoc line (last ∷ []) fresh) d)).0
        (Away-split c.index (line ++ last ∷ []) fresh
          (rw (append_assoc line (last ∷ []) fresh) away)).0
        lt)

  -- The first index of a ring does not depend on what stands behind `last`.
  pub head_index-line :
      (line : List (Cell A)) (last : Cell A) (fresh : List (Cell A)) (a b : ℕ)
      → head_index (line ++ last ∷ fresh) a ≡ head_index (line ++ last ∷ []) b
  head_index-line [] last fresh a b = refl
  head_index-line (c ∷ cs) last fresh a b = refl
