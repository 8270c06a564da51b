-- ===== src/MemoryManager/Apart.antt =====
-- The blocks in use are apart from each other.
use native.Mathlib.Nat.{mul-le-mul_right, one-le-pow}
use native.Mathlib.Decide.{ℕ_discrete, dec_lt}
use horaci_os.Prelude.{
  ℕ, zero, suc, ◌+◌, ◌-◌, ◌*◌, ◌/◌, ◌^◌, ◌<◌, ◌≤◌, ◌≡◌, ◌≢◌, refl, sym, ap, subst, ◌∙◌, ◌⊎◌, inl,
  inr, List, some, set, arith, Bool-cases,
}
use horaci_os.MemoryManager.{
  MemoryManager, PageStatus, empty, used, split, is_status, status_at, parent_index,
  get_buddy_index, block_size, heap_size, Place, malloc, split_ancestors, update_nodes_status,
  update_used_nodes_status,
}
use horaci_os.MemoryManager.Tree.{Above, here, higher, status-set_self, status-set_ne}
use horaci_os.MemoryManager.Search.{Stands, Clear}
use horaci_os.MemoryManager.Malloc.{Sound, malloc_some, index_inside, empty_below, two_pow_add}
use horaci_os.MemoryManager.Blocks.{index_of, odd_nodes}

doubles : (n k : ℕ) → n * 2 ^ suc k ≡ 2 * (n * 2 ^ k)
doubles n k =
    let one : 2 ^ suc k ≡ 2 * 2 ^ k = omega arith in
    let swap : n * (2 * 2 ^ k) ≡ 2 * (n * 2 ^ k) = grind arith in ap (λ (x : ℕ). n * x) one ∙ swap

-- Of two nodes, the second no deeper than the first by `k` orders, the second is the first or above it, or
-- the blocks of one end before those of the other begin.
related :
    (k o i j pos pos' : ℕ)
    → i + 1 ≡ 2 ^ (o + k) + pos
    → pos < 2 ^ (o + k)
    → j + 1 ≡ 2 ^ o + pos'
    → ((i ≡ j) ⊎ Above j i) ⊎ ((pos + 1 ≤ pos' * 2 ^ k) ⊎ ((pos' + 1) * 2 ^ k ≤ pos))
related zero o i j pos pos' a lt b = elim (dec_lt pos pos') [
  | yes before ↦ inr (inl (omega arith))
  | no not_before ↦ elim (dec_lt pos' pos) [
    | yes behind ↦ inr (inr (omega arith))
    | no not_behind ↦
        inl (
          inl (let e : 2 ^ (o + zero) ≡ 2 ^ o = ap (λ (n : ℕ). 2 ^ n) (omega arith) in omega arith))
  ]
]
related (suc k) o i j pos pos' a lt b =
    let two : 2 ^ (o + suc k) ≡ 2 * 2 ^ (o + k) =
      ap (λ (n : ℕ). 2 ^ n) {x = o + suc k} {y = suc (o + k)} (omega arith) ∙ omega arith in
    let start = doubles pos' k in
    let end = doubles (pos' + 1) k in
    let least = one-le-pow (o + k) 2 (omega arith) in
    let pos_index : 0 < i = omega arith in
    elim (related k o (parent_index i) j (pos / 2) pos' (omega arith) (omega arith) b) [
      | inl (inl same) ↦ inl (inr (here i pos_index (sym same)))
      | inl (inr above) ↦ inl (inr (higher i pos_index above))
      | inr (inl before) ↦ inr (inl (omega arith))
      | inr (inr behind) ↦ inr (inr (omega arith))
    ]

Above-less : (j i : ℕ) → Above j i → j < i
Above-less j i (here _ pos e) = omega arith
Above-less j i (higher _ pos a) = let less = Above-less j (parent_index i) a in omega arith

-- The loops that go up write only to nodes above.
split_ancestors-other :
    (fuel : ℕ) (pages : List PageStatus) (i j : ℕ)
    → (Above j i → ⊥)
    → status_at (split_ancestors fuel pages i) j ≡ status_at pages j
unfolding split_ancestors
split_ancestors-other zero pages i j n = refl
split_ancestors-other (suc fuel) pages i j n = elim (ℕ_discrete i 0) [
  | yes top ↦ ground arith
  | no low ↦
      let p = parent_index i in
      let rest =
        split_ancestors-other fuel (set pages p split) p j (λ a. n (higher i (omega arith) a)) in
      let ne : p ≢ j = λ e. n (here i (omega arith) (sym e)) in
      let both = rest ∙ status-set_ne pages p j split ne in ground arith
]

update-other :
    (st : PageStatus) (fuel : ℕ) (pages : List PageStatus) (i j : ℕ)
    → (Above j i → ⊥)
    → status_at (update_nodes_status st fuel pages i) j ≡ status_at pages j
unfolding update_nodes_status
update-other st zero pages i j n = refl
update-other st (suc fuel) pages i j n = elim (ℕ_discrete i 0) [
  | yes top ↦ let rest = split_ancestors-other i pages i j n in ground arith
  | no low ↦
      let p = parent_index i in
      let rest = update-other st fuel (set pages p st) p j (λ a. n (higher i (omega arith) a)) in
      let ne : p ≢ j = λ e. n (here i (omega arith) (sym e)) in
      let both = rest ∙ status-set_ne pages p j st ne in
      let ends = split_ancestors-other i pages i j n in
      elim (Bool-cases (is_status (status_at pages (get_buddy_index i)) st)) [
        | inl same ↦ ground arith
        | inr other ↦ ground arith
      ]
]

-- Blocks of `2 ^ t` and `2 ^ t'` at places `pos` and `pos'` of their orders do not overlap.
abbrev pub Apart : ℕ → ℕ → ℕ → ℕ → Type 0
Apart t pos t' pos' = ((pos + 1) * 2 ^ t ≤ pos' * 2 ^ t') ⊎ ((pos' + 1) * 2 ^ t' ≤ pos * 2 ^ t)

-- A node is apart from those that are no deeper, but for itself and those above it.
upper-Apart :
    (max k t pos pos' : ℕ) (p q : Place)
    → Stands max t pos p
    → Stands max (t + k) pos' q
    → ((p.index ≡ q.index) ⊎ Above q.index p.index) ⊎ Apart t pos (t + k) pos'
upper-Apart max k t pos pos' p q s s' =
    let l = s.level in
    let l' = s'.level in
    let o : p.order ≡ q.order + k = omega arith in
    let wide : 2 ^ p.order ≡ 2 ^ (q.order + k) = ap (λ (n : ℕ). 2 ^ n) o in
    let a = s.at in
    let inside = s.inside in
    let both = two_pow_add t k in
    let start : pos' * 2 ^ (t + k) ≡ pos' * 2 ^ k * 2 ^ t = grind arith in
    let end : (pos' + 1) * 2 ^ (t + k) ≡ (pos' + 1) * 2 ^ k * 2 ^ t = grind arith in
    elim (related k q.order p.index q.index pos pos' (omega arith) (omega arith) s'.at) [
      | inl near ↦ inl near
      | inr (inl before) ↦
          let le = mul-le-mul_right {m = pos + 1} {n = pos' * 2 ^ k} (2 ^ t) before in
          inr (inl (omega arith))
      | inr (inr behind) ↦
          let le = mul-le-mul_right {m = (pos' + 1) * 2 ^ k} {n = pos} (2 ^ t) behind in
          inr (inr (omega arith))
    ]

module _ (max : ℕ) (m : MemoryManager) (v : Sound max m) (t pos : ℕ) (p : Place)
    (s : Stands max t pos p) (free : status_at m.pages p.index ≡ empty)
    (clear : Clear m.pages p.index) where
  -- A node in use is neither the free node nor above or below it.
  free-Apart :
      (t' pos' : ℕ) (q : Place)
      → Stands max t' pos' q
      → status_at m.pages q.index ≡ used
      → Apart t pos t' pos'
  free-Apart t' pos' q s' u = elim (dec_lt t' t) [
    | no upper ↦
        let e : t' ≡ t + (t' - t) = omega arith in
        elim (upper-Apart max (t' - t) t pos pos' p q s
          (subst (λ (d : ℕ). Stands max d pos' q) e s')) [
            | inl (inl same) ↦
                absurd (let h = ap (status_at m.pages) same in let z = sym free ∙ h ∙ u in cc)
            | inl (inr above) ↦ absurd (clear q.index above u)
            | inr apart ↦ subst (λ (d : ℕ). Apart t pos d pos') (sym e) apart
          ]
    | yes lower ↦
        let e : t ≡ t' + (t - t') = omega arith in
        elim (upper-Apart max (t - t') t' pos' pos q p s'
          (subst (λ (d : ℕ). Stands max d pos p) e s)) [
            | inl (inl same) ↦
                absurd (let h = ap (status_at m.pages) same in let z = sym u ∙ h ∙ free in cc)
            | inl (inr above) ↦ absurd (
                let inside = index_of max m q.index v (index_inside max t' pos' q s') in
                let z =
                  empty_below (heap_size m.memory_available) m.pages p.index q.index v.tidy free
                    above inside (odd_nodes max m v) in
                let w = sym u ∙ z in cc)
            | inr (inl before) ↦
                inr (subst (λ (d : ℕ). (pos' + 1) * 2 ^ t' ≤ pos * 2 ^ d) (sym e) before)
            | inr (inr behind) ↦
                inl (subst (λ (d : ℕ). (pos + 1) * 2 ^ d ≤ pos' * 2 ^ t') (sym e) behind)
          ]
  ]

  marked : List PageStatus
  marked = update_used_nodes_status (set m.pages p.index used) p.index

  marked_here : status_at marked p.index ≡ used
  unfolding marked update_used_nodes_status
  marked_here =
      let inside = index_of max m p.index v (index_inside max t pos p s) in
      let size = v.tidy.0 in
      update-other used (p.index + 1) (set m.pages p.index used) p.index p.index
        (λ a. let less = Above-less p.index p.index a in absurd (omega arith))
      ∙ status-set_self m.pages p.index used (omega arith)

  marked_other : (q : Place) → status_at m.pages q.index ≡ used → status_at marked q.index ≡ used
  unfolding marked update_used_nodes_status
  marked_other q u =
      let ne : p.index ≢ q.index =
        λ e. let h = ap (status_at m.pages) e in let z = sym free ∙ h ∙ u in cc in
      update-other used (p.index + 1) (set m.pages p.index used) p.index q.index
        (λ a. clear q.index a u)
      ∙ status-set_ne m.pages p.index q.index used ne
      ∙ u

-- For a sound memory: when malloc gives an address, that is the start of a block with room for the bytes,
-- whose node of the tree is USED then. The block of a node that was USED before does not overlap with it, and
-- that node is USED still.
pub malloc-Apart :
    (max bytes a : ℕ) (m : MemoryManager)
    → Sound max m
    → (malloc bytes m).0 ≡ some a
    → (t : ℕ) × (pos : ℕ) × (p : Place) × Stands max t pos p
      × (a ≡ m.memory_base_address + pos * 2 ^ t * block_size)
      × (bytes ≤ 2 ^ t * block_size)
      × (status_at (malloc bytes m).1.pages p.index ≡ used)
      × ((t' pos' : ℕ) (q : Place)
          → Stands max t' pos' q
          → status_at m.pages q.index ≡ used
          → Apart t pos t' pos' × (status_at (malloc bytes m).1.pages q.index ≡ used))
unfolding marked
malloc-Apart max bytes a m v e =
    let (t, pos, p, g) = malloc_some max bytes a m v e in
    let after = ap (λ (x : MemoryManager). x.pages) g.after in
    (
      t,
      pos,
      p,
      g.stands,
      g.address,
      g.enough,
      ap (λ (ps : List PageStatus). status_at ps p.index) after
          ∙ marked_here max m v t pos p g.stands g.free g.clear,
      λ t' pos' q s' u. (
        free-Apart max m v t pos p g.stands g.free g.clear t' pos' q s' u,
        ap (λ (ps : List PageStatus). status_at ps q.index) after
            ∙ marked_other max m v t pos p g.stands g.free g.clear q u,
      ),
    )
