-- ===== src/MemoryManager/Free.antt =====
-- `free_handler` keeps the tree in order.
use native.Mathlib.Decide.{ℕ_discrete, dec_lt}
use horaci_os.Prelude.{
  ℕ, zero, suc, ◌+◌, ◌-◌, ◌*◌, ◌/◌, ◌%◌, ◌^◌, ◌<◌, ◌≤◌, ◌≡◌, ◌≢◌, refl, sym, subst, ◌∙◌, ◌⊎◌, inl,
  inr, List, not, ◌||◌, leb, ltb, ◌==◌, arith, Bool-cases, length, length-set, set,
}
use horaci_os.MemoryManager.{
  MemoryManager, PageStatus, empty, used, split, status_at, parent_index, heap_size, free_from,
  free_handler, amount_of_blocks, block_size, update_empty_nodes_status,
}
use horaci_os.MemoryManager.Tree.{
  Above, here, higher, Local, Mended, Tidy, Fits, status-set_self, status-set_ne, Local-set,
  Local-set_self, update-Tidy, is_status_eq, PageStatus-discrete,
}
use horaci_os.MemoryManager.Malloc.{Sound}

-- The children of `i`.
abbrev Under : ℕ → ℕ → Type 0
Under i c = (c ≡ 2 * i + 1) ⊎ (c ≡ 2 * i + 2)

free_out :
    (fuel n b : ℕ) (pages : List PageStatus) (i s v : ℕ)
    → n ≤ i
    → free_from fuel n b pages i s v ≡ pages
unfolding free_from
free_out zero n b pages i s v le = refl
free_out (suc fuel) n b pages i s v le = ground arith

free_last :
    (fuel n b : ℕ) (pages : List PageStatus) (i s v : ℕ)
    → i < n
    → status_at pages i ≡ used
    → (n ≤ 2 * i + 1)
      ⊎ ((2 * i + 2 < n)
          × (status_at (set pages i empty) (2 * i + 1) ≡ empty)
          × (status_at (set pages i empty) (2 * i + 2) ≡ empty))
    → free_from (suc fuel) n b pages i s v ≡ update_empty_nodes_status (set pages i empty) i
unfolding free_from
free_last fuel n b pages i s v lt u (inl leaf) = rw u (ground arith)
free_last fuel n b pages i s v lt u (inr (in_, l, r)) = rw (u, l, r) (ground arith)

-- Where the loop goes from a node that it has left as it was.
free_past :
    (fuel n b : ℕ) (pages : List PageStatus) (i s v : ℕ)
    → i < n
    → status_at pages i ≢ used
    → (c : ℕ) × (s' : ℕ) × (v' : ℕ) × Under i c
      × (free_from (suc fuel) n b pages i s v ≡ free_from fuel n b pages c s' v')
unfolding free_from
free_past fuel n b pages i s v lt u = elim (Bool-cases (ltb b (s + v / 2))) [
  | inl l ↦ (2 * i + 1, s, v / 2, inl refl, ground (arith, is_status_eq (status_at pages i) used))
  | inr r ↦
      (2 * i + 2, s + v / 2, v / 2, inr refl, ground (arith, is_status_eq (status_at pages i) used))
]

-- Where it goes from a USED node with USED children.
free_deeper :
    (fuel n b : ℕ) (pages : List PageStatus) (i s v : ℕ)
    → 2 * i + 2 < n
    → status_at pages i ≡ used
    → status_at (set pages i empty) (2 * i + 1) ≡ used
    → (c : ℕ) × (s' : ℕ) × (v' : ℕ) × Under i c
      × (free_from (suc fuel) n b pages i s v ≡ free_from fuel n b (set pages i empty) c s' v')
unfolding free_from
free_deeper fuel n b pages i s v lt u l = elim (Bool-cases (ltb b (s + v / 2))) [
  | inl left ↦ (2 * i + 1, s, v / 2, inl refl, rw (u, l) (ground arith))
  | inr right ↦ (2 * i + 2, s + v / 2, v / 2, inr refl, rw (u, l) (ground arith))
]

-- A node is marked EMPTY: what was right stays so, but for the nodes above and perhaps the node.
emptied :
    (n : ℕ) (pages : List PageStatus) (i : ℕ)
    → Mended n pages i
    → (j : ℕ) → 2 * j + 2 < n
    → j ≢ i
    → Local (set pages i empty) j ⊎ Above j i
emptied n pages i m j jn ne = elim (m j jn) [
  | inr above ↦ inr above
  | inl l ↦ elim (ℕ_discrete j (parent_index i)) [
    | yes up ↦ elim (ℕ_discrete i 0) [
      | yes z ↦ inl (Local-set pages i j empty ne (λ pos. absurd (omega arith)) l)
      | no pos ↦ inr (here i (omega arith) up)
    ]
    | no far ↦ inl (Local-set pages i j empty ne (λ z. far) l)
  ]
]

child-Above : (i j c : ℕ) → Under i c → Above j i → Above j c
child-Above i j c k a = higher c (ground arith) (subst (Above j) (ground arith) a)

module _ (n : ℕ) (pages : List PageStatus) (i : ℕ) (size : length pages ≡ n) (m : Mended n pages i)
    (lt : i < n) where
  child-Mended : (c : ℕ) → Under i c → Mended n (set pages i empty) c
  child-Mended c k j jn = elim (ℕ_discrete j i) [
    | yes same ↦ inr (here c (ground arith) (ground arith))
    | no ne ↦ elim (emptied n pages i m j jn ne) [
      | inl l ↦ inl l
      | inr a ↦ inr (child-Above i j c k a)
    ]
  ]

  last-Mended :
      (2 * i + 2 < n
        → (status_at pages (2 * i + 1) ≡ empty) × (status_at pages (2 * i + 2) ≡ empty))
      → Mended n (set pages i empty) i
  last-Mended h j jn = elim (ℕ_discrete j i) [
    | yes same ↦ inl (
        subst (Local (set pages i empty)) (sym same)
          (Local-set_self pages i empty (omega arith) (h (omega arith))))
    | no ne ↦ emptied n pages i m j jn ne
  ]

  last-Tidy :
      (2 * i + 2 < n
        → (status_at pages (2 * i + 1) ≡ empty) × (status_at pages (2 * i + 2) ≡ empty))
      → Tidy n (update_empty_nodes_status (set pages i empty) i)
  unfolding update_empty_nodes_status
  last-Tidy h =
      update-Tidy empty (i + 1) n (set pages i empty) i (λ z. cc) (omega arith) lt
        (length-set pages i empty ∙ size) (last-Mended h)
        (status-set_self pages i empty (omega arith))

Above-lt : (j i : ℕ) → Above j i → j < i
Above-lt j i (here _ pos e) = omega arith
Above-lt j i (higher _ pos a) = let lt = Above-lt j (parent_index i) a in omega arith

used-Fits :
    (st l r : PageStatus)
    → st ≡ used
    → Fits st l r
    → ((l ≡ empty) × (r ≡ empty)) ⊎ ((l ≡ used) × (r ≡ used))
used-Fits empty l r e f = absurd (cc)
used-Fits used l r e f = f
used-Fits split l r e f = absurd (cc)

child-lt : (i c n : ℕ) → Under i c → 2 * i + 2 < n → c < n
child-lt i c n k lt = ground arith

lt-child : (i c : ℕ) → Under i c → i < c
lt-child i c k = ground arith

child_used :
    (pages : List PageStatus) (i c : ℕ)
    → Under i c
    → status_at pages (2 * i + 1) ≡ used
    → status_at pages (2 * i + 2) ≡ used
    → status_at pages c ≡ used
child_used pages i c (inl e) l r = subst (λ (k : ℕ). status_at pages k ≡ used) (sym e) l
child_used pages i c (inr e) l r = subst (λ (k : ℕ). status_at pages k ≡ used) (sym e) r

-- From a USED node, with all that is not above it in order, the loop puts all in order.
freeing-Tidy :
    (fuel n b : ℕ) (pages : List PageStatus) (i s v : ℕ)
    → n < fuel + i
    → i < n
    → n % 2 ≡ 1
    → length pages ≡ n
    → Mended n pages i
    → status_at pages i ≡ used
    → Tidy n (free_from fuel n b pages i s v)
freeing-Tidy zero n b pages i s v f lt odd size m u = absurd (omega arith)
freeing-Tidy (suc fuel) n b pages i s v f lt odd size m u = elim (dec_lt (2 * i + 2) n) [
  | no leaf ↦
      subst (Tidy n) (sym (free_last fuel n b pages i s v lt u (inl (omega arith))))
        (last-Tidy n pages i size m lt (λ in_. absurd (omega arith)))
  | yes inner ↦ elim (m i inner) [
    | inr up ↦ absurd (let z = Above-lt i i up in omega arith)
    | inl l ↦
        let same_left = status-set_ne pages i (2 * i + 1) empty (omega arith) in
        let same_right = status-set_ne pages i (2 * i + 2) empty (omega arith) in
        elim (used-Fits _ _ _ u l) [
          | inl (le, re) ↦
              subst (Tidy n)
                (sym (
                  free_last fuel n b pages i s v lt u
                    (inr (inner, same_left ∙ le, same_right ∙ re))))
                (last-Tidy n pages i size m lt (λ in_. (le, re)))
          | inr (lu, ru) ↦
              let (c, s', v', k, e) = free_deeper fuel n b pages i s v inner u (same_left ∙ lu) in
              let below = lt-child i c k in
              subst (Tidy n) (sym e) (
                freeing-Tidy fuel n b (set pages i empty) c s' v' (omega arith)
                  (child-lt i c n k inner) odd (length-set pages i empty ∙ size)
                  (child-Mended n pages i size m lt c k)
                  (child_used (set pages i empty) i c k (same_left ∙ lu) (same_right ∙ ru)))
        ]
  ]
]

free_from-Tidy :
    (fuel n b : ℕ) (pages : List PageStatus) (i s v : ℕ)
    → n < fuel + i
    → n % 2 ≡ 1
    → Tidy n pages
    → Tidy n (free_from fuel n b pages i s v)
free_from-Tidy zero n b pages i s v f odd t =
    subst (Tidy n) (sym (free_out zero n b pages i s v (omega arith))) t
free_from-Tidy (suc fuel) n b pages i s v f odd t = elim (dec_lt i n) [
  | no out ↦ subst (Tidy n) (sym (free_out (suc fuel) n b pages i s v (omega arith))) t
  | yes lt ↦ elim (PageStatus-discrete (status_at pages i) used) [
    | yes u ↦ freeing-Tidy (suc fuel) n b pages i s v f lt odd t.0 (λ j jn. inl (t.1 j jn)) u
    | no ne ↦
        let (c, s', v', k, e) = free_past fuel n b pages i s v lt ne in
        let below = lt-child i c k in
        subst (Tidy n) (sym e) (free_from-Tidy fuel n b pages c s' v' (omega arith) odd t)
  ]
]

-- `free_handler` refuses an address, or walks down from the root.
free_cases :
    (p : ℕ) (m : MemoryManager)
    → (free_handler p m ≡ m)
      ⊎ ((b : ℕ) × (v : ℕ) × (free_handler p m ≡ record m {
        pages =
            free_from
              (heap_size m.memory_available + 1)
              (heap_size m.memory_available)
              b
              m.pages
              0
              0
              v;
      }))
unfolding free_handler
free_cases p m =
    let offset = (p + 2 ^ 64 - m.memory_base_address) % 2 ^ 64 in
    let blocks = amount_of_blocks m.memory_available in
    elim (Bool-cases
      (p == 0 || not ((offset % block_size) == 0) || leb blocks (offset / block_size))) [
        | inl refused ↦ inl (rw refused refl)
        | inr fine ↦ inr (offset / block_size, blocks, rw fine refl)
      ]

-- A sound memory stays sound when `free_handler` is called with any address: the array keeps its
-- length, and each node that has children agrees with them.
pub free_handler-Sound :
    (max p : ℕ) (m : MemoryManager) → Sound max m → Sound max (free_handler p m)
free_handler-Sound max p m v = elim (free_cases p m) [
  | inl same ↦ subst (Sound max) (sym same) v
  | inr (b, blocks, e) ↦
      let nodes = v.nodes in
      let odd : heap_size m.memory_available % 2 ≡ 1 = omega arith in
      subst (Sound max) (sym e) record {
        small = v.small;
        available = v.available;
        order = v.order;
        nodes = v.nodes;
        tidy =
            free_from-Tidy _ (heap_size m.memory_available) b m.pages 0 0 blocks (omega arith) odd
              v.tidy;
      }
]
