-- ===== src/MemoryManager/Tree.antt =====
-- What the statuses of a node and its children say of each other, and how the loops that go up the
-- tree put that right again.
use native.Mathlib.Decide.{ℕ_discrete, dec_lt}
use horaci_os.Prelude.{
  ℕ, zero, suc, ◌+◌, ◌-◌, ◌*◌, ◌<◌, ◌≤◌, ◌≡◌, ◌≢◌, refl, sym, subst, ◌∙◌, ◌⊎◌, inl, inr, List, true,
  length, set, length-set, get_or-set_self, get_or-set_ne, arith, Bool-cases,
}
use horaci_os.MemoryManager.{
  PageStatus, empty, used, split, is_status, status_at, parent_index, is_left_child,
  get_buddy_index, split_ancestors, update_nodes_status,
}

-- An EMPTY node has only EMPTY nodes below it. A USED node was given out whole, or both its halves
-- are USED. A SPLIT node is neither.
abbrev pub Fits : PageStatus → PageStatus → PageStatus → Type 0
Fits empty l r = (l ≡ empty) × (r ≡ empty)
Fits used l r = ((l ≡ empty) × (r ≡ empty)) ⊎ ((l ≡ used) × (r ≡ used))
Fits split l r = (((l ≡ empty) × (r ≡ empty)) → ⊥) × (((l ≡ used) × (r ≡ used)) → ⊥)

abbrev pub Local : List PageStatus → ℕ → Type 0
Local pages i = Fits (status_at pages i) (status_at pages (2 * i + 1)) (status_at pages (2 * i + 2))

-- Node `j` is above node `i`.
pub data Above (j : ℕ) : ℕ → Type 0 where
  here : (i : ℕ) → 0 < i → j ≡ parent_index i → Above j i
  higher : (i : ℕ) → 0 < i → Above j (parent_index i) → Above j i

-- Only nodes above `i` may be wrong.
abbrev pub Mended : ℕ → List PageStatus → ℕ → Type 0
Mended n pages i = (j : ℕ) → 2 * j + 2 < n → Local pages j ⊎ Above j i

abbrev pub Tidy : ℕ → List PageStatus → Type 0
Tidy n pages = (length pages ≡ n) × ((j : ℕ) → 2 * j + 2 < n → Local pages j)

pub status-set_self :
    (pages : List PageStatus) (i : ℕ) (st : PageStatus)
    → i < length pages
    → status_at (set pages i st) i ≡ st
unfolding status_at
status-set_self pages i st lt = get_or-set_self pages i st empty lt

pub status-set_ne :
    (pages : List PageStatus) (i j : ℕ) (st : PageStatus)
    → i ≢ j
    → status_at (set pages i st) j ≡ status_at pages j
unfolding status_at
status-set_ne pages i j st ne = get_or-set_ne pages st empty ne

-- A write to node `i` matters to that node and its parent.
pub Local-set :
    (pages : List PageStatus) (i j : ℕ) (st : PageStatus)
    → j ≢ i
    → (0 < i → j ≢ parent_index i)
    → Local pages j
    → Local (set pages i st) j
Local-set pages i j st ne above l =
    rw
      (
        status-set_ne pages i j st (λ e. ne (sym e)),
        status-set_ne pages i (2 * j + 1) st (λ e. above (omega arith) (omega arith)),
        status-set_ne pages i (2 * j + 2) st (λ e. above (omega arith) (omega arith)),
      )
      l

-- The children of a node after a write to the node.
pub Local-set_self :
    (pages : List PageStatus) (i : ℕ) (st : PageStatus)
    → i < length pages
    → Fits st (status_at pages (2 * i + 1)) (status_at pages (2 * i + 2))
    → Local (set pages i st) i
Local-set_self pages i st lt f =
    rw
      (
        status-set_self pages i st lt,
        status-set_ne pages i (2 * i + 1) st (omega arith),
        status-set_ne pages i (2 * i + 2) st (omega arith),
      )
      f

-- Once the parent of `i` is right, and whatever it changed for its own parent apart.
Mended-up :
    (n : ℕ) (pages : List PageStatus) (i : ℕ) (st : PageStatus)
    → 0 < i
    → i < n
    → length pages ≡ n
    → Mended n pages i
    → Fits st (status_at pages (2 * parent_index i + 1)) (status_at pages (2 * parent_index i + 2))
    → Mended n (set pages (parent_index i) st) (parent_index i)
Mended-up n pages i st pos lt size m f j jn = elim (ℕ_discrete j (parent_index i)) [
  | yes e ↦ inl (
      subst (Local (set pages (parent_index i) st)) (sym e)
        (Local-set_self pages (parent_index i) st (omega arith) f))
  | no ne ↦ go ne (m j jn)
]
  where
    keeps :
        j ≢ parent_index i
        → Local pages j
        → Local (set pages (parent_index i) st) j ⊎ Above j (parent_index i)
    keeps ne l = elim (dec_lt 0 (parent_index i)) [
      | no root ↦ inl (Local-set pages (parent_index i) j st ne (λ q. absurd (root q)) l)
      | yes q ↦ elim (ℕ_discrete j (parent_index (parent_index i))) [
        | yes e ↦ inr (here (parent_index i) q e)
        | no far ↦ inl (Local-set pages (parent_index i) j st ne (λ z. far) l)
      ]
    ]

    go :
        j ≢ parent_index i
        → Local pages j ⊎ Above j i
        → Local (set pages (parent_index i) st) j ⊎ Above j (parent_index i)
    go ne (inl l) = keeps ne l
    go ne (inr (here _ _ e)) = absurd (ne e)
    go ne (inr (higher _ _ a)) = inr a

-- At the root nothing is above.
Mended-root :
    (n : ℕ) (pages : List PageStatus) (i : ℕ)
    → i ≡ 0
    → Mended n pages i
    → (j : ℕ) → 2 * j + 2 < n
    → Local pages j
Mended-root n pages i e m j jn = go (m j jn)
  where
    go : Local pages j ⊎ Above j i → Local pages j
    go (inl l) = l
    go (inr (here _ pos z)) = absurd (omega arith)
    go (inr (higher _ pos z)) = absurd (omega arith)

-- One node of two that have one parent is of a status that the other is not.
abbrev pub Mixed : List PageStatus → ℕ → Type 0
Mixed pages p = Fits split (status_at pages (2 * p + 1)) (status_at pages (2 * p + 2))

split_mixes :
    (pages : List PageStatus) (i : ℕ)
    → 0 < i
    → status_at pages i ≡ split
    → Mixed pages (parent_index i)
split_mixes pages i pos s = elim (Bool-cases (is_left_child i)) [
  | inl left ↦ let e : 2 * parent_index i + 1 ≡ i = ground arith in rw (e, s) (cc, cc)
  | inr right ↦
      let e : 2 * parent_index i + 2 ≡ i = ground arith in
      rw (e, s) ((λ h. let z = h.1 in cc), (λ h. let z = h.1 in cc))
]

split_ancestors_root :
    (fuel : ℕ) (pages : List PageStatus) (i : ℕ) → i ≡ 0 → split_ancestors fuel pages i ≡ pages
unfolding split_ancestors
split_ancestors_root zero pages i e = refl
split_ancestors_root (suc fuel) pages i e = ground arith

split_ancestors_step :
    (fuel : ℕ) (pages : List PageStatus) (i : ℕ)
    → 0 < i
    → split_ancestors (suc fuel) pages i
      ≡ split_ancestors fuel (set pages (parent_index i) split) (parent_index i)
unfolding split_ancestors
split_ancestors_step fuel pages i pos = ground arith

-- The loop to the root makes every node right.
split_ancestors-Tidy :
    (fuel n : ℕ) (pages : List PageStatus) (i : ℕ)
    → i ≤ fuel
    → i < n
    → length pages ≡ n
    → Mended n pages i
    → (0 < i → Mixed pages (parent_index i))
    → Tidy n (split_ancestors fuel pages i)
split_ancestors-Tidy fuel n pages zero f lt size m mix =
    rw (split_ancestors_root fuel pages 0 refl) (size, Mended-root n pages 0 refl m)
split_ancestors-Tidy zero n pages (suc i) f lt size m mix = absurd (omega arith)
split_ancestors-Tidy (suc fuel) n pages (suc i) f lt size m mix =
    let p = parent_index (suc i) in
    rw (split_ancestors_step fuel pages (suc i) (omega arith)) (
      split_ancestors-Tidy fuel n (set pages p split) p (omega arith) (omega arith)
        (length-set pages p split ∙ size)
        (Mended-up n pages (suc i) split (omega arith) lt size m (mix (omega arith)))
        (λ pos.
          split_mixes (set pages p split) p pos (status-set_self pages p split (omega arith))))

pub is_status_of_eq : (a b : PageStatus) → a ≡ b → is_status a b ≡ true
is_status_of_eq a b e = ground arith

pub is_status_eq : (a b : PageStatus) → is_status a b ≡ true → a ≡ b
is_status_eq a b e = ground arith

pub update_step :
    (st : PageStatus) (fuel : ℕ) (pages : List PageStatus) (i : ℕ)
    → 0 < i
    → status_at pages (get_buddy_index i) ≡ st
    → update_nodes_status st (suc fuel) pages i
      ≡ update_nodes_status st fuel (set pages (parent_index i) st) (parent_index i)
unfolding update_nodes_status
update_step st fuel pages i pos e =
    ground (arith, is_status_of_eq (status_at pages (get_buddy_index i)) st e)

update_ends :
    (st : PageStatus) (fuel : ℕ) (pages : List PageStatus) (i : ℕ)
    → (i ≡ 0) ⊎ (status_at pages (get_buddy_index i) ≢ st)
    → update_nodes_status st (suc fuel) pages i ≡ split_ancestors i pages i
unfolding update_nodes_status
update_ends st fuel pages i h =
    ground (arith, is_status_eq (status_at pages (get_buddy_index i)) st)

-- With its buddy, a node makes the pair of children of its parent.
buddies :
    (P : PageStatus → PageStatus → Type 0) (pages : List PageStatus) (i : ℕ)
    → 0 < i
    → P (status_at pages i) (status_at pages (get_buddy_index i))
    → P (status_at pages (get_buddy_index i)) (status_at pages i)
    → P (status_at pages (2 * parent_index i + 1)) (status_at pages (2 * parent_index i + 2))
unfolding get_buddy_index
buddies P pages i pos h k = elim (Bool-cases (is_left_child i)) [
  | inl left ↦
      let l : 2 * parent_index i + 1 ≡ i = ground arith in
      let r : 2 * parent_index i + 2 ≡ i + 1 = ground arith in
      rw (l, r) (subst (λ (j : ℕ). P (status_at pages i) (status_at pages j)) (ground arith) h)
  | inr right ↦
      let l : 2 * parent_index i + 1 ≡ i - 1 = ground arith in
      let r : 2 * parent_index i + 2 ≡ i = ground arith in
      rw (l, r) (subst (λ (j : ℕ). P (status_at pages j) (status_at pages i)) (ground arith) k)
]

pub PageStatus-discrete : Discrete PageStatus
PageStatus-discrete = hlevel

both_fit : (st l r : PageStatus) → st ≢ split → l ≡ st → r ≡ st → Fits st l r
both_fit empty l r ne p q = (p, q)
both_fit used l r ne p q = inr (p, q)
both_fit split l r ne p q = absurd (ne refl)

one_mixes : (st l r : PageStatus) → st ≢ split → l ≡ st → r ≢ st → Fits split l r × Fits split r l
one_mixes empty l r ne p q =
    (((λ h. q h.1), λ h. let z = h.0 in cc), ((λ h. q h.0), λ h. let z = h.1 in cc))
one_mixes used l r ne p q =
    (((λ h. let z = h.0 in cc), λ h. q h.1), ((λ h. let z = h.1 in cc), λ h. q h.0))
one_mixes split l r ne p q = absurd (ne refl)

-- From a node of status `st`, the update of what is above it makes every node right.
pub update-Tidy :
    (st : PageStatus) (fuel n : ℕ) (pages : List PageStatus) (i : ℕ)
    → st ≢ split
    → i < fuel
    → i < n
    → length pages ≡ n
    → Mended n pages i
    → status_at pages i ≡ st
    → Tidy n (update_nodes_status st fuel pages i)
update-Tidy st zero n pages i ns f lt size m e = absurd (omega arith)
update-Tidy st (suc fuel) n pages zero ns f lt size m e =
    rw (update_ends st fuel pages 0 (inl refl))
      (split_ancestors-Tidy 0 n pages 0 (omega arith) lt size m (λ z. absurd (omega arith)))
update-Tidy st (suc fuel) n pages (suc i) ns f lt size m e =
    elim (PageStatus-discrete (status_at pages (get_buddy_index (suc i))) st) [
      | yes same ↦
          let p = parent_index (suc i) in
          rw (update_step st fuel pages (suc i) (omega arith) same) (
            update-Tidy st fuel n (set pages p st) p ns (omega arith) (omega arith)
              (length-set pages p st ∙ size)
              (Mended-up n pages (suc i) st (omega arith) lt size m (
                buddies (Fits st) pages (suc i) (omega arith) (both_fit st _ _ ns e same)
                  (both_fit st _ _ ns same e)))
              (status-set_self pages p st (omega arith)))
      | no other ↦
          let mixes = one_mixes st _ _ ns e other in
          rw (update_ends st fuel pages (suc i) (inr other)) (
            split_ancestors-Tidy (suc i) n pages (suc i) (omega arith) lt size m
              (λ pos. buddies (Fits split) pages (suc i) pos mixes.0 mixes.1))
    ]
