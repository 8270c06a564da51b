-- ===== src/MemoryManager/Malloc.antt =====
-- What `malloc` gives out, and that it keeps the tree in order.
use native.Mathlib.Nat.{pow-le-pow_right, mul-le-mul_right}
use native.Mathlib.Decide.{ℕ_discrete, dec_lt}
use horaci_os.Prelude.{
  ℕ, zero, suc, ◌+◌, ◌-◌, ◌*◌, ◌%◌, ◌^◌, ◌<◌, ◌≤◌, ◌≡◌, ◌≢◌, refl, sym, ap, ap₂, subst, ◌∙◌, ◌⊎◌,
  inl, inr, List, Option, none, some, arith, Option-cases, set,
}
use horaci_os.MemoryManager.{
  MemoryManager, PageStatus, empty, used, split, status_at, parent_index, block_size, heap_size,
  Place, round_up, amount_of_blocks_needed, search, first_suitable_offset, calculate_offset, malloc,
  update_used_nodes_status, search_fuel,
}
use horaci_os.MemoryManager.Tree.{
  Above, here, higher, Local, Mended, Tidy, Fits, Local-set, Local-set_self,
}
use horaci_os.MemoryManager.Search.{Stands, Clear, Ahead}
use horaci_os.MemoryManager.Taken.{Found, search_finds}

-- The memory is `2 ^ max` blocks, the array has a node for each block of each size, and the statuses
-- agree.
pub record Sound (max : ℕ) (m : MemoryManager) : Type 0 where
  pub small : max < 32
  pub available : m.memory_available ≡ 2 ^ max * block_size
  pub order : m.max_order ≡ max
  pub nodes : heap_size m.memory_available + 1 ≡ 2 ^ suc max
  pub tidy : Tidy (heap_size m.memory_available) m.pages

-- `bytes` are rounded up to a block of some order of the tree.
round_up_lem :
    (fuel max j bytes : ℕ)
    → max < fuel + j
    → j ≤ max
    → bytes ≤ 2 ^ max * block_size
    → (t : ℕ) × (t ≤ max)
      × (bytes ≤ 2 ^ t * block_size)
      × (round_up fuel (2 ^ max * block_size) bytes (2 ^ j * block_size) ≡ 2 ^ t * block_size)
unfolding round_up
round_up_lem zero max j bytes f le fits = absurd (omega arith)
round_up_lem (suc fuel) max j bytes f le fits = elim (dec_lt (2 ^ j * block_size) bytes) [
  | no enough ↦ (j, le, omega arith, ground arith)
  | yes more ↦ elim (ℕ_discrete j max) [
    | yes top ↦ absurd (let e : 2 ^ j ≡ 2 ^ max = ap (λ (k : ℕ). 2 ^ k) top in omega arith)
    | no ne ↦
        let (t, le', fits', e) =
          round_up_lem fuel max (suc j) bytes (omega arith) (omega arith) fits in
        let twice : 2 ^ j * block_size * 2 ≡ 2 ^ suc j * block_size = omega arith in
        let e' : round_up fuel (2 ^ max * block_size) bytes (2 ^ j * block_size * 2)
            ≡ 2 ^ t * block_size =
          ap (round_up fuel (2 ^ max * block_size) bytes) twice ∙ e in
        (t, le', fits', ground (arith, e'))
  ]
]

Fits-empty : (st l r : PageStatus) → st ≡ empty → Fits st l r → (l ≡ empty) × (r ≡ empty)
Fits-empty empty l r e f = f
Fits-empty used l r e f = absurd (cc)
Fits-empty split l r e f = absurd (cc)

child-empty :
    (n : ℕ) (pages : List PageStatus) (j : ℕ)
    → Tidy n pages
    → 0 < j
    → j < n
    → n % 2 ≡ 1
    → status_at pages (parent_index j) ≡ empty
    → status_at pages j ≡ empty
child-empty n pages j tidy pos lt odd e =
    let p = parent_index j in
    let (l, r) = Fits-empty _ _ _ e (tidy.1 p (omega arith)) in
    elim (ℕ_discrete j (2 * p + 1)) [
      | yes left ↦ subst (λ (k : ℕ). status_at pages k ≡ empty) (sym left) l
      | no right ↦ subst (λ (k : ℕ). status_at pages k ≡ empty) (omega arith) r
    ]

-- Below an EMPTY node all is EMPTY.
pub empty_below :
    (n : ℕ) (pages : List PageStatus) (i j : ℕ)
    → Tidy n pages
    → status_at pages i ≡ empty
    → Above i j
    → j < n
    → n % 2 ≡ 1
    → status_at pages j ≡ empty
empty_below n pages i j tidy e (here _ pos h) lt odd =
    child-empty n pages j tidy pos lt odd (subst (λ (k : ℕ). status_at pages k ≡ empty) h e)
empty_below n pages i j tidy e (higher _ pos a) lt odd =
    child-empty n pages j tidy pos lt odd
      (empty_below n pages i (parent_index j) tidy e a (omega arith) odd)

-- Marking a free node leaves only the nodes above it to be put right.
pub set-Mended :
    (n : ℕ) (pages : List PageStatus) (i : ℕ)
    → Tidy n pages
    → i < n
    → status_at pages i ≡ empty
    → Mended n (set pages i used) i
set-Mended n pages i tidy lt e j jn = elim (ℕ_discrete j i) [
  | yes same ↦ inl (
      subst (Local (set pages i used)) (sym same) (
        Local-set_self pages i used (let s = tidy.0 in omega arith)
          (inl (Fits-empty _ _ _ e (tidy.1 i (omega arith))))))
  | no ne ↦ elim (ℕ_discrete j (parent_index i)) [
    | yes up ↦ inr (here i (omega arith) up)
    | no far ↦ inl (Local-set pages i j used ne (λ z. far) (tidy.1 j jn))
  ]
]

pub two_pow_add : (a b : ℕ) → 2 ^ (a + b) ≡ 2 ^ a * 2 ^ b
two_pow_add a zero = let e : a + zero ≡ a = omega arith in ap (λ (k : ℕ). 2 ^ k) e ∙ omega arith
two_pow_add a (suc b) =
    let e : a + suc b ≡ suc (a + b) = omega arith in
    let ih = two_pow_add a b in ap (λ (k : ℕ). 2 ^ k) e ∙ grind arith

-- The block of a node is inside the memory.
pub block_inside : (max d pos : ℕ) (p : Place) → Stands max d pos p → (pos + 1) * 2 ^ d ≤ 2 ^ max
block_inside max d pos p s =
    let le =
      mul-le-mul_right {m = pos + 1} {n = 2 ^ p.order} (2 ^ d) (let i = s.inside in omega arith) in
    let whole : 2 ^ max ≡ 2 ^ p.order * 2 ^ d =
      ap (λ (k : ℕ). 2 ^ k) (sym s.level) ∙ two_pow_add p.order d in
    omega arith

pub index_inside : (max d pos : ℕ) (p : Place) → Stands max d pos p → p.index + 1 < 2 ^ suc max
index_inside max d pos p s =
    let i = s.inside in
    let a = s.at in
    let l = s.level in
    let le = pow-le-pow_right {n = 2} (omega arith) {i = p.order} {j = max} (omega arith) in
    omega arith

-- The node that a successful `malloc` marks, of `2 ^ t` blocks, at place `pos` of its order.
pub record Given (max bytes t pos : ℕ) (m : MemoryManager) (p : Place) (a : ℕ) : Type 0 where
  pub enough : bytes ≤ 2 ^ t * block_size
  pub stands : Stands max t pos p
  pub clear : Clear m.pages p.index
  pub free : status_at m.pages p.index ≡ empty
  pub address : a ≡ m.memory_base_address + pos * 2 ^ t * block_size
  pub after :
      (malloc bytes m).1
      ≡ record m { pages = update_used_nodes_status (set m.pages p.index used) p.index }

unfoldable pub root : MemoryManager → Place
root m = record { index = 0; order = 0; size = m.memory_available }

pub root-Stands :
    (max : ℕ) (m : MemoryManager) → Sound max m → Stands max max 0 (root m) × Clear m.pages 0
unfolding root
root-Stands max m v = (
  record { level = omega arith; at = refl; inside = omega arith; sized = v.available },
  λ j a. nothing j a,
)
  where
    nothing : (j : ℕ) → Above j 0 → status_at m.pages j ≢ used
    nothing j (here _ pos e) = absurd (omega arith)
    nothing j (higher _ pos a) = absurd (omega arith)

root-Ahead :
    (max t : ℕ) (m : MemoryManager) → Sound max m → t ≤ max → Ahead max t 0 m.pages (root m)
unfolding root
root-Ahead max t m v le =
    let (stands, clear) = root-Stands max m v in (max, 0, le, omega arith, stands, clear)

-- The search that `malloc` makes.
found : ℕ → MemoryManager → Option Place
unfolding root
found bytes m =
    search none (search_fuel m) (amount_of_blocks_needed m.memory_available bytes) m.pages (root m)

malloc_none : (bytes : ℕ) (m : MemoryManager) → found bytes m ≡ none → malloc bytes m ≡ (none, m)
unfolding malloc first_suitable_offset found root
malloc_none bytes m e = ground arith

malloc_refuses :
    (bytes : ℕ) (m : MemoryManager)
    → (bytes ≡ 0) ⊎ (m.memory_available < bytes)
    → malloc bytes m ≡ (none, m)
unfolding malloc
malloc_refuses bytes m h = ground arith

malloc_marks :
    (bytes : ℕ) (m : MemoryManager) (p : Place)
    → 0 < bytes
    → bytes ≤ m.memory_available
    → found bytes m ≡ some p
    → malloc bytes m ≡ (
      some (m.memory_base_address + calculate_offset m p.index p.order),
      record m { pages = update_used_nodes_status (set m.pages p.index used) p.index },
    )
unfolding malloc first_suitable_offset found root
malloc_marks bytes m p pos fits e = ground arith

pub needed_lem :
    (max bytes : ℕ) (m : MemoryManager)
    → Sound max m
    → bytes ≤ m.memory_available
    → (t : ℕ) × (t ≤ max)
      × (bytes ≤ 2 ^ t * block_size)
      × (amount_of_blocks_needed m.memory_available bytes ≡ 2 ^ t * block_size)
unfolding amount_of_blocks_needed
needed_lem max bytes m v le =
    let s = v.small in
    let a = v.available in
    let (t, le', fits, e) = round_up_lem 32 max 0 bytes (omega arith) (omega arith) (omega arith) in
    (t, le', fits, ap (λ (n : ℕ). round_up 32 n bytes block_size) a ∙ e)

found_lem :
    (max bytes : ℕ) (m : MemoryManager) (p : Place)
    → Sound max m
    → bytes ≤ m.memory_available
    → found bytes m ≡ some p
    → (t : ℕ) × (t ≤ max) × (bytes ≤ 2 ^ t * block_size) × Found max t m.pages p
unfolding found
found_lem max bytes m p v le e =
    let (t, le', fits, n) = needed_lem max bytes m v le in
    (
      t,
      le',
      fits,
      search_finds (search_fuel m) max t m.pages (root m) p v.small (root-Ahead max t m v le')
          (ap (λ (k : ℕ). search none (search_fuel m) k m.pages (root m)) (sym n) ∙ e),
    )

offset_lem :
    (max t pos : ℕ) (m : MemoryManager) (p : Place)
    → m.max_order ≡ max
    → Stands max t pos p
    → calculate_offset m p.index p.order ≡ pos * 2 ^ t * block_size
unfolding calculate_offset
offset_lem max t pos m p o s =
    let a = s.at in
    let l = s.level in
    ap₂ (λ (x y : ℕ). x * 2 ^ y * block_size) {x = p.index + 1 - 2 ^ p.order} {y = pos}
      (omega arith) (omega arith)

no_address :
    (bytes a : ℕ) (m : MemoryManager) → malloc bytes m ≡ (none, m) → (malloc bytes m).0 ≢ some a
no_address bytes a m r e =
    let n : none ≡ some a = sym (ap (λ (x : Option ℕ × MemoryManager). x.0) r) ∙ e in cc

-- `malloc` does nothing, or marks a node.
pub malloc_cases :
    (max bytes : ℕ) (m : MemoryManager)
    → Sound max m
    → (malloc bytes m ≡ (none, m))
      ⊎ ((t : ℕ) × (pos : ℕ) × (p : Place) × (a : ℕ) × ((malloc bytes m).0 ≡ some a)
          × Given max bytes t pos m p a)
malloc_cases max bytes m v = elim (ℕ_discrete bytes 0) [
  | yes z ↦ inl (malloc_refuses bytes m (inl z))
  | no pos_bytes ↦ elim (dec_lt m.memory_available bytes) [
    | yes big ↦ inl (malloc_refuses bytes m (inr big))
    | no fits ↦ elim (Option-cases (found bytes m)) [
      | inl none_left ↦ inl (malloc_none bytes m none_left)
      | inr (p, f) ↦
          let (t, le, enough, (pos, s, clear, free)) = found_lem max bytes m p v (omega arith) f in
          let r = malloc_marks bytes m p (omega arith) (omega arith) f in
          inr (
            t,
            pos,
            p,
            m.memory_base_address + calculate_offset m p.index p.order,
            ap (λ (x : Option ℕ × MemoryManager). x.0) r,
            record {
              enough = enough;
              stands = s;
              clear = clear;
              free = free;
              address =
                  ap (λ (o : ℕ). m.memory_base_address + o) (offset_lem max t pos m p v.order s);
              after = ap (λ (x : Option ℕ × MemoryManager). x.1) r;
            },
          )
    ]
  ]
]

-- A `malloc` that succeeds.
pub malloc_some :
    (max bytes a : ℕ) (m : MemoryManager)
    → Sound max m
    → (malloc bytes m).0 ≡ some a
    → (t : ℕ) × (pos : ℕ) × (p : Place) × Given max bytes t pos m p a
malloc_some max bytes a m v e = elim (malloc_cases max bytes m v) [
  | inl r ↦ absurd (no_address bytes a m r e)
  | inr (t, pos, p, b, r, g) ↦
      let both = sym r ∙ e in
      let same : b ≡ a = cc in (t, pos, p, subst (Given max bytes t pos m p) same g)
]
