-- ===== src/MemoryManager/Search.antt =====
-- Where the search of `first_suitable_offset` goes: every place it comes to is a node of the tree, with
-- its order and the size of its block, and no node above it is USED.
use native.Mathlib.Nat.{mul-le-mul_right, pow-le-pow_right, pow-succ'}
use native.Mathlib.Decide.{ℕ_discrete}
use horaci_os.Prelude.{
  ℕ, zero, suc, ◌+◌, ◌*◌, ◌/◌, ◌%◌, ◌^◌, ◌<◌, ◌≤◌, ◌≡◌, ◌≢◌, refl, sym, ap, subst, ◌∙◌, inl, inr,
  List, none, some, true, false, arith, Bool-cases,
}
use horaci_os.MemoryManager.{
  PageStatus, used, is_status, status_at, parent_index, is_left_child, block_size, Place, up, climb,
  next_possible_index, down,
}
use horaci_os.MemoryManager.Tree.{Above, here, higher}

-- `p` is the node at place `pos` of its order, and its block is of `2 ^ d` times BLOCK_SIZE, in a tree
-- whose root is `max` orders above the leaves.
pub record Stands (max d pos : ℕ) (p : Place) : Type 0 where
  pub level : p.order + d ≡ max
  pub at : p.index + 1 ≡ 2 ^ p.order + pos
  pub inside : pos < 2 ^ p.order
  pub sized : p.size ≡ 2 ^ d * block_size

-- No node above `i` is USED.
abbrev pub Clear : List PageStatus → ℕ → Type 0
Clear pages i = (j : ℕ) → Above j i → status_at pages j ≢ used

root_index : (max d pos : ℕ) (p : Place) → Stands max d pos p → p.order ≡ 0 → p.index ≡ 0
root_index max d pos p s e =
    let one : 2 ^ p.order ≡ 1 = ap (λ (o : ℕ). 2 ^ o) e in
    let i = s.inside in let a = s.at in omega arith

-- The size of a block is far below the greatest word.
size_small : (max d : ℕ) → max < 32 → d ≤ max → 2 ^ d * block_size < 2 ^ 44
size_small max d m le =
    let h = pow-le-pow_right {n = 2} (omega arith) {i = d} {j = 31} (omega arith) in omega arith

up-Stands :
    (max d pos : ℕ) (p : Place)
    → max < 32
    → Stands max d pos p
    → 0 < p.index
    → Stands max (suc d) (pos / 2) (up p)
up-Stands max d pos p small s pos_index = go p.order refl
  where
    go : (o : ℕ) → p.order ≡ o → Stands max (suc d) (pos / 2) (up p)
    go zero e = absurd (let z = root_index max d pos p s e in omega arith)
    go (suc o) e =
        let i = s.inside in
        let a = s.at in
        let l = s.level in
        let z = s.sized in
        let same : (up p).order ≡ o = omega arith in
        let two : 2 ^ p.order ≡ 2 * 2 ^ o = ap (λ (k : ℕ). 2 ^ k) e ∙ omega arith in
        let half : 2 ^ ((up p).order) ≡ 2 ^ o = ap (λ (k : ℕ). 2 ^ k) same in
        record {
          level = omega arith;
          at = omega arith;
          inside = omega arith;
          sized = let b = size_small max d small (omega arith) in omega arith;
        }

sibling-Stands :
    (max d pos : ℕ) (p : Place)
    → Stands max d pos p
    → is_left_child p.index ≡ true
    → Stands max d (pos + 1) (record p { index = p.index + 1 })
sibling-Stands max d pos p s left = go p.order refl
  where
    go : (o : ℕ) → p.order ≡ o → Stands max d (pos + 1) (record p { index = p.index + 1 })
    go zero e = absurd (let z = root_index max d pos p s e in ground arith)
    go (suc o) e =
        let i = s.inside in
        let a = s.at in
        let two : 2 ^ p.order ≡ 2 * 2 ^ o = ap (λ (k : ℕ). 2 ^ k) e ∙ omega arith in
        let odd : p.index % 2 ≡ 1 = ground arith in
        record { level = s.level; at = omega arith; inside = omega arith; sized = s.sized }

Above-sibling : (i j : ℕ) → is_left_child i ≡ true → Above j (i + 1) → Above j i
Above-sibling i j left (here _ pos e) = here i (ground arith) (ground arith)
Above-sibling i j left (higher _ pos a) =
    let same : parent_index (i + 1) ≡ parent_index i = ground arith in
    higher i (ground arith) (subst (Above j) same a)

-- A place that the search may come to after a node of depth `d`: it is no deeper, and `b` blocks or more
-- are before it.
abbrev pub Ahead : ℕ → ℕ → ℕ → List PageStatus → Place → Type 0
Ahead max d b pages q =
    (d' : ℕ) × (pos : ℕ) × (d ≤ d') × (b ≤ pos * 2 ^ d') × Stands max d' pos q × Clear pages q.index

next-sibling :
    (max d pos : ℕ) (pages : List PageStatus) (p : Place)
    → Stands max d pos p
    → Clear pages p.index
    → is_left_child p.index ≡ true
    → Ahead max d ((pos + 1) * 2 ^ d) pages (record p { index = p.index + 1 })
next-sibling max d pos pages p s clear left = (
  d,
  pos + 1,
  omega arith,
  omega arith,
  sibling-Stands max d pos p s left,
  λ j a. clear j (Above-sibling p.index j left a),
)

double : (n x : ℕ) → n * (2 * x) ≡ n * 2 * x
double n x = grind arith

double_pow : (n d : ℕ) → n * 2 ^ suc d ≡ n * 2 * 2 ^ d
double_pow n d = ap (λ (k : ℕ). n * k) (pow-succ' 2 d) ∙ double n (2 ^ d)

-- A node of twice the size that comes later is behind all of this one.
twice_behind : (d pos : ℕ) → (pos + 1) * 2 ^ d ≤ (pos / 2 + 1) * 2 ^ suc d
twice_behind d pos =
    let le = mul-le-mul_right {m = pos + 1} {n = (pos / 2 + 1) * 2} (2 ^ d) (omega arith) in
    subst (λ (k : ℕ). (pos + 1) * 2 ^ d ≤ k) (sym (double_pow (pos / 2 + 1) d)) le

-- A child of a node does not come before it.
child_behind : (d pos side : ℕ) → pos * 2 ^ suc d ≤ (2 * pos + side) * 2 ^ d
child_behind d pos side =
    let le = mul-le-mul_right {m = pos * 2} {n = 2 * pos + side} (2 ^ d) (omega arith) in
    subst (λ (k : ℕ). k ≤ (2 * pos + side) * 2 ^ d) (sym (double_pow pos d)) le

pub climb_stop : (fuel : ℕ) (p : Place) → p.index ≡ 0 → climb fuel p ≡ none
unfolding climb
climb_stop zero p e = refl
climb_stop (suc fuel) p e = ground arith

pub climb_found :
    (fuel : ℕ) (p : Place)
    → 0 < p.index
    → is_left_child (parent_index p.index) ≡ true
    → climb (suc fuel) p ≡ some (record (up p) { index = parent_index p.index + 1 })
unfolding climb
climb_found fuel p pos left = ground arith

pub climb_on :
    (fuel : ℕ) (p : Place)
    → 0 < p.index
    → is_left_child (parent_index p.index) ≡ false
    → climb (suc fuel) p ≡ climb fuel (up p)
unfolding climb
climb_on fuel p pos right = ground arith

climb-Ahead :
    (fuel max d pos : ℕ) (pages : List PageStatus) (p q : Place)
    → max < 32
    → Stands max d pos p
    → Clear pages p.index
    → climb fuel p ≡ some q
    → Ahead max d ((pos + 1) * 2 ^ d) pages q
unfolding climb
climb-Ahead zero max d pos pages p q small s clear e = cc
climb-Ahead (suc fuel) max d pos pages p q small s clear e = elim (ℕ_discrete p.index 0) [
  | yes root ↦ absurd (let z = climb_stop (suc fuel) p root in cc)
  | no ne ↦
      let s' = up-Stands max d pos p small s (omega arith) in
      let clear' : Clear pages (up p).index = λ j a. clear j (higher p.index (omega arith) a) in
      elim (Bool-cases (is_left_child (parent_index p.index))) [
        | inl left ↦
            let (d', pos', le, b, t, c) =
              next-sibling max (suc d) (pos / 2) pages (up p) s' clear' left in
            let same = climb_found fuel p (omega arith) left in
            let behind = twice_behind d pos in
            subst (Ahead max d ((pos + 1) * 2 ^ d) pages) (let both = sym same ∙ e in cc)
              (d', pos', omega arith, omega arith, t, c)
        | inr right ↦
            let (d', pos', le, b, t, c) =
              climb-Ahead fuel max (suc d) (pos / 2) pages (up p) q small s' clear'
                (sym (climb_on fuel p (omega arith) right) ∙ e) in
            let behind = twice_behind d pos in (d', pos', omega arith, omega arith, t, c)
      ]
]

pub next-Ahead :
    (max d pos : ℕ) (pages : List PageStatus) (p q : Place)
    → max < 32
    → Stands max d pos p
    → Clear pages p.index
    → next_possible_index p ≡ some q
    → Ahead max d ((pos + 1) * 2 ^ d) pages q
unfolding next_possible_index
next-Ahead max d pos pages p q small s clear e = elim (Bool-cases (is_left_child p.index)) [
  | inl left ↦
      subst (Ahead max d ((pos + 1) * 2 ^ d) pages) (ground arith)
        (next-sibling max d pos pages p s clear left)
  | inr right ↦ climb-Ahead (p.index + 1) max d pos pages p q small s clear (ground arith)
]

child-Stands :
    (max d pos side : ℕ) (p : Place)
    → Stands max (suc d) pos p
    → side < 2
    → Stands max d
        (2 * pos + side)
        (record { index = 2 * p.index + 1 + side; order = p.order + 1; size = p.size / 2 })
child-Stands max d pos side p s lt =
    let i = s.inside in
    let a = s.at in
    let l = s.level in
    let z = s.sized in
    let one : p.order + 1 ≡ suc p.order = omega arith in
    let two : 2 ^ (p.order + 1) ≡ 2 * 2 ^ p.order =
      ap (λ (k : ℕ). 2 ^ k) one ∙ pow-succ' 2 p.order in
    record { level = omega arith; at = omega arith; inside = omega arith; sized = omega arith }

-- Going down from a node that is not USED.
pub down-Ahead :
    (max d pos : ℕ) (pages : List PageStatus) (p : Place)
    → Stands max (suc d) pos p
    → Clear pages p.index
    → status_at pages p.index ≢ used
    → Ahead max d (pos * 2 ^ suc d) pages (down pages p)
unfolding down
down-Ahead max d pos pages p s clear free =
    elim (Bool-cases (is_status (status_at pages (2 * p.index + 1)) used)) [
      | inl right ↦
          rw (right, down)
            (
              d,
              2 * pos + 1,
              omega arith,
              child_behind d pos 1,
              subst
                  (λ (i : ℕ).
                    Stands max d (2 * pos + 1)
                      (record { index = i; order = p.order + 1; size = p.size / 2 }))
                  (omega arith) (child-Stands max d pos 1 p s (omega arith)),
              above (2 * p.index + 2) (omega arith) (omega arith),
            )
      | inr left ↦
          rw (left, down)
            (
              d,
              2 * pos + 0,
              omega arith,
              child_behind d pos 0,
              subst
                  (λ (i : ℕ).
                    Stands max d (2 * pos + 0)
                      (record { index = i; order = p.order + 1; size = p.size / 2 }))
                  (omega arith) (child-Stands max d pos 0 p s (omega arith)),
              above (2 * p.index + 1) (omega arith) (omega arith),
            )
    ]
  where
    above : (c : ℕ) → 0 < c → parent_index c ≡ p.index → Clear pages c
    above c pos e j (here _ _ h) = subst (λ (k : ℕ). status_at pages k ≢ used) (sym (h ∙ e)) free
    above c pos e j (higher _ _ a) = clear j (subst (Above j) e a)
