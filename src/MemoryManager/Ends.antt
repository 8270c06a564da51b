-- ===== src/MemoryManager/Ends.antt =====
-- The search of `first_suitable_offset` ends within its fuel.
use native.Mathlib.Nat.{mul-le-mul_right, one-le-pow}
use native.Mathlib.Decide.{ℕ_discrete}
use horaci_os.Prelude.{
  ℕ, zero, suc, ◌+◌, ◌-◌, ◌*◌, ◌/◌, ◌^◌, ◌<◌, ◌≤◌, ◌≡◌, ◌≢◌, refl, sym, ap, subst, ◌∙◌, List,
  Option, none, some, arith, inl, inr, Option-cases, Bool-cases,
}
use horaci_os.MemoryManager.{
  MemoryManager, search_fuel, amount_of_blocks, amount_of_blocks_needed, PageStatus, empty, used,
  split, status_at, block_size, Place, up, climb, down, next_possible_index, search, parent_index,
  is_left_child,
}
use horaci_os.MemoryManager.Malloc.{Sound, root, root-Stands, needed_lem, block_inside}
use horaci_os.MemoryManager.Search.{
  Stands, Clear, climb_stop, climb_found, climb_on, next-Ahead, down-Ahead,
}
use horaci_os.MemoryManager.Taken.{
  same_depth, go_on, search-used, search_deeper, search_taken, search_split,
}

-- What is left to do at a place: the blocks from it on, and the orders below it.
abbrev pub left_over : ℕ → ℕ → ℕ → ℕ
left_over max d pos = (2 ^ max - pos * 2 ^ d) * (max + 1) + d

later_less : (a a' n d d' : ℕ) → a' < a → d' < n → a' * n + d' < a * n + d
later_less a a' n d d' lt small =
    let le = mul-le-mul_right {m = suc a'} {n = a} n lt in
    let e : suc a' * n ≡ a' * n + n = grind arith in omega arith

deeper_less : (a a' n d d' : ℕ) → a' ≤ a → d' < d → a' * n + d' < a * n + d
deeper_less a a' n d d' le lt = let h = mul-le-mul_right {m = a'} {n = a} n le in omega arith

-- A place in the tree has blocks behind its start.
starts_inside :
    (max d pos : ℕ) (p : Place) → Stands max d pos p → (pos + 1) * 2 ^ d ≡ pos * 2 ^ d + 2 ^ d
starts_inside max d pos p s = grind arith

next_less :
    (max d d' pos pos' : ℕ) (p q : Place)
    → Stands max d pos p
    → Stands max d' pos' q
    → (pos + 1) * 2 ^ d ≤ pos' * 2 ^ d'
    → left_over max d' pos' < left_over max d pos
next_less max d d' pos pos' p q s t behind =
    let inside = block_inside max d pos p s in
    let l = t.level in
    let e = starts_inside max d pos p s in
    let one = one-le-pow d 2 (omega arith) in
    later_less (2 ^ max - pos * 2 ^ d) (2 ^ max - pos' * 2 ^ d') (max + 1) d d' (omega arith)
      (omega arith)

down_level :
    (max d d' pos pos' : ℕ) (pages : List PageStatus) (p : Place)
    → Stands max (suc d) pos p
    → Stands max d' pos' (down pages p)
    → d' ≡ d
unfolding down
down_level max d d' pos pos' pages p s t = let a = s.level in let b = t.level in omega arith

go_on-none :
    (spent : Option Place) (fuel needed : ℕ) (pages : List PageStatus) (p : Place)
    → next_possible_index p ≡ none
    → go_on spent fuel needed pages p ≡ none
go_on-none spent fuel needed pages p e = ground arith

go_on-some :
    (spent : Option Place) (fuel needed : ℕ) (pages : List PageStatus) (p q : Place)
    → next_possible_index p ≡ some q
    → go_on spent fuel needed pages p ≡ search spent fuel needed pages q
go_on-some spent fuel needed pages p q e = ground arith

-- The search from `p` with some fuel.
module _ (spent other : Option Place) (fuel more max t : ℕ) (pages : List PageStatus) (p : Place)
    (small : max < 32)
    (again : (r : Place) (d pos : ℕ)
      → t ≤ d
      → Stands max d pos r
      → Clear pages r.index
      → left_over max d pos < fuel
      → search spent fuel (2 ^ t * block_size) pages r
        ≡ search other (fuel + more) (2 ^ t * block_size) pages r) where
  onwards_ends :
      (d pos : ℕ)
      → t ≤ d
      → Stands max d pos p
      → Clear pages p.index
      → left_over max d pos < suc fuel
      → go_on spent fuel (2 ^ t * block_size) pages p
        ≡ go_on other (fuel + more) (2 ^ t * block_size) pages p
  onwards_ends d pos le s clear lt = elim (Option-cases (next_possible_index p)) [
    | inl end ↦
        go_on-none spent fuel (2 ^ t * block_size) pages p end
        ∙ sym (go_on-none other (fuel + more) (2 ^ t * block_size) pages p end)
    | inr (q, next) ↦
        let (d', pos', le', b, s', clear') = next-Ahead max d pos pages p q small s clear next in
        let less = next_less max d d' pos pos' p q s s' b in
        go_on-some spent fuel (2 ^ t * block_size) pages p q next
        ∙ again q d' pos' (omega arith) s' clear' (omega arith)
        ∙ sym (go_on-some other (fuel + more) (2 ^ t * block_size) pages p q next)
  ]

  deeper_ends :
      (d pos : ℕ)
      → t < d
      → Stands max d pos p
      → Clear pages p.index
      → status_at pages p.index ≢ used
      → left_over max d pos < suc fuel
      → search spent (suc fuel) (2 ^ t * block_size) pages p
        ≡ search other (suc (fuel + more)) (2 ^ t * block_size) pages p
  deeper_ends zero pos lt s clear free h = absurd (omega arith)
  deeper_ends (suc d) pos lt s clear free h =
      let (d', pos', le', b, s', clear') = down-Ahead max d pos pages p s clear free in
      let z = s.sized in
      let larger : 2 ^ t * block_size ≢ p.size =
        λ e. let same = same_depth t (suc d) (omega arith) (e ∙ z) in omega arith in
      let same : d' ≡ d = down_level max d d' pos pos' pages p s s' in
      let less =
        deeper_less (2 ^ max - pos * 2 ^ suc d) (2 ^ max - pos' * 2 ^ d') (max + 1) (suc d) d'
          (omega arith) (omega arith) in
      search_deeper spent fuel (2 ^ t * block_size) pages p free larger
      ∙ again (down pages p) d' pos' (omega arith) s' clear' (omega arith)
      ∙ sym (search_deeper other (fuel + more) (2 ^ t * block_size) pages p free larger)

  ends_step :
      (d pos : ℕ)
      → t ≤ d
      → Stands max d pos p
      → Clear pages p.index
      → left_over max d pos < suc fuel
      → (st : PageStatus) → status_at pages p.index ≡ st
      → search spent (suc fuel) (2 ^ t * block_size) pages p
        ≡ search other (suc (fuel + more)) (2 ^ t * block_size) pages p
  ends_step d pos le s clear lt used u =
      search-used spent fuel (2 ^ t * block_size) pages p u
      ∙ onwards_ends d pos le s clear lt
      ∙ sym (search-used other (fuel + more) (2 ^ t * block_size) pages p u)
  ends_step d pos le s clear lt empty u = elim (ℕ_discrete t d) [
    | yes same ↦
        let z : 2 ^ t * block_size ≡ p.size =
          ap (λ (k : ℕ). 2 ^ k * block_size) same ∙ sym s.sized in
        search_taken spent fuel (2 ^ t * block_size) pages p u z
        ∙ sym (search_taken other (fuel + more) (2 ^ t * block_size) pages p u z)
    | no ne ↦ deeper_ends d pos (omega arith) s clear (λ h. let z = sym u ∙ h in cc) lt
  ]
  ends_step d pos le s clear lt split u = elim (ℕ_discrete t d) [
    | yes same ↦
        let z : 2 ^ t * block_size ≡ p.size =
          ap (λ (k : ℕ). 2 ^ k * block_size) same ∙ sym s.sized in
        search_split spent fuel (2 ^ t * block_size) pages p u z
        ∙ onwards_ends d pos le s clear lt
        ∙ sym (search_split other (fuel + more) (2 ^ t * block_size) pages p u z)
    | no ne ↦ deeper_ends d pos (omega arith) s clear (λ h. let z = sym u ∙ h in cc) lt
  ]

-- With more fuel than there is left to do, the search comes to what it does with still more, and does not run out of it.
search_ends :
    (spent other : Option Place) (fuel more max t d pos : ℕ) (pages : List PageStatus) (p : Place)
    → max < 32
    → t ≤ d
    → Stands max d pos p
    → Clear pages p.index
    → left_over max d pos < fuel
    → search spent fuel (2 ^ t * block_size) pages p
      ≡ search other (fuel + more) (2 ^ t * block_size) pages p
search_ends spent other zero more max t d pos pages p small le s clear lt = absurd (omega arith)
search_ends spent other (suc fuel) more max t d pos pages p small le s clear lt =
    ends_step spent other fuel more max t pages p small
      (λ r d' pos' le' s' clear' lt'.
        search_ends spent other fuel more max t d' pos' pages r small le' s' clear' lt')
      d pos le s clear lt (status_at pages p.index) refl
    ∙ ap (λ (k : ℕ). search other k (2 ^ t * block_size) pages p) (omega arith)

fuel_enough : (max : ℕ) (m : MemoryManager) → Sound max m → left_over max max 0 < search_fuel m
unfolding search_fuel amount_of_blocks
fuel_enough max m v =
    let a : m.memory_available / block_size ≡ 2 ^ max =
      ap (λ (k : ℕ). k / block_size) v.available ∙ omega arith in
    let o = v.order in rw (a, o) (grind arith)

-- For a sound memory and a number of bytes that it could hold: the loop of first_suitable_offset comes to its
-- end within its fuel. It makes no difference what stands for a loop that has run out of fuel (`spent`), nor
-- whether there is more of it.
pub first_suitable_offset_ends :
    (max bytes more : ℕ) (spent : Option Place) (m : MemoryManager)
    → Sound max m
    → bytes ≤ m.memory_available
    → let needed = amount_of_blocks_needed m.memory_available bytes in
      search spent (search_fuel m) needed m.pages (root m)
      ≡ search none (search_fuel m + more) needed m.pages (root m)
unfolding root
first_suitable_offset_ends max bytes more spent m v fits =
    let (t, le, enough, e) = needed_lem max bytes m v fits in
    let (stands, clear) = root-Stands max m v in
    subst
      (λ (n : ℕ).
        search spent (search_fuel m) n m.pages (root m)
        ≡ search none (search_fuel m + more) n m.pages (root m))
      (sym e)
      (search_ends spent none (search_fuel m) more max t max 0 m.pages (root m) v.small le stands
        clear (fuel_enough max m v))

climb_same :
    (fuel more : ℕ) (p : Place)
    → (0 < p.index → climb fuel (up p) ≡ climb (fuel + more) (up p))
    → climb (suc fuel) p ≡ climb (suc (fuel + more)) p
climb_same fuel more p again = elim (ℕ_discrete p.index 0) [
  | yes top ↦ climb_stop (suc fuel) p top ∙ sym (climb_stop (suc (fuel + more)) p top)
  | no ne ↦ elim (Bool-cases (is_left_child (parent_index p.index))) [
    | inl left ↦
        climb_found fuel p (omega arith) left ∙ sym (climb_found (fuel + more) p (omega arith) left)
    | inr right ↦
        climb_on fuel p (omega arith) right
        ∙ again (omega arith)
        ∙ sym (climb_on (fuel + more) p (omega arith) right)
  ]
]

-- The way up from a node needs no more fuel than its index: with more than that, still more changes
-- nothing.
pub climb_ends : (fuel more : ℕ) (p : Place) → p.index < fuel → climb fuel p ≡ climb (fuel + more) p
climb_ends zero more p lt = absurd (omega arith)
climb_ends (suc fuel) more p lt =
    climb_same fuel more p (λ pos. climb_ends fuel more (up p) (omega arith))
    ∙ ap (λ (k : ℕ). climb k p) (omega arith)
