-- ===== src/MemoryManager/Taken.antt =====
-- What the search of `first_suitable_offset` finds: a free node of the needed size, below no node that is
-- USED.
use native.Mathlib.Nat.{pow-le-pow_right, one-le-pow}
use native.Mathlib.Decide.{ℕ_discrete}
use horaci_os.Prelude.{
  ℕ, zero, suc, ◌*◌, ◌^◌, ◌<◌, ◌≤◌, ◌≡◌, ◌≢◌, refl, sym, ap, subst, ◌∙◌, inl, inr, List, Option,
  none, some, arith, Option-cases,
}
use horaci_os.MemoryManager.{
  PageStatus, empty, used, split, status_at, block_size, Place, next_possible_index, down, search,
}
use horaci_os.MemoryManager.Tree.{is_status_of_eq, is_status_eq}
use horaci_os.MemoryManager.Search.{Stands, Clear, Ahead, next-Ahead, down-Ahead}

pub same_depth : (t d : ℕ) → t ≤ d → 2 ^ t * block_size ≡ 2 ^ d * block_size → t ≡ d
same_depth t d le e = elim (ℕ_discrete t d) [
  | yes same ↦ same
  | no ne ↦ absurd (
      let h = pow-le-pow_right {n = 2} (omega arith) {i = suc t} {j = d} (omega arith) in
      let one = one-le-pow t 2 (omega arith) in omega arith)
]

-- The search goes on behind a place that it cannot take.
abbrev pub go_on : Option Place → ℕ → ℕ → List PageStatus → Place → Option Place
go_on spent fuel needed pages p = elim (next_possible_index p) [
  | none ↦ none
  | some q ↦ search spent fuel needed pages q
]

pub search-used :
    (spent : Option Place) (fuel needed : ℕ) (pages : List PageStatus) (p : Place)
    → status_at pages p.index ≡ used
    → search spent (suc fuel) needed pages p ≡ go_on spent fuel needed pages p
unfolding search
search-used spent fuel needed pages p u =
    ground (arith, is_status_of_eq (status_at pages p.index) used u)

pub search_deeper :
    (spent : Option Place) (fuel needed : ℕ) (pages : List PageStatus) (p : Place)
    → status_at pages p.index ≢ used
    → needed ≢ p.size
    → search spent (suc fuel) needed pages p ≡ search spent fuel needed pages (down pages p)
unfolding search
search_deeper spent fuel needed pages p u s =
    ground (arith, is_status_eq (status_at pages p.index) used)

pub search_taken :
    (spent : Option Place) (fuel needed : ℕ) (pages : List PageStatus) (p : Place)
    → status_at pages p.index ≡ empty
    → needed ≡ p.size
    → search spent (suc fuel) needed pages p ≡ some p
unfolding search
search_taken spent fuel needed pages p u s = rw u (ground arith)

pub search_split :
    (spent : Option Place) (fuel needed : ℕ) (pages : List PageStatus) (p : Place)
    → status_at pages p.index ≡ split
    → needed ≡ p.size
    → search spent (suc fuel) needed pages p ≡ go_on spent fuel needed pages p
unfolding search
search_split spent fuel needed pages p u s = rw u (ground arith)

-- A free node of the needed size, below no node that is USED.
abbrev pub Found : ℕ → ℕ → List PageStatus → Place → Type 0
Found max t pages q =
    (pos : ℕ) × Stands max t pos q × Clear pages q.index × (status_at pages q.index ≡ empty)

module _ (fuel max t : ℕ) (pages : List PageStatus) (p q : Place) (small : max < 32)
    (again : (r : Place)
      → Ahead max t 0 pages r
      → search none fuel (2 ^ t * block_size) pages r ≡ some q
      → Found max t pages q)
    (e : search none (suc fuel) (2 ^ t * block_size) pages p ≡ some q) where
  finds_onwards :
      (d pos : ℕ)
      → t ≤ d
      → Stands max d pos p
      → Clear pages p.index
      → go_on none fuel (2 ^ t * block_size) pages p ≡ some q
      → Found max t pages q
  finds_onwards d pos le s clear h = elim (Option-cases (next_possible_index p)) [
    | inl end ↦ absurd (ground arith)
    | inr (r, next) ↦
        let (d', pos', le', b, s', clear') = next-Ahead max d pos pages p r small s clear next in
        again r (d', pos', omega arith, omega arith, s', clear') (ground arith)
  ]

  finds_deeper :
      (d pos : ℕ)
      → t < d
      → Stands max d pos p
      → Clear pages p.index
      → status_at pages p.index ≢ used
      → Found max t pages q
  finds_deeper zero pos lt s clear free = absurd (omega arith)
  finds_deeper (suc d) pos lt s clear free =
      let (d', pos', le', b, s', clear') = down-Ahead max d pos pages p s clear free in
      let z = s.sized in
      let other : 2 ^ t * block_size ≢ p.size =
        λ h. let same = same_depth t (suc d) (omega arith) (h ∙ z) in omega arith in
      again (down pages p) (d', pos', omega arith, omega arith, s', clear')
        (sym (search_deeper none fuel (2 ^ t * block_size) pages p free other) ∙ e)

  finds_step :
      (d pos : ℕ)
      → t ≤ d
      → Stands max d pos p
      → Clear pages p.index
      → (st : PageStatus) → status_at pages p.index ≡ st
      → Found max t pages q
  finds_step d pos le s clear used u =
      finds_onwards d pos le s clear
        (sym (search-used none fuel (2 ^ t * block_size) pages p u) ∙ e)
  finds_step d pos le s clear empty u = elim (ℕ_discrete t d) [
    | yes same ↦
        let z : 2 ^ t * block_size ≡ p.size =
          ap (λ (k : ℕ). 2 ^ k * block_size) same ∙ sym s.sized in
        let both = sym (search_taken none fuel (2 ^ t * block_size) pages p u z) ∙ e in
        let here : p ≡ q = cc in
        subst (Found max t pages) here
          (pos, subst (λ (k : ℕ). Stands max k pos p) (sym same) s, clear, u)
    | no ne ↦ finds_deeper d pos (omega arith) s clear (λ h. let z = sym u ∙ h in cc)
  ]
  finds_step d pos le s clear split u = elim (ℕ_discrete t d) [
    | yes same ↦
        let z : 2 ^ t * block_size ≡ p.size =
          ap (λ (k : ℕ). 2 ^ k * block_size) same ∙ sym s.sized in
        finds_onwards d pos le s clear
          (sym (search_split none fuel (2 ^ t * block_size) pages p u z) ∙ e)
    | no ne ↦ finds_deeper d pos (omega arith) s clear (λ h. let z = sym u ∙ h in cc)
  ]

pub search_finds :
    (fuel max t : ℕ) (pages : List PageStatus) (p q : Place)
    → max < 32
    → Ahead max t 0 pages p
    → search none fuel (2 ^ t * block_size) pages p ≡ some q
    → Found max t pages q
unfolding search
search_finds zero max t pages p q small n e = cc
search_finds (suc fuel) max t pages p q small (d, pos, le, b, s, clear) e =
    finds_step fuel max t pages p q small (λ r n h. search_finds fuel max t pages r q small n h) e d
      pos le s clear (status_at pages p.index) refl
