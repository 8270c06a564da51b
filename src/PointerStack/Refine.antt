-- ===== src/PointerStack/Refine.antt =====
-- The stack behaves as a list that grows and shrinks at its end.
use horaci_os.Prelude.{
  ℕ, zero, suc, ◌+◌, ◌-◌, ◌<◌, ◌≤◌, ◌≡◌, refl, sym, ap, ap₂, ◌∙◌, List, [], ◌∷◌, ◌++◌, Option, none,
  length, take, set, get_or, length-set, length-append, length-replicate, true, false, arith,
}
use horaci_os.PointerStack.{PointerStack, stack_size, init, peek, push, pop}

-- `xs` are the pointers on the stack, the top one last.
pub record Holds {ℓ} {A : Type ℓ} (s : PointerStack A) (xs : List (Option A)) : Type ℓ where
  pub storage : length s.stack ≡ stack_size
  pub size : s.position ≡ length xs
  pub fits : length xs ≤ stack_size
  pub layout : take (length xs) s.stack ≡ xs

module _ {ℓ} {A : Type ℓ} where
  take-set :
      (l : List (Option A)) (n : ℕ) (x : Option A)
      → n < length l
      → take (suc n) (set l n x) ≡ take n l ++ x ∷ []
  take-set [] n x lt = absurd (omega arith)
  take-set (y ∷ l) zero x lt = refl
  take-set (y ∷ l) (suc n) x lt = ap (◌∷◌ y) (take-set l n x (omega arith))

  -- The items of a prefix that ends with `x`.
  prefix-snoc :
      (l xs : List (Option A)) (x : Option A)
      → take (suc (length xs)) l ≡ xs ++ x ∷ []
      → (take (length xs) l ≡ xs) × (get_or l (length xs) none ≡ x)
  prefix-snoc [] [] x e = cc
  prefix-snoc [] (y ∷ xs) x e = cc
  prefix-snoc (z ∷ l) [] x e = (refl, cc)
  prefix-snoc (z ∷ l) (y ∷ xs) x e =
      let tail : take (suc (length xs)) l ≡ xs ++ x ∷ [] = cc in
      let head : z ≡ y = cc in let (t, g) = prefix-snoc l xs x tail in (ap₂ ◌∷◌ head t, g)

  pub init-Holds : Holds {A = A} init []
  unfolding init
  init-Holds = record {
    storage = length-replicate stack_size none;
    size = refl;
    fits = omega arith;
    layout = refl;
  }

  -- Where there is room, a pointer is pushed behind the others.
  pub push-Holds :
      (s : PointerStack A) (xs : List (Option A)) (x : Option A)
      → Holds s xs
      → length xs < stack_size
      → ((push s x).0 ≡ true) × Holds (push s x).1 (xs ++ x ∷ [])
  unfolding push
  push-Holds s xs x h room =
      let n : length (xs ++ x ∷ []) ≡ suc (length xs) = omega (arith, length-append xs (x ∷ [])) in
      let h₂ = h.size in
      rw (goes s x (omega arith)) (
        refl,
        record {
          storage = length-set s.stack s.position x ∙ h.storage;
          size = omega arith;
          fits = omega arith;
          layout =
              ap₂ (λ (k i : ℕ). take k (set s.stack i x)) n h.size
              ∙ take-set s.stack (length xs) x (let z = h.storage in omega arith)
              ∙ ap (λ (l : List (Option A)). l ++ x ∷ []) h.layout;
        },
      )
    where
      goes :
          (s : PointerStack A) (x : Option A)
          → s.position < stack_size
          → push s x
            ≡ (true, record { stack = set s.stack s.position x; position = s.position + 1 })
      goes s x lt = ground arith

  -- A full stack refuses a pointer and stays as it is.
  pub push_full :
      (s : PointerStack A) (xs : List (Option A)) (x : Option A)
      → Holds s xs
      → length xs ≡ stack_size
      → push s x ≡ (false, s)
  unfolding push
  push_full s xs x h full = let z = h.size in ground arith

  pub pop_empty : (s : PointerStack A) → Holds s [] → pop s ≡ (none, s)
  unfolding pop
  pop_empty s h = let z = h.size in ground arith

  -- The pointer pushed last is the one that `pop` returns and takes off and that `peek` shows.
  pub pop-Holds :
      (s : PointerStack A) (xs : List (Option A)) (x : Option A)
      → Holds s (xs ++ x ∷ [])
      → ((pop s).0 ≡ x) × Holds (pop s).1 xs × (peek s ≡ x)
  unfolding pop peek
  pop-Holds s xs x h =
      let n : length (xs ++ x ∷ []) ≡ suc (length xs) = omega (arith, length-append xs (x ∷ [])) in
      let z = h.size in
      let f = h.fits in
      let (t, g) = prefix-snoc s.stack xs x (ap (λ (k : ℕ). take k s.stack) (sym n) ∙ h.layout) in
      let top : get_or s.stack (s.position - 1) none ≡ x =
        ap (λ (k : ℕ). get_or s.stack k none) (omega arith) ∙ g in
      rw (goes s (omega arith), shows s (omega arith))
        (
          top,
          record { storage = h.storage; size = omega arith; fits = omega arith; layout = t },
          top,
        )
    where
      goes :
          (s : PointerStack A)
          → 0 < s.position
          → pop s ≡ (get_or s.stack (s.position - 1) none, record s { position = s.position - 1 })
      goes s lt = ground arith

      shows : (s : PointerStack A) → 0 < s.position → peek s ≡ get_or s.stack (s.position - 1) none
      shows s lt = ground arith
