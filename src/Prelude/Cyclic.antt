-- ===== src/Prelude/Cyclic.antt =====
-- An array that is used as a ring: the items that stand from an index on, going round at the end.
use Prim.Native.Nat.{ℕ, zero, suc, ◌+◌, ◌-◌, ◌%◌, ◌≤◌, ◌<◌}
use mathlib.Core.Path.{◌≡◌, refl, sym, ap, ap₂, ◌∙◌}
use mathlib.Core.Logic.{◌≢◌, ◌⊎◌, inl, inr}
use mathlib.Core.List.{List, [], ◌∷◌, ◌++◌}
use native.Mathlib.Nat.{add-zero, mod-add-mod, mod-eq_of_lt, mod-lt, mod-eq-sub-mod}
use native.Mathlib.Decide.{dec_lt}
use native.Mathlib.Omega.{arith}
use horaci_os.Prelude.Tests.{leb, if◌then◌else◌}
use horaci_os.Prelude.Lists.{length, get_or, set, get_or-set_self, get_or-set_ne}

-- At most one turn from an index of the ring ends behind it, or has gone round once.
add-mod-cases :
    (cap i steps : ℕ)
    → i < cap
    → steps ≤ cap
    → ((i + steps) % cap ≡ i + steps) ⊎ ((i + steps) % cap + cap ≡ i + steps)
add-mod-cases cap i steps p q = elim (dec_lt (i + steps) cap) [
  | yes short ↦ inl (mod-eq_of_lt short)
  | no round ↦
      let once = mod-eq-sub-mod {n = i + steps} {m = cap} (omega arith) in
      inr (omega (arith, once, mod-eq_of_lt {n = i + steps - cap} {m = cap} (omega arith)))
]

-- Fewer than `cap` steps round a ring do not come back to the start.
pub add-mod-ne : {cap i steps : ℕ} → i < cap → suc steps < cap → (i + suc steps) % cap ≢ i
add-mod-ne {cap} {i} {steps} p q = elim (add-mod-cases cap i (suc steps) p (omega arith)) [
  | inl short ↦ omega arith
  | inr round ↦ omega arith
]

pub add-mod-shift : (cap h k : ℕ) → (h + suc k) % cap ≡ ((h + 1) % cap + k) % cap
add-mod-shift cap h k = rw mod-add-mod (ap (λ (m : ℕ). m % cap) (omega arith))

pub add-zero-mod : {cap h : ℕ} → h < cap → (h + 0) % cap ≡ h
add-zero-mod {cap} {h} hh = rw (add-zero, mod-eq_of_lt hh)

-- A whole turn.
pub add-mod-turn : {cap i rest : ℕ} → i < cap → suc rest ≡ cap → ((i + 1) % cap + rest) % cap ≡ i
add-mod-turn {cap} {i} {rest} p q =
    sym (add-mod-shift cap i rest) ∙ elim (add-mod-cases cap i (suc rest) p (omega arith)) [
      | inl short ↦ let z = mod-lt (i + suc rest) {m = cap} (omega arith) in omega arith
      | inr round ↦ omega arith
    ]

-- The steps from index `i` to index `j`, forward round a ring of `cap` places.
abbrev pub steps_to : ℕ → ℕ → ℕ → ℕ
steps_to cap i j = if leb i j then j - i else cap - i + j

pub steps_to-lt : (cap i j : ℕ) → i < cap → j < cap → steps_to cap i j < cap
steps_to-lt cap i j p q = ground arith

-- One step, in the form in which the kernel's loops write it.
abbrev pub wrap : ℕ → ℕ → ℕ
wrap cap i = if leb cap i then 0 else i

pub steps_to-wrap :
    (cap i j : ℕ)
    → i < cap
    → j < cap
    → i ≢ j
    → steps_to cap i j ≡ suc (steps_to cap (wrap cap (i + 1)) j)
steps_to-wrap cap i j p q ne = ground arith

pub steps_to-injective :
    (cap i j k : ℕ) → i < cap → j < cap → k < cap → steps_to cap i k ≡ steps_to cap j k → i ≡ j
steps_to-injective cap i j k p q r e = ground arith

module _ {ℓ} {A : Type ℓ} (buf : List A) (cap : ℕ) (d : A) where
  -- The `n` items from index `h` on.
  abbrev pub window : ℕ → ℕ → List A
  window h zero = []
  window h (suc n) = get_or buf h d ∷ window ((h + 1) % cap) n

  pub length-window : (start count : ℕ) → length (window start count) ≡ count
  length-window start zero = refl
  length-window start (suc count) = ap suc (length-window ((start + 1) % cap) count)

  pub window-snoc :
      (h n : ℕ) → h < cap → window h (suc n) ≡ window h n ++ get_or buf ((h + n) % cap) d ∷ []
  window-snoc h zero hh = ap (λ (k : ℕ). get_or buf k d ∷ []) (sym (add-zero-mod hh))
  window-snoc h (suc n) hh = ap (◌∷◌ (get_or buf h d)) (
      window-snoc ((h + 1) % cap) n (omega arith)
      ∙ ap (λ (k : ℕ). window ((h + 1) % cap) n ++ get_or buf k d ∷ [])
          (sym (add-mod-shift cap h n)))

  pub window-append :
      (h n m : ℕ) → h < cap → window h (n + m) ≡ window h n ++ window ((h + n) % cap) m
  window-append h zero m hh = let e : zero + m ≡ m = omega arith in rw (e, add-zero-mod hh)
  window-append h (suc n) m hh =
      let e : suc n + m ≡ suc (n + m) = omega arith in
      rw e (
        ap (◌∷◌ (get_or buf h d)) (
          window-append ((h + 1) % cap) n m (omega arith)
          ∙ ap (λ (k : ℕ). window ((h + 1) % cap) n ++ window k m) (sym (add-mod-shift cap h n))))

module _ {ℓ} {A : Type ℓ} (buf : List A) (cap : ℕ) (d x : A) where
  -- A write at an index that a window does not reach.
  pub window-set_ne :
      (h n i : ℕ)
      → ((k : ℕ) → k < n → (h + k) % cap ≢ i)
      → h < cap
      → window (set buf i x) cap d h n ≡ window buf cap d h n
  window-set_ne h zero i ne hh = refl
  window-set_ne h (suc n) i ne hh =
      ap₂ ◌∷◌ (get_or-set_ne buf x d (λ e. ne 0 (omega arith) (add-zero-mod hh ∙ sym e))) (
        window-set_ne ((h + 1) % cap) n i
          (λ k hk e. ne (suc k) (omega arith) (add-mod-shift cap h k ∙ e)) (omega arith))

  -- A write inside a window is a write to its list.
  pub window-set :
      (h n k : ℕ)
      → cap ≤ length buf
      → h < cap
      → k < n
      → n ≤ cap
      → window (set buf ((h + k) % cap) x) cap d h n ≡ set (window buf cap d h n) k x
  window-set h zero k hs hh hk hn = absurd (omega arith)
  window-set h (suc n) zero hs hh hk hn =
      ap (λ (i : ℕ). window (set buf i x) cap d h (suc n)) (add-zero-mod hh)
      ∙ ap₂ ◌∷◌ (get_or-set_self buf h x d (omega arith)) (
          window-set_ne ((h + 1) % cap) n h
            (λ k hk e. add-mod-ne hh (omega arith) (add-mod-shift cap h k ∙ e)) (omega arith))
  window-set h (suc n) (suc k) hs hh hk hn =
      ap₂ ◌∷◌ (get_or-set_ne buf x d (add-mod-ne hh (omega arith))) (
        ap (λ (i : ℕ). window (set buf i x) cap d ((h + 1) % cap) n) (add-mod-shift cap h k)
        ∙ window-set ((h + 1) % cap) n k hs (omega arith) (omega arith) (omega arith))
