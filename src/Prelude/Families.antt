-- ===== src/Prelude/Families.antt =====
-- Families `ℕ → A`, one member for each process: the change of one member, and sums over the first `n`.
use Prim.Native.Nat.{ℕ, zero, suc, ◌+◌, ◌≤◌, ◌<◌}
use mathlib.Core.Path.{◌≡◌, refl, sym, ap, subst, ◌∙◌}
use mathlib.Core.Logic.{◌≢◌}
use native.Mathlib.Decide.{dec_lt, ℕ_discrete}
use native.Mathlib.Omega.{arith}
use horaci_os.Prelude.Tests.{◌==◌, if◌then◌else◌}

abbrev pub assign {ℓ} : {A : Type ℓ} → (ℕ → A) → ℕ → A → ℕ → A
assign f i a j = if j == i then a else f j

module _ {ℓ} {A : Type ℓ} where
  pub assign_self : (f : ℕ → A) (i : ℕ) (a : A) → assign f i a i ≡ a
  assign_self f i a = ground arith

  pub assign_ne : (f : ℕ → A) (i : ℕ) (a : A) (j : ℕ) → j ≢ i → assign f i a j ≡ f j
  assign_ne f i a j ne = ground arith

-- What holds of the changed member and of each other holds of all.
pub assign-elim {ℓ κ} :
    {A : Type ℓ} (R : ℕ → A → Type κ) (f : ℕ → A) (i : ℕ) (a : A)
    → R i a
    → ((j : ℕ) → j ≢ i → R j (f j))
    → (j : ℕ) → R j (assign f i a j)
assign-elim R f i a here there j = elim (ℕ_discrete j i) [
  | yes e ↦
      subst (λ (k : ℕ). R k (assign f i a k)) (sym e) (subst (R i) (sym (assign_self f i a)) here)
  | no ne ↦ subst (R j) (sym (assign_ne f i a j ne)) (there j ne)
]

-- A function of the members, after a change of one.
module _ {ℓ κ} {A : Type ℓ} {B : Type κ} (g : A → B) (f : ℕ → A) (i : ℕ) (a : A) where
  pub map-assign : (b : B) → g a ≡ b → (j : ℕ) → g (assign f i a j) ≡ assign (λ k. g (f k)) i b j
  map-assign b e j = elim (ℕ_discrete j i) [
    | yes same ↦
        subst (λ (k : ℕ). g (assign f i a k) ≡ assign (λ l. g (f l)) i b k) (sym same)
          (ap g (assign_self f i a) ∙ e ∙ sym (assign_self (λ k. g (f k)) i b))
    | no ne ↦ ap g (assign_ne f i a j ne) ∙ sym (assign_ne (λ k. g (f k)) i b j ne)
  ]

  pub map-assign_same : g a ≡ g (f i) → (j : ℕ) → g (assign f i a j) ≡ g (f j)
  map-assign_same e = assign-elim (λ j x. g x ≡ g (f j)) f i a e (λ j ne. refl)

module _ {ℓ} {A : Type ℓ} (weight : A → ℕ) where
  unfoldable pub total : ℕ → (ℕ → A) → ℕ
  total zero f = 0
  total (suc n) f = total n f + weight (f n)

  total-assign_above :
      (n : ℕ) (f : ℕ → A) (i : ℕ) (a : A) → n ≤ i → total n (assign f i a) ≡ total n f
  unfolding total
  total-assign_above zero f i a le = refl
  total-assign_above (suc n) f i a le =
      ground (arith, total-assign_above n f i a, assign_ne f i a n)

  -- The sum changes by what the member changes by.
  pub total-assign :
      (n : ℕ) (f : ℕ → A) (i : ℕ) (a : A)
      → i < n
      → total n (assign f i a) + weight (f i) ≡ total n f + weight a
  unfolding total
  total-assign zero f i a lt = absurd (omega arith)
  total-assign (suc n) f i a lt = elim (dec_lt i n) [
    | yes below ↦ ground (arith, total-assign n f i a below)
    | no last ↦ ground (arith, total-assign_above n f i a)
  ]

  -- A member's share.
  pub le-total : (n : ℕ) (f : ℕ → A) (i : ℕ) → i < n → weight (f i) ≤ total n f
  unfolding total
  le-total zero f i lt = absurd (omega arith)
  le-total (suc n) f i lt = elim (ℕ_discrete i n) [
    | yes last ↦ ground arith
    | no ne ↦ omega (arith, le-total n f i (omega arith))
  ]
