-- ===== src/Prelude/Queues.antt =====
-- Queues of processes that all stand at a place of one kind.
use Prim.Native.Nat.{ℕ}
use mathlib.Core.Path.{◌≡◌, sym, ◌∙◌, ap}
use mathlib.Core.Logic.{◌≢◌}
use mathlib.Core.Bool.{Bool, true, false}
use mathlib.Core.List.{List, [], ◌∷◌, ◌++◌}
use horaci_os.Prelude.Lists.{All, All-append}
use horaci_os.Prelude.Families.{assign, assign_self, assign_ne}

module _ {A : Type 0} (f : A → Bool) where
  -- Each stands once.
  abbrev pub Queued : (ℕ → A) → List ℕ → Type 0
  Queued pc [] = Unit {0}
  Queued pc (w ∷ ws) = (f (pc w) ≡ true) × All (λ v. v ≢ w) ws × Queued pc ws

  not-at : (pc : ℕ → A) (p q : ℕ) → f (pc p) ≡ false → f (pc q) ≡ true → q ≢ p
  not-at pc p q out at e = cc (ap (λ (i : ℕ). f (pc i)) e)

  -- A process that is in no such place changes nothing.
  pub Queued-assign :
      (pc : ℕ → A) (p : ℕ) (x : A) (ws : List ℕ)
      → Queued pc ws
      → f (pc p) ≡ false
      → Queued (assign pc p x) ws
  Queued-assign pc p x [] q out = tt
  Queued-assign pc p x (w ∷ ws) (at, once, rest) out = (
    ap f (assign_ne pc p x w (not-at pc p w out at)) ∙ at,
    once,
    Queued-assign pc p x ws rest out,
  )

  -- Nor does one that is not in the queue.
  pub Queued-other :
      (pc : ℕ → A) (p : ℕ) (x : A) (ws : List ℕ)
      → Queued pc ws
      → All (λ v. v ≢ p) ws
      → Queued (assign pc p x) ws
  Queued-other pc p x [] q out = tt
  Queued-other pc p x (w ∷ ws) (at, once, rest) (ne, out) =
      (ap f (assign_ne pc p x w ne) ∙ at, once, Queued-other pc p x ws rest out)

  others :
      (pc : ℕ → A) (p : ℕ) (ws : List ℕ) → Queued pc ws → f (pc p) ≡ false → All (λ v. p ≢ v) ws
  others pc p [] q out = tt
  others pc p (w ∷ ws) (at, once, rest) out =
      ((λ e. not-at pc p w out at (sym e)), others pc p ws rest out)

  joined :
      (pc : ℕ → A) (p : ℕ) (ws : List ℕ)
      → Queued pc ws
      → All (λ v. p ≢ v) ws
      → f (pc p) ≡ true
      → Queued pc (ws ++ p ∷ [])
  joined pc p [] q ne at = (at, tt, tt)
  joined pc p (w ∷ ws) (there, once, rest) (first, ne) at =
      (there, All-append (λ v. v ≢ w) ws (p ∷ []) once (first, tt), joined pc p ws rest ne at)

  pub Queued-join :
      (pc : ℕ → A) (p : ℕ) (x : A) (ws : List ℕ)
      → Queued pc ws
      → f (pc p) ≡ false
      → f x ≡ true
      → Queued (assign pc p x) (ws ++ p ∷ [])
  Queued-join pc p x ws q out at =
      joined (assign pc p x) p ws (Queued-assign pc p x ws q out) (others pc p ws q out)
        (ap f (assign_self pc p x) ∙ at)
