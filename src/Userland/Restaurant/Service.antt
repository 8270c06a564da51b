-- ===== src/Userland/Restaurant/Service.antt =====
-- The restaurant while it serves: chefs and waiters are called, nobody is sent to rest, and it is not closed.
use horaci_os.Prelude.{
  ℕ, zero, suc, ◌+◌, ◌<◌, ◌≤◌, ◌≡◌, refl, sym, ◌∙◌, ap, Bool, true, false, total, le-total, arith,
}
use horaci_os.Mutex.Spec.{View, free, held}
use horaci_os.Userland.Restaurant.{
  cook, serve, call, rest, close, Pc, absent, reads, changes, Restaurant, opening, trays_qty, Step,
  turn, key,
}
use horaci_os.Userland.Restaurant.Tokens.{
  tray, dish, inner, waits_full, waits_empty, lined, calm, present, Holder,
}
use horaci_os.Userland.Restaurant.Keep.{Inv, act-Inv, keyed}

-- No order but to call somebody.
abbrev pub Calling : {n : ℕ} {s t : Restaurant} → Step n s t → Type 0
Calling (turn p new lt lt' e) = Unit {0}
Calling (key p (call j) lt e) = Unit {0}
Calling (key p (rest j) lt e) = ⊥
Calling (key p close lt e) = ⊥

-- What `n` processes reach from the opening, in any order of their steps.
pub data Serves (n : ℕ) : Restaurant → Type 0 where
  opened : Serves n opening
  later : {s t : Restaurant} → Serves n s → (st : Step n s t) → Calling st → Serves n t

-- At the opening one process reads the keyboard, and no other is there.
alone_at_first :
    (f : Pc → Bool) → f absent ≡ false → f reads ≡ false → (p : ℕ) → f (opening.pc p) ≡ false
unfolding opening
alone_at_first f a r p = ground arith

nothing :
    (weight : Pc → ℕ)
    → weight absent ≡ 0
    → weight reads ≡ 0
    → (n : ℕ) → total weight n opening.pc ≡ 0
unfolding opening total
nothing weight a r zero = refl
nothing weight a r (suc n) = ground (arith, nothing weight a r n)

opening-Inv : (n : ℕ) → 0 < n → Inv n opening
unfolding opening trays_qty tray dish inner waits_full waits_empty lined calm present
opening-Inv n some = record {
  ordered = record {
    q_full = tt;
    q_empty = tt;
    line = tt;
    alone = λ p h. cc (alone_at_first inner refl refl p);
    peace = λ p. ground arith;
    known = λ p h. ground arith;
  };
  counted = record {
    chefs_stay = refl;
    waiters_stay = refl;
    trays = omega (arith, nothing tray refl refl n);
    dishes = omega (arith, nothing dish refl refl n);
  };
}

Step-Inv : {n : ℕ} {s t : Restaurant} (st : Step n s t) → Calling st → Inv n s → Inv n t
Step-Inv {s} (turn p new lt lt' e) c i = act-Inv s i p lt new lt' e (s.pc p) refl
Step-Inv {s} (key p (call j) lt e) c i = keyed s i p lt j e
Step-Inv (key p (rest j) lt e) c i = absurd c
Step-Inv (key p close lt e) c i = absurd c

pub Serves-Inv : {n : ℕ} {s : Restaurant} → 0 < n → Serves n s → Inv n s
Serves-Inv {n} some opened = opening-Inv n some
Serves-Inv some (later r st c) = Step-Inv st c (Serves-Inv some r)

pub record Safe (s : Restaurant) : Type 0 where
  pub fit : s.plates ≤ 20
  pub apart : (p q : ℕ) → inner (s.pc p) ≡ true → inner (s.pc q) ≡ true → p ≡ q
  pub room : (p : ℕ) → s.pc p ≡ changes cook → s.plates < 20
  pub there : (p : ℕ) → s.pc p ≡ changes serve → 0 < s.plates
  pub counts : s.full.count + s.empty.count ≤ 20

Holder-eq : (v : View) (p q : ℕ) → Holder p v → Holder q v → p ≡ q
Holder-eq free p q h k = absurd h
Holder-eq (held o ws) p q h k = sym h ∙ k

-- Chefs and waiters are called and take their steps in any order: there are never more plates than trays, a chef that
-- is to fill a tray finds room and a waiter that is to take a plate finds one, so `plates` does not wrap; the two
-- semaphores together never count more than the trays; and no two processes are behind the lock of the mutex.
pub Serves-Safe : {n : ℕ} {s : Restaurant} → 0 < n → Serves n s → Safe s
unfolding tray dish inner present
Serves-Safe {n} {s} some r =
    let i = Serves-Inv some r in
    record {
      fit = omega (arith, i.counted.trays);
      apart = λ p q h k. Holder-eq s.mutex_a p q (i.ordered.alone p h) (i.ordered.alone q k);
      room = λ p e.
          let lt : p < n = i.ordered.known p (ap present e) in
          omega (arith, i.counted.trays, le-total tray n s.pc p lt, ap tray e);
      there = λ p e.
          let lt : p < n = i.ordered.known p (ap present e) in
          omega (arith, i.counted.dishes, le-total dish n s.pc p lt, ap dish e);
      counts = omega (arith, i.counted.trays, i.counted.dishes);
    }
