-- ===== src/Userland/Increments/Guard.antt =====
-- What holds while processes increment the variable, and that the lock and the unlock keep it.
use mathlib.Core.Path.{fun_ext}
use horaci_os.Prelude.{
  ℕ, suc, ◌+◌, ◌<◌, ◌≤◌, ◌≡◌, ◌≢◌, refl, sym, ◌∙◌, ap, subst, [], ◌∷◌, Bool, true, false,
  Bool-cases, inl, inr, ◌==◌, assign, assign_ne, assign-elim, map-assign, map-assign_same, total,
  total-assign, arith,
}
use horaci_os.Mutex.Spec.{View, free, held, Effect, keeps, blocks, wakes, lock, unlock, release}
use horaci_os.Mutex.Lock.{Locked, Holder, take_it, join_it, drop_it, pass_it, Locked-same}
use horaci_os.Userland.Increments.{
  Point, loops, in_line, loads, stores, unlocks, done, Shared, go, woken, settle, behind,
}

-- Between the lock and the unlock.
unfoldable pub has : Point → Bool
has (loads k) = true
has (stores k v) = true
has (unlocks k) = true
has x = false

unfoldable pub lined : Point → Bool
lined (in_line k) = true
lined x = false

-- The increments that are still to come.
unfoldable pub left : Point → ℕ
left (loops k) = k
left (in_line k) = k + 1
left (loads k) = k + 1
left (stores k v) = k + 1
left (unlocks k) = k
left done = 0

-- A value that has been loaded is still the variable's.
abbrev pub IsFresh : ℕ → Point → Type 0
IsFresh value (stores k v) = v ≡ value
IsFresh value x = Unit {0}

abbrev Guarded : (ℕ → Point) → View → Type 0
Guarded pc v = Locked (λ q. has (pc q)) (λ q. lined (pc q)) v

pub record Inv (n sum : ℕ) (s : Shared) : Type 0 where
  pub guarded : Guarded s.pc s.var_mutex
  pub fresh : (p : ℕ) → IsFresh s.value (s.pc p)
  pub summed : s.value + total left n s.pc ≡ sum
  pub beyond : (p : ℕ) → n ≤ p → s.pc p ≡ done

pub stays :
    (pc : ℕ → Point) (p : ℕ) (x y : Point) (v : View)
    → pc p ≡ x
    → has y ≡ has x
    → lined y ≡ lined x
    → Guarded pc v
    → Guarded (assign pc p y) v
stays pc p x y v e h l =
    Locked-same (map-assign_same has pc p y (h ∙ sym (ap has e)))
      (map-assign_same lined pc p y (l ∙ sym (ap lined e)))

pub Holder-eq : (v : View) (p q : ℕ) → Holder p v → Holder q v → p ≡ q
Holder-eq free p q h k = absurd h
Holder-eq (held o ws) p q h k = sym h ∙ k

pub fresh_out : (value : ℕ) (x : Point) → has x ≡ false → IsFresh value x
unfolding has
fresh_out value (stores k v) h = cc
fresh_out value (loops k) h = tt
fresh_out value (in_line k) h = tt
fresh_out value (loads k) h = tt
fresh_out value (unlocks k) h = tt
fresh_out value done h = tt

-- mutex_lock, with nobody holding the mutex or another one.
pub locking :
    (pc : ℕ → Point) (p k : ℕ) (v : View)
    → Guarded pc v
    → pc p ≡ loops (suc k)
    → Guarded (assign pc p (behind (lock p v).1 k)) (lock p v).0
unfolding lock behind has lined
locking pc p k free g e =
    Locked-same (map-assign has pc p (loads k) true refl)
      (map-assign_same lined pc p (loads k) (sym (ap lined e))) (take_it p g)
locking pc p k (held h ws) g e = elim (Bool-cases (h == p)) [
  | inl mine ↦
      let same : h ≡ p = ground arith in
      let at : has (pc h) ≡ false = ap (λ (i : ℕ). has (pc i)) same ∙ ap has e in
      cc (sym at ∙ g.kept.0)
  | inr other ↦
      let ne : h ≢ p = ground arith in
      rw other (
        Locked-same (map-assign_same has pc p (in_line k) (sym (ap has e)))
          (map-assign lined pc p (in_line k) true refl) (join_it p h ws g ne (ap lined e)))
]

-- The points after a call of settle.
abbrev place_after : Effect → (ℕ → Point) → ℕ → Point
place_after (wakes w) pc = assign pc w (woken (pc w))
place_after e pc = pc

lined_lem : (x : Point) → lined x ≡ true → (k : ℕ) × (x ≡ in_line k)
unfolding lined
lined_lem (in_line k) h = (k, refl)
lined_lem x h = cc

-- mutex_unlock by the holder. The one that is woken is counted as before, and has loaded nothing.
pub record Unlocked (n value : ℕ) (pc : ℕ → Point) (v : View) (e : Effect) : Type 0 where
  guarded : Guarded (place_after e pc) v
  fresh : (q : ℕ) → IsFresh value (place_after e pc q)
  summed : total left n (place_after e pc) ≡ total left n pc

module _ (n value : ℕ) (pc : ℕ → Point) (p k : ℕ) (e : pc p ≡ unlocks k)
    (fresh : (q : ℕ) → IsFresh value (assign pc p (loops k) q))
    (small : (q : ℕ) → lined (pc q) ≡ true → q < n) where
  abbrev pc₁ : ℕ → Point
  pc₁ = assign pc p (loops k)

  pub unlocking : (v : View) → Guarded pc v → Unlocked n value pc₁ (unlock p v).0 (unlock p v).1
  unfolding unlock release has lined woken left
  unlocking free g = absurd (g.alone p (ap has e))
  unlocking (held h []) g =
      let mine : h ≡ p = g.alone p (ap has e) in
      let t : (h == p) ≡ true = ground arith in
      rw t (record {
        guarded =
            Locked-same (map-assign has pc p (loops k) false refl)
              (map-assign_same lined pc p (loops k) (sym (ap lined e)))
              (drop_it p (subst (λ (i : ℕ). Guarded pc (held i [])) mine g));
        fresh = fresh;
        summed = refl;
      })
  unlocking (held h (w ∷ ws)) g =
      let mine : h ≡ p = g.alone p (ap has e) in
      let t : (h == p) ≡ true = ground arith in
      let g' : Guarded pc (held p (w ∷ ws)) =
        subst (λ (i : ℕ). Guarded pc (held i (w ∷ ws))) mine g in
      let ne : w ≢ p = g'.kept.1.0 in
      let (j, at) = lined_lem (pc w) g'.kept.2.0 in
      let at₁ : pc₁ w ≡ in_line j = assign_ne pc p (loops k) w ne ∙ at in
      let counted = total-assign left n pc₁ w (loads j) (small w g'.kept.2.0) in
      rw t (record {
        guarded = rw at₁ (
            Locked-same
              (λ q.
                map-assign has pc₁ w (loads j) true refl q
                ∙ ap (λ (f : ℕ → Bool). assign f w true q)
                    (fun_ext (map-assign has pc p (loops k) false refl)))
              (λ q.
                map-assign lined pc₁ w (loads j) false refl q
                ∙ ap (λ (f : ℕ → Bool). assign f w false q)
                    (fun_ext (map-assign_same lined pc p (loops k) (sym (ap lined e)))))
              (pass_it p w ws g'));
        fresh =
            rw at₁ (assign-elim (λ q x. IsFresh value x) pc₁ w (loads j) tt (λ q other. fresh q));
        summed = rw at₁ (omega (arith, counted, ap left at₁));
      })

pub settled :
    (n sum : ℕ) (e : Effect) (s : Shared)
    → Unlocked n s.value s.pc s.var_mutex e
    → s.value + total left n s.pc ≡ sum
    → ((p : ℕ) → n ≤ p → s.pc p ≡ done)
    → Inv n sum (settle e s)
unfolding settle go woken
settled n sum keeps s u sums beyond = record {
  guarded = u.guarded;
  fresh = u.fresh;
  summed = sums;
  beyond = beyond;
}
settled n sum (blocks p) s u sums beyond = record {
  guarded = u.guarded;
  fresh = u.fresh;
  summed = sums;
  beyond = beyond;
}
settled n sum (wakes w) s u sums beyond = record {
  guarded = u.guarded;
  fresh = u.fresh;
  summed = omega (arith, u.summed);
  beyond =
      assign-elim (λ q x. n ≤ q → x ≡ done) s.pc w (woken (s.pc w)) (λ le. ap woken (beyond w le))
        (λ q ne. beyond q);
}
