-- ===== src/Userland/Philosophers/Calls.antt =====
-- What the calls of `mutex_lock` and `mutex_unlock` keep at the table.
use horaci_os.Prelude.{
  ℕ, ◌≡◌, ◌≢◌, refl, sym, ◌∙◌, ap, subst, [], ◌∷◌, ◌++◌, true, ◌==◌, Bool-cases, inl, inr, assign,
  assign-elim, map-assign, map-assign_same, arith,
}
use horaci_os.Mutex.Spec.{View, free, held, lock}
use horaci_os.Userland.Philosophers.{
  Spot, Position, to_lock, in_line, inside, wanted, Dinner, go, next_place, mutex_lock,
}
use horaci_os.Mutex.Lock.{Locked, take_it, join_it, Locked-same}
use horaci_os.Userland.Philosophers.Table.{has, lined}

abbrev pub AllLocked : (ℕ → Position) → (ℕ → View) → Type 0
AllLocked pc mx = (m : ℕ) → Locked (λ q. has m (pc q)) (λ q. lined m (pc q)) (mx m)

-- A move that changes nothing for a mutex.
pub stays :
    (m : ℕ) (pc : ℕ → Position) (p : ℕ) (y : Position) (v : View)
    → has m y ≡ has m (pc p)
    → lined m y ≡ lined m (pc p)
    → Locked (λ q. has m (pc q)) (λ q. lined m (pc q)) v
    → Locked (λ q. has m (assign pc p y q)) (λ q. lined m (assign pc p y q)) v
stays m pc p y v h l =
    Locked-same (map-assign_same (has m) pc p y h) (map-assign_same (lined m) pc p y l)

pub moves :
    (pc : ℕ → Position) (mx : ℕ → View) (p : ℕ) (x y : Position)
    → AllLocked pc mx
    → pc p ≡ x
    → ((m : ℕ) → has m y ≡ has m x)
    → ((m : ℕ) → lined m y ≡ lined m x)
    → AllLocked (assign pc p y) mx
moves pc mx p x y k e h l m =
    stays m pc p y (mx m) (h m ∙ sym (ap (has m) e)) (l m ∙ sym (ap (lined m) e)) (k m)

pub wanted_self : (t : Spot) → has (wanted t) (inside t) ≡ true
unfolding has
wanted_self t = ground arith

lined_self : (t : Spot) → lined (wanted t) (in_line t) ≡ true
unfolding lined
lined_self t = ground arith

-- For the other mutexes it is the same whether the process is behind the lock or in line.
pub has_other : (t : Spot) (m : ℕ) → m ≢ wanted t → has m (inside t) ≡ has m (to_lock t)
unfolding has
has_other t m ne = ground arith

lined_other : (t : Spot) (m : ℕ) → m ≢ wanted t → lined m (in_line t) ≡ lined m (to_lock t)
unfolding lined
lined_other t m ne = ground arith

-- What holds of one mutex after a call, and of each other, holds of all.
pub all_locked :
    (pc : ℕ → Position) (mx : ℕ → View) (k : ℕ) (v : View)
    → Locked (λ q. has k (pc q)) (λ q. lined k (pc q)) v
    → ((m : ℕ) → m ≢ k → Locked (λ q. has m (pc q)) (λ q. lined m (pc q)) (mx m))
    → AllLocked pc (assign mx k v)
all_locked pc mx k v here there =
    assign-elim (λ m u. Locked (λ q. has m (pc q)) (λ q. lined m (pc q)) u) mx k v here there

module _ (s : Dinner) (p : ℕ) (t : Spot) (k : AllLocked s.pc s.mutexes)
    (e : s.pc p ≡ to_lock t) where
  abbrev w : ℕ
  w = wanted t

  enters :
      (v : View)
      → Locked
          (λ q. has w (assign s.pc p (inside t) q))
          (λ q. lined w (assign s.pc p (inside t) q))
          v
      → AllLocked (assign s.pc p (inside t)) (assign s.mutexes w v)
  unfolding lined
  enters v here = all_locked (assign s.pc p (inside t)) s.mutexes w v here (λ m ne.
      stays m s.pc p (inside t) (s.mutexes m) (has_other t m ne ∙ sym (ap (has m) e))
        (sym (ap (lined m) e)) (k m))

  queues :
      (v : View)
      → Locked
          (λ q. has w (assign s.pc p (in_line t) q))
          (λ q. lined w (assign s.pc p (in_line t) q))
          v
      → AllLocked (assign s.pc p (in_line t)) (assign s.mutexes w v)
  unfolding has
  queues v here = all_locked (assign s.pc p (in_line t)) s.mutexes w v here (λ m ne.
      stays m s.pc p (in_line t) (s.mutexes m) (sym (ap (has m) e))
        (lined_other t m ne ∙ sym (ap (lined m) e)) (k m))

  lock_on :
      (v : View)
      → Locked (λ q. has w (s.pc q)) (λ q. lined w (s.pc q)) v
      → AllLocked
          (assign s.pc p (next_place (lock p v).1 (inside t) (in_line t)))
          (assign s.mutexes w (lock p v).0)
  unfolding lock next_place lined
  lock_on free k' = enters (held p []) (
      Locked-same (map-assign (has w) s.pc p (inside t) true (wanted_self t))
        (map-assign_same (lined w) s.pc p (inside t) (sym (ap (lined w) e))) (take_it p k'))
  lock_on (held h ws) k' = elim (Bool-cases (h == p)) [
    | inl mine ↦
        let same : h ≡ p = ground arith in
        rw mine (
          enters (held h ws) (
            stays w s.pc p (inside t) (held h ws)
              (wanted_self t ∙ sym (subst (λ (i : ℕ). has w (s.pc i) ≡ true) same k'.kept.0))
              (sym (ap (lined w) e)) k'))
    | inr other ↦
        let ne : h ≢ p = ground arith in
        rw other (
          queues (held h (ws ++ p ∷ [])) (
            Locked-same
              (map-assign_same (has w) s.pc p (in_line t) (has_in_line ∙ sym (ap (has w) e)))
              (map-assign (lined w) s.pc p (in_line t) true (lined_self t))
              (join_it p h ws k' ne (ap (lined w) e))))
  ]
    where
      has_in_line : has w (in_line t) ≡ has w (to_lock t)
      has_in_line = unfold has in refl

-- mutex_lock.
pub locks :
    (s : Dinner) (p : ℕ) (t : Spot)
    → AllLocked s.pc s.mutexes
    → s.pc p ≡ to_lock t
    → AllLocked (mutex_lock p t s).pc (mutex_lock p t s).mutexes
unfolding mutex_lock go
locks s p t k e = lock_on s p t k e (s.mutexes (wanted t)) (k (wanted t))

pub lined_lem :
    (m : ℕ) (x : Position) → lined m x ≡ true → (t : Spot) × (x ≡ in_line t) × (wanted t ≡ m)
unfolding lined
lined_lem m (in_line t) h = (t, refl, ground arith)
lined_lem m x h = cc
