-- ===== src/Userland/Increments/Exact.antt =====
-- No increment is lost.
use native.Mathlib.Decide.{dec_lt}
use horaci_os.Prelude.{
  ℕ, zero, suc, ◌+◌, ◌%◌, ◌^◌, ◌<◌, ◌≤◌, ◌≡◌, ◌≢◌, refl, sym, ◌∙◌, ap, subst, Bool, true, false,
  Bool-cases, inl, inr, ltb, assign, assign_ne, assign-elim, total, total-assign, arith,
}
use horaci_os.Mutex.Spec.{Effect, keeps, blocks, wakes, lock, unlock}
use horaci_os.Userland.Increments.{
  Point, loops, in_line, loads, stores, unlocks, done, Shared, go, behind, increment, begins, turn,
  Runs, begun, later,
}
use horaci_os.Userland.Increments.Guard.{
  has, lined, left, IsFresh, stays, Holder-eq, fresh_out, locking, unlocking, settled, Inv,
}

module _ {n sum : ℕ} (small : sum < 2 ^ 32) (s : Shared) (i : Inv n sum s) (p : ℕ)
    (lt : p < n) where
  beyond_with : (y : Point) → (q : ℕ) → n ≤ q → assign s.pc p y q ≡ done
  beyond_with y q le = assign_ne s.pc p y q (λ h. absurd (omega arith)) ∙ i.beyond q le

  counted :
      (x y : Point)
      → s.pc p ≡ x
      → total left n (assign s.pc p y) + left x ≡ total left n s.pc + left y
  counted x y e = omega (arith, total-assign left n s.pc p y lt, ap left e)

  ends : s.pc p ≡ loops zero → Inv n sum (go p done s)
  unfolding go has lined left
  ends e = record {
    guarded = stays s.pc p (loops zero) done s.var_mutex e refl refl i.guarded;
    fresh = assign-elim (λ q x. IsFresh s.value x) s.pc p done tt (λ q ne. i.fresh q);
    summed = omega (arith, i.summed, counted (loops zero) done e);
    beyond = beyond_with done;
  }

  locks : (k : ℕ) → s.pc p ≡ loops (suc k) → Inv n sum (increment p (loops (suc k)) s)
  unfolding increment go left behind
  locks k e =
      let (v, f) = lock p s.var_mutex in
      record {
        guarded = locking s.pc p k s.var_mutex i.guarded e;
        fresh =
            assign-elim (λ q x. IsFresh s.value x) s.pc p (behind f k) (fresh_behind f)
              (λ q ne. i.fresh q);
        summed = omega (arith, i.summed, counted (loops (suc k)) (behind f k) e, left_behind f);
        beyond = beyond_with (behind f k);
      }
    where
      fresh_behind : (f : Effect) → IsFresh s.value (behind f k)
      fresh_behind keeps = tt
      fresh_behind (wakes w) = tt
      fresh_behind (blocks w) = tt

      left_behind : (f : Effect) → left (behind f k) ≡ k + 1
      left_behind keeps = refl
      left_behind (wakes w) = refl
      left_behind (blocks w) = refl

  load : (k : ℕ) → s.pc p ≡ loads k → Inv n sum (increment p (loads k) s)
  unfolding increment go has lined left
  load k e = record {
    guarded = stays s.pc p (loads k) (stores k s.value) s.var_mutex e refl refl i.guarded;
    fresh =
        assign-elim (λ q x. IsFresh s.value x) s.pc p (stores k s.value) refl (λ q ne. i.fresh q);
    summed = omega (arith, i.summed, counted (loads k) (stores k s.value) e);
    beyond = beyond_with (stores k s.value);
  }

  -- Nobody else is between the lock and the unlock.
  alone : (x : Point) → s.pc p ≡ x → has x ≡ true → (q : ℕ) → q ≢ p → has (s.pc q) ≡ false
  alone x e at q ne = elim (Bool-cases (has (s.pc q))) [
    | inl too ↦
        absurd (
          ne
            (Holder-eq s.var_mutex q p (i.guarded.alone q too) (i.guarded.alone p (ap has e ∙ at))))
    | inr out ↦ out
  ]

  store : (k v : ℕ) → s.pc p ≡ stores k v → Inv n sum (increment p (stores k v) s)
  unfolding increment go has lined left
  store k v e =
      let now : v ≡ s.value = subst (IsFresh s.value) e (i.fresh p) in
      let c = counted (stores k v) (unlocks k) e in
      let fits : (v + 1) % 2 ^ 32 ≡ s.value + 1 = omega (arith, i.summed) in
      record {
        guarded = stays s.pc p (stores k v) (unlocks k) s.var_mutex e refl refl i.guarded;
        fresh =
            assign-elim (λ q x. IsFresh ((v + 1) % 2 ^ 32) x) s.pc p (unlocks k) tt
              (λ q ne. fresh_out ((v + 1) % 2 ^ 32) (s.pc q) (alone (stores k v) e refl q ne));
        summed = omega (arith, i.summed);
        beyond = beyond_with (unlocks k);
      }

  inside : (q : ℕ) → lined (s.pc q) ≡ true → q < n
  unfolding lined
  inside q at = elim (dec_lt q n) [
    | yes lt' ↦ lt'
    | no over ↦ cc (sym (ap lined (i.beyond q (omega arith))) ∙ at)
  ]

  unlocks_it : (k : ℕ) → s.pc p ≡ unlocks k → Inv n sum (increment p (unlocks k) s)
  unfolding increment go left
  unlocks_it k e =
      let (v, f) = unlock p s.var_mutex in
      let u =
        unlocking n s.value s.pc p k e
          (assign-elim (λ q x. IsFresh s.value x) s.pc p (loops k) tt (λ q ne. i.fresh q))
          (λ q at. inside q at) s.var_mutex i.guarded in
      settled n sum f (record s { var_mutex = v; pc = assign s.pc p (loops k) }) u
        (omega (arith, i.summed, counted (unlocks k) (loops k) e)) (beyond_with (loops k))

  steps : (x : Point) → s.pc p ≡ x → Inv n sum (increment p x s)
  unfolding increment
  steps (loops zero) e = ends e
  steps (loops (suc k)) e = locks k e
  steps (in_line k) e = i
  steps (loads k) e = load k e
  steps (stores k v) e = store k v e
  steps (unlocks k) e = unlocks_it k e
  steps done e = i

-- The increments of the first `n` processes.
unfoldable pub all_rounds : ℕ → (ℕ → ℕ) → ℕ
all_rounds zero rounds = 0
all_rounds (suc n) rounds = all_rounds n rounds + rounds n

begins-total :
    (n m : ℕ) (rounds : ℕ → ℕ) → m ≤ n → total left m (begins n rounds).pc ≡ all_rounds m rounds
unfolding total begins all_rounds left
begins-total n zero rounds le = refl
begins-total n (suc m) rounds le =
    let t : ltb m n ≡ true = ground arith in
    let ih = begins-total n m rounds (omega arith) in rw t (ap (λ (a : ℕ). a + rounds m) ih)

nobody :
    (f : Point → Bool) (n : ℕ) (rounds : ℕ → ℕ)
    → ((k : ℕ) → f (loops k) ≡ false)
    → f done ≡ false
    → (q : ℕ) → f ((begins n rounds).pc q) ≡ false
unfolding begins
nobody f n rounds a b q = elim (Bool-cases (ltb q n)) [
  | inl within ↦ rw within (a (rounds q))
  | inr past ↦ rw past b
]

begins-Inv : (n : ℕ) (rounds : ℕ → ℕ) → Inv n (all_rounds n rounds) (begins n rounds)
begins-Inv n rounds = record {
  guarded =
      unfold begins in
      record {
        kept = tt;
        alone = λ q h. cc (nobody has n rounds (λ k. unfold has in refl) (unfold has in refl) q);
        waits =
            λ q h. cc (nobody lined n rounds (λ k. unfold lined in refl) (unfold lined in refl) q);
      };
  fresh = λ q.
      fresh_out (begins n rounds).value ((begins n rounds).pc q)
        (nobody has n rounds (λ k. unfold has in refl) (unfold has in refl) q);
  summed = begins_sum;
  beyond = λ q le. unfold begins in (let t : ltb q n ≡ false = ground arith in rw t refl);
}
  where
    begins_sum : (begins n rounds).value + total left n (begins n rounds).pc ≡ all_rounds n rounds
    begins_sum = unfold begins in omega (arith, begins-total n n rounds (omega arith))

Runs-Inv :
    {n : ℕ} {rounds : ℕ → ℕ} {s : Shared}
    → all_rounds n rounds < 2 ^ 32
    → Runs n rounds s
    → Inv n (all_rounds n rounds) s
Runs-Inv {n} {rounds} small begun = begins-Inv n rounds
Runs-Inv small (later {s} r (turn p lt)) = steps small s (Runs-Inv small r) p lt (s.pc p) refl

pub record IsExact (n : ℕ) (rounds : ℕ → ℕ) (s : Shared) : Type 0 where
  pub apart : (p q : ℕ) → has (s.pc p) ≡ true → has (s.pc q) ≡ true → p ≡ q
  pub bounded : s.value ≤ all_rounds n rounds
  pub whole : ((p : ℕ) → p < n → s.pc p ≡ done) → s.value ≡ all_rounds n rounds

all_done : (n : ℕ) (pc : ℕ → Point) → ((p : ℕ) → p < n → pc p ≡ done) → total left n pc ≡ 0
unfolding total left
all_done zero pc h = refl
all_done (suc n) pc h =
    omega (arith, all_done n pc (λ p lt. h p (omega arith)), ap left (h n (omega arith)))

-- Processes increment the variable under the mutex, each as often as it likes, less than 2 ^ 32 times in all, and take
-- their steps in any order: no two are between the lock and the unlock, the variable is never more than all the
-- increments, and when all are behind the loop it is as many. So no increment is lost.
pub Runs-IsExact :
    {n : ℕ} {rounds : ℕ → ℕ} {s : Shared}
    → all_rounds n rounds < 2 ^ 32
    → Runs n rounds s
    → IsExact n rounds s
Runs-IsExact {n} {s} small r =
    let i = Runs-Inv small r in
    record {
      apart = λ p q h k. Holder-eq s.var_mutex p q (i.guarded.alone p h) (i.guarded.alone q k);
      bounded = omega (arith, i.summed);
      whole = λ h. omega (arith, i.summed, all_done n s.pc h);
    }
