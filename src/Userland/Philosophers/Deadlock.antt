-- ===== src/Userland/Philosophers/Deadlock.antt =====
-- The dinner while philosophers come and nobody is sent away: nobody has another's chopstick, and there is no deadlock.
use horaci_os.Prelude.{
  ℕ, zero, suc, ◌+◌, ◌<◌, ◌≤◌, ◌≡◌, ◌≢◌, refl, sym, ◌∙◌, ap, subst, Bool, true, false, Bool-cases,
  inl, inr, List, [], ◌∷◌, All, assign-elim, arith,
}
use horaci_os.Mutex.Spec.{View, free, held}
use horaci_os.Userland.Philosophers.{
  Spot, errand, arrival, counting, first, second, fed, Position, absent, reads, to_lock, in_line,
  inside, puts_left, leaves, removed, recounts, wanted, first_stick, second_stick, main_mutex,
  Dinner, prepare_table, inc_philo, dec_philo, quit, Moves, turn, key,
}
use horaci_os.Mutex.Lock.{Locked, Holder, stands}
use horaci_os.Userland.Philosophers.Table.{
  carried, has, lined, present, keys, owes, rank, Fits, Person,
}
use horaci_os.Userland.Philosophers.Keep.{Seated}
use horaci_os.Userland.Philosophers.Errands.{turns, pressed}

-- No key but the one for one more.
abbrev pub Welcoming : {n : ℕ} {s t : Dinner} → Moves n s t → Type 0
Welcoming (turn p new lt lt' e) = Unit {0}
Welcoming (key p inc_philo lt e) = Unit {0}
Welcoming (key p dec_philo lt e) = ⊥
Welcoming (key p quit lt e) = ⊥

-- What `n` processes reach from the start, in any order of their steps.
pub data Dines (n : ℕ) : Dinner → Type 0 where
  laid : Dines n prepare_table
  later : {s t : Dinner} → Dines n s → (mv : Moves n s t) → Welcoming mv → Dines n t

laid-Seated : (n : ℕ) → 0 < n → Seated n prepare_table
unfolding prepare_table has lined present keys owes
laid-Seated n some = record {
  locked = λ m. record { kept = tt; alone = λ p h. ground arith; waits = λ p h. ground arith };
  people = λ p.
      assign-elim (Person n 0 1 true) (λ q. absent) 0 reads
        (record { here = λ i. some; fits = tt; reader = λ i. refl; owing = λ i. cc })
        (λ q ne. record { here = λ i. cc; fits = tt; reader = λ i. cc; owing = λ i. cc }) p;
  counts = record {
    nobody_leaves = refl;
    quantity = omega arith;
    enough = omega arith;
    spare = λ i. omega arith;
  };
}

moves-Seated : {n : ℕ} {s t : Dinner} (mv : Moves n s t) → Welcoming mv → Seated n s → Seated n t
moves-Seated {s} (turn p new lt lt' e) w k = turns s k p new (s.pc p) lt' e refl
moves-Seated {s} (key p inc_philo lt e) w k = pressed s k p e
moves-Seated (key p dec_philo lt e) w k = absurd w
moves-Seated (key p quit lt e) w k = absurd w

Dines-Seated : {n : ℕ} {s : Dinner} → 0 < n → Dines n s → Seated n s
Dines-Seated {n} some laid = laid-Seated n some
Dines-Seated some (later r mv w) = moves-Seated mv w (Dines-Seated some r)

-- A process that can take a step of its own.
unfoldable pub awake : Position → Bool
awake absent = false
awake reads = false
awake (in_line t) = false
awake x = true

stands-false : (h : ℕ) (ws : List ℕ) → All (λ v. v ≢ h) ws → stands h ws ≡ false
stands-false h [] ne = refl
stands-false h (w ∷ ws) (ne, rest) = let tail = stands-false h ws rest in ground arith

-- Who waits for a mutex waits for its holder, who does not.
holder_of :
    {got line : ℕ → Bool} (p : ℕ) (v : View)
    → Locked got line v
    → line p ≡ true
    → (h : ℕ) × (got h ≡ true) × (line h ≡ false)
holder_of p free k at = absurd (k.waits p at)
holder_of {line} p (held h ws) k at = (
  h,
  k.kept.0,
  elim (Bool-cases (line h)) [
    | inl in_it ↦ cc (sym (k.waits h in_it) ∙ stands-false h ws k.kept.1)
    | inr out ↦ out
  ],
)

lined_at : (t : Spot) → lined (wanted t) (in_line t) ≡ true
unfolding lined
lined_at t = ground arith

rank-le : (m : ℕ) → rank m ≤ 3
unfolding rank
rank-le m = ground arith

rank-lt : (m : ℕ) → m < 10 → rank m < 3
unfolding rank
rank-lt m lt = ground arith

-- Where the holder of a mutex waits, it waits for one of a higher rank.
rises :
    (a m : ℕ) (t : Spot)
    → Fits a (in_line t)
    → has m (in_line t) ≡ true
    → lined m (in_line t) ≡ false
    → rank m < rank (wanted t)
unfolding has lined carried wanted
rises a m (second i r l) f h out = elim f.rising [
  | inl same ↦ ground arith
  | inr lt ↦
      let e : first_stick i r l ≡ m = ground arith in
      subst (λ (j : ℕ). rank j < rank (second_stick i r l)) e lt
]
rises a m (fed i r l) f h out =
    let small : m < 10 = (let both = f.sticks in ground arith) in
    let lt = rank-lt m small in let top : rank main_mutex ≡ 3 = (unfold rank in refl) in omega arith
rises a m (first i r l) f h out = cc
rises a m (errand o) f h out = cc
rises a m arrival f h out = cc
rises a m (counting i) f h out = cc

module _ {n : ℕ} {s : Dinner} (k : Seated n s) where
  abbrev Someone : Type 0
  Someone = (q : ℕ) × (awake (s.pc q) ≡ true)

  -- The holder of a mutex can go on, or waits for one of a higher rank.
  at_place :
      (h m : ℕ) (x : Position)
      → s.pc h ≡ x
      → has m x ≡ true
      → lined m x ≡ false
      → ((t : Spot) → s.pc h ≡ in_line t → rank m < rank (wanted t) → Someone)
      → Someone
  unfolding awake has
  at_place h m absent e got out next = cc
  at_place h m reads e got out next = cc
  at_place h m (to_lock t) e got out next = (h, ap awake e)
  at_place h m (in_line t) e got out next = next t e (
      rises s.philosophers_assigned m t (subst (Fits s.philosophers_assigned) e (k.people h).fits)
        got out)
  at_place h m (inside t) e got out next = (h, ap awake e)
  at_place h m (puts_left i r l) e got out next = (h, ap awake e)
  at_place h m (leaves i) e got out next = (h, ap awake e)
  at_place h m (removed i) e got out next = (h, ap awake e)
  at_place h m (recounts i) e got out next = (h, ap awake e)

  goes_on : (fuel p : ℕ) (t : Spot) → s.pc p ≡ in_line t → 4 ≤ rank (wanted t) + fuel → Someone
  goes_on zero p t e enough = let le = rank-le (wanted t) in absurd (omega arith)
  goes_on (suc fuel) p t e enough =
      let (h, got, out) =
        holder_of p (s.mutexes (wanted t)) (k.locked (wanted t))
          (ap (lined (wanted t)) e ∙ lined_at t) in
      at_place h (wanted t) (s.pc h) refl got out (λ t' e' lt. goes_on fuel h t' e' (omega arith))

Holder-eq : (v : View) (p q : ℕ) → Holder p v → Holder q v → p ≡ q
Holder-eq free p q h j = absurd h
Holder-eq (held o ws) p q h j = sym h ∙ j

pub record Peaceful (s : Dinner) : Type 0 where
  pub apart : (m p q : ℕ) → has m (s.pc p) ≡ true → has m (s.pc q) ≡ true → p ≡ q
  pub goes_on : (p : ℕ) (t : Spot) → s.pc p ≡ in_line t → (q : ℕ) × (awake (s.pc q) ≡ true)

-- Philosophers are hired and take their steps in any order: no two have the same chopstick, also while the quantity
-- changes; and whenever one waits for a mutex, there is a process that can take a step and is not at the keyboard.
pub Dines-Peaceful : {n : ℕ} {s : Dinner} → 0 < n → Dines n s → Peaceful s
Dines-Peaceful {s} some r =
    let k = Dines-Seated some r in
    record {
      apart = λ m p q h j.
          Holder-eq (s.mutexes m) p q ((k.locked m).alone p h) ((k.locked m).alone q j);
      goes_on = λ p t e. goes_on k 4 p t e (omega arith);
    }
