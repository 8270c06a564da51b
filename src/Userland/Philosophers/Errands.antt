-- ===== src/Userland/Philosophers/Errands.antt =====
-- The errands of the keyboard's process, and all steps together.
use horaci_os.Prelude.{
  ℕ, ◌+◌, ◌-◌, ◌%◌, ◌^◌, ◌<◌, ◌≡◌, ◌≢◌, refl, sym, ◌∙◌, ap, Bool, true, false, Bool-cases, inl, inr,
  if◌then◌else◌, ltb, leb, set, assign, assign_ne, assign-elim, arith,
}
use horaci_os.Mutex.Spec.{unlock}
use horaci_os.Userland.Philosophers.{
  Errand, hire_first, lower, hire, let_go, close, errand, arrival, counting, first, second, fed,
  Position, absent, reads, to_lock, in_line, inside, puts_left, leaves, removed, recounts, wanted,
  main_mutex, Dinner, go, mutex_unlock, hire_philosopher, max_philosophers, one_less, one_more,
  obey, follow, philosopher, inc_philo, key_pressed,
}
use horaci_os.Userland.Philosophers.Table.{
  carried, has, lined, present, keys, owes, spot_keys, spot_owes, Person,
}
use horaci_os.Userland.Philosophers.Calls.{moves}
use horaci_os.Userland.Philosophers.Seats.{Person-more, People-settle}
use horaci_os.Userland.Philosophers.Unlock.{unlock_on}
use horaci_os.Userland.Philosophers.Keep.{
  locked_settle, Counts-settle, Seated, goes, unlocks_it, locks_it, Person-at, arrives, counts_on,
  first_taken, second_taken, puts_right, puts_both, rises,
}

if-elim {ℓ κ} :
    {A : Type ℓ} (P : A → Type κ) (b : Bool) (x y : A)
    → (b ≡ true → P x)
    → (b ≡ false → P y)
    → P (if b then x else y)
if-elim P true x y f g = f refl
if-elim P false x y f g = g refl

owes-keys : (x : Position) → owes x ≡ true → keys x ≡ true
unfolding owes keys spot_owes spot_keys
owes-keys (to_lock (errand o)) h = refl
owes-keys (in_line (errand o)) h = refl
owes-keys (inside (errand o)) h = refl
owes-keys x h = cc

module _ {n : ℕ} (s : Dinner) (k : Seated n s) where
  -- Another is hired: a new process comes to the table.
  hires :
      (new : ℕ)
      → new < n
      → s.pc new ≡ absent
      → ltb s.philosophers_quantity 10 ≡ true
      → Seated n (
          go new (to_lock arrival) (record s {
            philosophers_quantity = one_more s.philosophers_quantity;
            philosophers_assigned = one_more s.philosophers_assigned;
            philosophers = set s.philosophers s.philosophers_assigned new;
          }))
  unfolding go one_more has lined carried present keys owes spot_keys spot_owes
  hires new lt e room =
      let few : s.philosophers_quantity < 10 = ground arith in
      let le = k.counts.enough in
      let a : (s.philosophers_assigned + 1) % 2 ^ 32 ≡ s.philosophers_assigned + 1 = omega arith in
      let q : (s.philosophers_quantity + 1) % 2 ^ 32 ≡ s.philosophers_quantity + 1 = omega arith in
      record {
        locked =
            moves s.pc s.mutexes new absent (to_lock arrival) k.locked e (λ m. refl) (λ m. refl);
        people = rw a (
            rw q (
              assign-elim
                (Person n (s.philosophers_assigned + 1) (s.philosophers_quantity + 1)
                  s.flag_of_second)
                s.pc new (to_lock arrival)
                (record { here = λ i. lt; fits = omega arith; reader = λ i. cc; owing = λ i. cc })
                (λ j ne. Person-more (s.pc j) (k.people j))));
        counts = record {
          nobody_leaves = k.counts.nobody_leaves;
          quantity = omega arith;
          enough = omega arith;
          spare = λ i. let more = k.counts.spare i in omega arith;
        };
      }

  pub hire-Seated :
      (new p : ℕ) (x : Position)
      → new < n
      → s.pc new ≡ absent
      → s.pc p ≡ x
      → x ≢ absent
      → Seated n (hire_philosopher new s) × ((hire_philosopher new s).pc p ≡ x)
  unfolding hire_philosopher max_philosophers go
  hire-Seated new p x lt e at ne = elim (Bool-cases (leb 10 s.philosophers_quantity)) [
    | inl many ↦ rw many (k, at)
    | inr few ↦ rw few (
      hires new lt e (ground arith),
      assign_ne s.pc new (to_lock arrival) p (λ h. ne (sym at ∙ ap s.pc h ∙ e)) ∙ at,
    )
  ]

  -- The quantity is lowered, by the only process that may owe it.
  pub lowers :
      (p : ℕ)
      → s.pc p ≡ inside (errand lower)
      → Seated n (
          mutex_unlock main_mutex p
            (to_lock (errand hire))
            (record s { philosophers_quantity = one_less s.philosophers_quantity }))
  unfolding mutex_unlock go one_less has lined wanted carried present keys owes spot_keys spot_owes
  lowers p e =
      let me = Person-at s k p (inside (errand lower)) e in
      let (spare, called) = me.owing refl in
      let small = k.counts.quantity in
      let q : (s.philosophers_quantity + 2 ^ 32 - 1) % 2 ^ 32 ≡ s.philosophers_quantity - 1 =
        omega arith in
      let (v, f) = unlock p (s.mutexes main_mutex) in
      let s' = record s {
        philosophers_quantity = s.philosophers_quantity - 1;
        mutexes = assign s.mutexes main_mutex v;
        pc = assign s.pc p (to_lock (errand hire));
      } in
      rw q (record {
        locked = locked_settle f s' (
            unlock_on s.pc s.mutexes k.locked p main_mutex (inside (errand lower))
              (to_lock (errand hire)) e refl (λ i ne. ground arith) (λ i. refl)
              (s.mutexes main_mutex) (k.locked main_mutex));
        people = People-settle n f s' (
            assign-elim
              (Person n s.philosophers_assigned (s.philosophers_quantity - 1) s.flag_of_second) s.pc
              p (to_lock (errand hire))
              (record {
                here = λ i. me.here refl;
                fits = tt;
                reader = λ i. me.reader refl;
                owing = λ i. cc;
              })
              (λ j ne.
                let h = k.people j in
                record {
                  here = h.here;
                  fits = h.fits;
                  reader = h.reader;
                  owing = λ i. absurd (ne (h.reader (owes-keys (s.pc j) i) ∙ sym (me.reader refl)));
                }));
        counts = Counts-settle f s' (record {
          nobody_leaves = k.counts.nobody_leaves;
          quantity = omega arith;
          enough = omega arith;
          spare = λ i. cc;
        });
      })

-- While nobody is sent away.
errands :
    {n : ℕ} (s : Dinner)
    → Seated n s
    → (p new : ℕ) (o : Errand) → new < n
    → s.pc new ≡ absent
    → s.pc p ≡ inside (errand o)
    → Seated n (philosopher p new (inside (errand o)) s)
unfolding philosopher obey follow has lined wanted carried present keys owes spot_keys spot_owes
errands {n} s k p new hire_first lt e at =
    let (k', at') = hire-Seated s k new p (inside (errand hire_first)) lt e at (λ h. cc) in
    let s' = hire_philosopher new s in
    let me = Person-at s' k' p (inside (errand hire_first)) at' in
    unlocks_it s' k' p main_mutex (inside (errand hire_first)) (to_lock (errand lower)) at' refl
      (λ i ne. ground arith) (λ i. refl)
      (record {
        here = λ i. me.here refl;
        fits = tt;
        reader = λ i. me.reader refl;
        owing = λ i. me.owing refl;
      })
errands s k p new lower lt e at = lowers s k p at
errands s k p new hire lt e at =
    let (k', at') = hire-Seated s k new p (inside (errand hire)) lt e at (λ h. cc) in
    let s' = hire_philosopher new s in
    let me = Person-at s' k' p (inside (errand hire)) at' in
    unlocks_it s' k' p main_mutex (inside (errand hire)) reads at' refl (λ i ne. ground arith)
      (λ i. refl)
      (record {
        here = λ i. me.here refl;
        fits = tt;
        reader = λ i. me.reader refl;
        owing = λ i. cc;
      })
errands s k p new let_go lt e at = absurd (Person-at s k p (inside (errand let_go)) at).fits
errands s k p new close lt e at = absurd (Person-at s k p (inside (errand close)) at).fits

-- A step of a process.
pub turns :
    {n : ℕ} (s : Dinner)
    → Seated n s
    → (p new : ℕ) (x : Position) → new < n
    → s.pc new ≡ absent
    → s.pc p ≡ x
    → Seated n (philosopher p new x s)
unfolding philosopher
turns s k p new absent lt e at = k
turns s k p new reads lt e at = k
turns s k p new (to_lock t) lt e at = locks_it s k p t at
turns s k p new (in_line t) lt e at = k
turns s k p new (inside (errand o)) lt e at = errands s k p new o lt e at
turns s k p new (inside arrival) lt e at = arrives s k p at
turns s k p new (inside (counting m)) lt e at = counts_on s k p m at
turns s k p new (inside (first m r l)) lt e at = first_taken s k p m r l at
turns s k p new (inside (second m r l)) lt e at = second_taken s k p m r l at
turns s k p new (inside (fed m r l)) lt e at = puts_right s k p m r l at
turns s k p new (puts_left m r l) lt e at = puts_both s k p m r l at
turns s k p new (leaves m) lt e at = rises s k p m at
turns s k p new (removed m) lt e at = absurd (Person-at s k p (removed m) at).fits
turns s k p new (recounts m) lt e at = absurd (Person-at s k p (recounts m) at).fits

-- The key for one more.
pub pressed :
    {n : ℕ} (s : Dinner)
    → Seated n s
    → (p : ℕ) → s.pc p ≡ reads
    → Seated n (key_pressed p inc_philo s)
unfolding key_pressed has lined carried present keys owes spot_keys spot_owes go
pressed {n} s k p at =
    let me = Person-at s k p reads at in
    let hired : Position = to_lock (errand hire) in
    if-elim (Seated n) s.flag_of_first (record s { flag_of_first = false })
      (if s.flag_of_second
        then go p (to_lock (errand hire_first)) (record s { flag_of_second = false })
        else go p hired s)
      (λ one. record { locked = k.locked; people = k.people; counts = k.counts })
      (λ more.
        if-elim (Seated n) s.flag_of_second
          (go p (to_lock (errand hire_first)) (record s { flag_of_second = false })) (go p hired s)
          (λ two. record {
            locked =
                moves s.pc s.mutexes p reads (to_lock (errand hire_first)) k.locked at (λ m. refl)
                  (λ m. refl);
            people =
                assign-elim (Person n s.philosophers_assigned s.philosophers_quantity false) s.pc p
                  (to_lock (errand hire_first))
                  (record {
                    here = λ i. me.here refl;
                    fits = tt;
                    reader = λ i. me.reader refl;
                    owing = λ i. (k.counts.spare two, refl);
                  })
                  (λ j ne.
                    let h = k.people j in
                    record {
                      here = h.here;
                      fits = h.fits;
                      reader = h.reader;
                      owing = λ i. ((h.owing i).0, refl);
                    });
            counts = record {
              nobody_leaves = k.counts.nobody_leaves;
              quantity = k.counts.quantity;
              enough = k.counts.enough;
              spare = λ i. cc;
            };
          })
          (λ some. goes s k p reads hired at (record {
            had = λ m. refl;
            out = λ m. refl;
            person = record {
              here = λ i. me.here refl;
              fits = tt;
              reader = λ i. me.reader refl;
              owing = λ i. cc;
            };
          })))
