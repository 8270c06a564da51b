-- ===== src/Userland/Philosophers/Keep.antt =====
-- Each step at the table keeps what holds there, while no philosopher is sent away.
use horaci_os.Prelude.{ℕ, ◌≡◌, ◌≢◌, refl, subst, true, false, ltb, assign, assign-elim, arith}
use horaci_os.Mutex.Spec.{Effect, keeps, blocks, wakes, lock, unlock}
use horaci_os.Userland.Philosophers.{
  Spot, arrival, counting, first, second, fed, Position, to_lock, in_line, inside, puts_left,
  leaves, wanted, first_stick, second_stick, sits, main_mutex, Dinner, go, settle, next_place,
  mutex_lock, mutex_unlock, philosopher,
}
use horaci_os.Userland.Philosophers.Table.{
  carried, has, lined, present, keys, owes, spot_keys, spot_owes, Fits, Person, Counts, People,
}
use horaci_os.Userland.Philosophers.Calls.{AllLocked, moves, locks}
use horaci_os.Userland.Philosophers.Unlock.{place_after, unlock_on}
use horaci_os.Userland.Philosophers.Seats.{seat, People-settle}

pub record Seated (n : ℕ) (s : Dinner) : Type 0 where
  pub locked : AllLocked s.pc s.mutexes
  pub people : People n s
  pub counts : Counts s

pub locked_settle :
    (e : Effect) (s : Dinner)
    → AllLocked (place_after e s.pc) s.mutexes
    → AllLocked (settle e s).pc (settle e s).mutexes
unfolding settle go
locked_settle keeps s h = h
locked_settle (blocks p) s h = h
locked_settle (wakes w) s h = h

pub Counts-settle : (e : Effect) (s : Dinner) → Counts s → Counts (settle e s)
unfolding settle go
Counts-settle keeps s h = h
Counts-settle (blocks p) s h = h
Counts-settle (wakes w) s h = h

-- A place where a process has what it had, and may be.
pub record Next (n p : ℕ) (s : Dinner) (x y : Position) : Type 0 where
  pub had : (m : ℕ) → has m y ≡ has m x
  pub out : (m : ℕ) → lined m y ≡ lined m x
  pub person : Person n s.philosophers_assigned s.philosophers_quantity s.flag_of_second p y

module _ {n : ℕ} (s : Dinner) (k : Seated n s) (p : ℕ) where
  pub people_with :
      (y : Position)
      → Person n s.philosophers_assigned s.philosophers_quantity s.flag_of_second p y
      → (q : ℕ)
      → Person n s.philosophers_assigned s.philosophers_quantity s.flag_of_second q
          (assign s.pc p y q)
  people_with y h =
      assign-elim (Person n s.philosophers_assigned s.philosophers_quantity s.flag_of_second) s.pc p
        y h (λ q ne. k.people q)

  pub goes : (x y : Position) → s.pc p ≡ x → Next n p s x y → Seated n (go p y s)
  unfolding go
  goes x y e next = record {
    locked = moves s.pc s.mutexes p x y k.locked e next.had next.out;
    people = people_with y next.person;
    counts = k.counts;
  }

  -- mutex_unlock of a mutex that the process has, or has not.
  pub unlocks_it :
      (m : ℕ) (x y : Position)
      → s.pc p ≡ x
      → has m y ≡ false
      → ((i : ℕ) → i ≢ m → has i y ≡ has i x)
      → ((i : ℕ) → lined i y ≡ lined i x)
      → Person n s.philosophers_assigned s.philosophers_quantity s.flag_of_second p y
      → Seated n (mutex_unlock m p y s)
  unfolding mutex_unlock go
  unlocks_it m x y e gone rest out person =
      let (v, f) = unlock p (s.mutexes m) in
      let s' = record s { mutexes = assign s.mutexes m v; pc = assign s.pc p y } in
      record {
        locked =
            locked_settle f s' (
              unlock_on s.pc s.mutexes k.locked p m x y e gone rest out (s.mutexes m) (k.locked m));
        people = People-settle n f s' (people_with y person);
        counts = Counts-settle f s' k.counts;
      }

  -- A process at a lock may go behind it, or wait for it.
  Person-in :
      (t : Spot)
      → Person n s.philosophers_assigned s.philosophers_quantity s.flag_of_second p (to_lock t)
      → (e : Effect)
      → Person n s.philosophers_assigned s.philosophers_quantity s.flag_of_second p
          (next_place e (inside t) (in_line t))
  unfolding next_place present keys owes
  Person-in t h keeps = record {
    here = λ i. h.here refl;
    fits = h.fits;
    reader = h.reader;
    owing = h.owing;
  }
  Person-in t h (wakes w) = record {
    here = λ i. h.here refl;
    fits = h.fits;
    reader = h.reader;
    owing = h.owing;
  }
  Person-in t h (blocks w) = record {
    here = λ i. h.here refl;
    fits = h.fits;
    reader = h.reader;
    owing = h.owing;
  }

  pub Person-at :
      (x : Position)
      → s.pc p ≡ x
      → Person n s.philosophers_assigned s.philosophers_quantity s.flag_of_second p x
  Person-at x e =
      subst (Person n s.philosophers_assigned s.philosophers_quantity s.flag_of_second p) e
        (k.people p)

  pub locks_it : (t : Spot) → s.pc p ≡ to_lock t → Seated n (mutex_lock p t s)
  locks_it t e = record {
    locked = locks s p t k.locked e;
    people =
        unfold mutex_lock go in
        people_with (next_place (lock p (s.mutexes (wanted t))).1 (inside t) (in_line t))
          (Person-in t (Person-at (to_lock t) e) (lock p (s.mutexes (wanted t))).1);
    counts = unfold mutex_lock go in k.counts;
  }

  -- A philosopher's next place.
  at_place :
      (x y : Position)
      → s.pc p ≡ x
      → present x ≡ true
      → keys y ≡ false
      → owes y ≡ false
      → Fits s.philosophers_assigned y
      → Person n s.philosophers_assigned s.philosophers_quantity s.flag_of_second p y
  at_place x y e here nk no_debt f = record {
    here = λ i. (Person-at x e).here here;
    fits = f;
    reader = λ i. cc;
    owing = λ i. cc;
  }

  pub arrives : s.pc p ≡ inside arrival → Seated n (philosopher p 0 (inside arrival) s)
  unfolding philosopher has lined carried wanted present keys owes spot_keys spot_owes
  arrives e =
      let y : Position = to_lock (counting s.philosophers_assigned) in
      unlocks_it main_mutex (inside arrival) y e refl (λ i ne. ground arith) (λ i. refl)
        (at_place (inside arrival) y e refl refl refl
          ((Person-at (inside arrival) e).fits, omega arith))

  pub counts_on :
      (m : ℕ) → s.pc p ≡ inside (counting m) → Seated n (philosopher p 0 (inside (counting m)) s)
  unfolding philosopher has lined carried wanted present keys owes spot_keys spot_owes sits
  counts_on m e =
      let y : Position = sits m s.philosophers_quantity in
      let (pos, le) = (Person-at (inside (counting m)) e).fits in
      let test : ltb 0 s.philosophers_to_remove ≡ false = ground (arith, k.counts.nobody_leaves) in
      rw test (
        unlocks_it main_mutex (inside (counting m)) y e refl (λ i ne. ground arith) (λ i. refl)
          (at_place (inside (counting m)) y e refl refl refl (
            seat s.philosophers_assigned m s.philosophers_quantity pos le k.counts.enough
              k.counts.quantity)))

  -- From one chopstick to the next, and to the meal.
  pub first_taken :
      (m r l : ℕ)
      → s.pc p ≡ inside (first m r l)
      → Seated n (philosopher p 0 (inside (first m r l)) s)
  unfolding philosopher has lined carried wanted present keys owes spot_keys spot_owes
  first_taken m r l e = goes (inside (first m r l)) (to_lock (second m r l)) e (record {
    had = λ i. ground arith;
    out = λ i. refl;
    person =
        at_place (inside (first m r l)) (to_lock (second m r l)) e refl refl refl
          (Person-at (inside (first m r l)) e).fits;
  })

  pub second_taken :
      (m r l : ℕ)
      → s.pc p ≡ inside (second m r l)
      → Seated n (philosopher p 0 (inside (second m r l)) s)
  unfolding philosopher has lined carried wanted first_stick second_stick present keys owes
      spot_keys spot_owes
  second_taken m r l e = goes (inside (second m r l)) (to_lock (fed m r l)) e (record {
    had = λ i. ground arith;
    out = λ i. refl;
    person =
        at_place (inside (second m r l)) (to_lock (fed m r l)) e refl refl refl
          (Person-at (inside (second m r l)) e).fits;
  })

  pub puts_right :
      (m r l : ℕ) → s.pc p ≡ inside (fed m r l) → Seated n (philosopher p 0 (inside (fed m r l)) s)
  unfolding philosopher has lined carried wanted present keys owes spot_keys spot_owes
  puts_right m r l e =
      let h = (Person-at (inside (fed m r l)) e).fits in
      let small = h.sticks in
      unlocks_it r (inside (fed m r l)) (puts_left m r l) e (ground arith) (λ i ne. ground arith)
        (λ i. refl) (at_place (inside (fed m r l)) (puts_left m r l) e refl refl refl h)

  pub puts_both :
      (m r l : ℕ) → s.pc p ≡ puts_left m r l → Seated n (philosopher p 0 (puts_left m r l) s)
  unfolding philosopher has lined carried wanted present keys owes spot_keys spot_owes
  puts_both m r l e =
      let h = (Person-at (puts_left m r l) e).fits in
      let small = h.sticks in
      unlocks_it l (puts_left m r l) (leaves m) e (ground arith) (λ i ne. ground arith) (λ i. refl)
        (at_place (puts_left m r l) (leaves m) e refl refl refl h.numbered)

  pub rises : (m : ℕ) → s.pc p ≡ leaves m → Seated n (philosopher p 0 (leaves m) s)
  unfolding philosopher has lined carried wanted present keys owes spot_keys spot_owes
  rises m e =
      unlocks_it main_mutex (leaves m) (to_lock (counting m)) e refl (λ i ne. ground arith)
        (λ i. refl)
        (at_place (leaves m) (to_lock (counting m)) e refl refl refl (Person-at (leaves m) e).fits)
