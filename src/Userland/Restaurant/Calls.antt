-- ===== src/Userland/Restaurant/Calls.antt =====
-- What the system calls do to the order and to the counts.
use horaci_os.Prelude.{
  ◌⊎◌, ℕ, zero, suc, ◌+◌, ◌<◌, ◌≡◌, refl, sym, ◌∙◌, ap, subst, List, [], ◌∷◌, ◌++◌, true, false,
  Bool-cases, inl, inr, ◌==◌, assign, assign_ne, assign-elim, total, total-assign, arith,
}
use horaci_os.Mutex.Spec.{View, free, held, keeps, blocks, lock, release, unlock}
use horaci_os.Semaphore.Spec.{wait, signal}
use horaci_os.Userland.Restaurant.{
  cook, serve, Task, work, order, Pc, start, in_queue, to_lock, in_line, inside, Restaurant, woken,
  settle, next_place, go, wait_full, wait_empty, signal_full, signal_empty, lock_mutex,
  unlock_mutex,
}
use horaci_os.Userland.Restaurant.Tokens.{
  tray, dish, inner, waits_full, waits_empty, lined, calm, calm_task, present, Holder, Orderly,
  Ordered,
}
use horaci_os.Userland.Restaurant.Places.{
  moved, joins_full, joins_empty, wakes_full, wakes_empty, granted, joins_line, handed,
}

-- Process `p` moves to `y`, and perhaps another one is woken, which carries nothing less.
pub record Turned (n p : ℕ) (x y : Pc) (s s' : Restaurant) : Type 0 where
  pub ordered : Ordered n s'
  pub trays :
      s'.full.count + total tray n s'.pc + tray x ≡ s.full.count + total tray n s.pc + tray y
  pub dishes :
      s'.empty.count + total dish n s'.pc + dish x ≡ s.empty.count + total dish n s.pc + dish y
  pub plates : s'.plates ≡ s.plates
  pub chefs_stay : s'.chefs_to_die ≡ s.chefs_to_die
  pub waiters_stay : s'.waiters_to_die ≡ s.waiters_to_die

module _ {n : ℕ} (s : Restaurant) (o : Ordered n s) (p : ℕ) (lt : p < n) (x : Pc)
    (e : s.pc p ≡ x) where
  weigh :
      (weight : Pc → ℕ) (y : Pc)
      → total weight n (assign s.pc p y) + weight x ≡ total weight n s.pc + weight y
  weigh weight y = omega (arith, total-assign weight n s.pc p y lt, ap weight e)

  pub goes :
      (y : Pc)
      → calm y ≡ true
      → waits_full x ≡ false
      → waits_empty x ≡ false
      → lined x ≡ false
      → (inner y ≡ true → Holder p s.mutex_a)
      → Turned n p x y s (go p y s)
  unfolding go
  goes y at f g h hold = record {
    ordered = moved o p y at lt (ap waits_full e ∙ f) (ap waits_empty e ∙ g) (ap lined e ∙ h) hold;
    trays = omega (arith, weigh tray y);
    dishes = omega (arith, weigh dish y);
    plates = refl;
    chefs_stay = refl;
    waiters_stay = refl;
  }

wait-cases :
    (me n : ℕ) (ws : List ℕ)
    → ((n ≡ 0) × (wait me n ws ≡ (0, ws ++ me ∷ [], blocks me)))
      ⊎ ((m : ℕ) × (n ≡ m + 1) × (wait me n ws ≡ (m, ws, keeps)))
unfolding wait
wait-cases me zero ws = inl (refl, refl)
wait-cases me (suc m) ws = inr (m, omega arith, refl)

-- sem_wait of a chef takes a tray, or waits for one.
pub waits_for_tray :
    {n : ℕ} (s : Restaurant)
    → Ordered n s
    → (p : ℕ) → p < n
    → s.pc p ≡ start cook
    → Turned n p (start cook) (start cook) s (wait_full p s)
unfolding wait_full go next_place tray dish waits_full waits_empty lined inner calm calm_task
waits_for_tray s o p lt e = elim (wait-cases p s.full.count s.full.waiting) [
  | inl (zeroed, w) ↦ rw w (record {
    ordered = joins_full p o lt e;
    trays = omega (arith, weigh s o p lt (start cook) e tray (in_queue cook));
    dishes = omega (arith, weigh s o p lt (start cook) e dish (in_queue cook));
    plates = refl;
    chefs_stay = refl;
    waiters_stay = refl;
  })
  | inr (m, some, w) ↦ rw w (record {
    ordered =
        moved o p (to_lock (work cook)) refl lt (ap waits_full e) (ap waits_empty e) (ap lined e)
          (λ h. cc);
    trays = omega (arith, weigh s o p lt (start cook) e tray (to_lock (work cook)));
    dishes = omega (arith, weigh s o p lt (start cook) e dish (to_lock (work cook)));
    plates = refl;
    chefs_stay = refl;
    waiters_stay = refl;
  })
]

-- sem_wait of a waiter takes a dish, or waits for one.
pub waits_for_dish :
    {n : ℕ} (s : Restaurant)
    → Ordered n s
    → (p : ℕ) → p < n
    → s.pc p ≡ start serve
    → Turned n p (start serve) (start serve) s (wait_empty p s)
unfolding wait_empty go next_place tray dish waits_full waits_empty lined inner calm calm_task
waits_for_dish s o p lt e = elim (wait-cases p s.empty.count s.empty.waiting) [
  | inl (zeroed, w) ↦ rw w (record {
    ordered = joins_empty p o lt e;
    trays = omega (arith, weigh s o p lt (start serve) e tray (in_queue serve));
    dishes = omega (arith, weigh s o p lt (start serve) e dish (in_queue serve));
    plates = refl;
    chefs_stay = refl;
    waiters_stay = refl;
  })
  | inr (m, some, w) ↦ rw w (record {
    ordered =
        moved o p (to_lock (work serve)) refl lt (ap waits_full e) (ap waits_empty e) (ap lined e)
          (λ h. cc);
    trays = omega (arith, weigh s o p lt (start serve) e tray (to_lock (work serve)));
    dishes = omega (arith, weigh s o p lt (start serve) e dish (to_lock (work serve)));
    plates = refl;
    chefs_stay = refl;
    waiters_stay = refl;
  })
]

-- A signal adds one to what is counted, as a count or as what the woken process carries.
pub record Signalled (n : ℕ) (more_trays more_dishes : ℕ) (s s' : Restaurant) : Type 0 where
  pub ordered : Ordered n s'
  pub stands :
      (p : ℕ) (x : Pc) → s.pc p ≡ x → waits_full x ≡ false → waits_empty x ≡ false → s'.pc p ≡ x
  pub trays : s'.full.count + total tray n s'.pc ≡ s.full.count + total tray n s.pc + more_trays
  pub dishes : s'.empty.count + total dish n s'.pc ≡ s.empty.count + total dish n s.pc + more_dishes
  pub plates : s'.plates ≡ s.plates
  pub chefs_stay : s'.chefs_to_die ≡ s.chefs_to_die
  pub waiters_stay : s'.waiters_to_die ≡ s.waiters_to_die
  pub mutex : s'.mutex_a ≡ s.mutex_a

pub signals_tray : {n : ℕ} (s : Restaurant) → Ordered n s → Signalled n 1 0 s (signal_full s)
unfolding signal_full settle go signal woken tray dish waits_full waits_empty present
signals_tray {n} s o = on s.full.waiting o
  where
    on :
        (ws : List ℕ)
        → Orderly n s.pc ws s.empty.waiting s.mutex_a
        → Signalled n 1 0 s (
            let (m, ws', e) = signal s.full.count ws in
            settle e (record s { full = record { count = m; waiting = ws' } }))
    on [] o' = record {
      ordered = o';
      stands = λ p x e f g. e;
      trays = omega arith;
      dishes = omega arith;
      plates = refl;
      chefs_stay = refl;
      waiters_stay = refl;
      mutex = refl;
    }
    on (w ∷ ws) o' =
        let (ordered, at) = wakes_full w ws o' in
        let lt = o'.known w (ap present at) in
        let same = ap woken at in
        record {
          ordered = ordered;
          stands = λ p x e f g.
              assign_ne s.pc w (woken (s.pc w)) p (λ h. cc (ap waits_full (sym e ∙ ap s.pc h ∙ at)))
              ∙ e;
          trays =
              omega
                (arith, total-assign tray n s.pc w (woken (s.pc w)) lt, ap tray at, ap tray same);
          dishes =
              omega
                (arith, total-assign dish n s.pc w (woken (s.pc w)) lt, ap dish at, ap dish same);
          plates = refl;
          chefs_stay = refl;
          waiters_stay = refl;
          mutex = refl;
        }

pub signals_dish : {n : ℕ} (s : Restaurant) → Ordered n s → Signalled n 0 1 s (signal_empty s)
unfolding signal_empty settle go signal woken tray dish waits_full waits_empty present
signals_dish {n} s o = on s.empty.waiting o
  where
    on :
        (ws : List ℕ)
        → Orderly n s.pc s.full.waiting ws s.mutex_a
        → Signalled n 0 1 s (
            let (m, ws', e) = signal s.empty.count ws in
            settle e (record s { empty = record { count = m; waiting = ws' } }))
    on [] o' = record {
      ordered = o';
      stands = λ p x e f g. e;
      trays = omega arith;
      dishes = omega arith;
      plates = refl;
      chefs_stay = refl;
      waiters_stay = refl;
      mutex = refl;
    }
    on (w ∷ ws) o' =
        let (ordered, at) = wakes_empty w ws o' in
        let lt = o'.known w (ap present at) in
        let same = ap woken at in
        record {
          ordered = ordered;
          stands = λ p x e f g.
              assign_ne s.pc w (woken (s.pc w)) p
                (λ h. cc (ap waits_empty (sym e ∙ ap s.pc h ∙ at)))
              ∙ e;
          trays =
              omega
                (arith, total-assign tray n s.pc w (woken (s.pc w)) lt, ap tray at, ap tray same);
          dishes =
              omega
                (arith, total-assign dish n s.pc w (woken (s.pc w)) lt, ap dish at, ap dish same);
          plates = refl;
          chefs_stay = refl;
          waiters_stay = refl;
          mutex = refl;
        }

-- The lock of the mutex changes nothing in what a process carries.
pub record Level (x y : Pc) : Type 0 where
  pub trays : tray x ≡ tray y
  pub dishes : dish x ≡ dish y

levels : (t : Task) → Level (inside t) (to_lock t) × Level (in_line t) (to_lock t)
unfolding tray dish
levels (work cook) =
    ((record { trays = refl; dishes = refl }), record { trays = refl; dishes = refl })
levels (work serve) =
    ((record { trays = refl; dishes = refl }), record { trays = refl; dishes = refl })
levels (order o) =
    ((record { trays = refl; dishes = refl }), record { trays = refl; dishes = refl })

-- The move of a process, with a mutex that may be another one, and no change of what is carried.
changes_hands :
    {n : ℕ} (s : Restaurant) (p : ℕ) (x y z : Pc) (v : View)
    → p < n
    → s.pc p ≡ x
    → Level y x
    → Orderly n (assign s.pc p y) s.full.waiting s.empty.waiting v
    → Turned n p z z s (go p y (record s { mutex_a = v }))
unfolding go
changes_hands {n} s p x y z v lt e l o = record {
  ordered = o;
  trays = omega (arith, total-assign tray n s.pc p y lt, ap tray e, l.trays);
  dishes = omega (arith, total-assign dish n s.pc p y lt, ap dish e, l.dishes);
  plates = refl;
  chefs_stay = refl;
  waiters_stay = refl;
}

-- mutex_lock gives the mutex, or lets the process wait for it.
pub locks :
    {n : ℕ} (s : Restaurant)
    → Ordered n s
    → (p : ℕ) → p < n
    → (t : Task) → s.pc p ≡ to_lock t
    → Turned n p (to_lock t) (to_lock t) s (lock_mutex p t s)
unfolding lock_mutex lock next_place waits_full waits_empty lined calm
locks {n} s o p lt t e = on s.mutex_a o
  where
    on :
        (v : View)
        → Orderly n s.pc s.full.waiting s.empty.waiting v
        → Turned n p (to_lock t) (to_lock t) s (
            let (v', e') = lock p v in
            go p (next_place e' (inside t) (in_line t)) (record s { mutex_a = v' }))
    on free o' =
        changes_hands s p (to_lock t) (inside t) (to_lock t) (held p []) lt e (levels t).0
          (granted p t o' lt e)
    on (held h ws) o' = elim (Bool-cases (h == p)) [
      | inl mine ↦ rw mine (
          changes_hands s p (to_lock t) (inside t) (to_lock t) (held h ws) lt e (levels t).0 (
            moved o' p (inside t) (sym (ap calm e) ∙ o'.peace p) lt (ap waits_full e)
              (ap waits_empty e) (ap lined e) (λ k. ground arith)))
      | inr other ↦ rw other (
          changes_hands s p (to_lock t) (in_line t) (to_lock t) (held h (ws ++ p ∷ [])) lt e
            (levels t).1 (joins_line p h ws t o' lt e))
    ]

-- Once the holder of the mutex has left, nobody is behind its lock.
nobody_in :
    {n : ℕ} {pc : ℕ → Pc} {qf qe : List ℕ} {h : ℕ} {ws : List ℕ}
    → Orderly n pc qf qe (held h ws)
    → (y : Pc) → inner y ≡ false
    → (q : ℕ) → inner (assign pc h y q) ≡ false
nobody_in {pc} {h} o y out =
    assign-elim (λ q z. inner z ≡ false) pc h y out
      (λ q ne. elim (Bool-cases (inner (pc q))) [
        | inl at ↦ absurd (ne (sym (o.alone q at)))
        | inr at ↦ at
      ])

woken-Level : (t : Task) (z : Pc) → z ≡ in_line t → Level (woken z) z
unfolding woken tray dish
woken-Level (work cook) z e = rw e (record { trays = refl; dishes = refl })
woken-Level (work serve) z e = rw e (record { trays = refl; dishes = refl })
woken-Level (order o) z e = rw e (record { trays = refl; dishes = refl })

-- mutex_unlock by the process that holds the mutex, which may go to another one.
pub unlocks_it :
    {n : ℕ} (s : Restaurant)
    → Ordered n s
    → (p : ℕ) → p < n
    → (x y : Pc) → s.pc p ≡ x
    → inner x ≡ true
    → inner y ≡ false
    → calm y ≡ true
    → Level y x
    → waits_full x ≡ false
    → waits_empty x ≡ false
    → lined x ≡ false
    → Turned n p (start cook) (start cook) s (unlock_mutex p y s)
unfolding unlock_mutex unlock release settle go present
unlocks_it {n} s o p lt x y e is_in is_out at level f g l = on s.mutex_a o
  where
    pc' : ℕ → Pc
    pc' = assign s.pc p y

    out :
        (v : View)
        → Orderly n s.pc s.full.waiting s.empty.waiting v
        → Orderly n pc' s.full.waiting s.empty.waiting v
    out v o' =
        moved o' p y at lt (ap waits_full e ∙ f) (ap waits_empty e ∙ g) (ap lined e ∙ l) (λ h. cc)

    on :
        (v : View)
        → Orderly n s.pc s.full.waiting s.empty.waiting v
        → Turned n p
            (start cook)
            (start cook)
            s
            (let (v', e') = unlock p v in settle e' (go p y (record s { mutex_a = v' })))
    on free o' = absurd (o'.alone p (ap inner e ∙ is_in))
    on (held h []) o' =
        let mine : h ≡ p = o'.alone p (ap inner e ∙ is_in) in
        let o₁ = out (held h []) o' in
        let test : (h == p) ≡ true = ground arith in
        rw test (
          changes_hands s p x y (start cook) free lt e level (record {
            q_full = o₁.q_full;
            q_empty = o₁.q_empty;
            line = tt;
            alone = λ q k. cc (
                subst (λ (i : ℕ). inner (assign s.pc i y q) ≡ false) mine
                  (nobody_in o' y is_out q));
            peace = o₁.peace;
            known = o₁.known;
          }))
    on (held h (w ∷ ws)) o' =
        let mine : h ≡ p = o'.alone p (ap inner e ∙ is_in) in
        let o₁ = out (held h (w ∷ ws)) o' in
        let test : (h == p) ≡ true = ground arith in
        let first = changes_hands s p x y (start cook) (held h (w ∷ ws)) lt e level o₁ in
        let (o₂, t_line) = handed h w ws o₁ (
          subst (λ (i : ℕ). (q : ℕ) → inner (assign s.pc i y q) ≡ false) mine
            (nobody_in o' y is_out)) in
        let line = t_line.1 in
        let below = o₁.known w (ap present line) in
        let same = woken-Level t_line.0 (pc' w) line in
        rw test (record {
          ordered = o₂;
          trays =
              omega
                (arith, first.trays, total-assign tray n pc' w (woken (pc' w)) below, same.trays);
          dishes =
              omega
                (arith, first.dishes, total-assign dish n pc' w (woken (pc' w)) below, same.dishes);
          plates = refl;
          chefs_stay = refl;
          waiters_stay = refl;
        })
