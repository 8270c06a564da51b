-- ===== src/Userland/Restaurant/Keep.antt =====
-- Each step in the restaurant keeps the order and the counts.
use horaci_os.Prelude.{
  set, ℕ, ◌<◌, ◌≤◌, ◌≡◌, ◌≢◌, refl, sym, ◌∙◌, ap, subst, false, Bool-cases, inl, inr, ltb, leb,
  assign, assign_ne, le-total, arith,
}
use horaci_os.Userland.Restaurant.{
  lock_mutex, Job, cook, serve, call, rest, close, Task, work, order, Pc, absent, reads, start,
  in_queue, dying, leaving, changes, signals, hands, kills, to_lock, in_line, inside, unlocks,
  unlock_mutex, Restaurant, go, one_more, one_less, chef, waiter, staff, act, call_chef,
  call_waiter, obey, max_prodcons, signal_empty, signal_full,
}
use horaci_os.Userland.Restaurant.Tokens.{
  tray, dish, inner, waits_full, waits_empty, lined, calm, calm_task, Holder, Ordered, Counted,
}
use horaci_os.Userland.Restaurant.Calls.{
  Turned, Level, goes, waits_for_tray, waits_for_dish, signals_tray, signals_dish, locks,
  unlocks_it,
}

pub record Inv (n : ℕ) (s : Restaurant) : Type 0 where
  pub ordered : Ordered n s
  pub counted : Counted n s

-- A move between two places where as much is carried.
settled :
    {n p : ℕ} {x y : Pc} {s s' : Restaurant}
    → Counted n s
    → Turned n p x y s s'
    → Level y x
    → Inv n s'
settled c t l = record {
  ordered = t.ordered;
  counted = record {
    chefs_stay = t.chefs_stay ∙ c.chefs_stay;
    waiters_stay = t.waiters_stay ∙ c.waiters_stay;
    trays = omega (arith, t.trays, t.plates, c.trays, l.trays);
    dishes = omega (arith, t.dishes, t.plates, c.dishes, l.dishes);
  };
}

level : {x y : Pc} → tray y ≡ tray x → dish y ≡ dish x → Level y x
level t d = record { trays = t; dishes = d }

module _ {n : ℕ} (s : Restaurant) (i : Inv n s) (p : ℕ) (lt : p < n) where
  open i use {ordered, counted}

  -- A dish that is carried is one of those on the counter.
  dish_there : (x : Pc) → s.pc p ≡ x → dish x ≤ s.plates
  dish_there x e = omega (arith, le-total dish n s.pc p lt, ap dish e, counted.dishes)

  chef_test : s.pc p ≡ inside (work cook) → Inv n (chef p (inside (work cook)) s)
  unfolding chef tray dish inner waits_full waits_empty lined calm
  chef_test e =
      let test : ltb 0 s.chefs_to_die ≡ false = ground (arith, counted.chefs_stay) in
      rw test (
        settled counted
          (goes s ordered p lt (inside (work cook)) e (changes cook) refl refl refl refl
            (λ h. ordered.alone p (ap inner e)))
          (level refl refl))

  chef_fills : s.pc p ≡ changes cook → Inv n (chef p (changes cook) s)
  unfolding chef tray dish inner waits_full waits_empty lined calm go one_more
  chef_fills e =
      let t =
        goes s ordered p lt (changes cook) e (signals cook) refl refl refl refl
          (λ h. ordered.alone p (ap inner e)) in
      record {
        ordered = t.ordered;
        counted = record {
          chefs_stay = counted.chefs_stay;
          waiters_stay = counted.waiters_stay;
          trays = omega (arith, t.trays, counted.trays);
          dishes = omega (arith, t.dishes, counted.dishes, counted.trays);
        };
      }

  chef_signals : s.pc p ≡ signals cook → Inv n (chef p (signals cook) s)
  unfolding chef tray dish inner waits_full waits_empty lined calm calm_task
  chef_signals e =
      let t = signals_dish s ordered in
      let s' = signal_empty s in
      let hold : Holder p s'.mutex_a =
        subst (Holder p) (sym t.mutex) (ordered.alone p (ap inner e)) in
      let u =
        goes s' t.ordered p lt (signals cook) (t.stands p (signals cook) e refl refl)
          (unlocks (work cook)) refl refl refl refl (λ h. hold) in
      record {
        ordered = u.ordered;
        counted = record {
          chefs_stay = u.chefs_stay ∙ t.chefs_stay ∙ counted.chefs_stay;
          waiters_stay = u.waiters_stay ∙ t.waiters_stay ∙ counted.waiters_stay;
          trays = omega (arith, t.trays, u.trays, u.plates, t.plates, counted.trays);
          dishes = omega (arith, t.dishes, u.dishes, u.plates, t.plates, counted.dishes);
        };
      }

  waiter_test : s.pc p ≡ inside (work serve) → Inv n (waiter p (inside (work serve)) s)
  unfolding waiter tray dish inner waits_full waits_empty lined calm
  waiter_test e =
      let test : ltb 0 s.waiters_to_die ≡ false = ground (arith, counted.waiters_stay) in
      rw test (
        settled counted
          (goes s ordered p lt (inside (work serve)) e (changes serve) refl refl refl refl
            (λ h. ordered.alone p (ap inner e)))
          (level refl refl))

  waiter_empties : s.pc p ≡ changes serve → Inv n (waiter p (changes serve) s)
  unfolding waiter tray dish inner waits_full waits_empty lined calm go one_less
  waiter_empties e =
      let there : 1 ≤ s.plates = dish_there (changes serve) e in
      let t =
        goes s ordered p lt (changes serve) e (signals serve) refl refl refl refl
          (λ h. ordered.alone p (ap inner e)) in
      record {
        ordered = t.ordered;
        counted = record {
          chefs_stay = counted.chefs_stay;
          waiters_stay = counted.waiters_stay;
          trays = omega (arith, t.trays, counted.trays, there);
          dishes = omega (arith, t.dishes, counted.dishes, counted.trays, there);
        };
      }

  waiter_signals : s.pc p ≡ signals serve → Inv n (waiter p (signals serve) s)
  unfolding waiter tray dish inner waits_full waits_empty lined calm calm_task
  waiter_signals e =
      let t = signals_tray s ordered in
      let s' = signal_full s in
      let hold : Holder p s'.mutex_a =
        subst (Holder p) (sym t.mutex) (ordered.alone p (ap inner e)) in
      let u =
        goes s' t.ordered p lt (signals serve) (t.stands p (signals serve) e refl refl)
          (unlocks (work serve)) refl refl refl refl (λ h. hold) in
      record {
        ordered = u.ordered;
        counted = record {
          chefs_stay = u.chefs_stay ∙ t.chefs_stay ∙ counted.chefs_stay;
          waiters_stay = u.waiters_stay ∙ t.waiters_stay ∙ counted.waiters_stay;
          trays = omega (arith, t.trays, u.trays, u.plates, t.plates, counted.trays);
          dishes = omega (arith, t.dishes, u.dishes, u.plates, t.plates, counted.dishes);
        };
      }

  -- Both end a round by the unlock.
  work_ends : (j : Job) → s.pc p ≡ unlocks (work j) → Inv n (staff j p (unlocks (work j)) s)
  unfolding staff chef waiter tray dish inner waits_full waits_empty lined calm
  work_ends cook e =
      settled counted
        (unlocks_it s ordered p lt (unlocks (work cook)) (start cook) e refl refl refl
          (level refl refl) refl refl refl)
        (level refl refl)
  work_ends serve e =
      settled counted
        (unlocks_it s ordered p lt (unlocks (work serve)) (start serve) e refl refl refl
          (level refl refl) refl refl refl)
        (level refl refl)

  order_ends : (j : Job) → s.pc p ≡ unlocks (order (call j)) → Inv n (unlock_mutex p reads s)
  unfolding tray dish inner waits_full waits_empty lined calm
  order_ends j e =
      settled counted
        (unlocks_it s ordered p lt (unlocks (order (call j))) reads e refl refl refl
          (level refl refl) refl refl refl)
        (level refl refl)

  -- A new process is started by a process behind the lock, which goes to the unlock.
  hired :
      (s' : Restaurant) (j : Job) (new : ℕ)
      → new < n
      → s.pc new ≡ absent
      → s.pc p ≡ inside (order (call j))
      → Turned n new absent (start j) s s'
      → s'.pc ≡ assign s.pc new (start j)
      → s'.mutex_a ≡ s.mutex_a
      → Inv n (go p (unlocks (order (call j))) s')
  unfolding tray dish inner waits_full waits_empty lined calm calm_task
  hired s' j new lt' e' e t pcs mutex =
      let other : p ≢ new = λ h. cc (sym e ∙ ap s.pc h ∙ e') in
      let at : s'.pc p ≡ inside (order (call j)) =
        ap (λ (f : ℕ → Pc). f p) pcs ∙ assign_ne s.pc new (start j) p other ∙ e in
      let hold : Holder p s'.mutex_a =
        subst (Holder p) (sym mutex) (ordered.alone p (ap inner e)) in
      let u =
        goes s' t.ordered p lt (inside (order (call j))) at (unlocks (order (call j))) refl refl
          refl refl (λ h. hold) in
      record {
        ordered = u.ordered;
        counted = record {
          chefs_stay = u.chefs_stay ∙ t.chefs_stay ∙ counted.chefs_stay;
          waiters_stay = u.waiters_stay ∙ t.waiters_stay ∙ counted.waiters_stay;
          trays = omega (arith, t.trays, u.trays, u.plates, t.plates, counted.trays, carried j);
          dishes = omega (arith, t.dishes, u.dishes, u.plates, t.plates, counted.dishes, carried j);
        };
      }
    where
      carried : (k : Job) → (tray (start k) ≡ 0) × (dish (start k) ≡ 0)
      carried cook = (refl, refl)
      carried serve = (refl, refl)

  unhired : (j : Job) → s.pc p ≡ inside (order (call j)) → Inv n (go p (unlocks (order (call j))) s)
  unfolding tray dish inner waits_full waits_empty lined calm calm_task
  unhired j e =
      settled counted
        (goes s ordered p lt (inside (order (call j))) e (unlocks (order (call j))) refl refl refl
          refl (λ h. ordered.alone p (ap inner e)))
        (level refl refl)

  calls :
      (j : Job) (new : ℕ)
      → new < n
      → s.pc new ≡ absent
      → s.pc p ≡ inside (order (call j))
      → Inv n (go p (unlocks (order (call j))) (obey (call j) new s))
  unfolding obey call_chef call_waiter tray dish inner waits_full waits_empty lined calm calm_task
      go
  calls cook new lt' e' e = elim (Bool-cases (leb max_prodcons s.chefs_qty)) [
    | inl many ↦ rw many (unhired cook e)
    | inr few ↦ rw few (
        hired
          (go new (start cook)
            (record s { chefs = set s.chefs s.chefs_qty new; chefs_qty = one_more s.chefs_qty }))
          cook new lt' e' e
          (let t = goes s ordered new lt' absent e' (start cook) refl refl refl refl (λ h. cc) in
            record {
              ordered = t.ordered;
              trays = t.trays;
              dishes = t.dishes;
              plates = refl;
              chefs_stay = refl;
              waiters_stay = refl;
            })
          refl refl)
  ]
  calls serve new lt' e' e = elim (Bool-cases (leb max_prodcons s.waiters_qty)) [
    | inl many ↦ rw many (unhired serve e)
    | inr few ↦ rw few (
        hired
          (go new (start serve) (record s {
            waiters = set s.waiters s.waiters_qty new;
            waiters_qty = one_more s.waiters_qty;
          }))
          serve new lt' e' e
          (let t = goes s ordered new lt' absent e' (start serve) refl refl refl refl (λ h. cc) in
            record {
              ordered = t.ordered;
              trays = t.trays;
              dishes = t.dishes;
              plates = refl;
              chefs_stay = refl;
              waiters_stay = refl;
            })
          refl refl)
  ]

  locked : (t : Task) → s.pc p ≡ to_lock t → Inv n (lock_mutex p t s)
  locked t e = settled counted (locks s ordered p lt t e) (level refl refl)

  -- A place that is not calm is not reached.
  not_here : {x : Pc} → s.pc p ≡ x → calm x ≡ false → ⊥
  not_here e h = cc (sym (ap calm e) ∙ ordered.peace p)

  pub act-Inv :
      (new : ℕ) → new < n → s.pc new ≡ absent → (x : Pc) → s.pc p ≡ x → Inv n (act p new x s)
  unfolding act staff calm calm_task chef waiter tray dish
  act-Inv new lt' e' absent e = i
  act-Inv new lt' e' reads e = i
  act-Inv new lt' e' (start cook) e =
      settled counted (waits_for_tray s ordered p lt e) (level refl refl)
  act-Inv new lt' e' (start serve) e =
      settled counted (waits_for_dish s ordered p lt e) (level refl refl)
  act-Inv new lt' e' (in_queue j) e = i
  act-Inv new lt' e' (dying j) e = absurd (not_here e refl)
  act-Inv new lt' e' (leaving j) e = absurd (not_here e refl)
  act-Inv new lt' e' (hands j v) e = absurd (not_here e refl)
  act-Inv new lt' e' (kills j v) e = absurd (not_here e refl)
  act-Inv new lt' e' (changes cook) e = chef_fills e
  act-Inv new lt' e' (changes serve) e = waiter_empties e
  act-Inv new lt' e' (signals cook) e = chef_signals e
  act-Inv new lt' e' (signals serve) e = waiter_signals e
  act-Inv new lt' e' (to_lock t) e = locked t e
  act-Inv new lt' e' (in_line t) e = i
  act-Inv new lt' e' (inside (work cook)) e = chef_test e
  act-Inv new lt' e' (inside (work serve)) e = waiter_test e
  act-Inv new lt' e' (inside (order (call j))) e = calls j new lt' e' e
  act-Inv new lt' e' (inside (order (rest j))) e = absurd (not_here e refl)
  act-Inv new lt' e' (inside (order close)) e = absurd (not_here e refl)
  act-Inv new lt' e' (unlocks (work j)) e = work_ends j e
  act-Inv new lt' e' (unlocks (order (call j))) e = order_ends j e
  act-Inv new lt' e' (unlocks (order (rest j))) e = absurd (not_here e refl)
  act-Inv new lt' e' (unlocks (order close)) e = absurd (not_here e refl)

  pub keyed : (j : Job) → s.pc p ≡ reads → Inv n (go p (to_lock (order (call j))) s)
  unfolding tray dish inner waits_full waits_empty lined calm calm_task
  keyed j e =
      settled counted
        (goes s ordered p lt reads e (to_lock (order (call j))) refl refl refl refl (λ h. cc))
        (level refl refl)
