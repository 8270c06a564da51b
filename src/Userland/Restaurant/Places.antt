-- ===== src/Userland/Restaurant/Places.antt =====
-- What a move of one process keeps of the order in the restaurant.
use horaci_os.Prelude.{
  ℕ, ◌<◌, ◌≡◌, refl, sym, ◌∙◌, ap, List, [], ◌∷◌, ◌++◌, true, false, assign, assign-elim,
  Queued-assign, Queued-other, Queued-join,
}
use horaci_os.Mutex.Spec.{View, free, held}
use horaci_os.Userland.Restaurant.{
  cook, serve, Task, work, Pc, start, in_queue, to_lock, in_line, inside, woken,
}
use horaci_os.Userland.Restaurant.Tokens.{
  inner, waits_full, waits_empty, lined, calm_task, calm, present, Holder, Line, Orderly,
}

Line-assign :
    (pc : ℕ → Pc) (p : ℕ) (x : Pc) (v : View)
    → Line pc v
    → lined (pc p) ≡ false
    → Line (assign pc p x) v
Line-assign pc p x free l out = tt
Line-assign pc p x (held o ws) l out = Queued-assign lined pc p x ws l out

module _ {n : ℕ} {pc : ℕ → Pc} {qf qe : List ℕ} where
  module _ {v : View} (o : Orderly n pc qf qe v) (p : ℕ) (x : Pc) (at : calm x ≡ true)
      (lt : p < n) where
    alone_with :
        (inner x ≡ true → Holder p v) → (q : ℕ) → inner (assign pc p x q) ≡ true → Holder q v
    alone_with h = assign-elim (λ q y. inner y ≡ true → Holder q v) pc p x h (λ q ne. o.alone q)

    peace_with : (q : ℕ) → calm (assign pc p x q) ≡ true
    peace_with = assign-elim (λ q y. calm y ≡ true) pc p x at (λ q ne. o.peace q)

    known_with : (q : ℕ) → present (assign pc p x q) ≡ true → q < n
    known_with = assign-elim (λ q y. present y ≡ true → q < n) pc p x (λ e. lt) (λ q ne. o.known q)

    -- A process that is in no queue goes to a place where it may be.
    pub moved :
        waits_full (pc p) ≡ false
        → waits_empty (pc p) ≡ false
        → lined (pc p) ≡ false
        → (inner x ≡ true → Holder p v)
        → Orderly n (assign pc p x) qf qe v
    moved nf ne nl h = record {
      q_full = Queued-assign waits_full pc p x qf o.q_full nf;
      q_empty = Queued-assign waits_empty pc p x qe o.q_empty ne;
      line = Line-assign pc p x v o.line nl;
      alone = alone_with h;
      peace = peace_with;
      known = known_with;
    }

waits_full_lem : (x : Pc) → waits_full x ≡ true → x ≡ in_queue cook
unfolding waits_full
waits_full_lem (in_queue cook) h = refl
waits_full_lem x h = cc

waits_empty_lem : (x : Pc) → waits_empty x ≡ true → x ≡ in_queue serve
unfolding waits_empty
waits_empty_lem (in_queue serve) h = refl
waits_empty_lem x h = cc

lined_lem : (x : Pc) → lined x ≡ true → (t : Task) × (x ≡ in_line t)
unfolding lined
lined_lem (in_line t) h = (t, refl)
lined_lem x h = cc

-- A process goes to the end of a queue.
pub joins_full :
    {n : ℕ} {pc : ℕ → Pc} {qf qe : List ℕ} {v : View} (p : ℕ)
    → Orderly n pc qf qe v
    → p < n
    → pc p ≡ start cook
    → Orderly n (assign pc p (in_queue cook)) (qf ++ p ∷ []) qe v
unfolding waits_full waits_empty lined inner calm
joins_full {pc} {qf} {qe} {v} p o lt e =
    let m =
      moved o p (in_queue cook) refl lt (ap waits_full e) (ap waits_empty e) (ap lined e)
        (λ h. cc) in
    record {
      q_full = Queued-join waits_full pc p (in_queue cook) qf o.q_full (ap waits_full e) refl;
      q_empty = m.q_empty;
      line = m.line;
      alone = m.alone;
      peace = m.peace;
      known = m.known;
    }

pub joins_empty :
    {n : ℕ} {pc : ℕ → Pc} {qf qe : List ℕ} {v : View} (p : ℕ)
    → Orderly n pc qf qe v
    → p < n
    → pc p ≡ start serve
    → Orderly n (assign pc p (in_queue serve)) qf (qe ++ p ∷ []) v
unfolding waits_full waits_empty lined inner calm
joins_empty {pc} {qf} {qe} {v} p o lt e =
    let m =
      moved o p (in_queue serve) refl lt (ap waits_full e) (ap waits_empty e) (ap lined e)
        (λ h. cc) in
    record {
      q_full = m.q_full;
      q_empty = Queued-join waits_empty pc p (in_queue serve) qe o.q_empty (ap waits_empty e) refl;
      line = m.line;
      alone = m.alone;
      peace = m.peace;
      known = m.known;
    }

-- The first of a queue goes to the lock of the mutex.
pub wakes_full :
    {n : ℕ} {pc : ℕ → Pc} {qe : List ℕ} {v : View} (w : ℕ) (ws : List ℕ)
    → Orderly n pc (w ∷ ws) qe v
    → Orderly n (assign pc w (woken (pc w))) ws qe v × (pc w ≡ in_queue cook)
unfolding waits_full waits_empty lined inner calm calm_task woken present
wakes_full {pc} {qe} {v} w ws o =
    let e = waits_full_lem (pc w) o.q_full.0 in
    let lt = o.known w (ap present e) in
    (
      rw e (record {
        q_full = Queued-other waits_full pc w (to_lock (work cook)) ws o.q_full.2 o.q_full.1;
        q_empty =
            Queued-assign waits_empty pc w (to_lock (work cook)) qe o.q_empty (ap waits_empty e);
        line = Line-assign pc w (to_lock (work cook)) v o.line (ap lined e);
        alone = alone_with o w (to_lock (work cook)) refl lt (λ h. cc);
        peace = peace_with o w (to_lock (work cook)) refl lt;
        known = known_with o w (to_lock (work cook)) refl lt;
      }),
      e,
    )

pub wakes_empty :
    {n : ℕ} {pc : ℕ → Pc} {qf : List ℕ} {v : View} (w : ℕ) (ws : List ℕ)
    → Orderly n pc qf (w ∷ ws) v
    → Orderly n (assign pc w (woken (pc w))) qf ws v × (pc w ≡ in_queue serve)
unfolding waits_full waits_empty lined inner calm calm_task woken present
wakes_empty {pc} {qf} {v} w ws o =
    let e = waits_empty_lem (pc w) o.q_empty.0 in
    let lt = o.known w (ap present e) in
    (
      rw e (record {
        q_full = Queued-assign waits_full pc w (to_lock (work serve)) qf o.q_full (ap waits_full e);
        q_empty = Queued-other waits_empty pc w (to_lock (work serve)) ws o.q_empty.2 o.q_empty.1;
        line = Line-assign pc w (to_lock (work serve)) v o.line (ap lined e);
        alone = alone_with o w (to_lock (work serve)) refl lt (λ h. cc);
        peace = peace_with o w (to_lock (work serve)) refl lt;
        known = known_with o w (to_lock (work serve)) refl lt;
      }),
      e,
    )

-- Nobody is behind the lock of a free mutex.
pub granted :
    {n : ℕ} {pc : ℕ → Pc} {qf qe : List ℕ} (p : ℕ) (t : Task)
    → Orderly n pc qf qe free
    → p < n
    → pc p ≡ to_lock t
    → Orderly n (assign pc p (inside t)) qf qe (held p [])
unfolding waits_full waits_empty lined inner calm
granted {n} {pc} {qf} {qe} p t o lt e =
    let at : calm_task t ≡ true = sym (ap calm e) ∙ o.peace p in
    let m =
      moved {v = held p []}
        (record {
          q_full = o.q_full;
          q_empty = o.q_empty;
          line = tt;
          alone = λ q h. absurd (o.alone q h);
          peace = o.peace;
          known = o.known;
        })
        p (inside t) at lt (ap waits_full e) (ap waits_empty e) (ap lined e) (λ h. refl) in
    m

pub joins_line :
    {n : ℕ} {pc : ℕ → Pc} {qf qe : List ℕ} (p h : ℕ) (ws : List ℕ) (t : Task)
    → Orderly n pc qf qe (held h ws)
    → p < n
    → pc p ≡ to_lock t
    → Orderly n (assign pc p (in_line t)) qf qe (held h (ws ++ p ∷ []))
unfolding waits_full waits_empty lined inner calm
joins_line {pc} p h ws t o lt e =
    let at : calm_task t ≡ true = sym (ap calm e) ∙ o.peace p in
    let m =
      moved o p (in_line t) at lt (ap waits_full e) (ap waits_empty e) (ap lined e) (λ k. cc) in
    record {
      q_full = m.q_full;
      q_empty = m.q_empty;
      line = Queued-join lined pc p (in_line t) ws o.line (ap lined e) refl;
      alone = m.alone;
      peace = m.peace;
      known = m.known;
    }

-- The mutex goes to the first in line; nobody else is behind its lock.
pub handed :
    {n : ℕ} {pc : ℕ → Pc} {qf qe : List ℕ} (h w : ℕ) (ws : List ℕ)
    → Orderly n pc qf qe (held h (w ∷ ws))
    → ((q : ℕ) → inner (pc q) ≡ false)
    → Orderly n (assign pc w (woken (pc w))) qf qe (held w ws) × ((t : Task) × (pc w ≡ in_line t))
unfolding waits_full waits_empty lined inner calm woken present
handed {n} {pc} {qf} {qe} h w ws o nobody =
    let (t, e) = lined_lem (pc w) o.line.0 in
    let lt = o.known w (ap present e) in
    let at : calm_task t ≡ true = sym (ap calm e) ∙ o.peace w in
    let out : Orderly n pc qf qe free = record {
      q_full = o.q_full;
      q_empty = o.q_empty;
      line = tt;
      alone = λ q k. cc (nobody q);
      peace = o.peace;
      known = o.known;
    } in
    (
      rw e (record {
        q_full = Queued-assign waits_full pc w (inside t) qf o.q_full (ap waits_full e);
        q_empty = Queued-assign waits_empty pc w (inside t) qe o.q_empty (ap waits_empty e);
        line = Queued-other lined pc w (inside t) ws o.line.2 o.line.1;
        alone =
            assign-elim (λ q y. inner y ≡ true → w ≡ q) pc w (inside t) (λ k. refl)
              (λ q ne k. cc (nobody q));
        peace = peace_with o w (inside t) at lt;
        known = known_with o w (inside t) at lt;
      }),
      (t, e),
    )
