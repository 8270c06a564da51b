-- ===== src/Mutex/Order.antt =====
-- The order in which processes hold a mutex, over any history of calls.
use horaci_os.Prelude.{
  ℕ, ◌<◌, ◌≡◌, ap₂, ◌∙◌, sym, ◌≢◌, List, [], ◌∷◌, ◌++◌, append_assoc, append-nil, arith, length,
}
use horaci_os.Services.{Services}
use horaci_os.WaitQueue.Fifo.{size_pos}
use horaci_os.WaitQueue.{no_pid, queue_size}
use horaci_os.Mutex.{Mutex, lock, unlock}
use horaci_os.Mutex.Spec
use horaci_os.Mutex.Spec.{View, free, held, waiting, release}
use horaci_os.Mutex.Refine.{Models, lock_refines, unlock_refines}

pub data Call : Type 0 where
  locks unlocks : Call

-- The holder and those behind it.
abbrev pub line : View → List ℕ
line free = []
line (held o ws) = o ∷ ws

module _ {S : Type 0} ⦃k : Services S⦄ where
  -- A call, with the state of the kernel in which it is made.
  pub step : Mutex → S × Call → Mutex
  step m (s, locks) = (lock m s).0
  step m (s, unlocks) = (unlock m s).0

  pub run : Mutex → List (S × Call) → Mutex
  run m [] = m
  run m (c ∷ cs) = run (step m c) cs

  -- Who asks for the mutex, and who gives it back.
  abbrev pub askers : List (S × Call) → List ℕ
  askers [] = []
  askers ((s, locks) ∷ cs) = k.get_current_pid s ∷ askers cs
  askers ((s, unlocks) ∷ cs) = askers cs

  abbrev pub returners : List (S × Call) → List ℕ
  returners [] = []
  returners ((s, locks) ∷ cs) = returners cs
  returners ((s, unlocks) ∷ cs) = k.get_current_pid s ∷ returners cs

  -- Only the holder unlocks, only others lock, and at most `queue_size` wait.
  abbrev pub Orderly : View → List (S × Call) → Type 0
  Orderly v [] = Unit
  Orderly free ((s, locks) ∷ cs) =
      (k.get_current_pid s ≢ no_pid) × Orderly (held (k.get_current_pid s) []) cs
  Orderly (held o ws) ((s, locks) ∷ cs) =
      (k.get_current_pid s ≢ no_pid)
      × (o ≢ k.get_current_pid s)
      × (waiting (held o ws) < queue_size)
      × Orderly (held o (ws ++ k.get_current_pid s ∷ [])) cs
  Orderly free ((s, unlocks) ∷ cs) = ⊥
  Orderly (held o []) ((s, unlocks) ∷ cs) =
      (k.get_current_pid s ≢ no_pid) × (o ≡ k.get_current_pid s) × Orderly free cs
  Orderly (held o (w ∷ ws)) ((s, unlocks) ∷ cs) =
      (k.get_current_pid s ≢ no_pid) × (o ≡ k.get_current_pid s) × Orderly (held w ws) cs

  lock_joins :
      (m : Mutex) (s : S) (a : ℕ) (ws : List ℕ)
      → Models m (held a ws)
      → k.get_current_pid s ≢ no_pid
      → a ≢ k.get_current_pid s
      → length ws < queue_size
      → Models (lock m s).0 (held a (ws ++ k.get_current_pid s ∷ []))
  unfolding Spec.lock
  lock_joins m s a ws h me other room = ground (arith, lock_refines m s (held a ws) h me room)

  unlock_releases :
      (m : Mutex) (s : S) (a : ℕ) (ws : List ℕ)
      → Models m (held a ws)
      → k.get_current_pid s ≢ no_pid
      → a ≡ k.get_current_pid s
      → Models (unlock m s).0 (release (held a ws)).0
  unfolding Spec.unlock
  unlock_releases m s a ws h me mine = ground (arith, unlock_refines m s (held a ws) h me)

  -- From a mutex in any consistent view, a history in which only the holder unlocks, only others lock
  -- and the queue has room leaves a consistent view, and those that gave the mutex back, in order, with those then in
  -- line are those that stood in line at first with those that asked, in the order of asking.
  pub run_in_order :
      (cs : List (S × Call)) (m : Mutex) (v : View)
      → Models m v
      → Orderly v cs
      → (w : View) × Models (run m cs) w × (returners cs ++ line w ≡ line v ++ askers cs)
  unfolding run step Spec.lock release
  run_in_order [] m v h o = (v, h, sym (append-nil (line v)))
  run_in_order ((s, locks) ∷ cs) m free h o =
      run_in_order cs (lock m s).0 (held (k.get_current_pid s) [])
        (lock_refines m s free h o.0 size_pos).0 o.1
  run_in_order ((s, locks) ∷ cs) m (held a ws) h o =
      let (w, h', e) =
        run_in_order cs (lock m s).0 (held a (ws ++ k.get_current_pid s ∷ []))
          (lock_joins m s a ws h o.0 o.1 o.2) o.3 in
      (w, h', e ∙ append_assoc (a ∷ ws) (k.get_current_pid s ∷ []) (askers cs))
  run_in_order ((s, unlocks) ∷ cs) m free h o = absurd o
  run_in_order ((s, unlocks) ∷ cs) m (held a []) h o =
      let (w, h', e) =
        run_in_order cs (unlock m s).0 free (unlock_releases m s a [] h o.0 o.1) o.2 in
      (w, h', ap₂ ◌∷◌ (sym o.1) e)
  run_in_order ((s, unlocks) ∷ cs) m (held a (b ∷ ws)) h o =
      let (w, h', e) =
        run_in_order cs (unlock m s).0 (held b ws) (unlock_releases m s a (b ∷ ws) h o.0 o.1) o.2 in
      (w, h', ap₂ ◌∷◌ (sym o.1) e)
