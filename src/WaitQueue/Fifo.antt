-- ===== src/WaitQueue/Fifo.antt =====
-- The wait queue behaves as a bounded FIFO of process ids.
use native.Mathlib.Nat.{mod-add-mod, mod-lt}
use horaci_os.Prelude.{
  ℕ, zero, suc, ◌+◌, ◌-◌, ◌%◌, ◌≤◌, ◌<◌, ◌≡◌, refl, sym, ap, ◌∙◌, ◌≢◌, List, [], ◌∷◌, ◌++◌, none,
  some, length, get_or, set, replicate, All, All-append, arith, length-append, length-set, window,
  window-set, window-snoc, length-window, replicate-snoc, add-mod-shift, add-mod-turn, append_assoc,
  set-append,
}
use horaci_os.WaitQueue.{WaitQueue, queue_size, no_pid, init, next_index, enqueue, dequeue}

-- `ps` are the waiting processes, oldest first: the slots from the start index on hold them and
-- then -1.
pub record Holds (q : WaitQueue) (ps : List ℕ) : Type 0 where
  pub storage : length q.locked_queue ≡ queue_size
  pub start_in : q.queue_start_index < queue_size
  pub free_at : q.queue_free_index ≡ (q.queue_start_index + length ps) % queue_size
  pub fits : length ps ≤ queue_size
  pub pids : All (λ p. p ≢ no_pid) ps
  pub layout :
      window q.locked_queue queue_size no_pid q.queue_start_index queue_size
      ≡ ps ++ replicate (queue_size - length ps) no_pid

pub size_pos : 0 < queue_size
unfolding queue_size
size_pos = omega arith

next_index-mod : (i : ℕ) → i < queue_size → next_index i ≡ (i + 1) % queue_size
unfolding next_index queue_size
next_index-mod i h = ground arith

-- The index after the slot `n` places behind `h`.
next_index-add :
    (h n i m : ℕ) → i ≡ (h + n) % queue_size → m ≡ n + 1 → next_index i ≡ (h + m) % queue_size
next_index-add h n i m e k =
    next_index-mod i (let p = size_pos in rw e (mod-lt _ (omega arith)))
    ∙ ap (λ (x : ℕ). (x + 1) % queue_size) e
    ∙ rw mod-add-mod (ap (λ (x : ℕ). x % queue_size) (omega arith))

-- An empty queue.
pub init-Holds : Holds init []
unfolding init queue_size
init-Holds = record {
  storage = refl;
  start_in = omega arith;
  free_at = refl;
  fits = omega arith;
  pids = tt;
  layout = refl;
}

module _ {q : WaitQueue} {ps : List ℕ} (h : Holds q ps) where
  open q use {locked_queue as slots, queue_start_index as start}

  enqueue_layout :
      (p m : ℕ)
      → queue_size ≡ length ps + suc m
      → window (set slots ((start + length ps) % queue_size) p) queue_size no_pid start queue_size
        ≡ (ps ++ p ∷ []) ++ replicate m no_pid
  enqueue_layout p m e =
      window-set slots queue_size no_pid p start queue_size (length ps) (omega arith) h.start_in
        (omega arith) (omega arith)
      ∙ ap (λ (l : List ℕ). set l (length ps) p)
          (h.layout ∙ ap (λ (k : ℕ). ps ++ replicate k no_pid) rest)
      ∙ set-append ps (replicate m no_pid) (length ps) no_pid p refl
      ∙ sym (append_assoc ps (p ∷ []) (replicate m no_pid))
    where
      rest : queue_size - length ps ≡ suc m
      rest = omega arith

  -- A process that joins a queue with room stands at its end, behind those that wait in order.
  pub enqueue-Holds :
      (p : ℕ) → length ps < queue_size → p ≢ no_pid → Holds (enqueue q p) (ps ++ p ∷ [])
  unfolding enqueue
  enqueue-Holds p room ok = record {
    storage = length-set slots q.queue_free_index p ∙ h.storage;
    start_in = h.start_in;
    free_at =
        next_index-add start (length ps) q.queue_free_index (length (ps ++ p ∷ [])) h.free_at
          (length-append ps (p ∷ []));
    fits = omega (arith, length-append ps (p ∷ []));
    pids = All-append (λ p. p ≢ no_pid) ps (p ∷ []) h.pids (ok, tt);
    layout = rw h.free_at (
        enqueue_layout p (queue_size - length ps - 1) (omega arith)
        ∙ ap (λ (k : ℕ). (ps ++ p ∷ []) ++ replicate k no_pid)
            (omega (arith, length-append ps (p ∷ []))));
  }

first_slot :
    (slots : List ℕ) (start n : ℕ) {x : ℕ} {xs : List ℕ}
    → window slots queue_size no_pid start n ≡ x ∷ xs
    → (get_or slots start no_pid ≡ x)
      × (window slots queue_size no_pid ((start + 1) % queue_size) (n - 1) ≡ xs)
first_slot slots start zero e = cc
first_slot slots start (suc n) {x} {xs} e = let n' : suc n - 1 ≡ n = omega arith in rw n' (cc, cc)

-- The slots after the start index are cleared has moved on.
cleared :
    (slots xs : List ℕ) (start m : ℕ)
    → queue_size ≡ suc m
    → length slots ≡ queue_size
    → start < queue_size
    → window slots queue_size no_pid ((start + 1) % queue_size) m ≡ xs
    → window (set slots start no_pid) queue_size no_pid ((start + 1) % queue_size) queue_size
      ≡ xs ++ no_pid ∷ []
cleared slots xs start m e storage start_in w =
    ap (λ (i : ℕ). window (set slots i no_pid) queue_size no_pid start' queue_size)
      (sym (add-mod-turn start_in (sym e)))
    ∙ window-set slots queue_size no_pid no_pid start' queue_size m (omega arith) start'_in
        (omega arith) (omega arith)
    ∙ ap (λ (k : ℕ). set (window slots queue_size no_pid start' k) m no_pid) e
    ∙ ap (λ (l : List ℕ). set l m no_pid)
        (window-snoc slots queue_size no_pid start' m start'_in
          ∙ ap (λ (l : List ℕ). l ++ get_or slots ((start' + m) % queue_size) no_pid ∷ []) w)
    ∙ set-append xs [] m (get_or slots ((start' + m) % queue_size) no_pid) no_pid
        (sym (length-window slots queue_size no_pid start' m) ∙ ap length w)
  where
    start' : ℕ
    start' = (start + 1) % queue_size

    start'_in : start' < queue_size
    start'_in = mod-lt (start + 1) (omega arith)

-- Nobody waits: nothing is taken.
pub dequeue-none : {q : WaitQueue} → Holds q [] → dequeue q ≡ none
unfolding dequeue
dequeue-none {q} h =
    ground (arith, (first_slot q.locked_queue q.queue_start_index queue_size layout).0)
  where
    m : ℕ
    m = queue_size - 1

    all : queue_size - 0 ≡ suc m
    all = omega (arith, size_pos)

    layout :
        window q.locked_queue queue_size no_pid q.queue_start_index queue_size
        ≡ no_pid ∷ replicate m no_pid
    layout = h.layout ∙ ap (λ (k : ℕ). replicate k no_pid) all

-- The queue that `dequeue` leaves where a process waits.
abbrev pub rest : WaitQueue → WaitQueue
rest q = record q {
  locked_queue = set q.locked_queue q.queue_start_index no_pid;
  queue_start_index = next_index q.queue_start_index;
}

module _ {q : WaitQueue} {p : ℕ} {ps : List ℕ} (h : Holds q (p ∷ ps)) where
  open q use {locked_queue as slots, queue_start_index as start}

  -- The oldest process is taken.
  pub dequeue-some : dequeue q ≡ some (p, rest q)
  unfolding dequeue
  dequeue-some = ground (arith, (first_slot slots start queue_size h.layout).0, h.pids.0)

  pub rest-Holds : Holds (rest q) ps
  rest-Holds = record {
    storage = length-set slots start no_pid ∙ h.storage;
    start_in = let z = size_pos in rw (next_index-mod start h.start_in) (mod-lt _ (omega arith));
    free_at =
        h.free_at
        ∙ add-mod-shift queue_size start (length ps)
        ∙ ap (λ (k : ℕ). (k + length ps) % queue_size) (sym (next_index-mod start h.start_in));
    fits = let f = h.fits in omega arith;
    pids = h.pids.1;
    layout =
        ap (λ (k : ℕ). window (set slots start no_pid) queue_size no_pid k queue_size)
          (next_index-mod start h.start_in)
        ∙ cleared slots _ start (queue_size - 1) (let z = size_pos in omega arith) h.storage
            h.start_in (first_slot slots start queue_size h.layout).1
        ∙ append_assoc ps (replicate (queue_size - suc (length ps)) no_pid) (no_pid ∷ [])
        ∙ ap (◌++◌ ps) (
            replicate-snoc (queue_size - suc (length ps)) no_pid
            ∙ ap (λ (k : ℕ). replicate k no_pid) room);
  }
    where
      room : suc (queue_size - suc (length ps)) ≡ queue_size - length ps
      room = let f = h.fits in omega arith
