-- ===== src/Scheduler/Pick.antt =====
-- Where the loop of `short_term_scheduling` comes to an end, and where it does not.
use horaci_os.Prelude.{
  ℕ, zero, suc, ◌+◌, ◌-◌, ◌<◌, ◌≤◌, ◌≡◌, refl, sym, ap, subst, ◌∙◌, List, [], ◌∷◌, ◌++◌, some,
  append_assoc, arith, All, All-append, ◌⊎◌, inl, inr,
}
use horaci_os.ProcessTable.{ready, blocked, pcb_at, get_process_state, get_rsp}
use horaci_os.RoundRobin.{RoundRobin, next, peek}
use horaci_os.RoundRobin.Ring.{Cell}
use horaci_os.RoundRobin.Refine.{Ring, front, behind, next_expired}
use horaci_os.RoundRobin.Keep.{next_within, peek-front}
use horaci_os.RoundRobin.Turns.{
  Cells, ticks, Runs, total, front-behind, turn, peek_first, ticks-add,
}
use horaci_os.Scheduler.{Kernel, switch, spins, pick}

-- The kernel with another ring.
abbrev pub with_ring : Kernel → RoundRobin ℕ → Kernel
with_ring k r = record k { round_robin = r }

-- The process of a cell is blocked.
abbrev pub Waits : Kernel → Cell ℕ → Type 0
Waits k c = get_process_state k.processes (pcb_at k.processes c.item).id ≡ some blocked

skip :
    (fuel : ℕ) (k : Kernel) (r : RoundRobin ℕ) (c : Cell ℕ)
    → peek r ≡ some c.item
    → Waits k c
    → pick (suc fuel) (with_ring k r) ≡ pick fuel (with_ring k (next r))
unfolding pick peek next
skip fuel k r c p w = rw (p, w) refl

-- While the first process is blocked, the loop goes round to the end of its quantum.
pick_turn :
    (n fuel : ℕ) (k : Kernel) (r : RoundRobin ℕ) (line : List (Cell ℕ)) (last : Cell ℕ)
    (fresh : List (Cell ℕ))
    → Ring r line last fresh
    → r.current_quantum + suc n ≡ (front line last).quantum
    → Waits k (front line last)
    → pick (suc n + fuel) (with_ring k r) ≡ pick fuel (with_ring k (ticks (suc n) r))
unfolding ticks
pick_turn zero fuel k r line last fresh h e w =
    let one : 1 + fuel ≡ suc fuel = omega arith in
    rw one (skip fuel k r (front line last) (peek-front r line last fresh h) w)
pick_turn (suc n) fuel k r line last fresh h e w =
    let on = record r { current_quantum = r.current_quantum + 1 } in
    let more : pick (suc n + fuel) (with_ring k on) ≡ pick fuel (with_ring k (ticks (suc n) on)) =
      pick_turn n fuel k on line last fresh
        (record {
          storage = h.storage;
          current_at = h.current_at;
          last_at = h.last_at;
          linked = h.linked;
          distinct = h.distinct;
        })
        (omega arith) w in
    let more_fuel : suc (suc n) + fuel ≡ suc (suc n + fuel) = omega arith in
    rw more_fuel (
      skip (suc n + fuel) k r (front line last) (peek-front r line last fresh h) w
      ∙ subst
          (λ (t : RoundRobin ℕ).
            pick (suc n + fuel) (with_ring k t) ≡ pick fuel (with_ring k (ticks (suc n) t)))
          (sym (next_within r line last fresh h (omega arith))) more)

pick_first :
    (fuel : ℕ) (k : Kernel) (r : RoundRobin ℕ) (c : Cell ℕ) (cs : List (Cell ℕ))
    → Cells r (c ∷ cs)
    → r.current_quantum ≡ 0
    → 0 < c.quantum
    → Waits k c
    → pick (c.quantum + fuel) (with_ring k r) ≡ pick fuel (with_ring k (ticks c.quantum r))
pick_first fuel k r c cs (line, last, fresh, h, e) z pos w =
    let both = e ∙ front-behind line last fresh in
    let c' : c ≡ front line last = cc in
    let n : suc (c.quantum - 1) ≡ c.quantum = omega arith in
    subst (λ (q : ℕ). pick (q + fuel) (with_ring k r) ≡ pick fuel (with_ring k (ticks q r))) n
      (pick_turn (c.quantum - 1) fuel k r line last fresh h
        (omega (arith, ap (λ (d : Cell ℕ). d.quantum) c')) (subst (Waits k) c' w))

stops :
    (fuel : ℕ) (k : Kernel) (r : RoundRobin ℕ) (c : Cell ℕ)
    → peek r ≡ some c.item
    → get_process_state k.processes (pcb_at k.processes c.item).id ≡ some ready
    → pick (suc fuel) (with_ring k r) ≡ switch (get_rsp k.processes c.item) (with_ring k r)
unfolding pick peek
stops fuel k r c p w = rw (p, w) refl

-- From the start of a turn, where the processes before `c` are blocked, with positive quanta, and `c`
-- is ready, the loop of
-- `short_term_scheduling` ends, after as many rounds as the quanta of those before add up to, and
-- the process it switches to is `c`.
pub pick_ready :
    (fuel : ℕ) (k : Kernel) (r : RoundRobin ℕ) (before : List (Cell ℕ)) (c : Cell ℕ)
    (after : List (Cell ℕ))
    → Cells r (before ++ c ∷ after)
    → r.current_quantum ≡ 0
    → Runs before
    → All (Waits k) before
    → get_process_state k.processes (pcb_at k.processes c.item).id ≡ some ready
    → pick (total before + suc fuel) (with_ring k r)
      ≡ switch (get_rsp k.processes c.item) (with_ring k (ticks (total before) r))
unfolding ticks
pick_ready fuel k r [] c after h z runs w ok =
    let none_before : 0 + suc fuel ≡ suc fuel = omega arith in
    rw none_before (stops fuel k r c (peek_first r c after h) ok)
pick_ready fuel k r (b ∷ bs) c after h z runs w ok =
    let (h', z') = turn r b (bs ++ c ∷ after) h z runs.0 in
    let rest =
      pick_ready fuel k (ticks b.quantum r) bs c (after ++ b ∷ [])
        (subst (λ (l : List (Cell ℕ)). Cells (ticks b.quantum r) l)
          (append_assoc bs (c ∷ after) (b ∷ [])) h')
        z' runs.1 w.1 ok in
    let here = pick_first (total bs + suc fuel) k r b (bs ++ c ∷ after) h z runs.0 w.0 in
    let assoc : (b.quantum + total bs) + suc fuel ≡ b.quantum + (total bs + suc fuel) =
      omega arith in
    rw assoc (
      here
      ∙ rest
      ∙ ap (λ (t : RoundRobin ℕ). switch (get_rsp k.processes c.item) (with_ring k t))
          (ticks-add b.quantum (total bs) r))

-- The cells of a ring whose processes are all blocked.
abbrev pub AllWait : Kernel → RoundRobin ℕ → Type 0
AllWait k r =
    (line : List (Cell ℕ)) × (last : Cell ℕ) × (fresh : List (Cell ℕ)) × Ring r line last fresh
    × All (Waits k) (line ++ last ∷ fresh)

le_or_lt : (m n : ℕ) → (m ≤ n) ⊎ (n < m)
le_or_lt m n = ground arith

All-behind :
    (k : Kernel) (line : List (Cell ℕ)) (last : Cell ℕ) (fresh : List (Cell ℕ))
    → All (Waits k) (line ++ last ∷ fresh)
    → All (Waits k) (behind line last fresh ++ front line last ∷ [])
All-behind k [] last fresh w = All-append (Waits k) fresh (last ∷ []) w.1 (w.0, tt)
All-behind k (c ∷ cs) last fresh w =
    All-append (Waits k) (cs ++ last ∷ fresh) (c ∷ []) w.1 (w.0, tt)

All-front :
    (k : Kernel) (line : List (Cell ℕ)) (last : Cell ℕ) (fresh : List (Cell ℕ))
    → All (Waits k) (line ++ last ∷ fresh)
    → Waits k (front line last)
All-front k [] last fresh w = w.0
All-front k (c ∷ cs) last fresh w = w.0

next-AllWait : (k : Kernel) (r : RoundRobin ℕ) → AllWait k r → AllWait k (next r)
next-AllWait k r (line, last, fresh, h, w) =
    elim (le_or_lt (front line last).quantum (r.current_quantum + 1)) [
      | inl over ↦
          let (h', z) = next_expired r line last fresh h over in
          (behind line last fresh, front line last, [], h', All-behind k line last fresh w)
      | inr within ↦ rw (next_within r line last fresh h within) (
        line,
        last,
        fresh,
        record {
          storage = h.storage;
          current_at = h.current_at;
          last_at = h.last_at;
          linked = h.linked;
          distinct = h.distinct;
        },
        w,
      )
    ]

-- Where the processes in the ring are all blocked, the loop of `short_term_scheduling` never ends:
-- it has spent any fuel and is still going round.
pub pick_spins :
    (fuel : ℕ) (k : Kernel) (r : RoundRobin ℕ)
    → AllWait k r
    → pick fuel (with_ring k r) ≡ spins (with_ring k (ticks fuel r))
unfolding pick ticks
pick_spins zero k r all = refl
pick_spins (suc fuel) k r all =
    let (line, last, fresh, h, w) = all in
    skip fuel k r (front line last) (peek-front r line last fresh h) (All-front k line last fresh w)
    ∙ pick_spins fuel k (next r) (next-AllWait k r all)
