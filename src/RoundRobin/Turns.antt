-- ===== src/RoundRobin/Turns.antt =====
-- Every process in the ring gets its turn, and what goes wrong when two are queued in one turn.
use horaci_os.Prelude.{
  ℕ, zero, suc, ◌+◌, ◌-◌, ◌<◌, ◌≡◌, refl, sym, ap, ap₂, subst, ◌∙◌, List, [], ◌∷◌, ◌++◌, some,
  append_assoc, append-nil, arith, All,
}
use horaci_os.RoundRobin.{RoundRobin, max_nodes, queue, next, peek}
use horaci_os.RoundRobin.Ring.{Cell}
use horaci_os.RoundRobin.Refine.{Ring, front, behind, next_expired}
use horaci_os.RoundRobin.Search.{Counted}
use horaci_os.RoundRobin.Keep.{queue-Ring, next_within, peek-front}

module _ {ℓ} {A : Type ℓ} where
  -- `cs` are the cells of the ring, first to last.
  abbrev pub Cells : RoundRobin A → List (Cell A) → Type ℓ
  Cells r cs =
      (line : List (Cell A)) × (last : Cell A) × (fresh : List (Cell A)) × Ring r line last fresh
      × (cs ≡ line ++ last ∷ fresh)

  -- `n` ticks of the clock in which nothing is queued and nobody stops.
  unfoldable pub ticks : ℕ → RoundRobin A → RoundRobin A
  ticks zero r = r
  ticks (suc n) r = ticks n (next r)

  -- A positive quantum: `calculate_quantum` gives no other.
  abbrev pub Runs : List (Cell A) → Type 0
  Runs = All (λ (c : Cell A). 0 < c.quantum)

  abbrev pub total : List (Cell A) → ℕ
  total [] = 0
  total (c ∷ cs) = c.quantum + total cs

  turn_Ring :
      (n : ℕ) (r : RoundRobin A) (line : List (Cell A)) (last : Cell A) (fresh : List (Cell A))
      → Ring r line last fresh
      → r.current_quantum + suc n ≡ (front line last).quantum
      → Ring (ticks (suc n) r) (behind line last fresh) (front line last) []
        × ((ticks (suc n) r).current_quantum ≡ 0)
  unfolding ticks
  turn_Ring zero r line last fresh h e = next_expired r line last fresh h (omega arith)
  turn_Ring (suc n) r line last fresh h e =
      subst
        (λ (t : RoundRobin A).
          Ring (ticks (suc n) t) (behind line last fresh) (front line last) []
          × ((ticks (suc n) t).current_quantum ≡ 0))
        (sym (next_within r line last fresh h (omega arith)))
        (turn_Ring n (record r { current_quantum = r.current_quantum + 1 }) line last fresh
          (record {
            storage = h.storage;
            current_at = h.current_at;
            last_at = h.last_at;
            linked = h.linked;
            distinct = h.distinct;
          })
          (omega arith))

  pub front-behind :
      (line : List (Cell A)) (last : Cell A) (fresh : List (Cell A))
      → line ++ last ∷ fresh ≡ front line last ∷ behind line last fresh
  front-behind [] last fresh = refl
  front-behind (c ∷ cs) last fresh = refl

  pub peek_first :
      (r : RoundRobin A) (c : Cell A) (cs : List (Cell A)) → Cells r (c ∷ cs) → peek r ≡ some c.item
  peek_first r c cs (line, last, fresh, h, e) =
      let first = e ∙ front-behind line last fresh in
      let c' : front line last ≡ c = cc in
      peek-front r line last fresh h ∙ ap (λ (d : Cell A). some d.item) c'

  pub ticks-add : (m n : ℕ) (r : RoundRobin A) → ticks n (ticks m r) ≡ ticks (m + n) r
  unfolding ticks
  ticks-add zero n r = let e : zero + n ≡ n = omega arith in rw e
  ticks-add (suc m) n r =
      let e : suc m + n ≡ suc (m + n) = omega arith in rw e (ticks-add m n (next r))

  -- The first process runs for its quantum and goes to the end.
  pub turn :
      (r : RoundRobin A) (c : Cell A) (cs : List (Cell A))
      → Cells r (c ∷ cs)
      → r.current_quantum ≡ 0
      → 0 < c.quantum
      → Cells (ticks c.quantum r) (cs ++ c ∷ []) × ((ticks c.quantum r).current_quantum ≡ 0)
  turn r c cs (line, last, fresh, h, e) z pos =
      let first = e ∙ front-behind line last fresh in
      let c' : c ≡ front line last = cc in
      let cs' : cs ≡ behind line last fresh = cc in
      let n : suc (c.quantum - 1) ≡ c.quantum = omega arith in
      let (h', z') =
        turn_Ring (c.quantum - 1) r line last fresh h
          (omega (arith, ap (λ (d : Cell A). d.quantum) c')) in
      subst (λ (k : ℕ). Cells (ticks k r) (cs ++ c ∷ []) × ((ticks k r).current_quantum ≡ 0)) n
        ((behind line last fresh, front line last, [], h', ap₂ (λ l d. l ++ d ∷ []) cs' c'), z')

  -- From the start of a turn, and with nothing queued and nobody stopping, `c` runs after as many ticks
  -- as the quanta of the processes before it add up to, where these are positive; the processes then
  -- stand from `c` on in the same order round the ring, at the start of a turn.
  pub turns :
      (r : RoundRobin A) (before : List (Cell A)) (c : Cell A) (after : List (Cell A))
      → Cells r (before ++ c ∷ after)
      → r.current_quantum ≡ 0
      → Runs before
      → Cells (ticks (total before) r) (c ∷ after ++ before)
        × ((ticks (total before) r).current_quantum ≡ 0)
        × (peek (ticks (total before) r) ≡ some c.item)
  unfolding ticks
  turns r [] c after h z runs = (rw (append-nil after) h, z, peek_first r c after h)
  turns r (b ∷ bs) c after h z runs =
      let (h', z') = turn r b (bs ++ c ∷ after) h z runs.0 in
      let (k, z'', p) =
        turns (ticks b.quantum r) bs c (after ++ b ∷ [])
          (subst (λ (l : List (Cell A)). Cells (ticks b.quantum r) l)
            (append_assoc bs (c ∷ after) (b ∷ [])) h')
          z' runs.1 in
      let all = ticks-add b.quantum (total bs) r in
      (
        subst (λ (t : RoundRobin A). Cells t (c ∷ after ++ b ∷ bs)) all
            (subst (λ (l : List (Cell A)). Cells (ticks (total bs) (ticks b.quantum r)) (c ∷ l))
              (append_assoc after (b ∷ []) bs) k),
        ap (λ (t : RoundRobin A). t.current_quantum) (sym all) ∙ z'',
        ap peek (sym all) ∙ p,
      )

  -- The fault of `queue`, in a ring with nothing behind `last`, its counter right and room for two: of
  -- two processes queued one after the other in one turn only the second
  -- is in the ring, while the counter has gone up by two.
  pub queue_loses :
      (r : RoundRobin A) (line : List (Cell A)) (last : Cell A) (x y : A) (p q : ℕ)
      → Ring r line last []
      → Counted r
      → r.nodes + 1 < max_nodes
      → let r' = queue (queue r x p) y q in
        (new : Cell A) × (new.item ≡ y)
        × Cells r' (line ++ last ∷ new ∷ [])
        × (r'.nodes ≡ r.nodes + 2)
  queue_loses r line last x y p q h c room =
      let (h₁, c₁, n₁) = queue-Ring r line last [] x p h c (omega arith) in
      let (h₂, c₂, n₂) = queue-Ring (queue r x p) line last _ y q h₁ c₁ (omega arith) in
      (_, refl, (line, last, _, h₂, refl), omega arith)
