-- ===== src/ProcessTable/States.antt =====
-- The states of a process: which changes are made, and what they leave alone.
use horaci_os.Prelude.{
  ℕ, zero, suc, ◌<◌, ◌≤◌, ◌≡◌, ◌≢◌, ◌↔◌, refl, sym, ap, ◌⊎◌, inl, inr, List, [], ◌∷◌, true, false,
  length, set, get_or-set_self, get_or-set_ne, arith,
}
use horaci_os.ProcessTable.{
  Pcb, ProcessState, finished, max_process_count, zero_pcb, pcb_at, valid_process_id, set_state,
  change_process_state,
}

State-discrete : Discrete ProcessState
State-discrete = hlevel

pub pcb_at-set_self : (ps : List Pcb) (i : ℕ) (p : Pcb) → i < length ps → pcb_at (set ps i p) i ≡ p
unfolding pcb_at
pcb_at-set_self ps i p lt = get_or-set_self ps i p zero_pcb lt

pub pcb_at-set_ne :
    (ps : List Pcb) {i j : ℕ} (p : Pcb) → i ≢ j → pcb_at (set ps i p) j ≡ pcb_at ps j
unfolding pcb_at
pcb_at-set_ne ps p ne = get_or-set_ne ps p zero_pcb ne

change_refused :
    (ps : List Pcb) (pid : ℕ) (st : ProcessState)
    → (max_process_count ≤ pid)
      ⊎ (((pcb_at ps pid).state ≡ finished) ⊎ ((pcb_at ps pid).state ≡ st))
    → change_process_state ps pid st ≡ (false, ps)
unfolding change_process_state valid_process_id
change_refused ps pid st h = ground arith

change_made :
    (ps : List Pcb) (pid : ℕ) (st : ProcessState)
    → pid < max_process_count
    → (pcb_at ps pid).state ≢ finished
    → (pcb_at ps pid).state ≢ st
    → change_process_state ps pid st ≡ (true, set_state ps pid st)
unfolding change_process_state valid_process_id
change_made ps pid st lt alive other = ground arith

set_state_other :
    (ps : List Pcb) (pid j : ℕ) (st : ProcessState)
    → j ≢ pid
    → pcb_at (set_state ps pid st) j ≡ pcb_at ps j
unfolding set_state
set_state_other ps pid j st ne = pcb_at-set_ne ps _ (λ e. ne (sym e))

-- A change of state leaves every other process as it is.
pub change-others :
    (ps : List Pcb) (pid j : ℕ) (st : ProcessState)
    → j ≢ pid
    → pcb_at (change_process_state ps pid st).1 j ≡ pcb_at ps j
unfolding change_process_state
change-others ps pid j st ne = ground (arith, set_state_other ps pid j st ne)

-- In a table of the full size, a process that has not finished takes the new state and keeps all else;
-- the flag is false exactly if it was in that state already.
pub change_alive :
    (ps : List Pcb) (pid : ℕ) (st : ProcessState)
    → pid < max_process_count
    → max_process_count ≤ length ps
    → (pcb_at ps pid).state ≢ finished
    → (pcb_at (change_process_state ps pid st).1 pid ≡ record (pcb_at ps pid) { state = st })
      × (((change_process_state ps pid st).0 ≡ false) ↔ ((pcb_at ps pid).state ≡ st))
unfolding set_state
change_alive ps pid st lt size alive = elim (State-discrete (pcb_at ps pid).state st) [
  | yes same ↦ rw (change_refused ps pid st (inr (inr same))) (
    ap (λ (s : ProcessState). record (pcb_at ps pid) { state = s }) same,
    ((λ e. same), (λ e. refl)),
  )
  | no other ↦
      rw (change_made ps pid st lt alive other)
        (pcb_at-set_self ps pid _ (omega arith), ((λ e. absurd (cc)), (λ e. absurd (other e))))
]

-- A finished process stays finished: no change of state is made, and the flag is false.
pub change_finished :
    (ps : List Pcb) (pid : ℕ) (st : ProcessState)
    → (pcb_at ps pid).state ≡ finished
    → change_process_state ps pid st ≡ (false, ps)
change_finished ps pid st done = change_refused ps pid st (inr (inl done))

set-id :
    (ps : List Pcb) (i j : ℕ) (p : Pcb)
    → p.id ≡ (pcb_at ps i).id
    → (pcb_at (set ps i p) j).id ≡ (pcb_at ps j).id
unfolding pcb_at
set-id [] i j p e = refl
set-id (q ∷ qs) zero zero p e = e
set-id (q ∷ qs) zero (suc j) p e = refl
set-id (q ∷ qs) (suc i) zero p e = refl
set-id (q ∷ qs) (suc i) (suc j) p e = set-id qs i j p e

-- The id of a process never changes.
pub change-id :
    (ps : List Pcb) (pid j : ℕ) (st : ProcessState)
    → (pcb_at (change_process_state ps pid st).1 j).id ≡ (pcb_at ps j).id
unfolding change_process_state set_state
change-id ps pid j st = ground (arith, set-id ps pid j (record (pcb_at ps pid) { state = st }) refl)
