-- ===== src/Processes/Container.antt =====
-- The search for the next free control block.
use native.Mathlib.Decide.{ℕ_discrete, dec_lt}
use horaci_os.Userland.{codes}
use horaci_os.MutexDirectory.{Mutexes}
use horaci_os.Scheduler.{Kernel}
use horaci_os.Scheduler.Provide.{Allocator}
use horaci_os.Prelude.{
  ℕ, zero, suc, ◌+◌, ◌<◌, ◌≤◌, ◌≡◌, ◌≢◌, refl, sym, ◌∙◌, ap, List, Option, none, some, true, false,
  Bool-cases, inl, inr, ◌==◌, set, get_or, get_or-set_self, get_or-set_ne, length, wrap, arith,
}
use horaci_os.ProcessTable.{
  Pcb, ProcessState, zero_pcb, ready, finished, pcb_at, same_state, max_process_count,
}
use horaci_os.Processes.{
  Processes, spins, done, next_container, lock_named, has_mutex, kernel, on_kernel, unlock,
  take_container, get_available_container,
}

-- No control block is FINISHED.
abbrev pub AllTaken : List Pcb → Type 0
AllTaken ps = (i : ℕ) → i < max_process_count → same_state (pcb_at ps i).state finished ≡ false

next_step :
    (fuel : ℕ) (ps : List Pcb) (pointer : ℕ)
    → same_state (pcb_at ps (wrap max_process_count (pointer + 1))).state finished ≡ false
    → next_container (suc fuel) ps pointer
      ≡ next_container fuel ps (wrap max_process_count (pointer + 1))
unfolding next_container
next_step fuel ps pointer e = rw (e, next_container) refl

next_container_spins :
    (fuel : ℕ) (ps : List Pcb) (pointer : ℕ)
    → AllTaken ps
    → pointer < max_process_count
    → next_container fuel ps pointer ≡ none
unfolding next_container
next_container_spins zero ps pointer h lt = refl
next_container_spins (suc fuel) ps pointer h lt =
    let next = wrap max_process_count (pointer + 1) in
    let inside : next < max_process_count = ground arith in
    next_step fuel ps pointer (h next inside) ∙ next_container_spins fuel ps next h inside

taken_block :
    (ps : List Pcb) (pointer i : ℕ) (v : Pcb)
    → v.state ≡ ready
    → pointer < length ps
    → (i ≢ pointer → same_state (pcb_at ps i).state finished ≡ false)
    → same_state (pcb_at (set ps pointer v) i).state finished ≡ false
unfolding pcb_at
taken_block ps pointer i v st lt others = elim (ℕ_discrete i pointer) [
  | yes same ↦
      let here : get_or (set ps pointer v) i zero_pcb ≡ v =
        ap (λ (j : ℕ). get_or (set ps pointer v) j zero_pcb) same
        ∙ get_or-set_self ps pointer v zero_pcb lt in
      ap (λ (p : Pcb). same_state p.state finished) here
      ∙ ap (λ (x : ProcessState). same_state x finished) st
  | no ne ↦
      ap (λ (p : Pcb). same_state p.state finished)
        (get_or-set_ne ps {i = pointer} {j = i} v zero_pcb (λ e. ne (sym e)))
      ∙ others ne
]

next_found :
    (fuel : ℕ) (ps : List Pcb) (pointer : ℕ)
    → same_state (pcb_at ps (wrap max_process_count (pointer + 1))).state finished ≡ true
    → next_container (suc fuel) ps pointer ≡ some (wrap max_process_count (pointer + 1))
unfolding next_container
next_found fuel ps pointer e = rw (e, next_container) refl

-- A free block that is reached within the fuel ends the loop, at it or at one before it.
next_container_finds :
    (fuel : ℕ) (ps : List Pcb) (pointer i : ℕ)
    → pointer < max_process_count
    → i < max_process_count
    → same_state (pcb_at ps i).state finished ≡ true
    → (pointer < i → i ≤ pointer + fuel)
    → (i ≤ pointer → max_process_count + i ≤ pointer + fuel)
    → (j : ℕ) × (next_container fuel ps pointer ≡ some j)
      × (j < max_process_count)
      × (same_state (pcb_at ps j).state finished ≡ true)
next_container_finds zero ps pointer i lt inside free ahead round = elim (dec_lt pointer i) [
  | yes before ↦ absurd (let h = ahead before in omega arith)
  | no not_before ↦ absurd (let h = round (omega arith) in omega arith)
]
next_container_finds (suc fuel) ps pointer i lt inside free ahead round =
    let next = wrap max_process_count (pointer + 1) in
    let fits : next < max_process_count = ground arith in
    elim (Bool-cases (same_state (pcb_at ps next).state finished)) [
      | inl here ↦ (next, next_found fuel ps pointer here, fits, here)
      | inr taken ↦
          let other : i ≢ next = λ e.
            let h = ap (λ (x : ℕ). same_state (pcb_at ps x).state finished) e in
            let z = sym free ∙ h ∙ taken in cc in
          let (j, found, fits', rest) =
            next_container_finds fuel ps next i fits inside free
              (λ b. elim (dec_lt pointer i) [
                | yes before ↦ let h = ahead before in ground arith
                | no not_before ↦ let h = round (omega arith) in ground arith
              ])
              (λ b. elim (dec_lt pointer i) [
                | yes before ↦ let h = ahead before in ground arith
                | no not_before ↦ let h = round (omega arith) in ground arith
              ]) in
          (j, next_step fuel ps pointer taken ∙ found, fits', rest)
    ]

taken_self :
    (ps : List Pcb) (p : ℕ)
    → p < length ps
    → same_state (pcb_at (set ps p (record (pcb_at ps p) { state = ready })) p).state finished
      ≡ false
unfolding pcb_at
taken_self ps p lt =
    ap (λ (b : Pcb). same_state b.state finished)
      (get_or-set_self ps p (record (pcb_at ps p) { state = ready }) zero_pcb lt)

module _ {H : Type 0} (a : Allocator H) (mutex : Option ℕ) (ms : Mutexes (Kernel × H))
    (p n : ℕ) where
  -- The process table when the mutex has been taken.
  abbrev locked : Processes H
  locked = record { mutexes = ms; process_pointer = some p; process_count = n }

  -- When block `p` is taken.
  abbrev pub taken : Processes H
  taken =
      let ps = ms.sys.0.processes in
      on_kernel a (λ k. record k { processes = set ps p (record (pcb_at ps p) { state = ready }) })
        locked

  take_spins :
      (fuel : ℕ)
      → has_mutex a mutex locked ≡ true
      → n ≢ max_process_count
      → next_container fuel (kernel a taken).processes p ≡ none
      → take_container a fuel mutex locked ≡ spins taken
  unfolding take_container
  take_spins fuel mine room e =
      let full : (n == max_process_count) ≡ false = ground arith in rw (mine, full, e) refl

  take_done :
      (fuel j : ℕ)
      → has_mutex a mutex locked ≡ true
      → n ≢ max_process_count
      → next_container fuel (kernel a taken).processes p ≡ some j
      → take_container a fuel mutex locked
        ≡ done p (unlock a mutex (record taken { process_pointer = some j; process_count = n + 1 }))
  unfolding take_container
  take_done fuel j mine room e =
      let full : (n == max_process_count) ≡ false = ground arith in rw (mine, full, e) refl

  kept_block : (i : ℕ) → i ≢ p → pcb_at (kernel a taken).processes i ≡ pcb_at ms.sys.0.processes i
  unfolding pcb_at
  kept_block i ne =
      get_or-set_ne ms.sys.0.processes {i = p} {j = i}
        (record (pcb_at ms.sys.0.processes p) { state = ready }) zero_pcb (λ e. ne (sym e))

  -- When the caller of get_available_container has the mutex and the table is not counted full, block `p`, at
  -- which process_pointer stands, is taken. If another block is FINISHED, the loop ends within one turn at a
  -- block `j` that is, block `p` is returned, process_pointer is left at `j`, one more process is counted, and the
  -- mutex is given back. If no other block is, the loop spends any fuel and is still going round, and the
  -- mutex is not given back.
  pub get_available_container_lem :
      (t : Processes H)
      → lock_named a (codes "process_mutex") t ≡ (mutex, locked)
      → has_mutex a mutex locked ≡ true
      → n ≢ max_process_count
      → length ms.sys.0.processes ≡ max_process_count
      → p < max_process_count
      → ((i : ℕ)
          → i < max_process_count
          → i ≢ p
          → same_state (pcb_at ms.sys.0.processes i).state finished ≡ true
          → (j : ℕ) × (same_state (pcb_at ms.sys.0.processes j).state finished ≡ true)
            × (j ≢ p)
            × (get_available_container a max_process_count t
                ≡ done p (
                    unlock a mutex
                      (record taken { process_pointer = some j; process_count = n + 1 }))))
        × (((i : ℕ)
              → i < max_process_count
              → i ≢ p
              → same_state (pcb_at ms.sys.0.processes i).state finished ≡ false)
            → (fuel : ℕ) → get_available_container a fuel t ≡ spins taken)
  unfolding get_available_container
  get_available_container_lem t locks mine room size lt = (
    λ i inside ne free.
        let ps = (kernel a taken).processes in
        let same = ap (λ (b : Pcb). same_state b.state finished) (kept_block i ne) in
        let (j, found, fits, end) =
          next_container_finds max_process_count ps p i lt inside (same ∙ free)
            (λ before. omega arith) (λ behind. omega arith) in
        let other : j ≢ p = λ e.
          let z =
            ap (λ (x : ℕ). same_state (pcb_at ps x).state finished) e
            ∙ taken_self ms.sys.0.processes p (omega arith) in
          let w = sym end ∙ z in cc in
        (
          j,
          sym (ap (λ (b : Pcb). same_state b.state finished) (kept_block j other)) ∙ end,
          other,
          ap (λ (x : Option ℕ × Processes H). take_container a max_process_count x.0 x.1) locks
              ∙ take_done max_process_count j mine room found,
        ),
    λ others fuel.
        ap (λ (x : Option ℕ × Processes H). take_container a fuel x.0 x.1) locks
        ∙ take_spins fuel mine room (
            next_container_spins fuel (kernel a taken).processes p
              (λ i inside.
                taken_block ms.sys.0.processes p i
                  (record (pcb_at ms.sys.0.processes p) { state = ready }) refl (omega arith)
                  (others i inside))
              lt),
  )
