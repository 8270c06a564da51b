-- ===== src/MutexDirectory/Create.antt =====
-- `mutex_create` and the name that it stores.
use horaci_os.Prelude.{
  ℕ, ◌<◌, ◌≤◌, ◌≡◌, ◌≢◌, refl, sym, ap, subst, ◌∙◌, List, Option, none, some, take, take-of_le,
  arith, Option-cases, inl, inr,
}
use horaci_os.Services.{Services}
use horaci_os.Strings.{text, strlen}
use horaci_os.Strings.Laws.{strlen-length, text-take}
use horaci_os.Directory.{slot, claim}
use horaci_os.Directory.Valid.{IsValid, FreeAt, slot-claim}
use horaci_os.Directory.Find.{Unused, Short, get_index-claim, get_index_long}
use horaci_os.Mutex
use horaci_os.Mutex.{Mutex}
use horaci_os.MutexDirectory.{
  Mutexes, max_mutexes, name_length, mutex_struct_size, update, name_at, get_mutex_index, add_mutex,
  create_new, mutex_create,
}

module _ {S : Type 0} ⦃k : Services S⦄ where
  -- What is asked of `malloc` here: it gives no address that a slot points to.
  abbrev pub AllocatesUnused : Mutexes S → Type 0
  AllocatesUnused t =
      (p : ℕ) → (k.malloc mutex_struct_size t.sys).0 ≡ some p → Unused p t.directory.slots

  pub create_existing :
      (name : List ℕ) (t : Mutexes S) (i : ℕ)
      → get_mutex_index name t ≡ some i
      → mutex_create name t ≡ (slot t.directory.slots i, t)
  unfolding mutex_create
  create_existing name t i e = ground arith

  pub create_missing :
      (name : List ℕ) (t : Mutexes S)
      → get_mutex_index name t ≡ none
      → mutex_create name t ≡ create_new name t
  unfolding mutex_create
  create_missing name t e = ground arith

  -- A call that makes a new mutex found a free slot and room for it.
  pub create_new-some :
      (name : List ℕ) (t : Mutexes S) (p : ℕ)
      → (create_new name t).0 ≡ some p
      → (i : ℕ) × (t.directory.free_index ≡ some i)
        × ((k.malloc mutex_struct_size t.sys).0 ≡ some p)
        × ((create_new name t).1
            ≡ add_mutex name i p (record t { sys = (k.malloc mutex_struct_size t.sys).1 }))
  unfolding create_new
  create_new-some name t p e = elim (Option-cases t.directory.free_index) [
    | inl no_slot ↦ absurd (ground arith)
    | inr (i, f) ↦ elim (Option-cases (k.malloc mutex_struct_size t.sys).0) [
      | inl no_room ↦ absurd (ground arith)
      | inr (q, g) ↦ (i, f, ground arith, ground arith)
    ]
  ]

  pub stored_name :
      (name : List ℕ) (t : Mutexes S) (i p : ℕ)
      → name_at (add_mutex name i p t) p ≡ take name_length (text name)
  unfolding add_mutex update Mutex.fresh
  stored_name name t i p = ground arith

  pub other_name :
      (name : List ℕ) (t : Mutexes S) (i p q : ℕ)
      → q ≢ p
      → name_at (add_mutex name i p t) q ≡ name_at t q
  unfolding add_mutex update
  other_name name t i p q ne = ground arith

  add_mutex-directory :
      (name : List ℕ) (t : Mutexes S) (i p : ℕ)
      → (add_mutex name i p t).directory ≡ claim max_mutexes t.directory i p
  unfolding add_mutex
  add_mutex-directory name t i p = refl

  add_mutex_finds :
      (name : List ℕ) (t : Mutexes S) (i p : ℕ)
      → strlen name ≤ name_length
      → IsValid max_mutexes t.directory
      → t.directory.free_index ≡ some i
      → get_mutex_index name t ≡ none
      → Unused p t.directory.slots
      → (get_mutex_index name (add_mutex name i p t) ≡ some i)
        × (slot (add_mutex name i p t).directory.slots i ≡ some p)
  unfolding get_mutex_index
  add_mutex_finds name t i p short v f missing unused =
      let (lt, empty) = subst (FreeAt max_mutexes t.directory.slots) f v.free in
      let t' = add_mutex name i p t in
      let fits = take-of_le name_length (text name) (omega (arith, strlen-length name)) in
      let named = ap text (stored_name name t i p) ∙ text-take name_length name ∙ fits in
      rw (add_mutex-directory name t i p) (
        get_index-claim (name_at t) (name_at t') name p named (other_name name t i p) max_mutexes
            t.directory i missing (let z = v.size in omega arith) empty unused,
        slot-claim max_mutexes t.directory i p (let z = v.size in omega arith),
      )

  -- In a valid directory, and with a `malloc` that gives no address in use: the mutex that
  -- `mutex_create` returns is the one that its name then finds, be it old or new, if the name is not
  -- too long to be stored.
  pub mutex_create_finds :
      (name : List ℕ) (t : Mutexes S) (p : ℕ)
      → strlen name ≤ name_length
      → IsValid max_mutexes t.directory
      → AllocatesUnused t
      → (mutex_create name t).0 ≡ some p
      → let t' = (mutex_create name t).1 in
        (i : ℕ) × (get_mutex_index name t' ≡ some i) × (slot t'.directory.slots i ≡ some p)
  unfolding get_mutex_index
  mutex_create_finds name t p short v unused e = elim (Option-cases (get_mutex_index name t)) [
    | inl missing ↦
        let (i, f, room, after) =
          create_new-some name t p
            (ap (λ (x : Option ℕ × Mutexes S). x.0) (sym (create_missing name t missing)) ∙ e) in
        let t₁ = record t { sys = (k.malloc mutex_struct_size t.sys).1 } in
        let (found, here) = add_mutex_finds name t₁ i p short v f missing (unused p room) in
        rw (create_missing name t missing, after) (i, found, here)
    | inr (i, found) ↦ rw (create_existing name t i found) (
      i,
      found,
      ap (λ (x : Option ℕ × Mutexes S). x.0) (sym (create_existing name t i found)) ∙ e,
    )
  ]

  -- In a valid directory, with a `malloc` that gives no address in use and a name that is not too long
  -- to be stored: to create a mutex again returns the same mutex and changes nothing.
  pub mutex_create_again :
      (name : List ℕ) (t : Mutexes S) (p : ℕ)
      → strlen name ≤ name_length
      → IsValid max_mutexes t.directory
      → AllocatesUnused t
      → (mutex_create name t).0 ≡ some p
      → let t' = (mutex_create name t).1 in mutex_create name t' ≡ (some p, t')
  mutex_create_again name t p short v unused e =
      let (i, found, here) = mutex_create_finds name t p short v unused e in
      create_existing name (mutex_create name t).1 i found
      ∙ ap (λ (x : Option ℕ). (x, (mutex_create name t).1)) here

  -- What the functions of the directory keep: a right `free_index`, and names that fit.
  pub record Sound (t : Mutexes S) : Type 0 where
    pub valid : IsValid max_mutexes t.directory
    pub short : Short (name_at t) name_length t.directory.slots

  -- In a sound directory a name that is too long to be stored finds nothing.
  pub long_name_missing :
      (name : List ℕ) (t : Mutexes S)
      → Sound t
      → name_length < strlen name
      → get_mutex_index name t ≡ none
  unfolding get_mutex_index
  long_name_missing name t v long =
      get_index_long (name_at t) name name_length t.directory v.short
        (omega (arith, strlen-length name))
