-- ===== src/MutexDirectory/Keep.antt =====
-- The functions of Kernel/mutex.c keep the directory sound.
use horaci_os.Prelude.{
  ℕ, zero, suc, ◌≤◌, ◌<◌, ◌≡◌, ◌≢◌, ap, subst, ◌∙◌, List, [], ◌∷◌, Option, none, some, length, set,
  length-take, arith, Option-cases, inl, inr,
}
use native.Mathlib.Decide.{ℕ_discrete}
use horaci_os.Services.{Services}
use horaci_os.Strings.{text, strlen}
use horaci_os.Strings.Laws.{text-take}
use horaci_os.Directory.{claim, vacate}
use horaci_os.Directory.Valid.{init-IsValid, claim-IsValid, vacate-IsValid, slot_in}
use horaci_os.Directory.Find.{Short, init-Short, get_index-named}
use horaci_os.MutexDirectory.{
  Mutexes, max_mutexes, name_length, mutex_struct_size, name_at, get_mutex_index, add_mutex,
  create_new, init_mutex_directory, mutex_create, mutex_destroy_by_name,
}
use horaci_os.MutexDirectory.Create.{
  Sound, create_existing, create_missing, create_new-some, stored_name, other_name,
  long_name_missing,
}

-- Objects whose names stay short keep all names short, also when a slot is written.
Keeps : (ℕ → List ℕ) → (ℕ → List ℕ) → ℕ → Type 0
Keeps name_at name_at' n = (p : ℕ) → length (text (name_at p)) ≤ n → length (text (name_at' p)) ≤ n

Short-mono :
    (name_at name_at' : ℕ → List ℕ) (n : ℕ) (slots : List (Option ℕ))
    → Short name_at n slots
    → Keeps name_at name_at' n
    → Short name_at' n slots
unfolding Keeps
Short-mono name_at name_at' n [] h keep = tt
Short-mono name_at name_at' n (x ∷ r) h keep =
    ((λ p e. keep p (h.0 p e)), Short-mono name_at name_at' n r h.1 keep)

Short-set :
    (name_at name_at' : ℕ → List ℕ) (n : ℕ) (slots : List (Option ℕ)) (i : ℕ) (s : Option ℕ)
    → Short name_at n slots
    → ((p : ℕ) → s ≡ some p → length (text (name_at' p)) ≤ n)
    → Keeps name_at name_at' n
    → Short name_at' n (set slots i s)
unfolding Keeps
Short-set name_at name_at' n [] i s h new keep = tt
Short-set name_at name_at' n (x ∷ r) zero s h new keep =
    (new, Short-mono name_at name_at' n r h.1 keep)
Short-set name_at name_at' n (x ∷ r) (suc i) s h new keep =
    ((λ p e. keep p (h.0 p e)), Short-set name_at name_at' n r i s h.1 new keep)

max_pos : 0 < max_mutexes
unfolding max_mutexes
max_pos = omega arith

module _ {S : Type 0} ⦃k : Services S⦄ where
  -- The name that is stored is cut.
  stored_short :
      (name : List ℕ) (t : Mutexes S) (i p : ℕ)
      → length (text (name_at (add_mutex name i p t) p)) ≤ name_length
  stored_short name t i p =
      let cut = ap text (stored_name name t i p) ∙ text-take name_length name in
      omega (arith, ap (λ (l : List ℕ). length l) cut, length-take name_length (text name))

  add_mutex-Keeps :
      (name : List ℕ) (t : Mutexes S) (i p : ℕ)
      → Keeps (name_at t) (name_at (add_mutex name i p t)) name_length
  unfolding Keeps
  add_mutex-Keeps name t i p q h = elim (ℕ_discrete q p) [
    | yes e ↦ rw e (stored_short name t i p)
    | no ne ↦ rw (other_name name t i p q ne) h
  ]

  add_mutex-Sound :
      (name : List ℕ) (t : Mutexes S) (i p : ℕ)
      → Sound t
      → t.directory.free_index ≡ some i
      → Sound (add_mutex name i p t)
  unfolding add_mutex claim
  add_mutex-Sound name t i p v f = record {
    valid = claim-IsValid max_mutexes t.directory i p v.valid f;
    short =
        Short-set (name_at t) (name_at (add_mutex name i p t)) name_length t.directory.slots i
          (some p) v.short
          (λ q e.
            let p' : p ≡ q = cc in
            subst (λ (q : ℕ). length (text (name_at (add_mutex name i p t) q)) ≤ name_length) p'
              (stored_short name t i p))
          (add_mutex-Keeps name t i p);
  }

  with_sys : (t : Mutexes S) (s : S) → Sound t → Sound (record t { sys = s })
  with_sys t s v = record { valid = v.valid; short = v.short }

  create_new_no_slot :
      (name : List ℕ) (t : Mutexes S)
      → t.directory.free_index ≡ none
      → create_new name t ≡ (none, t)
  unfolding create_new
  create_new_no_slot name t e = ground arith

  create_new_no_room :
      (name : List ℕ) (t : Mutexes S) (i : ℕ)
      → t.directory.free_index ≡ some i
      → (k.malloc mutex_struct_size t.sys).0 ≡ none
      → create_new name t ≡ (none, record t { sys = (k.malloc mutex_struct_size t.sys).1 })
  unfolding create_new
  create_new_no_room name t i e f = ground arith

  create_new_made :
      (name : List ℕ) (t : Mutexes S) (i p : ℕ)
      → t.directory.free_index ≡ some i
      → (k.malloc mutex_struct_size t.sys).0 ≡ some p
      → (create_new name t).0 ≢ none
  unfolding create_new
  create_new_made name t i p f g e = ground arith

  create_new-Sound : (name : List ℕ) (t : Mutexes S) → Sound t → Sound (create_new name t).1
  create_new-Sound name t v = elim (Option-cases (create_new name t).0) [
    | inr (p, e) ↦
        let (i, f, room, after) = create_new-some name t p e in
        rw after (add_mutex-Sound name _ i p (with_sys t _ v) f)
    | inl refused ↦ elim (Option-cases t.directory.free_index) [
      | inl no_slot ↦ rw (create_new_no_slot name t no_slot) v
      | inr (i, f) ↦ elim (Option-cases (k.malloc mutex_struct_size t.sys).0) [
        | inl no_room ↦ rw (create_new_no_room name t i f no_room) (with_sys t _ v)
        | inr (p, g) ↦ absurd (create_new_made name t i p f g refused)
      ]
    ]
  ]

  -- The directory starts sound.
  pub init_mutex_directory-Sound : (t : Mutexes S) → Sound (init_mutex_directory t)
  unfolding init_mutex_directory
  init_mutex_directory-Sound t = record {
    valid = init-IsValid max_mutexes max_pos;
    short = init-Short (name_at t) name_length max_mutexes;
  }

  -- `mutex_create` keeps a sound directory sound, whether it returns an old mutex, a new one or NULL.
  pub mutex_create-Sound : (name : List ℕ) (t : Mutexes S) → Sound t → Sound (mutex_create name t).1
  mutex_create-Sound name t v = elim (Option-cases (get_mutex_index name t)) [
    | inl missing ↦ rw (create_missing name t missing) (create_new-Sound name t v)
    | inr (i, found) ↦ rw (create_existing name t i found) v
  ]

  -- `mutex_destroy_by_name` keeps a sound directory sound, whether the name is found or not.
  pub mutex_destroy-Sound :
      (name : List ℕ) (t : Mutexes S) → Sound t → Sound (mutex_destroy_by_name name t)
  unfolding mutex_destroy_by_name get_mutex_index vacate Keeps
  mutex_destroy-Sound name t v = elim (Option-cases (get_mutex_index name t)) [
    | inl missing ↦ rw (missing, mutex_destroy_by_name) v
    | inr (i, found) ↦
        let (p, here, same) = get_index-named (name_at t) name t.directory i found in
        let lt = slot_in t.directory.slots i here in
        rw (found, mutex_destroy_by_name)
          (record {
            valid =
                vacate-IsValid max_mutexes t.directory i v.valid
                  (let z = v.valid.size in omega arith);
            short =
                Short-set (name_at t) (name_at t) name_length t.directory.slots i none v.short
                  (λ p e. absurd (cc)) (λ p h. h);
          })
  ]

  create_new_free :
      (name : List ℕ) (t : Mutexes S) (i p : ℕ)
      → t.directory.free_index ≡ some i
      → (k.malloc mutex_struct_size t.sys).0 ≡ some p
      → (create_new name t).0 ≡ some p
  unfolding create_new
  create_new_free name t i p f room = ground arith

  -- In a sound directory with a free slot and a malloc that gives memory, each time it is called: mutex_create
  -- returns a mutex for a name that is too long to be stored, but get_mutex_index does not find it then, and
  -- while there is a free slot mutex_create for that name again takes memory for another one.
  pub long_name_lost :
      (name : List ℕ) (t : Mutexes S) (i p : ℕ)
      → Sound t
      → name_length < strlen name
      → t.directory.free_index ≡ some i
      → (k.malloc mutex_struct_size t.sys).0 ≡ some p
      → let t' = (mutex_create name t).1 in
        ((mutex_create name t).0 ≡ some p)
        × (get_mutex_index name t' ≡ none)
        × ((j q : ℕ)
            → t'.directory.free_index ≡ some j
            → (k.malloc mutex_struct_size t'.sys).0 ≡ some q
            → (mutex_create name t').0 ≡ some q)
  long_name_lost name t i p v long f room =
      let missing = long_name_missing name t v long in
      let gone =
        long_name_missing name (mutex_create name t).1 (mutex_create-Sound name t v) long in
      (
        ap (λ (x : Option ℕ × Mutexes S). x.0) (create_missing name t missing)
            ∙ create_new_free name t i p f room,
        gone,
        λ j q g more.
            ap (λ (x : Option ℕ × Mutexes S). x.0)
              (create_missing name (mutex_create name t).1 gone)
            ∙ create_new_free name (mutex_create name t).1 j q g more,
      )
