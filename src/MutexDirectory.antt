-- ===== src/MutexDirectory.antt =====
-- The mutexes of the kernel: the functions of Kernel/mutex.c that find a mutex by its name or its
-- address. `mutexes` is the memory behind the `mutex_t` pointers; what `free_handler` gives back
-- stays readable there, as in the program.
pub mod Create
pub mod Keep
pub mod Memory
pub mod Backed
use horaci_os.Prelude.{ℕ, List, [], ◌∷◌, Option, none, some, ◌==◌, if◌then◌else◌, take}
use horaci_os.Services.{Services}
use horaci_os.Strings.{text}
use horaci_os.Directory.{Directory, slot, get_index, claim, vacate}
use horaci_os.Directory
use horaci_os.Mutex.{Mutex}
use horaci_os.Mutex

-- MAX_MUTEXES, NAME_LENGTH and `sizeof(mutex_struct_t)`.
unfoldable pub max_mutexes : ℕ
max_mutexes = 50

unfoldable pub name_length : ℕ
name_length = 50

abbrev pub mutex_struct_size : ℕ
mutex_struct_size = 188

pub record Mutexes (S : Type 0) : Type 0 where
  pub directory : Directory
  pub mutex_at : ℕ → Mutex
  pub sys : S

-- A write through a pointer.
unfoldable pub update : (ℕ → Mutex) → ℕ → Mutex → ℕ → Mutex
update f p m q = if q == p then m else f q

module _ {S : Type 0} where
  abbrev pub name_at : Mutexes S → ℕ → List ℕ
  name_at t p = (t.mutex_at p).name

  unfoldable pub get_mutex_index : List ℕ → Mutexes S → Option ℕ
  get_mutex_index name t = get_index (name_at t) name t.directory

  -- An operation on the mutex at an address.
  unfoldable pub at : ℕ → (Mutex → S → Mutex × S) → Mutexes S → Mutexes S
  at p f t =
      let (m, s) = f (t.mutex_at p) t.sys in record t { mutex_at = update t.mutex_at p m; sys = s }

module _ {S : Type 0} ⦃k : Services S⦄ where
  unfoldable pub init_mutex_directory : Mutexes S → Mutexes S
  init_mutex_directory t = record t { directory = Directory.init max_mutexes }

  -- What `mutex_create` does with a new object at address `p` and the free slot `i`. The name is
  -- cut to `name_length` bytes.
  unfoldable pub add_mutex : List ℕ → ℕ → ℕ → Mutexes S → Mutexes S
  add_mutex name i p t = record t {
    directory = claim max_mutexes t.directory i p;
    mutex_at = update t.mutex_at p (Mutex.fresh (take name_length (text name)));
  }

  -- Room for a new mutex is asked of `malloc` only if there is a slot for it.
  unfoldable pub create_new : List ℕ → Mutexes S → Option ℕ × Mutexes S
  create_new name t = elim t.directory.free_index [
    | none ↦ (none, t)
    | some i ↦
        let (p?, s) = k.malloc mutex_struct_size t.sys in
        elim p? [
          | none ↦ (none, record t { sys = s })
          | some p ↦ (some p, add_mutex name i p (record t { sys = s }))
        ]
  ]

  -- The pointer that is returned, `none` for NULL.
  unfoldable pub mutex_create : List ℕ → Mutexes S → Option ℕ × Mutexes S
  mutex_create name t = elim (get_mutex_index name t) [
    | some i ↦ (slot t.directory.slots i, t)
    | none ↦ create_new name t
  ]

  unfoldable pub mutex_lock : Option ℕ → Mutexes S → Mutexes S
  mutex_lock none t = t
  mutex_lock (some p) t = at p Mutex.lock t

  unfoldable pub mutex_unlock : Option ℕ → Mutexes S → Mutexes S
  mutex_unlock none t = t
  mutex_unlock (some p) t = at p Mutex.unlock t

  unfoldable pub mutex_super_unlock : Option ℕ → Mutexes S → Mutexes S
  mutex_super_unlock none t = t
  mutex_super_unlock (some p) t = at p Mutex.super_unlock t

  unfoldable pub mutex_lock_by_name : List ℕ → Mutexes S → Mutexes S
  mutex_lock_by_name name t = elim (get_mutex_index name t) [
    | none ↦ t
    | some i ↦ mutex_lock (slot t.directory.slots i) t
  ]

  unfoldable pub mutex_unlock_by_name : List ℕ → Mutexes S → Mutexes S
  mutex_unlock_by_name name t = elim (get_mutex_index name t) [
    | none ↦ t
    | some i ↦ mutex_unlock (slot t.directory.slots i) t
  ]

  -- A slot that is found is not NULL; `free_handler` of NULL would do nothing.
  unfoldable pub free_object : Option ℕ → S → S
  free_object none s = s
  free_object (some p) s = k.free_handler p s

  unfoldable pub mutex_destroy_by_name : List ℕ → Mutexes S → Mutexes S
  unfolding free_object
  mutex_destroy_by_name name t = elim (get_mutex_index name t) [
    | none ↦ t
    | some i ↦ record t {
      sys = free_object (slot t.directory.slots i) t.sys;
      directory = vacate t.directory i;
    }
  ]

  unfoldable pub mutex_destroy : ℕ → Mutexes S → Mutexes S
  mutex_destroy p t = mutex_destroy_by_name (name_at t p) t

  -- `release_mutex_by_owner`: the loop over the slots, those still to be seen as a list.
  unfoldable pub release_slots : List (Option ℕ) → ℕ → Mutexes S → Mutexes S
  release_slots [] pid t = t
  release_slots (none ∷ r) pid t = release_slots r pid t
  release_slots (some p ∷ r) pid t =
      release_slots r pid (if (t.mutex_at p).owner == pid then mutex_super_unlock (some p) t else t)

  unfoldable pub release_mutex_by_owner : ℕ → Mutexes S → Mutexes S
  unfolding release_slots
  release_mutex_by_owner pid t = release_slots t.directory.slots pid t
