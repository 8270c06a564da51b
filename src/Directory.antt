-- ===== src/Directory.antt =====
-- The directories of mutexes, semaphores and mailboxes: `mutex_directory` (Kernel/mutex.c),
-- `sem_directory` (Kernel/sem.c) and `post_office` (Kernel/mailbox.c) hold an array of pointers and a
-- `free_index`, and handle them by the same statements, which are given here once. A pointer is an
-- address, or `none` for NULL; a `free_index` of -1 is `none`.
pub mod Valid
pub mod Find
use horaci_os.Prelude.{
  ℕ, zero, suc, ◌+◌, List, [], ◌∷◌, Option, none, some, ◌==◌, if◌then◌else◌, get_or, set, replicate,
  wrap,
}
use horaci_os.Strings.{strcmp}

pub record Directory : Type 0 where
  pub slots : List (Option ℕ)
  pub free_index : Option ℕ

unfoldable pub init : ℕ → Directory
init max = record { slots = replicate max none; free_index = some 0 }

unfoldable pub slot : List (Option ℕ) → ℕ → Option ℕ
slot slots i = get_or slots i none

-- The loop that looks for an object by its name, from index `i`; `name_at` reads the name of the
-- object at an address.
unfoldable pub index_from : (ℕ → List ℕ) → List ℕ → ℕ → List (Option ℕ) → Option ℕ
index_from name_at name i [] = none
index_from name_at name i (none ∷ r) = index_from name_at name (i + 1) r
index_from name_at name i (some p ∷ r) =
    let rest = index_from name_at name (i + 1) r in
    if strcmp (name_at p) name == 0 then some i else rest

unfoldable pub get_index : (ℕ → List ℕ) → List ℕ → Directory → Option ℕ
get_index name_at name d = index_from name_at name 0 d.slots

-- The loop `while(slots[i] != NULL && i != created) i++`, going round at `max`, on fuel.
unfoldable pub search : ℕ → ℕ → List (Option ℕ) → ℕ → ℕ → ℕ
search zero max slots created i = i
search (suc fuel) max slots created i = elim (slot slots i) [
  | none ↦ i
  | some p ↦
      let rest = search fuel max slots created (wrap max (i + 1)) in
      if i == created then i else rest
]

-- A new object goes to the free slot, and `free_index` moves on to a slot that is empty, or to -1
-- if there is none.
unfoldable pub claim : ℕ → Directory → ℕ → ℕ → Directory
claim max d created p =
    let slots = set d.slots created (some p) in
    let i = search max max slots created (wrap max (created + 1)) in
    record { slots = slots; free_index = if i == created then none else some i }

-- The slot of a destroyed object is empty, and is the next to be used.
unfoldable pub vacate : Directory → ℕ → Directory
vacate d i = record { slots = set d.slots i none; free_index = some i }
