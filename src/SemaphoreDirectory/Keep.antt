-- ===== src/SemaphoreDirectory/Keep.antt =====
-- The functions of Kernel/sem.c keep the directory of semaphores valid, and with it that of mutexes.
use horaci_os.Prelude.{ℕ, List, Option-cases, inl, inr, arith}
use horaci_os.Services.{Services}
use horaci_os.Directory.Valid.{IsValid, claim-IsValid, vacate-IsValid, slot_in}
use horaci_os.Directory.Find.{get_index-named}
use horaci_os.SemaphoreDirectory.{
  Semaphores, max_sems, sem_struct_size, name_at, get_sem_index, add_sem, create_new, sem_create,
  sem_destroy_by_name,
}

module _ {S : Type 0} ⦃k : Services S⦄ where
  create_new-IsValid :
      (name : List ℕ) (start_value : ℕ) (t : Semaphores S)
      → IsValid max_sems t.sems
      → IsValid max_sems (create_new name start_value t).1.sems
  unfolding create_new add_sem
  create_new-IsValid name start_value t v = elim (Option-cases t.sems.free_index) [
    | inl no_slot ↦ rw (no_slot, create_new) v
    | inr (i, f) ↦ elim (Option-cases (k.malloc sem_struct_size t.mutexes.sys).0) [
      | inl no_room ↦ rw (f, no_room, create_new) v
      | inr (p, g) ↦ rw (f, g, create_new) (claim-IsValid max_sems t.sems i p v f)
    ]
  ]

  -- `sem_create` keeps a valid directory valid, whether it returns an old semaphore, a new one or NULL.
  pub sem_create-IsValid :
      (name : List ℕ) (start_value : ℕ) (t : Semaphores S)
      → IsValid max_sems t.sems
      → IsValid max_sems (sem_create name start_value t).1.sems
  unfolding sem_create
  sem_create-IsValid name start_value t v = elim (Option-cases (get_sem_index name t)) [
    | inl missing ↦ rw (missing, sem_create) (create_new-IsValid name start_value t v)
    | inr (i, found) ↦ rw (found, sem_create) v
  ]

  -- `sem_destroy_by_name` keeps a valid directory valid, whether the name is found or not.
  pub sem_destroy-IsValid :
      (name : List ℕ) (t : Semaphores S)
      → IsValid max_sems t.sems
      → IsValid max_sems (sem_destroy_by_name name t).sems
  unfolding sem_destroy_by_name get_sem_index
  sem_destroy-IsValid name t v = elim (Option-cases (get_sem_index name t)) [
    | inl missing ↦ rw (missing, sem_destroy_by_name) v
    | inr (i, found) ↦
        let (p, here, same) = get_index-named (name_at t) name t.sems i found in
        let lt = slot_in t.sems.slots i here in
        rw (found, sem_destroy_by_name)
          (vacate-IsValid max_sems t.sems i v (let z = v.size in omega arith))
  ]
