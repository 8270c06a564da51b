-- ===== src/MutexDirectory/Backed.antt =====
-- Mutexes over the scheduler and the buddy allocator: each has a block of memory of its own.
use native.Mathlib.Nat.{one-le-pow}
use native.Mathlib.Decide.{ℕ_discrete}
use horaci_os.Prelude.{
  ℕ, ◌+◌, ◌*◌, ◌^◌, ◌<◌, ◌≡◌, ◌≢◌, refl, sym, ap, subst, ◌∙◌, inl, inr, List, Option, none, some,
  set, length, get_or-set_self, get_or-set_ne, get_or-replicate, arith, Option-cases,
}
use horaci_os.Directory.{slot, claim}
use horaci_os.Directory.Valid.{FreeAt}
use horaci_os.Directory
use horaci_os.Scheduler.{Kernel}
use horaci_os.MemoryManager.{MemoryManager, Place, used, status_at, block_size, malloc}
use horaci_os.MemoryManager.Search.{Stands}
use horaci_os.MemoryManager.Malloc.{malloc_cases}
use horaci_os.MemoryManager.Malloc
use horaci_os.MemoryManager.Blocks.{malloc-Sound}
use horaci_os.MemoryManager.Apart.{Apart, malloc-Apart}
use horaci_os.MutexDirectory.{
  Mutexes, get_mutex_index, add_mutex, create_new, mutex_create, init_mutex_directory,
  mutex_struct_size, max_mutexes,
}
use horaci_os.MutexDirectory.Create.{Sound, create_existing, create_missing}
use horaci_os.MutexDirectory.Keep.{mutex_create-Sound, init_mutex_directory-Sound}
use horaci_os.MutexDirectory.Memory.{kernel_services}

-- An address is the start of a block in use.
abbrev pub InUse : ℕ → MemoryManager → ℕ → Type 0
InUse max m a =
    (t : ℕ) × (pos : ℕ) × (p : Place) × Stands max t pos p
    × (a ≡ m.memory_base_address + pos * 2 ^ t * block_size)
    × (status_at m.pages p.index ≡ used)

starts_differ :
    (base t pos t' pos' : ℕ)
    → Apart t pos t' pos'
    → base + pos * 2 ^ t * block_size ≢ base + pos' * 2 ^ t' * block_size
starts_differ base t pos t' pos' (inl h) e =
    let one = one-le-pow t 2 (omega arith) in
    let end : (pos + 1) * 2 ^ t ≡ pos * 2 ^ t + 2 ^ t = grind arith in omega arith
starts_differ base t pos t' pos' (inr h) e =
    let one = one-le-pow t' 2 (omega arith) in
    let end : (pos' + 1) * 2 ^ t' ≡ pos' * 2 ^ t' + 2 ^ t' = grind arith in omega arith

malloc-base :
    (max bytes : ℕ) (m : MemoryManager)
    → Malloc.Sound max m
    → (malloc bytes m).1.memory_base_address ≡ m.memory_base_address
malloc-base max bytes m v = elim (malloc_cases max bytes m v) [
  | inl same ↦ ap (λ (r : Option ℕ × MemoryManager). r.1.memory_base_address) same
  | inr (t, pos, p, a, r, g) ↦ ap (λ (n : MemoryManager). n.memory_base_address) g.after
]

-- A block in use stays in use when malloc is called.
malloc-InUse :
    (max bytes a : ℕ) (m : MemoryManager)
    → Malloc.Sound max m
    → InUse max m a
    → InUse max (malloc bytes m).1 a
malloc-InUse max bytes a m v (t, pos, q, s, at, u) =
    let base = malloc-base max bytes m v in
    let at' : a ≡ (malloc bytes m).1.memory_base_address + pos * 2 ^ t * block_size =
      at ∙ ap (λ (b : ℕ). b + pos * 2 ^ t * block_size) (sym base) in
    elim (Option-cases (malloc bytes m).0) [
      | inl nothing ↦ elim (malloc_cases max bytes m v) [
        | inl same ↦
            subst (λ (r : Option ℕ × MemoryManager). InUse max r.1 a) (sym same)
              (t, pos, q, s, at, u)
        | inr (t', pos', p, b, r, g) ↦ absurd (let z = sym nothing ∙ r in cc)
      ]
      | inr (b, given) ↦
          let (t', pos', p, s', at'', enough, marked, others) =
            malloc-Apart max bytes b m v given in
          (t, pos, q, s, at', (others t pos q s u).1)
    ]

-- What malloc gives is in use then, and was not before.
given-InUse :
    (max bytes a : ℕ) (m : MemoryManager)
    → Malloc.Sound max m
    → (malloc bytes m).0 ≡ some a
    → InUse max (malloc bytes m).1 a × ((b : ℕ) → InUse max m b → a ≢ b)
given-InUse max bytes a m v given =
    let (t, pos, p, s, at, enough, marked, others) = malloc-Apart max bytes a m v given in
    let base = malloc-base max bytes m v in
    (
      (t, pos, p, s, at ∙ ap (λ (b : ℕ). b + pos * 2 ^ t * block_size) (sym base), marked),
      λ b (t', pos', q, s', at', u) e.
          starts_differ m.memory_base_address t pos t' pos' (others t' pos' q s' u).0
            (sym at ∙ e ∙ at'),
    )

slot-set_self :
    (slots : List (Option ℕ)) (i : ℕ) (o : Option ℕ) → i < length slots → slot (set slots i o) i ≡ o
unfolding slot
slot-set_self slots i o lt = get_or-set_self slots i o none lt

slot-set_ne :
    (slots : List (Option ℕ)) (i j : ℕ) (o : Option ℕ)
    → i ≢ j
    → slot (set slots i o) j ≡ slot slots j
unfolding slot
slot-set_ne slots i j o ne = get_or-set_ne slots {i = i} {j = j} o none ne

-- The blocks behind the pointers of a directory.
pub record Backed (max : ℕ) (m : MemoryManager) (slots : List (Option ℕ)) : Type 0 where
  pub memory : Malloc.Sound max m
  pub held : (i p : ℕ) → slot slots i ≡ some p → InUse max m p
  pub distinct : (i j p : ℕ) → slot slots i ≡ some p → slot slots j ≡ some p → i ≡ j

asked-Backed :
    (max bytes : ℕ) (m : MemoryManager) (slots : List (Option ℕ))
    → Backed max m slots
    → Backed max (malloc bytes m).1 slots
asked-Backed max bytes m slots v = record {
  memory = malloc-Sound max bytes m v.memory;
  held = λ i p e. malloc-InUse max bytes p m v.memory (v.held i p e);
  distinct = v.distinct;
}

stored-Backed :
    (max bytes i a : ℕ) (m : MemoryManager) (slots : List (Option ℕ))
    → Backed max m slots
    → i < length slots
    → (malloc bytes m).0 ≡ some a
    → Backed max (malloc bytes m).1 (set slots i (some a))
stored-Backed max bytes i a m slots v lt given =
    let (now, fresh) = given-InUse max bytes a m v.memory given in
    let self = slot-set_self slots i (some a) lt in
    let new : (j : ℕ) → i ≢ j → slot (set slots i (some a)) j ≢ some a =
      λ j ne e. fresh a (v.held j a (sym (slot-set_ne slots i j (some a) ne) ∙ e)) refl in
    record {
      memory = malloc-Sound max bytes m v.memory;
      held = λ j p e. elim (ℕ_discrete i j) [
        | yes same ↦
            let here : some a ≡ some p = sym self ∙ ap (slot (set slots i (some a))) same ∙ e in
            let z : a ≡ p = cc in subst (InUse max (malloc bytes m).1) z now
        | no ne ↦
            malloc-InUse max bytes p m v.memory
              (v.held j p (sym (slot-set_ne slots i j (some a) ne) ∙ e))
      ];
      distinct = λ j j' p e e'. elim (ℕ_discrete i j) [
        | yes same ↦ elim (ℕ_discrete i j') [
          | yes same' ↦ sym same ∙ same'
          | no ne' ↦ absurd (
              let here : some a ≡ some p = sym self ∙ ap (slot (set slots i (some a))) same ∙ e in
              new j' ne' (e' ∙ sym here))
        ]
        | no ne ↦ elim (ℕ_discrete i j') [
          | yes same' ↦ absurd (
              let here : some a ≡ some p = sym self ∙ ap (slot (set slots i (some a))) same' ∙ e' in
              new j ne (e ∙ sym here))
          | no ne' ↦
              v.distinct j j' p (sym (slot-set_ne slots i j (some a) ne) ∙ e)
                (sym (slot-set_ne slots i j' (some a) ne') ∙ e')
        ]
      ];
    }

abbrev Table : Type 0
Table = Mutexes (Kernel × MemoryManager)

-- The directory is right, and each of its pointers has a block of its own.
pub record OwnBlocks (max : ℕ) (t : Mutexes (Kernel × MemoryManager)) : Type 0 where
  pub directory : Sound t
  pub blocks : Backed max t.sys.1 t.directory.slots

create_new_refused :
    (name : List ℕ) (t : Table) → t.directory.free_index ≡ none → (create_new name t).1 ≡ t
unfolding create_new
create_new_refused name t e = ground arith

create_new_no_memory :
    (name : List ℕ) (t : Table) (i : ℕ)
    → t.directory.free_index ≡ some i
    → (malloc mutex_struct_size t.sys.1).0 ≡ none
    → (create_new name t).1 ≡ record t { sys = (t.sys.0, (malloc mutex_struct_size t.sys.1).1) }
unfolding create_new
create_new_no_memory name t i e f = ground arith

create_new_stored :
    (name : List ℕ) (t : Table) (i p : ℕ)
    → t.directory.free_index ≡ some i
    → (malloc mutex_struct_size t.sys.1).0 ≡ some p
    → (create_new name t).1
      ≡ add_mutex name i p (record t { sys = (t.sys.0, (malloc mutex_struct_size t.sys.1).1) })
unfolding create_new
create_new_stored name t i p e f = ground arith

BlocksOf : ℕ → Table → Type 0
BlocksOf max t = Backed max t.sys.1 t.directory.slots

create_new-Backed :
    (max : ℕ) (name : List ℕ) (t : Table) → OwnBlocks max t → BlocksOf max (create_new name t).1
unfolding add_mutex claim BlocksOf
create_new-Backed max name t v = elim (Option-cases t.directory.free_index) [
  | inl full ↦ subst (BlocksOf max) (sym (create_new_refused name t full)) v.blocks
  | inr (i, free) ↦ elim (Option-cases (malloc mutex_struct_size t.sys.1).0) [
    | inl nothing ↦
        subst (BlocksOf max) (sym (create_new_no_memory name t i free nothing))
          (asked-Backed max mutex_struct_size t.sys.1 t.directory.slots v.blocks)
    | inr (p, given) ↦
        let d = v.directory.valid in
        let (lt, at_i) = subst (FreeAt max_mutexes t.directory.slots) free d.free in
        subst (BlocksOf max) (sym (create_new_stored name t i p free given)) (
          stored-Backed max mutex_struct_size i p t.sys.1 t.directory.slots v.blocks
            (let size = d.size in omega arith) given)
  ]
]

-- With the scheduler and the buddy allocator behind it, mutex_create keeps, on every branch: the memory is
-- sound, the free_index of the directory is right and its names fit, each pointer in it is the start of a block in
-- use, and no two slots have the same pointer.
pub mutex_create-OwnBlocks :
    (max : ℕ) (name : List ℕ) (t : Mutexes (Kernel × MemoryManager))
    → OwnBlocks max t
    → OwnBlocks max (mutex_create name t).1
unfolding BlocksOf
mutex_create-OwnBlocks max name t v = record {
  directory = mutex_create-Sound name t v.directory;
  blocks = elim (Option-cases (get_mutex_index name t)) [
    | inl new ↦
        subst (λ (r : Option ℕ × Table). BlocksOf max r.1) (sym (create_missing name t new))
          (create_new-Backed max name t v)
    | inr (i, old) ↦
        subst (λ (r : Option ℕ × Table). BlocksOf max r.1) (sym (create_existing name t i old))
          v.blocks
  ];
}

empty_slot : (max i : ℕ) → slot (Directory.init max).slots i ≡ none
unfolding Directory.init slot
empty_slot max i = get_or-replicate max i none

-- An empty directory over a sound memory.
pub init_mutex_directory-OwnBlocks :
    (max : ℕ) (t : Mutexes (Kernel × MemoryManager))
    → Malloc.Sound max t.sys.1
    → OwnBlocks max (init_mutex_directory t)
unfolding init_mutex_directory
init_mutex_directory-OwnBlocks max t v = record {
  directory = init_mutex_directory-Sound t;
  blocks = record {
    memory = v;
    held = λ i p e. absurd (let z = sym (empty_slot max_mutexes i) ∙ e in cc);
    distinct = λ i j p e e'. absurd (let z = sym (empty_slot max_mutexes i) ∙ e in cc);
  };
}
