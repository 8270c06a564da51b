-- ===== src/MutexDirectory/Memory.antt =====
-- Mutexes over the scheduler and the buddy allocator: what they ask of memory leaves it sound.
use horaci_os.Prelude.{ℕ, ◌≡◌, refl, sym, subst, List, Option, none, some, inl, inr, Option-cases}
use horaci_os.Services.{Services}
use horaci_os.Directory.{slot}
use horaci_os.MutexDirectory.{Mutexes, get_mutex_index, mutex_destroy_by_name, free_object}
use horaci_os.Scheduler.{Kernel}
use horaci_os.Scheduler.Provide.{services, allocator}
use horaci_os.MemoryManager.{MemoryManager}
use horaci_os.MemoryManager.Malloc.{Sound}
use horaci_os.MemoryManager.Free.{free_handler-Sound}

instance abbrev pub kernel_services : Services (Kernel × MemoryManager)
kernel_services = services allocator

-- The memory behind the mutexes.
abbrev pub InMemory : ℕ → Mutexes (Kernel × MemoryManager) → Type 0
InMemory max t = Sound max t.sys.1

freed :
    (max : ℕ) (o : Option ℕ) (s : Kernel × MemoryManager)
    → Sound max s.1
    → Sound max (free_object o s).1
unfolding free_object
freed max none s v = v
freed max (some p) s v = free_handler-Sound max p s.1 v

destroyed :
    (name : List ℕ) (i : ℕ) (t : Mutexes (Kernel × MemoryManager))
    → get_mutex_index name t ≡ some i
    → (mutex_destroy_by_name name t).sys ≡ free_object (slot t.directory.slots i) t.sys
unfolding mutex_destroy_by_name
destroyed name i t e = rw (e, mutex_destroy_by_name) refl

not_there :
    (name : List ℕ) (t : Mutexes (Kernel × MemoryManager))
    → get_mutex_index name t ≡ none
    → mutex_destroy_by_name name t ≡ t
unfolding mutex_destroy_by_name
not_there name t e = rw (e, mutex_destroy_by_name) refl

-- With the scheduler and the buddy allocator behind it, mutex_destroy_by_name leaves a sound memory
-- sound, whether there is a mutex of that name or not.
pub mutex_destroy-InMemory :
    (max : ℕ) (name : List ℕ) (t : Mutexes (Kernel × MemoryManager))
    → InMemory max t
    → InMemory max (mutex_destroy_by_name name t)
mutex_destroy-InMemory max name t v = elim (Option-cases (get_mutex_index name t)) [
  | inl none_there ↦ subst (InMemory max) (sym (not_there name t none_there)) v
  | inr (i, found) ↦
      subst (λ (s : Kernel × MemoryManager). Sound max s.1) (sym (destroyed name i t found))
        (freed max (slot t.directory.slots i) t.sys v)
]
