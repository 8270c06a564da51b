-- ===== src/Tests/Names.antt =====
-- Names and the directory of mutexes at work.
use horaci_os.Prelude.{ℕ, ◌≡◌, ◌≤◌, ◌<◌, refl, List, [], ◌∷◌, some, none, replicate, arith}
use horaci_os.Tests.Machine.{Machine, machine, runs}
use horaci_os.Strings.{strlen}
use horaci_os.Directory.{slot, claim}
use horaci_os.Directory
use horaci_os.Directory.Find.{init-Unused}
use horaci_os.Mutex
use horaci_os.MutexDirectory
use horaci_os.MutexDirectory.{
  Mutexes, init_mutex_directory, max_mutexes, mutex_struct_size, name_length, get_mutex_index,
  mutex_create, mutex_destroy_by_name,
}
use horaci_os.MutexDirectory.Create.{AllocatesUnused, Sound, mutex_create_finds}
use horaci_os.MutexDirectory.Keep.{
  init_mutex_directory-Sound, mutex_create-Sound, mutex_destroy-Sound, long_name_lost,
}

abbrev empty : Mutexes Machine
empty =
    init_mutex_directory
      (record { directory = Directory.init 0; mutex_at = λ p. Mutex.fresh []; sys = runs 3 })

empty-Sound : Sound empty
empty-Sound =
    init_mutex_directory-Sound
      (record { directory = Directory.init 0; mutex_at = λ p. Mutex.fresh []; sys = runs 3 })

unused : AllocatesUnused empty
unfolding init_mutex_directory
unused p e = init-Unused max_mutexes p

created-Sound : Sound (mutex_create (97 ∷ []) empty).1
created-Sound = mutex_create-Sound (97 ∷ []) empty empty-Sound

mutex_destroy-Sound_example :
    Sound (mutex_destroy_by_name (97 ∷ []) (mutex_create (97 ∷ []) empty).1)
mutex_destroy-Sound_example =
    mutex_destroy-Sound (97 ∷ []) (mutex_create (97 ∷ []) empty).1 created-Sound

created : (mutex_create (97 ∷ []) empty).0 ≡ some 4096
unfolding mutex_create MutexDirectory.create_new init_mutex_directory max_mutexes Directory.init
    get_mutex_index Directory.get_index Directory.index_from
created = refl

short_name : strlen (97 ∷ []) ≤ name_length
unfolding name_length strlen
short_name = omega arith

mutex_create_finds_example :
    let t = (mutex_create (97 ∷ []) empty).1 in
    (i : ℕ) × (get_mutex_index (97 ∷ []) t ≡ some i) × (slot t.directory.slots i ≡ some 4096)
mutex_create_finds_example =
    mutex_create_finds (97 ∷ []) empty 4096 short_name empty-Sound.valid unused created

abbrev long_name : List ℕ
long_name = replicate 60 97

too_long : name_length < strlen long_name
unfolding name_length strlen
too_long = omega arith

long_name_lost_example :
    let t' = (mutex_create long_name empty).1 in
    ((mutex_create long_name empty).0 ≡ some 4096)
    × (get_mutex_index long_name t' ≡ none)
    × ((j q : ℕ)
        → t'.directory.free_index ≡ some j
        → (machine.malloc mutex_struct_size t'.sys).0 ≡ some q
        → (mutex_create long_name t').0 ≡ some q)
unfolding init_mutex_directory Directory.init
long_name_lost_example = long_name_lost long_name empty 0 4096 empty-Sound too_long refl refl
