-- ===== src/Tests/Memory.antt =====
-- The buddy allocator on a memory of four blocks.
use horaci_os.Prelude.{
  false, ℕ, zero, suc, ◌+◌, ◌*◌, ◌^◌, ◌<◌, ◌≤◌, ◌≡◌, refl, List, [], ◌∷◌, none, some, arith,
  replicate,
}
use horaci_os.MemoryManager.{
  MemoryManager, Place, PageStatus, empty, used, split, status_at, block_size, heap_size,
  tree_depth, log2, log2_from, init_memory_manager, malloc, free_handler, first_suitable_offset,
  search, search_fuel, amount_of_blocks, amount_of_blocks_needed, round_up, down,
  next_possible_index, climb, calculate_offset, free_from, update_empty_nodes_status,
  update_nodes_status, split_ancestors, get_buddy_index,
}
use horaci_os.MemoryManager.Tree.{Local}
use horaci_os.MemoryManager.Malloc.{Sound}
use horaci_os.MemoryManager.Blocks.{malloc_inside, malloc-Sound}
use horaci_os.MemoryManager.Apart.{Apart, malloc-Apart}
use horaci_os.MemoryManager.Search.{Stands}
use horaci_os.MemoryManager.Free.{free_handler-Sound}
use horaci_os.MemoryManager.Init.{init-Sound}
use horaci_os.MemoryManager.Malloc.{root}
use horaci_os.MemoryManager.Ends.{first_suitable_offset_ends}
use horaci_os.Scheduler.{Kernel}
use horaci_os.RoundRobin
use horaci_os.PointerStack
use horaci_os.Directory
use horaci_os.Mutex.{fresh}
use horaci_os.MutexDirectory.{Mutexes, mutex_create, init_mutex_directory}
use horaci_os.MutexDirectory.Memory.{kernel_services}
use horaci_os.MutexDirectory.Backed.{
  OwnBlocks, mutex_create-OwnBlocks, init_mutex_directory-OwnBlocks,
}

-- The first block is in use.
abbrev four : MemoryManager
four = record {
  memory_available = 16384;
  pages = split ∷ split ∷ empty ∷ used ∷ empty ∷ empty ∷ empty ∷ [];
  max_order = 2;
  memory_base_address = 1000;
}

heap_size-four : heap_size four.memory_available ≡ 7
unfolding heap_size tree_depth log2 log2_from
heap_size-four = refl

four-Sound : Sound 2 four
unfolding heap_size tree_depth log2 log2_from status_at
four-Sound = record {
  small = omega arith;
  available = refl;
  order = refl;
  nodes = refl;
  tidy = (refl, agree);
}
  where
    agree : (j : ℕ) → 2 * j + 2 < 7 → Local four.pages j
    agree zero lt = ((λ h. let z = h.0 in cc), λ h. let z = h.0 in cc)
    agree (suc zero) lt = ((λ h. let z = h.0 in cc), λ h. let z = h.1 in cc)
    agree (suc (suc zero)) lt = (refl, refl)
    agree (suc (suc (suc j))) lt = absurd (omega arith)

got : (malloc 5000 four).0 ≡ some (1000 + 8192)
unfolding malloc first_suitable_offset search search_fuel amount_of_blocks amount_of_blocks_needed
    round_up down next_possible_index climb calculate_offset status_at
got = refl

malloc_inside_example :
    (t : ℕ) × (pos : ℕ) × (9192 ≡ 1000 + pos * (2 ^ t * block_size))
    × (5000 ≤ 2 ^ t * block_size)
    × (9192 + 2 ^ t * block_size ≤ 1000 + 16384)
malloc_inside_example = malloc_inside 2 5000 9192 four four-Sound got

malloc-Sound_example : Sound 2 (malloc 5000 four).1
malloc-Sound_example = malloc-Sound 2 5000 four four-Sound

malloc-Apart_example :
    (t : ℕ) × (pos : ℕ) × (p : Place) × Stands 2 t pos p
    × (9192 ≡ 1000 + pos * 2 ^ t * block_size)
    × (5000 ≤ 2 ^ t * block_size)
    × (status_at (malloc 5000 four).1.pages p.index ≡ used)
    × ((t' pos' : ℕ) (q : Place)
        → Stands 2 t' pos' q
        → status_at four.pages q.index ≡ used
        → Apart t pos t' pos' × (status_at (malloc 5000 four).1.pages q.index ≡ used))
malloc-Apart_example = malloc-Apart 2 5000 9192 four four-Sound got

free_handler-Sound_example : Sound 2 (free_handler 1000 four)
free_handler-Sound_example = free_handler-Sound 2 1000 four four-Sound

init-Sound_example : Sound 10 (init_memory_manager 9437184 (128 * 1048576))
init-Sound_example = init-Sound 9437184 (128 * 1048576) (omega arith)

abbrev freed : List PageStatus
freed = replicate 7 empty

free_four : (free_handler 1000 four).pages ≡ freed
unfolding free_handler free_from update_empty_nodes_status update_nodes_status split_ancestors
    get_buddy_index heap_size tree_depth log2 log2_from amount_of_blocks status_at
free_four = refl

first_suitable_offset_ends_example :
    let needed = amount_of_blocks_needed 16384 5000 in
    search (some (root four)) (search_fuel four) needed four.pages (root four)
    ≡ search none (search_fuel four + 100) needed four.pages (root four)
first_suitable_offset_ends_example =
    first_suitable_offset_ends 2 5000 100 (some (root four)) four four-Sound (omega arith)

-- No mutex yet, over this memory.
abbrev mutexes : Mutexes (Kernel × MemoryManager)
mutexes = record {
  directory = Directory.init 50;
  mutex_at = λ (p : ℕ). fresh [];
  sys = (
    record {
      processes = [];
      round_robin = RoundRobin.init;
      to_queue = PointerStack.init;
      irq_raised = false;
    },
    four,
  );
}

mutex_create-OwnBlocks_example :
    OwnBlocks 2 (mutex_create (109 ∷ []) (init_mutex_directory mutexes)).1
mutex_create-OwnBlocks_example =
    mutex_create-OwnBlocks 2 (109 ∷ []) (init_mutex_directory mutexes)
      (init_mutex_directory-OwnBlocks 2 mutexes four-Sound)
