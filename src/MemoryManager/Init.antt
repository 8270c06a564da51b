-- ===== src/MemoryManager/Init.antt =====
-- `init_memoryManager` on as much memory as the kernel gives it.
use horaci_os.Prelude.{
  ℕ, ◌+◌, ◌*◌, ◌≤◌, ◌≡◌, refl, ap, ◌∙◌, arith, replicate, length-replicate, get_or-replicate, ltb,
  if◌then◌else◌,
}
use horaci_os.MemoryManager.{
  MemoryManager, empty, status_at, max_memory_bytes, heap_size, tree_depth, log2, log2_from,
  init_memory_manager,
}
use horaci_os.MemoryManager.Tree.{Tidy}
use horaci_os.MemoryManager.Malloc.{Sound}

empty-Tidy : (n : ℕ) → Tidy n (replicate n empty)
unfolding status_at
empty-Tidy n = (
  length-replicate n empty,
  λ j jn.
      rw
        (
          get_or-replicate n j empty,
          get_or-replicate n (2 * j + 1) empty,
          get_or-replicate n (2 * j + 2) empty,
        )
        (refl, refl),
)

-- The memory after `init_memoryManager` with BLOCK_SIZE times 1024 bytes or more.
abbrev full : ℕ → MemoryManager
full base = record {
  memory_available = max_memory_bytes;
  pages = replicate 2047 empty;
  max_order = 10;
  memory_base_address = base + 2047;
}

heap_size-full : heap_size max_memory_bytes ≡ 2047
unfolding heap_size tree_depth log2 log2_from
heap_size-full = refl

tree_depth-full : tree_depth max_memory_bytes ≡ 10
unfolding tree_depth log2 log2_from
tree_depth-full = refl

clamped :
    (bytes : ℕ)
    → max_memory_bytes ≤ bytes
    → (if ltb max_memory_bytes bytes then max_memory_bytes else bytes) ≡ max_memory_bytes
clamped bytes le = ground arith

-- init_memoryManager with MAX_MEMORY_BYTES or more, which is what the kernel gives it, leaves a sound
-- memory of 2 ^ 10 blocks, whatever was in it.
pub init-Sound :
    (base bytes : ℕ) → max_memory_bytes ≤ bytes → Sound 10 (init_memory_manager base bytes)
unfolding init_memory_manager
init-Sound base bytes le = rw (clamped bytes le) record {
  small = omega arith;
  available = refl;
  order = tree_depth-full;
  nodes = ap (λ (n : ℕ). n + 1) heap_size-full ∙ omega arith;
  tidy = empty-Tidy (heap_size max_memory_bytes);
}
