-- ===== src/MemoryManager/Blocks.antt =====
-- The blocks that `malloc` gives out: inside the memory, large enough, and apart from those in use.
use horaci_os.Prelude.{
  ℕ, suc, ◌+◌, ◌*◌, ◌^◌, ◌<◌, ◌≤◌, ◌≡◌, sym, ap, subst, ◌∙◌, ◌%◌, inl, inr, Option, some, arith,
  length-set, set,
}
use horaci_os.MemoryManager.{
  MemoryManager, used, block_size, heap_size, malloc, update_used_nodes_status,
}
use horaci_os.MemoryManager.Tree.{status-set_self, update-Tidy}
use horaci_os.MemoryManager.Malloc.{
  Sound, malloc_some, malloc_cases, block_inside, index_inside, set-Mended,
}

-- For a sound memory of `2 ^ max` blocks: when `malloc` gives an address, that is the start of a block
-- of `2 ^ t` times BLOCK_SIZE which is at a multiple of its own size from the base, has room for the
-- bytes that were asked for, and ends inside the memory.
pub malloc_inside :
    (max bytes a : ℕ) (m : MemoryManager)
    → Sound max m
    → (malloc bytes m).0 ≡ some a
    → (t : ℕ) × (pos : ℕ) × (a ≡ m.memory_base_address + pos * (2 ^ t * block_size))
      × (bytes ≤ 2 ^ t * block_size)
      × (a + 2 ^ t * block_size ≤ m.memory_base_address + m.memory_available)
malloc_inside max bytes a m v e =
    let (t, pos, p, g) = malloc_some max bytes a m v e in
    let inside = block_inside max t pos p g.stands in
    let whole = v.available in let at = g.address in (t, pos, omega arith, g.enough, omega arith)

pub index_of :
    (max : ℕ) (m : MemoryManager) (i : ℕ)
    → Sound max m
    → i + 1 < 2 ^ suc max
    → i < heap_size m.memory_available
index_of max m i v lt = let n = v.nodes in omega arith

pub odd_nodes : (max : ℕ) (m : MemoryManager) → Sound max m → heap_size m.memory_available % 2 ≡ 1
odd_nodes max m v = let n = v.nodes in omega arith

-- A sound memory stays sound when `malloc` is called, whether it gives an address or not: the array
-- keeps its length, and each node that has children agrees with them.
pub malloc-Sound : (max bytes : ℕ) (m : MemoryManager) → Sound max m → Sound max (malloc bytes m).1
unfolding update_used_nodes_status
malloc-Sound max bytes m v = elim (malloc_cases max bytes m v) [
  | inl same ↦ subst (Sound max) (sym (ap (λ (x : Option ℕ × MemoryManager). x.1) same)) v
  | inr (t, pos, p, a, r, g) ↦
      let n = heap_size m.memory_available in
      let lt = index_of max m p.index v (index_inside max t pos p g.stands) in
      let size = v.tidy.0 in
      subst (Sound max) (sym g.after) record {
        small = v.small;
        available = v.available;
        order = v.order;
        nodes = v.nodes;
        tidy =
            update-Tidy used (p.index + 1) n (set m.pages p.index used) p.index (λ h. cc)
              (omega arith) lt (length-set m.pages p.index used ∙ size)
              (set-Mended n m.pages p.index v.tidy lt g.free)
              (status-set_self m.pages p.index used (omega arith));
      }
]
