-- ===== src/MemoryManager.antt =====
-- The buddy allocator (Kernel/memoryManager.c): a complete binary tree of blocks, kept as an array in
-- which the children of node `i` are nodes `2 * i + 1` and `2 * i + 2`. An `int` index that may be
-- negative is an `Option`, with `none` for -1.
pub mod Tree
pub mod Search
pub mod Taken
pub mod Ends
pub mod Malloc
pub mod Blocks
pub mod Apart
pub mod Free
pub mod Init
use horaci_os.Prelude.{
  ℕ, zero, suc, ◌+◌, ◌-◌, ◌*◌, ◌/◌, ◌%◌, ◌^◌, List, Option, none, some, Bool, true, false, ◌&&◌,
  ◌||◌, not, ◌==◌, ltb, leb, if◌then◌else◌, get_or, set, replicate,
}

-- EMPTY, USED and SPLIT.
pub data PageStatus : Type 0 where
  empty used split : PageStatus

abbrev pub is_status : PageStatus → PageStatus → Bool
is_status empty empty = true
is_status used used = true
is_status split split = true
is_status _ _ = false

-- BLOCK_SIZE and MAX_MEMORY_BYTES.
abbrev pub block_size : ℕ
block_size = 4096

abbrev pub max_memory_bytes : ℕ
max_memory_bytes = 4096 * 1024

-- `memoryManager_t`; `pages` is the array behind the pointer.
pub record MemoryManager : Type 0 where
  pub memory_available : ℕ
  pub pages : List PageStatus
  pub max_order : ℕ
  pub memory_base_address : ℕ

-- The loop of `pow`.
unfoldable pub pow : ℕ → ℕ → ℕ
pow base zero = 1
pow base (suc exp) = pow base exp * base % 2 ^ 64

-- The loop of `log2`, on fuel. It does not end for 0, where `number - 1` is the greatest word.
unfoldable pub log2_from : ℕ → ℕ → ℕ → ℕ
log2_from zero number power = power
log2_from (suc fuel) number power =
    let rest = log2_from fuel (number / 2) (power + 1) in if number == 1 then power else rest

unfoldable pub log2 : ℕ → ℕ
unfolding log2_from
log2 number = log2_from 32 number 0

unfoldable pub tree_depth : ℕ → ℕ
tree_depth memory_available = log2 memory_available - log2 block_size

unfoldable pub amount_of_blocks : ℕ → ℕ
amount_of_blocks memory_available = memory_available / block_size

unfoldable pub heap_size : ℕ → ℕ
heap_size memory_available = 2 ^ (tree_depth memory_available + 1) - 1

unfoldable pub init_memory_manager : ℕ → ℕ → MemoryManager
init_memory_manager base_address bytes =
    let available = if ltb max_memory_bytes bytes then max_memory_bytes else bytes in
    record {
      memory_available = available;
      pages = replicate (heap_size available) empty;
      max_order = tree_depth available;
      memory_base_address = base_address + heap_size available;
    }

-- The loop of `amount_of_blocks_needed`, on fuel: the first of BLOCK_SIZE, twice that and so on that
-- is not below `bytes`, or is above the memory there is.
unfoldable pub round_up : ℕ → ℕ → ℕ → ℕ → ℕ
round_up zero available bytes multiple = multiple
round_up (suc fuel) available bytes multiple =
    let rest = round_up fuel available bytes (multiple * 2) in
    if leb multiple available && ltb multiple bytes then rest else multiple

-- Each round doubles, so 32 are enough below `2 ^ 32` bytes. The memory is at most MAX_MEMORY_BYTES, so the `int`
-- that is returned does not wrap.
unfoldable pub amount_of_blocks_needed : ℕ → ℕ → ℕ
unfolding round_up
amount_of_blocks_needed available bytes = round_up 32 available bytes block_size

unfoldable pub calculate_offset : MemoryManager → ℕ → ℕ → ℕ
calculate_offset m i order = (i + 1 - 2 ^ order) * 2 ^ (m.max_order - order) * block_size

abbrev pub parent_index : ℕ → ℕ
parent_index i = (i + 1) / 2 - 1

abbrev pub is_left_child : ℕ → Bool
is_left_child i = (i % 2) == 1

unfoldable pub get_buddy_index : ℕ → ℕ
get_buddy_index i = if is_left_child i then i + 1 else i - 1

unfoldable pub status_at : List PageStatus → ℕ → PageStatus
status_at pages i = get_or pages i empty

-- Where the search stands: a node, its order and the size of its block.
pub record Place : Type 0 where
  pub index : ℕ
  pub order : ℕ
  pub size : ℕ

abbrev pub up : Place → Place
up p = record {
  index = parent_index p.index;
  order = (p.order + 2 ^ 32 - 1) % 2 ^ 32;
  size = p.size * 2 % 2 ^ 64;
}

-- The loop of `next_possible_index` that goes up from a right child, on fuel; the root has no parent.
unfoldable pub climb : ℕ → Place → Option Place
climb zero p = none
climb (suc fuel) p =
    let rest = climb fuel (up p) in
    if p.index == 0
    then none
    else if is_left_child (parent_index p.index)
    then some (record (up p) { index = parent_index p.index + 1 })
    else rest

unfoldable pub next_possible_index : Place → Option Place
next_possible_index p =
    if is_left_child p.index then some (record p { index = p.index + 1 }) else climb (p.index + 1) p

-- The loop that marks all ancestors of a node as SPLIT, on fuel.
unfoldable pub split_ancestors : ℕ → List PageStatus → ℕ → List PageStatus
split_ancestors zero pages i = pages
split_ancestors (suc fuel) pages i =
    let rest = split_ancestors fuel (set pages (parent_index i) split) (parent_index i) in
    if i == 0 then pages else rest

-- `updateUsedNodesStatus` and `updateEmptyNodesStatus`, which differ in the status alone, on fuel: as
-- long as the buddy has it too, the parent gets it, and then all ancestors are SPLIT.
unfoldable pub update_nodes_status : PageStatus → ℕ → List PageStatus → ℕ → List PageStatus
update_nodes_status st zero pages i = pages
update_nodes_status st (suc fuel) pages i =
    let rest = update_nodes_status st fuel (set pages (parent_index i) st) (parent_index i) in
    if not (i == 0) && is_status (status_at pages (get_buddy_index i)) st
    then rest
    else split_ancestors i pages i

unfoldable pub update_used_nodes_status : List PageStatus → ℕ → List PageStatus
update_used_nodes_status pages i = update_nodes_status used (i + 1) pages i

unfoldable pub update_empty_nodes_status : List PageStatus → ℕ → List PageStatus
update_empty_nodes_status pages i = update_nodes_status empty (i + 1) pages i

-- A node that is not USED and is larger than needed: the search goes down, to the left if that child
-- is not USED.
unfoldable pub down : List PageStatus → Place → Place
down pages p = record {
  index =
      if is_status (status_at pages (2 * p.index + 1)) used
      then 2 * p.index + 2
      else 2 * p.index + 1;
  order = p.order + 1;
  size = p.size / 2;
}

-- The loop of `first_suitable_offset`, on fuel: it marks a node of the needed size and returns it.
-- `spent` is what it comes to when the fuel runs out.
unfoldable pub search : Option Place → ℕ → ℕ → List PageStatus → Place → Option Place
search spent zero needed pages p = spent
search spent (suc fuel) needed pages p =
    let status = status_at pages p.index in
    let skip : Option Place = elim (next_possible_index p) [
      | none ↦ none
      | some q ↦ search spent fuel needed pages q
    ] in
    let lower = search spent fuel needed pages (down pages p) in
    if is_status status used
    then skip
    else if needed == p.size
    then (if is_status status empty then some p else skip)
    else lower

-- Each round of the search moves to a later block or down one order.
unfoldable pub search_fuel : MemoryManager → ℕ
search_fuel m = (amount_of_blocks m.memory_available + 1) * (m.max_order + 1)

unfoldable pub first_suitable_offset : MemoryManager → ℕ → Option ℕ × MemoryManager
first_suitable_offset m bytes =
    let root : Place = record { index = 0; order = 0; size = m.memory_available } in
    elim (search none (search_fuel m) (amount_of_blocks_needed m.memory_available bytes) m.pages
      root) [
        | none ↦ (none, m)
        | some p ↦ (
          some (calculate_offset m p.index p.order),
          record m { pages = update_used_nodes_status (set m.pages p.index used) p.index },
        )
      ]

-- `none` is NULL.
unfoldable pub malloc : ℕ → MemoryManager → Option ℕ × MemoryManager
malloc bytes m =
    if bytes == 0 || ltb m.memory_available bytes
    then (none, m)
    else (let (offset, m') = first_suitable_offset m bytes in
        (elim offset [ none ↦ none | some o ↦ some (m.memory_base_address + o) ], m'))

-- The loop of `free_handler` from node `i`, on fuel; `skipped` and `viewable` are the first block and
-- the number of blocks below the node, `nodes` the number of nodes.
unfoldable pub free_from : ℕ → ℕ → ℕ → List PageStatus → ℕ → ℕ → ℕ → List PageStatus
free_from zero nodes bitmap_index pages i skipped viewable = pages
free_from (suc fuel) nodes bitmap_index pages i skipped viewable =
    let left = 2 * i + 1 in
    let right = 2 * i + 2 in
    let freed = is_status (status_at pages i) used in
    let pages' = if freed then set pages i empty else pages in
    let last =
      leb nodes left
      || (ltb right nodes
          && is_status (status_at pages' left) empty
          && is_status (status_at pages' right) empty) in
    let half = viewable / 2 in
    let go_left = free_from fuel nodes bitmap_index pages' left skipped half in
    let go_right = free_from fuel nodes bitmap_index pages' right (skipped + half) half in
    if leb nodes i
    then pages
    else if freed && last
    then update_empty_nodes_status pages' i
    else if ltb bitmap_index (skipped + half)
    then go_left
    else go_right

-- An address below the memory wraps round and is refused as too great. Each round goes down one
-- level, so the number of nodes is enough fuel.
unfoldable pub free_handler : ℕ → MemoryManager → MemoryManager
free_handler p m =
    let offset = (p + 2 ^ 64 - m.memory_base_address) % 2 ^ 64 in
    let blocks = amount_of_blocks m.memory_available in
    let nodes = heap_size m.memory_available in
    if p == 0 || not ((offset % block_size) == 0) || leb blocks (offset / block_size)
    then m
    else record m { pages = free_from (nodes + 1) nodes (offset / block_size) m.pages 0 0 blocks }
