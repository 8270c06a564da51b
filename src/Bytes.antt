-- ===== src/Bytes.antt =====
-- Memory as a function from addresses to bytes: `memset` and `memcpy` of Kernel/lib.c, and the loader of
-- modules (Kernel/moduleLoader.c), whose messages are left out. Addresses are numbers that do not wrap, an
-- argument `c` of `memset` is the number with its 32 bits, and a word of memory is its four bytes, the low
-- one first.
pub mod Fill
pub mod Copy
use horaci_os.Prelude.{ℕ, zero, suc, ◌+◌, ◌*◌, ◌/◌, ◌%◌, ◌&&◌, ◌==◌, if◌then◌else◌}

abbrev pub Memory : Type 0
Memory = ℕ → ℕ

unfoldable pub poke : ℕ → ℕ → Memory → Memory
poke a v mem b = if b == a then v else mem b

-- The loop of `memset`, from the last byte to the first.
unfoldable pub memset_from : ℕ → ℕ → ℕ → Memory → Memory
memset_from zero destination chr mem = mem
memset_from (suc length) destination chr mem =
    memset_from length destination chr (poke (destination + length) chr mem)

unfoldable pub memset : ℕ → ℕ → ℕ → Memory → Memory
memset destination c length mem = memset_from length destination (c % 256) mem

-- The two loops of `memcpy`, from index `i`: a word of four bytes is read before it is written.
unfoldable pub copy_bytes_from : ℕ → ℕ → ℕ → ℕ → Memory → Memory
copy_bytes_from zero i d s mem = mem
copy_bytes_from (suc rounds) i d s mem =
    copy_bytes_from rounds (i + 1) d s (poke (d + i) (mem (s + i)) mem)

unfoldable pub copy_word : ℕ → ℕ → ℕ → Memory → Memory
copy_word i d s mem = poke (d + (i + 3)) (mem (s + (i + 3))) (
    poke (d + (i + 2)) (mem (s + (i + 2)))
      (poke (d + (i + 1)) (mem (s + (i + 1))) (poke (d + i) (mem (s + i)) mem)))

unfoldable pub copy_words_from : ℕ → ℕ → ℕ → ℕ → Memory → Memory
copy_words_from zero i d s mem = mem
copy_words_from (suc rounds) i d s mem =
    copy_words_from rounds (i + 1) d s (copy_word (i * 4) d s mem)

unfoldable pub memcpy : ℕ → ℕ → ℕ → Memory → Memory
memcpy d s length mem =
    if (d % 4) == 0 && (s % 4) == 0 && (length % 4) == 0
    then copy_words_from (length / 4) 0 d s mem
    else copy_bytes_from length 0 d s mem

-- `readUint32`: the word at an address, and the address behind it.
unfoldable pub read_uint32 : ℕ → Memory → ℕ × ℕ
read_uint32 address mem = (
  mem address + 256 * mem (address + 1) + 65536 * mem (address + 2) + 16777216 * mem (address + 3),
  address + 4,
)

-- `loadModule`: the address behind the module, and the memory.
unfoldable pub load_module : ℕ → ℕ → Memory → ℕ × Memory
load_module module_address target mem =
    let (size, start) = read_uint32 module_address mem in
    (start + size, memcpy target start size mem)

-- The loop of `loadModules`, from index `i` of the array of target addresses.
unfoldable pub load_from : ℕ → ℕ → (ℕ → ℕ) → ℕ → Memory → Memory
load_from zero i targets current mem = mem
load_from (suc rounds) i targets current mem =
    let (next, mem') = load_module current (targets i) mem in
    load_from rounds (i + 1) targets next mem'

unfoldable pub load_modules : ℕ → (ℕ → ℕ) → Memory → Memory
load_modules payload_start targets mem =
    let (module_count, current) = read_uint32 payload_start mem in
    load_from module_count 0 targets current mem
