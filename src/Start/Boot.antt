-- ===== src/Start/Boot.antt =====
-- The memory that `initializeKernelBinary` leaves.
use horaci_os.Prelude.{
  ℕ, ◌+◌, ◌-◌, ◌*◌, ◌^◌, ◌<◌, ◌≡◌, ◌∙◌, List, [], ◌∷◌, map, some, length, arith,
}
use horaci_os.Bytes.{Memory, memset, load_modules}
use horaci_os.Bytes.Fill.{memset_lem}
use horaci_os.Packer.{FileName, FileSystem, content, build_image}
use horaci_os.Packer.Load.{Holds, Away, Distinct, Placed, Small, load_packed}
use horaci_os.MemoryManager.Malloc.{Sound}
use horaci_os.MemoryManager.Init.{init-Sound}
use horaci_os.Start.{
  main_memory, memory_base_address, clear_bss, module_addresses, initialize_kernel_binary,
}

-- The memory that `main` sets up is sound.
pub main_memory-Sound : Sound 10 main_memory
unfolding main_memory memory_base_address
main_memory-Sound = init-Sound 0x900000 (128 * 2 ^ 20) (omega arith)

-- Modules that have no byte in the range are left alone by memset.
Placed-memset :
    (targets : ℕ → ℕ) (ms : List (List ℕ)) (i d n : ℕ) (mem : Memory)
    → Placed targets i ms mem
    → Away targets i ms d n
    → Placed targets i ms (memset d 0 n mem)
Placed-memset targets [] i d n mem h away = tt
Placed-memset targets (m ∷ ms) i d n mem (here, rest) (apart, away) = (
  (λ j lt. (memset_lem d 0 n mem).1 (targets i + j) (ground arith) ∙ here j lt),
  Placed-memset targets ms (i + 1) d n mem rest away,
)

-- What the kernel finds when it starts.
pub record Booted (bss end_of_kernel : ℕ) (ms : List (List ℕ)) (mem : Memory) : Type 0 where
  pub modules : Placed module_addresses 0 ms mem
  pub cleared : (i : ℕ) → i < end_of_kernel - bss → mem (bss + i) ≡ 0

-- An image from the packer stands in memory. If the modules' places, the bytes behind the kernel and the range to be
-- cleared are such that no place has a byte in common with another, with the image's modules or with that range, then
-- initializeKernelBinary puts each module whole at its place and clears the range.
pub boots :
    (fs : FileSystem) (kernel : FileName) (modules : List FileName) (output_file : FileName)
    (image : List ℕ) (base bss end_of_kernel : ℕ) (mem : Memory)
    → build_image fs (kernel ∷ modules) output_file ≡ some image
    → Holds base image mem
    → length modules < 2 ^ 32
    → Small (map (content fs) modules)
    → Away module_addresses 0
        (map (content fs) modules)
        (base + length (content fs kernel))
        (length image - length (content fs kernel))
    → Distinct module_addresses 0 (map (content fs) modules)
    → Away module_addresses 0 (map (content fs) modules) bss (end_of_kernel - bss)
    → Booted bss end_of_kernel
        (map (content fs) modules)
        (initialize_kernel_binary (base + length (content fs kernel)) bss end_of_kernel mem).1
unfolding initialize_kernel_binary clear_bss
boots fs kernel modules output_file image base bss end_of_kernel mem built h few small away distinct
      apart =
    let loaded =
      load_packed fs kernel modules output_file image module_addresses base mem built h few small
        away distinct in
    let mem' = load_modules (base + length (content fs kernel)) module_addresses mem in
    let size = end_of_kernel - bss in
    record {
      modules =
          Placed-memset module_addresses (map (content fs) modules) 0 bss size mem' loaded.placed
            apart;
      cleared = λ i lt. (memset_lem bss 0 size mem').0 i lt;
    }
