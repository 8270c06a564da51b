-- ===== src/Tests/Images.antt =====
-- An image of a kernel and two modules, from the packer into memory.
use horaci_os.Prelude.{
  ℕ, ◌+◌, ◌-◌, ◌*◌, ◌≡◌, refl, ap, List, [], ◌∷◌, some, true, get_or, ◌==◌, if◌then◌else◌, arith,
}
use horaci_os.Bytes.{Memory, load_modules}
use horaci_os.Packer.{
  FileSystem, content, build_image, write_modules, write_file, write_from, write_size, uint32_bytes,
  chunk_size,
}
use horaci_os.Start.{
  initialize_kernel_binary, module_addresses, sample_code_module_address,
  sample_data_module_address,
}
use horaci_os.Start.Boot.{Booted, boots}
use horaci_os.Packer.Load.{After, Holds, load_packed}

-- A file is named by one character.
abbrev files : FileSystem
files = record {
  readable = λ name.
      if get_or name 0 0 == 107
      then some (7 ∷ 8 ∷ [])
      else (if get_or name 0 0 == 97 then some (10 ∷ 11 ∷ 12 ∷ []) else some (20 ∷ []));
  writable = λ name. true;
}

abbrev image : List ℕ
image = 7 ∷ 8 ∷ 2 ∷ 0 ∷ 0 ∷ 0 ∷ 3 ∷ 0 ∷ 0 ∷ 0 ∷ 10 ∷ 11 ∷ 12 ∷ 1 ∷ 0 ∷ 0 ∷ 0 ∷ 20 ∷ []

packed : build_image files ((107 ∷ []) ∷ (97 ∷ []) ∷ (98 ∷ []) ∷ []) (111 ∷ []) ≡ some image
unfolding build_image write_modules write_file write_from write_size uint32_bytes chunk_size content
packed = refl

-- The image stands at 100.
abbrev memory : Memory
memory a = get_or image (a - 100) 0

stands : Holds 100 image memory
stands i lt = ap (λ (j : ℕ). get_or image j 0) {x = 100 + i - 100} {y = i} (omega arith)

abbrev targets : ℕ → ℕ
targets i = 4096 * (i + 1)

load_packed_example :
    After targets 0 ((10 ∷ 11 ∷ 12 ∷ []) ∷ (20 ∷ []) ∷ []) memory (load_modules 102 targets memory)
unfolding content
load_packed_example =
    load_packed files (107 ∷ []) ((97 ∷ []) ∷ (98 ∷ []) ∷ []) (111 ∷ []) image targets 100 memory
      packed stands (omega arith) (omega arith) (omega arith) (omega arith)

boots_example :
    Booted 8192 8208
      ((10 ∷ 11 ∷ 12 ∷ []) ∷ (20 ∷ []) ∷ [])
      (initialize_kernel_binary 102 8192 8208 memory).1
unfolding content module_addresses sample_code_module_address sample_data_module_address
boots_example =
    boots files (107 ∷ []) ((97 ∷ []) ∷ (98 ∷ []) ∷ []) (111 ∷ []) image 100 8192 8208 memory packed
      stands (omega arith) (omega arith) (omega arith) (omega arith) (omega arith)
