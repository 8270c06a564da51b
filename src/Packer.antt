-- ===== src/Packer.antt =====
-- The packer of Toolchain/ModulePacker/main.c, which joins the kernel and the modules in one image. The parser of
-- the command line is a library: the model has the call-back `parse_opt`, and what `main` does with the arguments.
-- A file is the list of its bytes; the output file is none of those that are read. Messages are left out.
pub mod Image
pub mod Load
use horaci_os.Prelude.{
  ℕ, zero, suc, ◌+◌, ◌-◌, ◌*◌, ◌/◌, ◌%◌, ◌^◌, List, [], ◌∷◌, ◌++◌, Option, none, some, Bool, true,
  false, length, take, drop, set, replicate, ltb, ◌==◌, if◌then◌else◌,
}

abbrev pub FileName : Type 0
FileName = List ℕ

-- The bytes of the files that can be read, and the names that can be opened for writing.
pub record FileSystem : Type 0 where
  pub readable : FileName → Option (List ℕ)
  pub writable : FileName → Bool

-- BUFFER_SIZE and MAX_FILES.
unfoldable pub chunk_size : ℕ
chunk_size = 128

unfoldable pub max_files : ℕ
max_files = 128

pub record Arguments : Type 0 where
  pub args : List FileName
  pub output_file : FileName
  pub count : ℕ

-- 'o', ARGP_KEY_ARG, ARGP_KEY_END and every other key.
pub data Key : Type 0 where
  output argument end other : Key

-- `usage` is a call of `argp_usage`, which ends the program.
pub data Parsed : Type 0 where
  go_on : Arguments → Parsed
  usage unknown : Parsed

unfoldable pub parse_opt : Key → FileName → ℕ → Arguments → Parsed
parse_opt output arg arg_num a = go_on (record a { output_file = arg })
parse_opt argument arg arg_num a = go_on (record a { args = set a.args arg_num arg })
parse_opt end arg arg_num a = if ltb arg_num 1 then usage else go_on (record a { count = arg_num })
parse_opt other arg arg_num a = unknown

-- The contents of a file that `check_files` has found readable.
unfoldable pub content : FileSystem → FileName → List ℕ
content fs name = elim (fs.readable name) [ some bytes ↦ bytes | none ↦ [] ]

unfoldable pub can_read : FileSystem → FileName → Bool
can_read fs name = elim (fs.readable name) [ some bytes ↦ true | none ↦ false ]

unfoldable pub check_files : FileSystem → List FileName → Bool
check_files fs [] = true
check_files fs (name ∷ names) = if can_read fs name then check_files fs names else false

-- The bytes of a 32-bit number, the low one first.
unfoldable pub uint32_bytes : ℕ → List ℕ
uint32_bytes n = (n % 256) ∷ (n / 256 % 256) ∷ (n / 65536 % 256) ∷ (n / 16777216 % 256) ∷ []

-- The end of a file shows in a read that gives less than was asked for. The loop of `write_file` has a round for each
-- chunk, and one more.
unfoldable pub write_from : ℕ → List ℕ → List ℕ → List ℕ
write_from zero target source = target
write_from (suc fuel) target source =
    let rest = write_from fuel (target ++ take chunk_size source) (drop chunk_size source) in
    if ltb (length (take chunk_size source)) chunk_size
    then target ++ take chunk_size source
    else rest

unfoldable pub write_file : List ℕ → List ℕ → List ℕ
write_file target source = write_from (length source / chunk_size + 1) target source

unfoldable pub write_size : List ℕ → List ℕ → List ℕ
write_size target source = target ++ uint32_bytes (length source)

-- The loop of `buildImage` over the modules.
unfoldable pub write_modules : FileSystem → List FileName → List ℕ → List ℕ
write_modules fs [] target = target
write_modules fs (name ∷ names) target =
    write_modules fs names (write_file (write_size target (content fs name)) (content fs name))

-- What the output file has in the end; `none` where it cannot be opened, or where there is no kernel to read.
unfoldable pub build_image : FileSystem → List FileName → FileName → Option (List ℕ)
build_image fs [] output_file = none
build_image fs (kernel ∷ modules) output_file =
    if fs.writable output_file
    then some (
        write_modules fs modules
          (write_file [] (content fs kernel) ++ uint32_bytes (length modules)))
    else none

-- `main` with the arguments that the parser has left: the exit code, and the output file.
unfoldable pub main : FileSystem → Arguments → ℕ × Option (List ℕ)
main fs a =
    let files = take a.count a.args in
    if check_files fs files
    then elim (build_image fs files a.output_file) [
      | some image ↦ (0, some image)
      | none ↦ (1, none)
    ]
    else (1, none)
