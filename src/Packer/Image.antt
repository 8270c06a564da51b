-- ===== src/Packer/Image.antt =====
-- The image that the packer builds, and the loader of Kernel/moduleLoader.c on it.
use horaci_os.Prelude.{
  ℕ, zero, suc, ◌+◌, ◌*◌, ◌/◌, ◌<◌, ◌≤◌, ◌≡◌, sym, ◌∙◌, ap, inl, inr, List, [], ◌∷◌, ◌++◌, map,
  append_assoc, append-nil, some, true, false, length, take, drop, ltb, take-of_le,
  take-append-drop, length-take, length-drop, Bool-cases, arith,
}
use horaci_os.Packer.{
  FileName, FileSystem, chunk_size, content, uint32_bytes, write_from, write_file, write_size,
  write_modules, build_image,
}

length-full : (k : ℕ) (xs : List ℕ) → ltb (length (take k xs)) k ≡ false → k ≤ length xs
length-full k xs h = ground (arith, length-take k xs)

length-last : (k : ℕ) (xs : List ℕ) → ltb (length (take k xs)) k ≡ true → length xs ≤ k
length-last k xs h = ground (arith, length-take k xs)

write_from_lem :
    (fuel : ℕ) (target source : List ℕ)
    → length source < fuel * 128
    → write_from fuel target source ≡ target ++ source
unfolding write_from chunk_size
write_from_lem zero target source h = absurd (omega arith)
write_from_lem (suc fuel) target source h = elim (Bool-cases (ltb (length (take 128 source)) 128)) [
  | inl last ↦ rw last (ap (◌++◌ target) (take-of_le 128 source (length-last 128 source last)))
  | inr more ↦ rw more (
      write_from_lem fuel (target ++ take 128 source) (drop 128 source)
        (let long = length-full 128 source more in omega (arith, length-drop 128 source))
      ∙ append_assoc target (take 128 source) (drop 128 source)
      ∙ ap (◌++◌ target) (take-append-drop 128 source))
]

write_file_lem : (target source : List ℕ) → write_file target source ≡ target ++ source
unfolding write_file chunk_size
write_file_lem target source = write_from_lem (length source / 128 + 1) target source (omega arith)

-- The modules of an image, each behind its length.
unfoldable pub body : List (List ℕ) → List ℕ
body [] = []
body (m ∷ ms) = uint32_bytes (length m) ++ (m ++ body ms)

write_modules_lem :
    (fs : FileSystem) (names : List FileName) (target : List ℕ)
    → write_modules fs names target ≡ target ++ body (map (content fs) names)
unfolding write_modules write_size body
write_modules_lem fs [] target = sym (append-nil target)
write_modules_lem fs (name ∷ names) target =
    write_modules_lem fs names
      (write_file (target ++ uint32_bytes (length (content fs name))) (content fs name))
    ∙ simp (write_file_lem, append_assoc)

-- Where the output file can be opened: the image is the kernel, the number of the modules, and each module behind
-- its length.
pub build_image_lem :
    (fs : FileSystem) (kernel : FileName) (modules : List FileName) (output_file : FileName)
    → fs.writable output_file ≡ true
    → build_image fs (kernel ∷ modules) output_file
      ≡ some
          (content fs kernel ++ (uint32_bytes (length modules) ++ body (map (content fs) modules)))
unfolding build_image
build_image_lem fs kernel modules output_file h = rw h (
    ap some (
      write_modules_lem fs modules
        (write_file [] (content fs kernel) ++ uint32_bytes (length modules))
      ∙ simp (write_file_lem, append_assoc)))

pub built_image :
    (fs : FileSystem) (kernel : FileName) (modules : List FileName) (output_file : FileName)
    (image : List ℕ)
    → build_image fs (kernel ∷ modules) output_file ≡ some image
    → image
      ≡ content fs kernel ++ (uint32_bytes (length modules) ++ body (map (content fs) modules))
unfolding build_image
built_image fs kernel modules output_file image h = elim (Bool-cases (fs.writable output_file)) [
  | inl opened ↦ let e = build_image_lem fs kernel modules output_file opened in cc
  | inr shut ↦ ground arith
]
