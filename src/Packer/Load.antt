-- ===== src/Packer/Load.antt =====
-- The loader of Kernel/moduleLoader.c on the image that the packer builds.
use horaci_os.Prelude.{
  map, some, ℕ, zero, suc, ◌+◌, ◌-◌, ◌^◌, ◌<◌, ◌≤◌, ◌≡◌, refl, sym, ◌∙◌, ap, subst, ◌⊎◌, List, [],
  ◌∷◌, ◌++◌, length, get_or, All, length-append, arith,
}
use horaci_os.Bytes.{Memory, read_uint32, load_module, load_from, load_modules}
use horaci_os.Bytes.Copy.{load_module-Copied}
use horaci_os.Packer.{FileName, FileSystem, content, uint32_bytes, build_image}
use horaci_os.Packer.Image.{body, built_image}

-- The bytes stand in memory from an address on.
abbrev pub Holds : ℕ → List ℕ → Memory → Type 0
Holds a bytes mem = (i : ℕ) → i < length bytes → mem (a + i) ≡ get_or bytes i 0

get_or-append_left :
    (xs ys : List ℕ) (i : ℕ) → i < length xs → get_or (xs ++ ys) i 0 ≡ get_or xs i 0
get_or-append_left [] ys i h = absurd (omega arith)
get_or-append_left (x ∷ xs) ys zero h = refl
get_or-append_left (x ∷ xs) ys (suc i) h = get_or-append_left xs ys i (omega arith)

get_or-append_right : (xs ys : List ℕ) (i : ℕ) → get_or (xs ++ ys) (length xs + i) 0 ≡ get_or ys i 0
get_or-append_right [] ys i = ap (λ (j : ℕ). get_or ys j 0) (omega arith)
get_or-append_right (x ∷ xs) ys i =
    ap (λ (j : ℕ). get_or (x ∷ (xs ++ ys)) j 0) {x = suc (length xs) + i} {y = suc (length xs + i)}
      (omega arith)
    ∙ get_or-append_right xs ys i

Holds-left : (a : ℕ) (xs ys : List ℕ) (mem : Memory) → Holds a (xs ++ ys) mem → Holds a xs mem
Holds-left a xs ys mem h i lt =
    h i (omega (arith, length-append xs ys)) ∙ get_or-append_left xs ys i lt

Holds-right :
    (a : ℕ) (xs ys : List ℕ) (mem : Memory) → Holds a (xs ++ ys) mem → Holds (a + length xs) ys mem
Holds-right a xs ys mem h i lt =
    ap mem {x = a + length xs + i} {y = a + (length xs + i)} (omega arith)
    ∙ h (length xs + i) (omega (arith, length-append xs ys))
    ∙ get_or-append_right xs ys i

Holds-behind :
    (a n : ℕ) (rest : List ℕ) (mem : Memory)
    → Holds a (uint32_bytes n ++ rest) mem
    → Holds (a + 4) rest mem
unfolding uint32_bytes
Holds-behind a n rest mem h = Holds-right a (uint32_bytes n) rest mem h

length_image :
    (kernel : List ℕ) (modules : List FileName) (rest : List ℕ)
    → length (kernel ++ (uint32_bytes (length modules) ++ rest)) ≡ length kernel + (4 + length rest)
unfolding uint32_bytes
length_image kernel modules rest =
    length-append kernel (uint32_bytes (length modules) ++ rest) ∙ omega arith

length-map : (f : FileName → List ℕ) (names : List FileName) → length (map f names) ≡ length names
length-map f [] = refl
length-map f (x ∷ xs) = ap suc (length-map f xs)

-- What packer and loader say of a 32-bit number.
read_uint32-Holds :
    (a n : ℕ) (mem : Memory) → n < 2 ^ 32 → Holds a (uint32_bytes n) mem → (read_uint32 a mem).0 ≡ n
unfolding read_uint32 uint32_bytes
read_uint32-Holds a n mem small h = omega (
  arith,
  ap mem {x = a} {y = a + 0} (omega arith),
  h 0 (omega arith),
  h 1 (omega arith),
  h 2 (omega arith),
  h 3 (omega arith),
)

-- Two ranges, each with its length, have no byte in common.
abbrev pub Disjoint : ℕ → ℕ → ℕ → ℕ → Type 0
Disjoint a n b m = (a + n ≤ b) ⊎ (b + m ≤ a)

-- The places of the modules, from number `i` on, have no byte in the range.
abbrev pub Away : (ℕ → ℕ) → ℕ → List (List ℕ) → ℕ → ℕ → Type 0
Away targets i [] a n = Unit {0}
Away targets i (m ∷ ms) a n = Disjoint (targets i) (length m) a n × Away targets (i + 1) ms a n

-- No two of the places have a byte in common.
abbrev pub Distinct : (ℕ → ℕ) → ℕ → List (List ℕ) → Type 0
Distinct targets i [] = Unit {0}
Distinct targets i (m ∷ ms) =
    Away targets (i + 1) ms (targets i) (length m) × Distinct targets (i + 1) ms

abbrev pub Placed : (ℕ → ℕ) → ℕ → List (List ℕ) → Memory → Type 0
Placed targets i [] mem = Unit {0}
Placed targets i (m ∷ ms) mem = Holds (targets i) m mem × Placed targets (i + 1) ms mem

abbrev pub Small : List (List ℕ) → Type 0
Small = All (λ (m : List ℕ). length m < 2 ^ 32)

module _ (targets : ℕ → ℕ) where
  Away-part :
      (ms : List (List ℕ)) (i a n b k : ℕ)
      → Away targets i ms a n
      → a ≤ b
      → b + k ≤ a + n
      → Away targets i ms b k
  Away-part [] i a n b k h le le' = tt
  Away-part (m ∷ ms) i a n b k h le le' = (ground arith, Away-part ms (i + 1) a n b k h.1 le le')

  -- One round: the first module is at its place, the others still stand in the image, and the rest of memory is as
  -- it was.
  record Loaded (i : ℕ) (m : List ℕ) (rest : List ℕ) (current : ℕ) (mem : Memory) : Type 0 where
    next : (load_module current (targets i) mem).0 ≡ current + 4 + length m
    here : Holds (targets i) m (load_module current (targets i) mem).1
    behind : Holds (current + 4 + length m) rest (load_module current (targets i) mem).1
    others :
        (a : ℕ)
        → Disjoint (targets i) (length m) a 1
        → (load_module current (targets i) mem).1 a ≡ mem a

  load_one :
      (i : ℕ) (m rest : List ℕ) (current : ℕ) (mem : Memory)
      → length m < 2 ^ 32
      → Holds current (uint32_bytes (length m) ++ (m ++ rest)) mem
      → Disjoint (targets i) (length m) current (4 + length m + length rest)
      → Loaded i m rest current mem
  unfolding uint32_bytes
  load_one i m rest current mem small h apart =
      let size =
        read_uint32-Holds current (length m) mem small
          (Holds-left current (uint32_bytes (length m)) (m ++ rest) mem h) in
      let tail = Holds-right current (uint32_bytes (length m)) (m ++ rest) mem h in
      let (next, copied) = load_module-Copied current (targets i) mem (ground (arith, size)) in
      record {
        next = omega (arith, size);
        here = λ j lt.
            copied.there j (omega (arith, size)) ∙ Holds-left (current + 4) m rest mem tail j lt;
        behind = λ j lt.
            copied.others (current + 4 + length m + j) (ground (arith, size))
            ∙ Holds-right (current + 4) m rest mem tail j lt;
        others = λ a out. copied.others a (ground (arith, size));
      }

  -- What holds after the loop over the modules from number `i` on.
  pub record After (i : ℕ) (ms : List (List ℕ)) (mem mem' : Memory) : Type 0 where
    pub placed : Placed targets i ms mem'
    pub others : (a : ℕ) → Away targets i ms a 1 → mem' a ≡ mem a

  -- The first module's place is left alone by the loading of the others.
  still :
      (i : ℕ) (m : List ℕ) (ms : List (List ℕ)) (mem mem' : Memory)
      → Holds (targets i) m mem
      → Away targets (i + 1) ms (targets i) (length m)
      → After (i + 1) ms mem mem'
      → Holds (targets i) m mem'
  still i m ms mem mem' h away after j lt =
      after.others (targets i + j) (
        Away-part ms (i + 1) (targets i) (length m) (targets i + j) 1 away (omega arith)
          (omega arith))
      ∙ h j lt

  pub load_from-After :
      (ms : List (List ℕ)) (i current : ℕ) (mem : Memory)
      → Small ms
      → Holds current (body ms) mem
      → Away targets i ms current (length (body ms))
      → Distinct targets i ms
      → After i ms mem (load_from (length ms) i targets current mem)
  unfolding load_from body uint32_bytes
  load_from-After [] i current mem small h away distinct = record {
    placed = tt;
    others = λ a out. refl;
  }
  load_from-After (m ∷ ms) i current mem small h away distinct =
      let total : length (body (m ∷ ms)) ≡ 4 + length m + length (body ms) =
        omega (arith, length-append m (body ms)) in
      let one = load_one i m (body ms) current mem small.0 h (ground arith) in
      let (next, mem') = load_module current (targets i) mem in
      let after : After (i + 1) ms mem' (load_from (length ms) (i + 1) targets next mem') =
        load_from-After ms (i + 1) next mem' small.1
          (subst (λ (c : ℕ). Holds c (body ms) mem') (sym one.next) one.behind)
          (Away-part ms (i + 1) current (length (body (m ∷ ms))) next (length (body ms)) away.1
            (omega (arith, one.next)) (omega (arith, one.next)))
          distinct.1 in
      record {
        placed = (still i m ms mem' _ one.here distinct.0 after, after.placed);
        others = λ a out. after.others a out.1 ∙ one.others a out.0;
      }

-- An image from the packer stands in memory. If the places of the modules have no byte in common with each other or
-- with what stands behind the kernel, then loadModules puts each module whole at its place, and all other memory is
-- as it was.
pub load_packed :
    (fs : FileSystem) (kernel : FileName) (modules : List FileName) (output_file : FileName)
    (image : List ℕ) (targets : ℕ → ℕ) (base : ℕ) (mem : Memory)
    → build_image fs (kernel ∷ modules) output_file ≡ some image
    → Holds base image mem
    → length modules < 2 ^ 32
    → Small (map (content fs) modules)
    → Away targets 0
        (map (content fs) modules)
        (base + length (content fs kernel))
        (length image - length (content fs kernel))
    → Distinct targets 0 (map (content fs) modules)
    → After targets 0
        (map (content fs) modules)
        mem
        (load_modules (base + length (content fs kernel)) targets mem)
unfolding load_modules read_uint32
load_packed fs kernel modules output_file image targets base mem built h few small away distinct =
    let start = base + length (content fs kernel) in
    let ms = map (content fs) modules in
    let count = uint32_bytes (length modules) in
    let whole : image ≡ content fs kernel ++ (count ++ body ms) =
      built_image fs kernel modules output_file image built in
    let payload : Holds start (count ++ body ms) mem =
      Holds-right base (content fs kernel) (count ++ body ms) mem
        (subst (λ (b : List ℕ). Holds base b mem) whole h) in
    let size : length image ≡ length (content fs kernel) + (4 + length (body ms)) =
      ap length whole ∙ length_image (content fs kernel) modules (body ms) in
    let n : (read_uint32 start mem).0 ≡ length ms =
      read_uint32-Holds start (length modules) mem few
        (Holds-left start count (body ms) mem payload)
      ∙ sym (length-map (content fs) modules) in
    let loaded =
      load_from-After targets ms 0 (start + 4) mem small
        (Holds-behind start (length modules) (body ms) mem payload)
        (Away-part targets ms 0 start (length image - length (content fs kernel)) (start + 4)
          (length (body ms)) away (omega arith) (omega (arith, size)))
        distinct in
    subst (λ (k : ℕ). After targets 0 ms mem (load_from k 0 targets (start + 4) mem)) (sym n) loaded
