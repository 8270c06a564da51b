-- ===== src/Strings.antt =====
-- C strings (Kernel/strings.c). A `char*` is the list of the bytes at and after the pointer; the end
-- of the list stands for a terminating 0, and a 0 in the list ends the string before.
pub mod Laws
use horaci_os.Prelude.{ℕ, zero, suc, ◌+◌, ◌-◌, ◌%◌, ◌^◌, List, [], ◌∷◌, ◌==◌, ltb, if◌then◌else◌}

-- The bytes before the terminator.
unfoldable pub text : List ℕ → List ℕ
text [] = []
text (c ∷ s) = if c == 0 then [] else c ∷ text s

-- The loop of `strlen`, from index `i`.
unfoldable pub strlen_from : ℕ → List ℕ → ℕ
strlen_from i [] = i
strlen_from i (c ∷ s) = if c == 0 then i else strlen_from (i + 1) s

unfoldable pub strlen : List ℕ → ℕ
unfolding strlen_from
strlen s = strlen_from 0 s

-- `string1[i] < string2[i] ? -1 : 1`; `char` is signed.
unfoldable pub order : ℕ → ℕ → ℕ
order a b = if ltb ((a + 128) % 256) ((b + 128) % 256) then 2 ^ 32 - 1 else 1

unfoldable pub strcmp : List ℕ → List ℕ → ℕ
unfolding order
strcmp [] [] = 0
strcmp [] (b ∷ t) = if b == 0 then 0 else order 0 b
strcmp (a ∷ s) [] = if a == 0 then 0 else order a 0
strcmp (a ∷ s) (b ∷ t) =
    let rest = strcmp s t in if a == b then (if a == 0 then 0 else rest) else order a b

-- What `strncpy` leaves in `dest`: at most `n - 1` bytes, and a terminator.
unfoldable pub copy_bytes : ℕ → List ℕ → List ℕ
copy_bytes zero s = 0 ∷ []
copy_bytes (suc n) [] = 0 ∷ []
copy_bytes (suc n) (c ∷ s) = if c == 0 then 0 ∷ [] else c ∷ copy_bytes n s

unfoldable pub strncpy : List ℕ → ℕ → List ℕ
unfolding copy_bytes
strncpy src n = copy_bytes (n - 1) src
