-- ===== src/Strings/Laws.antt =====
-- What the string functions compute, in terms of the text of a string.
use horaci_os.Prelude.{
  ℕ, zero, suc, ◌+◌, ◌-◌, ◌≤◌, ◌<◌, ◌≡◌, refl, ◌≢◌, ◌↔◌, List, [], ◌∷◌, ◌++◌, length, take, arith,
}
use horaci_os.Strings.{text, strlen_from, strlen, order, strcmp, copy_bytes, strncpy}

strlen_from-length : (i : ℕ) (s : List ℕ) → strlen_from i s ≡ i + length (text s)
unfolding strlen_from text
strlen_from-length i [] = omega arith
strlen_from-length i (c ∷ s) = ground (arith, strlen_from-length (i + 1) s)

-- `strlen` counts the bytes before the terminator.
pub strlen-length : (s : List ℕ) → strlen s ≡ length (text s)
unfolding strlen
strlen-length s = omega (arith, strlen_from-length 0 s)

order-ne : (a b : ℕ) → order a b ≢ 0
unfolding order
order-ne a b = ground arith

pub strcmp_zero : (s t : List ℕ) → strcmp s t ≡ 0 → text s ≡ text t
unfolding strcmp text
strcmp_zero [] [] h = refl
strcmp_zero [] (b ∷ t) h = ground (arith, order-ne 0 b)
strcmp_zero (a ∷ s) [] h = ground (arith, order-ne a 0)
strcmp_zero (a ∷ s) (b ∷ t) h = ground (arith, order-ne a b, strcmp_zero s t)

pub strcmp_of_eq : (s t : List ℕ) → text s ≡ text t → strcmp s t ≡ 0
unfolding strcmp text
strcmp_of_eq [] [] h = refl
strcmp_of_eq [] (b ∷ t) h = ground arith
strcmp_of_eq (a ∷ s) [] h = ground arith
strcmp_of_eq (a ∷ s) (b ∷ t) h = ground (arith, strcmp_of_eq s t)

-- `strcmp` returns 0 exactly when the bytes before the terminators are the same.
pub strcmp_iff : (s t : List ℕ) → (strcmp s t ≡ 0) ↔ (text s ≡ text t)
strcmp_iff s t = (strcmp_zero s t, strcmp_of_eq s t)

-- A text has no terminator inside, so it is its own text, and so are its first bytes.
pub text-take : (n : ℕ) (s : List ℕ) → text (take n (text s)) ≡ take n (text s)
unfolding text
text-take zero s = refl
text-take (suc n) [] = refl
text-take (suc n) (c ∷ s) = ground (arith, text-take n s)

-- A copy holds the first bytes of the text, as many as fit before the terminator.
copy_bytes-text : (n : ℕ) (s : List ℕ) → copy_bytes n s ≡ take n (text s) ++ 0 ∷ []
unfolding copy_bytes text
copy_bytes-text zero s = refl
copy_bytes-text (suc n) [] = refl
copy_bytes-text (suc n) (c ∷ s) = ground (arith, copy_bytes-text n s)

-- `strncpy` leaves the first `n - 1` bytes of the text, or all if there are fewer, and a terminator.
pub strncpy_lem : (s : List ℕ) (n : ℕ) → strncpy s n ≡ take (n - 1) (text s) ++ 0 ∷ []
unfolding strncpy
strncpy_lem s n = copy_bytes-text (n - 1) s

length-copy_bytes : (n : ℕ) (s : List ℕ) → length (copy_bytes n s) ≤ n + 1
unfolding copy_bytes
length-copy_bytes zero s = omega arith
length-copy_bytes (suc n) [] = omega arith
length-copy_bytes (suc n) (c ∷ s) = ground (arith, length-copy_bytes n s)

-- A copy never writes more than `n` bytes.
pub length-strncpy : (s : List ℕ) (n : ℕ) → 0 < n → length (strncpy s n) ≤ n
unfolding strncpy
length-strncpy s n h = omega (arith, length-copy_bytes (n - 1) s)
