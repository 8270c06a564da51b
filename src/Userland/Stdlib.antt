-- ===== src/Userland/Stdlib.antt =====
-- The numbers and the formatted output of Userland/SampleCodeModule/stdlib.c. Strings are lists of bytes
-- as in the kernel's, and an `int` is a 32-bit pattern.
pub mod Decimal
pub mod Format
use horaci_os.Prelude.{
  ℕ, zero, suc, ◌+◌, ◌-◌, ◌*◌, ◌/◌, ◌%◌, ◌^◌, List, [], ◌∷◌, ◌++◌, Bool, true, false, ◌||◌, ◌==◌,
  ltb, if◌then◌else◌, drop, length,
}

-- The first loop of `toString`, on fuel, for a number that is not negative: the digits, the last one first.
unfoldable pub take_digits : ℕ → ℕ → List ℕ
take_digits zero num = []
take_digits (suc fuel) num =
    let rest = take_digits fuel (num / 10) in if num == 0 then [] else (num % 10 + 48) ∷ rest

-- The second loop exchanges the digits from both ends.
unfoldable pub reverse : List ℕ → List ℕ
reverse [] = []
reverse (c ∷ s) = reverse s ++ c ∷ []

-- What `toString` leaves in the buffer `resp`. An `int` has no more than ten digits. The digit of 0 gets
-- no terminator.
unfoldable pub to_string : ℕ → List ℕ → List ℕ
to_string num resp =
    let digits = reverse (take_digits 10 num) in
    if num == 0 then 48 ∷ drop 1 resp else digits ++ 0 ∷ drop (length digits + 1) resp

unfoldable pub is_number : List ℕ → Bool
is_number [] = true
is_number (c ∷ s) =
    let rest = is_number s in if c == 0 then true else if ltb c 48 || ltb 57 c then false else rest

-- The loop of `myAtoi`, with the value so far.
unfoldable pub atoi_from : ℕ → List ℕ → ℕ
atoi_from k [] = k
atoi_from k (c ∷ s) =
    let rest = atoi_from ((k * 8 + k * 2 + c + 2 ^ 32 - 48) % 2 ^ 32) s in
    if c == 0 then k else rest

unfoldable pub my_atoi : List ℕ → ℕ
my_atoi s = atoi_from 0 s
