-- ===== src/Userland/Stdlib/Format/Template.antt =====
-- Formats made of characters, numbers and letters: what `myPrintf` makes of them, and that `myScanf` reads it back.
use horaci_os.Prelude.{
  ℕ, zero, suc, ◌+◌, ◌%◌, ◌^◌, ◌<◌, ◌≡◌, ◌≢◌, refl, ap, List, [], ◌∷◌, ◌++◌, Option, some, false,
  ◌==◌, if◌then◌else◌, length, replicate, All, arith,
}
use horaci_os.Userland.Stdlib.{to_string, reverse, take_digits, atoi_from}
use horaci_os.Userland.Stdlib.Decimal.{IsDigit, Reads, digits-Reads}
use horaci_os.Userland.Stdlib.Format.{
  Arg, int, char, until_zero, put_number, put_char, escape, printed, print_from, start_rest,
  my_printf, resp_size,
}

pub data Piece : Type 0 where
  literal number letter : ℕ → Piece

-- The format, the arguments that it takes, and the text that is meant.
unfoldable pub template : List Piece → List ℕ
template [] = []
template (literal c ∷ ps) = c ∷ template ps
template (number n ∷ ps) = 37 ∷ 100 ∷ template ps
template (letter c ∷ ps) = 37 ∷ 99 ∷ template ps

unfoldable pub values : List Piece → List Arg
values [] = []
values (literal c ∷ ps) = values ps
values (number n ∷ ps) = int n ∷ values ps
values (letter c ∷ ps) = char c ∷ values ps

unfoldable pub decimal : ℕ → List ℕ
decimal n = if n == 0 then 48 ∷ [] else reverse (take_digits 10 n)

unfoldable pub meant : List Piece → List ℕ
meant [] = []
meant (literal c ∷ ps) = c ∷ meant ps
meant (number n ∷ ps) = decimal n ++ meant ps
meant (letter c ∷ ps) = c ∷ meant ps

-- No '%' among the characters; numbers are not negative, and letters are bytes.
abbrev pub IsPiece : Piece → Type 0
IsPiece (literal c) = c ≢ 37
IsPiece (number n) = n < 2 ^ 31
IsPiece (letter c) = c < 256

abbrev pub IsPlain : Piece → Type 0
IsPlain (number n) = ⊥
IsPlain p = Unit {0}

-- At most one number.
abbrev pub OneNumber : List Piece → Type 0
OneNumber [] = Unit {0}
OneNumber (number n ∷ ps) = All IsPlain ps
OneNumber (p ∷ ps) = OneNumber ps

pub digits_ok : (n : ℕ) → n < 2 ^ 31 → Reads n (decimal n)
unfolding decimal atoi_from
digits_ok zero lt = (((omega arith, omega arith), tt), refl)
digits_ok (suc n) lt =
    let t : (suc n == 0) ≡ false = ground arith in rw t (digits-Reads 10 (suc n) (omega arith) lt)

until_zero-digits : (s t : List ℕ) → All IsDigit s → until_zero (s ++ 0 ∷ t) ≡ s
unfolding until_zero
until_zero-digits [] t h = refl
until_zero-digits (c ∷ s) t h = let (lo, hi) = h.0 in ground (arith, until_zero-digits s t h.1)

-- What toString leaves in a buffer of zeros.
number_lem : (n : ℕ) → n < 2 ^ 31 → until_zero (to_string n (replicate resp_size 0)) ≡ decimal n
unfolding to_string decimal resp_size until_zero
number_lem zero lt = refl
number_lem (suc n) lt =
    let t : (suc n == 0) ≡ false = ground arith in
    let digits = reverse (take_digits 10 (suc n)) in
    rw t (until_zero-digits digits _ (digits-Reads 10 (suc n) (omega arith) lt).0)

-- Without a number the state of the buffer does not matter.
plain_lem :
    (nested : List ℕ → Option (List ℕ)) (ps : List Piece) (index : ℕ) (resp : List ℕ)
    → All IsPlain ps
    → All IsPiece ps
    → print_from nested
        (template ps)
        false
        (record { args = values ps; index = index; resp = resp })
      ≡ some (meant ps)
unfolding print_from template values meant escape put_char printed
plain_lem nested [] index resp h k = refl
plain_lem nested (literal c ∷ ps) index resp h k =
    let t : (c == 37) ≡ false = (let ne = k.0 in ground arith) in
    rw t (ap (printed (c ∷ [])) (plain_lem nested ps index resp h.1 k.1))
plain_lem nested (number n ∷ ps) index resp h k = absurd h.0
plain_lem nested (letter c ∷ ps) index resp h k =
    let t : c % 256 ≡ c = omega (arith, k.0) in
    rw t (ap (printed (c ∷ [])) (plain_lem nested ps index resp h.1 k.1))

one_lem :
    (nested : List ℕ → Option (List ℕ)) (ps : List Piece)
    → OneNumber ps
    → All IsPiece ps
    → print_from nested (template ps) false (start_rest (values ps) (replicate resp_size 0))
      ≡ some (meant ps)
unfolding print_from template values meant escape put_char put_number printed start_rest
one_lem nested [] h k = refl
one_lem nested (literal c ∷ ps) h k =
    let t : (c == 37) ≡ false = (let ne = k.0 in ground arith) in
    rw t (ap (printed (c ∷ [])) (one_lem nested ps h k.1))
one_lem nested (number n ∷ ps) h k =
    let zeros = replicate resp_size 0 in
    let e = number_lem n k.0 in
    rw e (
      ap (printed (decimal n))
        (plain_lem nested ps (0 + length (decimal n)) (to_string n zeros) h k.1))
one_lem nested (letter c ∷ ps) h k =
    let t : c % 256 ≡ c = omega (arith, k.0) in
    rw t (ap (printed (c ∷ [])) (one_lem nested ps h k.1))

-- A format without '%%' and '%s' that holds at most one number, with the arguments that it takes: myPrintf prints
-- what is meant.
pub my_printf_lem :
    (ps : List Piece)
    → OneNumber ps
    → All IsPiece ps
    → my_printf (template ps) (values ps) ≡ some (meant ps)
unfolding my_printf
my_printf_lem ps h k = one_lem _ ps h k
