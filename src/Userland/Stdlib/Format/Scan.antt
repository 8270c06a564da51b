-- ===== src/Userland/Stdlib/Format/Scan.antt =====
-- What the loop of `myScanf` reads of a text that was printed by the same format.
use horaci_os.Prelude.{
  ℕ, ◌+◌, ◌-◌, ◌*◌, ◌%◌, ◌^◌, ◌≡◌, ◌≢◌, refl, sym, ◌∙◌, ap₂, List, [], ◌∷◌, ◌++◌, append_assoc,
  append-nil, some, true, false, ◌==◌, length, All, arith,
}
use horaci_os.Userland.Stdlib.{atoi_from}
use horaci_os.Userland.Stdlib.Decimal.{IsDigit}
use horaci_os.Userland.Stdlib.Format.{
  Arg, int, char, is_digit, scan_number, front, scan_from, my_printf,
}
use horaci_os.Userland.Stdlib.Format.Template.{
  Piece, literal, number, letter, template, values, meant, decimal, IsPiece, OneNumber, digits_ok,
  my_printf_lem,
}

-- What follows a number does not go on with a digit.
abbrev pub Stops : List Piece → Type 0
Stops [] = Unit {0}
Stops (literal c ∷ ps) = is_digit c ≡ false
Stops (number n ∷ ps) = ⊥
Stops (letter c ∷ ps) = is_digit c ≡ false

abbrev pub Parted : List Piece → Type 0
Parted [] = Unit {0}
Parted (number n ∷ ps) = Stops ps × Parted ps
Parted (p ∷ ps) = Parted ps

scan_number_lem :
    (num : ℕ) (s t : List ℕ)
    → All IsDigit s
    → is_digit (front t) ≡ false
    → scan_number num (s ++ t) ≡ (atoi_from num s, t)
unfolding scan_number atoi_from
scan_number_lem num [] [] h out = refl
scan_number_lem num [] (c ∷ t) h out = rw out refl
scan_number_lem num (c ∷ s) t h out =
    let (lo, hi) = h.0 in
    let at_digit : is_digit c ≡ true = (unfold is_digit in ground arith) in
    let not_end : (c == 0) ≡ false = ground arith in
    let same : (num * 10 + c + 2 ^ 32 - 48) % 2 ^ 32
        ≡ (num * 8 + num * 2 + c + 2 ^ 32 - 48) % 2 ^ 32 =
      omega arith in
    rw at_digit (
      rw not_end
        (rw same (scan_number_lem ((num * 8 + num * 2 + c + 2 ^ 32 - 48) % 2 ^ 32) s t h.1 out)))

-- A character of the format that stands in the text too is passed over.
literal_lem :
    (c : ℕ) (format buffer : List ℕ) (cont : ℕ) (stored : List Arg)
    → c ≢ 37
    → scan_from (c ∷ format) (c ∷ buffer) cont stored ≡ scan_from format buffer cont stored
unfolding scan_from
literal_lem c [] buffer cont stored ne = refl
literal_lem c (d ∷ format) buffer cont stored ne =
    let t : (c == 37) ≡ false = ground arith in
    let u : (c == c) ≡ true = ground arith in rw t (rw u refl)

Stops-front : (ps : List Piece) → Stops ps → is_digit (front (meant ps)) ≡ false
unfolding meant is_digit
Stops-front [] h = refl
Stops-front (literal c ∷ ps) h = h
Stops-front (number n ∷ ps) h = absurd h
Stops-front (letter c ∷ ps) h = h

stored_pair :
    {a b : ℕ} {xs ys : List Arg} → a ≡ b → xs ≡ ys → ◌≡◌ {A = ℕ × List Arg} (a, xs) (b, ys)
stored_pair e f = ap₂ (λ (i : ℕ) (zs : List Arg). (i, zs)) e f

scan_lem :
    (ps : List Piece) (cont : ℕ) (stored : List Arg)
    → Parted ps
    → All IsPiece ps
    → scan_from (template ps) (meant ps) cont stored
      ≡ (cont + length (values ps), stored ++ values ps)
unfolding template values meant scan_from
scan_lem [] cont stored h k = stored_pair (omega arith) (sym (append-nil stored))
scan_lem (literal c ∷ ps) cont stored h k =
    literal_lem c (template ps) (meant ps) cont stored k.0 ∙ scan_lem ps cont stored h k.1
scan_lem (number n ∷ ps) cont stored h k =
    let e = scan_number_lem 0 (decimal n) (meant ps) (digits_ok n k.0).0 (Stops-front ps h.0) in
    let v = (digits_ok n k.0).1 in
    rw e (
      rw v (
        scan_lem ps (cont + 1) (stored ++ int n ∷ []) h.1 k.1
        ∙ stored_pair (omega arith) (append_assoc stored (int n ∷ []) (values ps))))
scan_lem (letter c ∷ ps) cont stored h k =
    scan_lem ps (cont + 1) (stored ++ char c ∷ []) h k.1
    ∙ stored_pair (omega arith) (append_assoc stored (char c ∷ []) (values ps))

-- A format without '%%' and '%s' that holds at most one number, where no digit follows the number: myPrintf prints
-- what is meant with the arguments, and the loop of myScanf with the same format counts them and gets them back from a
-- buffer that holds that text. It says nothing of how a text comes into the buffer.
pub scan_from-my_printf :
    (ps : List Piece)
    → OneNumber ps
    → Parted ps
    → All IsPiece ps
    → (text : List ℕ) × (my_printf (template ps) (values ps) ≡ some text)
      × (scan_from (template ps) text 0 [] ≡ (length (values ps), values ps))
scan_from-my_printf ps one parted h =
    (meant ps, my_printf_lem ps one h, scan_lem ps 0 [] parted h ∙ stored_pair (omega arith) refl)
