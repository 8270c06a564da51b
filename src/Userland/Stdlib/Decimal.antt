-- ===== src/Userland/Stdlib/Decimal.antt =====
-- Decimal numbers: what `toString` writes is a number that `myAtoi` reads back.
use native.Mathlib.Decide.{ℕ_discrete}
use horaci_os.Prelude.{
  ℕ, zero, suc, ◌+◌, ◌-◌, ◌*◌, ◌/◌, ◌%◌, ◌^◌, ◌<◌, ◌≤◌, ◌≡◌, ◌≢◌, refl, sym, ◌∙◌, ap, subst, List,
  [], ◌∷◌, ◌++◌, true, false, ◌==◌, arith, All,
}
use horaci_os.Userland.Stdlib.{take_digits, reverse, to_string, is_number, atoi_from, my_atoi}

-- A digit, '0' to '9'.
abbrev pub IsDigit : ℕ → Type 0
IsDigit c = (48 ≤ c) × (c ≤ 57)

-- A digit more at the end.
atoi_from-snoc :
    (k : ℕ) (s : List ℕ) (c : ℕ)
    → All IsDigit s
    → IsDigit c
    → atoi_from k (s ++ c ∷ []) ≡ (atoi_from k s * 10 + c + 2 ^ 32 - 48) % 2 ^ 32
unfolding atoi_from
atoi_from-snoc k [] c h d = let (a, b) = d in ground arith
atoi_from-snoc k (b ∷ s) c h d =
    let (lo, hi) = h.0 in
    let ih = atoi_from-snoc ((k * 8 + k * 2 + b + 2 ^ 32 - 48) % 2 ^ 32) s c h.1 d in
    ground (arith, ih)

-- Digits end at the terminator.
atoi_from-ends : (k : ℕ) (s t : List ℕ) → All IsDigit s → atoi_from k (s ++ 0 ∷ t) ≡ atoi_from k s
unfolding atoi_from
atoi_from-ends k [] t h = ground arith
atoi_from-ends k (c ∷ s) t h =
    let (lo, hi) = h.0 in
    let ih = atoi_from-ends ((k * 8 + k * 2 + c + 2 ^ 32 - 48) % 2 ^ 32) s t h.1 in
    ground (arith, ih)

is_number-ends : (s t : List ℕ) → All IsDigit s → is_number (s ++ 0 ∷ t) ≡ true
unfolding is_number
is_number-ends [] t h = ground arith
is_number-ends (c ∷ s) t h =
    let (lo, hi) = h.0 in let ih = is_number-ends s t h.1 in ground (arith, ih)

All-snoc : (s : List ℕ) (c : ℕ) → All IsDigit s → IsDigit c → All IsDigit (s ++ c ∷ [])
All-snoc [] c h d = (d, tt)
All-snoc (b ∷ s) c h d = (h.0, All-snoc s c h.1 d)

take_digits_none : (fuel : ℕ) → take_digits fuel 0 ≡ []
unfolding take_digits
take_digits_none zero = refl
take_digits_none (suc fuel) = refl

take_digits_step :
    (fuel num : ℕ)
    → num ≢ 0
    → take_digits (suc fuel) num ≡ (num % 10 + 48) ∷ take_digits fuel (num / 10)
unfolding take_digits
take_digits_step fuel num ne = ground arith

-- The digits are those of the number.
abbrev pub Reads : ℕ → List ℕ → Type 0
Reads num s = All IsDigit s × (atoi_from 0 s ≡ num)

snoc-Reads :
    (num : ℕ) (s : List ℕ)
    → num < 2 ^ 31
    → Reads (num / 10) s
    → Reads num (s ++ (num % 10 + 48) ∷ [])
snoc-Reads num s lt (h, e) =
    let d : IsDigit (num % 10 + 48) = (omega arith, omega arith) in
    (
      All-snoc s (num % 10 + 48) h d,
      atoi_from-snoc 0 s (num % 10 + 48) h d
          ∙ ap (λ (k : ℕ). (k * 10 + (num % 10 + 48) + 2 ^ 32 - 48) % 2 ^ 32) e
          ∙ omega arith,
    )

pub digits-Reads :
    (fuel num : ℕ) → num < 10 ^ fuel → num < 2 ^ 31 → Reads num (reverse (take_digits fuel num))
unfolding reverse atoi_from
digits-Reads zero num lt small =
    subst (λ (k : ℕ). Reads k (reverse (take_digits zero k))) {x = 0} (omega arith)
      (rw (take_digits_none zero) (tt, refl))
digits-Reads (suc fuel) num lt small = elim (ℕ_discrete num 0) [
  | yes e ↦
      subst (λ (k : ℕ). Reads k (reverse (take_digits (suc fuel) k))) (sym e)
        (rw (take_digits_none (suc fuel)) (tt, refl))
  | no ne ↦
      rw (take_digits_step fuel num ne)
        (snoc-Reads num _ small (digits-Reads fuel (num / 10) (omega arith) (omega arith)))
]

-- For an `int` that is not negative, and whatever the buffer held: what toString writes of a number
-- other than 0 passes isNumber, and myAtoi reads the number from it.
pub to_string_lem :
    (num : ℕ) (resp : List ℕ)
    → 0 < num
    → num < 2 ^ 31
    → (is_number (to_string num resp) ≡ true) × (my_atoi (to_string num resp) ≡ num)
unfolding to_string my_atoi
to_string_lem num resp pos lt =
    let (h, e) = digits-Reads 10 num (omega arith) lt in
    let digits = reverse (take_digits 10 num) in
    let t : (num == 0) ≡ false = ground arith in
    rw t (is_number-ends digits _ h, atoi_from-ends 0 digits _ h ∙ e)
