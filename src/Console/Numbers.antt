-- ===== src/Console/Numbers.antt =====
-- Numbers on the screen: `uintToBase` and the functions that print by it (Kernel/naiveConsole.c).
use horaci_os.Prelude.{
  ℕ, zero, suc, ◌+◌, ◌-◌, ◌*◌, ◌/◌, ◌%◌, ◌^◌, ◌<◌, ◌≤◌, ◌≡◌, refl, ◌∙◌, ap, ◌≢◌, false, List, [],
  ◌∷◌, ◌++◌, ◌==◌, ltb, if◌then◌else◌, arith, length, length-append,
}
use native.Mathlib.Decide.{ℕ_discrete}
use native.Mathlib.Nat.{mul-le-mul_right, div-lt_iff_lt-mul, div-add-mod'}
use horaci_os.Console.{Console}
use horaci_os.Console.Text.{print}

abbrev pub digit : ℕ → ℕ
digit r = if ltb r 10 then r + 48 else r + 65 - 10

-- What is in the buffer after `uintToBase`, without the terminator: each round takes the last digit, and
-- the reversal puts it behind those of the rounds after. On fuel.
unfoldable pub digits_from : ℕ → ℕ → ℕ → List ℕ
digits_from zero value base = []
digits_from (suc fuel) value base =
    let rest = digits_from fuel (value / base) base in
    if value / base == 0 then digit (value % base) ∷ [] else (rest ++ (digit (value % base) ∷ []))

-- A value below `2 ^ 64` has no more than 64 digits.
unfoldable pub uint_to_base : ℕ → ℕ → List ℕ
uint_to_base value base = digits_from 64 value base

unfoldable pub print_base : ℕ → ℕ → Console → Console
print_base value base s = print (uint_to_base value base) s

unfoldable pub print_dec : ℕ → Console → Console
print_dec value s = print_base value 10 s

unfoldable pub print_hex : ℕ → Console → Console
print_hex value s = print_base value 16 s

unfoldable pub print_bin : ℕ → Console → Console
print_bin value s = print_base value 2 s

-- The value that a digit stands for, and that of a string of digits.
unfoldable pub digit_value : ℕ → ℕ
digit_value c = if ltb c 58 then c - 48 else c - 55

unfoldable pub value_from : ℕ → ℕ → List ℕ → ℕ
value_from base acc [] = acc
value_from base acc (c ∷ text) = value_from base (acc * base + digit_value c) text

value-digit : (r : ℕ) → digit_value (digit r) ≡ r
unfolding digit_value
value-digit r = ground arith

value-snoc :
    (base acc : ℕ) (text : List ℕ) (c : ℕ)
    → value_from base acc (text ++ c ∷ []) ≡ value_from base acc text * base + digit_value c
unfolding value_from
value-snoc base acc [] c = refl
value-snoc base acc (d ∷ text) c = value-snoc base (acc * base + digit_value d) text c

digits_last : (fuel v b : ℕ) → v / b ≡ 0 → digits_from (suc fuel) v b ≡ digit (v % b) ∷ []
unfolding digits_from
digits_last fuel v b e = rw e refl

digits_more :
    (fuel v b : ℕ)
    → v / b ≢ 0
    → digits_from (suc fuel) v b ≡ digits_from fuel (v / b) b ++ digit (v % b) ∷ []
unfolding digits_from
digits_more fuel v b ne = let e : ((v / b) == 0) ≡ false = ground arith in rw e refl

-- A digit less brings the value down by the base at least.
quotient-lt : (n m v b : ℕ) → n ≤ b → 0 < n → v < n * m → v / b < m
quotient-lt n m v b le pos lt =
    let h = mul-le-mul_right {m = n} {n = b} m le in
    (div-lt_iff_lt-mul {k = b} {x = v} {y = m} (omega arith)).1 (grind arith)

value_last : (fuel v b : ℕ) → v / b ≡ 0 → value_from b 0 (digits_from (suc fuel) v b) ≡ v
unfolding value_from
value_last fuel v b e =
    let d = div-add-mod' v b in
    let none_before : v / b * b ≡ 0 = ap (λ (k : ℕ). k * b) e ∙ omega arith in
    rw (digits_last fuel v b e, value-digit (v % b)) (omega arith)

value-digits_from :
    (fuel v b : ℕ) → 2 ≤ b → v < 2 ^ suc fuel → value_from b 0 (digits_from (suc fuel) v b) ≡ v
value-digits_from zero v b two lt =
    let h = quotient-lt 2 1 v b two (omega arith) (omega arith) in value_last zero v b (omega arith)
value-digits_from (suc fuel) v b two lt = elim (ℕ_discrete (v / b) 0) [
  | yes e ↦ value_last (suc fuel) v b e
  | no ne ↦
      let ih =
        value-digits_from fuel (v / b) b two
          (quotient-lt 2 (2 ^ suc fuel) v b two (omega arith) (omega arith)) in
      rw
        (
          digits_more (suc fuel) v b ne,
          value-snoc b 0 (digits_from (suc fuel) (v / b) b) (digit (v % b)),
          ih,
          value-digit (v % b),
        )
        (div-add-mod' v b)
]

-- What uintToBase writes for a 64-bit value, in any base that digits and letters can write, reads as the
-- value again: no digit is lost, and they are in the right order.
pub uint_to_base_lem :
    (value base : ℕ)
    → value < 2 ^ 64
    → 2 ≤ base
    → base ≤ 36
    → value_from base 0 (uint_to_base value base) ≡ value
unfolding uint_to_base
uint_to_base_lem value base lt two le = value-digits_from 63 value base two lt

longer :
    (fuel k v b : ℕ)
    → 4 ≤ b
    → v < 4 ^ suc k
    → v / b ≢ 0
    → ((k' : ℕ) → v / b < 4 ^ suc k' → length (digits_from fuel (v / b) b) ≤ suc k')
    → length (digits_from (suc fuel) v b) ≤ suc k
longer fuel zero v b four lt ne again =
    absurd (let h = quotient-lt 4 1 v b four (omega arith) (omega arith) in omega arith)
longer fuel (suc k) v b four lt ne again =
    let ih = again k (quotient-lt 4 (4 ^ suc k) v b four (omega arith) (omega arith)) in
    let l = length-append (digits_from fuel (v / b) b) (digit (v % b) ∷ []) in
    rw (digits_more fuel v b ne) (omega arith)

length-digits_from :
    (fuel k v b : ℕ) → 4 ≤ b → v < 4 ^ suc k → length (digits_from fuel v b) ≤ suc k
unfolding digits_from
length-digits_from zero k v b four lt = omega arith
length-digits_from (suc fuel) k v b four lt = elim (ℕ_discrete (v / b) 0) [
  | yes e ↦ rw (digits_last fuel v b e) (omega arith)
  | no ne ↦ longer fuel k v b four lt ne (λ k' lt'. length-digits_from fuel k' (v / b) b four lt')
]

-- In base 4 or more, decimal and hexadecimal among them, uintToBase writes at most 32 digits of a 64-bit
-- value, which fit into the 64 bytes of `buffer` with their terminator.
pub uint_to_base_fits :
    (value base : ℕ) → value < 2 ^ 64 → 4 ≤ base → length (uint_to_base value base) + 1 ≤ 64
unfolding uint_to_base
uint_to_base_fits value base lt four =
    let h = length-digits_from 64 31 value base four lt in omega arith
