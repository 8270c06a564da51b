-- ===== src/Userland/Stdlib/Format.antt =====
-- Formatted output and input: `myPrintf` and `myPrintfBig` of Userland/SampleCodeModule/stdlib.c, and `myScanf` of
-- myScanf.c there. What is printed is the list of its bytes; `none` is a read of an argument that is not there, or of
-- another type. The buffer of `myScanf` is the text that the system call has read. A format does not end in a single
-- '%'.
pub mod Template
pub mod Scan
use horaci_os.Prelude.{
  ℕ, zero, suc, ◌+◌, ◌-◌, ◌*◌, ◌%◌, ◌^◌, List, [], ◌∷◌, ◌++◌, Option, none, some, Bool, true, false,
  ◌&&◌, ◌==◌, leb, if◌then◌else◌, drop, length, replicate,
}
use horaci_os.Userland.Stdlib.{to_string}

-- BUFFER_SIZE.
unfoldable pub resp_size : ℕ
resp_size = 60

pub data Arg : Type 0 where
  int char : ℕ → Arg
  str : List ℕ → Arg

-- What stands before the terminator.
unfoldable pub until_zero : List ℕ → List ℕ
until_zero [] = []
until_zero (c ∷ s) = if c == 0 then [] else c ∷ until_zero s

-- The state of the loop besides the format: the arguments that are left, and `index` and `resp`.
pub record Rest : Type 0 where
  pub args : List Arg
  pub index : ℕ
  pub resp : List ℕ

-- `toString(va_arg(ap, int), resp)` and the loop after it. `index` goes on from where it was.
unfoldable pub put_number : List Arg → ℕ → List ℕ → Option (List ℕ × Rest)
put_number (int n ∷ args) index resp =
    let resp' = to_string n resp in
    let out = until_zero (drop index resp') in
    some (out, record { args = args; index = index + length out; resp = resp' })
put_number args index resp = none

unfoldable pub put_char : List Arg → ℕ → List ℕ → Option (List ℕ × Rest)
put_char (char c ∷ args) index resp =
    some ((c % 256) ∷ [], record { args = args; index = index; resp = resp })
put_char args index resp = none

-- `nested` prints a string as a format of its own.
unfoldable pub put_string :
    (List ℕ → Option (List ℕ)) → List Arg → ℕ → List ℕ → Option (List ℕ × Rest)
put_string nested (str s ∷ args) index resp = elim (nested s) [
  | none ↦ none
  | some out ↦ some (out, record { args = args; index = index; resp = resp })
]
put_string nested args index resp = none

-- The switch on the character after a '%'.
unfoldable pub escape : (List ℕ → Option (List ℕ)) → ℕ → Rest → Option (List ℕ × Rest)
escape nested c r =
    if c == 100
    then put_number r.args r.index r.resp
    else if c == 99
    then put_char r.args r.index r.resp
    else if c == 115
    then put_string nested r.args r.index r.resp
    else some (37 ∷ c ∷ [], r)

unfoldable pub printed : List ℕ → Option (List ℕ) → Option (List ℕ)
printed out none = none
printed out (some more) = some (out ++ more)

-- The loop, in the case NORMAL or ESP.
unfoldable pub print_from : (List ℕ → Option (List ℕ)) → List ℕ → Bool → Rest → Option (List ℕ)
print_from nested [] special r = some []
print_from nested (c ∷ format) false r =
    let in_special = print_from nested format true r in
    let rest = printed (c ∷ []) (print_from nested format false r) in
    if c == 37 then in_special else rest
print_from nested (c ∷ format) true r = elim (escape nested c r) [
  | none ↦ none
  | some (out, r') ↦ printed out (print_from nested format false r')
]

unfoldable pub start_rest : List Arg → List ℕ → Rest
start_rest args resp = record { args = args; index = 0; resp = resp }

-- A nested call has no arguments, so it makes no nested call itself. The buffer of `myPrintf` starts with zeros.
unfoldable pub my_printf : List ℕ → List Arg → Option (List ℕ)
my_printf format args =
    let zeros = replicate resp_size 0 in
    let plain = λ (s : List ℕ). print_from (λ t. none) s false (start_rest [] zeros) in
    print_from plain format false (start_rest args zeros)

-- `myPrintfBig` differs in how a character is drawn, and in that its buffer starts with what `resp` holds.
unfoldable pub my_printf_big : List ℕ → List ℕ → List Arg → Option (List ℕ)
my_printf_big resp format args =
    let plain = λ (s : List ℕ). print_from (λ t. none) s false (start_rest [] resp) in
    print_from plain format false (start_rest args resp)

unfoldable pub is_digit : ℕ → Bool
is_digit c = leb 48 c && leb c 57

-- The loop over the digits of a number: its value, and what is left of the buffer.
unfoldable pub scan_number : ℕ → List ℕ → ℕ × List ℕ
scan_number num [] = (num, [])
scan_number num (c ∷ s) =
    let rest = scan_number ((num * 10 + c + 2 ^ 32 - 48) % 2 ^ 32) s in
    if is_digit c then rest else (num, c ∷ s)

abbrev pub front : List ℕ → ℕ
front [] = 0
front (c ∷ s) = c

-- The loop of `myScanf`: how many values it has stored, and the values.
unfoldable pub scan_from : List ℕ → List ℕ → ℕ → List Arg → ℕ × List Arg
scan_from [] buffer cont stored = (cont, stored)
scan_from (c ∷ []) buffer cont stored = (cont, stored)
scan_from (c ∷ d ∷ format) buffer cont stored =
    let (num, left) = scan_number 0 buffer in
    let literal = scan_from (d ∷ format) (drop 1 buffer) cont stored in
    let percent = scan_from format (drop 1 buffer) cont stored in
    let number = scan_from format left (cont + 1) (stored ++ int num ∷ []) in
    let letter = scan_from format (drop 1 buffer) (cont + 1) (stored ++ char (front buffer) ∷ []) in
    let string = scan_from format [] (cont + 1) (stored ++ str buffer ∷ []) in
    let other = scan_from format buffer cont stored in
    if c == 37
    then (if d == 37
        then (if front buffer == 37 then percent else (cont, stored))
        else if d == 100
        then number
        else if d == 99
        then letter
        else if d == 115
        then string
        else other)
    else (if front buffer == c then literal else (cont, stored))

-- The buffer is at address 0, where the system call stores one character, `next`; `behind` is what stands
-- behind it in memory, from address 1 on.
unfoldable pub my_scanf : List ℕ → ℕ → List ℕ → ℕ × List Arg
my_scanf format next behind = scan_from format (next ∷ behind) 0 []
