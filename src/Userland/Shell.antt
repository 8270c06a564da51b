-- ===== src/Userland/Shell.antt =====
-- The shell (Userland/SampleCodeModule/shell.c): how a line is read and split, and what each command
-- does. What the commands ask of the rest of user space is a parameter, the record `System`; `S` is
-- the state behind it. NULL is `none`.
pub mod Parse
pub mod Pipe
use horaci_os.Prelude.{
  ℕ, zero, suc, ◌+◌, ◌-◌, ◌*◌, ◌%◌, ◌^◌, List, [], ◌∷◌, ◌++◌, Option, none, some, Bool, true, false,
  not, ◌&&◌, ◌||◌, ◌==◌, ltb, if◌then◌else◌, take, drop, replicate, get_or, length,
}
use horaci_os.Strings.{strcmp}
use horaci_os.Userland.{codes}
use horaci_os.Userland.Stdlib.{to_string, is_number, my_atoi, reverse}

-- BUFFER_SIZE and BACKSPACE.
abbrev pub line_size : ℕ
line_size = 255

abbrev pub backspace : ℕ
backspace = 14

-- The functions that the shell runs as processes.
pub data Program : Type 0 where
  help watch digital_clock print_memory_bitmap mailbox_test mutex_test list_all_processes : Program
  scheduler_test sleep_for_10_secs tell_poem_test vowel_reader_test pipe_test : Program

-- What the shell calls: `run` of a name and an entry point with the flag for the background, the
-- input and the output (no arguments, no place for the pid, priority 0), `myPrintf` of a format and
-- its strings, and the other functions by their names.
pub record System (S : Type 0) : Type 0 where
  pub run : List ℕ → Program → ℕ → Option ℕ → Option ℕ → S → S
  pub my_printf : List ℕ → List (List ℕ) → S → S
  pub create_mailbox : List ℕ → S → Option ℕ × S
  pub destroy_mailbox : Option ℕ → S → S
  pub user_malloc : ℕ → S → S
  pub user_free : ℕ → S → S
  pub kill : ℕ → S → S
  pub nice : ℕ → ℕ → S → S
  pub prodcons_restaurant : S → S
  pub prepare_table : S → S
  pub my_putchar : ℕ → S → S
  -- Writes a space over the character of the line at an index, and goes back to it.
  pub erase : ℕ → S → S

-- `strcmp(s, name) == 0`.
abbrev pub is_command : List ℕ → List ℕ → Bool
is_command s name = strcmp s name == 0

abbrev pub help_command : List ℕ
help_command = codes "help"

abbrev pub clock_command : List ℕ
clock_command = codes "clock"

abbrev pub digital_clock_command : List ℕ
digital_clock_command = codes "digitalclock"

abbrev pub mem_check : List ℕ
mem_check = codes "memcheck"

abbrev pub mutex_test_command : List ℕ
mutex_test_command = codes "mutex_test"

abbrev pub mailbox_test_command : List ℕ
mailbox_test_command = codes "mailbox_test"

abbrev pub prodcons_sem : List ℕ
prodcons_sem = codes "prodcons"

abbrev pub ps : List ℕ
ps = codes "ps"

abbrev pub scheduler_test_command : List ℕ
scheduler_test_command = codes "scheduler_test"

abbrev pub dummy : List ℕ
dummy = codes "dummy"

abbrev pub tell_poem : List ℕ
tell_poem = codes "poem"

abbrev pub filter_vowels : List ℕ
filter_vowels = codes "filter_vowels"

abbrev pub pipe_test_command : List ℕ
pipe_test_command = codes "pipe_test"

abbrev pub philosophers : List ℕ
philosophers = codes "philosophers"

abbrev pub needs_input : List ℕ
needs_input = codes "This process requires user input and can not run on background\n"

-- `is_output_command` and `is_input_command`.
unfoldable pub is_output_command : List ℕ → Bool
is_output_command s =
    is_command s clock_command
    || is_command s help_command
    || is_command s mem_check
    || is_command s mutex_test_command
    || is_command s mailbox_test_command
    || is_command s ps
    || is_command s scheduler_test_command
    || is_command s dummy
    || is_command s tell_poem

unfoldable pub is_input_command : List ℕ → Bool
is_input_command s = is_command s digital_clock_command || is_command s filter_vowels

-- The name of the mailbox of a pipe: `stack` is what was in the 20 bytes that `toString` writes.
unfoldable pub pipe_name : ℕ → List ℕ → List ℕ
pipe_name pipe_counter stack = codes "pipe" ++ take 20 (to_string pipe_counter stack)

module _ {S : Type 0} ⦃k : System S⦄ where
  unfoldable pub invalid_command : List ℕ → S → S
  invalid_command s w =
      k.my_printf (codes "%s: command not found or lacking arguments\n") (s ∷ []) w

  unfoldable pub no_argument : S → S
  no_argument w = k.my_printf (codes "You have not inserted an argument for that command\n") [] w

  unfoldable pub invalid_argument : List ℕ → List ℕ → S → S
  invalid_argument command target w =
      k.my_printf (codes "%s is not a valid argument for command %s\n") (target ∷ command ∷ []) w

  unfoldable pub standard_command_handler : List ℕ → ℕ → Option ℕ → Option ℕ → S → S
  standard_command_handler s background_flag input output w =
      let run : List ℕ → Program → S =
        λ name program. k.run name program background_flag input output w in
      let foreground : S → S =
        λ t. if background_flag == 1 then k.my_printf needs_input [] w else t in
      if is_command s help_command
      then run (codes "help") help
      else if is_command s clock_command
      then run (codes "watch") watch
      else if is_command s digital_clock_command
      then foreground (run (codes "digitalclock") digital_clock)
      else if is_command s mem_check
      then run (codes "printMemoryBitmap") print_memory_bitmap
      else if is_command s mailbox_test_command
      then run (codes "mailbox_test") mailbox_test
      else if is_command s mutex_test_command
      then run (codes "mutex_test") mutex_test
      else if is_command s prodcons_sem
      then foreground (k.prodcons_restaurant w)
      else if is_command s ps
      then run (codes "ps") list_all_processes
      else if is_command s scheduler_test_command
      then run (codes "scheduler_test") scheduler_test
      else if is_command s dummy
      then run (codes "dummy") sleep_for_10_secs
      else if is_command s tell_poem
      then run (codes "poem") tell_poem_test
      else if is_command s filter_vowels
      then run (codes "filter_vowels") vowel_reader_test
      else if is_command s pipe_test_command
      then run (codes "pipe_test") pipe_test
      else if is_command s philosophers
      then foreground (k.prepare_table w)
      else invalid_command s w

  -- Both commands run with the mailbox between them. The number of pipes so far is returned.
  unfoldable pub pipe_command_handler : List ℕ → List ℕ → List ℕ → ℕ → S → ℕ × S
  pipe_command_handler stack app target pipe_counter w =
      let (mailbox, w₁) = k.create_mailbox (pipe_name pipe_counter stack) w in
      let w₂ = standard_command_handler app 1 none mailbox w₁ in
      let w₃ = standard_command_handler target 0 mailbox none (k.my_printf (codes "\n") [] w₂) in
      if not (is_output_command app)
      then (
        pipe_counter,
        k.my_printf
            (codes
              "Left process is not allowed for use with pipes. Please replace it with a command that only outputs to the screen in shell")
            [] w,
      )
      else if not (is_input_command target)
      then (
        pipe_counter,
        k.my_printf
            (codes
              "Right process is not allowed for use with pipes. Please replace it with a command that only outputs to the screen in shell")
            [] w,
      )
      else (pipe_counter + 1, k.destroy_mailbox mailbox w₃)

  unfoldable pub background_command_handler : List ℕ → S → S
  background_command_handler s w = standard_command_handler s 1 none none w

  unfoldable pub argument_command_handler : List ℕ → List ℕ → List ℕ → S → S
  argument_command_handler command target arg w =
      let number : S → S = λ t. if is_number target then t else invalid_argument command target w in
      if is_command command (codes "malloc")
      then number (k.user_malloc (my_atoi target) w)
      else if is_command command (codes "free")
      then number (k.user_free (my_atoi target) w)
      else if is_command command (codes "kill")
      then number (k.kill (my_atoi target) w)
      else if is_command command (codes "nice")
      then (if not (get_or arg 0 0 == 0) && is_number target && is_number arg
          then k.nice (my_atoi target) (my_atoi arg) w
          else no_argument w)
      else invalid_command command w

-- The loops of `interprete` that copy a word, up to a space or the end: the word, and what is left.
unfoldable pub split_word : List ℕ → List ℕ × List ℕ
split_word [] = ([], [])
split_word (c ∷ s) =
    let (word, rest) = split_word s in if c == 32 || c == 0 then ([], c ∷ s) else (c ∷ word, rest)

-- The loops that copy all that is left.
unfoldable pub copy_rest : List ℕ → List ℕ
copy_rest [] = []
copy_rest (c ∷ s) = let rest = copy_rest s in if c == 0 then [] else c ∷ rest

-- What `interprete` makes of a line.
pub data Line : Type 0 where
  standard : List ℕ → Line
  pipe : List ℕ → List ℕ → Line
  background : List ℕ → Line
  argument : List ℕ → List ℕ → List ℕ → Line
  lacking : Line

-- The character at the front, 0 at the end.
abbrev pub front : List ℕ → ℕ
front s = get_or s 0 0

unfoldable pub parse : List ℕ → Line
parse string =
    let (command, rest) = split_word string in
    let after = drop 1 rest in
    let (target, more) = split_word after in
    if not (front rest == 32)
    then standard command
    else if front after == 47 && front (drop 1 after) == 32
    then pipe command (copy_rest (drop 2 after))
    else if front after == 38 && front (drop 1 after) == 0
    then background command
    else if front after == 0
    then lacking
    else argument command target (if front more == 32 then copy_rest (drop 1 more) else [])

module _ {S : Type 0} ⦃k : System S⦄ where
  -- `interprete`: the handler that a line goes to.
  unfoldable pub interprete : List ℕ → List ℕ → ℕ → S → ℕ × S
  interprete stack string pipe_counter w = elim (parse string) [
    | standard command ↦ (pipe_counter, standard_command_handler command 0 none none w)
    | pipe command target ↦ pipe_command_handler stack command target pipe_counter w
    | background command ↦ (pipe_counter, background_command_handler command w)
    | argument command target arg ↦ (pipe_counter, argument_command_handler command target arg w)
    | lacking ↦ (pipe_counter, no_argument w)
  ]

  -- The loop of `shell` that reads a line, over the characters that `myGetChar` gives: the line, its
  -- last character first, and the characters that are left, `none` when there was no end of the line.
  unfoldable pub read_line : List ℕ → List ℕ → S → Option (List ℕ × List ℕ × S)
  read_line [] line w = none
  read_line (c ∷ keys) line w =
      let less = read_line keys (drop 1 line) (k.erase (length line - 1) w) in
      let more = read_line keys (c ∷ line) (k.my_putchar c w) in
      let same = read_line keys line w in
      if c == 10 || not (ltb (length line) line_size)
      then some (line, keys, w)
      else if c == backspace
      then (if length line == 0 then same else less)
      else if c == 0
      then same
      else more

  -- A turn of the loop of `shell`: the prompt, a line, and what it asks for.
  unfoldable pub shell_turn : List ℕ → List ℕ → ℕ → S → Option (ℕ × S × List ℕ)
  shell_turn stack keys pipe_counter w =
      elim (read_line keys [] (k.my_printf (codes "%s$: ") (codes "user" ∷ []) w)) [
        | none ↦ none
        | some (line, keys', w₁) ↦
            let (n, w₂) = interprete stack (reverse line) pipe_counter (k.my_putchar 10 w₁) in
            some (n, w₂, keys')
      ]
