-- ===== src/Streams.antt =====
-- Standard input and output (Kernel/read.c and Kernel/write.c): a process reads from the keyboard or
-- from its mailbox, and writes to the screen or to its mailbox. `S` is the state behind the kernel's
-- services.
pub mod Pipe
use horaci_os.Prelude.{ℕ, List, [], ◌∷◌, Option, none, some, ◌==◌, if◌then◌else◌, take, get_or}
use horaci_os.Services.{Services}
use horaci_os.ProcessTable.{Pcb, get_input, get_output}
use horaci_os.Keyboard.{Keyboard, get_first_in_buffer}
use horaci_os.MailboxDirectory.{Mailboxes, Reading, error, blocked, done, write_to, read_from}
use horaci_os.Console.{Console, background_color, new_line, new_big_line}
use horaci_os.Console.Text.{print, print_format, print_big_format}

pub record Machine (S : Type 0) : Type 0 where
  pub processes : List Pcb
  pub keyboard : Keyboard
  pub console : Console
  pub mailboxes : Mailboxes S

-- RED_COLOR, BLUE_COLOR, GREEN_COLOR, YELLOW_COLOR, WHITE_COLOR and BIG_FONT_SIZE.
abbrev pub red_color : ℕ
red_color = 16724736

abbrev pub blue_color : ℕ
blue_color = 3758288

abbrev pub green_color : ℕ
green_color = 10092288

abbrev pub yellow_color : ℕ
yellow_color = 16776960

abbrev pub white_color : ℕ
white_color = 16777215

abbrev pub big_font_size : ℕ
big_font_size = 15

-- What `write_handler` does on the screen; `cadena` is the copy of the buffer.
unfoldable pub write_screen : ℕ → List ℕ → Console → Console
write_screen fd cadena s =
    if fd == 0
    then print cadena s
    else if fd == 1
    then print_format cadena red_color background_color s
    else if fd == 2
    then new_line s
    else s

unfoldable pub big_handler : ℕ → List ℕ → ℕ → Console → Console
big_handler fd buffer strlen s =
    let print : ℕ → Console =
      λ color. print_big_format (take strlen buffer) color background_color big_font_size s in
    if fd == 0
    then new_big_line big_font_size s
    else if fd == 1
    then print white_color
    else if fd == 2
    then print red_color
    else if fd == 3
    then print blue_color
    else if fd == 4
    then print green_color
    else if fd == 5
    then print yellow_color
    else s

-- How far `read_buffer_handler` gets: the character that is read, or the process blocks. A read from a
-- mailbox that fails leaves the character undefined.
pub data Read (S : Type 0) : Type 0 where
  got : ℕ → Machine S → Read S
  waits : Machine S → Read S
  undefined : Machine S → Read S

module _ {S : Type 0} ⦃k : Services S⦄ where
  abbrev pub current : Machine S → ℕ
  current t = k.get_current_pid t.mailboxes.sys

  unfoldable pub write_handler : ℕ → List ℕ → ℕ → Machine S → Machine S
  write_handler fd buffer strlen t = elim (get_output t.processes (current t)) [
    | none ↦ record t { console = write_screen fd (take strlen buffer) t.console }
    | some p ↦ record t {
      mailboxes =
          (write_to (some p) (if fd == 2 then 10 ∷ [] else take strlen buffer) t.mailboxes).1;
    }
  ]

  unfoldable pub read_buffer_handler : Machine S → Read S
  read_buffer_handler t = elim (get_input t.processes (current t)) [
    | none ↦ (let (c, b) = get_first_in_buffer t.keyboard in got c (record t { keyboard = b }))
    | some p ↦ elim (read_from (some p) 1 t.mailboxes) [
      | error ↦ undefined t
      | blocked boxes ↦ waits (record t { mailboxes = boxes })
      | done dest boxes ↦ got (get_or dest 0 0) (record t { mailboxes = boxes })
    ]
  ]
