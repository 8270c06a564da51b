-- ===== src/Tests/Commands.antt =====
-- The shell, system calls and a pipe, over small states.
use horaci_os.Prelude.{
  ℕ, ◌≤◌, ◌≡◌, refl, List, [], ◌∷◌, some, true, false, ◌==◌, if◌then◌else◌, take, arith,
}
use horaci_os.Strings.{strcmp, order, text, strlen, strlen_from}
use horaci_os.Userland.{codes}
use horaci_os.Userland.Shell.{
  System, Program, argument, parse, is_output_command, is_input_command, pipe_command_handler,
  pipe_name,
}
use horaci_os.Userland.Shell.Parse.{write, Writable, parse-write}
use horaci_os.Userland.Shell.Pipe.{word, process_name, pipe_lem}
use horaci_os.SystemCalls.{Handlers}
use horaci_os.SystemCalls.Library
use horaci_os.SystemCalls.Calls.{mailbox_calls, process_calls}
use horaci_os.ProcessTable.{zero_pcb, get_input, get_output, pcb_at}
use horaci_os.Directory
use horaci_os.Mailbox.{fresh, buffer_size}
use horaci_os.Mailbox.Stream.{fresh-Holds}
use horaci_os.Streams.{Machine, got, current, write_handler, read_buffer_handler}
use horaci_os.Streams.Pipe.{Carries, pipe_to_reader}
use horaci_os.Tests.Machine.{machine, runs}
use horaci_os.Tests.Machine

parse-write_example :
    parse (write (argument (codes "nice") (codes "7") (codes "3")))
    ≡ argument (codes "nice") (codes "7") (codes "3")
parse-write_example = parse-write (argument (codes "nice") (codes "7") (codes "3")) fine
  where
    fine : Writable (argument (codes "nice") (codes "7") (codes "3"))
    fine = (
      (
        (omega arith, omega arith),
        (
          (omega arith, omega arith),
          ((omega arith, omega arith), ((omega arith, omega arith), tt)),
        ),
      ),
      ((omega arith, omega arith), tt),
      (omega arith, tt),
      (λ h. cc),
      (λ h. cc),
      λ h. cc,
    )

-- The log of what is run and printed.
instance abbrev log : System (List (List ℕ))
log = record {
  run = λ name program flag input output s. name ∷ s;
  my_printf = λ format args s. format ∷ s;
  create_mailbox = λ name s. (some 4096, name ∷ s);
  destroy_mailbox = λ mailbox s. s;
  user_malloc = λ bytes s. s;
  user_free = λ address s. s;
  kill = λ pid s. s;
  nice = λ pid priority s. s;
  prodcons_restaurant = λ s. s;
  prepare_table = λ s. s;
  my_putchar = λ c s. s;
  erase = λ i s. s;
}

is_output : is_output_command (codes "help") ≡ true
unfolding is_output_command strcmp order
is_output = refl

is_input : is_input_command (codes "filter_vowels") ≡ true
unfolding is_input_command strcmp order
is_input = refl

pipe_lem_example :
    (writer reader : Program) × (text (codes "help") ≡ text (word writer))
    × (text (codes "filter_vowels") ≡ text (word reader))
    × (pipe_command_handler [] (codes "help") (codes "filter_vowels") 7 []
        ≡ (8, process_name reader ∷ codes "\n" ∷ process_name writer ∷ pipe_name 7 [] ∷ []))
pipe_lem_example = pipe_lem [] (codes "help") (codes "filter_vowels") 7 [] is_output is_input

-- A memory of words, and the numbers of the calls that were made.
record Words : Type 0 where
  words : ℕ → ℕ
  calls : List ℕ

abbrev write_word : ℕ → ℕ → Words → Words
write_word a v s = record s { words = λ (b : ℕ). if b == a then v else s.words b }

abbrev note : ℕ → Words → Words
note n s = record s { calls = n ∷ s.calls }

put_self : (a v : ℕ) (s : Words) → (write_word a v s).words a ≡ v
put_self a v s = ground arith

instance abbrev words_handlers : Handlers Words
words_handlers = record {
  load = λ a s. s.words a;
  store = write_word;
  load-store = put_self;
  putpixel = λ x y color s. s;
  clock_handler = λ a b c s. s;
  read_buffer_handler = λ a s. s;
  write_handler = λ fd a n s. s;
  speaker_handler = λ s. s;
  set_cursor = λ x y s. s;
  get_screen_width = λ s. 1024;
  get_screen_height = λ s. 768;
  get_char_width = λ s. 8;
  get_char_height = λ s. 16;
  get_cursor_x = λ s. 0;
  get_cursor_y = λ s. 0;
  big_handler = λ fd a n s. s;
  create_process = λ argv entry header s. (3, note 12 s);
  mark_process_as_finished = λ pid s. note 13 s;
  get_ready_processes = λ a n b s. s;
  change_priority = λ pid priority s. note 15 s;
  malloc = λ n s. (9192, note 9 s);
  free_handler = λ a s. note 10 s;
  print_hex = λ n s. s;
  print_bitmap = λ s. note 87 s;
  sem_create = λ name value s. (0, note 88 s);
  sem_destroy = λ a s. s;
  sem_wait = λ a s. s;
  sem_signal = λ a s. s;
  mutex_create = λ name s. (0, s);
  mutex_destroy = λ a s. s;
  mutex_lock = λ a s. s;
  mutex_unlock = λ a s. s;
  create_mailbox = λ name s. (7000, note 96 s);
  destroy_mailbox = λ a s. note 97 s;
  write_message = λ a msg s. (0, note 98 s);
  read_message = λ a n dest s. (0, note 99 s);
}

abbrev idle : Words
idle = record { words = λ (a : ℕ). 0; calls = [] }

mailbox_calls_example :
    (Library.create_mailbox 100 200 idle ≡ (7000, write_word 100 7000 (note 96 idle)))
    × (Library.write_message 100 7000 300 idle
        ≡ (0, write_word 100 0 (note 98 (write_word 100 Library.error idle))))
    × (Library.read_message 100 7000 1 400 idle
        ≡ (0, write_word 100 0 (note 99 (write_word 100 Library.error idle))))
    × (Library.destroy_mailbox 7000 idle ≡ note 97 idle)
mailbox_calls_example = mailbox_calls 100 7000 200 300 1 400 idle (omega arith)

process_calls_example :
    (Library.malloc 100 64 idle ≡ (9192, write_word 100 9192 (note 9 (write_word 100 0 idle))))
    × (Library.free 9192 idle ≡ note 10 idle)
    × (Library.print_memory_bitmap idle ≡ note 87 idle)
    × (Library.nice 4 2 idle ≡ note 15 idle)
    × (Library.kill 4 idle ≡ note 13 idle)
    × (Library.new_process 500 600 700 idle ≡ (3, note 12 idle))
process_calls_example = process_calls 100 64 9192 4 2 500 600 700 idle (omega arith) (omega arith)

-- Process 0 writes to the mailbox at 5000, from which process 1 reads.
abbrev before : Machine Machine.Machine
before = record {
  processes =
      record zero_pcb { output = some 5000 } ∷ record zero_pcb { id = 1; input = some 5000 } ∷ [];
  keyboard = record { buffer = []; buffer_index = 0; shift = false };
  console = record {
    pitch = 3072;
    width = 1024;
    height = 768;
    pixels = λ (a : ℕ). 0;
    x = 0;
    y = 0;
  };
  mailboxes = record {
    directory = Directory.init 10;
    mailbox_at = λ (p : ℕ). fresh (112 ∷ []) [];
    sys = runs 0;
  };
}

abbrev after : Machine Machine.Machine
after =
    let t = write_handler 0 (codes "hi") 2 before in
    record t { mailboxes = record t.mailboxes { sys = runs 1 } }

out : get_output before.processes (current before) ≡ some 5000
unfolding get_output pcb_at
out = refl

inp : get_input after.processes (current after) ≡ some 5000
unfolding write_handler get_output get_input pcb_at
inp = refl

said : text (take 2 (codes "hi")) ≡ codes "hi"
unfolding text
said = refl

short : strlen (take 2 (codes "hi")) ≤ buffer_size
unfolding strlen strlen_from buffer_size
short = omega arith

pipe_to_reader_example :
    (u : Machine Machine.Machine) × (read_buffer_handler after ≡ got 104 u)
    × Carries 5000 u (105 ∷ [])
pipe_to_reader_example =
    pipe_to_reader 5000 2 104 (codes "hi") (105 ∷ []) before after out (fresh-Holds (112 ∷ []) [])
      said short refl inp
