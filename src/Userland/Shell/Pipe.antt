-- ===== src/Userland/Shell/Pipe.antt =====
-- What runs at the ends of a pipe.
use horaci_os.Prelude.{
  ℕ, ◌+◌, ◌≡◌, refl, sym, ◌∙◌, ap, List, [], Option, none, true, false, arith, Bool-cases, inl, inr,
}
use horaci_os.Strings.{strcmp, order, text}
use horaci_os.Strings.Laws.{strcmp_zero, strcmp_of_eq}
use horaci_os.Userland.{codes}
use horaci_os.Userland.Shell.{
  System, Program, help, watch, digital_clock, print_memory_bitmap, mailbox_test, mutex_test,
  list_all_processes, scheduler_test, sleep_for_10_secs, tell_poem_test, vowel_reader_test,
  pipe_test, is_command, is_output_command, is_input_command, standard_command_handler,
  pipe_command_handler, pipe_name, help_command, clock_command, digital_clock_command, mem_check,
  mutex_test_command, mailbox_test_command, prodcons_sem, ps, scheduler_test_command, dummy,
  tell_poem, filter_vowels,
}

is_command-text : (s a : List ℕ) → is_command s a ≡ true → text s ≡ text a
is_command-text s a e = strcmp_zero s a (ground arith)

-- A command has one name.
other_command :
    (s a b : List ℕ) → is_command s a ≡ true → is_command a b ≡ false → is_command s b ≡ false
other_command s a b e ne = elim (Bool-cases (is_command s b)) [
  | inr other ↦ other
  | inl same ↦ absurd (
      let z = strcmp_of_eq a b (sym (is_command-text s a e) ∙ is_command-text s b same) in
      ground arith)
]

-- The command for each program.
abbrev pub word : Program → List ℕ
word help = codes "help"
word watch = codes "clock"
word digital_clock = codes "digitalclock"
word print_memory_bitmap = codes "memcheck"
word mailbox_test = codes "mailbox_test"
word mutex_test = codes "mutex_test"
word list_all_processes = codes "ps"
word scheduler_test = codes "scheduler_test"
word sleep_for_10_secs = codes "dummy"
word tell_poem_test = codes "poem"
word vowel_reader_test = codes "filter_vowels"
word pipe_test = codes "pipe_test"

-- The name of its process.
abbrev pub process_name : Program → List ℕ
process_name watch = codes "watch"
process_name print_memory_bitmap = codes "printMemoryBitmap"
process_name program = word program

module _ {S : Type 0} ⦃k : System S⦄ (s : List ℕ) (input output : Option ℕ) (w : S) where
  -- The command runs its program, with this flag and these mailboxes.
  abbrev pub Runs : ℕ → Type 0
  Runs flag =
      (program : Program) × (text s ≡ text (word program))
      × (standard_command_handler s flag input output w
          ≡ k.run (process_name program) program flag input output w)

  help-Runs : (flag : ℕ) → is_command s help_command ≡ true → Runs flag
  unfolding standard_command_handler
  help-Runs flag e = (help, is_command-text s (word help) e, rw e refl)

  clock-Runs : (flag : ℕ) → is_command s clock_command ≡ true → Runs flag
  unfolding standard_command_handler strcmp order
  clock-Runs flag e = (
    watch,
    is_command-text s (word watch) e,
    rw (other_command s clock_command help_command e refl, e) refl,
  )

  mem_check-Runs : (flag : ℕ) → is_command s mem_check ≡ true → Runs flag
  unfolding standard_command_handler strcmp order
  mem_check-Runs flag e = (
    print_memory_bitmap,
    is_command-text s (word print_memory_bitmap) e,
    rw
        (
          other_command s mem_check help_command e refl,
          other_command s mem_check clock_command e refl,
          other_command s mem_check digital_clock_command e refl,
          e,
        )
        refl,
  )

  mailbox_test-Runs : (flag : ℕ) → is_command s mailbox_test_command ≡ true → Runs flag
  unfolding standard_command_handler strcmp order
  mailbox_test-Runs flag e = (
    mailbox_test,
    is_command-text s (word mailbox_test) e,
    rw
        (
          other_command s mailbox_test_command help_command e refl,
          other_command s mailbox_test_command clock_command e refl,
          other_command s mailbox_test_command digital_clock_command e refl,
          other_command s mailbox_test_command mem_check e refl,
          e,
        )
        refl,
  )

  mutex_test-Runs : (flag : ℕ) → is_command s mutex_test_command ≡ true → Runs flag
  unfolding standard_command_handler strcmp order
  mutex_test-Runs flag e = (
    mutex_test,
    is_command-text s (word mutex_test) e,
    rw
        (
          other_command s mutex_test_command help_command e refl,
          other_command s mutex_test_command clock_command e refl,
          other_command s mutex_test_command digital_clock_command e refl,
          other_command s mutex_test_command mem_check e refl,
          other_command s mutex_test_command mailbox_test_command e refl,
          e,
        )
        refl,
  )

  ps-Runs : (flag : ℕ) → is_command s ps ≡ true → Runs flag
  unfolding standard_command_handler strcmp order
  ps-Runs flag e = (
    list_all_processes,
    is_command-text s (word list_all_processes) e,
    rw
        (
          other_command s ps help_command e refl,
          other_command s ps clock_command e refl,
          other_command s ps digital_clock_command e refl,
          other_command s ps mem_check e refl,
          other_command s ps mailbox_test_command e refl,
          other_command s ps mutex_test_command e refl,
          other_command s ps prodcons_sem e refl,
          e,
        )
        refl,
  )

  scheduler_test-Runs : (flag : ℕ) → is_command s scheduler_test_command ≡ true → Runs flag
  unfolding standard_command_handler strcmp order
  scheduler_test-Runs flag e = (
    scheduler_test,
    is_command-text s (word scheduler_test) e,
    rw
        (
          other_command s scheduler_test_command help_command e refl,
          other_command s scheduler_test_command clock_command e refl,
          other_command s scheduler_test_command digital_clock_command e refl,
          other_command s scheduler_test_command mem_check e refl,
          other_command s scheduler_test_command mailbox_test_command e refl,
          other_command s scheduler_test_command mutex_test_command e refl,
          other_command s scheduler_test_command prodcons_sem e refl,
          other_command s scheduler_test_command ps e refl,
          e,
        )
        refl,
  )

  dummy-Runs : (flag : ℕ) → is_command s dummy ≡ true → Runs flag
  unfolding standard_command_handler strcmp order
  dummy-Runs flag e = (
    sleep_for_10_secs,
    is_command-text s (word sleep_for_10_secs) e,
    rw
        (
          other_command s dummy help_command e refl,
          other_command s dummy clock_command e refl,
          other_command s dummy digital_clock_command e refl,
          other_command s dummy mem_check e refl,
          other_command s dummy mailbox_test_command e refl,
          other_command s dummy mutex_test_command e refl,
          other_command s dummy prodcons_sem e refl,
          other_command s dummy ps e refl,
          other_command s dummy scheduler_test_command e refl,
          e,
        )
        refl,
  )

  tell_poem-Runs : (flag : ℕ) → is_command s tell_poem ≡ true → Runs flag
  unfolding standard_command_handler strcmp order
  tell_poem-Runs flag e = (
    tell_poem_test,
    is_command-text s (word tell_poem_test) e,
    rw
        (
          other_command s tell_poem help_command e refl,
          other_command s tell_poem clock_command e refl,
          other_command s tell_poem digital_clock_command e refl,
          other_command s tell_poem mem_check e refl,
          other_command s tell_poem mailbox_test_command e refl,
          other_command s tell_poem mutex_test_command e refl,
          other_command s tell_poem prodcons_sem e refl,
          other_command s tell_poem ps e refl,
          other_command s tell_poem scheduler_test_command e refl,
          other_command s tell_poem dummy e refl,
          e,
        )
        refl,
  )

  filter_vowels-Runs : (flag : ℕ) → is_command s filter_vowels ≡ true → Runs flag
  unfolding standard_command_handler strcmp order
  filter_vowels-Runs flag e = (
    vowel_reader_test,
    is_command-text s (word vowel_reader_test) e,
    rw
        (
          other_command s filter_vowels help_command e refl,
          other_command s filter_vowels clock_command e refl,
          other_command s filter_vowels digital_clock_command e refl,
          other_command s filter_vowels mem_check e refl,
          other_command s filter_vowels mailbox_test_command e refl,
          other_command s filter_vowels mutex_test_command e refl,
          other_command s filter_vowels prodcons_sem e refl,
          other_command s filter_vowels ps e refl,
          other_command s filter_vowels scheduler_test_command e refl,
          other_command s filter_vowels dummy e refl,
          other_command s filter_vowels tell_poem e refl,
          e,
        )
        refl,
  )

  digital_clock-Runs : is_command s digital_clock_command ≡ true → Runs 0
  unfolding standard_command_handler strcmp order
  digital_clock-Runs e = (
    digital_clock,
    is_command-text s (word digital_clock) e,
    rw
        (
          other_command s digital_clock_command help_command e refl,
          other_command s digital_clock_command clock_command e refl,
          e,
        )
        refl,
  )

  -- A command for the left of a pipe runs a program.
  output-Runs : (flag : ℕ) → is_output_command s ≡ true → Runs flag
  unfolding is_output_command
  output-Runs flag e = elim (Bool-cases (is_command s clock_command)) [
    | inl h0 ↦ clock-Runs flag h0
    | inr n0 ↦ elim (Bool-cases (is_command s help_command)) [
      | inl h1 ↦ help-Runs flag h1
      | inr n1 ↦ elim (Bool-cases (is_command s mem_check)) [
        | inl h2 ↦ mem_check-Runs flag h2
        | inr n2 ↦ elim (Bool-cases (is_command s mutex_test_command)) [
          | inl h3 ↦ mutex_test-Runs flag h3
          | inr n3 ↦ elim (Bool-cases (is_command s mailbox_test_command)) [
            | inl h4 ↦ mailbox_test-Runs flag h4
            | inr n4 ↦ elim (Bool-cases (is_command s ps)) [
              | inl h5 ↦ ps-Runs flag h5
              | inr n5 ↦ elim (Bool-cases (is_command s scheduler_test_command)) [
                | inl h6 ↦ scheduler_test-Runs flag h6
                | inr n6 ↦ elim (Bool-cases (is_command s dummy)) [
                  | inl h7 ↦ dummy-Runs flag h7
                  | inr n7 ↦ elim (Bool-cases (is_command s tell_poem)) [
                    | inl h8 ↦ tell_poem-Runs flag h8
                    | inr n8 ↦ absurd (ground arith)
                  ]
                ]
              ]
            ]
          ]
        ]
      ]
    ]
  ]

  -- A command for the right of a pipe runs a program in the foreground.
  input-Runs : is_input_command s ≡ true → Runs 0
  unfolding is_input_command
  input-Runs e = elim (Bool-cases (is_command s digital_clock_command)) [
    | inl h ↦ digital_clock-Runs h
    | inr n ↦ filter_vowels-Runs 0 (ground arith)
  ]

module _ {S : Type 0} ⦃k : System S⦄ where
  pipe_step :
      (stack app target : List ℕ) (n : ℕ) (w : S)
      → is_output_command app ≡ true
      → is_input_command target ≡ true
      → let (mailbox, w₁) = k.create_mailbox (pipe_name n stack) w in
        pipe_command_handler stack app target n w ≡ (
          n + 1,
          k.destroy_mailbox mailbox (
              standard_command_handler target 0 mailbox none
                (k.my_printf (codes "\n") [] (standard_command_handler app 1 none mailbox w₁))),
        )
  unfolding pipe_command_handler
  pipe_step stack app target n w a b = rw (a, b) refl

  -- A pipe between a command that only writes and one that only reads: the mailbox that create_mailbox gives
  -- for the name of the pipe is the output of the program of the left command, in the background, and the input
  -- of the program of the right command, in the foreground, and is destroyed behind them. The program of a
  -- command is the one with that word in the table of commands.
  pub pipe_lem :
      (stack app target : List ℕ) (n : ℕ) (w : S)
      → is_output_command app ≡ true
      → is_input_command target ≡ true
      → let (mailbox, w₁) = k.create_mailbox (pipe_name n stack) w in
        (writer reader : Program) × (text app ≡ text (word writer))
        × (text target ≡ text (word reader))
        × (pipe_command_handler stack app target n w ≡ (
          n + 1,
          k.destroy_mailbox mailbox (
              k.run (process_name reader) reader 0 mailbox none (
                k.my_printf
                  (codes "\n")
                  []
                  (k.run (process_name writer) writer 1 none mailbox w₁))),
        ))
  pipe_lem stack app target n w a b =
      let (mailbox, w₁) = k.create_mailbox (pipe_name n stack) w in
      let (writer, left, e) = output-Runs app none mailbox w₁ 1 a in
      let between =
        k.my_printf (codes "\n") [] (k.run (process_name writer) writer 1 none mailbox w₁) in
      let (reader, right, f) = input-Runs target mailbox none between b in
      (
        writer,
        reader,
        left,
        right,
        pipe_step stack app target n w a b
            ∙ ap
                (λ (t : S). (
                  n + 1,
                  k.destroy_mailbox mailbox (
                      standard_command_handler target 0 mailbox none
                        (k.my_printf (codes "\n") [] t)),
                ))
                e
            ∙ ap (λ (t : S). (n + 1, k.destroy_mailbox mailbox t)) f,
      )
