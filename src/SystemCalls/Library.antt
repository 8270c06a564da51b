-- ===== src/SystemCalls/Library.antt =====
-- The functions of Userland/SampleCodeModule (ipc.c, memory.c, taskmanager.c, stdlib.c) that make one
-- system call. The trap hands the registers to `SysCallDispatcher`. `local` is the address of the
-- function's local variable on its stack.
use horaci_os.Prelude.{ℕ, ◌^◌, ◌-◌, ◌==◌, if◌then◌else◌}
use horaci_os.SystemCalls.{Handlers, sys_call_dispatcher}

-- ERROR.
abbrev pub error : ℕ
error = 2 ^ 32 - 1

module _ {S : Type 0} ⦃h : Handlers S⦄ where
  -- A call for its effect.
  unfoldable pub call : ℕ → ℕ → ℕ → ℕ → ℕ → S → S
  unfolding sys_call_dispatcher
  call id p1 p2 p3 p4 s = (sys_call_dispatcher id p1 p2 p3 p4 0 s).1

  -- A call whose result is in the local variable.
  abbrev result : ℕ → S → ℕ × S
  result local s = (h.load local s, s)

  unfoldable pub create_mailbox : ℕ → ℕ → S → ℕ × S
  create_mailbox local name s = result local (call 96 name local 0 0 s)

  unfoldable pub write_message : ℕ → ℕ → ℕ → S → ℕ × S
  write_message local mailbox msg s =
      result local (call 98 mailbox msg local 0 (h.store local error s))

  unfoldable pub read_message : ℕ → ℕ → ℕ → ℕ → S → ℕ × S
  read_message local mailbox bytes dest s =
      result local (call 99 mailbox bytes dest local (h.store local error s))

  unfoldable pub destroy_mailbox : ℕ → S → S
  destroy_mailbox mailbox s = call 97 mailbox 0 0 0 s

  unfoldable pub mutex_create : ℕ → ℕ → S → ℕ × S
  mutex_create local name s = result local (call 92 name local 0 0 s)

  unfoldable pub mutex_lock : ℕ → S → S
  mutex_lock mutex s = call 94 mutex 0 0 0 s

  unfoldable pub mutex_unlock : ℕ → S → S
  mutex_unlock mutex s = call 95 mutex 0 0 0 s

  unfoldable pub mutex_destroy : ℕ → S → S
  mutex_destroy mutex s = call 93 mutex 0 0 0 s

  unfoldable pub sem_create : ℕ → ℕ → ℕ → S → ℕ × S
  sem_create local name initial_value s = result local (call 88 name initial_value local 0 s)

  unfoldable pub sem_wait : ℕ → S → S
  sem_wait sem s = call 90 sem 0 0 0 s

  unfoldable pub sem_signal : ℕ → S → S
  sem_signal sem s = call 91 sem 0 0 0 s

  unfoldable pub sem_destroy : ℕ → S → S
  sem_destroy sem s = call 89 sem 0 0 0 s

  unfoldable pub malloc : ℕ → ℕ → S → ℕ × S
  malloc local bytes s = result local (call 9 bytes local 0 0 (h.store local 0 s))

  unfoldable pub free : ℕ → S → S
  free address s = call 10 address 0 0 0 s

  unfoldable pub print_memory_bitmap : S → S
  print_memory_bitmap s = call 87 0 0 0 0 s

  unfoldable pub nice : ℕ → ℕ → S → S
  nice pid new_priority s = call 15 pid new_priority 0 0 s

  unfoldable pub kill : ℕ → S → S
  kill pid s = call 13 pid 0 0 0 s

  -- What `run` asks of the kernel; `header` is the address of the process header.
  unfoldable pub new_process : ℕ → ℕ → ℕ → S → ℕ × S
  new_process entry_point argv header s = sys_call_dispatcher 12 entry_point argv header 0 0 s

  unfoldable pub set_cursor : ℕ → ℕ → S → S
  set_cursor x y s = call 6 x y 0 0 s

  unfoldable pub beep : S → S
  beep s = call 5 0 0 0 0 s

  -- `screen_width`, `screen_height`, `char_width` and `char_height`.
  unfoldable pub screen_width : ℕ → S → ℕ × S
  screen_width local s = result local (call 7 0 local 0 0 s)

  unfoldable pub screen_height : ℕ → S → ℕ × S
  screen_height local s = result local (call 7 1 local 0 0 s)

  unfoldable pub char_width : ℕ → S → ℕ × S
  char_width local s = result local (call 7 2 local 0 0 s)

  unfoldable pub char_height : ℕ → S → ℕ × S
  char_height local s = result local (call 7 3 local 0 0 s)

  unfoldable pub my_get_char : ℕ → S → ℕ × S
  my_get_char local s = result local (call 3 local 0 0 0 (h.store local 0 s))

  unfoldable pub my_putchar : ℕ → ℕ → S → S
  my_putchar local character s =
      if character == 10 then call 4 2 0 0 0 s else call 4 0 local 1 0 (h.store local character s)

  unfoldable pub my_putchar_big : ℕ → ℕ → ℕ → S → S
  my_putchar_big local character color s =
      if character == 10
      then call 8 0 0 0 0 s
      else call 8 color local 1 0 (h.store local character s)

  unfoldable pub my_print_hex : ℕ → S → S
  my_print_hex hex_number s = call 11 hex_number 0 0 0 s
