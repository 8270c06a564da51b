-- ===== src/SystemCalls.antt =====
-- System calls (Kernel/SysCallDispatcher.c): from the number of a call to the function of the kernel.
-- The functions, and the memory that pointers lead to, are a record `Handlers`; `S` is the state behind
-- it, and a pointer is an address, 0 for NULL. Arguments are 64-bit patterns.
pub mod Library
pub mod Calls
use horaci_os.Prelude.{ℕ, ◌+◌, ◌%◌, ◌^◌, ◌≡◌, ◌==◌, if◌then◌else◌}

pub record Handlers (S : Type 0) : Type 0 where
  -- The word at an address.
  pub load : ℕ → S → ℕ
  pub store : ℕ → ℕ → S → S
  pub load-store : (a v : ℕ) (s : S) → load a (store a v s) ≡ v
  pub putpixel : ℕ → ℕ → ℕ → S → S
  pub clock_handler : ℕ → ℕ → ℕ → S → S
  pub read_buffer_handler : ℕ → S → S
  pub write_handler : ℕ → ℕ → ℕ → S → S
  pub speaker_handler : S → S
  pub set_cursor : ℕ → ℕ → S → S
  pub get_screen_width : S → ℕ
  pub get_screen_height : S → ℕ
  pub get_char_width : S → ℕ
  pub get_char_height : S → ℕ
  pub get_cursor_x : S → ℕ
  pub get_cursor_y : S → ℕ
  pub big_handler : ℕ → ℕ → ℕ → S → S
  pub create_process : ℕ → ℕ → ℕ → S → ℕ × S
  pub mark_process_as_finished : ℕ → S → S
  pub get_ready_processes : ℕ → ℕ → ℕ → S → S
  pub change_priority : ℕ → ℕ → S → S
  pub malloc : ℕ → S → ℕ × S
  pub free_handler : ℕ → S → S
  pub print_hex : ℕ → S → S
  pub print_bitmap : S → S
  pub sem_create : ℕ → ℕ → S → ℕ × S
  pub sem_destroy : ℕ → S → S
  pub sem_wait : ℕ → S → S
  pub sem_signal : ℕ → S → S
  pub mutex_create : ℕ → S → ℕ × S
  pub mutex_destroy : ℕ → S → S
  pub mutex_lock : ℕ → S → S
  pub mutex_unlock : ℕ → S → S
  pub create_mailbox : ℕ → S → ℕ × S
  pub destroy_mailbox : ℕ → S → S
  pub write_message : ℕ → ℕ → S → ℕ × S
  pub read_message : ℕ → ℕ → ℕ → S → ℕ × S

-- The cast to `int` or `unsigned int`.
abbrev pub int : ℕ → ℕ
int n = n % 2 ^ 32

module _ {S : Type 0} ⦃h : Handlers S⦄ where
  -- What a function returns is stored at an address.
  abbrev pub stored : ℕ → ℕ × S → S
  stored p r = h.store p r.0 r.1

  unfoldable pub info_handler : ℕ → ℕ → S → S
  info_handler p1 p2 s =
      if p1 == 0
      then h.store p2 (h.get_screen_width s) s
      else if p1 == 1
      then h.store p2 (h.get_screen_height s) s
      else if p1 == 2
      then h.store p2 (h.get_char_width s) s
      else if p1 == 3
      then h.store p2 (h.get_char_height s) s
      else if p1 == 4
      then h.store p2 (h.get_cursor_x s) s
      else if p1 == 5
      then h.store p2 (h.get_cursor_y s) s
      else s

  -- `malloc_handler` of Kernel/memoryManager.c.
  unfoldable pub malloc_handler : ℕ → ℕ → S → S
  malloc_handler bytes address s = stored address (h.malloc bytes s)

  -- The switch, but for CREATE_PROCESS: what a call does before the 5 that it returns.
  unfoldable pub handle : ℕ → ℕ → ℕ → ℕ → ℕ → S → S
  handle id p1 p2 p3 p4 s =
      if id == 1
      then h.putpixel (int p1) (int p2) (int p3) s
      else if id == 2
      then h.clock_handler p1 p2 p3 s
      else if id == 3
      then h.read_buffer_handler p1 s
      else if id == 4
      then h.write_handler p1 p2 (int p3) s
      else if id == 5
      then h.speaker_handler s
      else if id == 6
      then h.set_cursor (int p1) (int p2) s
      else if id == 7
      then info_handler (int p1) p2 s
      else if id == 8
      then h.big_handler p1 p2 (int p3) s
      else if id == 13
      then h.mark_process_as_finished (int p1) s
      else if id == 14
      then h.get_ready_processes p1 (int p2) p3 s
      else if id == 15
      then h.change_priority (int p1) (int p2) s
      else if id == 9
      then malloc_handler p1 p2 s
      else if id == 10
      then h.free_handler p1 s
      else if id == 11
      then h.print_hex p1 s
      else if id == 87
      then h.print_bitmap s
      else if id == 88
      then stored p3 (h.sem_create p1 (int p2) s)
      else if id == 89
      then h.sem_destroy p1 s
      else if id == 90
      then h.sem_wait p1 s
      else if id == 91
      then h.sem_signal p1 s
      else if id == 92
      then stored p2 (h.mutex_create p1 s)
      else if id == 93
      then h.mutex_destroy p1 s
      else if id == 94
      then h.mutex_lock p1 s
      else if id == 95
      then h.mutex_unlock p1 s
      else if id == 96
      then stored p2 (h.create_mailbox p1 s)
      else if id == 97
      then h.destroy_mailbox p1 s
      else if id == 98
      then stored p3 (h.write_message p1 p2 s)
      else if id == 99
      then stored p4 (h.read_message p1 (int p2) p3 s)
      else s

  unfoldable pub sys_call_dispatcher : ℕ → ℕ → ℕ → ℕ → ℕ → ℕ → S → ℕ × S
  sys_call_dispatcher id p1 p2 p3 p4 p5 s =
      if id == 12 then h.create_process p2 p1 p3 s else (5, handle id p1 p2 p3 p4 s)
