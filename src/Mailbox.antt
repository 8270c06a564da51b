-- ===== src/Mailbox.antt =====
-- A mailbox (Kernel/mailbox.c): a ring of bytes and the processes that wait for more. The directory
-- of mailboxes is in MailboxDirectory.antt.
pub mod Stream
pub mod Refine
pub mod History
use horaci_os.Prelude.{
  ℕ, zero, suc, ◌+◌, ◌-◌, ◌%◌, List, [], ◌∷◌, Bool, true, false, ltb, if◌then◌else◌, get_or, set,
  take, replicate,
}
use horaci_os.Services.{Services}
use horaci_os.Strings.{text, strlen}
use horaci_os.WaitQueue.{queue_size}

-- MAILBOX_BUFFER_SIZE.
unfoldable pub buffer_size : ℕ
buffer_size = 4000

-- `mailbox_struct_t`. The `int` fields never fall below 0.
pub record Mailbox : Type 0 where
  pub name : List ℕ
  pub read_index : ℕ
  pub write_index : ℕ
  pub empty_bytes : ℕ
  pub buffer : List ℕ
  pub locked_queue : List ℕ
  pub queue_index : ℕ

-- The fields that `create_mailbox` sets; `malloc` leaves the queue's slots as they are.
unfoldable pub fresh : List ℕ → List ℕ → Mailbox
fresh name slots = record {
  name = name;
  read_index = 0;
  write_index = 0;
  empty_bytes = buffer_size;
  buffer = replicate buffer_size 0;
  locked_queue = slots;
  queue_index = 0;
}

unfoldable pub readable_bytes : Mailbox → ℕ
readable_bytes m = buffer_size - m.empty_bytes

unfoldable pub writable_bytes : Mailbox → ℕ
writable_bytes m = m.empty_bytes

-- One round of the loop of `write_message`: a byte goes to the `i`-th place from the write index.
unfoldable pub put : Mailbox → ℕ → ℕ → Mailbox
put m i x = record m {
  buffer = set m.buffer ((m.write_index + i) % buffer_size) x;
  empty_bytes = m.empty_bytes - 1;
}

unfoldable pub put_all : Mailbox → ℕ → List ℕ → Mailbox
put_all m i [] = m
put_all m i (x ∷ xs) = put_all (put m i x) (i + 1) xs

-- The loop of `read_message`, `n` bytes from the `i`-th place from the read index on.
unfoldable pub get_all : Mailbox → ℕ → ℕ → List ℕ × Mailbox
get_all m i zero = ([], m)
get_all m i (suc n) =
    let (rest, m') = get_all (record m { empty_bytes = m.empty_bytes + 1 }) (i + 1) n in
    (get_or m.buffer ((m.read_index + i) % buffer_size) 0 ∷ rest, m')

-- What `read_message` does once enough bytes are there: the bytes for `dest`, before its
-- terminator, and the mailbox.
unfoldable pub take_bytes : Mailbox → ℕ → List ℕ × Mailbox
take_bytes m bytes =
    let (dest, m') = get_all m 0 bytes in
    (dest, record m' { read_index = (m'.read_index + bytes) % buffer_size })

module _ {S : Type 0} ⦃k : Services S⦄ where
  -- With a full queue the code prints a warning and writes behind the array, which C leaves
  -- undefined; here that write is lost, and the theorems ask for room.
  unfoldable pub block_process : Mailbox → S → Mailbox × S
  block_process m s =
      let process = k.get_current_pid s in
      (
        record m {
          locked_queue = set m.locked_queue m.queue_index process;
          queue_index = m.queue_index + 1;
        },
        k.mark_process_as_blocked process s,
      )

  unfoldable pub resume_all : List ℕ → S → S
  resume_all [] s = s
  resume_all (p ∷ ps) s = resume_all ps (k.resume_process p s)

  -- The loop runs over the first `queue_index` slots.
  unfoldable pub wake_up_processes : Mailbox → S → Mailbox × S
  wake_up_processes m s =
      (record m { queue_index = 0 }, resume_all (take m.queue_index m.locked_queue) s)

  -- `write_message` on a mailbox that is not NULL; the flag is SUCCESS.
  unfoldable pub write_message : Mailbox → List ℕ → S → Bool × (Mailbox × S)
  write_message m msg s =
      if ltb (writable_bytes m) (strlen msg)
      then (false, (m, s))
      else (let m' = put_all m 0 (text msg) in
          (
            true,
            wake_up_processes
                (record m' { write_index = (m'.write_index + strlen msg) % buffer_size }) s,
          ))

-- How far a call of `read_message` gets before the process returns or blocks.
pub data Outcome (S : Type 0) : Type 0 where
  error : Outcome S
  blocked : Mailbox → S → Outcome S
  done : List ℕ → Mailbox → Outcome S

module _ {S : Type 0} ⦃k : Services S⦄ where
  -- `read_message` on a mailbox that is not NULL, up to the next switch: the loop tests again
  -- when the process runs again, so a blocked call goes on as another call of this function.
  -- `bytes` is not negative.
  unfoldable pub read_message : Mailbox → ℕ → S → Outcome S
  read_message m bytes s =
      if ltb buffer_size bytes
      then error
      else if ltb (readable_bytes m) bytes
      then (let (m', s') = block_process m s in blocked m' s')
      else (let (dest, m') = take_bytes m bytes in done dest m')
