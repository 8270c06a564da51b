-- ===== src/Mailbox/Refine.antt =====
-- `write_message` and `read_message` as operations on the stream of bytes.
use horaci_os.Prelude.{
  ℕ, ◌+◌, ◌%◌, ◌≤◌, ◌<◌, ◌≡◌, refl, ap₂, List, ◌++◌, length, take, drop, set, arith, true, false,
}
use horaci_os.Services.{Services}
use horaci_os.Strings.{text, strlen}
use horaci_os.Strings.Laws.{strlen-length}
use horaci_os.Mailbox.{
  Mailbox, error, blocked, done, buffer_size, readable_bytes, writable_bytes, put_all, take_bytes,
  block_process, resume_all, wake_up_processes, write_message, read_message,
}
use horaci_os.WaitQueue.{queue_size}
use horaci_os.Mailbox.Stream.{Holds, put_all-Holds, take_bytes-Holds}

module _ {S : Type 0} ⦃k : Services S⦄ (m : Mailbox) (s : S) (bytes : List ℕ)
    (h : Holds m bytes) where
  write_goes :
      (msg : List ℕ)
      → length bytes + strlen msg ≤ buffer_size
      → let m' = put_all m 0 (text msg) in
        write_message m msg s ≡ (
          true,
          wake_up_processes
              (record m' { write_index = (m'.write_index + strlen msg) % buffer_size })
              s,
        )
  unfolding write_message writable_bytes
  write_goes msg fits = let r = h.room in ground arith

  -- In a mailbox that holds a stream, a message that fits is appended to the stream, and every process that waits is woken, in the
  -- order of the queue, which is then empty.
  pub write_fits :
      (msg : List ℕ)
      → length bytes + strlen msg ≤ buffer_size
      → let (success, (m', s')) = write_message m msg s in
        (success ≡ true)
        × Holds m' (bytes ++ text msg)
        × (m'.queue_index ≡ 0)
        × (s' ≡ resume_all (take m.queue_index m.locked_queue) s)
  unfolding wake_up_processes
  write_fits msg fits =
      let r = h.room in
      let n = strlen-length msg in
      let (h', slots, index) = put_all-Holds m (text msg) bytes h (omega arith) in
      rw (write_goes msg fits) (
        refl,
        record {
          storage = h'.storage;
          read_in = h'.read_in;
          write_at = rw n h'.write_at;
          room = h'.room;
          layout = h'.layout;
        },
        refl,
        ap₂ (λ (i : ℕ) (l : List ℕ). resume_all (take i l) s) index slots,
      )

  -- A message that does not fit is refused, and nothing changes.
  pub write_refused :
      (msg : List ℕ)
      → buffer_size < length bytes + strlen msg
      → write_message m msg s ≡ (false, (m, s))
  unfolding write_message writable_bytes
  write_refused msg full = let r = h.room in ground arith

  -- From a mailbox that holds a stream, bytes that are there are read from the front of the stream,
  -- which then holds the others.
  pub read_done :
      (n : ℕ)
      → n ≤ length bytes
      → (m' : Mailbox) × (read_message m n s ≡ done (take n bytes) m') × Holds m' (drop n bytes)
  unfolding read_message readable_bytes
  read_done n there =
      let r = h.room in
      let (out, h') = take_bytes-Holds m n bytes h there in ((take_bytes m n).1, ground arith, h')

  -- A process that asks for more bytes than are there, but no more than the buffer can hold, joins the
  -- queue, if that has room, and blocks; the stream stays.
  pub read_blocks :
      (n : ℕ)
      → length bytes < n
      → n ≤ buffer_size
      → m.queue_index < queue_size
      → (m' : Mailbox) × (read_message m n s
          ≡ blocked m' (k.mark_process_as_blocked (k.get_current_pid s) s))
        × Holds m' bytes
        × (m'.locked_queue ≡ set m.locked_queue m.queue_index (k.get_current_pid s))
        × (m'.queue_index ≡ m.queue_index + 1)
  unfolding read_message readable_bytes block_process
  read_blocks n more fits slot =
      let r = h.room in
      (
        record m {
          locked_queue = set m.locked_queue m.queue_index (k.get_current_pid s);
          queue_index = m.queue_index + 1;
        },
        ground arith,
        record {
          storage = h.storage;
          read_in = h.read_in;
          write_at = h.write_at;
          room = h.room;
          layout = h.layout;
        },
        refl,
        refl,
      )

  -- More bytes than the buffer can ever hold are refused.
  pub read_refused : (n : ℕ) → buffer_size < n → read_message m n s ≡ error
  unfolding read_message
  read_refused n big = ground arith
