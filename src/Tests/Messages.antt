-- ===== src/Tests/Messages.antt =====
-- A mailbox at work: a message is written, read in two parts, and waited for.
use horaci_os.Prelude.{ℕ, ◌≡◌, ◌≤◌, List, [], ◌∷◌, ◌++◌, true, replicate, arith}
use horaci_os.Tests.Machine.{Machine, machine, runs}
use horaci_os.Strings.{text, strlen}
use horaci_os.WaitQueue.{queue_size}
use horaci_os.Mailbox.{Mailbox, fresh, buffer_size, done, resume_all, write_message, read_message}
use horaci_os.Mailbox.Stream.{Holds, fresh-Holds}
use horaci_os.Mailbox.Refine.{write_fits, read_done}
use horaci_os.Mailbox.History.{Event, writes, reads, Roomy, turn, after_write, run, run-Holds}
use horaci_os.Directory
use horaci_os.Directory.Valid.{IsValid, init-IsValid}
use horaci_os.MailboxDirectory.{Mailboxes, max_mailboxes, init_post_office, create_mailbox}
use horaci_os.MailboxDirectory.Keep.{create_mailbox-IsValid}

fits : (n : ℕ) → n ≤ 4000 → n ≤ buffer_size
unfolding buffer_size
fits n le = le

-- Process 7 waits for the message "hi!".
abbrev box : Mailbox
box = record (fresh (98 ∷ []) (7 ∷ 0 ∷ [])) { queue_index = 1 }

box-Holds : Holds box []
box-Holds =
    let h = fresh-Holds (98 ∷ []) (7 ∷ 0 ∷ []) in
    record {
      storage = h.storage;
      read_in = h.read_in;
      write_at = h.write_at;
      room = h.room;
      layout = h.layout;
    }

abbrev message : List ℕ
message = 104 ∷ 105 ∷ 33 ∷ []

write_fits_example :
    let (success, (m, s)) = write_message box message (runs 3) in
    (success ≡ true) × Holds m message × (m.queue_index ≡ 0) × (s ≡ resume_all (7 ∷ []) (runs 3))
unfolding text strlen fresh
write_fits_example = write_fits box (runs 3) [] box-Holds message (fits 3 (omega arith))

abbrev filled : Mailbox
filled = (write_message box message (runs 3)).1.0

read_done_example :
    (m : Mailbox) × (read_message filled 2 (runs 5) ≡ done (104 ∷ 105 ∷ []) m) × Holds m (33 ∷ [])
read_done_example = read_done filled (runs 5) message write_fits_example.1 2 (omega arith)

abbrev events : List (Event × Machine)
events = (writes message, runs 3) ∷ (reads 2, runs 5) ∷ []

roomy : Roomy box events
unfolding queue_size turn after_write
roomy = (omega arith, (let e = write_fits_example.2 in omega arith, tt))

run-Holds_example :
    let t = run box events in
    (rest : List ℕ) × Holds t.after rest × (t.delivered ++ rest ≡ [] ++ t.accepted)
run-Holds_example = run-Holds events box [] box-Holds roomy

-- A post office with one mailbox.
abbrev office : Mailboxes Machine
office = init_post_office (record {
  directory = Directory.init 0;
  mailbox_at = λ p. fresh [] (replicate 30 0);
  sys = runs 3;
})

office-IsValid : IsValid max_mailboxes office.directory
unfolding init_post_office max_mailboxes
office-IsValid = init-IsValid 10 (omega arith)

create_mailbox-IsValid_example : IsValid max_mailboxes (create_mailbox (97 ∷ []) office).1.directory
create_mailbox-IsValid_example = create_mailbox-IsValid (97 ∷ []) office office-IsValid
