-- ===== src/Streams/Pipe.antt =====
-- A pipe: what one process writes another one reads.
use horaci_os.Prelude.{
  ℕ, ◌+◌, ◌≤◌, ◌≡◌, refl, sym, subst, List, [], ◌∷◌, ◌++◌, some, ◌==◌, if◌then◌else◌, take, length,
  arith,
}
use horaci_os.Services.{Services}
use horaci_os.Strings.{text, strlen}
use horaci_os.ProcessTable.{get_input, get_output}
use horaci_os.Mailbox.{Mailbox, Outcome, buffer_size}
use horaci_os.Mailbox
use horaci_os.Mailbox.Stream.{Holds}
use horaci_os.Mailbox.Refine.{write_fits, read_done}
use horaci_os.MailboxDirectory.{Mailboxes, done, write_to, read_from, update, store}
use horaci_os.Streams.{Machine, got, current, write_handler, read_buffer_handler}

update_self : (f : ℕ → Mailbox) (p : ℕ) (m : Mailbox) → update f p m p ≡ m
unfolding update
update_self f p m = ground arith

module _ {S : Type 0} ⦃k : Services S⦄ where
  -- The mailbox at an address holds a stream.
  abbrev pub Carries : ℕ → Machine S → List ℕ → Type 0
  Carries p t bytes = Holds (t.mailboxes.mailbox_at p) bytes

  write_piped :
      (fd p n : ℕ) (buffer : List ℕ) (t : Machine S)
      → get_output t.processes (current t) ≡ some p
      → write_handler fd buffer n t ≡ record t {
        mailboxes = (write_to (some p) (if fd == 2 then 10 ∷ [] else take n buffer) t.mailboxes).1;
      }
  unfolding write_handler
  write_piped fd p n buffer t out = rw (out, write_handler) refl

  read_done_from :
      (p c : ℕ) (m' : Mailbox) (t : Mailboxes S)
      → Mailbox.read_message (t.mailbox_at p) 1 t.sys ≡ Outcome.done (c ∷ []) m'
      → read_from (some p) 1 t ≡ done (c ∷ []) (store p m' t.sys t)
  unfolding read_from
  read_done_from p c m' t e = rw (e, read_from) refl

  read_piped :
      (p c : ℕ) (t : Machine S) (boxes : Mailboxes S)
      → get_input t.processes (current t) ≡ some p
      → read_from (some p) 1 t.mailboxes ≡ done (c ∷ []) boxes
      → read_buffer_handler t ≡ got c (record t { mailboxes = boxes })
  unfolding read_buffer_handler
  read_piped p c t boxes inp e = rw (inp, e, read_buffer_handler) refl

  -- A process whose output is a mailbox writes a text to the end of that mailbox's stream, if it fits.
  write_handler-Carries :
      (p n : ℕ) (buffer bytes : List ℕ) (t : Machine S)
      → get_output t.processes (current t) ≡ some p
      → Carries p t bytes
      → length bytes + strlen (take n buffer) ≤ buffer_size
      → Carries p (write_handler 0 buffer n t) (bytes ++ text (take n buffer))
  unfolding write_handler write_to store
  write_handler-Carries p n buffer bytes t out h fits =
      let m = t.mailboxes.mailbox_at p in
      let w = write_fits m t.mailboxes.sys bytes h (take n buffer) fits in
      subst (λ (u : Machine S). Carries p u (bytes ++ text (take n buffer)))
        (sym (write_piped 0 p n buffer t out))
        (subst (λ (m' : Mailbox). Holds m' (bytes ++ text (take n buffer)))
          (sym (update_self t.mailboxes.mailbox_at p _)) w.1)

  -- A process whose input is a mailbox reads the first byte of its stream.
  read_handler-Carries :
      (p c : ℕ) (bytes : List ℕ) (t : Machine S)
      → get_input t.processes (current t) ≡ some p
      → Carries p t (c ∷ bytes)
      → (t' : Machine S) × (read_buffer_handler t ≡ got c t') × Carries p t' bytes
  unfolding read_buffer_handler read_from store
  read_handler-Carries p c bytes t inp h =
      let m = t.mailboxes.mailbox_at p in
      let (m', e, h') = read_done m t.mailboxes.sys (c ∷ bytes) h 1 (omega arith) in
      (
        record t { mailboxes = store p m' t.mailboxes.sys t.mailboxes },
        read_piped p c t _ inp (read_done_from p c m' t.mailboxes e),
        subst (λ (m'' : Mailbox). Holds m'' bytes) (sym (update_self t.mailboxes.mailbox_at p m'))
            h',
      )

  -- Two processes share a mailbox that is empty, the output of one and the input of the other. When the
  -- first has written a text that is not empty and fits, and after a switch to the second, which
  -- leaves that mailbox alone, the second reads the first character of the text, and the others stay
  -- to be read.
  pub pipe_to_reader :
      (p n c : ℕ) (buffer rest : List ℕ) (t u : Machine S)
      → get_output t.processes (current t) ≡ some p
      → Carries p t []
      → text (take n buffer) ≡ c ∷ rest
      → strlen (take n buffer) ≤ buffer_size
      → u.mailboxes.mailbox_at p ≡ (write_handler 0 buffer n t).mailboxes.mailbox_at p
      → get_input u.processes (current u) ≡ some p
      → (u' : Machine S) × (read_buffer_handler u ≡ got c u') × Carries p u' rest
  pipe_to_reader p n c buffer rest t u out h e fits same inp =
      let w = write_handler-Carries p n buffer [] t out h (omega arith) in
      read_handler-Carries p c rest u inp
        (subst (λ (m : Mailbox). Holds m (c ∷ rest)) (sym same) (subst (Holds _) e w))
