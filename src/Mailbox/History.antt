-- ===== src/Mailbox/History.antt =====
-- Over any history of calls a mailbox delivers the bytes that it accepted, in order.
use native.Mathlib.Decide.{dec_le}
use horaci_os.Prelude.{
  ℕ, ◌+◌, ◌<◌, ◌≡◌, sym, ap, ◌∙◌, List, [], ◌∷◌, ◌++◌, length, drop, arith, Bool, append_assoc,
  append-nil, take-append-drop, if◌then◌else◌,
}
use horaci_os.Services.{Services}
use horaci_os.WaitQueue.{queue_size}
use horaci_os.Strings.{text, strlen}
use horaci_os.Mailbox.{
  Mailbox, Outcome, error, blocked, done, buffer_size, write_message, read_message,
}
use horaci_os.Mailbox.Stream.{Holds}
use horaci_os.Mailbox.Refine.{write_fits, write_refused, read_done, read_blocks, read_refused}

pub data Event : Type 0 where
  writes : List ℕ → Event
  reads : ℕ → Event

-- What a call delivers to its caller and accepts from it, and the mailbox that it leaves.
pub record Turn : Type 0 where
  pub delivered : List ℕ
  pub accepted : List ℕ
  pub after : Mailbox

unfoldable pub after_write : {S : Type 0} → List ℕ → Bool × (Mailbox × S) → Turn
after_write msg (success, (m', s)) = record {
  delivered = [];
  accepted = if success then text msg else [];
  after = m';
}

unfoldable pub after_read : {S : Type 0} → Mailbox → Outcome S → Turn
after_read m error = record { delivered = []; accepted = []; after = m }
after_read m (blocked m' s) = record { delivered = []; accepted = []; after = m' }
after_read m (done bytes m') = record { delivered = bytes; accepted = []; after = m' }

module _ {S : Type 0} ⦃k : Services S⦄ where
  -- A call that is made in state `s` of the kernel.
  unfoldable pub turn : Mailbox → Event × S → Turn
  unfolding after_write after_read
  turn m (writes msg, s) = after_write msg (write_message m msg s)
  turn m (reads n, s) = after_read m (read_message m n s)

  pub run : Mailbox → List (Event × S) → Turn
  run m [] = record { delivered = []; accepted = []; after = m }
  run m (e ∷ es) =
      let t = turn m e in
      let rest = run t.after es in
      record {
        delivered = t.delivered ++ rest.delivered;
        accepted = t.accepted ++ rest.accepted;
        after = rest.after;
      }

  -- The queue of waiting processes has room at each call.
  abbrev pub Roomy : Mailbox → List (Event × S) → Type 0
  Roomy m [] = Unit
  Roomy m (e ∷ es) = (m.queue_index < queue_size) × Roomy (turn m e).after es

  turn-Holds :
      (m : Mailbox) (e : Event × S) (bytes : List ℕ)
      → Holds m bytes
      → m.queue_index < queue_size
      → let t = turn m e in
        (rest : List ℕ) × Holds t.after rest × (t.delivered ++ rest ≡ bytes ++ t.accepted)
  unfolding turn
  turn-Holds m (writes msg, s) bytes h slot =
      elim (dec_le (length bytes + strlen msg) buffer_size) [
        | yes fits ↦
            let (ok, h', index, woken) = write_fits m s bytes h msg fits in
            (bytes ++ text msg, h', rw ok)
        | no full ↦
            rw (write_refused m s bytes h msg (omega arith), after_write)
              (bytes, h, sym (append-nil bytes))
      ]
  turn-Holds m (reads n, s) bytes h slot = elim (dec_le n (length bytes)) [
    | yes there ↦
        let (m', e, h') = read_done m s bytes h n there in
        rw (e, after_read) (drop n bytes, h', take-append-drop n bytes ∙ sym (append-nil bytes))
    | no more ↦ elim (dec_le n buffer_size) [
      | yes fits ↦
          let (m', e, h', slots, index) = read_blocks m s bytes h n (omega arith) fits slot in
          rw (e, after_read) (bytes, h', sym (append-nil bytes))
      | no big ↦
          rw (read_refused m s bytes h n (omega arith), after_read)
            (bytes, h, sym (append-nil bytes))
    ]
  ]

  -- Over any history of calls in which no more processes wait at once than the queue holds, the bytes
  -- delivered so far, followed by those that are still in the mailbox, are the bytes that
  -- were there at first, followed by those accepted; so none is lost, doubled or reordered.
  pub run-Holds :
      (es : List (Event × S)) (m : Mailbox) (bytes : List ℕ)
      → Holds m bytes
      → Roomy m es
      → let t = run m es in
        (rest : List ℕ) × Holds t.after rest × (t.delivered ++ rest ≡ bytes ++ t.accepted)
  unfolding run
  run-Holds [] m bytes h roomy = (bytes, h, sym (append-nil bytes))
  run-Holds (e ∷ es) m bytes h roomy =
      let t = turn m e in
      let (mid, h', q) = turn-Holds m e bytes h roomy.0 in
      let (rest, h'', q') = run-Holds es t.after mid h' roomy.1 in
      (
        rest,
        h'',
        append_assoc t.delivered _ rest
            ∙ ap (◌++◌ t.delivered) q'
            ∙ sym (append_assoc t.delivered mid _)
            ∙ ap (λ (l : List ℕ). l ++ (run t.after es).accepted) q
            ∙ append_assoc bytes t.accepted _,
      )
