-- ===== src/Mailbox/Stream.antt =====
-- The ring of bytes holds a stream: the loops of `write_message` and `read_message` append to it and
-- take from its front.
use native.Mathlib.Nat.{mod-add-mod, mod-lt}
use horaci_os.Prelude.{
  ℕ, zero, suc, ◌+◌, ◌-◌, ◌%◌, ◌≤◌, ◌<◌, ◌≡◌, refl, sym, ap, ap₂, ◌∙◌, List, [], ◌∷◌, ◌++◌, length,
  set, get_or, take, drop, take-append, drop-append, length-drop, subst, length-set, length-append,
  length-replicate, set-append, append_assoc, append-nil, window, length-window, window-set,
  window-snoc, window-append, add-zero-mod, arith,
}
use horaci_os.Mailbox.{Mailbox, buffer_size, fresh, put, put_all, get_all, take_bytes}

-- The bytes that are there are those from the read index on.
pub record Holds (m : Mailbox) (bytes : List ℕ) : Type 0 where
  pub storage : length m.buffer ≡ buffer_size
  pub read_in : m.read_index < buffer_size
  pub write_at : m.write_index ≡ (m.read_index + length bytes) % buffer_size
  pub room : m.empty_bytes + length bytes ≡ buffer_size
  pub layout : window m.buffer buffer_size 0 m.read_index (length bytes) ≡ bytes

-- A byte written just behind a window extends it.
window-extend :
    (buf : List ℕ) (h n x : ℕ)
    → length buf ≡ buffer_size
    → h < buffer_size
    → n < buffer_size
    → window (set buf ((h + n) % buffer_size) x) buffer_size 0 h (suc n)
      ≡ window buf buffer_size 0 h n ++ x ∷ []
window-extend buf h n x storage lt fits =
    window-set buf buffer_size 0 x h (suc n) n (omega arith) lt (omega arith) (omega arith)
    ∙ ap (λ (l : List ℕ). set l n x) (window-snoc buf buffer_size 0 h n lt)
    ∙ set-append (window buf buffer_size 0 h n) [] n _ x (sym (length-window buf buffer_size 0 h n))

-- What stays the same while `put_all` runs, and the bytes that it has then written.
record Putting (m m' : Mailbox) (n : ℕ) (bytes : List ℕ) : Type 0 where
  pub storage : length m'.buffer ≡ buffer_size
  pub reads : m'.read_index ≡ m.read_index
  pub writes : m'.write_index ≡ m.write_index
  pub room : m'.empty_bytes + n ≡ m.empty_bytes
  pub queue : (m'.locked_queue ≡ m.locked_queue) × (m'.queue_index ≡ m.queue_index)
  pub layout : window m'.buffer buffer_size 0 m.read_index (length bytes) ≡ bytes

mod_congr :
    (a b k : ℕ) → a % buffer_size ≡ b % buffer_size → (a + k) % buffer_size ≡ (b + k) % buffer_size
mod_congr a b k e =
    sym (mod-add-mod a buffer_size k)
    ∙ ap (λ (j : ℕ). (j + k) % buffer_size) e
    ∙ mod-add-mod b buffer_size k

-- Two indices that agree round the ring agree one place on.
next_place :
    (w i r n n' : ℕ)
    → (w + i) % buffer_size ≡ (r + n) % buffer_size
    → n' ≡ suc n
    → (w + (i + 1)) % buffer_size ≡ (r + n') % buffer_size
next_place w i r n n' e k =
    ap (λ (j : ℕ). j % buffer_size) {x = w + (i + 1)} {y = w + i + 1} (omega arith)
    ∙ mod_congr (w + i) (r + n) 1 e
    ∙ ap (λ (j : ℕ). j % buffer_size) (omega arith)

start : (w b : ℕ) → 0 < buffer_size → w ≡ b % buffer_size → (w + 0) % buffer_size ≡ b % buffer_size
start w b pos e = add-zero-mod (rw e (mod-lt b pos)) ∙ e

put_all-Putting :
    (m : Mailbox) (i : ℕ) (xs bytes : List ℕ)
    → length m.buffer ≡ buffer_size
    → m.read_index < buffer_size
    → (m.write_index + i) % buffer_size ≡ (m.read_index + length bytes) % buffer_size
    → length bytes + length xs ≤ buffer_size
    → length xs ≤ m.empty_bytes
    → window m.buffer buffer_size 0 m.read_index (length bytes) ≡ bytes
    → Putting m (put_all m i xs) (length xs) (bytes ++ xs)
unfolding put_all put
put_all-Putting m i [] bytes storage lt at fits room layout = rw (append-nil bytes) (record {
  storage = storage;
  reads = refl;
  writes = refl;
  room = omega arith;
  queue = (refl, refl);
  layout = layout;
})
put_all-Putting m i (x ∷ xs) bytes storage lt at fits room layout =
    let n : length (bytes ++ x ∷ []) ≡ suc (length bytes) =
      omega (arith, length-append bytes (x ∷ [])) in
    let ih =
      put_all-Putting (put m i x) (i + 1) xs (bytes ++ x ∷ [])
        (length-set m.buffer ((m.write_index + i) % buffer_size) x ∙ storage) lt
        (next_place m.write_index i m.read_index (length bytes) (length (bytes ++ x ∷ [])) at n)
        (omega arith) (omega arith)
        (ap (window (put m i x).buffer buffer_size 0 m.read_index) n
          ∙ ap
              (λ (j : ℕ). window (set m.buffer j x) buffer_size 0 m.read_index (suc (length bytes)))
              at
          ∙ window-extend m.buffer m.read_index (length bytes) x storage lt (omega arith)
          ∙ ap (λ (l : List ℕ). l ++ x ∷ []) layout) in
    rw (← append_assoc bytes (x ∷ []) xs) (record {
      storage = ih.storage;
      reads = ih.reads;
      writes = ih.writes;
      room = let r = ih.room in omega arith;
      queue = ih.queue;
      layout = ih.layout;
    })

-- Writing what fits appends it to the stream.
pub put_all-Holds :
    (m : Mailbox) (xs bytes : List ℕ)
    → Holds m bytes
    → length xs ≤ m.empty_bytes
    → let m' = put_all m 0 xs in
      Holds (record m' { write_index = (m'.write_index + length xs) % buffer_size }) (bytes ++ xs)
      × (m'.locked_queue ≡ m.locked_queue)
      × (m'.queue_index ≡ m.queue_index)
put_all-Holds m xs bytes h fits =
    let p =
      put_all-Putting m 0 xs bytes h.storage h.read_in
        (start m.write_index (m.read_index + length bytes) (let l = h.read_in in omega arith)
          h.write_at)
        (let r = h.room in omega arith) fits h.layout in
    (
      record {
        storage = p.storage;
        read_in = rw p.reads h.read_in;
        write_at =
            ap₂ (λ (a b : ℕ). (a + b) % buffer_size) (p.writes ∙ h.write_at) refl
            ∙ mod-add-mod (m.read_index + length bytes) buffer_size (length xs)
            ∙ ap (λ (j : ℕ). j % buffer_size)
                (let r = p.reads in omega (arith, length-append bytes xs));
        room = let r = p.room in let r' = h.room in omega (arith, length-append bytes xs);
        layout = rw p.reads p.layout;
      },
      p.queue.0,
      p.queue.1,
    )

-- What `get_all` returns and changes.
record Got (m : Mailbox) (h n : ℕ) (out : List ℕ × Mailbox) : Type 0 where
  pub bytes : out.0 ≡ window m.buffer buffer_size 0 h n
  pub rest : out.1 ≡ record m { empty_bytes = m.empty_bytes + n }

get_all-Got :
    (m : Mailbox) (i n h : ℕ)
    → h < buffer_size
    → (m.read_index + i) % buffer_size ≡ h
    → Got m h n (get_all m i n)
unfolding get_all
get_all-Got m i zero h lt at = record {
  bytes = refl;
  rest = ap (λ (k : ℕ). record m { empty_bytes = k }) (omega arith);
}
get_all-Got m i (suc n) h lt at =
    let ih =
      get_all-Got (record m { empty_bytes = m.empty_bytes + 1 }) (i + 1) n ((h + 1) % buffer_size)
        (mod-lt (h + 1) (omega arith))
        (next_place m.read_index i h 0 1 (at ∙ sym (add-zero-mod lt)) refl) in
    record {
      bytes = ap₂ ◌∷◌ (ap (λ (j : ℕ). get_or m.buffer j 0) at) ih.bytes;
      rest = ih.rest ∙ ap (λ (k : ℕ). record m { empty_bytes = k }) (omega arith);
    }

-- Reading bytes that are there takes them from the front of the stream.
pub take_bytes-Holds :
    (m : Mailbox) (n : ℕ) (bytes : List ℕ)
    → Holds m bytes
    → n ≤ length bytes
    → let (dest, m') = take_bytes m n in (dest ≡ take n bytes) × Holds m' (drop n bytes)
unfolding take_bytes
take_bytes-Holds m n bytes h fits =
    let got = get_all-Got m 0 n m.read_index h.read_in (add-zero-mod h.read_in) in
    let k = length bytes - n in
    let split : bytes
        ≡ window m.buffer buffer_size 0 m.read_index n
          ++ window m.buffer buffer_size 0 ((m.read_index + n) % buffer_size) k =
      sym h.layout
      ∙ ap (window m.buffer buffer_size 0 m.read_index) (omega arith)
      ∙ window-append m.buffer buffer_size 0 m.read_index n k h.read_in in
    let size = sym (length-window m.buffer buffer_size 0 m.read_index n) in
    (
      got.bytes ∙ sym (ap (take n) split ∙ take-append _ _ n size),
      subst
          (λ (m' : Mailbox).
            Holds (record m' { read_index = (m'.read_index + n) % buffer_size }) (drop n bytes))
          (sym got.rest)
          (record {
            storage = h.storage;
            read_in = mod-lt (m.read_index + n) (let l = h.read_in in omega arith);
            write_at =
                h.write_at
                ∙ ap (λ (j : ℕ). j % buffer_size) {y = m.read_index + n + k} (omega arith)
                ∙ sym (mod-add-mod (m.read_index + n) buffer_size k)
                ∙ ap (λ (j : ℕ). ((m.read_index + n) % buffer_size + j) % buffer_size)
                    (sym (length-drop n bytes));
            room = let r = h.room in omega (arith, length-drop n bytes);
            layout =
                ap (window m.buffer buffer_size 0 ((m.read_index + n) % buffer_size))
                  (length-drop n bytes)
                ∙ sym (ap (drop n) split ∙ drop-append _ _ n size);
          }),
    )

buffer_pos : 0 < buffer_size
unfolding buffer_size
buffer_pos = omega arith

-- A new mailbox is empty.
pub fresh-Holds : (name slots : List ℕ) → Holds (fresh name slots) []
unfolding fresh
fresh-Holds name slots = record {
  storage = length-replicate buffer_size 0;
  read_in = buffer_pos;
  write_at = sym (add-zero-mod buffer_pos);
  room = omega arith;
  layout = refl;
}
