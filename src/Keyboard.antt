-- ===== src/Keyboard.antt =====
-- The keyboard (Kernel/keyboard.c): the buffer of typed characters, and the handler that fills it.
-- A scan code is the 32-bit pattern of what `readKey` returns.
pub mod Buffer
use horaci_os.Prelude.{
  ℕ, zero, suc, ◌+◌, ◌-◌, List, [], ◌∷◌, Bool, true, false, not, ◌&&◌, ◌||◌, ◌==◌, leb,
  if◌then◌else◌, get_or, set, replicate,
}

-- BUFFER_SIZE.
unfoldable pub key_buffer_size : ℕ
key_buffer_size = 257

-- `buffer`, `buffer_index` and `shift`.
pub record Keyboard : Type 0 where
  pub buffer : List ℕ
  pub buffer_index : ℕ
  pub shift : Bool

unfoldable pub clear_buffer : Keyboard → Keyboard
clear_buffer k = record k { buffer = replicate key_buffer_size 0; buffer_index = 0 }

-- `shiftBufferRight` from index `i`, with `n` indices from there to the end. The character before
-- index 0 is not defined in the program, which overwrites the copy of it.
unfoldable pub shift_buffer_right : ℕ → ℕ → List ℕ → List ℕ
shift_buffer_right zero i b = b
shift_buffer_right (suc n) i b =
    let moved = shift_buffer_right n (i + 1) b in set moved i (get_or moved (i - 1) 0)

-- The loop of `shiftBufferLeft` from index `i`. What it copies from behind the end is overwritten.
unfoldable pub shift_from : ℕ → ℕ → List ℕ → List ℕ
shift_from zero i b = b
shift_from (suc n) i b = shift_from n (i + 1) (set b i (get_or b (i + 1) 0))

unfoldable pub shift_buffer_left : Keyboard → Keyboard
shift_buffer_left k = record k {
  buffer = set (shift_from key_buffer_size 0 k.buffer) (key_buffer_size - 1) 0;
  buffer_index = 0;
}

unfoldable pub buffer_cursor_left : Keyboard → Keyboard
buffer_cursor_left k = record k { buffer_index = k.buffer_index - 1 }

-- A character goes to the index, and those behind it move on.
unfoldable pub insert : Keyboard → ℕ → Keyboard
insert k c = record k {
  buffer =
      set (shift_buffer_right (key_buffer_size - k.buffer_index) k.buffer_index k.buffer)
        k.buffer_index c;
  buffer_index = k.buffer_index + 1;
}

-- A full buffer loses its first character.
unfoldable pub add_to_buffer : Keyboard → ℕ → Keyboard
add_to_buffer k c =
    if get_or k.buffer (key_buffer_size - 2) 0 == 0
    then insert k c
    else insert (buffer_cursor_left (shift_buffer_left k)) c

unfoldable pub get_first_in_buffer : Keyboard → ℕ × Keyboard
get_first_in_buffer k = (get_or k.buffer 0 0, shift_buffer_left k)

-- The tables of characters without and with shift, by scan code. Codes that stand for a key and not
-- a character are in them as their own number.
unfoldable pub unshifted_keys : List ℕ
unshifted_keys =
    0 ∷ 1 ∷ 49 ∷ 50 ∷ 51 ∷ 52 ∷ 53 ∷ 54 ∷ 55 ∷ 56 ∷ 57 ∷ 48 ∷ 45 ∷ 61 ∷ 14 ∷ 15 ∷ 113 ∷ 119 ∷ 101
    ∷ 114 ∷ 116 ∷ 121 ∷ 117 ∷ 105 ∷ 111 ∷ 112 ∷ 91 ∷ 93 ∷ 28 ∷ 0 ∷ 97 ∷ 115 ∷ 100 ∷ 102 ∷ 103 ∷ 104
    ∷ 106 ∷ 107 ∷ 108 ∷ 126 ∷ 123 ∷ 0 ∷ 0 ∷ 125 ∷ 122 ∷ 120 ∷ 99 ∷ 118 ∷ 98 ∷ 110 ∷ 109 ∷ 44 ∷ 46
    ∷ 45 ∷ 0 ∷ 42 ∷ 0 ∷ 32 ∷ 58 ∷ 59 ∷ 60 ∷ 61 ∷ 62 ∷ 63 ∷ 64 ∷ 65 ∷ 66 ∷ 67 ∷ 68 ∷ 0 ∷ 0 ∷ 71 ∷ 72
    ∷ 73 ∷ 45 ∷ 75 ∷ 53 ∷ 77 ∷ 43 ∷ 79 ∷ 80 ∷ 81 ∷ 82 ∷ 83 ∷ 0 ∷ 0 ∷ 60 ∷ 87 ∷ 88 ∷ []

unfoldable pub shifted_keys : List ℕ
shifted_keys =
    0 ∷ 1 ∷ 33 ∷ 34 ∷ 35 ∷ 36 ∷ 37 ∷ 38 ∷ 47 ∷ 40 ∷ 41 ∷ 61 ∷ 63 ∷ 32 ∷ 14 ∷ 9 ∷ 81 ∷ 87 ∷ 69 ∷ 82
    ∷ 84 ∷ 89 ∷ 85 ∷ 73 ∷ 79 ∷ 80 ∷ 123 ∷ 125 ∷ 28 ∷ 0 ∷ 65 ∷ 83 ∷ 68 ∷ 70 ∷ 71 ∷ 72 ∷ 74 ∷ 75 ∷ 76
    ∷ 92 ∷ 91 ∷ 32 ∷ 0 ∷ 93 ∷ 90 ∷ 88 ∷ 67 ∷ 86 ∷ 66 ∷ 78 ∷ 77 ∷ 59 ∷ 58 ∷ 95 ∷ 0 ∷ 42 ∷ 0 ∷ 32 ∷ 58
    ∷ 59 ∷ 60 ∷ 61 ∷ 62 ∷ 63 ∷ 64 ∷ 65 ∷ 66 ∷ 67 ∷ 68 ∷ 0 ∷ 0 ∷ 71 ∷ 72 ∷ 73 ∷ 45 ∷ 75 ∷ 0 ∷ 77 ∷ 43
    ∷ 79 ∷ 80 ∷ 81 ∷ 82 ∷ 83 ∷ 0 ∷ 0 ∷ 62 ∷ 87 ∷ 88 ∷ []

abbrev pub between : ℕ → ℕ → ℕ → Bool
between a b key = leb a key && leb key b

unfoldable pub is_character : ℕ → Bool
is_character key =
    between 2 13 key
    || between 16 27 key
    || between 30 40 key
    || between 43 53 key
    || key == 55
    || key == 57
    || key == 74
    || key == 78
    || key == 86
    || key == 14

-- `keypress_handler`, given what `readKey` returned. ENTER adds a line feed.
unfoldable pub keypress_handler : ℕ → Keyboard → Keyboard
keypress_handler key k =
    if key == 42 || key == 54
    then record k { shift = true }
    else if key == 58
    then record k { shift = not k.shift }
    else if key == 4294967210 || key == 4294967222
    then record k { shift = false }
    else if is_character key
    then add_to_buffer k (get_or (if k.shift then shifted_keys else unshifted_keys) key 0)
    else if key == 28
    then add_to_buffer k 10
    else k
