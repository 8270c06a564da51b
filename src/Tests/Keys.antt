-- ===== src/Tests/Keys.antt =====
-- The keyboard's buffer at work.
use horaci_os.Prelude.{◌≡◌, refl, ◌∷◌, length, replicate, false}
use horaci_os.Keyboard.{Keyboard, key_buffer_size, add_to_buffer, get_first_in_buffer}
use horaci_os.Keyboard.Buffer.{typed_ahead}

-- "ab" was typed.
abbrev typed : Keyboard
typed = record { buffer = 97 ∷ 98 ∷ replicate 255 0; buffer_index = 2; shift = false }

size : length typed.buffer ≡ key_buffer_size
unfolding key_buffer_size
size = refl

typed_ahead_example :
    (add_to_buffer (get_first_in_buffer typed).1 99).buffer ≡ 99 ∷ 98 ∷ replicate 255 0
unfolding key_buffer_size
typed_ahead_example = typed_ahead typed 97 98 (replicate 255 0) 99 refl size refl
