-- ===== src/Tests/Screens.antt =====
-- The console, and numbers as text.
use horaci_os.Prelude.{ℕ, ◌≡◌, refl, arith}
use horaci_os.Console.Numbers.{uint_to_base, value_from, uint_to_base_lem}
use horaci_os.Console.{Console, print_char_format}
use horaci_os.Console.Screen.{Printed, print_char_format_lem}

-- A screen of 1024 by 768 pixels, with the cursor at the end of the last line.
abbrev screen : Console
screen = record {
  pitch = 3072;
  width = 1024;
  height = 768;
  pixels = λ (a : ℕ). 7;
  x = 1016;
  y = 752;
}

print_char_format_lem_example : Printed screen (print_char_format 65 16777215 0 screen)
print_char_format_lem_example =
    print_char_format_lem 65 16777215 0 screen
      (record {
        line = omega arith;
        wide = omega arith;
        high = omega arith;
        pitch_small = omega arith;
        tall = omega arith;
        room = omega arith;
      })
      (record { column = omega arith; row = omega arith; whole = refl; aligned = refl })

abbrev top : Console
top = record screen { x = 24; y = 32 }

uint_to_base_lem_example : value_from 16 0 (uint_to_base 48879 16) ≡ 48879
uint_to_base_lem_example = uint_to_base_lem 48879 16 (omega arith) (omega arith) (omega arith)
