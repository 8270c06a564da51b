-- ===== src/Console.antt =====
-- The console (Kernel/naiveConsole.c): the pixels of a linear frame buffer and a cursor. Memory is a
-- function from addresses, counted from the start of the frame buffer, to bytes. Coordinates are
-- `unsigned int`.
pub mod Text
pub mod Numbers
pub mod Inside
pub mod Screen
pub mod Lines
use horaci_os.Prelude.{
  ℕ, zero, suc, ◌+◌, ◌-◌, ◌*◌, ◌/◌, ◌%◌, ◌^◌, List, [], ◌∷◌, Bool, true, false, ◌&&◌, not, ◌==◌,
  ltb, leb, if◌then◌else◌, get_or,
}
use horaci_os.Font.{char_height, char_width, char_bitmap}

-- `screenData` and `cursor`.
pub record Console : Type 0 where
  pub pitch : ℕ
  pub width : ℕ
  pub height : ℕ
  pub pixels : ℕ → ℕ
  pub x : ℕ
  pub y : ℕ

-- Sums and products of `unsigned int`.
abbrev pub word : ℕ → ℕ
word n = n % 2 ^ 32

-- LAST_LINE, where it is converted to `unsigned int`.
abbrev pub last_line : Console → ℕ
last_line s = word (s.height + 2 ^ 32 - char_height)

-- FONT_COLOR and BACKGROUND_COLOR.
abbrev pub font_color : ℕ
font_color = 16777215

abbrev pub background_color : ℕ
background_color = 0

unfoldable pub store : ℕ → ℕ → (ℕ → ℕ) → ℕ → ℕ
store a v px b = if b == a then v else px b

unfoldable pub putpixel : ℕ → ℕ → ℕ → Console → Console
putpixel x y color s =
    let at = word (x * 3 + y * s.pitch) in
    let blue = store at (color % 256) s.pixels in
    let green = store (word (at + 1)) (color / 256 % 256) blue in
    record s { pixels = store (word (at + 2)) (color / 65536 % 256) green }

-- The two loops of `fillRect`, over the columns and rows that are left.
unfoldable pub fill_column : ℕ → ℕ → ℕ → ℕ → Console → Console
fill_column zero x y color s = s
fill_column (suc h) x y color s = fill_column h x (y + 1) color (putpixel x y color s)

unfoldable pub fill_columns : ℕ → ℕ → ℕ → ℕ → ℕ → Console → Console
fill_columns zero h x y color s = s
fill_columns (suc w) h x y color s = fill_columns w h (x + 1) y color (fill_column h x y color s)

unfoldable pub fill_rect : ℕ → ℕ → ℕ → ℕ → ℕ → Console → Console
fill_rect x y color w h s = fill_columns w h x y color s

-- `1 << i & bitmap[j]`.
abbrev pub bit : List ℕ → ℕ → ℕ → Bool
bit bitmap i j = (get_or bitmap j 0 / 2 ^ i % 2) == 1

-- The two loops that draw a glyph, from bit `i` and row `j`, each with the rounds that are left.
unfoldable pub draw_column : ℕ → List ℕ → ℕ → ℕ → ℕ → ℕ → ℕ → ℕ → Console → Console
draw_column zero bitmap i j x y color bg s = s
draw_column (suc rows) bitmap i j x y color bg s = draw_column rows bitmap i (j + 1) x y color bg (
    putpixel (word (x + char_width + 2 ^ 32 - i)) (word (y + j))
      (if bit bitmap i j then color else bg) s)

unfoldable pub draw_columns : ℕ → List ℕ → ℕ → ℕ → ℕ → ℕ → ℕ → Console → Console
draw_columns zero bitmap i x y color bg s = s
draw_columns (suc columns) bitmap i x y color bg s =
    draw_columns columns bitmap (i + 1) x y color bg
      (draw_column char_height bitmap i 0 x y color bg s)

unfoldable pub draw_glyph : ℕ → ℕ → ℕ → ℕ → ℕ → Console → Console
draw_glyph c x y color bg s = draw_columns char_width (char_bitmap c) 0 x y color bg s

-- The loops of `copyLine`, as one: the bytes from `source` on go to `dest`, three each round.
unfoldable pub copy_line_bytes : ℕ → ℕ → ℕ → (ℕ → ℕ) → ℕ → ℕ
copy_line_bytes zero source dest px = px
copy_line_bytes (suc rounds) source dest px =
    let one = store dest (px source) px in
    let two = store (dest + 1) (one (source + 1)) one in
    copy_line_bytes rounds (source + 1) (dest + 1) (store (dest + 2) (two (source + 2)) two)

unfoldable pub copy_line : ℕ → ℕ → Console → Console
copy_line source dest s = record s {
  pixels = copy_line_bytes (3 * char_height * s.width) (s.pitch * source) (s.pitch * dest) s.pixels;
}

-- `printCharPosition`, which returns whether it has changed the line; `scroll` is `scrollUp`.
unfoldable pub print_char_position :
    (Console → Console) → ℕ → ℕ → ℕ → ℕ → ℕ → Console → Bool × Console
print_char_position scroll c color bg x y s =
    let draw : ℕ → ℕ → Console → Console = λ x y s. draw_glyph c x y color bg s in
    if c == 0
    then (false, s)
    else if leb s.width (word (x + char_width))
    then (if leb s.height (word (y + char_height))
        then (true, draw 0 (last_line s) (scroll s))
        else (false, draw 0 (word (y + char_height)) s))
    else (false, draw x y s)

-- The loop of `eraseLine`, with the columns that are left. Its places are so far to the left that the
-- call of `printCharPosition` does not scroll.
unfoldable pub erase_from : ℕ → ℕ → ℕ → Console → Console
erase_from zero x y s = s
erase_from (suc fuel) x y s =
    let erased = (print_char_position (λ t. t) 32 background_color background_color x y s).1 in
    let rest = erase_from fuel (x + char_width) y erased in
    if ltb x (s.width - char_width) then rest else s

unfoldable pub erase_line : ℕ → Console → Console
erase_line y s = erase_from s.width 0 y s

-- The loop of `scrollUp` from line `y`, on fuel.
unfoldable pub scroll_from : ℕ → ℕ → Console → Console
scroll_from zero y s = s
scroll_from (suc fuel) y s =
    let rest = scroll_from fuel (y + char_height) (copy_line y (y - char_height) s) in
    if leb (y + char_height) s.height then rest else s

unfoldable pub scroll_up : Console → Console
scroll_up s = erase_line (s.height - char_height) (scroll_from s.height char_height s)

-- The wrap at the end of a line that `printCharFormat` and `cursorRight` begin with.
unfoldable pub wrap_line : Console → Console
wrap_line s =
    if leb s.width (word (s.x + char_width))
    then (if leb s.height (word (s.y + char_height))
        then record (scroll_up s) { x = 0; y = last_line s }
        else record s { x = 0; y = word (s.y + char_height) })
    else s

unfoldable pub print_char_format : ℕ → ℕ → ℕ → Console → Console
print_char_format c color bg s =
    let t = wrap_line s in
    let drawn = draw_glyph c t.x t.y color bg t in
    if c == 0 then s else record drawn { x = word (t.x + char_width) }

unfoldable pub cursor_right : Console → Console
cursor_right s = let t = wrap_line s in record t { x = word (t.x + char_width) }

unfoldable pub cursor_left : Console → Console
cursor_left s =
    if ltb s.x char_width && not (s.y == 0)
    then record s {
      y = word (s.y + 2 ^ 32 - char_height);
      x = word (s.width - s.width % char_width + 2 ^ 32 - 2 * char_width);
    }
    else if leb char_width s.x
    then record s { x = s.x - char_width }
    else s

unfoldable pub set_cursor : ℕ → ℕ → Console → Console
set_cursor x y s = record s { x = x; y = y }

unfoldable pub reset_cursor : Console → Console
reset_cursor s = set_cursor 0 0 s

unfoldable pub clear_screen : Console → Console
clear_screen s = record (fill_rect 0 0 background_color s.width s.height s) { x = 0; y = 0 }

-- The loop of `newLine`, on fuel: to the right as long as the cursor is on the line.
unfoldable pub leave_line : ℕ → ℕ → Console → Console
leave_line zero y s = s
leave_line (suc fuel) y s =
    let rest = leave_line fuel y (cursor_right s) in if s.y == y then rest else s

unfoldable pub new_line : Console → Console
new_line s =
    let left = leave_line (s.width + 1) s.y s in
    if ltb s.y (last_line s)
    then record left { x = word (left.x + 2 ^ 32 - char_width) }
    else record (scroll_up s) { x = 0; y = last_line s }

unfoldable pub new_big_line : ℕ → Console → Console
new_big_line zero s = s
new_big_line (suc size) s = new_big_line size (new_line s)

unfoldable pub get_screen_width : Console → ℕ
get_screen_width s = s.width

unfoldable pub get_screen_height : Console → ℕ
get_screen_height s = s.height

unfoldable pub get_cursor_x : Console → ℕ
get_cursor_x s = s.x

unfoldable pub get_cursor_y : Console → ℕ
get_cursor_y s = s.y
