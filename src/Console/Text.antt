-- ===== src/Console/Text.antt =====
-- Strings on the screen: the functions of Kernel/naiveConsole.c that print one character after another,
-- and large characters.
use horaci_os.Prelude.{
  ℕ, zero, suc, ◌+◌, ◌-◌, ◌*◌, ◌^◌, List, [], ◌∷◌, Option, none, some, ◌==◌, ltb, leb, ◌≢◌, ◌≡◌,
  refl, ◌∙◌, arith, Bool-cases, inl, inr, if◌then◌else◌,
}
use horaci_os.Font.{char_height, char_width, char_bitmap}
use horaci_os.Console.{
  Console, word, bit, font_color, background_color, print_char_format, print_char_position,
  scroll_up, fill_rect,
}

unfoldable pub print_char : ℕ → Console → Console
print_char c s = print_char_format c font_color background_color s

unfoldable pub print_format : List ℕ → ℕ → ℕ → Console → Console
print_format [] color bg s = s
print_format (c ∷ text) color bg s =
    let rest = print_format text color bg (print_char_format c color bg s) in
    if c == 0 then s else rest

unfoldable pub print : List ℕ → Console → Console
print [] s = s
print (c ∷ text) s =
    let rest = print text (print_char_format c font_color background_color s) in
    if c == 0 then s else rest

-- The loop of `printPosition`, on fuel, `none` when that runs out; the string is not moved on.
unfoldable pub print_position : ℕ → List ℕ → ℕ → ℕ → ℕ → ℕ → Console → Option Console
print_position zero text color bg x y s = none
print_position (suc fuel) [] color bg x y s = some s
print_position (suc fuel) (c ∷ text) color bg x y s =
    let (flag, t) = print_char_position scroll_up c color bg x y s in
    let same = print_position fuel (c ∷ text) color bg (word (x + char_width)) y t in
    let moved = print_position fuel (c ∷ text) color bg x (word (y + char_height)) t in
    if c == 0 then some s else if flag then moved else same

unfoldable pub scroll_times : ℕ → Console → Console
scroll_times zero s = s
scroll_times (suc n) s = scroll_times n (scroll_up s)

-- The loops of `printBigCharFormat` that draw a glyph, each pixel a square.
unfoldable pub draw_big_column : ℕ → List ℕ → ℕ → ℕ → ℕ → ℕ → ℕ → ℕ → ℕ → Console → Console
draw_big_column zero bitmap i j x y color bg size s = s
draw_big_column (suc rows) bitmap i j x y color bg size s =
    draw_big_column rows bitmap i (j + 1) x y color bg size (
      fill_rect (word (x + (char_width - i) * size)) (word (y + j * size))
        (if bit bitmap i j then color else bg) size size s)

unfoldable pub draw_big_columns : ℕ → List ℕ → ℕ → ℕ → ℕ → ℕ → ℕ → ℕ → Console → Console
draw_big_columns zero bitmap i x y color bg size s = s
draw_big_columns (suc columns) bitmap i x y color bg size s =
    draw_big_columns columns bitmap (i + 1) x y color bg size
      (draw_big_column char_height bitmap i 0 x y color bg size s)

-- Where the line ends, or the character is too tall, the cursor goes to room for it.
unfoldable pub wrap_big_line : ℕ → Console → Console
wrap_big_line size s =
    let bottom = word (s.height + 2 ^ 32 - char_height * size) in
    if leb s.width (word (s.x + char_width * size))
    then (if leb s.height (word (s.y + char_height * size))
        then record (scroll_times size s) { x = 0; y = bottom }
        else record s { x = 0; y = word (s.y + char_height * size) })
    else s

unfoldable pub make_room : ℕ → Console → Console
make_room size s =
    if ltb s.height (word (s.y + char_height * size))
    then record (scroll_times size s) { y = word (s.height + 2 ^ 32 - char_height * size) }
    else s

unfoldable pub print_big_char_format : ℕ → ℕ → ℕ → ℕ → Console → Console
print_big_char_format c color bg size s =
    let t = make_room size (wrap_big_line size s) in
    let drawn = draw_big_columns char_width (char_bitmap c) 0 t.x t.y color bg size t in
    if c == 0 then s else record drawn { x = word (t.x + char_width * size) }

unfoldable pub print_big_char : ℕ → ℕ → Console → Console
print_big_char c size s = print_big_char_format c font_color background_color size s

unfoldable pub print_big_format : List ℕ → ℕ → ℕ → ℕ → Console → Console
print_big_format [] color bg size s = s
print_big_format (c ∷ text) color bg size s =
    let rest = print_big_format text color bg size (print_big_char_format c color bg size s) in
    if c == 0 then s else rest

unfoldable pub print_big : List ℕ → ℕ → Console → Console
print_big text size s = print_big_format text font_color background_color size s

print_position_step :
    (fuel c : ℕ) (text : List ℕ) (color bg x y : ℕ) (s : Console)
    → c ≢ 0
    → (x' : ℕ) × (y' : ℕ) × (t : Console) × (print_position (suc fuel) (c ∷ text) color bg x y s
        ≡ print_position fuel (c ∷ text) color bg x' y' t)
unfolding print_position
print_position_step fuel c text color bg x y s ne =
    let r = print_char_position scroll_up c color bg x y s in
    elim (Bool-cases r.0) [
      | inl moved ↦ (x, word (y + char_height), r.1, rw moved (ground arith))
      | inr same ↦ (word (x + char_width), y, r.1, rw same (ground arith))
    ]

-- printPosition never comes to an end with a string that is not empty: however many rounds its loop
-- makes, it has not returned.
print_position_spins :
    (fuel c : ℕ) (text : List ℕ) (color bg x y : ℕ) (s : Console)
    → c ≢ 0
    → print_position fuel (c ∷ text) color bg x y s ≡ none
unfolding print_position
print_position_spins zero c text color bg x y s ne = refl
print_position_spins (suc fuel) c text color bg x y s ne =
    let (x', y', t, e) = print_position_step fuel c text color bg x y s ne in
    e ∙ print_position_spins fuel c text color bg x' y' t ne
