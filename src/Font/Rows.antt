-- ===== src/Font/Rows.antt =====
-- The bitmap of a character is inside the table.
use horaci_os.Prelude.{ℕ, ◌+◌, ◌≤◌, ◌≡◌, refl, arith, length, length-drop}
use horaci_os.Font.{char_height, font_bitmap, char_offset, char_bitmap}

table_size : length font_bitmap ≡ 1536
unfolding font_bitmap
table_size = refl

offset_le : (c : ℕ) → char_offset c + 16 ≤ 1536
unfolding char_offset
offset_le c = ground arith

-- For every character code, printable or not, the sixteen rows that charBitmap points to are inside
-- the font's table.
pub char_bitmap_fits : (c : ℕ) → char_height ≤ length (char_bitmap c)
unfolding char_bitmap char_offset
char_bitmap_fits c =
    let n = length-drop (char_offset c) font_bitmap in
    let s = table_size in let b = offset_le c in omega arith
