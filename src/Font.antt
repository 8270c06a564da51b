-- ===== src/Font.antt =====
-- The font (Kernel/font.c and Kernel/include/font.h): the bitmap of each character. An `unsigned
-- char*` into the table is the list of the rows from there on.
mod Lower
mod Upper
pub mod Rows
use horaci_os.Prelude.{ℕ, ◌+◌, ◌-◌, ◌*◌, List, ◌++◌, Bool, ◌&&◌, leb, if◌then◌else◌, drop}
use horaci_os.Font.Lower.{glyphs_0, glyphs_8, glyphs_16, glyphs_24, glyphs_32, glyphs_40}
use horaci_os.Font.Upper.{glyphs_48, glyphs_56, glyphs_64, glyphs_72, glyphs_80, glyphs_88}

-- CHAR_HEIGHT and CHAR_WIDTH.
abbrev pub char_height : ℕ
char_height = 16

abbrev pub char_width : ℕ
char_width = 8

-- `font_bitmap`: a glyph for what is not printable, then those from ' ' on.
unfoldable pub font_bitmap : List ℕ
font_bitmap =
    glyphs_0
    ++ (glyphs_8
        ++ (glyphs_16
            ++ (glyphs_24
                ++ (glyphs_32
                    ++ (glyphs_40
                        ++ (glyphs_48
                            ++ (glyphs_56
                                ++ (glyphs_64 ++ (glyphs_72 ++ (glyphs_80 ++ (glyphs_88)))))))))))

-- `charBitmap`: where the rows of a character start in the table.
unfoldable pub char_offset : ℕ → ℕ
char_offset c = if leb 32 c && leb c 126 then char_height * (c - 32 + 1) else 0

unfoldable pub char_bitmap : ℕ → List ℕ
unfolding char_offset
char_bitmap c = drop (char_offset c) font_bitmap

unfoldable pub get_char_height : ℕ
get_char_height = char_height

unfoldable pub get_char_width : ℕ
get_char_width = char_width
