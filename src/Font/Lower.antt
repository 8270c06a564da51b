-- ===== src/Font/Lower.antt =====
-- The rows of the glyphs of Kernel/font.c, one for what is not printable and those of the characters 32 to 78: sixteen of each, the leftmost pixel in the highest of
-- eight bits.
use horaci_os.Prelude.{ℕ, List, [], ◌∷◌}

abbrev pub glyphs_0 : List ℕ
glyphs_0 =
    0 ∷ 0 ∷ 218 ∷ 2 ∷ 128 ∷ 130 ∷ 2 ∷ 128 ∷ 130 ∷ 2 ∷ 128 ∷ 182 ∷ 0 ∷ 0 ∷ 0 ∷ 0 ∷ 0 ∷ 0 ∷ 0 ∷ 0 ∷ 0
    ∷ 0 ∷ 0 ∷ 0 ∷ 0 ∷ 0 ∷ 0 ∷ 0 ∷ 0 ∷ 0 ∷ 0 ∷ 0 ∷ 0 ∷ 0 ∷ 24 ∷ 60 ∷ 60 ∷ 60 ∷ 24 ∷ 24 ∷ 24 ∷ 0 ∷ 24
    ∷ 24 ∷ 0 ∷ 0 ∷ 0 ∷ 0 ∷ 0 ∷ 102 ∷ 102 ∷ 102 ∷ 36 ∷ 0 ∷ 0 ∷ 0 ∷ 0 ∷ 0 ∷ 0 ∷ 0 ∷ 0 ∷ 0 ∷ 0 ∷ 0 ∷ 0
    ∷ 0 ∷ 0 ∷ 108 ∷ 108 ∷ 254 ∷ 108 ∷ 108 ∷ 108 ∷ 254 ∷ 108 ∷ 108 ∷ 0 ∷ 0 ∷ 0 ∷ 0 ∷ 24 ∷ 24 ∷ 124
    ∷ 198 ∷ 194 ∷ 192 ∷ 124 ∷ 6 ∷ 6 ∷ 134 ∷ 198 ∷ 124 ∷ 24 ∷ 24 ∷ 0 ∷ 0 ∷ 0 ∷ 0 ∷ 0 ∷ 0 ∷ 194 ∷ 198
    ∷ 12 ∷ 24 ∷ 48 ∷ 96 ∷ 198 ∷ 134 ∷ 0 ∷ 0 ∷ 0 ∷ 0 ∷ 0 ∷ 0 ∷ 56 ∷ 108 ∷ 108 ∷ 56 ∷ 118 ∷ 220 ∷ 204
    ∷ 204 ∷ 204 ∷ 118 ∷ 0 ∷ 0 ∷ 0 ∷ 0 ∷ []

abbrev pub glyphs_8 : List ℕ
glyphs_8 =
    0 ∷ 48 ∷ 48 ∷ 48 ∷ 32 ∷ 0 ∷ 0 ∷ 0 ∷ 0 ∷ 0 ∷ 0 ∷ 0 ∷ 0 ∷ 0 ∷ 0 ∷ 0 ∷ 0 ∷ 0 ∷ 12 ∷ 24 ∷ 48 ∷ 48
    ∷ 48 ∷ 48 ∷ 48 ∷ 48 ∷ 24 ∷ 12 ∷ 0 ∷ 0 ∷ 0 ∷ 0 ∷ 0 ∷ 0 ∷ 48 ∷ 24 ∷ 12 ∷ 12 ∷ 12 ∷ 12 ∷ 12 ∷ 12
    ∷ 24 ∷ 48 ∷ 0 ∷ 0 ∷ 0 ∷ 0 ∷ 0 ∷ 0 ∷ 0 ∷ 0 ∷ 0 ∷ 102 ∷ 60 ∷ 255 ∷ 60 ∷ 102 ∷ 0 ∷ 0 ∷ 0 ∷ 0 ∷ 0
    ∷ 0 ∷ 0 ∷ 0 ∷ 0 ∷ 0 ∷ 0 ∷ 24 ∷ 24 ∷ 126 ∷ 24 ∷ 24 ∷ 0 ∷ 0 ∷ 0 ∷ 0 ∷ 0 ∷ 0 ∷ 0 ∷ 0 ∷ 0 ∷ 0 ∷ 0
    ∷ 0 ∷ 0 ∷ 0 ∷ 0 ∷ 24 ∷ 24 ∷ 24 ∷ 48 ∷ 0 ∷ 0 ∷ 0 ∷ 0 ∷ 0 ∷ 0 ∷ 0 ∷ 0 ∷ 0 ∷ 0 ∷ 254 ∷ 0 ∷ 0 ∷ 0
    ∷ 0 ∷ 0 ∷ 0 ∷ 0 ∷ 0 ∷ 0 ∷ 0 ∷ 0 ∷ 0 ∷ 0 ∷ 0 ∷ 0 ∷ 0 ∷ 0 ∷ 0 ∷ 24 ∷ 24 ∷ 0 ∷ 0 ∷ 0 ∷ 0 ∷ []

abbrev pub glyphs_16 : List ℕ
glyphs_16 =
    0 ∷ 0 ∷ 0 ∷ 0 ∷ 2 ∷ 6 ∷ 12 ∷ 24 ∷ 48 ∷ 96 ∷ 192 ∷ 128 ∷ 0 ∷ 0 ∷ 0 ∷ 0 ∷ 0 ∷ 0 ∷ 56 ∷ 108 ∷ 198
    ∷ 198 ∷ 214 ∷ 214 ∷ 198 ∷ 198 ∷ 108 ∷ 56 ∷ 0 ∷ 0 ∷ 0 ∷ 0 ∷ 0 ∷ 0 ∷ 24 ∷ 56 ∷ 120 ∷ 24 ∷ 24 ∷ 24
    ∷ 24 ∷ 24 ∷ 24 ∷ 126 ∷ 0 ∷ 0 ∷ 0 ∷ 0 ∷ 0 ∷ 0 ∷ 124 ∷ 198 ∷ 6 ∷ 12 ∷ 24 ∷ 48 ∷ 96 ∷ 192 ∷ 198
    ∷ 254 ∷ 0 ∷ 0 ∷ 0 ∷ 0 ∷ 0 ∷ 0 ∷ 124 ∷ 198 ∷ 6 ∷ 6 ∷ 60 ∷ 6 ∷ 6 ∷ 6 ∷ 198 ∷ 124 ∷ 0 ∷ 0 ∷ 0 ∷ 0
    ∷ 0 ∷ 0 ∷ 12 ∷ 28 ∷ 60 ∷ 108 ∷ 204 ∷ 254 ∷ 12 ∷ 12 ∷ 12 ∷ 30 ∷ 0 ∷ 0 ∷ 0 ∷ 0 ∷ 0 ∷ 0 ∷ 254 ∷ 192
    ∷ 192 ∷ 192 ∷ 252 ∷ 6 ∷ 6 ∷ 6 ∷ 198 ∷ 124 ∷ 0 ∷ 0 ∷ 0 ∷ 0 ∷ 0 ∷ 0 ∷ 56 ∷ 96 ∷ 192 ∷ 192 ∷ 252
    ∷ 198 ∷ 198 ∷ 198 ∷ 198 ∷ 124 ∷ 0 ∷ 0 ∷ 0 ∷ 0 ∷ []

abbrev pub glyphs_24 : List ℕ
glyphs_24 =
    0 ∷ 0 ∷ 254 ∷ 198 ∷ 6 ∷ 6 ∷ 12 ∷ 24 ∷ 48 ∷ 48 ∷ 48 ∷ 48 ∷ 0 ∷ 0 ∷ 0 ∷ 0 ∷ 0 ∷ 0 ∷ 124 ∷ 198
    ∷ 198 ∷ 198 ∷ 124 ∷ 198 ∷ 198 ∷ 198 ∷ 198 ∷ 124 ∷ 0 ∷ 0 ∷ 0 ∷ 0 ∷ 0 ∷ 0 ∷ 124 ∷ 198 ∷ 198 ∷ 198
    ∷ 126 ∷ 6 ∷ 6 ∷ 6 ∷ 12 ∷ 120 ∷ 0 ∷ 0 ∷ 0 ∷ 0 ∷ 0 ∷ 0 ∷ 0 ∷ 0 ∷ 24 ∷ 24 ∷ 0 ∷ 0 ∷ 0 ∷ 24 ∷ 24 ∷ 0
    ∷ 0 ∷ 0 ∷ 0 ∷ 0 ∷ 0 ∷ 0 ∷ 0 ∷ 0 ∷ 24 ∷ 24 ∷ 0 ∷ 0 ∷ 0 ∷ 24 ∷ 24 ∷ 48 ∷ 0 ∷ 0 ∷ 0 ∷ 0 ∷ 0 ∷ 0 ∷ 0
    ∷ 6 ∷ 12 ∷ 24 ∷ 48 ∷ 96 ∷ 48 ∷ 24 ∷ 12 ∷ 6 ∷ 0 ∷ 0 ∷ 0 ∷ 0 ∷ 0 ∷ 0 ∷ 0 ∷ 0 ∷ 0 ∷ 126 ∷ 0 ∷ 0
    ∷ 126 ∷ 0 ∷ 0 ∷ 0 ∷ 0 ∷ 0 ∷ 0 ∷ 0 ∷ 0 ∷ 0 ∷ 0 ∷ 96 ∷ 48 ∷ 24 ∷ 12 ∷ 6 ∷ 12 ∷ 24 ∷ 48 ∷ 96 ∷ 0
    ∷ 0 ∷ 0 ∷ 0 ∷ []

abbrev pub glyphs_32 : List ℕ
glyphs_32 =
    0 ∷ 0 ∷ 124 ∷ 198 ∷ 198 ∷ 12 ∷ 24 ∷ 24 ∷ 24 ∷ 0 ∷ 24 ∷ 24 ∷ 0 ∷ 0 ∷ 0 ∷ 0 ∷ 0 ∷ 0 ∷ 0 ∷ 124
    ∷ 198 ∷ 198 ∷ 222 ∷ 222 ∷ 222 ∷ 220 ∷ 192 ∷ 124 ∷ 0 ∷ 0 ∷ 0 ∷ 0 ∷ 0 ∷ 0 ∷ 16 ∷ 56 ∷ 108 ∷ 198
    ∷ 198 ∷ 254 ∷ 198 ∷ 198 ∷ 198 ∷ 198 ∷ 0 ∷ 0 ∷ 0 ∷ 0 ∷ 0 ∷ 0 ∷ 252 ∷ 102 ∷ 102 ∷ 102 ∷ 124 ∷ 102
    ∷ 102 ∷ 102 ∷ 102 ∷ 252 ∷ 0 ∷ 0 ∷ 0 ∷ 0 ∷ 0 ∷ 0 ∷ 60 ∷ 102 ∷ 194 ∷ 192 ∷ 192 ∷ 192 ∷ 192 ∷ 194
    ∷ 102 ∷ 60 ∷ 0 ∷ 0 ∷ 0 ∷ 0 ∷ 0 ∷ 0 ∷ 248 ∷ 108 ∷ 102 ∷ 102 ∷ 102 ∷ 102 ∷ 102 ∷ 102 ∷ 108 ∷ 248
    ∷ 0 ∷ 0 ∷ 0 ∷ 0 ∷ 0 ∷ 0 ∷ 254 ∷ 102 ∷ 98 ∷ 104 ∷ 120 ∷ 104 ∷ 96 ∷ 98 ∷ 102 ∷ 254 ∷ 0 ∷ 0 ∷ 0 ∷ 0
    ∷ 0 ∷ 0 ∷ 254 ∷ 102 ∷ 98 ∷ 104 ∷ 120 ∷ 104 ∷ 96 ∷ 96 ∷ 96 ∷ 240 ∷ 0 ∷ 0 ∷ 0 ∷ 0 ∷ []

abbrev pub glyphs_40 : List ℕ
glyphs_40 =
    0 ∷ 0 ∷ 60 ∷ 102 ∷ 194 ∷ 192 ∷ 192 ∷ 222 ∷ 198 ∷ 198 ∷ 102 ∷ 58 ∷ 0 ∷ 0 ∷ 0 ∷ 0 ∷ 0 ∷ 0 ∷ 198
    ∷ 198 ∷ 198 ∷ 198 ∷ 254 ∷ 198 ∷ 198 ∷ 198 ∷ 198 ∷ 198 ∷ 0 ∷ 0 ∷ 0 ∷ 0 ∷ 0 ∷ 0 ∷ 60 ∷ 24 ∷ 24
    ∷ 24 ∷ 24 ∷ 24 ∷ 24 ∷ 24 ∷ 24 ∷ 60 ∷ 0 ∷ 0 ∷ 0 ∷ 0 ∷ 0 ∷ 0 ∷ 30 ∷ 12 ∷ 12 ∷ 12 ∷ 12 ∷ 12 ∷ 204
    ∷ 204 ∷ 204 ∷ 120 ∷ 0 ∷ 0 ∷ 0 ∷ 0 ∷ 0 ∷ 0 ∷ 230 ∷ 102 ∷ 102 ∷ 108 ∷ 120 ∷ 120 ∷ 108 ∷ 102 ∷ 102
    ∷ 230 ∷ 0 ∷ 0 ∷ 0 ∷ 0 ∷ 0 ∷ 0 ∷ 240 ∷ 96 ∷ 96 ∷ 96 ∷ 96 ∷ 96 ∷ 96 ∷ 98 ∷ 102 ∷ 254 ∷ 0 ∷ 0 ∷ 0
    ∷ 0 ∷ 0 ∷ 0 ∷ 198 ∷ 238 ∷ 254 ∷ 254 ∷ 214 ∷ 198 ∷ 198 ∷ 198 ∷ 198 ∷ 198 ∷ 0 ∷ 0 ∷ 0 ∷ 0 ∷ 0 ∷ 0
    ∷ 198 ∷ 230 ∷ 246 ∷ 254 ∷ 222 ∷ 206 ∷ 198 ∷ 198 ∷ 198 ∷ 198 ∷ 0 ∷ 0 ∷ 0 ∷ 0 ∷ []
