-- ===== src/Font/Upper.antt =====
-- The rows of the glyphs of Kernel/font.c, those of the characters 79 to 126: sixteen of each, the leftmost pixel in the highest of
-- eight bits.
use horaci_os.Prelude.{ℕ, List, [], ◌∷◌}

abbrev pub glyphs_48 : List ℕ
glyphs_48 =
    0 ∷ 0 ∷ 124 ∷ 198 ∷ 198 ∷ 198 ∷ 198 ∷ 198 ∷ 198 ∷ 198 ∷ 198 ∷ 124 ∷ 0 ∷ 0 ∷ 0 ∷ 0 ∷ 0 ∷ 0 ∷ 252
    ∷ 102 ∷ 102 ∷ 102 ∷ 124 ∷ 96 ∷ 96 ∷ 96 ∷ 96 ∷ 240 ∷ 0 ∷ 0 ∷ 0 ∷ 0 ∷ 0 ∷ 0 ∷ 124 ∷ 198 ∷ 198
    ∷ 198 ∷ 198 ∷ 198 ∷ 198 ∷ 214 ∷ 222 ∷ 124 ∷ 12 ∷ 14 ∷ 0 ∷ 0 ∷ 0 ∷ 0 ∷ 252 ∷ 102 ∷ 102 ∷ 102
    ∷ 124 ∷ 108 ∷ 102 ∷ 102 ∷ 102 ∷ 230 ∷ 0 ∷ 0 ∷ 0 ∷ 0 ∷ 0 ∷ 0 ∷ 124 ∷ 198 ∷ 198 ∷ 96 ∷ 56 ∷ 12 ∷ 6
    ∷ 198 ∷ 198 ∷ 124 ∷ 0 ∷ 0 ∷ 0 ∷ 0 ∷ 0 ∷ 0 ∷ 126 ∷ 126 ∷ 90 ∷ 24 ∷ 24 ∷ 24 ∷ 24 ∷ 24 ∷ 24 ∷ 60
    ∷ 0 ∷ 0 ∷ 0 ∷ 0 ∷ 0 ∷ 0 ∷ 198 ∷ 198 ∷ 198 ∷ 198 ∷ 198 ∷ 198 ∷ 198 ∷ 198 ∷ 198 ∷ 124 ∷ 0 ∷ 0 ∷ 0
    ∷ 0 ∷ 0 ∷ 0 ∷ 198 ∷ 198 ∷ 198 ∷ 198 ∷ 198 ∷ 198 ∷ 198 ∷ 108 ∷ 56 ∷ 16 ∷ 0 ∷ 0 ∷ 0 ∷ 0 ∷ []

abbrev pub glyphs_56 : List ℕ
glyphs_56 =
    0 ∷ 0 ∷ 198 ∷ 198 ∷ 198 ∷ 198 ∷ 214 ∷ 214 ∷ 214 ∷ 254 ∷ 238 ∷ 108 ∷ 0 ∷ 0 ∷ 0 ∷ 0 ∷ 0 ∷ 0 ∷ 198
    ∷ 198 ∷ 108 ∷ 124 ∷ 56 ∷ 56 ∷ 124 ∷ 108 ∷ 198 ∷ 198 ∷ 0 ∷ 0 ∷ 0 ∷ 0 ∷ 0 ∷ 0 ∷ 102 ∷ 102 ∷ 102
    ∷ 102 ∷ 60 ∷ 24 ∷ 24 ∷ 24 ∷ 24 ∷ 60 ∷ 0 ∷ 0 ∷ 0 ∷ 0 ∷ 0 ∷ 0 ∷ 254 ∷ 198 ∷ 134 ∷ 12 ∷ 24 ∷ 48
    ∷ 96 ∷ 194 ∷ 198 ∷ 254 ∷ 0 ∷ 0 ∷ 0 ∷ 0 ∷ 0 ∷ 0 ∷ 60 ∷ 48 ∷ 48 ∷ 48 ∷ 48 ∷ 48 ∷ 48 ∷ 48 ∷ 48 ∷ 60
    ∷ 0 ∷ 0 ∷ 0 ∷ 0 ∷ 0 ∷ 0 ∷ 0 ∷ 128 ∷ 192 ∷ 224 ∷ 112 ∷ 56 ∷ 28 ∷ 14 ∷ 6 ∷ 2 ∷ 0 ∷ 0 ∷ 0 ∷ 0 ∷ 0
    ∷ 0 ∷ 60 ∷ 12 ∷ 12 ∷ 12 ∷ 12 ∷ 12 ∷ 12 ∷ 12 ∷ 12 ∷ 60 ∷ 0 ∷ 0 ∷ 0 ∷ 0 ∷ 16 ∷ 56 ∷ 108 ∷ 198 ∷ 0
    ∷ 0 ∷ 0 ∷ 0 ∷ 0 ∷ 0 ∷ 0 ∷ 0 ∷ 0 ∷ 0 ∷ 0 ∷ 0 ∷ []

abbrev pub glyphs_64 : List ℕ
glyphs_64 =
    0 ∷ 0 ∷ 0 ∷ 0 ∷ 0 ∷ 0 ∷ 0 ∷ 0 ∷ 0 ∷ 0 ∷ 0 ∷ 0 ∷ 0 ∷ 255 ∷ 0 ∷ 0 ∷ 48 ∷ 48 ∷ 24 ∷ 0 ∷ 0 ∷ 0 ∷ 0
    ∷ 0 ∷ 0 ∷ 0 ∷ 0 ∷ 0 ∷ 0 ∷ 0 ∷ 0 ∷ 0 ∷ 0 ∷ 0 ∷ 0 ∷ 0 ∷ 0 ∷ 120 ∷ 12 ∷ 124 ∷ 204 ∷ 204 ∷ 204 ∷ 118
    ∷ 0 ∷ 0 ∷ 0 ∷ 0 ∷ 0 ∷ 0 ∷ 224 ∷ 96 ∷ 96 ∷ 120 ∷ 108 ∷ 102 ∷ 102 ∷ 102 ∷ 102 ∷ 124 ∷ 0 ∷ 0 ∷ 0
    ∷ 0 ∷ 0 ∷ 0 ∷ 0 ∷ 0 ∷ 0 ∷ 124 ∷ 198 ∷ 192 ∷ 192 ∷ 192 ∷ 198 ∷ 124 ∷ 0 ∷ 0 ∷ 0 ∷ 0 ∷ 0 ∷ 0 ∷ 28
    ∷ 12 ∷ 12 ∷ 60 ∷ 108 ∷ 204 ∷ 204 ∷ 204 ∷ 204 ∷ 118 ∷ 0 ∷ 0 ∷ 0 ∷ 0 ∷ 0 ∷ 0 ∷ 0 ∷ 0 ∷ 0 ∷ 124
    ∷ 198 ∷ 254 ∷ 192 ∷ 192 ∷ 198 ∷ 124 ∷ 0 ∷ 0 ∷ 0 ∷ 0 ∷ 0 ∷ 0 ∷ 56 ∷ 108 ∷ 100 ∷ 96 ∷ 240 ∷ 96
    ∷ 96 ∷ 96 ∷ 96 ∷ 240 ∷ 0 ∷ 0 ∷ 0 ∷ 0 ∷ []

abbrev pub glyphs_72 : List ℕ
glyphs_72 =
    0 ∷ 0 ∷ 0 ∷ 0 ∷ 0 ∷ 118 ∷ 204 ∷ 204 ∷ 204 ∷ 204 ∷ 204 ∷ 124 ∷ 12 ∷ 204 ∷ 120 ∷ 0 ∷ 0 ∷ 0 ∷ 224
    ∷ 96 ∷ 96 ∷ 108 ∷ 118 ∷ 102 ∷ 102 ∷ 102 ∷ 102 ∷ 230 ∷ 0 ∷ 0 ∷ 0 ∷ 0 ∷ 0 ∷ 0 ∷ 24 ∷ 24 ∷ 0 ∷ 56
    ∷ 24 ∷ 24 ∷ 24 ∷ 24 ∷ 24 ∷ 60 ∷ 0 ∷ 0 ∷ 0 ∷ 0 ∷ 0 ∷ 0 ∷ 6 ∷ 6 ∷ 0 ∷ 14 ∷ 6 ∷ 6 ∷ 6 ∷ 6 ∷ 6 ∷ 6
    ∷ 102 ∷ 102 ∷ 60 ∷ 0 ∷ 0 ∷ 0 ∷ 224 ∷ 96 ∷ 96 ∷ 102 ∷ 108 ∷ 120 ∷ 120 ∷ 108 ∷ 102 ∷ 230 ∷ 0 ∷ 0
    ∷ 0 ∷ 0 ∷ 0 ∷ 0 ∷ 56 ∷ 24 ∷ 24 ∷ 24 ∷ 24 ∷ 24 ∷ 24 ∷ 24 ∷ 24 ∷ 60 ∷ 0 ∷ 0 ∷ 0 ∷ 0 ∷ 0 ∷ 0 ∷ 0
    ∷ 0 ∷ 0 ∷ 236 ∷ 254 ∷ 214 ∷ 214 ∷ 214 ∷ 214 ∷ 198 ∷ 0 ∷ 0 ∷ 0 ∷ 0 ∷ 0 ∷ 0 ∷ 0 ∷ 0 ∷ 0 ∷ 220
    ∷ 102 ∷ 102 ∷ 102 ∷ 102 ∷ 102 ∷ 102 ∷ 0 ∷ 0 ∷ 0 ∷ 0 ∷ []

abbrev pub glyphs_80 : List ℕ
glyphs_80 =
    0 ∷ 0 ∷ 0 ∷ 0 ∷ 0 ∷ 124 ∷ 198 ∷ 198 ∷ 198 ∷ 198 ∷ 198 ∷ 124 ∷ 0 ∷ 0 ∷ 0 ∷ 0 ∷ 0 ∷ 0 ∷ 0 ∷ 0 ∷ 0
    ∷ 220 ∷ 102 ∷ 102 ∷ 102 ∷ 102 ∷ 102 ∷ 124 ∷ 96 ∷ 96 ∷ 240 ∷ 0 ∷ 0 ∷ 0 ∷ 0 ∷ 0 ∷ 0 ∷ 118 ∷ 204
    ∷ 204 ∷ 204 ∷ 204 ∷ 204 ∷ 124 ∷ 12 ∷ 12 ∷ 30 ∷ 0 ∷ 0 ∷ 0 ∷ 0 ∷ 0 ∷ 0 ∷ 220 ∷ 118 ∷ 102 ∷ 96 ∷ 96
    ∷ 96 ∷ 240 ∷ 0 ∷ 0 ∷ 0 ∷ 0 ∷ 0 ∷ 0 ∷ 0 ∷ 0 ∷ 0 ∷ 124 ∷ 198 ∷ 96 ∷ 56 ∷ 12 ∷ 198 ∷ 124 ∷ 0 ∷ 0
    ∷ 0 ∷ 0 ∷ 0 ∷ 0 ∷ 16 ∷ 48 ∷ 48 ∷ 252 ∷ 48 ∷ 48 ∷ 48 ∷ 48 ∷ 54 ∷ 28 ∷ 0 ∷ 0 ∷ 0 ∷ 0 ∷ 0 ∷ 0 ∷ 0
    ∷ 0 ∷ 0 ∷ 204 ∷ 204 ∷ 204 ∷ 204 ∷ 204 ∷ 204 ∷ 118 ∷ 0 ∷ 0 ∷ 0 ∷ 0 ∷ 0 ∷ 0 ∷ 0 ∷ 0 ∷ 0 ∷ 102
    ∷ 102 ∷ 102 ∷ 102 ∷ 102 ∷ 60 ∷ 24 ∷ 0 ∷ 0 ∷ 0 ∷ 0 ∷ []

abbrev pub glyphs_88 : List ℕ
glyphs_88 =
    0 ∷ 0 ∷ 0 ∷ 0 ∷ 0 ∷ 198 ∷ 198 ∷ 214 ∷ 214 ∷ 214 ∷ 254 ∷ 108 ∷ 0 ∷ 0 ∷ 0 ∷ 0 ∷ 0 ∷ 0 ∷ 0 ∷ 0 ∷ 0
    ∷ 198 ∷ 108 ∷ 56 ∷ 56 ∷ 56 ∷ 108 ∷ 198 ∷ 0 ∷ 0 ∷ 0 ∷ 0 ∷ 0 ∷ 0 ∷ 0 ∷ 0 ∷ 0 ∷ 198 ∷ 198 ∷ 198
    ∷ 198 ∷ 198 ∷ 198 ∷ 126 ∷ 6 ∷ 12 ∷ 248 ∷ 0 ∷ 0 ∷ 0 ∷ 0 ∷ 0 ∷ 0 ∷ 254 ∷ 204 ∷ 24 ∷ 48 ∷ 96 ∷ 198
    ∷ 254 ∷ 0 ∷ 0 ∷ 0 ∷ 0 ∷ 0 ∷ 0 ∷ 14 ∷ 24 ∷ 24 ∷ 24 ∷ 112 ∷ 24 ∷ 24 ∷ 24 ∷ 24 ∷ 14 ∷ 0 ∷ 0 ∷ 0 ∷ 0
    ∷ 0 ∷ 0 ∷ 24 ∷ 24 ∷ 24 ∷ 24 ∷ 0 ∷ 24 ∷ 24 ∷ 24 ∷ 24 ∷ 24 ∷ 0 ∷ 0 ∷ 0 ∷ 0 ∷ 0 ∷ 0 ∷ 112 ∷ 24 ∷ 24
    ∷ 24 ∷ 14 ∷ 24 ∷ 24 ∷ 24 ∷ 24 ∷ 112 ∷ 0 ∷ 0 ∷ 0 ∷ 0 ∷ 0 ∷ 0 ∷ 118 ∷ 220 ∷ 0 ∷ 0 ∷ 0 ∷ 0 ∷ 0 ∷ 0
    ∷ 0 ∷ 0 ∷ 0 ∷ 0 ∷ 0 ∷ 0 ∷ []
