-- ===== src/Console/Inside.antt =====
-- What drawing writes: pixels of the frame buffer and nothing else.
use native.Mathlib.Nat.{mul-le-mul_right}
use horaci_os.Prelude.{
  ℕ, zero, suc, ◌+◌, ◌-◌, ◌*◌, ◌^◌, ◌<◌, ◌≤◌, ◌≡◌, ◌≢◌, refl, ◌∙◌, sym, ap, subst, List,
  if◌then◌else◌, arith,
}
use horaci_os.Font.{char_height, char_width, char_bitmap}
use horaci_os.Console.{
  Console, word, bit, store, putpixel, draw_column, draw_columns, draw_glyph, copy_line_bytes,
  copy_line,
}

-- A screen of at least three bytes for each pixel of a line, with whole lines of characters.
pub record Screen (pitch width height : ℕ) : Type 0 where
  pub line : 3 * width ≤ pitch
  pub wide : width < 2 ^ 16
  pub high : height < 2 ^ 16
  pub pitch_small : pitch < 2 ^ 16
  pub tall : 16 ≤ height
  pub room : 16 < width

-- `t` is `s` but for the bytes of its frame buffer.
pub record Drawn (s t : Console) : Type 0 where
  pub same : t ≡ record s { pixels = t.pixels }
  pub kept : (a : ℕ) → s.pitch * s.height ≤ a → t.pixels a ≡ s.pixels a

abbrev pub OnScreen : Console → Type 0
OnScreen s = Screen s.pitch s.width s.height

pub Drawn-self : (s : Console) → Drawn s s
Drawn-self s = record { same = refl; kept = λ a le. refl }

-- What is proved of what `t` has in common with `s`.
pub along :
    {s t : Console} (P : ℕ → ℕ → ℕ → ℕ → ℕ → Type 0)
    → Drawn s t
    → P s.pitch s.width s.height s.x s.y
    → P t.pitch t.width t.height t.x t.y
along {s = s} {t = t} P d h =
    subst (λ (r : Console). P r.pitch r.width r.height r.x r.y) (sym d.same) h

pub Drawn-trans : {r s t : Console} → Drawn r s → Drawn s t → Drawn r t
Drawn-trans {r = r} {s = s} {t = t} d e = record {
  same = e.same ∙ ap (λ (q : Console). record q { pixels = t.pixels }) d.same;
  kept = λ a le. e.kept a (along (λ p w h x y. p * h ≤ a) d le) ∙ d.kept a le;
}

store_ne : (a v : ℕ) (px : ℕ → ℕ) (b : ℕ) → b ≢ a → store a v px b ≡ px b
unfolding store
store_ne a v px b ne = ground arith

-- The bytes of a pixel that is on the screen are in the frame buffer.
pixel_inside :
    (p w h x y : ℕ) → Screen p w h → x < w → y < h → (x * 3 + y * p + 2 < p * h) × (p * h < 2 ^ 32)
pixel_inside p w h x y v lx ly =
    let l = v.line in
    let a = v.pitch_small in
    let b = v.high in
    let rows = mul-le-mul_right {m = y + 1} {n = h} p (omega arith) in
    let all = mul-le-mul_right {m = p} {n = 2 ^ 16} h (omega arith) in (grind arith, grind arith)

pub putpixel-Drawn :
    (x y color : ℕ) (s : Console)
    → OnScreen s
    → x < s.width
    → y < s.height
    → Drawn s (putpixel x y color s)
unfolding putpixel
putpixel-Drawn x y color s v lx ly =
    let (inside, small) = pixel_inside s.pitch s.width s.height x y v lx ly in
    record {
      same = refl;
      kept = λ a le.
          store_ne _ _ _ a (omega arith)
          ∙ store_ne _ _ _ a (omega arith)
          ∙ store_ne _ _ _ a (omega arith);
    }

draw_column-Drawn :
    (rows : ℕ) (bitmap : List ℕ) (i j x y color bg : ℕ) (s : Console)
    → OnScreen s
    → i < 8
    → x + 8 < s.width
    → y + j + rows ≤ s.height
    → Drawn s (draw_column rows bitmap i j x y color bg s)
unfolding draw_column
draw_column-Drawn zero bitmap i j x y color bg s v li lx ly = Drawn-self s
draw_column-Drawn (suc rows) bitmap i j x y color bg s v li lx ly =
    let w = v.wide in
    let h = v.high in
    let d =
      putpixel-Drawn (word (x + char_width + 2 ^ 32 - i)) (word (y + j))
        (if bit bitmap i j then color else bg) s v (omega arith) (omega arith) in
    Drawn-trans d (
      draw_column-Drawn rows bitmap i (j + 1) x y color bg _ (along (λ p w h x y. Screen p w h) d v)
        li (along (λ p w h _ _. x + 8 < w) d lx)
        (along (λ p w h _ _. y + (j + 1) + rows ≤ h) d (omega arith)))

draw_columns-Drawn :
    (columns : ℕ) (bitmap : List ℕ) (i x y color bg : ℕ) (s : Console)
    → OnScreen s
    → i + columns ≤ 8
    → x + 8 < s.width
    → y + 16 ≤ s.height
    → Drawn s (draw_columns columns bitmap i x y color bg s)
unfolding draw_columns
draw_columns-Drawn zero bitmap i x y color bg s v li lx ly = Drawn-self s
draw_columns-Drawn (suc columns) bitmap i x y color bg s v li lx ly =
    let d = draw_column-Drawn 16 bitmap i 0 x y color bg s v (omega arith) lx (omega arith) in
    Drawn-trans d (
      draw_columns-Drawn columns bitmap (i + 1) x y color bg _
        (along (λ p w h x y. Screen p w h) d v) (omega arith) (along (λ p w h _ _. x + 8 < w) d lx)
        (along (λ p w h _ _. y + 16 ≤ h) d ly))

pub draw_glyph-Drawn :
    (c x y color bg : ℕ) (s : Console)
    → OnScreen s
    → x + 8 < s.width
    → y + 16 ≤ s.height
    → Drawn s (draw_glyph c x y color bg s)
unfolding draw_glyph
draw_glyph-Drawn c x y color bg s v lx ly =
    draw_columns-Drawn 8 (char_bitmap c) 0 x y color bg s v (omega arith) lx ly

copied_kept :
    (rounds source dest : ℕ) (px : ℕ → ℕ) (a : ℕ)
    → dest + rounds + 2 ≤ a
    → copy_line_bytes rounds source dest px a ≡ px a
unfolding copy_line_bytes
copied_kept zero source dest px a le = refl
copied_kept (suc rounds) source dest px a le =
    copied_kept rounds (source + 1) (dest + 1) _ a (omega arith)
    ∙ store_ne _ _ _ a (omega arith)
    ∙ store_ne _ _ _ a (omega arith)
    ∙ store_ne _ _ _ a (omega arith)

-- A line that goes up stays in the frame buffer.
pub copy_line-Drawn :
    (source dest : ℕ) (s : Console)
    → OnScreen s
    → dest + 16 < s.height
    → Drawn s (copy_line source dest s)
unfolding copy_line
copy_line-Drawn source dest s v lt =
    let l = v.line in
    let w = v.room in
    let rows = mul-le-mul_right {m = dest + 17} {n = s.height} s.pitch (omega arith) in
    let end : s.pitch * dest + 3 * char_height * s.width + 2 ≤ s.pitch * s.height = grind arith in
    record { same = refl; kept = λ a le. copied_kept _ _ _ s.pixels a (omega arith) }
