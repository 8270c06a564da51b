-- ===== src/Console/Screen.antt =====
-- Printing of characters: nothing is written behind the frame buffer, and the cursor stays on the
-- screen.
use native.Mathlib.Decide.{dec_lt, ℕ_discrete}
use horaci_os.Prelude.{
  ℕ, zero, suc, ◌+◌, ◌-◌, ◌*◌, ◌%◌, ◌^◌, ◌<◌, ◌≤◌, ◌≡◌, ◌≢◌, refl, ◌∙◌, sym, subst, true, false,
  ltb, leb, arith,
}
use horaci_os.Console.{
  Console, word, draw_glyph, copy_line, print_char_position, erase_from, erase_line, scroll_from,
  scroll_up, last_line, background_color, wrap_line, print_char_format,
}
use horaci_os.Console.Inside.{
  Screen, OnScreen, Drawn, Drawn-self, Drawn-trans, along, draw_glyph-Drawn, copy_line-Drawn,
}

-- With room for the character `scroll` is not used.
position_in_line :
    (scroll : Console → Console) (c color bg x y : ℕ) (s : Console)
    → c ≢ 0
    → x + 8 < s.width
    → s.width < 2 ^ 16
    → print_char_position scroll c color bg x y s ≡ (false, draw_glyph c x y color bg s)
unfolding print_char_position
position_in_line scroll c color bg x y s ne lt w = ground arith

erase_step :
    (fuel x y : ℕ) (s : Console)
    → x < s.width - 8
    → s.width < 2 ^ 16
    → erase_from (suc fuel) x y s
      ≡ erase_from fuel (x + 8) y (draw_glyph 32 x y background_color background_color s)
unfolding erase_from
erase_step fuel x y s lt w =
    let e =
      position_in_line (λ t. t) 32 background_color background_color x y s (omega arith)
        (omega arith) w in
    let t : ltb x (s.width - 8) ≡ true = ground arith in rw (t, e) refl

erase_done : (fuel x y : ℕ) (s : Console) → s.width - 8 ≤ x → erase_from fuel x y s ≡ s
unfolding erase_from
erase_done zero x y s le = refl
erase_done (suc fuel) x y s le = ground arith

erase_from-Drawn :
    (fuel x y : ℕ) (s : Console) → OnScreen s → y + 16 ≤ s.height → Drawn s (erase_from fuel x y s)
unfolding erase_from
erase_from-Drawn zero x y s v ly = Drawn-self s
erase_from-Drawn (suc fuel) x y s v ly = elim (dec_lt x (s.width - 8)) [
  | no out ↦ subst (Drawn s) (sym (erase_done (suc fuel) x y s (omega arith))) (Drawn-self s)
  | yes lt ↦
      let d = draw_glyph-Drawn 32 x y background_color background_color s v (omega arith) ly in
      subst (Drawn s) (sym (erase_step fuel x y s lt v.wide)) (
        Drawn-trans d (
          erase_from-Drawn fuel (x + 8) y _ (along (λ p w h _ _. Screen p w h) d v)
            (along (λ p w h _ _. y + 16 ≤ h) d ly)))
]

scroll_step :
    (fuel y : ℕ) (s : Console)
    → y + 16 ≤ s.height
    → scroll_from (suc fuel) y s ≡ scroll_from fuel (y + 16) (copy_line y (y - 16) s)
unfolding scroll_from
scroll_step fuel y s le = ground arith

scroll_done : (fuel y : ℕ) (s : Console) → s.height < y + 16 → scroll_from fuel y s ≡ s
unfolding scroll_from
scroll_done zero y s lt = refl
scroll_done (suc fuel) y s lt = ground arith

scroll_from-Drawn :
    (fuel y : ℕ) (s : Console) → OnScreen s → 16 ≤ y → Drawn s (scroll_from fuel y s)
unfolding scroll_from
scroll_from-Drawn zero y s v ly = Drawn-self s
scroll_from-Drawn (suc fuel) y s v ly = elim (dec_lt s.height (y + 16)) [
  | yes out ↦ subst (Drawn s) (sym (scroll_done (suc fuel) y s out)) (Drawn-self s)
  | no le ↦
      let d = copy_line-Drawn y (y - 16) s v (omega arith) in
      subst (Drawn s) (sym (scroll_step fuel y s (omega arith))) (
        Drawn-trans d
          (scroll_from-Drawn fuel (y + 16) _ (along (λ p w h _ _. Screen p w h) d v) (omega arith)))
]

pub scroll_up-Drawn : (s : Console) → OnScreen s → Drawn s (scroll_up s)
unfolding scroll_up erase_line
scroll_up-Drawn s v =
    let d = scroll_from-Drawn s.height 16 s v (omega arith) in
    let tall = v.tall in
    Drawn-trans d (
      erase_from-Drawn _ 0 (s.height - 16) _ (along (λ p w h _ _. Screen p w h) d v)
        (along (λ p w h _ _. s.height - 16 + 16 ≤ h) d (omega arith)))

-- The cursor is at a place of the grid of characters.
pub record Placed (width height x y : ℕ) : Type 0 where
  pub column : x < width
  pub row : y + 16 ≤ height
  pub whole : height % 16 ≡ 0
  pub aligned : y % 16 ≡ 0

-- What the wrap at the end of a line leaves: room for a character, and nothing written behind the frame
-- buffer.
record Wrapped (s t : Console) : Type 0 where
  screen : Screen t.pitch t.width t.height
  room : t.x + 8 < t.width
  row : t.y + 16 ≤ t.height
  whole : t.height % 16 ≡ 0
  aligned : t.y % 16 ≡ 0
  size : t.pitch * t.height ≡ s.pitch * s.height
  kept : (a : ℕ) → s.pitch * s.height ≤ a → t.pixels a ≡ s.pixels a

wrap_none : (s : Console) → s.x + 8 < s.width → s.width < 2 ^ 16 → wrap_line s ≡ s
unfolding wrap_line
wrap_none s lt w = ground arith

wrap_down :
    (s : Console)
    → s.width ≤ s.x + 8
    → s.x < 2 ^ 16
    → s.y + 16 < s.height
    → s.height < 2 ^ 16
    → wrap_line s ≡ record s { x = 0; y = s.y + 16 }
unfolding wrap_line
wrap_down s le w lt h = let e : word (s.y + 16) ≡ s.y + 16 = omega arith in ground arith

wrap_scrolls :
    (s : Console)
    → s.width ≤ s.x + 8
    → s.x < 2 ^ 16
    → s.y + 16 ≡ s.height
    → s.height < 2 ^ 16
    → wrap_line s ≡ record (scroll_up s) { x = 0; y = s.y }
unfolding wrap_line
wrap_scrolls s le w lt h =
    let e : last_line s ≡ s.y = omega arith in
    let f : leb s.width (word (s.x + 8)) ≡ true = ground arith in
    let g : leb s.height (word (s.y + 16)) ≡ true = ground arith in rw (f, g, e) refl

wrap_line-Wrapped :
    (s : Console) → OnScreen s → Placed s.width s.height s.x s.y → Wrapped s (wrap_line s)
wrap_line-Wrapped s v p =
    let w = v.wide in
    let h = v.high in
    let r = v.room in
    let a = p.column in
    let b = p.row in
    let c = p.whole in
    let e = p.aligned in
    elim (dec_lt (s.x + 8) s.width) [
      | yes lt ↦ subst (Wrapped s) (sym (wrap_none s lt w)) record {
        screen = v;
        room = lt;
        row = b;
        whole = c;
        aligned = e;
        size = refl;
        kept = λ a le. refl;
      }
      | no out ↦ elim (dec_lt (s.y + 16) s.height) [
        | yes lt ↦ subst (Wrapped s) (sym (wrap_down s (omega arith) (omega arith) lt h)) record {
          screen = v;
          room = omega arith;
          row = omega arith;
          whole = c;
          aligned = omega arith;
          size = refl;
          kept = λ a le. refl;
        }
        | no last ↦
            let d = scroll_up-Drawn s v in
            subst (Wrapped s) (sym (wrap_scrolls s (omega arith) (omega arith) (omega arith) h))
              record {
                screen = along (λ p w h _ _. Screen p w h) d v;
                room = along (λ p w h _ _. 0 + 8 < w) d (omega arith);
                row = along (λ p w h _ _. s.y + 16 ≤ h) d b;
                whole = along (λ p w h _ _. h % 16 ≡ 0) d c;
                aligned = e;
                size = along (λ p w h _ _. p * h ≡ s.pitch * s.height) d refl;
                kept = d.kept;
              }
      ]
    ]

print_some :
    (c color bg : ℕ) (s : Console)
    → c ≢ 0
    → print_char_format c color bg s
      ≡ record (draw_glyph c (wrap_line s).x (wrap_line s).y color bg (wrap_line s)) {
        x = word ((wrap_line s).x + 8);
      }
unfolding print_char_format
print_some c color bg s ne = ground arith

print_nothing : (c color bg : ℕ) (s : Console) → c ≡ 0 → print_char_format c color bg s ≡ s
unfolding print_char_format
print_nothing c color bg s e = ground arith

-- The screen and the cursor are in order, and the memory behind the frame buffer of `s` is untouched.
abbrev pub Printed : Console → Console → Type 0
Printed s t =
    Screen t.pitch t.width t.height
    × Placed t.width t.height t.x t.y
    × ((a : ℕ) → s.pitch * s.height ≤ a → t.pixels a ≡ s.pixels a)

drawn-Printed :
    (c color bg : ℕ) (s t : Console)
    → Wrapped s t
    → Printed s (record (draw_glyph c t.x t.y color bg t) { x = word (t.x + 8) })
drawn-Printed c color bg s t r =
    let d = draw_glyph-Drawn c t.x t.y color bg t r.screen r.room r.row in
    let (z, w) : (r : word (t.x + 8) < t.width) × (t.width < 2 ^ 16) =
      (let a = r.screen.wide in let b = r.room in (omega arith, a)) in
    let e = r.row in
    let f = r.whole in
    let g = r.aligned in
    (
      along (λ p w h _ _. Screen p w h) d r.screen,
      record {
        column = along (λ _ w _ _ _. word (t.x + 8) < w) d z;
        row = along (λ _ _ h _ y. y + 16 ≤ h) d e;
        whole = along (λ _ _ h _ _. h % 16 ≡ 0) d f;
        aligned = along (λ _ _ _ _ y. y % 16 ≡ 0) d g;
      },
      λ a le. d.kept a (subst (λ (n : ℕ). n ≤ a) (sym r.size) le) ∙ r.kept a le,
    )

-- A character on a screen, with the cursor in its grid of characters: the cursor is in the grid again,
-- whether the line was full or the screen scrolled, and no byte behind the frame buffer has changed.
pub print_char_format_lem :
    (c color bg : ℕ) (s : Console)
    → OnScreen s
    → Placed s.width s.height s.x s.y
    → Printed s (print_char_format c color bg s)
print_char_format_lem c color bg s v p = elim (ℕ_discrete c 0) [
  | yes z ↦ subst (Printed s) (sym (print_nothing c color bg s z)) (v, p, λ a le. refl)
  | no ne ↦
      subst (Printed s) (sym (print_some c color bg s ne))
        (drawn-Printed c color bg s (wrap_line s) (wrap_line-Wrapped s v p))
]
