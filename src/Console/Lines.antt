-- ===== src/Console/Lines.antt =====
-- Where the cursor goes at the end of a line.
use horaci_os.Prelude.{
  ℕ, zero, suc, ◌+◌, ◌-◌, ◌^◌, ◌<◌, ◌≤◌, ◌≡◌, ◌≢◌, refl, ◌∙◌, ap, true, ltb, arith,
}
use native.Mathlib.Decide.{dec_lt}
use horaci_os.Console.{Console, word, last_line, wrap_line, cursor_right, leave_line, new_line}

-- There is a line below that of the cursor, and the numbers are those of a screen.
pub record AboveLast (s : Console) : Type 0 where
  pub wide : s.width < 2 ^ 16
  pub high : s.height < 2 ^ 16
  pub x_small : s.x < 2 ^ 16
  pub below : s.y + 16 < s.height

right_in_line :
    (s : Console) → s.x < 2 ^ 16 → s.x + 8 < s.width → cursor_right s ≡ record s { x = s.x + 8 }
unfolding cursor_right wrap_line
right_in_line s small lt =
    let keeps : wrap_line s ≡ s = ground arith in
    let sum : word (s.x + 8) ≡ s.x + 8 = omega arith in rw (keeps, sum) refl

right_at_end :
    (s : Console)
    → AboveLast s
    → s.width ≤ s.x + 8
    → cursor_right s ≡ record s { x = 8; y = s.y + 16 }
unfolding cursor_right wrap_line
right_at_end s v le =
    let a = v.wide in
    let b = v.high in
    let c = v.x_small in
    let d = v.below in
    let sum : word (s.y + 16) ≡ s.y + 16 = omega arith in
    let wraps : wrap_line s ≡ record s { x = 0; y = s.y + 16 } = ground arith in rw (wraps) refl

leave_done : (fuel y : ℕ) (s : Console) → s.y ≢ y → leave_line fuel y s ≡ s
unfolding leave_line
leave_done zero y s ne = refl
leave_done (suc fuel) y s ne = ground arith

leave_step :
    (fuel y : ℕ) (s : Console)
    → s.y ≡ y
    → leave_line (suc fuel) y s ≡ leave_line fuel y (cursor_right s)
unfolding leave_line
leave_step fuel y s e = ground arith

leave_line_lem :
    (fuel : ℕ) (s : Console)
    → AboveLast s
    → s.width < fuel + s.x
    → 0 < fuel
    → leave_line fuel s.y s ≡ record s { x = 8; y = s.y + 16 }
leave_line_lem zero s v lt pos = absurd (omega arith)
leave_line_lem (suc fuel) s v lt pos = elim (dec_lt (s.x + 8) s.width) [
  | yes inside ↦
      let w = v.wide in
      let ih =
        leave_line_lem fuel (record s { x = s.x + 8 })
          (record { wide = v.wide; high = v.high; x_small = omega arith; below = v.below })
          (omega arith) (omega arith) in
      leave_step fuel s.y s refl ∙ ap (leave_line fuel s.y) (right_in_line s v.x_small inside) ∙ ih
  | no out ↦
      leave_step fuel s.y s refl
      ∙ ap (leave_line fuel s.y) (right_at_end s v (omega arith))
      ∙ leave_done fuel s.y (record s { x = 8; y = s.y + 16 }) (omega arith)
]

new_line_above :
    (s : Console)
    → ltb s.y (last_line s) ≡ true
    → new_line s ≡ record (leave_line (s.width + 1) s.y s) {
      x = word ((leave_line (s.width + 1) s.y s).x + 2 ^ 32 - 8);
    }
unfolding new_line
new_line_above s e = rw e refl

-- newLine on a line with another one below it: its loop ends, and the cursor is at the start of the
-- next line, with no pixel changed.
pub new_line_lem : (s : Console) → AboveLast s → new_line s ≡ record s { x = 0; y = s.y + 16 }
new_line_lem s v =
    let a = v.wide in
    let b = v.high in
    let c = v.x_small in
    let d = v.below in
    let left = leave_line_lem (s.width + 1) s v (omega arith) (omega arith) in
    new_line_above s (ground arith)
    ∙ ap (λ (t : Console). record t { x = word (t.x + 2 ^ 32 - 8) }) left
