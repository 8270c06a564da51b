-- ===== src/Time/Clock.antt =====
-- The clock counts and decodes as it should.
use native.Mathlib.Decide.{ℕ_discrete, dec_lt}
use horaci_os.Prelude.{
  ℕ, ◌+◌, ◌-◌, ◌*◌, ◌/◌, ◌%◌, ◌^◌, ◌<◌, ◌≡◌, refl, ◌==◌, ltb, [], ◌∷◌, true, false, arith,
}
use horaci_os.Time.{
  Ticks, ticks_elapsed, seconds_elapsed, timer_handler, translate_time, two_digits, watch,
}

-- A number below 100, in BCD.
abbrev pub bcd : ℕ → ℕ
bcd n = n / 10 * 16 + n % 10

unfoldable pub read_two : ℕ → ℕ → ℕ
read_two a b = (a - 48) * 10 + (b - 48)

-- translateTime decodes what is in BCD.
pub translate_time-bcd : (n : ℕ) → n < 100 → translate_time (bcd n) ≡ n
unfolding translate_time
translate_time-bcd n lt = omega arith

-- The next second is the one after the last that has begun.
abbrev pub InStep : Ticks → Type 0
InStep t = (t.ticks < 2 ^ 31) × (t.next_time ≡ seconds_elapsed t + 1)

-- timer_handler keeps `next_time` one second ahead of the seconds that have passed, as long as the ticks
-- fit an `int`, and counts a tick.
pub timer_handler-InStep :
    (t : Ticks)
    → InStep t
    → t.ticks + 1 < 2 ^ 31
    → InStep (timer_handler t) × ((timer_handler t).ticks ≡ t.ticks + 1)
unfolding timer_handler seconds_elapsed ticks_elapsed
timer_handler-InStep t (small, e) lt =
    let one : (t.ticks + 1) % 2 ^ 64 ≡ t.ticks + 1 = omega arith in
    let same : (t.ticks + 1) % 2 ^ 32 ≡ t.ticks + 1 = omega arith in
    let now : t.next_time ≡ t.ticks / 18 + 1 = omega arith in
    elim (ℕ_discrete ((t.ticks + 1) / 18) t.next_time) [
      | yes begun ↦
          let b : ((t.ticks + 1) / 18 == t.next_time) ≡ true = ground arith in
          rw (one, same, b) ((lt, omega arith), refl)
      | no still ↦
          let b : ((t.ticks + 1) / 18 == t.next_time) ≡ false = ground arith in
          rw (one, same, b) ((lt, omega arith), refl)
    ]

two_digits_lem : (n : ℕ) → n < 100 → two_digits n ≡ (n / 10 + 48) ∷ (n % 10 + 48) ∷ []
unfolding two_digits
two_digits_lem n lt = elim (dec_lt n 10) [
  | yes one ↦
      let t : ltb n 10 ≡ true = ground arith in
      let a : n / 10 + 48 ≡ 48 = omega arith in
      let b : n % 10 + 48 ≡ n + 48 = omega arith in rw (t, a, b) refl
  | no two ↦ let t : ltb n 10 ≡ false = ground arith in rw t refl
]

-- A time of day as watch shows it: eight characters, of which the hour, the minute and the second read
-- as they are, and the end of the line.
pub watch_lem :
    (hour minute seconds : ℕ)
    → hour < 24
    → minute < 60
    → seconds < 60
    → (a : ℕ) × (b : ℕ) × (c : ℕ) × (d : ℕ) × (e : ℕ) × (f : ℕ) × (watch hour minute seconds
        ≡ a ∷ b ∷ 58 ∷ c ∷ d ∷ 58 ∷ e ∷ f ∷ 10 ∷ [])
      × (read_two a b ≡ hour)
      × (read_two c d ≡ minute)
      × (read_two e f ≡ seconds)
unfolding watch read_two
watch_lem hour minute seconds x y z = (
  hour / 10 + 48,
  hour % 10 + 48,
  minute / 10 + 48,
  minute % 10 + 48,
  seconds / 10 + 48,
  seconds % 10 + 48,
  rw
      (
        two_digits_lem hour (omega arith),
        two_digits_lem minute (omega arith),
        two_digits_lem seconds (omega arith),
      )
      refl,
  omega arith,
  omega arith,
  omega arith,
)
