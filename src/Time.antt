-- ===== src/Time.antt =====
-- The clock (Kernel/time.c) and the interrupts that drive it and the keyboard
-- (Kernel/irqDispatcher.c). The registers of the real-time clock are in BCD; what reads them is not
-- under the model.
pub mod Clock
use horaci_os.Prelude.{
  ℕ, ◌+◌, ◌-◌, ◌*◌, ◌/◌, ◌%◌, ◌^◌, ◌==◌, ltb, if◌then◌else◌, List, [], ◌∷◌, ◌++◌, Option, none,
  some, zero, suc,
}

-- `ticks` and `next_time`.
pub record Ticks : Type 0 where
  pub ticks : ℕ
  pub next_time : ℕ

-- `ticks_elapsed` returns an `int`, which stays positive below `2 ^ 31` ticks.
unfoldable pub ticks_elapsed : Ticks → ℕ
ticks_elapsed t = t.ticks % 2 ^ 32

unfoldable pub seconds_elapsed : Ticks → ℕ
unfolding ticks_elapsed
seconds_elapsed t = ticks_elapsed t / 18

unfoldable pub timer_handler : Ticks → Ticks
timer_handler t =
    let u = record t { ticks = (t.ticks + 1) % 2 ^ 64 } in
    if seconds_elapsed u == u.next_time then record u { next_time = u.next_time + 1 } else u

-- `translateTime`, for a byte below 128.
unfoldable pub translate_time : ℕ → ℕ
translate_time value = value / 16 * 10 + value % 16

-- `clock_handler`: the hours, minutes and seconds, from the registers' values.
unfoldable pub clock_handler : ℕ → ℕ → ℕ → ℕ × ℕ × ℕ
unfolding translate_time
clock_handler hours minutes seconds =
    (translate_time hours, translate_time minutes, translate_time seconds)

-- `irqDispatcher`; the keyboard's handler is an argument.
unfoldable pub irq_dispatcher : {S : Type 0} → (S → S) → ℕ → Ticks × S → Ticks × S
irq_dispatcher keypress_handler irq (t, s) =
    if irq == 0 then (timer_handler t, s) else if irq == 1 then (t, keypress_handler s) else (t, s)

-- The loop of the user library's `sleep` (Userland/SampleCodeModule/time.c): the time of day that the
-- clock gives in each round. The rounds until the target are returned, `none` when it does not come.
unfoldable pub wait_until : ℕ → List (ℕ × ℕ × ℕ) → Option ℕ
wait_until target [] = none
wait_until target ((hour, minute, seconds) ∷ readings) =
    let rest = wait_until target readings in
    if hour * 3600 + minute * 60 + seconds == target
    then some 0
    else elim rest [ none ↦ none | some n ↦ some (n + 1) ]

-- The target of `sleep`, from the time at its start.
unfoldable pub target_time : ℕ → ℕ → ℕ → ℕ → ℕ
target_time hour minute seconds extra_secs =
    (hour * 3600 + minute * 60 + seconds + extra_secs) % 86400

-- Two digits of `watch`.
unfoldable pub two_digits : ℕ → List ℕ
two_digits n = if ltb n 10 then 48 ∷ (n + 48) ∷ [] else (n / 10 + 48) ∷ (n % 10 + 48) ∷ []

-- What `watch` puts on the screen.
unfoldable pub watch : ℕ → ℕ → ℕ → List ℕ
unfolding two_digits
watch hour minute seconds =
    two_digits hour ++ 58 ∷ (two_digits minute ++ 58 ∷ (two_digits seconds ++ 10 ∷ []))
