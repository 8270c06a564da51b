-- ===== src/Userland/Philosophers/Seats.antt =====
-- The seats that the philosophers work out, and what a step keeps of the people at the table.
use native.Mathlib.Decide.{dec_lt}
use horaci_os.Prelude.{ℕ, ◌+◌, ◌-◌, ◌<◌, ◌≤◌, ◌≡◌, refl, Bool, inl, inr, ◌⊎◌, assign-elim, arith}
use horaci_os.Userland.Philosophers.{
  hire_first, lower, hire, let_go, close, Spot, errand, arrival, counting, first, second, fed,
  Position, absent, reads, to_lock, in_line, inside, puts_left, leaves, removed, recounts,
  first_stick, second_stick, right_of, left_of, woken, Dinner, settle, go,
}
use horaci_os.Mutex.Spec.{Effect, keeps, blocks, wakes}
use horaci_os.Userland.Philosophers.Table.{
  rank, Seat, SpotFits, Fits, present, keys, owes, Person, People,
}

sides :
    (n q : ℕ)
    → 1 ≤ n
    → n ≤ q
    → (left_of n q ≡ n - 1) × (((right_of n q ≡ n) × (n < q)) ⊎ ((right_of n q ≡ 0) × (n ≡ q)))
unfolding left_of right_of
sides n q pos le = elim (dec_lt n q) [
  | yes lt ↦ (grind arith, inl (grind arith, lt))
  | no last ↦ (grind arith, inr (grind arith, omega arith))
]

pub seat : (a n q : ℕ) → 1 ≤ n → n ≤ a → a ≤ q → q ≤ 10 → Seat a n (right_of n q) (left_of n q)
unfolding first_stick second_stick rank
seat a n q pos le le' small =
    let (left, right) = sides n q pos (omega arith) in
    record {
      numbered = (pos, le);
      sticks = (ground arith, omega arith);
      rising = elim right [ inl r ↦ ground arith | inr r ↦ ground arith ];
    }

Person-woken :
    (n a q : ℕ) (flag : Bool) (p : ℕ) (x : Position)
    → Person n a q flag p x
    → Person n a q flag p (woken x)
unfolding woken present keys owes
Person-woken n a q flag p (in_line t) h = record {
  here = λ e. h.here refl;
  fits = h.fits;
  reader = h.reader;
  owing = h.owing;
}
Person-woken n a q flag p absent h = h
Person-woken n a q flag p reads h = h
Person-woken n a q flag p (to_lock t) h = h
Person-woken n a q flag p (inside t) h = h
Person-woken n a q flag p (puts_left m r l) h = h
Person-woken n a q flag p (leaves m) h = h
Person-woken n a q flag p (removed m) h = h
Person-woken n a q flag p (recounts m) h = h

-- A wake-up changes nothing for the people.
pub People-settle : (n : ℕ) (e : Effect) (s : Dinner) → People n s → People n (settle e s)
unfolding settle go
People-settle n keeps s h = h
People-settle n (blocks p) s h = h
People-settle n (wakes w) s h =
    assign-elim (Person n s.philosophers_assigned s.philosophers_quantity s.flag_of_second) s.pc w
      (woken (s.pc w))
      (Person-woken n s.philosophers_assigned s.philosophers_quantity s.flag_of_second w (s.pc w)
        (h w))
      (λ q ne. h q)

Seat-more : {a n r l : ℕ} → Seat a n r l → Seat (a + 1) n r l
Seat-more h = record { numbered = omega (arith, h.numbered); sticks = h.sticks; rising = h.rising }

SpotFits-more : (a : ℕ) (t : Spot) → SpotFits a t → SpotFits (a + 1) t
SpotFits-more a (errand hire_first) h = tt
SpotFits-more a (errand lower) h = tt
SpotFits-more a (errand hire) h = tt
SpotFits-more a (errand let_go) h = h
SpotFits-more a (errand close) h = h
SpotFits-more a arrival h = omega arith
SpotFits-more a (counting m) h = omega arith
SpotFits-more a (first m r l) h = Seat-more h
SpotFits-more a (second m r l) h = Seat-more h
SpotFits-more a (fed m r l) h = Seat-more h

Fits-more : (a : ℕ) (x : Position) → Fits a x → Fits (a + 1) x
Fits-more a absent h = tt
Fits-more a reads h = tt
Fits-more a (to_lock t) h = SpotFits-more a t h
Fits-more a (in_line t) h = SpotFits-more a t h
Fits-more a (inside t) h = SpotFits-more a t h
Fits-more a (puts_left m r l) h = Seat-more h
Fits-more a (leaves m) h = omega arith
Fits-more a (removed m) h = h
Fits-more a (recounts m) h = h

-- One more is hired.
pub Person-more :
    {n a q : ℕ} {flag : Bool} {p : ℕ} (x : Position)
    → Person n a q flag p x
    → Person n (a + 1) (q + 1) flag p x
Person-more {a} x h = record {
  here = h.here;
  fits = Fits-more a x h.fits;
  reader = h.reader;
  owing = λ e. (omega (arith, h.owing e), (h.owing e).1);
}
