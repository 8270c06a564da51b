-- ===== src/Keyboard/Buffer.antt =====
-- What the keyboard's buffer does to the characters in it.
use horaci_os.Prelude.{
  ℕ, suc, ◌+◌, ◌-◌, ◌≡◌, refl, sym, ap, ap₂, ◌∙◌, List, [], ◌∷◌, ◌++◌, length, get_or, set, take,
  append_assoc, take-append, length-append, set-append, arith,
}
use horaci_os.Keyboard.{
  Keyboard, key_buffer_size, shift_buffer_right, shift_from, shift_buffer_left, insert,
  add_to_buffer, get_first_in_buffer,
}

get_or-append : (xs : List ℕ) (x : ℕ) (ys : List ℕ) → get_or (xs ++ x ∷ ys) (length xs) 0 ≡ x
get_or-append [] x ys = refl
get_or-append (w ∷ xs) x ys = get_or-append xs x ys

-- Behind `z` every character moves on by one place, and the last one falls out.
shift_right_lem :
    (ys zs : List ℕ) (z i : ℕ)
    → i ≡ length zs + 1
    → shift_buffer_right (length ys) i (zs ++ z ∷ ys) ≡ zs ++ z ∷ take (length ys) (z ∷ ys)
unfolding shift_buffer_right
shift_right_lem [] zs z i e = refl
shift_right_lem (y ∷ r) zs z i e =
    let moved : shift_buffer_right (length r) (i + 1) (zs ++ z ∷ y ∷ r)
        ≡ zs ++ z ∷ y ∷ take (length r) (y ∷ r) =
      ap (shift_buffer_right (length r) (i + 1)) (sym (append_assoc zs (z ∷ []) (y ∷ r)))
      ∙ shift_right_lem r (zs ++ z ∷ []) y (i + 1) (omega (arith, length-append zs (z ∷ [])))
      ∙ append_assoc zs (z ∷ []) (y ∷ take (length r) (y ∷ r)) in
    let at : i - 1 ≡ length zs = omega arith in
    ap (λ (b : List ℕ). set b i (get_or b (i - 1) 0)) moved
    ∙ ap (set (zs ++ z ∷ y ∷ take (length r) (y ∷ r)) i) (
        ap (λ (j : ℕ). get_or (zs ++ z ∷ y ∷ take (length r) (y ∷ r)) j 0) at
        ∙ get_or-append zs z (y ∷ take (length r) (y ∷ r)))
    ∙ ap (λ (b : List ℕ). set b i z) (sym (append_assoc zs (z ∷ []) (y ∷ take (length r) (y ∷ r))))
    ∙ set-append (zs ++ z ∷ []) (take (length r) (y ∷ r)) i y z
        (omega (arith, length-append zs (z ∷ [])))
    ∙ append_assoc zs (z ∷ []) (z ∷ take (length r) (y ∷ r))

shift_set :
    (xs : List ℕ) (y : ℕ) (r : List ℕ) (i c : ℕ)
    → i ≡ length xs
    → set (shift_buffer_right (suc (length r)) i (xs ++ y ∷ r)) i c
      ≡ xs ++ c ∷ take (length r) (y ∷ r)
unfolding shift_buffer_right
shift_set xs y r i c at =
    let moved = shift_right_lem r xs y (i + 1) (omega arith) in
    ap (λ (b : List ℕ). set (set b i (get_or b (i - 1) 0)) i c) moved
    ∙ ap (λ (b : List ℕ). set b i c) (set-append xs (take (length r) (y ∷ r)) i y _ at)
    ∙ set-append xs (take (length r) (y ∷ r)) i _ c at

-- Where the index is behind `xs` in a full-sized buffer, a character is put behind `xs`, and what
-- stood there moves on by one place, the last character out of the buffer.
pub insert_lem :
    (k : Keyboard) (xs : List ℕ) (y : ℕ) (r : List ℕ) (c : ℕ)
    → k.buffer ≡ xs ++ y ∷ r
    → length k.buffer ≡ key_buffer_size
    → k.buffer_index ≡ length xs
    → ((insert k c).buffer ≡ xs ++ c ∷ take (length r) (y ∷ r))
      × ((insert k c).buffer_index ≡ length xs + 1)
unfolding insert
insert_lem k xs y r c b size at =
    let n : key_buffer_size - k.buffer_index ≡ suc (length r) =
      omega (arith, ap (λ (l : List ℕ). length l) b, length-append xs (y ∷ r)) in
    (
      ap₂ (λ (m : ℕ) (l : List ℕ). set (shift_buffer_right m k.buffer_index l) k.buffer_index c) n b
          ∙ shift_set xs y r k.buffer_index c at,
      omega arith,
    )

-- The loop to the left drops `z` and leaves some character at the end.
shift_from_lem :
    (ys zs : List ℕ) (z i : ℕ)
    → i ≡ length zs
    → (v : ℕ) × (shift_from (suc (length ys)) i (zs ++ z ∷ ys) ≡ zs ++ (ys ++ v ∷ []))
unfolding shift_from
shift_from_lem [] zs z i e =
    let v = get_or (zs ++ z ∷ []) (i + 1) 0 in (v, set-append zs [] i z v e)
shift_from_lem (y ∷ r) zs z i e =
    let (v, h) =
      shift_from_lem r (zs ++ y ∷ []) y (i + 1) (omega (arith, length-append zs (y ∷ []))) in
    let here : get_or (zs ++ z ∷ y ∷ r) (i + 1) 0 ≡ y =
      ap₂ (λ (l : List ℕ) (j : ℕ). get_or l j 0) (sym (append_assoc zs (z ∷ []) (y ∷ r)))
        (omega (arith, length-append zs (z ∷ [])))
      ∙ get_or-append (zs ++ z ∷ []) y r in
    (
      v,
      ap (λ (u : ℕ). shift_from (suc (length r)) (i + 1) (set (zs ++ z ∷ y ∷ r) i u)) here
          ∙ ap (shift_from (suc (length r)) (i + 1)) (set-append zs (y ∷ r) i z y e)
          ∙ ap (shift_from (suc (length r)) (i + 1)) (sym (append_assoc zs (y ∷ []) (y ∷ r)))
          ∙ h
          ∙ append_assoc zs (y ∷ []) (r ++ v ∷ []),
    )

-- From a full-sized buffer the first character is taken, the others move up by one place before a
-- 0, and the index goes back to the start.
pub get_first_in_buffer_lem :
    (k : Keyboard) (x : ℕ) (xs : List ℕ)
    → k.buffer ≡ x ∷ xs
    → length k.buffer ≡ key_buffer_size
    → let (c, k') = get_first_in_buffer k in
      (c ≡ x) × (k'.buffer ≡ xs ++ 0 ∷ []) × (k'.buffer_index ≡ 0)
unfolding get_first_in_buffer shift_buffer_left
get_first_in_buffer_lem k x xs b size =
    let (v, h) = shift_from_lem xs [] x 0 refl in
    let n : key_buffer_size ≡ suc (length xs) = sym size ∙ ap (λ (l : List ℕ). length l) b in
    (
      ap (λ (l : List ℕ). get_or l 0 0) b,
      ap₂ (λ (m : ℕ) (l : List ℕ). set (shift_from m 0 l) (m - 1) 0) n b
          ∙ ap (λ (l : List ℕ). set l (suc (length xs) - 1) 0) h
          ∙ set-append xs [] (suc (length xs) - 1) v 0 (omega arith),
      refl,
    )

add_at_start :
    (k : Keyboard) (y : ℕ) (r : List ℕ) (c : ℕ)
    → k.buffer ≡ y ∷ r
    → length k.buffer ≡ key_buffer_size
    → k.buffer_index ≡ 0
    → get_or k.buffer (key_buffer_size - 2) 0 ≡ 0
    → (add_to_buffer k c).buffer ≡ c ∷ take (length r) (y ∷ r)
unfolding add_to_buffer
add_at_start k y r c b size at room = ground (arith, insert_lem k [] y r c b size at)

-- The fault of `shiftBufferLeft`: in a full-sized buffer whose second last place is empty after one
-- character is taken, a character that is typed then stands before those that were typed earlier and
-- are still there.
pub typed_ahead :
    (k : Keyboard) (x y : ℕ) (r : List ℕ) (c : ℕ)
    → k.buffer ≡ x ∷ y ∷ r
    → length k.buffer ≡ key_buffer_size
    → get_or (y ∷ r ++ 0 ∷ []) (key_buffer_size - 2) 0 ≡ 0
    → (add_to_buffer (get_first_in_buffer k).1 c).buffer ≡ c ∷ y ∷ r
typed_ahead k x y r c b size room =
    let (first, after, at) = get_first_in_buffer_lem k x (y ∷ r) b size in
    let k' = (get_first_in_buffer k).1 in
    let same : length k'.buffer ≡ key_buffer_size =
      ap (λ (l : List ℕ). length l) after
      ∙ omega (arith, length-append r (0 ∷ []), ap (λ (l : List ℕ). length l) b) in
    add_at_start k' y (r ++ 0 ∷ []) c after same at
      (ap (λ (l : List ℕ). get_or l (key_buffer_size - 2) 0) after ∙ room)
    ∙ ap (◌∷◌ c) (
        take-append (y ∷ r) (0 ∷ []) (length (r ++ 0 ∷ []))
          (omega (arith, length-append r (0 ∷ []))))
