-- ===== src/Userland/Shell/Parse.antt =====
-- How the shell splits a line.
use horaci_os.Prelude.{
  ℕ, ◌≡◌, ◌≢◌, refl, sym, ◌∙◌, ◌⊎◌, inl, inr, ap, List, [], ◌∷◌, ◌++◌, false, ◌&&◌, ◌==◌,
  if◌then◌else◌, drop, All, arith, append-nil,
}
use horaci_os.Userland.Shell.{
  Line, standard, pipe, background, argument, lacking, split_word, copy_rest, parse, front,
}

-- A character of a word, and one of a text.
abbrev pub InWord : ℕ → Type 0
InWord c = (c ≢ 32) × (c ≢ 0)

abbrev pub InText : ℕ → Type 0
InText c = c ≢ 0

-- A line for each thing that the shell can do.
unfoldable pub write : Line → List ℕ
write (standard command) = command
write (pipe command target) = command ++ 32 ∷ 47 ∷ 32 ∷ target
write (background command) = command ++ 32 ∷ 38 ∷ []
write (argument command target []) = command ++ 32 ∷ target
write (argument command target (c ∷ arg)) = command ++ 32 ∷ (target ++ 32 ∷ c ∷ arg)
write lacking = 32 ∷ []

-- Commands and targets are words, what comes last is a text, and a target is not a sign of its own.
abbrev pub Writable : Line → Type 0
Writable (standard command) = All InWord command
Writable (pipe command target) = All InWord command × All InText target
Writable (background command) = All InWord command
Writable (argument command target arg) =
    All InWord command
    × All InWord target
    × All InText arg
    × (target ≢ [])
    × (target ≢ 38 ∷ [])
    × (target ≢ 47 ∷ [])
Writable lacking = Unit

split_word_lem :
    (w rest : List ℕ)
    → All InWord w
    → (front rest ≡ 32) ⊎ (front rest ≡ 0)
    → split_word (w ++ rest) ≡ (w, rest)
unfolding split_word
split_word_lem [] [] h e = refl
split_word_lem [] (c ∷ r) h e = ground arith
split_word_lem (c ∷ w) rest h e =
    let (ns, nz) = h.0 in let ih = split_word_lem w rest h.1 e in rw ih (ground arith)

copy_rest_lem : (s : List ℕ) → All InText s → copy_rest s ≡ s
unfolding copy_rest
copy_rest_lem [] h = refl
copy_rest_lem (c ∷ s) h = let nz = h.0 in let ih = copy_rest_lem s h.1 in rw ih (ground arith)

parse_standard : (w : List ℕ) → All InWord w → parse w ≡ standard w
unfolding parse
parse_standard w h =
    let e = ap split_word (sym (append-nil w)) ∙ split_word_lem w [] h (inr refl) in rw e refl

parse_pipe : (w t : List ℕ) → All InWord w → All InText t → parse (w ++ 32 ∷ 47 ∷ 32 ∷ t) ≡ pipe w t
unfolding parse
parse_pipe w t h k = rw (split_word_lem w (32 ∷ 47 ∷ 32 ∷ t) h (inl refl), copy_rest_lem t k) refl

parse_background : (w : List ℕ) → All InWord w → parse (w ++ 32 ∷ 38 ∷ []) ≡ background w
unfolding parse
parse_background w h = rw (split_word_lem w (32 ∷ 38 ∷ []) h (inl refl)) refl

-- A target that is not a sign of its own is taken for one.
no_sign :
    (t more : List ℕ)
    → All InWord t
    → t ≢ []
    → t ≢ 38 ∷ []
    → t ≢ 47 ∷ []
    → (front more ≡ 32) ⊎ (front more ≡ 0)
    → let after = t ++ more in
      ((front after == 47 && front (drop 1 after) == 32) ≡ false)
      × ((front after == 38 && front (drop 1 after) == 0) ≡ false)
      × ((front after == 0) ≡ false)
no_sign [] more h n a b e = absurd (n refl)
no_sign (c ∷ []) more h n a b e =
    let (p, q) = h.0 in
    let a' : c ≢ 38 = λ z. a (ap (λ (k : ℕ). k ∷ []) z) in
    let b' : c ≢ 47 = λ z. b (ap (λ (k : ℕ). k ∷ []) z) in
    (ground arith, ground arith, ground arith)
no_sign (c ∷ d ∷ t) more h n a b e =
    let (p, q) = h.0 in let (r, s) = h.1.0 in (ground arith, ground arith, ground arith)

parse_argument :
    (w t more : List ℕ)
    → All InWord w
    → All InWord t
    → t ≢ []
    → t ≢ 38 ∷ []
    → t ≢ 47 ∷ []
    → (front more ≡ 32) ⊎ (front more ≡ 0)
    → parse (w ++ 32 ∷ (t ++ more))
      ≡ argument w t (if front more == 32 then copy_rest (drop 1 more) else [])
unfolding parse
parse_argument w t more h k n a b e =
    let (x, y, z) = no_sign t more k n a b e in
    rw (split_word_lem w (32 ∷ (t ++ more)) h (inl refl), split_word_lem t more k e, x, y, z) refl

parse_lacking : parse (32 ∷ []) ≡ lacking
unfolding parse split_word
parse_lacking = refl

-- Whatever the shell can be asked to do, it reads from the line that is written for it: the command,
-- the sign for a pipe or the background, the target and the argument are told apart.
pub parse-write : (l : Line) → Writable l → parse (write l) ≡ l
unfolding write
parse-write (standard w) h = parse_standard w h
parse-write (pipe w t) h = parse_pipe w t h.0 h.1
parse-write (background w) h = parse_background w h
parse-write (argument w t []) h =
    let (hw, ht, ha, n, a, b) = h in
    ap (λ (s : List ℕ). parse (w ++ 32 ∷ s)) (sym (append-nil t))
    ∙ parse_argument w t [] hw ht n a b (inr refl)
parse-write (argument w t (c ∷ arg)) h =
    let (hw, ht, ha, n, a, b) = h in
    parse_argument w t (32 ∷ c ∷ arg) hw ht n a b (inl refl)
    ∙ ap (argument w t) (copy_rest_lem (c ∷ arg) ha)
parse-write lacking h = parse_lacking
