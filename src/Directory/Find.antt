-- ===== src/Directory/Find.antt =====
-- Looking an object up by its name.
use horaci_os.Prelude.{
  ℕ, zero, suc, ◌+◌, ◌<◌, ◌≤◌, ◌≡◌, ◌≢◌, refl, sym, ap, ◌∙◌, List, [], ◌∷◌, Option, none, some,
  length, set, arith, All, replicate, Bool-cases, inl, inr, ◌==◌,
}
use horaci_os.Strings.{text, strcmp}
use horaci_os.Strings.Laws.{strcmp_zero, strcmp_of_eq}
use horaci_os.Directory.{Directory, init, slot, index_from, get_index, claim}

-- No slot points to address `p`.
abbrev pub Unused : ℕ → List (Option ℕ) → Type 0
Unused p = All (λ (s : Option ℕ). s ≢ some p)

-- Each object that is in a slot has a name of at most `n` bytes.
abbrev pub Short : (ℕ → List ℕ) → ℕ → List (Option ℕ) → Type 0
Short name_at n = All (λ (s : Option ℕ). (p : ℕ) → s ≡ some p → length (text (name_at p)) ≤ n)

All-replicate {ℓ κ} : {A : Type ℓ} (P : A → Type κ) (n : ℕ) (x : A) → P x → All P (replicate n x)
All-replicate P zero x h = tt
All-replicate P (suc n) x h = (h, All-replicate P n x h)

pub init-Unused : (max p : ℕ) → Unused p (init max).slots
unfolding init
init-Unused max p = All-replicate (λ (s : Option ℕ). s ≢ some p) max none (λ e. cc)

pub init-Short : (name_at : ℕ → List ℕ) (n max : ℕ) → Short name_at n (init max).slots
unfolding init
init-Short name_at n max =
    All-replicate (λ (s : Option ℕ). (p : ℕ) → s ≡ some p → length (text (name_at p)) ≤ n) max none
      (λ p e. absurd (cc))

module _ (name_at : ℕ → List ℕ) (name : List ℕ) where
  -- What is found has the name that was asked for.
  index_from-named :
      (slots : List (Option ℕ)) (i j : ℕ)
      → index_from name_at name i slots ≡ some j
      → (p : ℕ) × (n : ℕ) × (j ≡ i + n) × (slot slots n ≡ some p) × (text (name_at p) ≡ text name)
  unfolding index_from slot
  index_from-named [] i j e = cc
  index_from-named (none ∷ r) i j e =
      let (p, n, at, here, same) = index_from-named r (i + 1) j e in
      (p, suc n, omega arith, here, same)
  index_from-named (some q ∷ r) i j e = elim (Bool-cases (strcmp (name_at q) name == 0)) [
    | inl hit ↦
        (q, 0, ground (arith, hit), refl, strcmp_zero (name_at q) name (ground (arith, hit)))
    | inr miss ↦
        let (p, n, at, here, same) = index_from-named r (i + 1) j (ground (arith, miss)) in
        (p, suc n, omega arith, here, same)
  ]

  -- An object with a longer name than any that is stored is not found.
  index_from_long :
      (n : ℕ) (slots : List (Option ℕ)) (i : ℕ)
      → Short name_at n slots
      → n < length (text name)
      → index_from name_at name i slots ≡ none
  unfolding index_from
  index_from_long n [] i short long = refl
  index_from_long n (none ∷ r) i short long = index_from_long n r (i + 1) short.1 long
  index_from_long n (some p ∷ r) i short long = ground (
    arith,
    strcmp_zero (name_at p) name,
    short.0 p refl,
    index_from_long n r (i + 1) short.1 long,
  )

-- After an object that nobody had by that name is put in an empty slot, its name finds it.
module _ (name_at name_at' : ℕ → List ℕ) (name : List ℕ) (p : ℕ)
    (named : text (name_at' p) ≡ text name) (kept : (q : ℕ) → q ≢ p → name_at' q ≡ name_at q) where
  index_from-set :
      (slots : List (Option ℕ)) (i f : ℕ)
      → index_from name_at name i slots ≡ none
      → f < length slots
      → slot slots f ≡ none
      → Unused p slots
      → index_from name_at' name i (set slots f (some p)) ≡ some (i + f)
  unfolding index_from slot
  index_from-set [] i f missing lt empty unused = absurd (omega arith)
  index_from-set (none ∷ r) i zero missing lt empty unused =
      ground (arith, strcmp_of_eq (name_at' p) name named)
  index_from-set (some q ∷ r) i zero missing lt empty unused = cc
  index_from-set (none ∷ r) i (suc f) missing lt empty unused =
      index_from-set r (i + 1) f missing (omega arith) empty unused.1 ∙ ap some (omega arith)
  index_from-set (some q ∷ r) i (suc f) missing lt empty unused =
      let other = kept q (λ e. unused.0 (ap some e)) in
      elim (Bool-cases (strcmp (name_at q) name == 0)) [
        | inl hit ↦ absurd (ground (arith, hit))
        | inr miss ↦ rw other (
            ground (
              arith,
              miss,
              index_from-set r (i + 1) f (ground (arith, miss)) (omega arith) empty unused.1,
            ))
      ]

  pub get_index-claim :
      (max : ℕ) (d : Directory) (created : ℕ)
      → get_index name_at name d ≡ none
      → created < length d.slots
      → slot d.slots created ≡ none
      → Unused p d.slots
      → get_index name_at' name (claim max d created p) ≡ some created
  unfolding get_index claim
  get_index-claim max d created missing lt empty unused =
      index_from-set d.slots 0 created missing lt empty unused ∙ ap some (omega arith)

pub get_index-named :
    (name_at : ℕ → List ℕ) (name : List ℕ) (d : Directory) (i : ℕ)
    → get_index name_at name d ≡ some i
    → (p : ℕ) × (slot d.slots i ≡ some p) × (text (name_at p) ≡ text name)
unfolding get_index
get_index-named name_at name d i e =
    let (p, n, at, here, same) = index_from-named name_at name d.slots 0 i e in
    let i' : n ≡ i = omega arith in (p, ap (slot d.slots) (sym i') ∙ here, same)

pub get_index_long :
    (name_at : ℕ → List ℕ) (name : List ℕ) (n : ℕ) (d : Directory)
    → Short name_at n d.slots
    → n < length (text name)
    → get_index name_at name d ≡ none
unfolding get_index
get_index_long name_at name n d = index_from_long name_at name n d.slots 0
