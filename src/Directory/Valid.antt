-- ===== src/Directory/Valid.antt =====
-- `free_index` is an empty slot, or -1 with all slots taken.
use horaci_os.Prelude.{
  ℕ, zero, suc, ◌+◌, ◌<◌, ◌≡◌, ◌≢◌, sym, ap, subst, ◌∙◌, ◌⊎◌, inl, inr, List, [], ◌∷◌, Option, none,
  some, length, set, if◌then◌else◌, length-set, get_or-set_self, get_or-replicate, length-replicate,
  Option-cases, ◌==◌, wrap, steps_to, steps_to-lt, steps_to-wrap, steps_to-injective, arith,
}
use native.Mathlib.Decide.{ℕ_discrete}
use horaci_os.Directory.{Directory, init, slot, search, claim, vacate}

abbrev pub Taken : List (Option ℕ) → ℕ → Type 0
Taken slots i = slot slots i ≢ none

abbrev pub Full : ℕ → List (Option ℕ) → Type 0
Full max slots = (i : ℕ) → i < max → Taken slots i

abbrev pub FreeAt : ℕ → List (Option ℕ) → Option ℕ → Type 0
FreeAt max slots none = Full max slots
FreeAt max slots (some i) = (i < max) × (slot slots i ≡ none)

pub record IsValid (max : ℕ) (d : Directory) : Type 0 where
  pub size : length d.slots ≡ max
  pub free : FreeAt max d.slots d.free_index

search_back :
    (fuel max : ℕ) (slots : List (Option ℕ)) (c i : ℕ) {x : ℕ}
    → slot slots i ≡ some x
    → i ≡ c
    → search (suc fuel) max slots c i ≡ i
unfolding search
search_back fuel max slots c i e back = ground arith

search_on :
    (fuel max : ℕ) (slots : List (Option ℕ)) (c i : ℕ) {x : ℕ}
    → slot slots i ≡ some x
    → i ≢ c
    → search (suc fuel) max slots c i ≡ search fuel max slots c (wrap max (i + 1))
unfolding search
search_on fuel max slots c i e on = ground arith

Taken-of_some : (slots : List (Option ℕ)) (i : ℕ) {x : ℕ} → slot slots i ≡ some x → Taken slots i
Taken-of_some slots i e empty = let both = sym e ∙ empty in cc

-- The search ends at an empty slot, or back at `c` when it has seen that all slots are taken.
search_lem :
    (fuel max : ℕ) (slots : List (Option ℕ)) (c i : ℕ)
    → i < max
    → c < max
    → Taken slots c
    → ((k : ℕ) → k < max → steps_to max i c < steps_to max k c → Taken slots k)
    → steps_to max i c < fuel
    → let j = search fuel max slots c i in
      (j < max) × ((slot slots j ≡ none) ⊎ ((j ≡ c) × Full max slots))
unfolding search
search_lem zero max slots c i p q taken seen enough = absurd (omega arith)
search_lem (suc fuel) max slots c i p q taken seen enough = elim (Option-cases (slot slots i)) [
  | inl empty ↦ rw (empty, search) (p, inl empty)
  | inr (x, there) ↦ elim (ℕ_discrete i c) [
    | yes back ↦
        rw (search_back fuel max slots c i there back)
          (p, inr (back, λ k lt. all_seen k lt back (ℕ_discrete k c)))
    | no on ↦
        let on_one = steps_to-wrap max i c p q on in
        rw (search_on fuel max slots c i there on) (
          search_lem fuel max slots c (wrap max (i + 1)) (ground arith) q taken
            (λ k lt d. passed k lt d on_one (Taken-of_some slots i there) (ℕ_discrete k i))
            (omega arith))
  ]
]
  where
    all_seen : (k : ℕ) → k < max → i ≡ c → Dec (k ≡ c) → Taken slots k
    all_seen k lt back (yes e) = subst (Taken slots) (sym e) taken
    all_seen k lt back (no ne) = seen k lt (ground (arith, steps_to-wrap max k c lt q ne))

    passed :
        (k : ℕ)
        → k < max
        → steps_to max (wrap max (i + 1)) c < steps_to max k c
        → steps_to max i c ≡ suc (steps_to max (wrap max (i + 1)) c)
        → Taken slots i
        → Dec (k ≡ i)
        → Taken slots k
    passed k lt d on_one here (yes e) = subst (Taken slots) (sym e) here
    passed k lt d on_one here (no ne) = seen k lt (
        let far =
          λ (e : steps_to max k c ≡ steps_to max i c). ne (steps_to-injective max k i c lt p q e) in
        omega arith)

slot-set_self :
    (slots : List (Option ℕ)) (i : ℕ) (v : Option ℕ) → i < length slots → slot (set slots i v) i ≡ v
unfolding slot
slot-set_self slots i v lt = get_or-set_self slots i v none lt

-- A slot that points somewhere is one of the array.
pub slot_in : (slots : List (Option ℕ)) (i : ℕ) {p : ℕ} → slot slots i ≡ some p → i < length slots
unfolding slot
slot_in [] i e = absurd (cc)
slot_in (x ∷ r) zero e = omega arith
slot_in (x ∷ r) (suc i) e = omega (arith, slot_in r i e)

-- A new directory is empty, and its first slot is free.
pub init-IsValid : (max : ℕ) → 0 < max → IsValid max (init max)
unfolding init slot
init-IsValid max pos = record {
  size = length-replicate max none;
  free = (pos, get_or-replicate max 0 none);
}

-- The search begins a whole turn, less one step, before its end.
first_gap : (max c : ℕ) → c < max → suc (steps_to max (wrap max (c + 1)) c) ≡ max
first_gap max c lt = ground arith

next_free :
    (max : ℕ) (slots : List (Option ℕ)) (created i : ℕ)
    → i < max
    → Taken slots created
    → (slot slots i ≡ none) ⊎ ((i ≡ created) × Full max slots)
    → FreeAt max slots (if i == created then none else some i)
next_free max slots created i lt taken (inl empty) =
    subst (FreeAt max slots)
      (sym (other i created (λ same. taken (ap (slot slots) (sym same) ∙ empty)))) (lt, empty)
  where
    other : (i created : ℕ) → i ≢ created → (if i == created then none else some i) ≡ some i
    other i created ne = ground arith
next_free max slots created i lt taken (inr (back, full)) =
    subst (FreeAt max slots) (sym (same i created back)) full
  where
    same : (i created : ℕ) → i ≡ created → (if i == created then none else some i) ≡ none
    same i created e = ground arith

-- Taking the free slot of a valid directory leaves a valid one: `free_index` is a slot that is empty,
-- or -1 with every slot taken.
pub claim-IsValid :
    (max : ℕ) (d : Directory) (created p : ℕ)
    → IsValid max d
    → d.free_index ≡ some created
    → IsValid max (claim max d created p)
unfolding claim
claim-IsValid max d created p v e =
    let (lt, empty) = subst (FreeAt max d.slots) e v.free in
    let slots = set d.slots created (some p) in
    let i = search max max slots created (wrap max (created + 1)) in
    let taken =
      Taken-of_some slots created
        (slot-set_self d.slots created (some p) (let z = v.size in omega arith)) in
    let (lt', found) =
      search_lem max max slots created (wrap max (created + 1)) (ground arith) lt taken
        (λ k ltk d. absurd (
          let g = first_gap max created lt in
          let b = steps_to-lt max k created ltk lt in omega arith))
        (let g = first_gap max created lt in omega arith) in
    record {
      size = length-set d.slots created (some p) ∙ v.size;
      free = next_free max slots created i lt' taken found;
    }

-- The object is in the slot that was free.
pub slot-claim :
    (max : ℕ) (d : Directory) (created p : ℕ)
    → created < length d.slots
    → slot (claim max d created p).slots created ≡ some p
unfolding claim
slot-claim max d created p lt = slot-set_self d.slots created (some p) lt

-- Emptying a slot makes it the free one.
pub vacate-IsValid :
    (max : ℕ) (d : Directory) (i : ℕ) → IsValid max d → i < max → IsValid max (vacate d i)
unfolding vacate
vacate-IsValid max d i v lt = record {
  size = length-set d.slots i none ∙ v.size;
  free = (lt, slot-set_self d.slots i none (let z = v.size in omega arith));
}
