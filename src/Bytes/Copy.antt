-- ===== src/Bytes/Copy.antt =====
-- `memcpy` copies, by words or by bytes.
use native.Mathlib.Decide.{ℕ_discrete}
use horaci_os.Prelude.{
  ℕ, zero, suc, ◌+◌, ◌*◌, ◌/◌, ◌%◌, ◌<◌, ◌≤◌, ◌≡◌, ◌≢◌, refl, sym, ◌∙◌, subst, ◌⊎◌, inl, inr, ◌&&◌,
  ◌==◌, Bool-cases, arith,
}
use horaci_os.Bytes.{
  Memory, poke, copy_bytes_from, copy_word, copy_words_from, memcpy, read_uint32, load_module,
}

pub poke_self : (a v : ℕ) (mem : Memory) → poke a v mem a ≡ v
unfolding poke
poke_self a v mem = ground arith

pub poke_ne : (a v : ℕ) (mem : Memory) (b : ℕ) → b ≢ a → poke a v mem b ≡ mem b
unfolding poke
poke_ne a v mem b ne = ground arith

-- The first `k` bytes from `s` are at `d`, and the other memory is as it was.
pub record Copied (d s k : ℕ) (mem mem' : Memory) : Type 0 where
  pub there : (i : ℕ) → i < k → mem' (d + i) ≡ mem (s + i)
  pub others : (a : ℕ) → (a < d) ⊎ (d + k ≤ a) → mem' a ≡ mem a

-- The two ranges have no byte in common.
abbrev pub Apart : ℕ → ℕ → ℕ → Type 0
Apart d s n = (d + n ≤ s) ⊎ (s + n ≤ d)

poke-Copied :
    (d s k v : ℕ) (mem mem' : Memory)
    → Copied d s k mem mem'
    → v ≡ mem (s + k)
    → Copied d s (k + 1) mem (poke (d + k) v mem')
poke-Copied d s k v mem mem' c e = record {
  there = λ i lt. elim (ℕ_discrete i k) [
    | yes same ↦
        subst (λ (j : ℕ). poke (d + k) v mem' (d + j) ≡ mem (s + j)) (sym same)
          (poke_self (d + k) v mem' ∙ e)
    | no ne ↦ poke_ne (d + k) v mem' (d + i) (omega arith) ∙ c.there i (omega arith)
  ];
  others = λ a out. poke_ne (d + k) v mem' a (ground arith) ∙ c.others a (ground arith);
}

module _ (d s n : ℕ) (mem : Memory) (apart : Apart d s n) where
  -- What is still to be copied has not been touched.
  untouched :
      (k j : ℕ) (mem' : Memory) → Copied d s k mem mem' → k ≤ j → j < n → mem' (s + j) ≡ mem (s + j)
  untouched k j mem' c le lt = c.others (s + j) (ground arith)

  copy_bytes_from-Copied :
      (rounds i : ℕ) (mem' : Memory)
      → Copied d s i mem mem'
      → i + rounds ≡ n
      → Copied d s n mem (copy_bytes_from rounds i d s mem')
  unfolding copy_bytes_from
  copy_bytes_from-Copied zero i mem' c e = subst (λ (k : ℕ). Copied d s k mem mem') (omega arith) c
  copy_bytes_from-Copied (suc rounds) i mem' c e =
      copy_bytes_from-Copied rounds (i + 1) (poke (d + i) (mem' (s + i)) mem')
        (poke-Copied d s i (mem' (s + i)) mem mem' c
          (untouched i i mem' c (omega arith) (omega arith)))
        (omega arith)

  copy_word-Copied :
      (i : ℕ) (mem' : Memory)
      → Copied d s i mem mem'
      → i + 4 ≤ n
      → Copied d s (i + 4) mem (copy_word i d s mem')
  unfolding copy_word
  copy_word-Copied i mem' c le =
      let m₁ : Memory = poke (d + i) (mem' (s + i)) mem' in
      let m₂ : Memory = poke (d + (i + 1)) (mem' (s + (i + 1))) m₁ in
      let m₃ : Memory = poke (d + (i + 2)) (mem' (s + (i + 2))) m₂ in
      let v : (j : ℕ) → j < 4 → mem' (s + (i + j)) ≡ mem (s + (i + j)) =
        λ j lt. untouched i (i + j) mem' c (omega arith) (omega arith) in
      let c₁ =
        poke-Copied d s i (mem' (s + i)) mem mem' c
          (untouched i i mem' c (omega arith) (omega arith)) in
      let c₂ = poke-Copied d s (i + 1) (mem' (s + (i + 1))) mem m₁ c₁ (v 1 (omega arith)) in
      let c₃ =
        poke-Copied d s (i + 2) (mem' (s + (i + 2))) mem m₂
          (subst (λ (k : ℕ). Copied d s k mem m₂) (omega arith) c₂) (v 2 (omega arith)) in
      let c₄ =
        poke-Copied d s (i + 3) (mem' (s + (i + 3))) mem m₃
          (subst (λ (k : ℕ). Copied d s k mem m₃) (omega arith) c₃) (v 3 (omega arith)) in
      subst (λ (k : ℕ). Copied d s k mem (copy_word i d s mem')) (omega arith) c₄

  copy_words_from-Copied :
      (rounds i : ℕ) (mem' : Memory)
      → Copied d s (i * 4) mem mem'
      → i * 4 + rounds * 4 ≡ n
      → Copied d s n mem (copy_words_from rounds i d s mem')
  unfolding copy_words_from
  copy_words_from-Copied zero i mem' c e = subst (λ (k : ℕ). Copied d s k mem mem') (omega arith) c
  copy_words_from-Copied (suc rounds) i mem' c e =
      copy_words_from-Copied rounds (i + 1) (copy_word (i * 4) d s mem')
        (subst (λ (k : ℕ). Copied d s k mem (copy_word (i * 4) d s mem')) (omega arith)
          (copy_word-Copied (i * 4) mem' c (omega arith)))
        (omega arith)

-- For ranges that have no byte in common: memcpy, whether it goes by words or by bytes, leaves the bytes
-- of the source at the destination, and all other memory as it was.
pub memcpy-Copied : (d s n : ℕ) (mem : Memory) → Apart d s n → Copied d s n mem (memcpy d s n mem)
unfolding memcpy
memcpy-Copied d s n mem apart =
    let start : Copied d s 0 mem mem = record {
      there = λ i lt. absurd (omega arith);
      others = λ a out. refl;
    } in
    elim (Bool-cases ((d % 4) == 0 && (s % 4) == 0 && (n % 4) == 0)) [
      | inl aligned ↦
          rw aligned (copy_words_from-Copied d s n mem apart (n / 4) 0 mem start (ground arith))
      | inr odd ↦ rw odd (copy_bytes_from-Copied d s n mem apart n 0 mem start (omega arith))
    ]

-- Where a module's image and its target have no byte in common: loadModule stops right behind the image, whose
-- length is the word before it, and has copied it to the target, and all other memory is as it was.
pub load_module-Copied :
    (image target : ℕ) (mem : Memory)
    → Apart target (image + 4) (read_uint32 image mem).0
    → ((load_module image target mem).0 ≡ image + 4 + (read_uint32 image mem).0)
      × Copied target (image + 4) (read_uint32 image mem).0 mem (load_module image target mem).1
unfolding load_module read_uint32
load_module-Copied image target mem apart =
    (omega arith, memcpy-Copied target (image + 4) (read_uint32 image mem).0 mem apart)
