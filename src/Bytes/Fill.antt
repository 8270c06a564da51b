-- ===== src/Bytes/Fill.antt =====
-- `memset` fills a range.
use native.Mathlib.Decide.{ℕ_discrete}
use horaci_os.Prelude.{ℕ, zero, suc, ◌+◌, ◌%◌, ◌<◌, ◌≤◌, ◌≡◌, refl, ◌∙◌, ap, ◌⊎◌, inr, arith}
use horaci_os.Bytes.{Memory, poke, memset_from, memset}
use horaci_os.Bytes.Copy.{poke_self, poke_ne}

-- Below the first byte, or behind the last, nothing is written.
filled_others :
    (n d v : ℕ) (mem : Memory) (a : ℕ) → (a < d) ⊎ (d + n ≤ a) → memset_from n d v mem a ≡ mem a
unfolding memset_from
filled_others zero d v mem a out = refl
filled_others (suc n) d v mem a out =
    filled_others n d v (poke (d + n) v mem) a (ground arith)
    ∙ poke_ne (d + n) v mem a (ground arith)

filled : (n d v : ℕ) (mem : Memory) (i : ℕ) → i < n → memset_from n d v mem (d + i) ≡ v
unfolding memset_from
filled zero d v mem i lt = absurd (omega arith)
filled (suc n) d v mem i lt = elim (ℕ_discrete i n) [
  | yes same ↦
      filled_others n d v (poke (d + n) v mem) (d + i) (inr (omega arith))
      ∙ ap (λ (j : ℕ). poke (d + n) v mem (d + j)) same
      ∙ poke_self (d + n) v mem
  | no ne ↦ filled n d v (poke (d + n) v mem) i (omega arith)
]

-- memset leaves the low eight bits of its argument in each byte of the range, and all other memory as it was.
pub memset_lem :
    (d c n : ℕ) (mem : Memory)
    → ((i : ℕ) → i < n → memset d c n mem (d + i) ≡ c % 256)
      × ((a : ℕ) → (a < d) ⊎ (d + n ≤ a) → memset d c n mem a ≡ mem a)
unfolding memset
memset_lem d c n mem = (filled n d (c % 256) mem, filled_others n d (c % 256) mem)
