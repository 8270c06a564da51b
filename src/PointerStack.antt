-- ===== src/PointerStack.antt =====
-- The stack of pointers (Kernel/non_sizable_stack.c): an array of SIZE and the number of pointers on
-- it. A pointer is an `Option`, with `none` for NULL. The struct's field `one` is never read.
pub mod Refine
use horaci_os.Prelude.{
  ℕ, ◌+◌, ◌-◌, List, Option, none, some, Bool, true, false, ◌==◌, leb, ltb, if◌then◌else◌, get_or,
  set, replicate,
}

-- SIZE.
unfoldable pub stack_size : ℕ
stack_size = 10

pub record PointerStack {ℓ} (A : Type ℓ) : Type ℓ where
  pub stack : List (Option A)
  pub position : ℕ

module _ {ℓ} {A : Type ℓ} where
  unfoldable pub init : PointerStack A
  init = record { stack = replicate stack_size none; position = 0 }

  unfoldable pub peek : PointerStack A → Option A
  peek s = if ltb 0 s.position then get_or s.stack (s.position - 1) none else none

  -- The flag is the value that is returned.
  unfoldable pub push : PointerStack A → Option A → Bool × PointerStack A
  push s x =
      if leb stack_size s.position
      then (false, s)
      else (true, record { stack = set s.stack s.position x; position = s.position + 1 })

  -- What is popped stays in the array.
  unfoldable pub pop : PointerStack A → Option A × PointerStack A
  pop s =
      if s.position == 0
      then (none, s)
      else (get_or s.stack (s.position - 1) none, record s { position = s.position - 1 })

  unfoldable pub is_empty : PointerStack A → Bool
  is_empty s = s.position == 0

  unfoldable pub count : PointerStack A → ℕ
  count s = s.position
