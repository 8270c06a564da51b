-- ===== src/Start/Gates.antt =====
-- Where the interrupts go.
use horaci_os.Prelude.{ℕ, ◌+◌, ◌*◌, ◌^◌, ◌<◌, ◌≡◌, ◌≢◌, arith}
use horaci_os.Start.{Descriptor, Handlers, setup_idt_entry, load_idt}

-- The address that the processor reads from a descriptor.
unfoldable pub offset_of : Descriptor → ℕ
offset_of d = d.offset_l + 2 ^ 16 * d.offset_m + 2 ^ 32 * d.offset_h

-- An entry holds its handler's whole address.
pub setup_idt_entry_lem :
    (index offset : ℕ) (idt : ℕ → Descriptor)
    → offset < 2 ^ 64
    → offset_of (setup_idt_entry index offset idt index) ≡ offset
unfolding offset_of setup_idt_entry
setup_idt_entry_lem index offset idt lt = ground arith

-- After load_idt each of the five interrupts goes to its handler, and the other entries are as they were.
pub load_idt_lem :
    (h : Handlers) (idt : ℕ → Descriptor)
    → h.exception0_handler < 2 ^ 64
    → h.exception6_handler < 2 ^ 64
    → h.irq00_handler < 2 ^ 64
    → h.irq01_handler < 2 ^ 64
    → h.system_handler < 2 ^ 64
    → (offset_of (load_idt h idt 0) ≡ h.exception0_handler)
      × (offset_of (load_idt h idt 6) ≡ h.exception6_handler)
      × (offset_of (load_idt h idt 32) ≡ h.irq00_handler)
      × (offset_of (load_idt h idt 33) ≡ h.irq01_handler)
      × (offset_of (load_idt h idt 128) ≡ h.system_handler)
      × ((i : ℕ) → i ≢ 0 → i ≢ 6 → i ≢ 32 → i ≢ 33 → i ≢ 128 → load_idt h idt i ≡ idt i)
unfolding offset_of setup_idt_entry load_idt
load_idt_lem h idt a b c d e = (
  omega arith,
  omega arith,
  omega arith,
  omega arith,
  omega arith,
  λ i n₀ n₆ n₃₂ n₃₃ n₁₂₈. ground arith,
)
