-- ===== src/Start.antt =====
-- The start of the kernel: `initializeKernelBinary` of Kernel/kernel.c, and the table of interrupts of
-- Kernel/idtLoader.c. Memory is a function from addresses to bytes; the symbols of the linker are arguments, and
-- messages are left out.
pub mod Boot
pub mod Gates
use horaci_os.Prelude.{ℕ, ◌+◌, ◌-◌, ◌*◌, ◌/◌, ◌%◌, ◌^◌, ◌==◌, if◌then◌else◌, assign}
use horaci_os.MemoryManager.{MemoryManager, init_memory_manager}
use horaci_os.Bytes.{Memory, memset, load_modules}

unfoldable pub page_size : ℕ
page_size = 0x1000

-- `sampleCodeModuleAddress`, `sampleDataModuleAddress` and `memoryBaseAddress`.
unfoldable pub sample_code_module_address : ℕ
sample_code_module_address = 0x400000

unfoldable pub sample_data_module_address : ℕ
sample_data_module_address = 0x500000

unfoldable pub memory_base_address : ℕ
memory_base_address = 0x900000

-- The memory of `main`, of 128 MB.
unfoldable pub main_memory : MemoryManager
main_memory = init_memory_manager memory_base_address (128 * 2 ^ 20)

unfoldable pub clear_bss : ℕ → ℕ → Memory → Memory
clear_bss bss_address bss_size mem = memset bss_address 0 bss_size mem

unfoldable pub get_stack_base : ℕ → ℕ
get_stack_base end_of_kernel = end_of_kernel + page_size * 8 - 8

-- The array of the addresses of modules.
unfoldable pub module_addresses : ℕ → ℕ
module_addresses i = if i == 0 then sample_code_module_address else sample_data_module_address

-- The base of the stack, and the memory.
unfoldable pub initialize_kernel_binary : ℕ → ℕ → ℕ → Memory → ℕ × Memory
initialize_kernel_binary end_of_kernel_binary bss end_of_kernel mem = (
  get_stack_base end_of_kernel,
  clear_bss bss (end_of_kernel - bss) (load_modules end_of_kernel_binary module_addresses mem),
)

-- `DESCR_INT`.
pub record Descriptor : Type 0 where
  pub offset_l : ℕ
  pub selector : ℕ
  pub cero : ℕ
  pub access : ℕ
  pub offset_m : ℕ
  pub offset_h : ℕ
  pub other_cero : ℕ

-- ACS_INT.
unfoldable pub acs_int : ℕ
acs_int = 0x80 + 0x0E

unfoldable pub setup_idt_entry : ℕ → ℕ → (ℕ → Descriptor) → ℕ → Descriptor
setup_idt_entry index offset idt = assign idt index (record {
  offset_l = offset % 2 ^ 16;
  selector = 8;
  cero = 0;
  access = acs_int;
  offset_m = offset / 2 ^ 16 % 2 ^ 16;
  offset_h = offset / 2 ^ 32 % 2 ^ 32;
  other_cero = 0;
})

-- The addresses of the handlers in Kernel/asm/interrupts.asm.
pub record Handlers : Type 0 where
  pub exception0_handler : ℕ
  pub exception6_handler : ℕ
  pub irq00_handler : ℕ
  pub irq01_handler : ℕ
  pub system_handler : ℕ

-- `load_idt` between the instructions that bar interrupts, admit the timer and the keyboard, and admit interrupts.
unfoldable pub load_idt : Handlers → (ℕ → Descriptor) → ℕ → Descriptor
load_idt h idt = setup_idt_entry 0x80 h.system_handler (
    setup_idt_entry 0 h.exception0_handler (
      setup_idt_entry 0x21 h.irq01_handler (
        setup_idt_entry 0x20 h.irq00_handler
          (setup_idt_entry 6 h.exception6_handler (setup_idt_entry 0 h.exception0_handler idt)))))
