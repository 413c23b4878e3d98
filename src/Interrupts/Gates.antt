-- ===== src/Interrupts/Gates.antt =====
-- interrupts.rs: `init_idt`, and which handler an interrupt reaches.
use vlad_os.Base.{◌==◌, if◌then◌else◌, ℕ, ◌≡◌, ◌↔◌, Bool, true, false, Option, none, some, arith}
use vlad_os.Interrupts.{timer, keyboard, yield, syscall, as_u8}

pub data Entry : Type 0 where
  breakpoint_handler page_fault_entry general_protection_entry double_fault_handler : Entry
  timer_interrupt_entry keyboard_entry yield_interrupt_entry : Entry
  syscall_interrupt_entry : Entry

-- `ring_3` where the entry has that privilege level, so that user code may raise the interrupt;
-- `stack_index` is the place of its stack in the interrupt stack table, if it has one.
pub record Gate : Type 0 where
  pub entry : Entry
  pub ring_3 : Bool
  pub stack_index : Option ℕ

-- The vectors of the exceptions, which the x86_64 architecture fixes.
abbrev breakpoint_vector : ℕ
breakpoint_vector = 3

abbrev double_fault_vector : ℕ
double_fault_vector = 8

abbrev general_protection_fault_vector : ℕ
general_protection_fault_vector = 13

abbrev page_fault_vector : ℕ
page_fault_vector = 14

-- `gdt::DOUBLE_FAULT_IST_INDEX`.
abbrev double_fault_ist_index : ℕ
double_fault_ist_index = 0

-- `set_handler_fn` and `set_handler_addr` of the entry of a vector.
abbrev set_gate : ℕ → Gate → (ℕ → Option Gate) → ℕ → Option Gate
set_gate index gate idt = λ v. if v == index then some gate else idt v

abbrev kernel_gate : Entry → Gate
kernel_gate entry = record { entry = entry; ring_3 = false; stack_index = none }

-- The entries in the order of their assignment, the first one innermost.
unfoldable pub init_idt : ℕ → Option Gate
unfolding as_u8
init_idt =
    let exceptions =
      set_gate double_fault_vector
        (record (kernel_gate double_fault_handler) { stack_index = some double_fault_ist_index })
        (set_gate general_protection_fault_vector (kernel_gate general_protection_entry) (
          set_gate page_fault_vector (kernel_gate page_fault_entry)
            (set_gate breakpoint_vector (kernel_gate breakpoint_handler) (λ v. none)))) in
    set_gate (as_u8 keyboard) (kernel_gate keyboard_entry) (
      set_gate (as_u8 syscall) (record (kernel_gate syscall_interrupt_entry) { ring_3 = true })
        (set_gate (as_u8 yield) (kernel_gate yield_interrupt_entry)
          (set_gate (as_u8 timer) (kernel_gate timer_interrupt_entry) exceptions)))

abbrev from_ring_3 : Option Gate → Bool
from_ring_3 none = false
from_ring_3 (some gate) = gate.ring_3

-- User code may raise the interrupt of system calls by an instruction, and no other, exceptions
-- included.
pub init_idt_lem : (v : ℕ) → (from_ring_3 (init_idt v) ≡ true) ↔ (v ≡ as_u8 syscall)
unfolding init_idt as_u8
init_idt_lem v = ground arith
