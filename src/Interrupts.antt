-- ===== src/Interrupts.antt =====
-- interrupts.rs: the interrupt descriptor table and the handlers behind its entries.
pub mod Gates
pub mod Timer
pub mod Steps
use vlad_os.Base.{
  ◌==◌, if◌then◌else◌, Exec, done, and_then, ℕ, ◌+◌, ◌%◌, Bool, Option, none, some, List, [], ◌∷◌,
  ◌++◌,
}
use vlad_os.Words.{u64_mod}
use vlad_os.Memory.{X86}
use vlad_os.Syscall.{syscall_vector}
use vlad_os.Task.{UserFaultKind, general_protection, page_fault, UserFaultInfo, TrapFrame}
use vlad_os.Scheduler.{Kernel, K, Resume}
use vlad_os.Scheduler.Schedule.{switch_from_interrupt, on_timer_interrupt}
use vlad_os.Scheduler.Exit.{fail_current_with_fault}
use vlad_os.Scheduler.Dispatch.{dispatch}

abbrev pub pic_1_offset : ℕ
pic_1_offset = 32

abbrev pub pic_2_offset : ℕ
pic_2_offset = pic_1_offset + 8

abbrev pub yield_vector : ℕ
yield_vector = pic_2_offset + 8

pub data InterruptIndex : Type 0 where
  timer keyboard yield syscall : InterruptIndex

unfoldable pub as_u8 : InterruptIndex → ℕ
as_u8 timer = pic_1_offset
as_u8 keyboard = pic_1_offset + 1
as_u8 yield = yield_vector
as_u8 syscall = syscall_vector

-- The stack of an exception with an error code: the words of a trap frame, and the code.
pub record TrapFrameWithErrorCode : Type 0 where
  pub registers : TrapFrame
  pub error_code : ℕ

-- Below the scheduler: the ticks counted, the interrupts acknowledged to the PICs, the frames of
-- exceptions by their address, and the address that `Cr2::read` returns.
pub record Cpu : Type 0 where
  pub kernel : Kernel
  pub timer_ticks : ℕ
  pub acknowledged : List ℕ
  pub fault_frames : ℕ → TrapFrameWithErrorCode
  pub cr2 : ℕ

-- A handler returns, or stops the machine in `hlt_loop`.
pub data Outcome : Type 0 where
  returns : Resume → Outcome
  halts : Outcome

abbrev pub Handled : Type 0
Handled = Exec (Outcome × Cpu)

-- The outcome of a handler of the scheduler.
abbrev pub in_kernel : Cpu → K Resume → Handled
in_kernel c m = and_then m λ r. let (next, k) = r in done (returns next, record c { kernel = k })

-- `fetch_add` wraps around.
unfoldable pub timer_interrupt_rust : ℕ → Cpu → Handled
timer_interrupt_rust frame_rsp c =
    let ticked : Cpu = record c { timer_ticks = (c.timer_ticks + 1) % u64_mod } in
    and_then (in_kernel ticked (on_timer_interrupt frame_rsp c.kernel)) λ r.
      let (next, c') = r in
      done (next, record c' { acknowledged = c'.acknowledged ++ (as_u8 timer ∷ []) })

unfoldable pub yield_interrupt_rust : ℕ → Cpu → Handled
yield_interrupt_rust frame_rsp c = in_kernel c (switch_from_interrupt frame_rsp c.kernel)

-- `frame.cs & 0x3 == 0x3`: the exception comes from user mode.
abbrev pub from_user : TrapFrameWithErrorCode → Bool
from_user frame = frame.registers.cs % 4 == 3

-- What a fault of a user program is recorded as.
abbrev pub fault_of : UserFaultKind → Option ℕ → TrapFrameWithErrorCode → UserFaultInfo
fault_of kind address frame = record {
  kind = kind;
  address = address;
  error_code = frame.error_code;
}

module _ (x : X86) where
  unfoldable pub syscall_interrupt_rust : ℕ → Cpu → Handled
  syscall_interrupt_rust frame_rsp c = in_kernel c (dispatch x frame_rsp c.kernel)

  unfoldable pub general_protection_rust : ℕ → Cpu → Handled
  general_protection_rust frame_rsp c =
      let frame = c.fault_frames frame_rsp in
      if from_user frame
      then in_kernel c
          (fail_current_with_fault x frame_rsp (fault_of general_protection none frame) c.kernel)
      else done (halts, c)

  unfoldable pub page_fault_rust : ℕ → Cpu → Handled
  page_fault_rust frame_rsp c =
      let frame = c.fault_frames frame_rsp in
      if from_user frame
      then in_kernel c
          (fail_current_with_fault x frame_rsp (fault_of page_fault (some c.cr2) frame) c.kernel)
      else done (halts, c)

-- The scancode is printed only.
unfoldable pub keyboard_interrupt_handler : Cpu → Cpu
keyboard_interrupt_handler c = record c { acknowledged = c.acknowledged ++ (as_u8 keyboard ∷ []) }
