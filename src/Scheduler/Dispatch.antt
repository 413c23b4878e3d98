-- ===== src/Scheduler/Dispatch.antt =====
-- syscall.rs: the dispatch of a system call from its trap frame.
pub mod Account
pub mod Total
use vlad_os.Base.{Exec, done, expect, and_then, ℕ, none, some}
use vlad_os.Memory.{X86}
use vlad_os.Process.Status.{wait_status_address}
use vlad_os.Task.{TrapFrame}
use vlad_os.Syscall.{SyscallNumber, SysError, SysResult, from_raw, raw_return, to_rax}
use vlad_os.Syscall
use vlad_os.Scheduler.{
  Kernel, K, ◌>>>◌, Resume, resume, set_frame_rax, return_sys_error, current_process_id,
}
use vlad_os.Scheduler.Schedule.{switch_from_interrupt}
use vlad_os.Scheduler.Exit.{exit_current_from_interrupt}
use vlad_os.Scheduler.Wait.{waitpid_from_interrupt}
use vlad_os.Scheduler.Files.{
  sys_open_current, sys_read_current, sys_write_current, sys_close_current,
}
use vlad_os.Scheduler.Brk.{sys_brk_current}

-- `frame.rax = result`, and back to the caller's frame.
abbrev pub return_result : ℕ → K SysResult → K Resume
return_result frame_rsp m =
    m >>> λ r k. done (resume frame_rsp, set_frame_rax frame_rsp (to_rax r) k)

module _ (x : X86) where
  -- `VirtAddr::new` of a register.
  abbrev at_user : {A : Type 0} → ℕ → (ℕ → Exec A) → Exec A
  at_user address f = and_then (expect (x.virt_new address)) f

  -- The call with a number, its arguments in the registers of the frame.
  unfoldable pub call : SyscallNumber → ℕ → TrapFrame → Kernel → K Resume
  call SyscallNumber.yield frame_rsp frame k =
      switch_from_interrupt frame_rsp (set_frame_rax frame_rsp 0 k)
  call SyscallNumber.exit frame_rsp frame k = exit_current_from_interrupt x frame_rsp frame.rdi k
  call SyscallNumber.write frame_rsp frame k =
      at_user frame.rsi
        λ buf. return_result frame_rsp (sys_write_current x frame.rdi buf frame.rdx k)
  call SyscallNumber.get_pid frame_rsp frame k = and_then (current_process_id k) λ o. elim o [
    | some pid ↦ done (resume frame_rsp, set_frame_rax frame_rsp pid k)
    | none ↦ return_sys_error frame_rsp SysError.child k
  ]
  call SyscallNumber.wait_pid frame_rsp frame k =
      and_then (wait_status_address x.virt_new frame.rsi)
        λ status_ptr. waitpid_from_interrupt x frame_rsp frame.rdi status_ptr frame.rdx k
  call SyscallNumber.open_file frame_rsp frame k =
      at_user frame.rdi
        λ path. return_result frame_rsp (sys_open_current x path frame.rsi frame.rdx k)
  call SyscallNumber.read frame_rsp frame k =
      at_user frame.rsi
        λ buf. return_result frame_rsp (sys_read_current x frame.rdi buf frame.rdx k)
  call SyscallNumber.close frame_rsp frame k =
      return_result frame_rsp (sys_close_current frame.rdi k)
  call SyscallNumber.brk frame_rsp frame k = return_result frame_rsp (sys_brk_current x frame.rdi k)

  unfoldable pub dispatch : ℕ → Kernel → K Resume
  unfolding call
  dispatch frame_rsp k =
      let frame = k.frames frame_rsp in
      elim (from_raw frame.rax) [
        | some number ↦ call number frame_rsp frame k
        | none ↦ return_sys_error frame_rsp SysError.no_sys k
      ]
