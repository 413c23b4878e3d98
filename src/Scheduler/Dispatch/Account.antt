-- ===== src/Scheduler/Dispatch/Account.antt =====
-- syscall.rs: a system call keeps the open files accounted for.
use vlad_os.Base.{Option-cases, expect, ℕ, inl, inr, none, some}
use vlad_os.Memory.{X86}
use vlad_os.Process.Status.{wait_status_address}
use vlad_os.Task.{finished, TrapFrame}
use vlad_os.Syscall.{SyscallNumber, SysResult, from_raw}
use vlad_os.Scheduler.{Kernel, K, Resume, set_frame_rax, current_process_id}
use vlad_os.Scheduler.Sound.{
  Sound, Ensures, >>>-Ensures, and_then-Ensures, switch_from_interrupt-Sound,
}
use vlad_os.Scheduler.Exit.Release.{finish_current_from_interrupt-Sound}
use vlad_os.Scheduler.Wait.Account.{waitpid-Sound}
use vlad_os.Scheduler.Exit.{exit_current_from_interrupt}
use vlad_os.Scheduler.Files.Balance.{CurrentRuns, sys_open-Sound, sys_close-Sound}
use vlad_os.Scheduler.Files.Transfer.{sys_read-Sound, sys_write-Sound}
use vlad_os.Scheduler.Brk.Account.{sys_brk-Sound}
use vlad_os.Scheduler.Dispatch.{return_result, call, dispatch, at_user}

return_result-Sound :
    (frame_rsp : ℕ) (m : K SysResult) → Ensures Sound m → Ensures Sound (return_result frame_rsp m)
return_result-Sound frame_rsp m h = >>>-Ensures Sound m _ h (λ r k s. s)

module _ (x : X86) (k : Kernel) (s : Sound k) (runs : CurrentRuns k) where
  at_user-Sound :
      (address : ℕ) (f : ℕ → K Resume)
      → ((a : ℕ) → Ensures Sound (f a))
      → Ensures Sound (at_user x address f)
  at_user-Sound address f g = and_then-Ensures Sound (expect (x.virt_new address)) f (λ a e. g a)

  call-Sound :
      (number : SyscallNumber) (frame_rsp : ℕ) (frame : TrapFrame)
      → Ensures Sound (call x number frame_rsp frame k)
  unfolding call exit_current_from_interrupt
  call-Sound SyscallNumber.yield frame_rsp frame =
      switch_from_interrupt-Sound frame_rsp (set_frame_rax frame_rsp 0 k) s
  call-Sound SyscallNumber.exit frame_rsp frame =
      finish_current_from_interrupt-Sound x frame_rsp finished (some frame.rdi) none k s
  call-Sound SyscallNumber.write frame_rsp frame =
      at_user-Sound frame.rsi _
        λ buf. return_result-Sound frame_rsp _ (sys_write-Sound x frame.rdi buf frame.rdx k s)
  call-Sound SyscallNumber.get_pid frame_rsp frame =
      and_then-Ensures Sound (current_process_id k) _
        λ o e. elim (Option-cases o) [ inl n ↦ rw n s | inr (pid, h) ↦ rw h s ]
  call-Sound SyscallNumber.wait_pid frame_rsp frame =
      and_then-Ensures Sound (wait_status_address x.virt_new frame.rsi) _
        λ status_ptr e. waitpid-Sound x frame_rsp frame.rdi status_ptr frame.rdx k s
  call-Sound SyscallNumber.open_file frame_rsp frame =
      at_user-Sound frame.rdi _
        λ path. return_result-Sound frame_rsp _ (sys_open-Sound x path frame.rsi frame.rdx k s runs)
  call-Sound SyscallNumber.read frame_rsp frame =
      at_user-Sound frame.rsi _
        λ buf. return_result-Sound frame_rsp _ (sys_read-Sound x frame.rdi buf frame.rdx k s)
  call-Sound SyscallNumber.close frame_rsp frame =
      return_result-Sound frame_rsp _ (sys_close-Sound frame.rdi k s runs)
  call-Sound SyscallNumber.brk frame_rsp frame =
      return_result-Sound frame_rsp _ (sys_brk-Sound x k s frame.rdi)

-- Where each open file has as many references as descriptors of processes refer to it, and the
-- current process has not ended, a system call that does not panic leaves a kernel with such
-- references, whatever its number and arguments, and whether it succeeds or not.
pub dispatch-Sound :
    (x : X86) (frame_rsp : ℕ) (k : Kernel)
    → Sound k
    → CurrentRuns k
    → Ensures Sound (dispatch x frame_rsp k)
unfolding dispatch
dispatch-Sound x frame_rsp k s runs = elim (Option-cases (from_raw (k.frames frame_rsp).rax)) [
  | inl n ↦ rw (n, dispatch) s
  | inr (number, e) ↦ rw (e, dispatch) (call-Sound x k s runs number frame_rsp (k.frames frame_rsp))
]
