-- ===== src/Scheduler/Dispatch/Total.antt =====
-- syscall.rs: a system call does not panic in a wired kernel, and leaves one.
use vlad_os.Base.{
  ◌==◌, Bool-cases, Option-cases, is_some, done, panic, expect, Yields-done, ℕ, ◌≡◌, refl, ap, inl,
  inr, true, none, some, arith,
}
use vlad_os.Memory.{X86, AddressLaws}
use vlad_os.Task.{finished, TrapFrame}
use vlad_os.Syscall.{SyscallNumber, SysResult, from_raw}
use vlad_os.Process.Follows.{Follows-refl}
use vlad_os.UserMemory.Total.{IsCanonical}
use vlad_os.Scheduler.{Kernel, K, Resume, put_frame, set_frame_rax}
use vlad_os.Scheduler.Sound.{Sound, Ensures}
use vlad_os.Scheduler.Wired.{Wired, Steady, Wired-Steady, Leaves, >>>-Leaves}
use vlad_os.Scheduler.Wired.Switch.{switch_from_interrupt-Wired}
use vlad_os.Scheduler.Wired.Current.{current_process}
use vlad_os.Scheduler.Exit.Total.{same-Steady}
use vlad_os.Scheduler.Exit.Finish.{finish_current_from_interrupt-Wired}
use vlad_os.Scheduler.Wait.Total.{waitpid-Wired}
use vlad_os.Scheduler.Exit.{exit_current_from_interrupt}
use vlad_os.Scheduler.Files.Balance.{CurrentRuns}
use vlad_os.Scheduler.Files.Total.{sys_close-Steady, sys_open-Steady, sys_read-Steady}
use vlad_os.Scheduler.Files.Total.Write.{sys_write-Steady}
use vlad_os.Scheduler.Brk.Total.{sys_brk-Steady}
use vlad_os.Scheduler.Dispatch.{return_result, call, dispatch, at_user}
use vlad_os.Scheduler.Dispatch.Account.{dispatch-Sound}

put_frame-Wired : (at : ℕ) (frame : TrapFrame) (k : Kernel) → Wired k → Wired (put_frame k at frame)
put_frame-Wired at frame k w =
    Wired-Steady (same-Steady k (put_frame k at frame) refl refl (Follows-refl k.processes)) w

-- `VirtAddr::new` accepts a register.
abbrev Accepts : X86 → ℕ → Type 0
Accepts x a = (b : ℕ) × (x.virt_new a ≡ some b)

-- The registers that a call reads as addresses hold ones that `VirtAddr::new` accepts, and an exit
-- has a task that ends.
abbrev pub Callable : X86 → Kernel → SyscallNumber → TrapFrame → Type 0
Callable x k SyscallNumber.exit frame = is_some k.current ≡ true
Callable x k SyscallNumber.write frame = Accepts x frame.rsi
Callable x k SyscallNumber.wait_pid frame = Accepts x frame.rsi
Callable x k SyscallNumber.open_file frame = Accepts x frame.rdi
Callable x k SyscallNumber.read frame = Accepts x frame.rsi
Callable x k _ frame = Unit

module _ (x : X86) (laws : AddressLaws x) (k : Kernel) (w : Wired k) where
  return_result-Wired :
      (frame_rsp : ℕ) (m : K SysResult)
      → Leaves (Steady k) m
      → Leaves Wired (return_result frame_rsp m)
  return_result-Wired frame_rsp m h =
      >>>-Leaves (Steady k) Wired m _ h (λ r k' s. put_frame-Wired _ _ k' (Wired-Steady s w))

  at_user-Wired :
      (address : ℕ) (f : ℕ → K Resume)
      → Accepts x address
      → ((a : ℕ) → IsCanonical x a → Leaves Wired (f a))
      → Leaves Wired (at_user x address f)
  at_user-Wired address f (b, e) h =
      Yields-done _ (expect (x.virt_new address)) f (ap expect e) (h b (laws.canonical address b e))

  call-Wired :
      (number : SyscallNumber) (frame_rsp : ℕ) (frame : TrapFrame)
      → Callable x k number frame
      → Leaves Wired (call x number frame_rsp frame k)
  unfolding call exit_current_from_interrupt
  call-Wired SyscallNumber.yield frame_rsp frame h =
      switch_from_interrupt-Wired frame_rsp (set_frame_rax frame_rsp 0 k) (put_frame-Wired _ _ k w)
  call-Wired SyscallNumber.exit frame_rsp frame h = elim (Option-cases k.current) [
    | inl n ↦ cc (rw n at h)
    | inr (current, c) ↦
        finish_current_from_interrupt-Wired x laws frame_rsp finished (some frame.rdi) none k
          current refl c w
  ]
  call-Wired SyscallNumber.write frame_rsp frame h =
      at_user-Wired frame.rsi _ h λ buf c.
        return_result-Wired frame_rsp _ (sys_write-Steady x laws frame.rdi buf frame.rdx k w)
  call-Wired SyscallNumber.get_pid frame_rsp frame h = elim (current_process k w) [
    | inl n ↦ rw n (put_frame-Wired _ _ k w)
    | inr (pid, p, c, runs) ↦ rw c (put_frame-Wired _ _ k w)
  ]
  call-Wired SyscallNumber.wait_pid frame_rsp frame (b, e) = elim (Bool-cases (frame.rsi == 0)) [
    | inl z ↦ rw z (waitpid-Wired x laws frame_rsp frame.rdi none frame.rdx k w)
    | inr z ↦ rw (z, e) (waitpid-Wired x laws frame_rsp frame.rdi (some b) frame.rdx k w)
  ]
  call-Wired SyscallNumber.open_file frame_rsp frame h = at_user-Wired frame.rdi _ h λ path c.
      return_result-Wired frame_rsp _ (sys_open-Steady x laws path frame.rsi frame.rdx k c w)
  call-Wired SyscallNumber.read frame_rsp frame h = at_user-Wired frame.rsi _ h λ buf c.
      return_result-Wired frame_rsp _ (sys_read-Steady x laws frame.rdi buf frame.rdx k c w)
  call-Wired SyscallNumber.close frame_rsp frame h =
      return_result-Wired frame_rsp _ (sys_close-Steady frame.rdi k w)
  call-Wired SyscallNumber.brk frame_rsp frame h =
      return_result-Wired frame_rsp _ (sys_brk-Steady x laws frame.rdi k w)

  -- In a wired kernel, where the call's pointers are accepted, a system call does not panic, and
  -- leaves a wired kernel.
  pub dispatch-Wired :
      (frame_rsp : ℕ)
      → ((number : SyscallNumber)
          → from_raw (k.frames frame_rsp).rax ≡ some number
          → Callable x k number (k.frames frame_rsp))
      → Leaves Wired (dispatch x frame_rsp k)
  unfolding dispatch
  dispatch-Wired frame_rsp h = elim (Option-cases (from_raw (k.frames frame_rsp).rax)) [
    | inl n ↦ rw (n, dispatch) (put_frame-Wired _ _ k w)
    | inr (number, e) ↦
        rw (e, dispatch) (call-Wired number frame_rsp (k.frames frame_rsp) (h number e))
  ]

-- The current process of a wired kernel has not ended.
pub Wired-CurrentRuns : (k : Kernel) → Wired k → CurrentRuns k
Wired-CurrentRuns k w pid p c e = elim (current_process k w) [
  | inl n ↦ cc (n, c)
  | inr (pid', p', c', (e', alive, fits)) ↦
      let same : pid ≡ pid' = ground (arith, c, c') in
      let is : p ≡ p' = ground (arith, rw same at e, e') in rw is alive
]

both : {A : Type 0} (m : K A) → Ensures Sound m → Leaves Wired m → Leaves (λ k. Sound k × Wired k) m
both (done (a, k)) s w = (s, w)
both panic s w = w

-- With `AddressLaws`: in a kernel where the tasks and processes fit together and each open file has as many references
-- as descriptors of processes refer to it, a system call whose pointers `VirtAddr::new` accepts
-- does not panic, and leaves such a kernel, whatever its number and arguments.
pub dispatch-Keeps :
    (x : X86)
    → AddressLaws x
    → (frame_rsp : ℕ) (k : Kernel) → Sound k
    → Wired k
    → ((number : SyscallNumber)
        → from_raw (k.frames frame_rsp).rax ≡ some number
        → Callable x k number (k.frames frame_rsp))
    → Leaves (λ k. Sound k × Wired k) (dispatch x frame_rsp k)
dispatch-Keeps x laws frame_rsp k s w h =
    both (dispatch x frame_rsp k) (dispatch-Sound x frame_rsp k s (Wired-CurrentRuns k w))
      (dispatch-Wired x laws k w frame_rsp h)
