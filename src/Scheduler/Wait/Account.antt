-- ===== src/Scheduler/Wait/Account.antt =====
-- scheduler.rs: waitpid keeps the open files accounted for.
use vlad_os.Base.{
  ◌==◌, if◌then◌else◌, Bool-cases, Option-cases, ok, err, and_then, Result-cases, ℕ, inl, inr, not,
  ◌&&◌, ◌||◌, Option,
}
use vlad_os.Memory.{X86}
use vlad_os.Process.Status.{running, zombie}
use vlad_os.Process.{state_of, is_child}
use vlad_os.Task.{child_exit, running, blocked, process_id}
use vlad_os.Syscall.{SysError, wnohang}
use vlad_os.Scheduler.{Kernel, Resume, put_task, set_saved_rsp, return_sys_error}
use vlad_os.Scheduler.Sound.{
  Sound, Ensures, >>>-Ensures, and_then-Ensures, task_at-Ensures, run_next_or_leave-Sound,
}
use vlad_os.Scheduler.Exit.{complete_wait}
use vlad_os.Scheduler.Exit.Release.{complete_wait-Sound}
use vlad_os.Scheduler.Wait.{block_on_child, wait_for, waitpid_from_interrupt, validate_status}

module _ (x : X86) (frame_rsp child : ℕ) (status_ptr : Option ℕ) (options : ℕ) where
  block_on_child-Sound :
      (current : ℕ) (k : Kernel)
      → Sound k
      → Ensures Sound (block_on_child x frame_rsp current child status_ptr options k)
  unfolding block_on_child
  block_on_child-Sound current k s = elim (Bool-cases (options == wnohang)) [
    | inl b ↦ rw b s
    | inr b ↦ rw b (
        task_at-Ensures Sound k current _ (λ t e.
          run_next_or_leave-Sound current
            (put_task k current
              (record t { saved_rsp = frame_rsp; state = blocked (child_exit child status_ptr) }))
            s))
  ]

  wait_for-Sound :
      (current : ℕ) (k : Kernel)
      → Sound k
      → Ensures Sound (wait_for x frame_rsp current child status_ptr options k)
  unfolding wait_for
  wait_for-Sound current k s = elim (Option-cases (state_of k.processes child)) [
    | inl n ↦ rw (n, wait_for) s
    | inr (running, e) ↦ rw (e, wait_for) (block_on_child-Sound current k s)
    | inr (zombie exit, e) ↦
        rw (e, wait_for)
          (>>>-Ensures Sound (set_saved_rsp current frame_rsp k) _
            (task_at-Ensures Sound k current _ (λ t at. s))
            λ _ k₁ s₁.
              >>>-Ensures Sound (complete_wait x current child status_ptr k₁) _
                (complete_wait-Sound x current child status_ptr k₁ s₁) (λ _ k₂ s₂. s₂))
  ]

  -- Where each open file has as many references as descriptors of processes refer to it, a waitpid
  -- that does not panic leaves a kernel with such references, whether it fails, reports a child,
  -- reaps one or blocks.
  pub waitpid-Sound :
      (k : Kernel)
      → Sound k
      → Ensures Sound (waitpid_from_interrupt x frame_rsp child status_ptr options k)
  unfolding waitpid_from_interrupt
  waitpid-Sound k s = elim (Option-cases k.current) [
    | inl n ↦ rw (n, waitpid_from_interrupt) s
    | inr (current, c) ↦
        rw (c, waitpid_from_interrupt)
          (task_at-Ensures Sound k current _ λ t e. elim (Option-cases (process_id t)) [
            | inl n ↦ rw n s
            | inr (parent, at) ↦ rw at (with_parent current parent)
          ])
  ]
    where
      with_parent :
          (current parent : ℕ)
          → Ensures Sound {A = Resume} (
              if not (options == 0) && not (options == wnohang)
              then return_sys_error frame_rsp SysError.invalid k
              else if child == 0 || not (is_child k.processes parent child)
              then return_sys_error frame_rsp SysError.child k
              else (and_then (validate_status x parent status_ptr k) λ r. elim r [
                | err _ ↦ return_sys_error frame_rsp SysError.fault k
                | ok _ ↦ wait_for x frame_rsp current child status_ptr options k
              ]))
      with_parent current parent =
          elim (Bool-cases (not (options == 0) && not (options == wnohang))) [
            | inl b ↦ rw b s
            | inr b ↦
                rw b (elim (Bool-cases (child == 0 || not (is_child k.processes parent child))) [
                  | inl c ↦ rw c s
                  | inr c ↦ rw c (
                      and_then-Ensures Sound (validate_status x parent status_ptr k) _ λ r v.
                        elim (Result-cases r) [
                          | inl (u, e) ↦ rw e (wait_for-Sound current k s)
                          | inr (u, e) ↦ rw e s
                        ])
                ])
          ]
