-- ===== src/Scheduler/Wait.antt =====
-- scheduler.rs: waitpid.
pub mod Account
pub mod Total
pub mod Keeps
pub mod Ends
pub mod Partial
pub mod Outcome
use vlad_os.Base.{
  ◌==◌, if◌then◌else◌, Result, ok, err, Exec, done, and_then, ℕ, not, ◌&&◌, ◌||◌, Option, none,
  some,
}
use vlad_os.Memory.{X86}
use vlad_os.UserMemory.{UserMemoryError, unmapped, validate_user_write_range}
use vlad_os.Process.Status.{running, zombie, wait_status_size}
use vlad_os.Process.{address_space_of, state_of, is_child}
use vlad_os.Task.{child_exit, running, blocked, process_id}
use vlad_os.Syscall.{SysError, raw_return, wnohang}
use vlad_os.Scheduler.{
  Kernel, K, ◌>>>◌, Resume, resume, task_at, put_task, set_saved_rsp, set_frame_rax,
  return_sys_error, current_process_id,
}
use vlad_os.Scheduler.Schedule.{run_next_or_leave}
use vlad_os.Scheduler.Exit.{complete_wait}

module _ (x : X86) where
  unfoldable pub validate_wait_status_target :
      ℕ → ℕ → Kernel → Exec (Result UserMemoryError (Unit {0}))
  validate_wait_status_target parent status_ptr k = elim (address_space_of k.processes parent) [
    | none ↦ done (err unmapped)
    | some space ↦ validate_user_write_range x k.memory space status_ptr wait_status_size
  ]

  abbrev validate_status : ℕ → Option ℕ → Kernel → Exec (Result UserMemoryError (Unit {0}))
  validate_status parent none k = done (ok tt)
  validate_status parent (some status_ptr) k = validate_wait_status_target parent status_ptr k

  -- The child still runs: report that, or block and run another task.
  unfoldable pub block_on_child : ℕ → ℕ → ℕ → Option ℕ → ℕ → Kernel → K Resume
  unfolding run_next_or_leave
  block_on_child frame_rsp current child status_ptr options k =
      if options == wnohang
      then done (resume frame_rsp, set_frame_rax frame_rsp 0 k)
      else (task_at k current λ t. run_next_or_leave current (
          put_task k current
            (record t { saved_rsp = frame_rsp; state = blocked (child_exit child status_ptr) })))

  -- The checks have passed.
  unfoldable pub wait_for : ℕ → ℕ → ℕ → Option ℕ → ℕ → Kernel → K Resume
  unfolding block_on_child complete_wait
  wait_for frame_rsp current child status_ptr options k = elim (state_of k.processes child) [
    | none ↦ return_sys_error frame_rsp SysError.child k
    | some (zombie _) ↦ set_saved_rsp current frame_rsp k >>> λ _ k₁.
        complete_wait x current child status_ptr k₁ >>> λ _ k₂. done (resume frame_rsp, k₂)
    | some running ↦ block_on_child frame_rsp current child status_ptr options k
  ]

  unfoldable pub waitpid_from_interrupt : ℕ → ℕ → Option ℕ → ℕ → Kernel → K Resume
  unfolding current_process_id validate_wait_status_target wait_for
  waitpid_from_interrupt frame_rsp child status_ptr options k = elim k.current [
    | none ↦ return_sys_error frame_rsp SysError.child k
    | some current ↦ task_at k current λ t. elim (process_id t) [
      | none ↦ return_sys_error frame_rsp SysError.child k
      | some parent ↦
          if not (options == 0) && not (options == wnohang)
          then return_sys_error frame_rsp SysError.invalid k
          else if child == 0 || not (is_child k.processes parent child)
          then return_sys_error frame_rsp SysError.child k
          else (and_then (validate_status parent status_ptr k) λ r. elim r [
            | err _ ↦ return_sys_error frame_rsp SysError.fault k
            | ok _ ↦ wait_for frame_rsp current child status_ptr options k
          ])
    ]
  ]
